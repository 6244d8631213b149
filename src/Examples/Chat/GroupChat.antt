-- ===== src/Examples/Chat/GroupChat.antt =====
-- The loop of examples/framework-intro/group_chat_service.cc, over a list of turns.
use simple_http_serv.Prelude.{
  ℕ, Bool, true, false, Option, none, some, List, [], ◌∷◌, ◌++◌, Run, ok, ◌>>=◌, ◌==◌,
  if◌then◌else◌,
}
use simple_http_serv.Prelude.Int.{ℤ, minus_one}
use simple_http_serv.Sys.{Action, close, Errno, Ending, left, waiting}
use simple_http_serv.Examples.Chat.{
  PollFlags, no_flags, ClientData, Chat, Polled, set_revents, phases,
}

abbrev pub listen_events : PollFlags
listen_events = record { pollin = true; pollout = false; pollerr = true; pollrdhup = false }

-- The entry of the listening socket, and those that `poll` is to ignore.
abbrev pub new_chat : (my_sockfd : ℤ) → (ℕ → ClientData) → Chat
new_chat my_sockfd clients = record {
  cnt = 0;
  fds = λ i.
      if i == 0
      then record { fd = my_sockfd; events = listen_events; revents = no_flags }
      else record { fd = minus_one; events = no_flags; revents = no_flags };
  clients = clients;
}

-- `kStop` as the test of the loop finds it, which a handler may set at any time, and the kernel's
-- answers behind it.
pub record Turn : Type 0 where
  pub stop : Bool
  pub polled : Polled

abbrev pub is_failure : Option Errno → Bool
is_failure none = false
is_failure (some e) = true

-- `while (!kStop)`, and the `close` behind it.
unfoldable pub run_group_chat :
    (my_sockfd : ℤ) → List Turn → Chat → Run (Ending × Chat × List Action)
run_group_chat my_sockfd [] c = ok (waiting, c, [])
run_group_chat my_sockfd (t ∷ ts) c =
    let turn = (do
      (c', actions) ← phases 1 t.polled (set_revents 1 t.polled.revents c)
      (ending, c'', more) ← run_group_chat my_sockfd ts c'
      ok (ending, c'', actions ++ more)) in
    if t.stop
    then ok (left, c, close my_sockfd ∷ [])
    else if is_failure t.polled.error
    then ok (left, c, close my_sockfd ∷ [])
    else turn
