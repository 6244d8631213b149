-- ===== src/Examples/Chat/SignalChat.antt =====
-- The loop of examples/framework-intro/group_chat_service_sio.cc, over a list of the kernel's
-- answers. The entry 1 of the table is the signal pipe.
use simple_http_serv.Prelude.{
  ℕ, Bool, false, ◌||◌, Option, none, some, List, [], ◌∷◌, ◌++◌, Run, ok, ◌>>=◌, ◌==◌,
  if◌then◌else◌,
}
use simple_http_serv.Prelude.Int.{ℤ, minus_one}
use simple_http_serv.Sys.{
  Action, close, send, Errno, eintr, failed, bytes, Ending, left, waiting, sigterm,
}
use simple_http_serv.Examples.Chat.{
  PollFlags, no_flags, ClientData, Chat, Polled, set_revents, phases,
}
use simple_http_serv.Examples.Chat.GroupChat.{listen_events}

abbrev pub st_idx_client : ℕ
st_idx_client = 2

abbrev pub sigpipe_buf_size : ℕ
sigpipe_buf_size = 1025

-- A signal becomes a byte in the pipe.
abbrev pub gen_sig_io : (sig_pipe_wfd : ℤ) → (sig : ℕ) → List Action
gen_sig_io sig_pipe_wfd sig = send sig_pipe_wfd (sig ∷ []) ∷ []

-- The table, and `kStop`.
pub record SignalChat : Type 0 where
  pub chat : Chat
  pub stop : Bool

abbrev pub new_signal_chat : (my_sockfd sig_pipe_rfd : ℤ) → (ℕ → ClientData) → SignalChat
new_signal_chat my_sockfd sig_pipe_rfd clients = record {
  chat = record {
    cnt = 0;
    fds = λ i.
        if i == 0
        then record { fd = my_sockfd; events = listen_events; revents = no_flags }
        else if i == 1
        then record { fd = sig_pipe_rfd; events = listen_events; revents = no_flags }
        else record { fd = minus_one; events = no_flags; revents = no_flags };
    clients = clients;
  };
  stop = false;
}

-- The `switch` on each byte of the signal pipe.
abbrev pub stop_after : Bool → List ℕ → Bool
stop_after stop [] = stop
stop_after stop (sig ∷ sigs) = stop_after (stop || sig == sigterm) sigs

-- Phase 0.
unfoldable pub read_signals : Polled → SignalChat → SignalChat
read_signals p s =
    if (s.chat.fds 1).revents.pollin
    then elim (p.recv (s.chat.fds 1).fd sigpipe_buf_size) [
      | failed e ↦ s
      | bytes sigs ↦ record s { stop = stop_after s.stop sigs }
    ]
    else s

-- The body of the loop behind `poll`.
unfoldable pub serve_signal_chat : Polled → SignalChat → Run (SignalChat × List Action)
serve_signal_chat p s = do
  let s' = read_signals p s
  (c, actions) ← phases st_idx_client p s'.chat
  ok (record s' { chat = c }, actions)

-- Behind `poll`: an interruption goes on with the flags as they were.
abbrev pub after_poll : Option Errno → (ℕ → PollFlags) → SignalChat → Option SignalChat
after_poll none r s = some (record s { chat = set_revents st_idx_client r s.chat })
after_poll (some eintr) r s = some s
after_poll (some e) r s = none

-- `while (!kStop)`, and the `close` behind it.
unfoldable pub run_signal_chat :
    (my_sockfd : ℤ) → List Polled → SignalChat → Run (Ending × SignalChat × List Action)
run_signal_chat my_sockfd [] s =
    if s.stop then ok (left, s, close my_sockfd ∷ []) else ok (waiting, s, [])
run_signal_chat my_sockfd (p ∷ ps) s =
    let turn : SignalChat → Run (Ending × SignalChat × List Action) = λ s'. (do
      (s'', actions) ← serve_signal_chat p s'
      (ending, s3, more) ← run_signal_chat my_sockfd ps s''
      ok (ending, s3, actions ++ more)) in
    if s.stop then ok (left, s, close my_sockfd ∷ []) else elim (after_poll p.error p.revents s) [
      | none ↦ ok (left, s, close my_sockfd ∷ [])
      | some s' ↦ turn s'
    ]
