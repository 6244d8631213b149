-- ===== src/Examples/TimingChat/Loop.antt =====
-- The loop of examples/framework-intro/timing_group_chat_service.cc, over a list of turns.
use simple_http_serv.Prelude.{
  ℕ, ◌+◌, false, Option, none, some, List, [], ◌∷◌, ◌++◌, Run, ok, ◌>>=◌, ◌==◌, ltb, if◌then◌else◌,
}
use simple_http_serv.Prelude.Int.{ℤ, minus_one}
use simple_http_serv.Sys.{Action, close, Errno, eintr, Ending, left, waiting}
use simple_http_serv.Examples.Timers.{null}
use simple_http_serv.Examples.Chat.{PollFlags, no_flags}
use simple_http_serv.Examples.Chat.GroupChat.{listen_events}
use simple_http_serv.Examples.Chat.SignalChat.{st_idx_client}
use simple_http_serv.Examples.TimingChat.{
  TimedClient, TimingChat, Turn, read_signals, on_accept, serve, alarm_handler,
}

-- As `main` sets it up; the heap holds no timer.
abbrev pub new_timing_chat : (my_sockfd sig_pipe_rfd : ℤ) → (ℕ → TimedClient) → TimingChat
new_timing_chat my_sockfd sig_pipe_rfd clients = record {
  table = record {
    cnt = 0;
    fds = λ i.
        if i == 0
        then record { fd = my_sockfd; events = listen_events; revents = no_flags }
        else if i == 1
        then record { fd = sig_pipe_rfd; events = listen_events; revents = no_flags }
        else record { fd = minus_one; events = no_flags; revents = no_flags };
    clients = clients;
  };
  timers = record { head = null; tail = null; heap = λ _. none };
  stop = false;
  timeout = false;
}

abbrev pub set_revents : (ℕ → PollFlags) → TimingChat → TimingChat
set_revents r c = record c {
  table = record (c.table) {
    fds = λ i.
        if ltb i (st_idx_client + c.table.cnt)
        then record (c.table.fds i) { revents = r i }
        else c.table.fds i;
  };
}

-- Behind `poll`: a call that a signal interrupts is taken to leave `revents` as they were.
abbrev pub after_poll : Option Errno → (ℕ → PollFlags) → TimingChat → Option TimingChat
after_poll none r c = some (set_revents r c)
after_poll (some eintr) r c = some c
after_poll (some e) r c = none

module _ (k : ℕ) where
  -- Phases 0 to 3.
  unfoldable pub phases : Turn → TimingChat → Run (TimingChat × List Action)
  phases p c0 = do
    let c = read_signals p c0
    (c1, a1) ← if (c.table.fds 0).revents.pollin then on_accept k p c else ok (c, [])
    (c2, a2) ← serve k (c1.table.cnt + 1) p st_idx_client c1
    (c3, a3) ← if c2.timeout then alarm_handler k p.t_alarm c2 else ok (c2, [])
    ok (c3, a1 ++ (a2 ++ a3))

  -- `while (!kStop)`, and the `close` behind it.
  unfoldable pub run_timing_chat :
      (my_sockfd : ℤ) → List Turn → TimingChat → Run (Ending × TimingChat × List Action)
  run_timing_chat my_sockfd [] c =
      if c.stop then ok (left, c, close my_sockfd ∷ []) else ok (waiting, c, [])
  run_timing_chat my_sockfd (p ∷ ps) c =
      let turn : TimingChat → Run (Ending × TimingChat × List Action) = λ c'. (do
        (c'', actions) ← phases p c'
        (ending, c3, more) ← run_timing_chat my_sockfd ps c''
        ok (ending, c3, actions ++ more)) in
      if c.stop then ok (left, c, close my_sockfd ∷ []) else elim (after_poll p.error p.revents c) [
        | none ↦ ok (left, c, close my_sockfd ∷ [])
        | some c' ↦ turn c'
      ]
