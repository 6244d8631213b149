-- ===== src/Examples/TimingChat/Tests/Runs.antt =====
-- A run of the timing group chat: a client connects, and then `poll` fails.
use simple_http_serv.Prelude.{
  ℕ, ◌≡◌, ◌==◌, true, refl, some, none, [], ◌∷◌, arith, if◌then◌else◌, none_left,
}
use simple_http_serv.Prelude.Int.{pos}
use simple_http_serv.Sys.{ebadf, accepted, bytes}
use simple_http_serv.Examples.Timers.{Ptr, null, Heap}
use simple_http_serv.Examples.Timers.Chain.{Cells, Chain, nil, cons}
use simple_http_serv.Examples.Chat.{no_flags}
use simple_http_serv.Examples.TimingChat.{TimedClient, TimingChat, Turn}
use simple_http_serv.Examples.TimingChat.Loop.{new_timing_chat, set_revents, run_timing_chat}
use simple_http_serv.Examples.TimingChat.Quiet.{InTime}
use simple_http_serv.Examples.TimingChat.Turns.{TurnFits}
use simple_http_serv.Examples.TimingChat.Orderly.{
  fails, goes_on, new_timing_chat-IsTimed, TimedEnds, run_timing_chat-IsTimed,
}

abbrev unset : ℕ → TimedClient
unset n = record {
  client_sockaddr = record { sin_addr = 0; sin_port = 0 };
  buf_to_write = none;
  recv_buf = [];
  pollfds_idx = 0;
  timer = null;
}

abbrev start : TimingChat
start = new_timing_chat (pos 3) (pos 4) unset

abbrev knock : Turn
knock = record {
  error = none;
  revents = λ i. if i == 0 then record no_flags { pollin = true } else no_flags;
  accept = accepted 8 (record { sin_addr = 1; sin_port = 80 });
  new_timer = 30;
  t_accept = 2;
  recv = λ fd len. bytes [];
  t_recv = λ fd. 2;
  t_alarm = 2;
}

abbrev broken : Turn
broken = record knock { error = some ebadf }

empty-InTime :
    {h : Heap} {prev cur : Ptr} {xs : Cells} (t : ℕ)
    → cur ≡ null
    → Chain h prev cur xs
    → InTime t xs
empty-InTime t e nil = none_left
empty-InTime t e (cons hx out c) = absurd (ground (arith, hx.not_null, e))

knock-TurnFits : TurnFits knock (set_revents knock.revents start)
knock-TurnFits = record {
  slot = λ fd addr a. ground arith;
  unused = λ fd addr a i il ih. absurd (omega arith);
  allocated = refl;
  free = refl;
  leaves = λ j jl jh g. absurd (omega arith);
  in_time = λ xs chain. empty-InTime 2 refl chain;
  accept_time = omega arith;
  recv_time = λ fd. omega arith;
}

run_timing_chat-IsTimed_example : TimedEnds (run_timing_chat 3 (pos 3) (knock ∷ broken ∷ []) start)
run_timing_chat-IsTimed_example =
    run_timing_chat-IsTimed 3 (omega arith) (pos 3) (knock ∷ broken ∷ []) start []
      (new_timing_chat-IsTimed (pos 3) (pos 4) unset)
      (goes_on refl knock-TurnFits (λ c actions e. fails refl))
