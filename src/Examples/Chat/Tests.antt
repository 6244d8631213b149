-- ===== src/Examples/Chat/Tests.antt =====
-- The group chats with two clients, the first of which has hung up.
use simple_http_serv.Prelude.{
  ℕ, ◌+◌, ◌≤◌, ◌≡◌, refl, true, false, none, some, List, [], ◌∷◌, ◌++◌, arith, ok, ◌==◌,
  if◌then◌else◌, here, none_left, both,
}
use simple_http_serv.Prelude.Int.{pos, eq_ℤ}
use simple_http_serv.Sys.{Action, close, SockAddr, eintr, accepted, bytes, left, sigterm}
use simple_http_serv.Examples.Chat.{
  PollFlags, client_events, ClientData, Chat, Polled, filled, on_readable, phases,
}
use simple_http_serv.Examples.Chat.GroupChat.{Turn, run_group_chat}
use simple_http_serv.Examples.Chat.SignalChat.{st_idx_client, SignalChat, run_signal_chat}
use simple_http_serv.Examples.Chat.Table.{IsTable}
use simple_http_serv.Examples.Chat.Phases.{Serves, phases-Serves}
use simple_http_serv.Examples.Chat.Broadcast.{Reaches, on_readable-Reaches}
use simple_http_serv.Examples.Chat.Loop.{
  AcceptFits, GroupEnds, run_group_chat-IsSafe, SignalEnds, run_signal_chat-IsSafe,
}
use simple_http_serv.Examples.Chat.Stop.{run_signal_chat-stops}

abbrev addr : SockAddr
addr = record { sin_addr = 0x7f00_0001; sin_port = 40000 }

abbrev readable : PollFlags
readable = record { pollin = true; pollout = false; pollerr = false; pollrdhup = false }

abbrev hung_up : PollFlags
hung_up = record { pollin = true; pollout = false; pollerr = false; pollrdhup = true }

-- The entry `i` is the descriptor 3 + i.
abbrev two_clients : (gone : ℕ) → Chat
two_clients gone = record {
  cnt = 2;
  fds = λ i. record {
    fd = pos (3 + i);
    events = client_events;
    revents = if i == gone then hung_up else readable;
  };
  clients = λ i. record { client_sockaddr = addr; buf_to_write = none; recv_buf = [] };
}

two_clients-IsTable : (first gone : ℕ) → first ≤ 2 → IsTable first (two_clients gone)
two_clients-IsTable first gone l = record {
  bounded = omega arith;
  fits = λ j jl jh. (3 + j, refl, omega arith);
}

-- A third connection, and "hi" from whom one reads; a SIGTERM where that is the signal pipe.
abbrev polled : Polled
polled = record {
  error = none;
  revents = λ i. if i == 2 then hung_up else readable;
  accept = accepted 9 addr;
  recv = λ fd len. if eq_ℤ fd (pos 4) then bytes (sigterm ∷ []) else bytes (104 ∷ 105 ∷ []);
}

polled-AcceptFits : AcceptFits polled
polled-AcceptFits fd a e = ground arith

phases-Serves_example :
    (c' : Chat) × (actions : List Action) × (phases 1 polled (two_clients 1) ≡ ok (c', actions))
    × Serves 1 (two_clients 1) polled.accept c' actions
phases-Serves_example =
    phases-Serves 1 polled (two_clients 1) (two_clients-IsTable 1 1 (omega arith)) polled-AcceptFits

on_readable-Reaches_example :
    (clients : ℕ → ClientData) × (actions : List Action) × (on_readable 1
        (two_clients 1)
        (pos 5)
        (bytes (104 ∷ 105 ∷ []))
      ≡ ok (record (two_clients 1) { clients = clients }, actions))
    × Reaches 1 (two_clients 1) 1 (pos 5) (filled (104 ∷ 105 ∷ [])) actions
on_readable-Reaches_example =
    on_readable-Reaches 1 2 104 (105 ∷ []) (two_clients 1) (two_clients-IsTable 1 1 (omega arith))
      (omega arith) (omega arith)

abbrev turns : List Turn
turns = record { stop = false; polled = polled } ∷ record { stop = true; polled = polled } ∷ []

run_group_chat-IsSafe_example : GroupEnds (run_group_chat (pos 3) turns (two_clients 1))
run_group_chat-IsSafe_example =
    run_group_chat-IsSafe (pos 3) turns (two_clients 1)
      (both polled-AcceptFits (both polled-AcceptFits none_left))
      (two_clients-IsTable 1 1 (omega arith))

abbrev signal_chat : SignalChat
signal_chat = record { chat = two_clients 2; stop = false }

run_signal_chat-IsSafe_example : SignalEnds (run_signal_chat (pos 3) (polled ∷ []) signal_chat)
run_signal_chat-IsSafe_example =
    run_signal_chat-IsSafe (pos 3) (polled ∷ []) signal_chat (both polled-AcceptFits none_left)
      (two_clients-IsTable st_idx_client 2 (omega arith))

abbrev interrupted : Polled
interrupted = record polled { error = some eintr }

run_signal_chat-stops_example :
    (c' : Chat) × (actions : List Action) × (run_signal_chat (pos 3) (interrupted ∷ []) signal_chat
      ≡ ok (left, record signal_chat { chat = c'; stop = true }, actions ++ close (pos 3) ∷ []))
    × Serves st_idx_client (two_clients 2) polled.accept c' actions
run_signal_chat-stops_example =
    run_signal_chat-stops (pos 3) interrupted [] signal_chat signal_chat (sigterm ∷ []) refl refl
      refl refl (here refl) polled-AcceptFits (two_clients-IsTable st_idx_client 2 (omega arith))
