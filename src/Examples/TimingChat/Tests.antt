-- ===== src/Examples/TimingChat/Tests.antt =====
-- The timing group chat with two clients, on the descriptors 6 and 7.
mod Runs
use simple_http_serv.Prelude.{
  ◌++◌, All, length, ℕ, ◌+◌, ◌-◌, ◌≤◌, ◌<◌, ◌≡◌, refl, inl, inr, false, none, some, List, [], ◌∷◌,
  arith, ok, fault, assert_failed, ◌==◌, ==_iff, Bool-cases, if◌then◌else◌, here, there, sym, subst,
}
use simple_http_serv.Prelude.Int.{pos}
use simple_http_serv.Sys.{Action, close, alarm, SockAddr, accepted, bytes}
use simple_http_serv.Examples.Timers.{Heap, TimerSortedList}
use simple_http_serv.Examples.Timers.Chain.{IsTimers, Cell, Cells, nil, cons, insert_sorted, erase}
use simple_http_serv.Examples.Chat.{no_flags, client_events, filled}
use simple_http_serv.Examples.Chat.SignalChat.{st_idx_client}
use simple_http_serv.Examples.Chat.Broadcast.{Reaches}
use simple_http_serv.Examples.TimingChat.{
  client_alive_sec, Table, TimingChat, Turn, remove_client_from_poll, alarm_handler, on_accept,
  on_gone, on_readable,
}
use simple_http_serv.Examples.TimingChat.Entries.{Entry, IsTimed}
use simple_http_serv.Examples.TimingChat.Join.{new_cell, on_accept-IsTimed}
use simple_http_serv.Examples.TimingChat.Gone.{on_gone-IsTimed, on_gone-aborts}
use simple_http_serv.Examples.TimingChat.Silent.{expiry-closes_another}
use simple_http_serv.Examples.TimingChat.Visit.{on_accept-on_gone}
use simple_http_serv.Examples.TimingChat.Alarm.{FromLast, closes}
use simple_http_serv.Examples.TimingChat.Expiry.{alarm_handler-IsTimed}
use simple_http_serv.Examples.Timers.Tick.{expired, remaining}
use simple_http_serv.Examples.TimingChat.Message.{chat_of, on_readable-IsTimed}

abbrev addr : SockAddr
addr = record { sin_addr = 0x7f00_0001; sin_port = 40000 }

abbrev heap : Heap
heap a =
    if a == 10
    then some (record { prev = 0; next = 20; client_data = 6; t_expire = 5 })
    else if a == 20
    then some (record { prev = 10; next = 0; client_data = 7; t_expire = 8 })
    else none

abbrev cells : Cells
cells = record { at = 10; expire = 5; client = 6 } ∷ record { at = 20; expire = 8; client = 7 } ∷ []

-- The entry `i` is the descriptor 4 + i.
abbrev chat : TimingChat
chat = record {
  table = record {
    cnt = 2;
    fds = λ i. record { fd = pos (4 + i); events = client_events; revents = no_flags };
    clients = λ n. record {
      client_sockaddr = addr;
      buf_to_write = none;
      recv_buf = [];
      pollfds_idx = n - 4;
      timer = if n == 6 then 10 else 20;
    };
  };
  timers = record { head = 10; tail = 20; heap = heap };
  stop = false;
  timeout = false;
}

first-Entry : Entry chat cells 2 6
first-Entry = record { fd = refl; slot = omega arith; index = refl; owns = here (refl, refl) }

second-Entry : Entry chat cells 3 7
second-Entry = record {
  fd = refl;
  slot = omega arith;
  index = refl;
  owns = there (here (refl, refl));
}

two_entries : (i : ℕ) → 2 ≤ i → i < 4 → (n : ℕ) × Entry chat cells i n
two_entries i l h = elim (Bool-cases (i == 2)) [
  | inl e ↦ (6, subst (λ j. Entry chat cells j 6) (sym ((==_iff i 2).0 e)) first-Entry)
  | inr o ↦ (7, subst (λ j. Entry chat cells j 7) (ground (arith, o)) second-Entry)
]

timers_apart :
    (i j n m : ℕ)
    → 2 ≤ i
    → i < 4
    → 2 ≤ j
    → j < 4
    → Entry chat cells i n
    → Entry chat cells j m
    → (chat.table.clients n).timer ≡ (chat.table.clients m).timer
    → i ≡ j
timers_apart i j n m il ih jl jh e f s = ground (arith, e.index, f.index, e.fd, f.fd)

chat-IsTimed : IsTimed chat cells
chat-IsTimed = record {
  bounded = omega arith;
  chain =
      cons (record { not_null = refl; content = refl }) refl
        (cons (record { not_null = refl; content = refl }) refl nil);
  count = refl;
  sorted = (omega arith, (tt, tt));
  entry = two_entries;
  apart = timers_apart;
}

on_readable-IsTimed_example :
    (x : Cell) × (c' : TimingChat) × (actions : List Action) × (on_readable 3
        (pos 6)
        1
        (bytes (104 ∷ []))
        chat
      ≡ ok (c', actions))
    × Reaches st_idx_client (chat_of chat.table) st_idx_client (pos 6) (filled (104 ∷ [])) actions
    × (x.at ≡ 10)
    × (x.client ≡ 6)
    × IsTimed c' (insert_sorted (record x { expire = 1 + client_alive_sec }) (erase x.at cells))
on_readable-IsTimed_example =
    on_readable-IsTimed 3 chat cells 2 6 1 104 [] (omega arith) chat-IsTimed (omega arith)
      (omega arith) first-Entry

on_gone-IsTimed_example :
    (c' : TimingChat) × (on_gone 3 3 chat ≡ ok (c', close (pos 7) ∷ []))
    × IsTimed c' (erase 20 cells)
    × (c'.table.cnt + 1 ≡ 2)
    × ((j m : ℕ) → 2 ≤ j → j < 3 → Entry chat cells j m → Entry c' (erase 20 cells) j m)
on_gone-IsTimed_example =
    on_gone-IsTimed 3 chat cells 7 (omega arith) chat-IsTimed (omega arith) second-Entry

on_gone-aborts_example :
    (c' : TimingChat) × (on_gone 3 2 chat ≡ ok (c', close (pos 6) ∷ []))
    × (c'.table.cnt ≡ 1)
    × ((c'.table.fds 2).fd ≡ pos 7)
    × (on_gone 3 2 c' ≡ fault assert_failed)
on_gone-aborts_example =
    on_gone-aborts 3 chat cells 6 7 (omega arith) chat-IsTimed refl first-Entry second-Entry

-- A connection on the descriptor 8.
abbrev arrival : Turn
arrival = record {
  error = none;
  revents = λ i. no_flags;
  accept = accepted 8 addr;
  new_timer = 30;
  t_accept = 2;
  recv = λ fd len. bytes [];
  t_recv = λ fd. 2;
  t_alarm = 2;
}

expiry-closes_another_example :
    (c1 : TimingChat) × (c2 : TimingChat) × (t : Table) × (on_gone 3 2 chat
      ≡ ok (c1, close (pos 6) ∷ []))
    × (on_accept 3 arrival c1 ≡ ok (c2, []))
    × ((c2.table.fds 2).fd ≡ pos 7)
    × (remove_client_from_poll 7 c2.table ≡ ok (t, close (pos 8) ∷ []))
unfolding erase
expiry-closes_another_example =
    expiry-closes_another 3 chat cells 6 7 8 arrival addr (omega arith) chat-IsTimed refl
      first-Entry second-Entry refl (omega arith) (λ e. cc)
      (record { allocated = refl; unused = refl })

-- With one client.
abbrev alone : TimingChat
alone = record chat {
  table = record (chat.table) { cnt = 1 };
  timers = record {
    head = 10;
    tail = 10;
    heap = λ a.
        if a == 10
        then some (record { prev = 0; next = 0; client_data = 6; t_expire = 5 })
        else none;
  };
}

abbrev cell : Cells
cell = record { at = 10; expire = 5; client = 6 } ∷ []

alone-Entry : Entry alone cell 2 6
alone-Entry = record { fd = refl; slot = omega arith; index = refl; owns = here (refl, refl) }

alone-IsTimed : IsTimed alone cell
alone-IsTimed = record {
  bounded = omega arith;
  chain = cons (record { not_null = refl; content = refl }) refl nil;
  count = refl;
  sorted = (tt, tt);
  entry = λ i l h. (6, subst (λ j. Entry alone cell j 6) (omega arith) alone-Entry);
  apart = λ i j n m il ih jl jh e f s. omega arith;
}

on_accept-IsTimed_example :
    (c' : TimingChat) × (on_accept 3 arrival alone ≡ ok (c', []))
    × IsTimed c' (insert_sorted (new_cell arrival 8) cell)
    × (c'.table.cnt ≡ 2)
    × Entry c' (insert_sorted (new_cell arrival 8) cell) 3 8
    × ((c'.table.clients 8).timer ≡ 30)
    × ((i n : ℕ)
        → 2 ≤ i
        → i < 3
        → Entry alone cell i n
        → Entry c' (insert_sorted (new_cell arrival 8) cell) i n)
on_accept-IsTimed_example =
    on_accept-IsTimed 3 arrival 8 addr alone cell (omega arith) alone-IsTimed refl (omega arith)
      (omega arith) (λ i n l h e m. ground (arith, e.fd))
      (record { allocated = refl; unused = refl })

on_accept-on_gone_example :
    (c1 : TimingChat) × (c2 : TimingChat) × (on_accept 3 arrival alone ≡ ok (c1, []))
    × (on_gone 3 3 c1 ≡ ok (c2, close (pos 8) ∷ []))
    × IsTimed c2 cell
    × (c2.table.cnt ≡ 1)
    × ((i n : ℕ) → 2 ≤ i → i < 3 → Entry alone cell i n → Entry c2 cell i n)
on_accept-on_gone_example =
    on_accept-on_gone 3 arrival 8 addr alone cell (omega arith) alone-IsTimed refl (omega arith)
      (omega arith) (λ i n l h e m. ground (arith, e.fd))
      (record { allocated = refl; unused = refl })

alone-FromLast : FromLast alone.table (expired 6 cell)
unfolding expired
alone-FromLast = (omega arith, refl, omega arith, refl, tt)

alarm_handler-IsTimed_example :
    (c' : TimingChat) × (alarm_handler 3 6 alone ≡ ok (c', closes (expired 6 cell) ++ alarm 3 ∷ []))
    × IsTimed c' (remaining 6 cell)
    × (c'.table.cnt + length (expired 6 cell) ≡ 1)
    × All (λ x. 6 ≤ x.expire) (remaining 6 cell)
    × All (λ x. c'.timers.heap x.at ≡ none) (expired 6 cell)
alarm_handler-IsTimed_example =
    alarm_handler-IsTimed 3 6 alone cell (omega arith) alone-IsTimed alone-FromLast
