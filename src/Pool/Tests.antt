-- ===== src/Pool/Tests.antt =====
-- The theorems on the process pool at concrete inputs.
mod Stops
use simple_http_serv.Prelude.{
  ℕ, zero, suc, ◌+◌, ◌≤◌, ◌<◌, ◌≡◌, refl, true, false, some, List, [], ◌∷◌, ◌++◌, arith, ok, ◌==◌,
  if◌then◌else◌, Any,
}
use simple_http_serv.Prelude.Int.{ℤ, pos}
use simple_http_serv.Sys.{left}
use simple_http_serv.Sys.{
  Action, close, Event, wait_failed, ready, eintr, bytes, refused, eagain, sigterm,
}
use simple_http_serv.Pool.Process.{Process}
use simple_http_serv.Pool.Create.{ProcessPool, Forks, forked_process}
use simple_http_serv.Pool.Create.Forking.{Forked}
use simple_http_serv.Pool.Parent.{Parent, is_child, select_child, parent_events}
use simple_http_serv.Pool.Parent as P
use simple_http_serv.Pool.Turn.{Selected}
use simple_http_serv.Pool.Parent.Select.{select_child-Selected}
use simple_http_serv.Pool.Parent.RoundRobin.{AllAlive, connections, turns, round_robin}
use simple_http_serv.Pool.Parent.Signals.{Kill}
use simple_http_serv.Pool.Parent.Safety.{Ends, run_parent-IsSafe}
use simple_http_serv.Pool.Parent.Stop.{run_parent-stops}
use simple_http_serv.Sys.{Accepted, accepted, failed, Recv, SockAddr, Wait}
use simple_http_serv.Prelude.{All, none_left, both}
use simple_http_serv.ReqStatMach.Batch.Handled.{IsSound}
use simple_http_serv.Pool.Child.{Fds, Child, leave}
use simple_http_serv.Pool.Child as Ch
use simple_http_serv.Pool.Child.Slots.{EventFits}
use simple_http_serv.Pool.Child.Loop.{events, Ended, run_child-Ended}
use simple_http_serv.Pool.Child.Sweep.{Closing, leave-closes}
use simple_http_serv.Pool.Program.{Kernel, Finishes, main, run_role, main-Finishes}
use simple_http_serv.Pool.Program.Stop.{main-stops}
use simple_http_serv.Pool.Turn.{select_from}
use simple_http_serv.Pool.Process.{setup_epoll, setup_sig_pipe, add_sigaction, add_sigactions}
use simple_http_serv.Pool.Create.{create, run, fork_loop, forked, find_child}
use simple_http_serv.Pool.Parent.{setup_parent, has_new_conn}
use simple_http_serv.Sys.{
  waiting, set_nonblocking, epoll_add_lt, epoll_add_et, sigaction, sigint, sigchld, send, kill,
}
use simple_http_serv.Pool.Child.Requests.{
  requests, requests-ClientLaws, new_clients, new_clients-Slots,
}

abbrev pairs : ℕ → ℤ × ℤ
pairs j = (pos (10 + j), pos (20 + j))

abbrev pids : ℕ → ℕ
pids j = 99 + j

-- The forks as the second child sees them, and as the parent does.
abbrev in_child : Forks
in_child = record {
  socketpair = λ j. some (pairs j);
  fork = λ j. if j == 2 then pos 0 else pos (suc (pids j));
  getpid = pos 99;
}

abbrev in_parent : Forks
in_parent = record in_child { fork = λ j. pos (suc (pids j)) }

in_child-Forked : Forked in_child 2 pairs pids
in_child-Forked = record { paired = λ j. refl; forks = λ j l. ground arith }

-- Two children, both alive.
abbrev table : ℕ → Process
table j = forked_process (pos (suc (pids j))) (pairs j)

abbrev pool : ProcessPool
pool = record { num_proc = 2; proc = table; stop = false }

abbrev parent : Parent
parent = record { pool = pool; sub_process_idx = 0 }

pool-AllAlive : AllAlive pool
pool-AllAlive = ((omega arith), λ j l h. ground arith)

select_child_example : Selected 3 (is_child table) 2 (select_child pool 2)
select_child_example = select_child-Selected pool 2 (omega arith)

abbrev event : ℤ → Event
event fd = record {
  fd = fd;
  is_in = true;
  recv = λ round fd len. bytes (sigterm ∷ []);
  accept = λ round. refused eagain;
}

round_robin_example :
    (idx : ℕ) × (parent_events
        (pos 5)
        (pos 7)
        parent
        (connections (pos 5) (event (pos 5) ∷ event (pos 5) ∷ event (pos 5) ∷ []))
      ≡ ok (record parent { sub_process_idx = idx }, turns pool 0 3))
round_robin_example =
    round_robin (pos 5) (pos 7) parent (event (pos 5) ∷ event (pos 5) ∷ event (pos 5) ∷ [])
      pool-AllAlive refl

run_parent_safe_example : Ends (pos 5) (pos 7) (pos 8) parent (
    P.run_parent
      (pos 5)
      (pos 7)
      (pos 8)
      parent
      (wait_failed eintr ∷ ready (event (pos 5) ∷ event (pos 7) ∷ []) ∷ []))
run_parent_safe_example =
    run_parent-IsSafe (pos 5) (pos 7) (pos 8)
      (wait_failed eintr ∷ ready (event (pos 5) ∷ event (pos 7) ∷ []) ∷ []) parent (omega arith)

-- One connection, accepted on descriptor 9; no data.
abbrev one_client : ℕ → Accepted
one_client zero = accepted 9 (record { sin_addr = 1; sin_port = 80 })
one_client (suc call) = refused eagain

abbrev no_data : Recv
no_data round fd len = failed eagain

abbrev child_event_of : ℕ → Event
child_event_of fd = record { fd = pos fd; is_in = true; recv = no_data; accept = one_client }

one_client-fits :
    (call fd : ℕ) (addr : SockAddr) → one_client call ≡ accepted fd addr → fd < Ch.max_clientfd
one_client-fits zero fd addr e = ground arith
one_client-fits (suc call) fd addr e = ground arith

child_event_of-Fits : (fd : ℕ) → fd < Ch.max_clientfd → EventFits (child_event_of fd)
child_event_of-Fits fd l = record {
  recv_fits = λ round fd len b e. ground arith;
  accept_fits = one_client-fits;
  index = fd;
  fd_index = refl;
  fd_fits = l;
}

abbrev fds : Fds
fds = record { epollfd = pos 4; ipc_pipefd = pos 6; sig_rfd = pos 7 }

abbrev new_child : Child requests fds
new_child = record { clients = new_clients; stop = false }

abbrev child_waits : List Wait
child_waits = ready (child_event_of 6 ∷ []) ∷ ready (child_event_of 9 ∷ []) ∷ []

run_child_example :
    Ended requests IsSound requests-ClientLaws fds (Ch.run_child requests fds new_child child_waits)
run_child_example =
    run_child-Ended requests IsSound requests-ClientLaws fds child_waits new_child
      (both (events (both (child_event_of-Fits 6 (omega arith)) none_left))
        (both (events (both (child_event_of-Fits 9 (omega arith)) none_left)) none_left))
      (new_clients-Slots fds)

-- The second child, from `main` on.
abbrev kernel : Kernel
kernel = record {
  socket = pos 5;
  bind = true;
  listen = true;
  forks = in_child;
  epollfd = pos 4;
  sig_answers = record { pair = some (pos 30, pos 31); sigaction_ret = λ signum. pos 0 };
  waits = child_waits;
}

main-Finishes_example : Finishes (pos 5) (main kernel)
main-Finishes_example =
    main-Finishes kernel 5 2 4 (pos 30) (pos 31) pairs pids refl refl refl in_child-Forked refl
      (omega arith) (omega arith) refl refl (λ signum. refl)
      (both (events (both (child_event_of-Fits 6 (omega arith)) none_left))
        (both (events (both (child_event_of-Fits 9 (omega arith)) none_left)) none_left))

leave_example :
    All (Closing requests fds new_clients) (leave requests fds new_child)
    × Any (λ a. a ≡ close (pos 4)) (leave requests fds new_child)
    × ((fd : ℕ)
        → fd < Ch.max_clientfd
        → requests.is_init (new_clients fd) (pos fd) ≡ true
        → Any (λ a. a ≡ close (pos fd)) (leave requests fds new_child))
leave_example = leave-closes requests fds new_child
