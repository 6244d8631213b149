-- ===== src/Pool/Parent.antt =====
-- `RunParent` of src/ProcessPool.h. The waits on the epoll set are a list.
pub mod Select
pub mod RoundRobin
pub mod Signals
pub mod Safety
pub mod Stop
pub mod Turns
use simple_http_serv.Prelude.{
  ℕ, zero, suc, ◌+◌, ◌%◌, Bool, true, false, not, ◌&&◌, ◌||◌, Option, List, [], ◌∷◌, ◌++◌, Run, ok,
  fault, no_fuel, ◌>>=◌, ◌==◌, if◌then◌else◌,
}
use simple_http_serv.Prelude.Int.{ℤ, minus_one, eq_ℤ}
use simple_http_serv.Sys.{Ending, left, waiting}
use simple_http_serv.Sys.{
  Action, close, send, kill, Errno, eintr, Received, failed, bytes, Event, Wait, wait_failed, ready,
  sigint, sigterm, sigchld,
}
use simple_http_serv.Pool.Process.{Process, SigAnswers, setup_epoll, setup_sig_pipe}
use simple_http_serv.Epoll.{test_epoll_add_fd_lt}
use simple_http_serv.Pool.Create.{ProcessPool}
use simple_http_serv.Pool.Turn.{select_from}

-- The parent's pool, its `sub_process_idx`, and what it has asked of the kernel.
pub record Parent : Type 0 where
  pub pool : ProcessPool
  pub sub_process_idx : ℕ

-- Before the loop; `epollfd` is what `epoll_create` returns.
unfoldable pub setup_parent :
    (epollfd : ℤ) (answers : SigAnswers) → ProcessPool → Run (Process × (ℤ × ℤ) × List Action)
unfolding setup_epoll setup_sig_pipe
setup_parent epollfd answers pool = do
  p ← setup_epoll epollfd (pool.proc 0)
  (fds, actions) ← setup_sig_pipe answers p
  ok (p, fds, test_epoll_add_fd_lt p.epollfd p.listenfd ++ actions)

-- `proc_[sel].pid_ != -1 && sel != pa_pool_id`, with `pa_pool_id` 0.
abbrev pub is_child : (ℕ → Process) → ℕ → Bool
is_child proc sel = not (eq_ℤ (proc sel).pid minus_one) && not (sel == 0)

-- The child that the next connection goes to: one turn round the table is enough.
unfoldable pub select_child : ProcessPool → (sub_process_idx : ℕ) → Run ℕ
select_child pool start =
    select_from (pool.num_proc + 1) (pool.num_proc + 1) (is_child pool.proc) start start

-- "1" with its NUL, to the selected child, which accepts the connection.
abbrev pub has_new_conn : List ℕ
has_new_conn = b'1' ∷ 0 ∷ []

unfoldable pub on_connection : Parent → Run (Parent × List Action)
on_connection pa = do
  sel ← select_child pa.pool pa.sub_process_idx
  ok (
    record pa { sub_process_idx = (sel + 1) % (pa.pool.num_proc + 1) },
    send (pa.pool.proc sel).parent_wfd has_new_conn ∷ [],
  )

-- SIGTERM to each child from index `idx` on that has a process id.
unfoldable pub kill_children : (rounds idx : ℕ) → (ℕ → Process) → List Action
kill_children zero idx proc = []
kill_children (suc rounds) idx proc =
    (if is_child proc idx then kill (proc idx).pid sigterm ∷ [] else [])
    ++ kill_children rounds (idx + 1) proc

-- The `switch` on a byte of the signal pipe.
unfoldable pub on_signal : ProcessPool → ℕ → ProcessPool × List Action
unfolding kill_children
on_signal pool sig =
    if sig == sigint || sig == sigterm
    then (record pool { stop = true }, kill_children (pool.num_proc + 1) 0 pool.proc)
    else (pool, [])

unfoldable pub on_signals : ProcessPool → List ℕ → ProcessPool × List Action
unfolding on_signal
on_signals pool [] = (pool, [])
on_signals pool (sig ∷ sigs) =
    let (pool', actions) = on_signal pool sig in
    let (pool'', more) = on_signals pool' sigs in (pool'', actions ++ more)

-- `char sigs[10]`
abbrev pub sigs_size : ℕ
sigs_size = 10

-- Behind the `recv` on the signal pipe.
unfoldable pub on_sig_pipe : Parent → Received → Parent × List Action
on_sig_pipe pa (failed e) = (pa, [])
on_sig_pipe pa (bytes []) = (pa, [])
on_sig_pipe pa (bytes (sig ∷ sigs)) =
    let (pool, actions) = on_signals pa.pool (sig ∷ sigs) in (record pa { pool = pool }, actions)

-- One event of the parent's epoll set.
unfoldable pub parent_event : (listenfd sig_rfd : ℤ) → Parent → Event → Run (Parent × List Action)
unfolding on_sig_pipe
parent_event listenfd sig_rfd pa ev =
    if eq_ℤ ev.fd listenfd
    then on_connection pa
    else if eq_ℤ ev.fd sig_rfd && ev.is_in
    then ok (on_sig_pipe pa (ev.recv 0 ev.fd sigs_size))
    else ok (pa, [])

unfoldable pub parent_events :
    (listenfd sig_rfd : ℤ) → Parent → List Event → Run (Parent × List Action)
parent_events listenfd sig_rfd pa [] = ok (pa, [])
parent_events listenfd sig_rfd pa (ev ∷ evs) = do
  (pa', actions) ← parent_event listenfd sig_rfd pa ev
  (pa'', more) ← parent_events listenfd sig_rfd pa' evs
  ok (pa'', actions ++ more)

-- `while (!stop_)`, and the `close` behind it. A wait that was interrupted reports no event.
unfoldable pub run_parent :
    (listenfd sig_rfd epollfd : ℤ) → Parent → List Wait → Run (Ending × Parent × List Action)
run_parent listenfd sig_rfd epollfd pa [] =
    if pa.pool.stop then ok (left, pa, close epollfd ∷ []) else ok (waiting, pa, [])
run_parent listenfd sig_rfd epollfd pa (wait_failed eintr ∷ waits) =
    let rest = run_parent listenfd sig_rfd epollfd pa waits in
    if pa.pool.stop then ok (left, pa, close epollfd ∷ []) else rest
run_parent listenfd sig_rfd epollfd pa (wait_failed e ∷ waits) = ok (left, pa, close epollfd ∷ [])
run_parent listenfd sig_rfd epollfd pa (ready evs ∷ waits) =
    let turn = (do
      (pa', actions) ← parent_events listenfd sig_rfd pa evs
      (ending, pa'', more) ← run_parent listenfd sig_rfd epollfd pa' waits
      ok (ending, pa'', actions ++ more)) in
    if pa.pool.stop then ok (left, pa, close epollfd ∷ []) else turn
