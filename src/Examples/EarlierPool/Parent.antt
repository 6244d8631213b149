-- ===== src/Examples/EarlierPool/Parent.antt =====
-- `run_parent` of src/examples/multitasking/processpool.h. The waits on the epoll set are a list.
pub mod Places
pub mod Select
pub mod Signals
pub mod Same
use simple_http_serv.Prelude.{
  ℕ, zero, suc, ◌+◌, ◌%◌, Bool, true, not, ◌&&◌, ◌||◌, List, [], ◌∷◌, ◌++◌, Run, ok, fault,
  out_of_bounds, ◌>>=◌, ◌==◌, ltb, if◌then◌else◌,
}
use simple_http_serv.Prelude.Int.{ℤ, minus_one, eq_ℤ}
use simple_http_serv.Sys.{Ending, left, waiting}
use simple_http_serv.Sys.{
  Action, close, send, kill, Errno, eintr, Received, failed, bytes, Event, Wait, wait_failed, ready,
  sigint, sigterm,
}
use simple_http_serv.Epoll.{test_epoll_add_fd_lt}
use simple_http_serv.Pool.Process.{SigAnswers}
use simple_http_serv.Pool.Turn.{select_from}
use simple_http_serv.Pool.Parent.{has_new_conn, sigs_size}
use simple_http_serv.Examples.EarlierPool.{Process, Processpool, setup_epoll, setup_sig_pipe}

-- The pool, and `sub_process_idx` of the loop.
pub record Parent : Type 0 where
  pub pool : Processpool
  pub sub_process_idx : ℕ

-- Before the loop; `epollfd` is what `epoll_create` returns.
unfoldable pub setup_parent :
    (epollfd : ℤ) (answers : SigAnswers) → Processpool → Run (Processpool × (ℤ × ℤ) × List Action)
unfolding setup_epoll setup_sig_pipe
setup_parent epollfd answers pool = do
  pool' ← setup_epoll epollfd pool
  (fds, actions) ← setup_sig_pipe answers pool'
  ok (pool', fds, test_epoll_add_fd_lt pool'.epollfd pool'.listenfd ++ actions)

-- `m_sub_process[sel].m_pid != -1`
abbrev pub is_alive : (ℕ → Process) → ℕ → Bool
is_alive procs sel = not (eq_ℤ (procs sel).pid minus_one)

-- The `do` loop. With no children its first test already reads behind the table; with some, the
-- remainder keeps `sel` inside.
unfoldable pub select_child : Processpool → (sub_process_idx : ℕ) → Run ℕ
select_child pool start =
    if ltb start pool.num_process
    then select_from pool.num_process pool.num_process (is_alive pool.sub_process) start start
    else fault out_of_bounds

unfoldable pub on_connection : Parent → Run (Parent × List Action)
on_connection pa = do
  sel ← select_child pa.pool pa.sub_process_idx
  ok (
    record pa { sub_process_idx = (sel + 1) % pa.pool.num_process },
    send (pa.pool.sub_process sel).parent_wfd has_new_conn ∷ [],
  )

-- SIGTERM to each child from index `idx` on that has a process id.
unfoldable pub kill_children : (rounds idx : ℕ) → (ℕ → Process) → List Action
kill_children zero idx procs = []
kill_children (suc rounds) idx procs =
    (if is_alive procs idx then kill (procs idx).pid sigterm ∷ [] else [])
    ++ kill_children rounds (idx + 1) procs

-- The `switch` on a byte of the signal pipe.
unfoldable pub on_signal : Processpool → ℕ → Processpool × List Action
on_signal pool sig =
    if sig == sigint || sig == sigterm
    then (record pool { stop = true }, kill_children pool.num_process 0 pool.sub_process)
    else (pool, [])

unfoldable pub on_signals : Processpool → List ℕ → Processpool × List Action
on_signals pool [] = (pool, [])
on_signals pool (sig ∷ sigs) =
    let (pool', actions) = on_signal pool sig in
    let (pool'', more) = on_signals pool' sigs in (pool'', actions ++ more)

-- Behind the `recv` on the signal pipe.
unfoldable pub on_sig_pipe : Parent → Received → Parent × List Action
on_sig_pipe pa (failed e) = (pa, [])
on_sig_pipe pa (bytes []) = (pa, [])
on_sig_pipe pa (bytes (sig ∷ sigs)) =
    let (pool, actions) = on_signals pa.pool (sig ∷ sigs) in (record pa { pool = pool }, actions)

-- One event of the parent's epoll set.
unfoldable pub parent_event : (sig_rfd : ℤ) → Parent → Event → Run (Parent × List Action)
parent_event sig_rfd pa ev =
    if eq_ℤ ev.fd pa.pool.listenfd
    then on_connection pa
    else if eq_ℤ ev.fd sig_rfd && ev.is_in
    then ok (on_sig_pipe pa (ev.recv 0 ev.fd sigs_size))
    else ok (pa, [])

unfoldable pub parent_events : (sig_rfd : ℤ) → Parent → List Event → Run (Parent × List Action)
parent_events sig_rfd pa [] = ok (pa, [])
parent_events sig_rfd pa (ev ∷ evs) = do
  (pa', actions) ← parent_event sig_rfd pa ev
  (pa'', more) ← parent_events sig_rfd pa' evs
  ok (pa'', actions ++ more)

-- `while (!m_stop)`, and the `close` behind it. A wait that was interrupted reports no event.
unfoldable pub run_parent : (sig_rfd : ℤ) → Parent → List Wait → Run (Ending × Parent × List Action)
run_parent sig_rfd pa [] =
    if pa.pool.stop then ok (left, pa, close pa.pool.epollfd ∷ []) else ok (waiting, pa, [])
run_parent sig_rfd pa (wait_failed eintr ∷ waits) =
    let rest = run_parent sig_rfd pa waits in
    if pa.pool.stop then ok (left, pa, close pa.pool.epollfd ∷ []) else rest
run_parent sig_rfd pa (wait_failed e ∷ waits) = ok (left, pa, close pa.pool.epollfd ∷ [])
run_parent sig_rfd pa (ready evs ∷ waits) =
    let turn = (do
      (pa', actions) ← parent_events sig_rfd pa evs
      (ending, pa'', more) ← run_parent sig_rfd pa' waits
      ok (ending, pa'', actions ++ more)) in
    if pa.pool.stop then ok (left, pa, close pa.pool.epollfd ∷ []) else turn
