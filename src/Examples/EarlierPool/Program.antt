-- ===== src/Examples/EarlierPool/Program.antt =====
-- `main` of src/examples/multitasking/test_multiproc_http_handler.cc, in the process at hand, and
-- `run` of processpool.h. The client type in nonblock_http_handler.h is the text of
-- src/ReqStatMach.h.
pub mod Roles
pub mod Same
use simple_http_serv.Prelude.{
  ℕ, List, [], ◌++◌, Run, ok, fault, out_of_bounds, assert_failed, ◌>>=◌, if◌then◌else◌,
}
use simple_http_serv.Prelude.Int.{ℤ, pos, negsuc, minus_one, eq_ℤ}
use simple_http_serv.Sys.{Action, Ending, left}
use simple_http_serv.Pool.Child.Requests.{requests, new_clients}
use simple_http_serv.Pool.Program.{Kernel, close_behind}
use simple_http_serv.Examples.EarlierPool.{Processpool, create}
use simple_http_serv.Examples.EarlierPool.Parent.{Parent, setup_parent, run_parent}
use simple_http_serv.Examples.EarlierPool.Child.{run_child}

-- `m_sub_process[m_sub_idx]` with an index below 0 is out of the table.
unfoldable pub child_role : Kernel → Processpool → ℤ → Run (Ending × List Action)
child_role w pool (negsuc i) = fault out_of_bounds
child_role w pool (pos i) = run_child requests new_clients w.epollfd w.sig_answers i pool w.waits

-- `run_parent`
unfoldable pub parent_role : Kernel → Processpool → Run (Ending × List Action)
parent_role w pool = do
  (pool', sig, actions) ← setup_parent w.epollfd w.sig_answers pool
  (ending, pa, more) ← run_parent sig.0 (record { pool = pool'; sub_process_idx = 0 }) w.waits
  ok (ending, actions ++ more)

unfoldable pub run : Kernel → Processpool → Run (Ending × List Action)
run w pool =
    if eq_ℤ pool.sub_idx minus_one then parent_role w pool else child_role w pool pool.sub_idx

unfoldable pub main : Kernel → Run (Ending × List Action)
main w = elim w.socket [
  | negsuc e ↦ fault assert_failed
  | pos listenfd ↦
      if w.bind
      then (if w.listen
          then (do
            (pool, actions) ← create w.forks (pos listenfd) 2
            (ending, more) ← run w pool
            ok (ending, actions ++ more ++ close_behind ending (pos listenfd)))
          else fault assert_failed)
      else ok (left, [])
]
