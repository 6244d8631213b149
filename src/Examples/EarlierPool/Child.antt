-- ===== src/Examples/EarlierPool/Child.antt =====
-- `run_child` of src/examples/multitasking/processpool.h. From the array of clients on, it is the
-- text of `RunChild` in src/ProcessPool.h.
use simple_http_serv.Prelude.{ℕ, List, ◌++◌, Run, ok, ◌>>=◌}
use simple_http_serv.Prelude.Int.{ℤ}
use simple_http_serv.Sys.{Action, Ending, Wait}
use simple_http_serv.Epoll.{epoll_add_fd, set_non_blocking}
use simple_http_serv.Pool.Process.{SigAnswers}
use simple_http_serv.Pool.Child.{Client, Fds, Child}
use simple_http_serv.Pool.Child as Ch
use simple_http_serv.Examples.EarlierPool.{Processpool, setup_epoll, setup_sig_pipe}

-- In the child `sub_idx`, with the clients as `new T[k_max_clientfd]` makes them.
unfoldable pub run_child :
    {T : Type 0} (C : Client T) (new_clients : ℕ → T) (epollfd : ℤ) (answers : SigAnswers)
    (sub_idx : ℕ)
    → Processpool
    → List Wait
    → Run (Ending × List Action)
run_child C new_clients epollfd answers sub_idx pool waits = do
  pool' ← setup_epoll epollfd pool
  (sig, actions) ← setup_sig_pipe answers pool'
  let ipc_pipefd = (pool'.sub_process sub_idx).child_rfd
  let fds : Fds = record { epollfd = pool'.epollfd; ipc_pipefd = ipc_pipefd; sig_rfd = sig.0 }
  let ch : Child C fds = record { clients = new_clients; stop = pool'.stop }
  (ending, ch', more) ← Ch.run_child C fds ch waits
  ok (
    ending,
    set_non_blocking pool'.listenfd ++ epoll_add_fd pool'.epollfd ipc_pipefd ++ actions ++ more,
  )
