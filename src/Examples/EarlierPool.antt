-- ===== src/Examples/EarlierPool.antt =====
-- src/examples/multitasking/processpool.h: the pool before src/ProcessPool.h. Its table holds the
-- children only, and the pool itself has the epoll set.
pub mod Parent
pub mod Child
pub mod Program
mod Tests
use simple_http_serv.Prelude.{
  ℕ, zero, suc, ◌+◌, Bool, false, Option, none, some, List, [], ◌∷◌, ◌++◌, Run, ok, fault,
  assert_failed, ◌>>=◌, ◌==◌, leb, if◌then◌else◌,
}
use simple_http_serv.Prelude.Int.{ℤ, pos, negsuc, minus_one, eq_ℤ}
use simple_http_serv.Sys.{Action, close}
use simple_http_serv.Epoll.{epoll_add_fd, set_non_blocking}
use simple_http_serv.Pool.Process.{SigAnswers, add_sigactions}
use simple_http_serv.Pool.Create.{Forks, max_num_process}

-- `m_pipefd[k_child_rfd_idx]` is `child_rfd` and `m_pipefd[k_parent_wfd_idx]` is `parent_wfd`.
pub record Process : Type 0 where
  pub pid : ℤ
  pub child_rfd : ℤ
  pub parent_wfd : ℤ

-- The constructor leaves the pipe unset; here its ends start as -1.
abbrev pub fresh_process : Process
fresh_process = record { pid = minus_one; child_rfd = minus_one; parent_wfd = minus_one }

-- The fields behind `m_`; `sub_idx` is -1 in the parent.
pub record Processpool : Type 0 where
  pub listenfd : ℤ
  pub epollfd : ℤ
  pub num_process : ℕ
  pub sub_idx : ℤ
  pub sub_process : ℕ → Process
  pub stop : Bool

abbrev pub set_process : (ℕ → Process) → ℕ → Process → ℕ → Process
set_process procs i p j = if j == i then p else procs j

-- The table, `m_sub_idx`, and what was asked of the kernel.
abbrev pub Made : Type 0
Made = (ℕ → Process) × ℤ × List Action

module _ (env : Forks) where
  -- Behind `fork`: -1 fails the assertion, 0 is the child, which leaves the loop.
  unfoldable pub forked :
      (i : ℕ) → ℤ × ℤ → (again : (ℕ → Process) → Run Made) → (ℕ → Process) → ℤ → Run Made
  forked i pair again procs (negsuc e) = fault assert_failed
  forked i (rfd, wfd) again procs (pos zero) =
      let child : Process = record { pid = pos zero; child_rfd = rfd; parent_wfd = wfd } in
      ok (set_process procs i child, pos i, set_non_blocking rfd ++ close wfd ∷ [])
  forked i (rfd, wfd) again procs (pos (suc pid)) =
      let child : Process = record { pid = pos (suc pid); child_rfd = rfd; parent_wfd = wfd } in
      do
        (made, idx, actions) ← again (set_process procs i child)
        ok (made, idx, set_non_blocking wfd ++ close rfd ∷ actions)

  -- The `for` loop over the children still to be made, `i` the next.
  unfoldable pub fork_loop : (rounds i : ℕ) → (ℕ → Process) → Run Made
  unfolding forked
  fork_loop zero i procs = ok (procs, minus_one, [])
  fork_loop (suc rounds) i procs = elim (env.socketpair i) [
    | none ↦ fault assert_failed
    | some pair ↦ forked i pair (fork_loop rounds (i + 1)) procs (env.fork i)
  ]

  unfoldable pub create : (listenfd : ℤ) (num_process : ℕ) → Run (Processpool × List Action)
  unfolding fork_loop forked
  create listenfd num_process =
      if leb num_process max_num_process
      then (do
        (procs, idx, actions) ← fork_loop num_process 0 (λ _. fresh_process)
        ok (
          record {
            listenfd = listenfd;
            epollfd = minus_one;
            num_process = num_process;
            sub_idx = idx;
            sub_process = procs;
            stop = false;
          },
          actions,
        ))
      else fault assert_failed

-- `fd` is what `epoll_create` returns.
unfoldable pub setup_epoll : (fd : ℤ) → Processpool → Run Processpool
setup_epoll fd pool =
    if eq_ℤ fd minus_one then fault assert_failed else ok (record pool { epollfd = fd })

unfoldable pub setup_sig_pipe : SigAnswers → Processpool → Run ((ℤ × ℤ) × List Action)
setup_sig_pipe answers pool =
    if eq_ℤ pool.epollfd minus_one then fault assert_failed else elim answers.pair [
      | none ↦ fault assert_failed
      | some (rfd, wfd) ↦ do
        actions ← add_sigactions answers.sigaction_ret
        ok ((rfd, wfd), actions ++ epoll_add_fd pool.epollfd rfd)
    ]
