-- ===== src/Pool/Create.antt =====
-- The constructor and `run` of src/ProcessPool.h. The answers of `socketpair` and `fork` in the
-- process at hand are parameters, by the index of the child.
pub mod Roles
pub mod Forking
use simple_http_serv.Prelude.{
  ℕ, zero, suc, ◌+◌, Bool, true, false, not, Option, none, some, List, [], ◌∷◌, ◌++◌, Run, ok,
  fault, assert_failed, ◌>>=◌, ◌==◌, leb, if◌then◌else◌,
}
use simple_http_serv.Prelude.Int.{ℤ, pos, negsuc, minus_one, eq_ℤ}
use simple_http_serv.Sys.{Action, close}
use simple_http_serv.Epoll.{set_non_blocking}
use simple_http_serv.Pool.Process.{Process, fresh_process}

abbrev pub max_num_process : ℕ
max_num_process = 10

-- `proc_[0 .. num_proc_]`, and `stop_`.
pub record ProcessPool : Type 0 where
  pub num_proc : ℕ
  pub proc : ℕ → Process
  pub stop : Bool

abbrev pub set_proc : (ℕ → Process) → ℕ → Process → ℕ → Process
set_proc proc i p j = if j == i then p else proc j

-- `proc_[i]` in the child with this index, which returns from the constructor.
abbrev pub child_process : (listenfd : ℤ) (i : ℕ) → ℤ × ℤ → Process
child_process listenfd i (rfd, wfd) = record {
  pid = pos 0;
  listenfd = listenfd;
  epollfd = minus_one;
  pool_id = pos i;
  child_rfd = rfd;
  parent_wfd = wfd;
}

-- `proc_[i]` in the parent.
abbrev pub forked_process : (pid : ℤ) → ℤ × ℤ → Process
forked_process pid (rfd, wfd) = record fresh_process {
  pid = pid;
  child_rfd = rfd;
  parent_wfd = wfd;
}

abbrev pub parent_process : (pid listenfd : ℤ) → Process
parent_process pid listenfd = record fresh_process {
  pid = pid;
  listenfd = listenfd;
  pool_id = pos 0;
}

-- What the constructor asks of the process that it runs in.
pub record Forks : Type 0 where
  pub socketpair : ℕ → Option (ℤ × ℤ)
  pub fork : ℕ → ℤ
  pub getpid : ℤ

abbrev pub Made : Type 0
Made = (ℕ → Process) × List Action

module _ (env : Forks) (listenfd : ℤ) where
  -- Behind `fork`: -1 fails the assertion, 0 is the child.
  unfoldable pub forked :
      (i : ℕ) → ℤ × ℤ → (again : (ℕ → Process) → Run Made) → (ℕ → Process) → ℤ → Run Made
  forked i pair again proc (negsuc e) = fault assert_failed
  forked i (rfd, wfd) again proc (pos zero) = ok (
    set_proc proc i (child_process listenfd i (rfd, wfd)),
    set_non_blocking rfd ++ close wfd ∷ [],
  )
  forked i (rfd, wfd) again proc (pos (suc pid)) = do
    (made, actions) ← again (set_proc proc i (forked_process (pos (suc pid)) (rfd, wfd)))
    ok (made, set_non_blocking wfd ++ close rfd ∷ actions)

  -- The `for` loop over the children still to be made, `i` the next, and the end of the parent's
  -- constructor.
  unfoldable pub fork_loop : (rounds i : ℕ) → (ℕ → Process) → Run Made
  unfolding forked
  fork_loop zero i proc = ok (set_proc proc 0 (parent_process env.getpid listenfd), [])
  fork_loop (suc rounds) i proc = elim (env.socketpair i) [
    | none ↦ fault assert_failed
    | some pair ↦ forked i pair (fork_loop rounds (i + 1)) proc (env.fork i)
  ]

  unfoldable pub create : (num_process : ℕ) → Run (ProcessPool × List Action)
  unfolding fork_loop
  create num_process =
      if leb num_process max_num_process
      then (do
        (proc, actions) ← fork_loop num_process 1 (λ _. fresh_process)
        ok (record { num_proc = num_process; proc = proc; stop = false }, actions))
      else fault assert_failed

-- What `run` starts: the parent's loop, or a child's with its index (-1 if there is none).
pub data Role : Type 0 where
  parent_role child_role : ℤ → Role

-- The first index from `i` on, of `rounds` many, with a `pool_id_`.
unfoldable pub find_child : (rounds i : ℕ) → (ℕ → Process) → ℤ
find_child zero i proc = minus_one
find_child (suc rounds) i proc =
    let rest = find_child rounds (i + 1) proc in
    if eq_ℤ (proc i).pool_id minus_one then rest else pos i

unfoldable pub run : ProcessPool → Role
unfolding find_child
run pool =
    if eq_ℤ (pool.proc 0).pool_id minus_one
    then child_role (find_child (pool.num_proc + 1) 0 pool.proc)
    else parent_role (pos 0)
