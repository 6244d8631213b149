-- ===== src/Pool/Create/Forking.antt =====
-- The constructor of src/ProcessPool.h in the parent and in each child.
use simple_http_serv.Prelude.{
  ℕ, zero, suc, ◌+◌, ◌≤◌, ◌<◌, ◌≡◌, ◌≢◌, refl, sym, subst, ap, ◌∙◌, inl, inr, false, some, List, [],
  ◌∷◌, ◌++◌, arith, Run, ok, ◌>>=◌, ◌==◌, Bool-cases, le→leb,
}
use simple_http_serv.Prelude.Int.{ℤ, pos}
use simple_http_serv.Sys.{Action, close}
use simple_http_serv.Epoll.{set_non_blocking}
use simple_http_serv.Pool.Process.{Process, fresh_process}
use simple_http_serv.Pool.Create.{
  ProcessPool, max_num_process, Forks, Made, fork_loop, forked, create, parent_role, child_role,
  find_child, run, set_proc, forked_process, child_process, parent_process,
}
use simple_http_serv.Pool.Create.Roles.{
  OnlyOwner, Unowned, forked-Unowned, owner-OnlyOwner, find_child_owner, same_index, owner_step,
  unowned_step,
}

-- Every pipe is made, and the forks before the child `k` return in the parent.
pub record Forked (env : Forks) (k : ℕ) (pairs : ℕ → ℤ × ℤ) (pids : ℕ → ℕ) : Type 0 where
  pub paired : (j : ℕ) → env.socketpair j ≡ some (pairs j)
  pub forks : (j : ℕ) → j < k → env.fork j ≡ pos (suc (pids j))

set_proc_same : (proc : ℕ → Process) (k : ℕ) (p : Process) → set_proc proc k p k ≡ p
set_proc_same proc k p = ground arith

set_proc_other : (proc : ℕ → Process) (k j : ℕ) (p : Process) → j ≢ k → set_proc proc k p j ≡ proc j
set_proc_other proc k j p ne = ground arith

module _ (env : Forks) (listenfd : ℤ) where
  again_step :
      (rounds i pid : ℕ) (pair : ℤ × ℤ) (proc : ℕ → Process)
      → env.socketpair i ≡ some pair
      → env.fork i ≡ pos (suc pid)
      → fork_loop env listenfd (suc rounds) i proc ≡ (
          fork_loop env listenfd rounds
            (i + 1)
            (set_proc proc i (forked_process (pos (suc pid)) pair))
          >>= λ (made, actions). ok (made, set_non_blocking pair.1 ++ close pair.0 ∷ actions))
  unfolding fork_loop forked
  again_step rounds i pid (rfd, wfd) proc s f = rw (s, f, fork_loop, forked)

  child_step :
      (rounds i : ℕ) (pair : ℤ × ℤ) (proc : ℕ → Process)
      → env.socketpair i ≡ some pair
      → env.fork i ≡ pos 0
      → fork_loop env listenfd (suc rounds) i proc
        ≡ ok (
          set_proc proc i (child_process listenfd i pair),
          set_non_blocking pair.0 ++ close pair.1 ∷ [],
        )
  unfolding fork_loop forked
  child_step rounds i (rfd, wfd) proc s f = rw (s, f, fork_loop, forked)

  -- What the child `k` finds: its own entry is the only one with an id.
  abbrev pub MadeChild : (k : ℕ) → ℤ × ℤ → Run Made → Type 0
  MadeChild k pair r =
      (made : Made) × (r ≡ ok made)
      × OnlyOwner (made.0) k
      × (made.0 k ≡ child_process listenfd k pair)

  module _ (k : ℕ) (pairs : ℕ → ℤ × ℤ) (pids : ℕ → ℕ) (started : Forked env k pairs pids) where
    child_found :
        (rounds : ℕ) (proc : ℕ → Process)
        → env.fork k ≡ pos 0
        → Unowned proc
        → MadeChild k (pairs k) (fork_loop env listenfd (suc rounds) k proc)
    child_found rounds proc f u =
        let mine = child_process listenfd k (pairs k) in
        (
          (set_proc proc k mine, set_non_blocking (pairs k).0 ++ close (pairs k).1 ∷ []),
          child_step rounds k (pairs k) proc (started.paired k) f,
          owner-OnlyOwner proc k mine refl u,
          set_proc_same proc k mine,
        )

    fork_loop-child :
        (rounds i : ℕ) (proc : ℕ → Process)
        → env.fork k ≡ pos 0
        → Unowned proc
        → i ≤ k
        → k < i + rounds
        → MadeChild k (pairs k) (fork_loop env listenfd rounds i proc)
    fork_loop-child zero i proc f u l h = absurd (omega arith)
    fork_loop-child (suc rounds) i proc f u l h =
        let next = set_proc proc i (forked_process (pos (suc (pids i))) (pairs i)) in
        elim (Bool-cases (i == k)) [
          | inl e ↦
              subst (λ x. MadeChild k (pairs k) (fork_loop env listenfd (suc rounds) x proc))
                (sym (same_index i k e)) (child_found rounds proc f u)
          | inr ne ↦
              let lt : i < k = ground (arith, ne) in
              let (made, e, own, mine) =
                fork_loop-child rounds (i + 1) next f
                  (forked-Unowned proc i (pos (suc (pids i))) (pairs i) u) (ground arith)
                  (ground arith) in
              (
                (made.0, set_non_blocking (pairs i).1 ++ close (pairs i).0 ∷ made.1),
                again_step rounds i (pids i) (pairs i) proc (started.paired i) (started.forks i lt)
                    ∙ rw e,
                own,
                mine,
              )
        ]

    abbrev Kids : (ℕ → Process) → ℕ → Type 0
    Kids proc i = (j : ℕ) → 1 ≤ j → j < i → proc j ≡ forked_process (pos (suc (pids j))) (pairs j)

    one_more_kid :
        (proc : ℕ → Process) (i : ℕ)
        → Kids proc i
        → Kids (set_proc proc i (forked_process (pos (suc (pids i))) (pairs i))) (i + 1)
    one_more_kid proc i before j j1 ji = elim (Bool-cases (j == i)) [
      | inl e ↦
          subst
            (λ x.
              set_proc proc i (forked_process (pos (suc (pids i))) (pairs i)) x
              ≡ forked_process (pos (suc (pids x))) (pairs x))
            (sym (same_index j i e))
            (set_proc_same proc i (forked_process (pos (suc (pids i))) (pairs i)))
      | inr ne ↦
          set_proc_other proc i j (forked_process (pos (suc (pids i))) (pairs i))
            (λ x. ground (arith, ne, x))
          ∙ before j j1 (ground (arith, ne))
    ]

    -- Below `i`, the entries are those of children already forked.
    fork_loop-parent :
        (rounds i : ℕ) (proc : ℕ → Process)
        → 1 ≤ i
        → k ≡ i + rounds
        → Kids proc i
        → (made : Made) × (fork_loop env listenfd rounds i proc ≡ ok made)
          × (made.0 0 ≡ parent_process env.getpid listenfd)
          × Kids made.0 k
    unfolding fork_loop
    fork_loop-parent zero i proc l h before =
        let own = parent_process env.getpid listenfd in
        (
          (set_proc proc 0 own, []),
          refl,
          refl,
          λ j j1 jk. set_proc_other proc 0 j own (ground arith) ∙ before j j1 (ground arith),
        )
    fork_loop-parent (suc rounds) i proc l h before =
        let entry = forked_process (pos (suc (pids i))) (pairs i) in
        let (made, e, own, kids) =
          fork_loop-parent rounds (i + 1) (set_proc proc i entry) (ground arith) (ground arith)
            (one_more_kid proc i before) in
        (
          (made.0, set_non_blocking (pairs i).1 ++ close (pairs i).0 ∷ made.1),
          again_step rounds i (pids i) (pairs i) proc (started.paired i)
                (started.forks i (ground arith))
              ∙ rw e,
          own,
          kids,
        )

created :
    (env : Forks) (listenfd : ℤ) (n : ℕ) (made : Made)
    → n ≤ max_num_process
    → fork_loop env listenfd n 1 (λ _. fresh_process) ≡ ok made
    → create env listenfd n ≡ ok (record { num_proc = n; proc = made.0; stop = false }, made.1)
unfolding create
created env listenfd n made le e = rw (create, le→leb n max_num_process le, e)

-- In the child `k`, whose fork returns 0 after the earlier ones did not, the constructor returns and
-- `run` starts that child's loop.
pub create-child :
    (env : Forks) (listenfd : ℤ) (num_process k : ℕ) (pairs : ℕ → ℤ × ℤ) (pids : ℕ → ℕ)
    → num_process ≤ max_num_process
    → 1 ≤ k
    → k ≤ num_process
    → Forked env k pairs pids
    → env.fork k ≡ pos 0
    → (pool : ProcessPool) × (actions : List Action) × (create env listenfd num_process
        ≡ ok (pool, actions))
      × (run pool ≡ child_role (pos k))
      × (pool.proc k ≡ child_process listenfd k (pairs k))
      × (pool.stop ≡ false)
unfolding create run
create-child env listenfd n k pairs pids le k1 kn started f =
    let (made, e, own, mine) =
      fork_loop-child env listenfd k pairs pids started n 1 (λ _. fresh_process) f (λ j. refl) k1
        (ground arith) in
    (
      record { num_proc = n; proc = made.0; stop = false },
      made.1,
      created env listenfd n made le e,
      unowned_step (made.0 0).pool_id (child_role (find_child (n + 1) 0 made.0))
            (parent_role (pos 0)) (own.1 0 (ground arith))
          ∙ ap child_role (find_child_owner (n + 1) 0 k made.0 own (omega arith) (omega arith)),
      mine,
      refl,
    )

-- In the parent, where every fork returns a pid, the constructor returns, the first entry is the
-- parent's, each child's entry has its pid and its pipe, and `run` starts the parent's loop.
pub create-parent :
    (env : Forks) (listenfd : ℤ) (num_process : ℕ) (pairs : ℕ → ℤ × ℤ) (pids : ℕ → ℕ)
    → num_process ≤ max_num_process
    → Forked env (1 + num_process) pairs pids
    → (pool : ProcessPool) × (actions : List Action) × (create env listenfd num_process
        ≡ ok (pool, actions))
      × (run pool ≡ parent_role (pos 0))
      × ((pool.num_proc ≡ num_process) × (pool.stop ≡ false))
      × (pool.proc 0 ≡ parent_process env.getpid listenfd)
      × ((j : ℕ)
          → 1 ≤ j
          → j < 1 + num_process
          → pool.proc j ≡ forked_process (pos (suc (pids j))) (pairs j))
unfolding create run
create-parent env listenfd n pairs pids le started =
    let (made, e, own, kids) =
      fork_loop-parent env listenfd (1 + n) pairs pids started n 1 (λ _. fresh_process)
        (omega arith) refl (λ j j1 lt. absurd (omega arith)) in
    (
      record { num_proc = n; proc = made.0; stop = false },
      made.1,
      created env listenfd n made le e,
      owner_step (made.0 0).pool_id 0 (child_role (find_child (n + 1) 0 made.0))
          (parent_role (pos 0)) (ap (λ p. p.pool_id) own),
      (refl, refl),
      own,
      kids,
    )
