-- ===== src/Examples/EarlierPool/Program/Same.antt =====
-- `main` of src/examples/multitasking/test_multiproc_http_handler.cc beside that of
-- src/MainMultiProc.cc.
use simple_http_serv.Prelude.{
  ℕ, zero, suc, ◌+◌, ◌<◌, ◌≡◌, refl, ap, ◌∙◌, false, arith, Run, ok, fault, assert_failed, ◌>>=◌,
  if◌then◌else◌, Option, none, some, List, [], ◌∷◌, ◌++◌,
}
use simple_http_serv.Prelude.Int.{ℤ, pos, negsuc, minus_one}
use simple_http_serv.Sys.{Action, close, Ending, left}
use simple_http_serv.Epoll.{set_non_blocking}
use simple_http_serv.Pool.Process as N
use simple_http_serv.Pool.Process.{SigAnswers, add_sigactions}
use simple_http_serv.Pool.Create as C
use simple_http_serv.Pool.Create.{Forks, ProcessPool, set_proc, parent_role, child_role}
use simple_http_serv.Pool.Program as M
use simple_http_serv.Pool.Program.{Kernel, run_role, close_behind}
use simple_http_serv.Examples.EarlierPool.{
  Process, set_process, fresh_process, Processpool, create, fork_loop, forked,
}
use simple_http_serv.Examples.EarlierPool.Program as E
use simple_http_serv.Examples.EarlierPool.Program.{run, main}
use simple_http_serv.Examples.EarlierPool.Program.Roles.{parent_role-same, child_role-same}

-- The same kernel, asked by the earlier pool, which counts its children from 0.
abbrev pub earlier : Kernel → Kernel
earlier w = record w {
  forks = record w.forks {
    socketpair = λ i. w.forks.socketpair (i + 1);
    fork = λ i. w.forks.fork (i + 1);
  };
}

-- What the two programs do behind the constructor.
abbrev earlier_rest : Kernel → ℤ → Processpool × List Action → Run (Ending × List Action)
earlier_rest w l (pool, actions) = do
  (ending, more) ← run (earlier w) pool
  ok (ending, actions ++ more ++ close_behind ending l)

abbrev later_rest : Kernel → ℤ → ProcessPool × List Action → Run (Ending × List Action)
later_rest w l (pool, actions) = do
  (ending, more) ← run_role w pool (C.run pool)
  ok (ending, actions ++ more ++ close_behind ending l)

abbrev Later :
    Kernel → ℤ → Run (Processpool × List Action) → Run (ProcessPool × List Action) → Type 0
Later w l r r' = (r >>= earlier_rest w l) ≡ (r' >>= later_rest w l)

-- One round of each constructor, where the pair of sockets is made.
earlier_round :
    (env : Forks) (rounds i : ℕ) (procs : ℕ → Process) (pair : ℤ × ℤ) (pid : ℤ)
    → env.socketpair i ≡ some pair
    → env.fork i ≡ pid
    → fork_loop env (suc rounds) i procs
      ≡ forked env i pair (fork_loop env rounds (i + 1)) procs pid
unfolding fork_loop
earlier_round env rounds i procs pair pid s f = rw (fork_loop, s, f)

later_round :
    (env : Forks) (l : ℤ) (rounds i : ℕ) (procs : ℕ → N.Process) (pair : ℤ × ℤ) (pid : ℤ)
    → env.socketpair i ≡ some pair
    → env.fork i ≡ pid
    → C.fork_loop env l (suc rounds) i procs
      ≡ C.forked env l i pair (C.fork_loop env l rounds (i + 1)) procs pid
unfolding C.fork_loop
later_round env l rounds i procs pair pid s f = rw (C.fork_loop, s, f)

-- Both constructors return the same calls, and the pools behind them go on alike.
Later-ok :
    (w : Kernel) (l : ℤ) (o : Processpool) (p : ProcessPool) (actions : List Action)
    (r : Run (Processpool × List Action)) (r' : Run (ProcessPool × List Action))
    → r ≡ ok (o, actions)
    → r' ≡ ok (p, actions)
    → run (earlier w) o ≡ run_role w p (C.run p)
    → Later w l r r'
Later-ok w l o p actions r r' e e' same = rw (e, e', same)

-- The pools, with the tables and the index of the earlier one.
abbrev earlier_pool : ℤ → ℤ → (ℕ → Process) → Processpool
earlier_pool l idx procs = record {
  listenfd = l;
  epollfd = minus_one;
  num_process = 2;
  sub_idx = idx;
  sub_process = procs;
  stop = false;
}

abbrev later_pool : (ℕ → N.Process) → ProcessPool
later_pool proc = record { num_proc = 2; proc = proc; stop = false }

abbrev earlier_entry : ℤ → ℤ × ℤ → Process
earlier_entry pid (rfd, wfd) = record { pid = pid; child_rfd = rfd; parent_wfd = wfd }

-- Behind the constructor, the forks are not asked any more.
child_index :
    (w : Kernel) (o : Processpool) (i : ℕ)
    → o.sub_idx ≡ pos i
    → run (earlier w) o ≡ E.child_role w o (pos i)
unfolding run E.child_role
child_index w o i e = rw e

parent_index :
    (w : Kernel) (o : Processpool) → o.sub_idx ≡ minus_one → run (earlier w) o ≡ E.parent_role w o
unfolding run E.parent_role
parent_index w o e = rw e

both_entries : (P : ℕ → Type 0) → P 0 → P 1 → (j : ℕ) → j < 2 → P j
both_entries P p q zero l = p
both_entries P p q (suc zero) l = q
both_entries P p q (suc (suc j)) l = absurd (omega arith)

module _ (w : Kernel) (l : ℤ) where
  abbrev Same : Type 0
  Same = Later w l (create (earlier w).forks l 2) (C.create w.forks l 2)

  -- The process at hand is the first child, or the first fork fails.
  first :
      (pair : ℤ × ℤ) (fork : ℤ)
      → w.forks.socketpair 1 ≡ some pair
      → w.forks.fork 1 ≡ fork
      → ((pid : ℕ) → w.forks.fork 1 ≡ pos (suc pid) → Same)
      → Same
  unfolding create C.create forked C.forked C.run C.find_child
  first pair (negsuc e) s f k = rw (
    earlier_round (earlier w).forks 1 0 (λ x. fresh_process) pair (negsuc e) s f,
    later_round w.forks l 1 1 (λ x. N.fresh_process) pair (negsuc e) s f,
  )
  first (a, b) (pos zero) s f k =
      let o =
        earlier_pool l (pos 0)
          (set_process (λ x. fresh_process) 0 (earlier_entry (pos 0) (a, b))) in
      let p = later_pool (set_proc (λ x. N.fresh_process) 1 (C.child_process l 1 (a, b))) in
      Later-ok w l o p (set_non_blocking a ++ close b ∷ []) _ _
        (rw (earlier_round (earlier w).forks 1 0 (λ x. fresh_process) (a, b) (pos 0) s f))
        (rw (later_round w.forks l 1 1 (λ x. N.fresh_process) (a, b) (pos 0) s f))
        (child_index w o 0 refl ∙ child_role-same w o p 0 refl refl refl)
  first pair (pos (suc pid)) s f k = k pid f

  module _ (pid : ℕ) (a b c d : ℤ) (s : w.forks.socketpair 1 ≡ some (a, b))
      (f : w.forks.fork 1 ≡ pos (suc pid)) where
    abbrev procs : ℕ → Process
    procs = set_process (λ x. fresh_process) 0 (earlier_entry (pos (suc pid)) (a, b))

    abbrev proc : ℕ → N.Process
    proc = set_proc (λ x. N.fresh_process) 1 (C.forked_process (pos (suc pid)) (a, b))

    abbrev begun : List Action → List Action
    begun more = set_non_blocking b ++ close a ∷ more

    earlier_begun : fork_loop (earlier w).forks 2 0 (λ x. fresh_process) ≡ (
        fork_loop (earlier w).forks 1 1 procs >>= λ (made, idx, more). ok (made, idx, begun more))
    unfolding forked
    earlier_begun =
        earlier_round (earlier w).forks 1 0 (λ x. fresh_process) (a, b) (pos (suc pid)) s f

    later_begun :
        C.fork_loop w.forks l 2 1 (λ x. N.fresh_process)
        ≡ (C.fork_loop w.forks l 1 2 proc >>= λ (made, more). ok (made, begun more))
    unfolding C.forked
    later_begun = later_round w.forks l 1 1 (λ x. N.fresh_process) (a, b) (pos (suc pid)) s f

    -- The second child, the parent, or the second fork fails.
    second : (fork : ℤ) → w.forks.socketpair 2 ≡ some (c, d) → w.forks.fork 2 ≡ fork → Same
    unfolding create C.create forked C.forked C.fork_loop fork_loop C.run C.find_child
    second (negsuc e) s' f' = rw (
      earlier_begun,
      later_begun,
      earlier_round (earlier w).forks 0 1 procs (c, d) (negsuc e) s' f',
      later_round w.forks l 0 2 proc (c, d) (negsuc e) s' f',
    )
    second (pos zero) s' f' =
        let o = earlier_pool l (pos 1) (set_process procs 1 (earlier_entry (pos 0) (c, d))) in
        let p = later_pool (set_proc proc 2 (C.child_process l 2 (c, d))) in
        Later-ok w l o p (begun (set_non_blocking c ++ close d ∷ [])) _ _
          (rw (earlier_begun, earlier_round (earlier w).forks 0 1 procs (c, d) (pos 0) s' f'))
          (rw (later_begun, later_round w.forks l 0 2 proc (c, d) (pos 0) s' f'))
          (child_index w o 1 refl ∙ child_role-same w o p 1 refl refl refl)
    second (pos (suc pid')) s' f' =
        let fork = pos (suc pid') in
        let o = earlier_pool l minus_one (set_process procs 1 (earlier_entry fork (c, d))) in
        let p = later_pool (
          set_proc (set_proc proc 2 (C.forked_process fork (c, d))) 0
            (C.parent_process w.forks.getpid l)) in
        Later-ok w l o p (begun (set_non_blocking d ++ close c ∷ [])) _ _
          (rw (earlier_begun, earlier_round (earlier w).forks 0 1 procs (c, d) fork s' f'))
          (rw (later_begun, later_round w.forks l 0 2 proc (c, d) fork s' f'))
          (parent_index w o refl
            ∙ parent_role-same w o p (refl, both_entries _ (refl, refl) (refl, refl)) refl refl
                (omega arith) (0, omega arith, refl))

    second_unpaired : w.forks.socketpair 2 ≡ none → Same
    unfolding create C.create C.fork_loop fork_loop
    second_unpaired s' = rw (earlier_begun, later_begun, s', fork_loop, C.fork_loop)

  -- One pool's pairs of sockets and forks in order, each with what it leads to.
  constructed :
      (pair pair' : Option (ℤ × ℤ))
      → w.forks.socketpair 1 ≡ pair
      → w.forks.socketpair 2 ≡ pair'
      → Same
  unfolding create C.create C.fork_loop fork_loop
  constructed none pair' s s' = rw (fork_loop, C.fork_loop, s)
  constructed (some (a, b)) none s s' =
      first (a, b) (w.forks.fork 1) s refl (λ pid f. second_unpaired pid a b a b s f s')
  constructed (some (a, b)) (some (c, d)) s s' =
      first (a, b) (w.forks.fork 1) s refl
        (λ pid f. second pid a b c d s f (w.forks.fork 2) s' refl)

main_from : (w : Kernel) (fd : ℤ) → w.socket ≡ fd → main (earlier w) ≡ M.main w
unfolding main M.main run run_role E.parent_role E.child_role
main_from w (negsuc e) s = rw s
main_from w (pos l) s = rw s (
    ap (λ r. if w.bind then (if w.listen then r else fault assert_failed) else ok (left, []))
      (constructed w (pos l) (w.forks.socketpair 1) (w.forks.socketpair 2) refl refl))

-- For every kernel, the main of test_multiproc_http_handler.cc asks the same of it as the main of
-- MainMultiProc.cc, ends the same way and meets the same faults, in the parent and in each child,
-- when both are answered alike (the earlier pool counts its children from 0).
pub main-same : (w : Kernel) → main (earlier w) ≡ M.main w
main-same w = main_from w w.socket refl
