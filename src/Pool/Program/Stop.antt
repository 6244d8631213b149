-- ===== src/Pool/Program/Stop.antt =====
-- How `main` of src/MainMultiProc.cc ends in the parent.
use mathlib.Core.List.{append_assoc, append-nil}
use simple_http_serv.Prelude.{
  clash, ℕ, suc, ◌≤◌, ◌≡◌, refl, sym, ap, subst, ◌∙◌, true, false, ◌&&◌, arith, some, Run, ok,
  fault, List, [], ◌∷◌, ◌++◌, Any,
}
use simple_http_serv.Prelude.Int.{ℤ, pos, eq_ℤ}
use simple_http_serv.Epoll.{epoll_add_fd, test_epoll_add_fd_lt}
use simple_http_serv.Sys.{Ending, left, waiting}
use simple_http_serv.Sys.{
  Action, sigaction, sigterm, sigint, sigchld, close, kill, Event, Wait, ready, bytes,
}
use simple_http_serv.Pool.Process.{
  Process, setup_epoll, setup_sig_pipe, Installs, add_sigactions-Installs,
}
use simple_http_serv.Pool.Create.{Forks, ProcessPool, forked_process, set_proc, parent_process}
use simple_http_serv.Pool.Create.Forking.{Forked, create-parent}
use simple_http_serv.Pool.Parent.{Parent, setup_parent, run_parent, is_child, sigs_size}
use simple_http_serv.Pool.Parent.Signals.{asks_stop}
use simple_http_serv.Pool.Parent.Stop.{run_parent-stops}
use simple_http_serv.Pool.Parent.Turns.{GoesOn, run_parent-GoesOn}
use simple_http_serv.Pool.Program.Finish.{finish, is_waiting, asked}
use simple_http_serv.Pool.Program.{Kernel, run_role, main}

-- What the parent asks for before its loop.
abbrev set_up : (epollfd listenfd sig_rfd : ℤ) → List Action
set_up epollfd listenfd sig_rfd =
    test_epoll_add_fd_lt epollfd listenfd
    ++ (sigaction sigterm ∷ sigaction sigint ∷ sigaction sigchld ∷ []
        ++ epoll_add_fd epollfd sig_rfd)

module _ (l e : ℕ) (rfd wfd : ℤ) (pairs : ℕ → ℤ × ℤ) (pids : ℕ → ℕ) (forks : Forks)
    (started : Forked forks 3 pairs pids) where
  -- Both children are in the table, and the loop runs on it.
  abbrev Loops : Parent → List Action → Type 0
  Loops pa first =
      (pa.sub_process_idx ≡ 0)
      × ((pa.pool.num_proc ≡ 2) × (pa.pool.stop ≡ false))
      × ((k : ℕ) → 1 ≤ k → k ≤ 2 → pa.pool.proc k ≡ forked_process (pos (suc (pids k))) (pairs k))
      × ((w : Kernel)
          → w.forks ≡ forks
          → w.socket ≡ pos l
          → w.bind ≡ true
          → w.listen ≡ true
          → w.epollfd ≡ pos e
          → w.sig_answers.pair ≡ some (rfd, wfd)
          → Installs w.sig_answers.sigaction_ret
          → main w
            ≡ finish first (set_up (pos e) (pos l) rfd) (pos l)
                (run_parent (pos l) rfd (pos e) pa w.waits))

  main-Loops : (pa : Parent) × (first : List Action) × Loops pa first
  unfolding main run_role setup_parent setup_epoll setup_sig_pipe
  main-Loops =
      let (pool, first, c, role, (len, runs), own, kids) =
        create-parent forks (pos l) 2 pairs pids (omega arith) started in
      let p = record (parent_process forks.getpid (pos l)) { epollfd = pos e } in
      let pa : Parent = record {
        pool = record pool { proc = set_proc pool.proc 0 p };
        sub_process_idx = 0;
      } in
      (
        pa,
        first,
        (
          refl,
          (len, runs),
          λ k k1 k2. ground (arith, kids k k1 (omega arith)),
          λ w f s b li ep sp inst. rw (
            s,
            b,
            li,
            f,
            c,
            role,
            own,
            ep,
            sp,
            add_sigactions-Installs w.sig_answers.sigaction_ret inst,
          ),
        ),
      )

-- The calls of the loop's last turn, behind all that came before.
in_order :
    (first setup actions more : List Action) (a b : Action)
    → first ++ (setup ++ (actions ++ (more ++ a ∷ []))) ++ b ∷ []
      ≡ first ++ (setup ++ actions) ++ [] ++ (more ++ a ∷ b ∷ [])
in_order first setup actions more a b = simp (append_assoc, append-nil)

pid_child :
    (proc : ℕ → Process) (k pid : ℕ) → 1 ≤ k → (proc k).pid ≡ pos (suc pid) → is_child proc k ≡ true
pid_child proc k pid l e = ground (arith, e)

module _ (l e : ℕ) (rfd : ℤ) (pids : ℕ → ℕ) (first setup so_far : List Action) (pa : Parent)
    (pre rest : List Wait) (ev : Event) (sig : ℕ) (sigs : List ℕ)
    (kids : (k : ℕ) → 1 ≤ k → k ≤ 2 → (pa.pool.proc k).pid ≡ pos (suc (pids k)))
    (len : pa.pool.num_proc ≡ 2) (other : eq_ℤ ev.fd (pos l) ≡ false)
    (signal : (eq_ℤ ev.fd rfd && ev.is_in) ≡ true)
    (received : ev.recv 0 ev.fd sigs_size ≡ bytes (sig ∷ sigs))
    (asks : asks_stop (sig ∷ sigs) ≡ true) where
  abbrev Killed : Run (Ending × List Action) → Type 0
  Killed r =
      (more : List Action) × (r ≡ ok (left, so_far ++ (more ++ close (pos e) ∷ close (pos l) ∷ [])))
      × ((k : ℕ) → 1 ≤ k → k ≤ 2 → Any (λ a. a ≡ kill (pos (suc (pids k))) sigterm) more)

  abbrev all_waits : List Wait
  all_waits = pre ++ ready (ev ∷ []) ∷ rest

  stops_from :
      (r : Run (Ending × Parent × List Action))
      → GoesOn (pos l) rfd (pos e) pa pre r
      → finish first setup (pos l) r ≡ ok (waiting, so_far)
      → Killed (finish first setup (pos l) (run_parent (pos l) rfd (pos e) pa all_waits))
  unfolding is_waiting asked
  stops_from (fault f) on h = clash (ap is_waiting h) refl
  stops_from (ok (left, pa', actions)) on h = clash (ap is_waiting h) refl
  stops_from (ok (waiting, pa', actions)) (same, inside, on) h =
      let (more, stopped, killed) =
        run_parent-stops (pos l) rfd (pos e) pa' ev rest sig sigs
          (ap (λ (pool : ProcessPool). pool.stop) same) other signal received asks in
      let len' = ap (λ (pool : ProcessPool). pool.num_proc) same ∙ len in
      let before : first ++ (setup ++ actions) ++ [] ≡ so_far = ap asked h in
      let pid : (k : ℕ) → 1 ≤ k → k ≤ 2 → (pa'.pool.proc k).pid ≡ pos (suc (pids k)) =
        λ k k1 k2. ap (λ (pool : ProcessPool). (pool.proc k).pid) same ∙ kids k k1 k2 in
      (
        more,
        rw (on (ready (ev ∷ []) ∷ rest), stopped)
            (ap (λ acts. ok (left, acts))
              (in_order first setup actions more (close (pos e)) (close (pos l))
                ∙ ap (λ acts. acts ++ (more ++ close (pos e) ∷ close (pos l) ∷ [])) before)),
        λ k k1 k2.
            subst (λ z. Any (λ a. a ≡ kill z sigterm) more) (pid k k1 k2)
              (killed k (omega (arith, len'))
                (pid_child pa'.pool.proc k (pids k) k1 (pid k k1 k2))),
      )

-- In the parent of two children, when the socket listens, the forks return process ids, the epoll
-- set and the signal pipe are made, the handlers are installed, and the program still waits after
-- any earlier waits: SIGTERM or SIGINT in the signal pipe, alone in its wait, ends it whatever would
-- come next. Both children are sent SIGTERM, and the epoll set and the listening socket are closed
-- last.
pub main-stops :
    (w : Kernel) (l e : ℕ) (rfd wfd : ℤ) (pairs : ℕ → ℤ × ℤ) (pids : ℕ → ℕ) (pre rest : List Wait)
    (so_far : List Action) (ev : Event) (sig : ℕ) (sigs : List ℕ)
    → w.socket ≡ pos l
    → w.bind ≡ true
    → w.listen ≡ true
    → Forked w.forks 3 pairs pids
    → w.epollfd ≡ pos e
    → w.sig_answers.pair ≡ some (rfd, wfd)
    → Installs w.sig_answers.sigaction_ret
    → w.waits ≡ pre ++ ready (ev ∷ []) ∷ rest
    → main (record w { waits = pre }) ≡ ok (waiting, so_far)
    → eq_ℤ ev.fd (pos l) ≡ false
    → (eq_ℤ ev.fd rfd && ev.is_in) ≡ true
    → ev.recv 0 ev.fd sigs_size ≡ bytes (sig ∷ sigs)
    → asks_stop (sig ∷ sigs) ≡ true
    → (more : List Action) × (main w
        ≡ ok (left, so_far ++ (more ++ close (pos e) ∷ close (pos l) ∷ [])))
      × ((k : ℕ) → 1 ≤ k → k ≤ 2 → Any (λ a. a ≡ kill (pos (suc (pids k))) sigterm) more)
main-stops w l e rfd wfd pairs pids pre rest so_far ev sig sigs s b li started ep sp inst ws h other
      signal received asks =
    let (pa, first, (idx, (len, runs), kids, loops)) =
      main-Loops l e rfd wfd pairs pids w.forks started in
    let setup = set_up (pos e) (pos l) rfd in
    let early = loops (record w { waits = pre }) refl s b li ep sp inst in
    let late = loops w refl s b li ep sp inst in
    let on = run_parent-GoesOn (pos l) rfd (pos e) pre pa (omega (arith, idx)) in
    let (more, stopped, killed) =
      stops_from l e rfd pids first setup so_far pa pre rest ev sig sigs
        (λ k k1 k2. ap (λ (p : Process). p.pid) (kids k k1 k2)) len other signal received asks
        (run_parent (pos l) rfd (pos e) pa pre) on (sym early ∙ h) in
    (
      more,
      late
          ∙ ap (λ l'. finish first setup (pos l) (run_parent (pos l) rfd (pos e) pa l')) ws
          ∙ stopped,
      killed,
    )
