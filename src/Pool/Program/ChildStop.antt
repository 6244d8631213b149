-- ===== src/Pool/Program/ChildStop.antt =====
-- How `main` of src/MainMultiProc.cc ends in a child.
use mathlib.Core.List.{append_assoc, append-nil}
use simple_http_serv.Prelude.{
  clash, ℕ, ◌≤◌, ◌<◌, ◌≡◌, refl, sym, ap, ◌∙◌, true, false, ◌&&◌, arith, some, Run, ok, fault, List,
  [], ◌∷◌, ◌++◌, All, Any,
}
use simple_http_serv.Prelude.Int.{ℤ, pos, eq_ℤ}
use simple_http_serv.Epoll.{epoll_add_fd, set_non_blocking}
use simple_http_serv.Sys.{Ending, left, waiting}
use simple_http_serv.Sys.{
  Action, sigaction, sigterm, sigint, sigchld, close, Event, Wait, ready, bytes,
}
use simple_http_serv.Pool.Process.{setup_epoll, setup_sig_pipe, Installs, add_sigactions-Installs}
use simple_http_serv.Pool.Create.{Forks}
use simple_http_serv.Pool.Create.Forking.{Forked, create-child}
use simple_http_serv.Pool.Parent.{sigs_size}
use simple_http_serv.Pool.Parent.Signals.{asks_stop}
use simple_http_serv.Pool.Loops.{behind}
use simple_http_serv.Pool.Child.{max_clientfd, Fds, Child, setup_child, run_child, leave}
use simple_http_serv.Pool.Child.Stop.{GoesOn, run_child-GoesOn, run_child-stops}
use simple_http_serv.Pool.Child.Sweep.{Closing, leave-closes}
use simple_http_serv.Pool.Child.Requests.{requests, new_clients}
use simple_http_serv.Pool.Program.{Kernel, run_role, main}
use simple_http_serv.Pool.Program.Finish.{finish, is_waiting, asked}

abbrev pub fds_of : (epollfd ipc_pipefd sig_rfd : ℤ) → Fds
fds_of epollfd ipc_pipefd sig_rfd = record {
  epollfd = epollfd;
  ipc_pipefd = ipc_pipefd;
  sig_rfd = sig_rfd;
}

abbrev pub new_child : (fds : Fds) → Child requests fds
new_child fds = record { clients = new_clients; stop = false }

-- What the child asks for before its loop.
abbrev set_up : (epollfd listenfd ipc_pipefd sig_rfd : ℤ) → List Action
set_up epollfd listenfd ipc_pipefd sig_rfd =
    set_non_blocking listenfd
    ++ epoll_add_fd epollfd ipc_pipefd
    ++ (sigaction sigterm ∷ sigaction sigint ∷ sigaction sigchld ∷ []
        ++ epoll_add_fd epollfd sig_rfd)

module _ (l k e : ℕ) (rfd wfd : ℤ) (pairs : ℕ → ℤ × ℤ) (pids : ℕ → ℕ) (forks : Forks)
    (started : Forked forks k pairs pids) (forked : forks.fork k ≡ pos 0) (k1 : 1 ≤ k)
    (kn : k ≤ 2) where
  abbrev fds : Fds
  fds = fds_of (pos e) (pairs k).0 rfd

  -- The loop of the child runs on new clients.
  abbrev Loops : List Action → Type 0
  Loops first =
      (w : Kernel)
      → w.forks ≡ forks
      → w.socket ≡ pos l
      → w.bind ≡ true
      → w.listen ≡ true
      → w.epollfd ≡ pos e
      → w.sig_answers.pair ≡ some (rfd, wfd)
      → Installs w.sig_answers.sigaction_ret
      → main w
        ≡ finish first (set_up (pos e) (pos l) (pairs k).0 rfd) (pos l)
            (run_child requests fds (new_child fds) w.waits)

  main-Loops : (first : List Action) × Loops first
  unfolding main run_role setup_child setup_epoll setup_sig_pipe
  main-Loops =
      let (pool, first, c, role, own, runs) =
        create-child forks (pos l) 2 k pairs pids (omega arith) k1 kn started forked in
      (
        first,
        λ w f s b li ep sp inst. rw (
          s,
          b,
          li,
          f,
          c,
          role,
          own,
          runs,
          ep,
          sp,
          add_sigactions-Installs w.sig_answers.sigaction_ret inst,
        ),
      )

-- The calls of the loop's last turn, behind all that came before.
in_order :
    (first setup actions closing : List Action) (a : Action)
    → first ++ (setup ++ (actions ++ closing)) ++ a ∷ []
      ≡ first ++ (setup ++ actions) ++ [] ++ (closing ++ a ∷ [])
in_order first setup actions closing a = simp (append_assoc, append-nil)

module _ (fds : Fds) (l : ℕ) (first setup so_far : List Action) (pre rest : List Wait) (ev : Event)
    (sigs : List ℕ) (other : (eq_ℤ ev.fd fds.ipc_pipefd && ev.is_in) ≡ false)
    (signal : (eq_ℤ ev.fd fds.sig_rfd && ev.is_in) ≡ true)
    (received : ev.recv 0 ev.fd sigs_size ≡ bytes sigs) (asks : asks_stop sigs ≡ true) where
  abbrev pub Left : Run (Ending × List Action) → Type 0
  Left r =
      (ch : Child requests fds) × (before : List Action) × (run_child requests fds (new_child fds)
          pre
        ≡ ok (waiting, ch, before))
      × (r ≡ ok (left, so_far ++ (leave requests fds ch ++ close (pos l) ∷ [])))

  ended_from :
      (r : Run (Ending × Child requests fds × List Action))
      → run_child requests fds (new_child fds) pre ≡ r
      → GoesOn requests fds (new_child fds) pre r
      → finish first setup (pos l) r ≡ ok (waiting, so_far)
      → Left (
          finish first setup
            (pos l)
            (run_child requests fds (new_child fds) (pre ++ ready (ev ∷ []) ∷ rest)))
  unfolding is_waiting asked
  ended_from (fault f) same on h = clash (ap is_waiting h) refl
  ended_from (ok (left, ch, actions)) same on h = clash (ap is_waiting h) refl
  ended_from (ok (waiting, ch, actions)) same (runs, on) h =
      let stopped = run_child-stops requests fds ch ev rest sigs runs other signal received asks in
      let before : first ++ (setup ++ actions) ++ [] ≡ so_far = ap asked h in
      let closing = leave requests fds ch in
      (
        ch,
        actions,
        same,
        ap (finish first setup (pos l)) (on (ready (ev ∷ []) ∷ rest) ∙ ap (behind actions) stopped)
            ∙ ap (λ acts. ok (left, acts))
                (in_order first setup actions closing (close (pos l))
                  ∙ ap (λ acts. acts ++ (closing ++ close (pos l) ∷ [])) before),
      )

-- In the child `k` of two, when the socket listens, the forks before returned process ids, the epoll
-- set and the signal pipe are made, the handlers are installed, and the program still waits after any
-- earlier waits: SIGTERM or SIGINT in the signal pipe, alone in its wait and not the pipe from the
-- parent, ends it whatever would come next. It closes the descriptors of the clients that it then
-- has, and no others, the epoll set, and the listening socket last.
pub main-child_stops :
    (w : Kernel) (l k e : ℕ) (rfd wfd : ℤ) (pairs : ℕ → ℤ × ℤ) (pids : ℕ → ℕ) (pre rest : List Wait)
    (so_far : List Action) (ev : Event) (sigs : List ℕ)
    → w.socket ≡ pos l
    → w.bind ≡ true
    → w.listen ≡ true
    → Forked w.forks k pairs pids
    → w.forks.fork k ≡ pos 0
    → 1 ≤ k
    → k ≤ 2
    → w.epollfd ≡ pos e
    → w.sig_answers.pair ≡ some (rfd, wfd)
    → Installs w.sig_answers.sigaction_ret
    → w.waits ≡ pre ++ ready (ev ∷ []) ∷ rest
    → main (record w { waits = pre }) ≡ ok (waiting, so_far)
    → (eq_ℤ ev.fd (pairs k).0 && ev.is_in) ≡ false
    → (eq_ℤ ev.fd rfd && ev.is_in) ≡ true
    → ev.recv 0 ev.fd sigs_size ≡ bytes sigs
    → asks_stop sigs ≡ true
    → (ch : Child requests (fds_of (pos e) (pairs k).0 rfd)) × (before closing : List Action)
      × (run_child requests (fds_of (pos e) (pairs k).0 rfd) (new_child _) pre
          ≡ ok (waiting, ch, before))
      × (main w ≡ ok (left, so_far ++ (closing ++ close (pos l) ∷ [])))
      × All (Closing requests (fds_of (pos e) (pairs k).0 rfd) ch.clients) closing
      × Any (λ a. a ≡ close (pos e)) closing
      × ((fd : ℕ)
          → fd < max_clientfd
          → requests.is_init (ch.clients fd) (pos fd) ≡ true
          → Any (λ a. a ≡ close (pos fd)) closing)
main-child_stops w l k e rfd wfd pairs pids pre rest so_far ev sigs s b li started forked k1 kn ep
      sp inst ws h other signal received asks =
    let (first, loops) = main-Loops l k e rfd wfd pairs pids w.forks started forked k1 kn in
    let fds = fds_of (pos e) (pairs k).0 rfd in
    let setup = set_up (pos e) (pos l) (pairs k).0 rfd in
    let early = loops (record w { waits = pre }) refl s b li ep sp inst in
    let late = loops w refl s b li ep sp inst in
    let (ch, before, same, stopped) =
      ended_from fds l first setup so_far pre rest ev sigs other signal received asks
        (run_child requests fds (new_child fds) pre) refl
        (run_child-GoesOn requests fds pre (new_child fds)) (sym early ∙ h) in
    let (closings, epoll, clients) = leave-closes requests fds ch in
    (
      ch,
      before,
      leave requests fds ch,
      same,
      late
          ∙ ap (λ l'. finish first setup (pos l) (run_child requests fds (new_child fds) l')) ws
          ∙ stopped,
      closings,
      epoll,
      clients,
    )
