-- ===== src/Pool/Program.antt =====
-- `main` of src/MainMultiProc.cc, in the process at hand: the parent, or a child that a fork has made.
pub mod Finish
pub mod Stop
pub mod ChildStop
use simple_http_serv.Prelude.{
  ℕ, ◌≤◌, ◌≡◌, refl, Bool, true, some, List, [], ◌∷◌, ◌++◌, Run, ok, fault, out_of_bounds,
  null_deref, assert_failed, ◌>>=◌, if◌then◌else◌, All, arith,
}
use simple_http_serv.Prelude.Int.{ℤ, pos, negsuc}
use simple_http_serv.Epoll.{epoll_add_fd, set_non_blocking}
use simple_http_serv.Sys.{
  Action, sigaction, sigterm, sigint, sigchld, close, Ending, left, waiting, Wait,
}
use simple_http_serv.ReqStatMach.Batch.Handled.{IsSound}
use simple_http_serv.Pool.Process.{
  SigAnswers, setup_epoll, setup_sig_pipe, Installs, add_sigactions-Installs,
}
use simple_http_serv.Pool.Create.{
  Forks, ProcessPool, Role, parent_role, child_role, set_proc, create, run,
}
use simple_http_serv.Pool.Create.Forking.{Forked, create-child}
use simple_http_serv.Pool.Parent.{Parent, setup_parent, run_parent}
use simple_http_serv.Pool.Child.{Fds, Child, setup_child, run_child}
use simple_http_serv.Pool.Child.Loop.{WaitFits, Ended, run_child-Ended}
use simple_http_serv.Pool.Child.Requests.{
  requests, requests-ClientLaws, new_clients, new_clients-Slots,
}

-- What the kernel answers: to `socket`, whether `bind` and `listen` succeed, to the constructor, to
-- `epoll_create` and `socketpair` in `run`, and to each wait.
pub record Kernel : Type 0 where
  pub socket : ℤ
  pub bind : Bool
  pub listen : Bool
  pub forks : Forks
  pub epollfd : ℤ
  pub sig_answers : SigAnswers
  pub waits : List Wait

-- `ProcessPool<ReqStatMach>::run`
unfoldable pub run_role : Kernel → ProcessPool → Role → Run (Ending × List Action)
run_role w pool (parent_role i) = do
  (p, sig, actions) ← setup_parent w.epollfd w.sig_answers pool
  let pa : Parent = record {
    pool = record pool { proc = set_proc pool.proc 0 p };
    sub_process_idx = 0;
  }
  (ending, pa', more) ← run_parent p.listenfd sig.0 p.epollfd pa w.waits
  ok (ending, actions ++ more)
run_role w pool (child_role (negsuc i)) = fault out_of_bounds
run_role w pool (child_role (pos i)) = do
  (p, sig, actions) ← setup_child w.epollfd w.sig_answers i pool
  let fds : Fds = record { epollfd = p.epollfd; ipc_pipefd = p.child_rfd; sig_rfd = sig.0 }
  let ch : Child requests fds = record { clients = new_clients; stop = pool.stop }
  (ending, ch', more) ← run_child requests fds ch w.waits
  ok (ending, actions ++ more)

-- Behind `run`.
abbrev pub close_behind : Ending → ℤ → List Action
close_behind left listenfd = close listenfd ∷ []
close_behind waiting listenfd = []

unfoldable pub main : Kernel → Run (Ending × List Action)
main w = elim w.socket [
  | negsuc e ↦ fault assert_failed
  | pos listenfd ↦
      if w.bind
      then (if w.listen
          then (do
            (pool, actions) ← create w.forks (pos listenfd) 2
            (ending, more) ← run_role w pool (run pool)
            ok (ending, actions ++ more ++ close_behind ending (pos listenfd)))
          else fault assert_failed)
      else ok (left, [])
]

-- The process waits, or it has closed the listening socket last, or a client's null pointer stops it.
abbrev pub Finishes : ℤ → Run (Ending × List Action) → Type 0
Finishes listenfd (ok (left, actions)) =
    (before : List Action) × (actions ≡ before ++ close listenfd ∷ [])
Finishes listenfd (ok (waiting, actions)) = Unit {0}
Finishes listenfd (fault f) = f ≡ null_deref

-- The loop of a child, with what came before it.
loop-Finishes :
    (fds : Fds) (listenfd : ℤ) (first : List Action) (actions : List Action)
    (r : Run (Ending × Child requests fds × List Action))
    → Ended requests IsSound requests-ClientLaws fds r
    → Finishes listenfd (do
      (ending, more) ← (do (ending, ch, more) ← r; ok (ending, actions ++ more))
      ok (ending, first ++ more ++ close_behind ending listenfd))
loop-Finishes fds listenfd first actions (ok (left, ch, more)) e =
    (first ++ (actions ++ more), refl)
loop-Finishes fds listenfd first actions (ok (waiting, ch, more)) e = tt
loop-Finishes fds listenfd first actions (fault f) e = e

-- In the child `k`, when the socket listens, every pipe and epoll set is made, the
-- handlers are installed and the waits fit: the
-- program waits, or closes the listening socket last, or is stopped by a client's null pointer.
pub main-Finishes :
    (w : Kernel) (listenfd k epollfd : ℕ) (sig_rfd sig_wfd : ℤ) (pairs : ℕ → ℤ × ℤ) (pids : ℕ → ℕ)
    → w.socket ≡ pos listenfd
    → w.bind ≡ true
    → w.listen ≡ true
    → Forked w.forks k pairs pids
    → w.forks.fork k ≡ pos 0
    → 1 ≤ k
    → k ≤ 2
    → w.epollfd ≡ pos epollfd
    → w.sig_answers.pair ≡ some (sig_rfd, sig_wfd)
    → Installs w.sig_answers.sigaction_ret
    → All WaitFits w.waits
    → Finishes (pos listenfd) (main w)
unfolding main run_role setup_child setup_epoll setup_sig_pipe
main-Finishes w l k e rfd wfd pairs pids s b li started f k1 kn ep sp inst fits =
    let (pool, actions, c, role, own, runs) =
      create-child w.forks (pos l) 2 k pairs pids (omega arith) k1 kn started f in
    let p = pool.proc k in
    let fds : Fds = record { epollfd = pos e; ipc_pipefd = p.child_rfd; sig_rfd = rfd } in
    let handlers = sigaction sigterm ∷ sigaction sigint ∷ sigaction sigchld ∷ [] in
    let before =
      set_non_blocking p.listenfd
      ++ epoll_add_fd (pos e) p.child_rfd
      ++ (handlers ++ epoll_add_fd (pos e) rfd) in
    let ch : Child requests fds = record { clients = new_clients; stop = pool.stop } in
    rw (s, b, li, c, role, ep, sp, add_sigactions-Installs w.sig_answers.sigaction_ret inst)
      (loop-Finishes fds (pos l) actions before (run_child requests fds ch w.waits) (
        run_child-Ended requests IsSound requests-ClientLaws fds w.waits ch fits
          (new_clients-Slots fds)))
