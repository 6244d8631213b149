-- ===== src/Pool/Child.antt =====
-- `RunChild` of src/ProcessPool.h, over any type of clients. The waits on the epoll set are a list.
pub mod Slots
pub mod Loop
pub mod Stop
pub mod Sweep
pub mod Requests
use simple_http_serv.Prelude.{
  ℕ, zero, suc, ◌+◌, Bool, true, false, ◌&&◌, ◌||◌, Option, List, [], ◌∷◌, ◌++◌, Run, ok, fault,
  out_of_bounds, ◌>>=◌, ◌==◌, ltb, if◌then◌else◌,
}
use simple_http_serv.Prelude.Int.{ℤ, pos, negsuc, minus_one, eq_ℤ}
use simple_http_serv.Sys.{Ending, left, waiting}
use simple_http_serv.Sys.{
  Recv, SockAddr, Action, close, Errno, eagain, eintr, Received, failed, bytes, Accepted, refused,
  accepted, Event, Wait, wait_failed, ready, sigint, sigterm,
}
use simple_http_serv.Epoll.{epoll_add_fd, set_non_blocking}
use simple_http_serv.Pool.Process.{Process, SigAnswers, setup_epoll, setup_sig_pipe}
use simple_http_serv.Pool.Create.{ProcessPool}
use simple_http_serv.Pool.Parent.{sigs_size}

-- What the pool calls of its parameter `T`.
pub record Client (T : Type 0) : Type 0 where
  pub init : (epollfd sockfd : ℤ) → SockAddr → T → T
  pub is_init : T → ℤ → Bool
  pub process : Recv → T → Run (T × List Action)

abbrev pub max_clientfd : ℕ
max_clientfd = 65536

abbrev pub max_accept_n : ℕ
max_accept_n = 100

-- `char msg[10]`
abbrev pub msg_size : ℕ
msg_size = 10

-- Before the loop; `epollfd` is what `epoll_create` returns.
unfoldable pub setup_child :
    (epollfd : ℤ) (answers : SigAnswers) (ch_pool_id : ℕ)
    → ProcessPool
    → Run (Process × (ℤ × ℤ) × List Action)
unfolding setup_epoll setup_sig_pipe
setup_child epollfd answers ch_pool_id pool = do
  p ← setup_epoll epollfd (pool.proc ch_pool_id)
  (fds, actions) ← setup_sig_pipe answers p
  ok (p, fds, set_non_blocking p.listenfd ++ epoll_add_fd p.epollfd p.child_rfd ++ actions)

-- The descriptors that a child waits on, besides its clients'.
pub record Fds : Type 0 where
  pub epollfd : ℤ
  pub ipc_pipefd : ℤ
  pub sig_rfd : ℤ

module _ {T : Type 0} (C : Client T) (fds : Fds) where
  -- `clients`, and `stop_`.
  pub record Child : Type 0 where
    pub clients : ℕ → T
    pub stop : Bool

  abbrev pub set_client : (ℕ → T) → ℕ → T → ℕ → T
  set_client clients i c j = if j == i then c else clients j

  -- Behind one `accept`: `again` is the rest of the loop.
  unfoldable pub on_accepted :
      ((ℕ → T) → Run ((ℕ → T) × List Action)) → (ℕ → T) → Accepted → Run ((ℕ → T) × List Action)
  on_accepted again clients (refused e) = ok (clients, [])
  on_accepted again clients (accepted fd addr) =
      let taken = (do
        (clients', more) ←
            again (set_client clients fd (C.init fds.epollfd (pos fd) addr (clients fd)))
        ok (clients', epoll_add_fd fds.epollfd (pos fd) ++ set_non_blocking (pos fd) ++ more)) in
      if ltb fd max_clientfd
      then (if C.is_init (clients fd) minus_one then taken else ok (clients, close (pos fd) ∷ []))
      else fault out_of_bounds

  -- `while (max_accept_n --)`, with `call` calls of `accept` made.
  unfoldable pub accept_loop :
      (rounds call : ℕ) → (ℕ → Accepted) → (ℕ → T) → Run ((ℕ → T) × List Action)
  unfolding on_accepted
  accept_loop zero call accept clients = ok (clients, [])
  accept_loop (suc rounds) call accept clients =
      on_accepted (accept_loop rounds (call + 1) accept) clients (accept call)

  -- Behind the `recv` on the pipe from the parent: EAGAIN goes on to `accept` as a message does.
  unfoldable pub on_notified : Child → (ℕ → Accepted) → Received → Run (Child × List Action)
  unfolding accept_loop
  on_notified ch accept (bytes []) = ok (ch, [])
  on_notified ch accept (bytes (b ∷ bs)) = do
    (clients, actions) ← accept_loop max_accept_n 0 accept ch.clients
    ok (record ch { clients = clients }, actions)
  on_notified ch accept (failed eagain) = do
    (clients, actions) ← accept_loop max_accept_n 0 accept ch.clients
    ok (record ch { clients = clients }, actions)
  on_notified ch accept (failed e) = ok (ch, [])

  -- The `switch` on each byte of the signal pipe.
  abbrev pub child_signals : Bool → List ℕ → Bool
  child_signals stop [] = stop
  child_signals stop (sig ∷ sigs) = child_signals (stop || sig == sigint || sig == sigterm) sigs

  pub on_child_sigs : Child → Received → Child
  on_child_sigs ch (failed e) = ch
  on_child_sigs ch (bytes sigs) = record ch { stop = child_signals ch.stop sigs }

  -- `clients[ev_fd].process()`
  pub on_client : Child → Recv → ℤ → Run (Child × List Action)
  on_client ch recv (negsuc e) = fault out_of_bounds
  on_client ch recv (pos fd) =
      let processed = (do
        (c, actions) ← C.process recv (ch.clients fd)
        ok (record ch { clients = set_client ch.clients fd c }, actions)) in
      if ltb fd max_clientfd then processed else fault out_of_bounds

  unfoldable pub child_event : Child → Event → Run (Child × List Action)
  unfolding on_notified on_child_sigs on_client
  child_event ch ev =
      if eq_ℤ ev.fd fds.ipc_pipefd && ev.is_in
      then on_notified ch ev.accept (ev.recv 0 ev.fd msg_size)
      else if eq_ℤ ev.fd fds.sig_rfd && ev.is_in
      then ok (on_child_sigs ch (ev.recv 0 ev.fd sigs_size), [])
      else if ev.is_in
      then on_client ch ev.recv ev.fd
      else ok (ch, [])

  unfoldable pub child_events : Child → List Event → Run (Child × List Action)
  child_events ch [] = ok (ch, [])
  child_events ch (ev ∷ evs) = do
    (ch', actions) ← child_event ch ev
    (ch'', more) ← child_events ch' evs
    ok (ch'', actions ++ more)

  -- The last loop, over the descriptors from `fd` on.
  pub sweep : (rounds fd : ℕ) → (ℕ → T) → List Action
  sweep zero fd clients = []
  sweep (suc rounds) fd clients =
      (if C.is_init (clients fd) (pos fd) then close (pos fd) ∷ [] else [])
      ++ sweep rounds (fd + 1) clients

  unfoldable pub leave : Child → List Action
  unfolding sweep
  leave ch = sweep max_clientfd 0 ch.clients ++ close fds.epollfd ∷ []

  -- `while (!stop_)`, and what follows it.
  unfoldable pub run_child : Child → List Wait → Run (Ending × Child × List Action)
  run_child ch [] = if ch.stop then ok (left, ch, leave ch) else ok (waiting, ch, [])
  run_child ch (wait_failed eintr ∷ waits) =
      let rest = run_child ch waits in if ch.stop then ok (left, ch, leave ch) else rest
  run_child ch (wait_failed e ∷ waits) = ok (left, ch, leave ch)
  run_child ch (ready evs ∷ waits) =
      let turn = (do
        (ch', actions) ← child_events ch evs
        (ending, ch'', more) ← run_child ch' waits
        ok (ending, ch'', actions ++ more)) in
      if ch.stop then ok (left, ch, leave ch) else turn
