-- ===== src/Pool/Child/Slots.antt =====
-- The `clients` array of `RunChild` in src/ProcessPool.h: each slot is free, or has its own
-- descriptor.
use simple_http_serv.Prelude.{
  ℕ, zero, suc, ◌+◌, ◌<◌, ◌≡◌, ◌⊎◌, refl, sym, subst, inl, inr, Bool, true, false, ◌&&◌, List, [],
  ◌∷◌, ◌++◌, Run, ok, fault, out_of_bounds, null_deref, ◌>>=◌, ◌==◌, lt→ltb, if◌then◌else◌, if_true,
  if_false, ==_iff, Bool-cases,
}
use simple_http_serv.Prelude.Int.{ℤ, pos, minus_one, eq_ℤ}
use simple_http_serv.Sys.{
  Recv, SockAddr, Action, close, eagain, eintr, ebadf, other, Received, failed, bytes, Accepted,
  refused, accepted, Event,
}
use simple_http_serv.Epoll.{epoll_add_fd, set_non_blocking}
use simple_http_serv.ReqStatMach.Process.Safety.{RecvFits}
use simple_http_serv.Pool.Parent.{sigs_size}
use simple_http_serv.Pool.Child.{
  Client, max_clientfd, max_accept_n, msg_size, Fds, Child, set_client, on_accepted, accept_loop,
  on_notified, on_child_sigs, on_client, child_event,
}

-- The one way for a client to fail is the null pointer; else its descriptor is given up.
abbrev pub Processed :
    {T : Type 0} (C : Client T) (Sound : T → Type 0) → Run (T × List Action) → Type 0
Processed C Sound (ok (c, actions)) = Sound c × (C.is_init c minus_one ≡ true)
Processed C Sound (fault f) = f ≡ null_deref

-- What the pool relies on in a client.
pub record ClientLaws {T : Type 0} (C : Client T) (Sound : T → Type 0) : Type 0 where
  pub init_sound :
      (epollfd sockfd : ℤ) (addr : SockAddr) (c : T) → Sound (C.init epollfd sockfd addr c)
  pub init_own :
      (epollfd sockfd : ℤ) (addr : SockAddr) (c : T)
      → C.is_init (C.init epollfd sockfd addr c) sockfd ≡ true
  pub process_sound :
      (recv : Recv) (c : T) → RecvFits recv → Sound c → Processed C Sound (C.process recv c)

-- The kernel's descriptors are below the size of `clients`, and `recv` respects its length.
pub record EventFits (ev : Event) : Type 0 where
  pub recv_fits : RecvFits ev.recv
  pub accept_fits :
      (call fd : ℕ) (addr : SockAddr) → ev.accept call ≡ accepted fd addr → fd < max_clientfd
  pub index : ℕ
  pub fd_index : ev.fd ≡ pos index
  pub fd_fits : index < max_clientfd

module _ {T : Type 0} (C : Client T) (Sound : T → Type 0) (laws : ClientLaws C Sound)
    (fds : Fds) where
  abbrev pub Slot : T → ℕ → Type 0
  Slot c i = Sound c × ((C.is_init c minus_one ≡ true) ⊎ (C.is_init c (pos i) ≡ true))

  abbrev pub Slots : (ℕ → T) → Type 0
  Slots clients = (i : ℕ) → Slot (clients i) i

  set_client-Slots :
      (clients : ℕ → T) (i : ℕ) (c : T)
      → Slots clients
      → Slot c i
      → Slots (set_client C fds clients i c)
  set_client-Slots clients i c all own j = elim (Bool-cases (j == i)) [
    | inl e ↦
        subst (λ x. Slot x j) (sym (if_true c (clients j) e))
          (subst (Slot c) (sym ((==_iff j i).0 e)) own)
    | inr ne ↦ subst (λ x. Slot x j) (sym (if_false c (clients j) ne)) (all j)
  ]

  abbrev pub SlotsRun : Run ((ℕ → T) × List Action) → Type 0
  SlotsRun (ok (clients, actions)) = Slots clients
  SlotsRun (fault f) = f ≡ null_deref

  SlotsRun-bind :
      (g : List Action → List Action) (r : Run ((ℕ → T) × List Action))
      → SlotsRun r
      → SlotsRun (r >>= λ (clients, more). ok (clients, g more))
  SlotsRun-bind g (ok r) k = k
  SlotsRun-bind g (fault f) k = k

  on_accepted-Slots :
      (again : (ℕ → T) → Run ((ℕ → T) × List Action)) (clients : ℕ → T) (answer : Accepted)
      → ((clients' : ℕ → T) → Slots clients' → SlotsRun (again clients'))
      → ((fd : ℕ) (addr : SockAddr) → answer ≡ accepted fd addr → fd < max_clientfd)
      → Slots clients
      → SlotsRun (on_accepted C fds again clients answer)
  unfolding on_accepted
  on_accepted-Slots again clients (refused e) rest fits all = all
  on_accepted-Slots again clients (accepted fd addr) rest fits all =
      let c = C.init fds.epollfd (pos fd) addr (clients fd) in
      let next = set_client C fds clients fd c in
      let slots : Slots next = set_client-Slots clients fd c all (
        laws.init_sound fds.epollfd (pos fd) addr (clients fd),
        inr (laws.init_own fds.epollfd (pos fd) addr (clients fd)),
      ) in
      subst SlotsRun
        (sym (if_true _ (fault out_of_bounds) (lt→ltb fd max_clientfd (fits fd addr refl))))
        (elim (Bool-cases (C.is_init (clients fd) minus_one)) [
          | inl free ↦ subst SlotsRun (sym (if_true _ _ free)) (
              SlotsRun-bind
                (λ more. epoll_add_fd fds.epollfd (pos fd) ++ set_non_blocking (pos fd) ++ more)
                (again next) (rest next slots))
          | inr busy ↦
              subst SlotsRun (sym (if_false _ (ok (clients, close (pos fd) ∷ [])) busy)) all
        ])

  accept_loop-Slots :
      (rounds call : ℕ) (accept : ℕ → Accepted) (clients : ℕ → T)
      → ((call fd : ℕ) (addr : SockAddr) → accept call ≡ accepted fd addr → fd < max_clientfd)
      → Slots clients
      → SlotsRun (accept_loop C fds rounds call accept clients)
  unfolding accept_loop
  accept_loop-Slots zero call accept clients fits all = all
  accept_loop-Slots (suc rounds) call accept clients fits all =
      on_accepted-Slots (accept_loop C fds rounds (call + 1) accept) clients (accept call)
        (λ clients' all'. accept_loop-Slots rounds (call + 1) accept clients' fits all') (fits call)
        all

  abbrev pub Steps : Run (Child C fds × List Action) → Type 0
  Steps (ok (ch, actions)) = Slots ch.clients
  Steps (fault f) = f ≡ null_deref

  accepting-Steps :
      (ch : Child C fds) (r : Run ((ℕ → T) × List Action))
      → SlotsRun r
      → Steps (r >>= λ (clients, actions). ok (record ch { clients = clients }, actions))
  accepting-Steps ch (ok r) k = k
  accepting-Steps ch (fault f) k = k

  on_notified-Steps :
      (ch : Child C fds) (accept : ℕ → Accepted) (r : Received)
      → ((call fd : ℕ) (addr : SockAddr) → accept call ≡ accepted fd addr → fd < max_clientfd)
      → Slots ch.clients
      → Steps (on_notified C fds ch accept r)
  unfolding on_notified
  on_notified-Steps ch accept (bytes []) fits all = all
  on_notified-Steps ch accept (bytes (b ∷ bs)) fits all =
      accepting-Steps ch (accept_loop C fds max_accept_n 0 accept ch.clients)
        (accept_loop-Slots max_accept_n 0 accept ch.clients fits all)
  on_notified-Steps ch accept (failed eagain) fits all =
      accepting-Steps ch (accept_loop C fds max_accept_n 0 accept ch.clients)
        (accept_loop-Slots max_accept_n 0 accept ch.clients fits all)
  on_notified-Steps ch accept (failed eintr) fits all = all
  on_notified-Steps ch accept (failed ebadf) fits all = all
  on_notified-Steps ch accept (failed other) fits all = all

  Processed-Steps :
      (ch : Child C fds) (fd : ℕ) (r : Run (T × List Action))
      → Slots ch.clients
      → Processed C Sound r
      → Steps (
          r >>= λ (c, actions).
          ok (record ch { clients = set_client C fds ch.clients fd c }, actions))
  Processed-Steps ch fd (ok (c, actions)) all (sound, free) =
      set_client-Slots ch.clients fd c all (sound, inl free)
  Processed-Steps ch fd (fault f) all k = k

  on_client-Steps :
      (ch : Child C fds) (recv : Recv) (fd : ℕ)
      → RecvFits recv
      → fd < max_clientfd
      → Slots ch.clients
      → Steps (on_client C fds ch recv (pos fd))
  unfolding on_client
  on_client-Steps ch recv fd fits l all =
      subst Steps (sym (if_true _ (fault out_of_bounds) (lt→ltb fd max_clientfd l))) (
        Processed-Steps ch fd (C.process recv (ch.clients fd)) all
          (laws.process_sound recv (ch.clients fd) fits ((all fd).0)))

  on_child_sigs-Steps :
      (ch : Child C fds) (r : Received)
      → Slots ch.clients
      → Slots (on_child_sigs C fds ch r).clients
  unfolding on_child_sigs
  on_child_sigs-Steps ch (failed e) all = all
  on_child_sigs-Steps ch (bytes sigs) all = all

  either_step :
      (b : Bool) (x y : Run (Child C fds × List Action))
      → Steps x
      → Steps y
      → Steps (if b then x else y)
  either_step true x y sx sy = sx
  either_step false x y sx sy = sy

  pub child_event-Steps :
      (ch : Child C fds) (ev : Event)
      → EventFits ev
      → Slots ch.clients
      → Steps (child_event C fds ch ev)
  unfolding child_event
  child_event-Steps ch ev fits all =
      either_step (eq_ℤ ev.fd fds.ipc_pipefd && ev.is_in) _ _
        (on_notified-Steps ch ev.accept (ev.recv 0 ev.fd msg_size) fits.accept_fits all)
        (either_step (eq_ℤ ev.fd fds.sig_rfd && ev.is_in) _ _
          (on_child_sigs-Steps ch (ev.recv 0 ev.fd sigs_size) all)
          (either_step ev.is_in _ _
            (subst (λ fd. Steps (on_client C fds ch ev.recv fd)) (sym fits.fd_index)
              (on_client-Steps ch ev.recv fits.index fits.recv_fits fits.fd_fits all))
            all))
