-- ===== src/Pool/Child/Sweep.antt =====
-- The descriptors that `RunChild` of src/ProcessPool.h closes when it leaves its loop.
use simple_http_serv.Prelude.{
  ℕ, zero, suc, ◌+◌, ◌≤◌, ◌<◌, ◌≡◌, ◌⊎◌, refl, sym, ap, subst, ◌∙◌, inl, inr, true, false, [], ◌∷◌,
  ◌==◌, if◌then◌else◌, if_true, if_false, ==_iff, Bool-cases, All, none_left, both, Any, here,
  arith, All-append, Any-append_left, Any-append_right,
}
use simple_http_serv.Prelude.Int.{pos}
use simple_http_serv.Sys.{Action, close}
use simple_http_serv.Pool.Child.{Client, max_clientfd, Fds, Child, sweep, leave}

module _ {T : Type 0} (C : Client T) (fds : Fds) where
  -- The descriptor of a slot in use, or the epoll descriptor.
  pub data Closing (clients : ℕ → T) : Action → Type 0 where
    client_closed :
        (fd : ℕ)
        → fd < max_clientfd
        → C.is_init (clients fd) (pos fd) ≡ true
        → Closing clients (close (pos fd))
    epoll_closed : Closing clients (close fds.epollfd)

  sweep-Closing :
      (rounds fd : ℕ) (clients : ℕ → T)
      → fd + rounds ≤ max_clientfd
      → All (Closing clients) (sweep C fds rounds fd clients)
  unfolding sweep
  sweep-Closing zero fd clients l = none_left
  sweep-Closing (suc rounds) fd clients l =
      All-append (one (Bool-cases (C.is_init (clients fd) (pos fd))))
        (sweep-Closing rounds (fd + 1) clients (omega arith))
    where
      one :
          (C.is_init (clients fd) (pos fd) ≡ true) ⊎ (C.is_init (clients fd) (pos fd) ≡ false)
          → All
              (Closing clients)
              (if C.is_init (clients fd) (pos fd) then close (pos fd) ∷ [] else [])
      one (inl used) =
          subst (All (Closing clients)) (sym (if_true (close (pos fd) ∷ []) [] used))
            (both (client_closed fd (omega arith) used) none_left)
      one (inr free) =
          subst (All (Closing clients)) (sym (if_false (close (pos fd) ∷ []) [] free)) none_left

  sweep-every :
      (rounds from : ℕ) (clients : ℕ → T) (fd : ℕ)
      → C.is_init (clients fd) (pos fd) ≡ true
      → from ≤ fd
      → fd < from + rounds
      → Any (λ a. a ≡ close (pos fd)) (sweep C fds rounds from clients)
  unfolding sweep
  sweep-every zero from clients fd used l h = absurd (omega arith)
  sweep-every (suc rounds) from clients fd used l h =
      let own = if C.is_init (clients from) (pos from) then close (pos from) ∷ [] else [] in
      elim (Bool-cases (fd == from)) [
        | inl e ↦
            let same = (==_iff fd from).0 e in
            Any-append_left (sweep C fds rounds (from + 1) clients) (
              subst (Any (λ a. a ≡ close (pos fd)))
                (sym (
                  if_true (close (pos from) ∷ []) []
                    (ap (λ x. C.is_init (clients x) (pos x)) (sym same) ∙ used)))
                (here (ap (λ x. close (pos x)) (sym same))))
        | inr ne ↦
            Any-append_right own
              (sweep-every rounds (from + 1) clients fd used (ground (arith, ne)) (omega arith))
      ]

  -- On leaving, the descriptor of each slot in use is closed, and the epoll descriptor; no other is.
  pub leave-closes :
      (ch : Child C fds)
      → All (Closing ch.clients) (leave C fds ch)
        × Any (λ a. a ≡ close fds.epollfd) (leave C fds ch)
        × ((fd : ℕ)
            → fd < max_clientfd
            → C.is_init (ch.clients fd) (pos fd) ≡ true
            → Any (λ a. a ≡ close (pos fd)) (leave C fds ch))
  unfolding leave
  leave-closes ch = (
    All-append (sweep-Closing max_clientfd 0 ch.clients (omega arith))
        (both epoll_closed none_left),
    Any-append_right (sweep C fds max_clientfd 0 ch.clients) (here refl),
    λ fd l used.
        Any-append_left (close fds.epollfd ∷ [])
          (sweep-every max_clientfd 0 ch.clients fd used (omega arith) (omega arith)),
  )
