-- ===== src/Examples/Chat/Phases.antt =====
-- Phases 1 and 2 of the group chats together.
use simple_http_serv.Prelude.{
  ℕ, ◌+◌, ◌≤◌, ◌<◌, ◌≡◌, ◌⊎◌, refl, sym, ap, subst, ◌∙◌, inl, inr, true, false, List, [], ◌∷◌, ◌++◌,
  arith, ok, if◌then◌else◌, if_true, if_false, Bool-cases, Any, All, none_left, both, All-append,
  Any-append_right, clash,
}
use simple_http_serv.Prelude.Int.{pos}
use simple_http_serv.Sys.{Action, close, send, SockAddr, Accepted, accepted}
use simple_http_serv.Examples.Chat.{max_client, max_fd, PollFd, Chat, Polled, on_accept, phases}
use simple_http_serv.Examples.Chat.Table.{is_gone, InTable, IsTable}
use simple_http_serv.Examples.Chat.Step.{Call}
use simple_http_serv.Examples.Chat.Accept.{joined, Accepts, on_accept-Accepts}
use simple_http_serv.Examples.Chat.Sweep.{serve-Swept}

module _ (first : ℕ) where
  abbrev pub Joins : Chat → Accepted → PollFd → Type 0
  Joins c answer p =
      (fd : ℕ) × (addr : SockAddr) × (answer ≡ accepted fd addr)
      × (c.cnt < max_client)
      × (p ≡ joined first c fd)

  abbrev pub Asked : Chat → Accepted → Action → Type 0
  Asked c answer a =
      ((p : PollFd) × InTable first c p × (is_gone p ≡ true) × (a ≡ close p.fd))
      ⊎ ((fd : ℕ) × (addr : SockAddr) × (answer ≡ accepted fd addr)
          × (max_client ≤ c.cnt)
          × (a ≡ close (pos fd)))
      ⊎ ((p : PollFd) × (buf : List ℕ) × (InTable first c p ⊎ Joins c answer p)
          × (a ≡ send p.fd buf))

  accept_calls :
      (c c1 : Chat) (answer : Accepted) (actions : List Action)
      → (actions ≡ [])
        ⊎ ((fd : ℕ) × (addr : SockAddr) × (answer ≡ accepted fd addr)
            × (max_client ≤ c.cnt)
            × (actions ≡ close (pos fd) ∷ []))
      → All (Asked c answer) actions
  accept_calls c c1 answer actions (inl e) = subst (All (Asked c answer)) (sym e) none_left
  accept_calls c c1 answer actions (inr (fd, addr, a, full, e)) =
      subst (All (Asked c answer)) (sym e) (both (inr (inl (fd, addr, a, full, refl))) none_left)

  sweep_calls :
      (c c1 : Chat) (answer : Accepted) {actions : List Action}
      → ((p : PollFd) → InTable first c1 p → InTable first c p ⊎ Joins c answer p)
      → All (Call first c1) actions
      → All (Asked c answer) actions
  sweep_calls c c1 answer only none_left = none_left
  sweep_calls c c1 answer only (both (inr (p, buf, inn, e)) rest) =
      both (inr (inr (p, buf, only p inn, e))) (sweep_calls c c1 answer only rest)
  sweep_calls c c1 answer only (both (inl (p, inn, g, e)) rest) =
      both
        (elim (only p inn) [
          | inl old ↦ inl (p, old, g, e)
          | inr (fd, addr, ans, room, new) ↦ clash g (ap is_gone new)
        ])
        (sweep_calls c c1 answer only rest)

  phase_1 :
      (p : Polled) (c : Chat)
      → IsTable first c
      → ((fd : ℕ) (addr : SockAddr) → p.accept ≡ accepted fd addr → fd < max_fd)
      → (c' : Chat) × (actions : List Action) × ((if (c.fds 0).revents.pollin
            then on_accept first p.accept c
            else ok (c, []))
          ≡ ok (c', actions))
        × Accepts first c c' p.accept actions
  phase_1 p c t fits = elim (Bool-cases (c.fds 0).revents.pollin) [
    | inl i ↦
        let (c', actions, e, a) = on_accept-Accepts first p.accept c t fits in
        (c', actions, if_true (on_accept first p.accept c) (ok (c, [])) i ∙ e, a)
    | inr i ↦ (
      c,
      [],
      if_false (on_accept first p.accept c) (ok (c, [])) i,
      record { table = t; kept = λ q inn. inn; only = λ q inn. inl inn; calls = inl refl },
    )
  ]

  -- What phases 1 and 2 leave of the table, and what they call for.
  pub record Serves (c : Chat) (answer : Accepted) (c' : Chat) (actions : List Action)
      : Type 0 where
    pub table : IsTable first c'
    pub kept : (p : PollFd) → InTable first c p → is_gone p ≡ false → InTable first c' p
    pub closed :
        (p : PollFd) → InTable first c p → is_gone p ≡ true → Any (λ a. a ≡ close p.fd) actions
    pub only :
        (p : PollFd)
        → InTable first c' p
        → (is_gone p ≡ false) × (InTable first c p ⊎ Joins c answer p)
    pub calls : All (Asked c answer) actions

  -- One turn behind `poll`, for a table in order and a kernel whose descriptors fit: no fault, the
  -- clients that are gone are closed and out, the others stay, and only a connection accepted
  -- joins them; nothing else is closed, but a connection accepted where the table is full.
  pub phases-Serves :
      (p : Polled) (c : Chat)
      → IsTable first c
      → ((fd : ℕ) (addr : SockAddr) → p.accept ≡ accepted fd addr → fd < max_fd)
      → (c' : Chat) × (actions : List Action) × (phases first p c ≡ ok (c', actions))
        × Serves c p.accept c' actions
  unfolding phases
  phases-Serves p c t fits =
      let (c1, actions, e, a) = phase_1 p c t fits in
      let (c', more, e', w) =
        serve-Swept first (c1.cnt + 1) p.recv first c1 a.table (omega arith)
          (λ j jl jh. absurd (omega arith)) (omega arith) (omega arith) in
      (
        c',
        actions ++ more,
        rw (e, e'),
        record {
          table = w.table;
          kept = λ q inn stay. w.kept q (a.kept q inn) stay;
          closed = λ q inn gone. Any-append_right actions (w.closed q (a.kept q inn) gone);
          only = λ q inn. let (inn1, stay) = w.only q inn in (stay, a.only q inn1);
          calls =
              All-append (accept_calls c c1 p.accept actions a.calls)
                (sweep_calls c c1 p.accept a.only w.calls);
        },
      )
