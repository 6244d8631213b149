-- ===== src/Examples/Chat/Accept.antt =====
-- Phase 1 of the group chats.
use simple_http_serv.Prelude.{
  ℕ, ◌+◌, ◌≤◌, ◌<◌, ◌≡◌, ◌⊎◌, refl, sym, subst, ◌∙◌, inl, inr, none, List, [], ◌∷◌, arith, ok, ◌==◌,
  lt→ltb, leb, if_true, if_false, Bool-cases,
}
use simple_http_serv.Prelude.Int.{pos}
use simple_http_serv.Sys.{Action, close, SockAddr, Accepted, refused, accepted}
use simple_http_serv.Examples.Chat.{
  max_client, max_fd, no_flags, client_events, PollFd, Chat, at, on_accept,
}
use simple_http_serv.Examples.Chat.Table.{FdFits, InTable, IsTable}

module _ (first : ℕ) where
  -- A connection that is accepted where there is room joins the table.
  abbrev pub joined : Chat → ℕ → PollFd
  joined c fd = record { fd = pos fd; events = client_events; revents = no_flags }

  -- Phase 1 adds a client, or closes a connection where the table is full.
  pub record Accepts (c c' : Chat) (answer : Accepted) (actions : List Action) : Type 0 where
    pub table : IsTable first c'
    pub kept : (p : PollFd) → InTable first c p → InTable first c' p
    pub only :
        (p : PollFd)
        → InTable first c' p
        → InTable first c p
          ⊎ ((fd : ℕ) × (addr : SockAddr) × (answer ≡ accepted fd addr)
              × (c.cnt < max_client)
              × (p ≡ joined c fd))
    pub calls :
        (actions ≡ [])
        ⊎ ((fd : ℕ) × (addr : SockAddr) × (answer ≡ accepted fd addr)
            × (max_client ≤ c.cnt)
            × (actions ≡ close (pos fd) ∷ []))

  abbrev joined_chat : Chat → ℕ → SockAddr → Chat
  joined_chat c fd addr = record {
    cnt = c.cnt + 1;
    fds = at c.fds (first + c.cnt) (joined c fd);
    clients =
        at c.clients fd (record (c.clients fd) { client_sockaddr = addr; buf_to_write = none });
  }

  other_entry :
      (c : Chat) (fd j : ℕ) → j < first + c.cnt → at c.fds (first + c.cnt) (joined c fd) j ≡ c.fds j
  other_entry c fd j l = if_false (joined c fd) (c.fds j) (ground arith)

  joined_fits :
      (c : Chat) (fd : ℕ) (addr : SockAddr)
      → IsTable first c
      → fd < max_fd
      → (j : ℕ) → first ≤ j
      → j < first + (c.cnt + 1)
      → FdFits ((joined_chat c fd addr).fds j)
  joined_fits c fd addr t fit j jl jh = elim (Bool-cases (j == first + c.cnt)) [
    | inl new ↦ subst FdFits (sym (if_true (joined c fd) (c.fds j) new)) (fd, refl, fit)
    | inr old ↦
        subst FdFits (sym (if_false (joined c fd) (c.fds j) old))
          (t.fits j jl (ground (arith, old)))
  ]

  pub on_accept-Accepts :
      (answer : Accepted) (c : Chat)
      → IsTable first c
      → ((fd : ℕ) (addr : SockAddr) → answer ≡ accepted fd addr → fd < max_fd)
      → (c' : Chat) × (actions : List Action) × (on_accept first answer c ≡ ok (c', actions))
        × Accepts c c' answer actions
  unfolding on_accept
  on_accept-Accepts (refused e) c t fits = (
    c,
    [],
    refl,
    record { table = t; kept = λ p inn. inn; only = λ p inn. inl inn; calls = inl refl },
  )
  on_accept-Accepts (accepted fd addr) c t fits = elim (Bool-cases (leb max_client c.cnt)) [
    | inl full ↦ (
      c,
      close (pos fd) ∷ [],
      rw full,
      record {
        table = t;
        kept = λ p inn. inn;
        only = λ p inn. inl inn;
        calls = inr (fd, addr, refl, ground (arith, full), refl);
      },
    )
    | inr room ↦ (
      joined_chat c fd addr,
      [],
      rw (room, lt→ltb fd max_fd (fits fd addr refl)),
      record {
        table = record {
          bounded = ground (arith, room);
          fits = λ j jl jh. joined_fits c fd addr t (fits fd addr refl) j jl jh;
        };
        kept = λ p (j, jl, jh, e). (j, jl, omega arith, other_entry c fd j jh ∙ e);
        only = λ p (j, jl, jh, e). elim (Bool-cases (j == first + c.cnt)) [
          | inl new ↦
              inr
                (fd, addr, refl, ground (arith, room), sym e ∙ if_true (joined c fd) (c.fds j) new)
          | inr old ↦
              inl (j, jl, ground (arith, old), sym (if_false (joined c fd) (c.fds j) old) ∙ e)
        ];
        calls = inl refl;
      },
    )
  ]
