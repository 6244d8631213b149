-- ===== src/Examples/Chat/Table.antt =====
-- The table of the group chats in order, and how it loses a client.
use simple_http_serv.Prelude.{
  ℕ, suc, ◌+◌, ◌-◌, ◌≤◌, ◌<◌, ◌≡◌, ◌⊎◌, refl, sym, ap, subst, ◌∙◌, inl, inr, Bool, true, false, not,
  ◌&&◌, ◌||◌, List, [], ◌∷◌, arith, ok, ◌==◌, ltb, if_true, if_false, lt→ltb, Bool-cases, ==_iff,
  Any, here, All, none_left, both,
}
use simple_http_serv.Prelude.Int.{pos}
use simple_http_serv.Sys.{Action, close, send}
use simple_http_serv.Examples.Chat.{
  max_client, max_fd, PollFd, Chat, at, replace_and_close_pollfd, remove_client,
}

-- A client whose flags ask for its removal.
abbrev pub is_gone : PollFd → Bool
is_gone p = not p.revents.pollout && (p.revents.pollerr || p.revents.pollrdhup)

-- The descriptor is one that `kClient` has a slot for.
abbrev pub FdFits : PollFd → Type 0
FdFits p = (n : ℕ) × (p.fd ≡ pos n) × (n < max_fd)

not_both : {A : Type 0} (b : Bool) → b ≡ not b → A
not_both true e = cc
not_both false e = cc

module _ (first : ℕ) where
  abbrev pub InTable : Chat → PollFd → Type 0
  InTable c p = (j : ℕ) × (first ≤ j) × (j < first + c.cnt) × (c.fds j ≡ p)

  pub record IsTable (c : Chat) : Type 0 where
    pub bounded : c.cnt ≤ max_client
    pub fits : (j : ℕ) → first ≤ j → j < first + c.cnt → FdFits (c.fds j)

  -- The step left the table and the index so, from the entry `i` on, with these calls.
  pub record Served (i : ℕ) (c : Chat) (i' : ℕ) (c' : Chat) (actions : List Action) : Type 0 where
    pub table : IsTable c'
    pub closer : first + c'.cnt + suc i ≡ first + c.cnt + i'
    pub ahead : i ≤ i'
    pub kept : (p : PollFd) → InTable c p → is_gone p ≡ false → InTable c' p
    pub only : (p : PollFd) → InTable c' p → InTable c p
    pub closed :
        (p : PollFd)
        → InTable c p
        → is_gone p ≡ true
        → InTable c' p ⊎ Any (λ a. a ≡ close p.fd) actions
    pub before : (j : ℕ) → j < i → c'.fds j ≡ c.fds j
    pub passed : (j : ℕ) → i ≤ j → j < i' → is_gone (c'.fds j) ≡ false
    pub calls :
        All
          (λ a.
            ((p : PollFd) × InTable c p × (is_gone p ≡ true) × (a ≡ close p.fd))
            ⊎ ((p : PollFd) × (buf : List ℕ) × InTable c p × (a ≡ send p.fd buf)))
          actions

  -- The last entry takes the place of the one removed.
  abbrev pub removed : ℕ → Chat → ℕ → ℕ → Chat
  removed i c to from = record {
    cnt = c.cnt - 1;
    fds = at c.fds i (c.fds (first + c.cnt - 1));
    clients = at c.clients to (c.clients from);
  }

  pub remove_client_lem :
      (i : ℕ) (c : Chat)
      → IsTable c
      → first ≤ i
      → i < first + c.cnt
      → (to : ℕ) × (from : ℕ) × (remove_client first i c
          ≡ ok (removed i c to from, close (c.fds i).fd ∷ []))
  unfolding remove_client replace_and_close_pollfd
  remove_client_lem i c t l h =
      let last = first + c.cnt - 1 in
      let (to, d, dl) = t.fits i l h in
      let (from, s, sl) = t.fits last (omega arith) (omega arith) in
      let il : ltb i (first + max_client) ≡ true = lt→ltb _ _ (omega (arith, t.bounded)) in
      let ll : ltb last (first + max_client) ≡ true = lt→ltb _ _ (omega (arith, t.bounded)) in
      (to, from, rw (il, ll, d, s, lt→ltb to max_fd dl, lt→ltb from max_fd sl))

  removed_stays :
      (i : ℕ) (c : Chat) (to from j : ℕ)
      → first ≤ i
      → i < first + c.cnt
      → first ≤ j
      → j < first + c.cnt
      → (j == i) ≡ false
      → InTable (removed i c to from) (c.fds j)
  removed_stays i c to from j l h jl jh ne =
      let last = first + c.cnt - 1 in
      elim (Bool-cases (j == last)) [
        | inl e ↦ (
          i,
          l,
          ground (arith, ne, e),
          if_true (c.fds last) (c.fds i) ((==_iff i i).1 refl)
              ∙ ap c.fds (sym ((==_iff j last).0 e)),
        )
        | inr o ↦ (j, jl, ground (arith, o), if_false (c.fds last) (c.fds j) ne)
      ]

  removed_was :
      (i : ℕ) (c : Chat) (to from j : ℕ)
      → first ≤ j
      → j < first + (c.cnt - 1)
      → InTable c ((removed i c to from).fds j)
  removed_was i c to from j jl jh =
      let last = first + c.cnt - 1 in
      elim (Bool-cases (j == i)) [
        | inl e ↦ (last, omega arith, omega arith, sym (if_true (c.fds last) (c.fds j) e))
        | inr o ↦ (j, jl, omega arith, sym (if_false (c.fds last) (c.fds j) o))
      ]

  apart_of :
      (i j : ℕ) (c : Chat) (b : Bool)
      → is_gone (c.fds i) ≡ b
      → is_gone (c.fds j) ≡ not b
      → (j == i) ≡ false
  apart_of i j c b gi gj = elim (Bool-cases (j == i)) [
    | inl e ↦ not_both b (sym gi ∙ ap (λ x. is_gone (c.fds x)) (sym ((==_iff j i).0 e)) ∙ gj)
    | inr o ↦ o
  ]

  pub removed-Served :
      (i : ℕ) (c : Chat) (to from : ℕ)
      → IsTable c
      → first ≤ i
      → i < first + c.cnt
      → is_gone (c.fds i) ≡ true
      → Served i c i (removed i c to from) (close (c.fds i).fd ∷ [])
  removed-Served i c to from t l h g = record {
    table = record {
      bounded = omega (arith, t.bounded);
      fits = λ j jl jh.
          let (j', jl', jh', e) = removed_was i c to from j jl jh in
          subst FdFits e (t.fits j' jl' jh');
    };
    closer = ground arith;
    ahead = omega arith;
    kept = λ p (j, jl, jh, e) stay.
        subst (InTable (removed i c to from)) e
          (removed_stays i c to from j l h jl jh (apart_of i j c true g (ap is_gone e ∙ stay)));
    only = λ p (j, jl, jh, e). subst (InTable c) e (removed_was i c to from j jl jh);
    closed = λ p (j, jl, jh, e) gone. elim (Bool-cases (j == i)) [
      | inl same ↦ inr (here (ap (λ x. close x.fd) (ap c.fds (sym ((==_iff j i).0 same)) ∙ e)))
      | inr ne ↦
          inl (subst (InTable (removed i c to from)) e (removed_stays i c to from j l h jl jh ne))
    ];
    before = λ j jl. ground arith;
    passed = λ j jl jh. absurd (omega arith);
    calls = both (inl (c.fds i, (i, l, h, refl), g, refl)) none_left;
  }
