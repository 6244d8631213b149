-- ===== src/Examples/Chat/Broadcast.antt =====
-- The messages of the group chats: the branch for POLLIN.
use simple_http_serv.Prelude.{
  ℕ, zero, suc, ◌+◌, ◌≤◌, ◌<◌, ◌≡◌, ◌≢◌, refl, sym, ap, ◌∙◌, inl, inr, true, false, List, [], ◌∷◌,
  arith, ok, ◌==◌, ltb, lt→ltb, Bool-cases, ==_iff, Any, here, there, All, none_left, both, clash,
}
use simple_http_serv.Prelude.Int.{ℤ, eq_ℤ}
use simple_http_serv.Sys.{Action, send, bytes}
use simple_http_serv.Examples.Chat.{
  max_client, max_fd, ClientData, Chat, at, client_index, filled, send_others, on_readable,
}
use simple_http_serv.Examples.Chat.Table.{IsTable}

later : {from : ℕ} (j : ℕ) → j ≢ from → from ≤ j → from + 1 ≤ j
later j n l = ground (arith, n)

module _ (first : ℕ) where
  -- The message goes to each other client, and to nobody else.
  abbrev pub Reaches : Chat → (from : ℕ) → ℤ → List ℕ → List Action → Type 0
  Reaches c from peer buf actions =
      ((j : ℕ)
        → from ≤ j
        → j < first + c.cnt
        → eq_ℤ (c.fds j).fd peer ≡ false
        → Any (λ a. a ≡ send (c.fds j).fd buf) actions)
      × All
          (λ a.
            (j : ℕ) × (from ≤ j)
            × (j < first + c.cnt)
            × (eq_ℤ (c.fds j).fd peer ≡ false)
            × (a ≡ send (c.fds j).fd buf))
          actions

  from_earlier :
      (c : Chat) (from : ℕ) (peer : ℤ) (buf : List ℕ) {actions : List Action}
      → All
          (λ a.
            (j : ℕ) × (from + 1 ≤ j)
            × (j < first + c.cnt)
            × (eq_ℤ (c.fds j).fd peer ≡ false)
            × (a ≡ send (c.fds j).fd buf))
          actions
      → All
          (λ a.
            (j : ℕ) × (from ≤ j)
            × (j < first + c.cnt)
            × (eq_ℤ (c.fds j).fd peer ≡ false)
            × (a ≡ send (c.fds j).fd buf))
          actions
  from_earlier c from peer buf none_left = none_left
  from_earlier c from peer buf (both (j, l, h, o, e) more) =
      both (j, omega arith, h, o, e) (from_earlier c from peer buf more)

  pub send_others-Reaches :
      (rounds from : ℕ) (c : Chat) (peer : ℤ) (buf : List ℕ)
      → c.cnt ≤ max_client
      → from + rounds ≡ first + c.cnt
      → (actions : List Action) × (send_others first rounds from c peer buf ≡ ok actions)
        × Reaches c from peer buf actions
  unfolding send_others
  send_others-Reaches zero from c peer buf t e =
      ([], refl, (λ j l h o. absurd (omega arith), none_left))
  send_others-Reaches (suc rounds) from c peer buf t e =
      let (more, r, (every, only)) =
        send_others-Reaches rounds (from + 1) c peer buf t (omega arith) in
      let inside : ltb from (first + max_client) ≡ true = lt→ltb _ _ (omega arith) in
      elim (Bool-cases (eq_ℤ (c.fds from).fd peer)) [
        | inl self ↦ (
          more,
          rw (inside, r, self),
          (
            λ j l h o.
                every j (later j (λ s. clash (ap (λ x. eq_ℤ (c.fds x).fd peer) s ∙ self) o) l) h o,
            from_earlier c from peer buf only,
          ),
        )
        | inr other ↦ (
          send (c.fds from).fd buf ∷ more,
          rw (inside, r, other),
          (
            λ j l h o. elim (Bool-cases (j == from)) [
              | inl s ↦ here (ap (λ x. send (c.fds x).fd buf) (sym ((==_iff j from).0 s)))
              | inr n ↦ there (every j (ground (arith, n)) h o)
            ],
            both (from, omega arith, omega arith, other, refl) (from_earlier c from peer buf only),
          ),
        )
      ]

  -- A message from the client `i` goes, with zeros up to the buffer's size, to each other client and
  -- to nobody else; the table stays.
  pub on_readable-Reaches :
      (i b : ℕ) (bs : List ℕ) (c : Chat)
      → IsTable first c
      → first ≤ i
      → i < first + c.cnt
      → (clients : ℕ → ClientData) × (actions : List Action) × (on_readable first c
            (c.fds i).fd
            (bytes (b ∷ bs))
          ≡ ok (record c { clients = clients }, actions))
        × Reaches c first (c.fds i).fd (filled (b ∷ bs)) actions
  unfolding on_readable
  on_readable-Reaches i b bs c t l h =
      let (n, d, nl) = t.fits i l h in
      let ix : client_index (c.fds i).fd ≡ ok n = rw (d, lt→ltb n max_fd nl) in
      let (actions, e, reach) =
        send_others-Reaches c.cnt first c (c.fds i).fd (filled (b ∷ bs)) t.bounded refl in
      (
        at c.clients n (record (c.clients n) { recv_buf = filled (b ∷ bs) }),
        actions,
        rw (ix, e),
        reach,
      )
