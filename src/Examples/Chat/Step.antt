-- ===== src/Examples/Chat/Step.antt =====
-- One step of phase 2 of the group chats: which clients stay in the table, and which are closed.
use simple_http_serv.Prelude.{
  ℕ, zero, suc, ◌+◌, ◌-◌, ◌≤◌, ◌<◌, ◌≡◌, ◌⊎◌, refl, subst, inl, inr, true, false, List, [], ◌∷◌,
  arith, ok, ltb, lt→ltb, Bool-cases, All, none_left, both,
}
use simple_http_serv.Prelude.Int.{ℤ, pos, eq_ℤ}
use simple_http_serv.Sys.{Action, close, send, Received, failed, bytes}
use simple_http_serv.Examples.Chat.{
  max_client, max_fd, PollFd, ClientData, Chat, at, filled, buf_size_recv, send_others, on_readable,
  serve_one,
}
use simple_http_serv.Examples.Chat.Table.{
  is_gone, InTable, IsTable, Served, removed, remove_client_lem, removed-Served,
}

module _ (first : ℕ) where
  abbrev pub Call : Chat → Action → Type 0
  Call c a =
      ((p : PollFd) × InTable first c p × (is_gone p ≡ true) × (a ≡ close p.fd))
      ⊎ ((p : PollFd) × (buf : List ℕ) × InTable first c p × (a ≡ send p.fd buf))

  messages :
      (c : Chat) {actions : List Action}
      → All (λ a. (p : PollFd) × (buf : List ℕ) × InTable first c p × (a ≡ send p.fd buf)) actions
      → All (Call c) actions
  messages c none_left = none_left
  messages c (both m ms) = both (inr m) (messages c ms)

  -- Only `clients` changed, and the calls are messages.
  abbrev Sends : Chat → List Action → Type 0
  Sends c actions =
      All (λ a. (p : PollFd) × (buf : List ℕ) × InTable first c p × (a ≡ send p.fd buf)) actions

  passed-Served :
      (i : ℕ) (c : Chat) (clients : ℕ → ClientData) (actions : List Action)
      → IsTable first c
      → is_gone (c.fds i) ≡ false
      → Sends c actions
      → Served first i c (i + 1) (record c { clients = clients }) actions
  passed-Served i c clients actions t g s = record {
    table = record { bounded = t.bounded; fits = t.fits };
    closer = omega arith;
    ahead = omega arith;
    kept = λ p inn stay. inn;
    only = λ p inn. inn;
    closed = λ p inn gone. inl inn;
    before = λ j jl. refl;
    passed = λ j jl jh. subst (λ x. is_gone (c.fds x) ≡ false) (omega arith) g;
    calls = messages c s;
  }

  send_others-Sends :
      (rounds j : ℕ) (c : Chat) (peer : ℤ) (buf : List ℕ)
      → IsTable first c
      → first ≤ j
      → j + rounds ≡ first + c.cnt
      → (actions : List Action) × (send_others first rounds j c peer buf ≡ ok actions)
        × Sends c actions
  unfolding send_others
  send_others-Sends zero j c peer buf t l e = ([], refl, none_left)
  send_others-Sends (suc rounds) j c peer buf t l e =
      let (more, r, s) =
        send_others-Sends rounds (j + 1) c peer buf t (omega arith) (omega arith) in
      let jl : ltb j (first + max_client) ≡ true = lt→ltb _ _ (omega (arith, t.bounded)) in
      elim (Bool-cases (eq_ℤ (c.fds j).fd peer)) [
        | inl self ↦ (more, rw (jl, r, self), s)
        | inr o ↦ (
          send (c.fds j).fd buf ∷ more,
          rw (jl, r, o),
          both (c.fds j, buf, (j, l, omega arith, refl), refl) s,
        )
      ]

  abbrev buffered : Chat → ℕ → List ℕ → ℕ → ClientData
  buffered c n buf = at c.clients n (record (c.clients n) { recv_buf = buf })

  on_readable-Sends :
      (i : ℕ) (c : Chat) (r : Received)
      → IsTable first c
      → first ≤ i
      → i < first + c.cnt
      → (clients : ℕ → ClientData) × (actions : List Action) × (on_readable first c (c.fds i).fd r
          ≡ ok (record c { clients = clients }, actions))
        × Sends c actions
  unfolding on_readable
  on_readable-Sends i c (failed e) t l h =
      let (n, d, nl) = t.fits i l h in
      (buffered c n (filled []), [], rw (d, lt→ltb n max_fd nl), none_left)
  on_readable-Sends i c (bytes []) t l h =
      let (n, d, nl) = t.fits i l h in
      (buffered c n (filled []), [], rw (d, lt→ltb n max_fd nl), none_left)
  on_readable-Sends i c (bytes (b ∷ bs)) t l h =
      let (n, d, nl) = t.fits i l h in
      let (actions, e, s) =
        send_others-Sends c.cnt first c (pos n) (filled (b ∷ bs)) t (omega arith) refl in
      (buffered c n (filled (b ∷ bs)), actions, rw (d, lt→ltb n max_fd nl, e), s)

  -- A step meets no fault.
  pub serve_one-Served :
      (recv : (fd : ℤ) (len : ℕ) → Received) (i : ℕ) (c : Chat)
      → IsTable first c
      → first ≤ i
      → i < first + c.cnt
      → (i' : ℕ) × (c' : Chat) × (actions : List Action) × (serve_one first recv i c
          ≡ ok (i', c', actions))
        × Served first i c i' c' actions
  unfolding serve_one
  serve_one-Served recv i c t l h =
      let p = c.fds i in
      let il : ltb i (first + max_client) ≡ true = lt→ltb _ _ (omega (arith, t.bounded)) in
      let (to, from, e) = remove_client_lem first i c t l h in
      let (clients, actions, e', s) = on_readable-Sends i c (recv p.fd (buf_size_recv - 1)) t l h in
      elim (Bool-cases p.revents.pollout) [
        | inl out ↦
            (i + 1, c, [], rw (il, out), passed-Served i c c.clients [] t (ground arith) none_left)
        | inr o ↦ elim (Bool-cases p.revents.pollerr) [
          | inl err ↦ (
            i,
            removed first i c to from,
            close p.fd ∷ [],
            rw (il, o, err, e),
            removed-Served first i c to from t l h (ground arith),
          )
          | inr e1 ↦ elim (Bool-cases p.revents.pollrdhup) [
            | inl hup ↦ (
              i,
              removed first i c to from,
              close p.fd ∷ [],
              rw (il, o, e1, hup, e),
              removed-Served first i c to from t l h (ground arith),
            )
            | inr e2 ↦ elim (Bool-cases p.revents.pollin) [
              | inl r ↦ (
                i + 1,
                record c { clients = clients },
                actions,
                rw (il, o, e1, e2, r, e'),
                passed-Served i c clients actions t (ground arith) s,
              )
              | inr e3 ↦ (
                i + 1,
                c,
                [],
                rw (il, o, e1, e2, e3),
                passed-Served i c c.clients [] t (ground arith) none_left,
              )
            ]
          ]
        ]
      ]
