-- ===== src/Examples/TimingChat/Round.antt =====
-- Phase 2 of examples/framework-intro/timing_group_chat_service.cc, where only the client of the last
-- entry may leave.
use simple_http_serv.Prelude.{
  ℕ, zero, suc, ◌+◌, ◌-◌, ◌≤◌, ◌<◌, ◌≡◌, ◌⊎◌, refl, sym, ap, subst, ◌∙◌, inl, inr, true, false,
  List, [], ◌∷◌, ◌++◌, arith, Run, ok, Bool-cases, ltb, lt→ltb,
}
use simple_http_serv.Prelude.Int.{ℤ, pos}
use simple_http_serv.Sys.{Action, close, Received, failed, bytes}
use simple_http_serv.Examples.Timers.Chain.{Cells, insert_sorted, erase}
use simple_http_serv.Examples.Chat.{max_client, max_fd, buf_size_recv}
use simple_http_serv.Examples.Chat.SignalChat.{st_idx_client}
use simple_http_serv.Examples.Chat.Table.{is_gone}
use simple_http_serv.Examples.TimingChat.{
  client_alive_sec, TimingChat, Turn, put_recv_buf, on_gone, on_readable, serve_one, serve,
}
use simple_http_serv.Examples.TimingChat.Entries.{Entry, IsTimed}
use simple_http_serv.Examples.TimingChat.Gone.{on_gone-IsTimed}
use simple_http_serv.Examples.TimingChat.Message.{on_readable_lem}
use simple_http_serv.Examples.TimingChat.Quiet.{
  LastLeaves, InOrder, IsTimed-same, put_recv_buf-SameClients, InTime, InTime-insert_sorted,
  InTime-erase,
}

module _ (k t : ℕ) (fuel : max_client < k) (p : Turn)
    (times : (fd : ℤ) → t ≤ p.t_recv fd + client_alive_sec) where
  -- One more entry is done, or the last has gone.
  abbrev Advances : ℕ → TimingChat → ℕ → TimingChat → Type 0
  Advances i c i' c' =
      ((i' ≡ i + 1) × (c'.table.cnt ≡ c.table.cnt) × ((j : ℕ) → c'.table.fds j ≡ c.table.fds j))
      ⊎ ((i' ≡ i) × (st_idx_client + c'.table.cnt ≡ i))

  abbrev Steps : ℕ → TimingChat → Run (ℕ × TimingChat × List Action) → Type 0
  Steps i c r =
      (i' : ℕ) × (c' : TimingChat) × (actions : List Action) × (r ≡ ok (i', c', actions))
      × InOrder t c'
      × Advances i c i' c'

  readable-InOrder :
      (i n : ℕ) (c : TimingChat) (xs : Cells) (r : Received)
      → IsTimed c xs
      → InTime t xs
      → st_idx_client ≤ i
      → i < st_idx_client + c.table.cnt
      → Entry c xs i n
      → (c' : TimingChat) × (actions : List Action) × (on_readable k (pos n) (p.t_recv (pos n)) r c
          ≡ ok (c', actions))
        × InOrder t c'
        × (c'.table.cnt ≡ c.table.cnt)
        × ((j : ℕ) → c'.table.fds j ≡ c.table.fds j)
  unfolding on_readable
  readable-InOrder i n c xs (failed e) v h il ih entry = (
    record c { table = put_recv_buf n [] c.table },
    [],
    rw (lt→ltb n max_fd entry.slot),
    (xs, IsTimed-same c _ xs (put_recv_buf-SameClients n [] c) v v.chain, h),
    refl,
    λ j. refl,
  )
  readable-InOrder i n c xs (bytes []) v h il ih entry = (
    record c { table = put_recv_buf n [] c.table },
    [],
    rw (lt→ltb n max_fd entry.slot),
    (xs, IsTimed-same c _ xs (put_recv_buf-SameClients n [] c) v v.chain, h),
    refl,
    λ j. refl,
  )
  readable-InOrder i n c xs (bytes (b ∷ bs)) v h il ih entry =
      let time = p.t_recv (pos n) in
      let (x, l, actions, e, reach, at_it, its, v') =
        on_readable_lem k c xs i n time b bs fuel v il ih entry in
      (
        record c { table = put_recv_buf n (b ∷ bs) c.table; timers = l },
        actions,
        e,
        (
          insert_sorted (record x { expire = time + client_alive_sec }) (erase x.at xs),
          v',
          InTime-insert_sorted t (record x { expire = time + client_alive_sec }) (erase x.at xs)
              (times (pos n)) (InTime-erase t x.at xs h),
        ),
        refl,
        λ j. refl,
      )

  gone-InOrder :
      (i : ℕ) (c : TimingChat) (xs : Cells)
      → IsTimed c xs
      → InTime t xs
      → st_idx_client ≤ i
      → suc i ≡ st_idx_client + c.table.cnt
      → (c' : TimingChat) × (actions : List Action) × (on_gone k i c ≡ ok (c', actions))
        × InOrder t c'
        × (st_idx_client + c'.table.cnt ≡ i)
  gone-InOrder i c xs v h il last =
      let end : st_idx_client + c.table.cnt - 1 ≡ i = omega arith in
      let (n, entry) = v.entry i il (omega arith) in
      let (c', e, v', less, kept) =
        on_gone-IsTimed k c xs n fuel v (omega arith)
          (subst (λ j. Entry c xs j n) (sym end) entry) in
      (
        c',
        close (pos n) ∷ [],
        ap (λ j. on_gone k j c) (sym end) ∙ e,
        (erase (c.table.clients n).timer xs, v', InTime-erase t _ xs h),
        omega (arith, less),
      )

  serve_one-Steps :
      (i : ℕ) (c : TimingChat) (xs : Cells)
      → IsTimed c xs
      → InTime t xs
      → st_idx_client ≤ i
      → i < st_idx_client + c.table.cnt
      → (is_gone (c.table.fds i) ≡ true → suc i ≡ st_idx_client + c.table.cnt)
      → Steps i c (serve_one k p i c)
  unfolding serve_one
  serve_one-Steps i c xs v h il ih last =
      let e = c.table.fds i in
      let (n, entry) = v.entry i il ih in
      let inside = lt→ltb i (st_idx_client + max_client) (omega (arith, v.bounded)) in
      let skipped : Advances i c (i + 1) c = inl (refl, refl, λ j. refl) in
      elim (Bool-cases e.revents.pollout) [
        | inl out ↦ (i + 1, c, [], rw (inside, out), (xs, v, h), skipped)
        | inr out ↦ elim (Bool-cases e.revents.pollerr) [
          | inl err ↦
              let (c', actions, r, order, less) =
                gone-InOrder i c xs v h il (last (ground (arith, out, err))) in
              (i, c', actions, rw (inside, out, err, r), order, inr (refl, less))
          | inr err ↦ elim (Bool-cases e.revents.pollrdhup) [
            | inl hup ↦
                let (c', actions, r, order, less) =
                  gone-InOrder i c xs v h il (last (ground (arith, out, err, hup))) in
                (i, c', actions, rw (inside, out, err, hup, r), order, inr (refl, less))
            | inr hup ↦ elim (Bool-cases e.revents.pollin) [
              | inr idle ↦ (i + 1, c, [], rw (inside, out, err, hup, idle), (xs, v, h), skipped)
              | inl inn ↦
                  let (c', actions, r, order, cnt, fds) =
                    readable-InOrder i n c xs (p.recv (pos n) (buf_size_recv - 1)) v h il ih
                      entry in
                  (
                    i + 1,
                    c',
                    actions,
                    rw (inside, out, err, hup, inn, entry.fd, r),
                    order,
                    inl (refl, cnt, fds),
                  )
            ]
          ]
        ]
      ]

  done :
      (rounds i : ℕ) (c : TimingChat)
      → zero < rounds
      → st_idx_client + c.table.cnt ≤ i
      → serve k rounds p i c ≡ ok (c, [])
  unfolding serve
  done zero i c l h = absurd (omega arith)
  done (suc rounds) i c l h =
      let over : ltb i (st_idx_client + c.table.cnt) ≡ false = ground (arith, h) in rw over

  -- The phase ends, without a fault and in order.
  pub serve-InOrder :
      (rounds i : ℕ) (c : TimingChat)
      → InOrder t c
      → st_idx_client ≤ i
      → i ≤ st_idx_client + c.table.cnt
      → st_idx_client + c.table.cnt < i + rounds
      → LastLeaves i c
      → (c' : TimingChat) × (actions : List Action) × (serve k rounds p i c ≡ ok (c', actions))
        × InOrder t c'
  unfolding serve
  serve-InOrder zero i c order il at_most enough leave = absurd (omega arith)
  serve-InOrder (suc rounds) i c (xs, v, h) il at_most enough leave =
      elim (Bool-cases (ltb i (st_idx_client + c.table.cnt))) [
        | inr over ↦ (c, [], rw over, (xs, v, h))
        | inl more ↦
            let ih : i < st_idx_client + c.table.cnt = ground (arith, more) in
            let (i', c1, actions, e, order, way) =
              serve_one-Steps i c xs v h il ih (leave i (omega arith) ih) in
            elim way [
              | inl (next, cnt, fds) ↦
                  let leave' : LastLeaves i' c1 = λ j jl jh g.
                    leave j (omega (arith, next)) (omega (arith, jh, cnt))
                      (ap is_gone (sym (fds j)) ∙ g)
                    ∙ ap (λ m. st_idx_client + m) (sym cnt) in
                  let (c2, rest, e', order') =
                    serve-InOrder rounds i' c1 order (omega (arith, next))
                      (omega (arith, next, cnt, ih)) (omega (arith, next, cnt, enough)) leave' in
                  (c2, actions ++ rest, rw (more, e, e'), order')
              | inr (stay, end) ↦
                  let e' : serve k rounds p i' c1 ≡ ok (c1, []) =
                    done rounds i' c1 (omega (arith, enough, ih)) (omega (arith, stay, end)) in
                  (c1, actions ++ [], rw (more, e, e'), order)
            ]
      ]
