-- ===== src/Examples/Timers/Add.antt =====
-- AddTimer of examples/framework-intro/client_timer_list.h.
use simple_http_serv.Prelude.{
  ℕ, zero, suc, ◌<◌, ◌≡◌, refl, inl, inr, false, Option, some, [], ◌∷◌, arith, ◌==◌, ltb,
  Bool-cases, length, Run, ok,
}
use simple_http_serv.Examples.Timers.{
  Ptr, null, ClientTimer, Heap, write, TimerSortedList, insert_between, append_after, add_loop,
  add_timer,
}
use simple_http_serv.Examples.Timers.Chain.{
  Cell, Cells, has, Holds, Chain, nil, cons, IsTimers, SameOutside, Holds-frame, Chain-frame,
  timers, insert_sorted, has-insert_sorted,
}

-- The list with the timer `n` among those behind `x`.
record Added (h : Heap) (x n : Cell) (prev : Ptr) (xs : Cells) (l : TimerSortedList) : Type 0 where
  chain : Chain l.heap prev x.at (x ∷ insert_sorted n xs)
  same : (b : Ptr) → (b == n.at) ≡ false → (b == x.at) ≡ false → has b xs ≡ false → l.heap b ≡ h b

-- A cell between two addresses, as the timer that it is on the heap.
abbrev pub timer : Cell → (prev next : Ptr) → Option ClientTimer
timer x p q = some (record { prev = p; next = q; client_data = x.client; t_expire = x.expire })

module _ (h : Heap) (n : Cell) where
  abbrev Result :
      (x : Cell) (prev : Ptr) (xs : Cells) (first tail : Ptr) → Run TimerSortedList → Type 0
  Result x prev xs first tail r =
      (h' : Heap) × (r ≡ ok (timers first tail h')) × Added h x n prev xs (timers first tail h')

  append_after-Added :
      {x : Cell} {prev p q : Ptr} (first tail : Ptr)
      → Holds h x prev null
      → Holds h n p q
      → (n.at == x.at) ≡ false
      → Result x prev [] first tail (append_after (timers first tail h) n.at x.at)
  unfolding append_after insert_sorted
  append_after-Added {x} {prev} {p} {q} first tail hx hn apart =
      let h1 = write h x.at (timer x prev n.at) in
      let h2 = write h1 n.at (timer n x.at q) in
      let h3 = write h2 n.at (timer n x.at null) in
      (
        h3,
        ground arith,
        record {
          chain =
              cons (record { not_null = hx.not_null; content = ground arith }) (ground arith)
                (cons (record { not_null = hn.not_null; content = ground arith }) refl nil);
          same = λ b o o' i. ground arith;
        },
      )

  insert_between-Added :
      {x y : Cell} {prev p q r : Ptr} {ys : Cells} (first tail : Ptr)
      → Holds h x prev y.at
      → Holds h y x.at r
      → Holds h n p q
      → (n.at == x.at) ≡ false
      → has x.at (y ∷ ys) ≡ false
      → has n.at (y ∷ ys) ≡ false
      → has y.at ys ≡ false
      → Chain h y.at r ys
      → ltb y.expire n.expire ≡ false
      → Result x prev (y ∷ ys) first tail (insert_between (timers first tail h) n.at x.at y.at)
  unfolding insert_between insert_sorted
  insert_between-Added {x} {y} {prev} {p} {q} {r} {ys} first tail hx hy hn apart xo out yo c later =
      let h1 = write h x.at (timer x prev n.at) in
      let h2 = write h1 n.at (timer n x.at q) in
      let h3 = write h2 n.at (timer n x.at y.at) in
      let h4 = write h3 y.at (timer y n.at r) in
      (
        h4,
        ground arith,
        record {
          chain = rw later (
              cons (record { not_null = hx.not_null; content = ground arith }) (ground arith)
                (cons (record { not_null = hn.not_null; content = ground arith }) out
                  (cons (record { not_null = hy.not_null; content = ground arith }) yo
                    (Chain-frame c (λ a i. ground arith)))));
          same = λ b o o' i. ground arith;
        },
      )

  -- From a timer on that expires earlier than the new one.
  add_loop-Added :
      (k : ℕ) {x : Cell} {prev cur : Ptr} {xs : Cells} {p q : Ptr} (first tail : Ptr)
      → Holds h x prev cur
      → has x.at xs ≡ false
      → Chain h x.at cur xs
      → Holds h n p q
      → (n.at == x.at) ≡ false
      → has n.at xs ≡ false
      → length xs < k
      → Result x prev xs first tail (add_loop k (timers first tail h) n.at x.at cur)
  unfolding add_loop insert_sorted
  add_loop-Added zero first tail hx out c hn apart new fuel = absurd (omega arith)
  add_loop-Added (suc k) first tail hx out nil hn apart new fuel =
      append_after-Added first tail hx hn apart
  add_loop-Added (suc k) {x} {prev} first tail hx out (cons {q = r} {x = y} {xs = ys} hy yo c) hn
        apart new fuel =
      rw (hy.not_null, hy.content, hn.not_null, hn.content)
        (elim (Bool-cases (ltb y.expire n.expire)) [
          | inl earlier ↦
              let (h', e, added) =
                add_loop-Added k first tail hy yo c hn (ground arith) (ground arith)
                  (omega arith) in
              rw earlier (
                h',
                e,
                record {
                  chain = rw earlier (
                      cons
                        (Holds-frame hx
                          (added.same x.at (ground arith) (ground arith) (ground arith)))
                        (ground (arith, has-insert_sorted x.at n ys)) added.chain);
                  same = λ b o o' i. ground (arith, added.same b);
                },
              )
          | inr later ↦ rw later (insert_between-Added first tail hx hy hn apart out new yo c later)
        ])

-- The outcome of AddTimer: the list has the timer in its place, and the heap is else as it was.
abbrev pub Adds : TimerSortedList → Cell → Cells → Run TimerSortedList → Type 0
Adds l n xs r =
    (l' : TimerSortedList) × (r ≡ ok l')
    × IsTimers l' (insert_sorted n xs)
    × SameOutside n.at xs l.heap l'.heap

add_head :
    (k : ℕ) (h : Heap) (first tail : Ptr) (n : Cell) {xs : Cells}
    → Chain h null first xs
    → Holds h n null null
    → has n.at xs ≡ false
    → length xs < k
    → Adds (timers first tail h) n xs (add_timer k (timers first tail h) n.at)
unfolding add_timer add_loop insert_sorted
add_head zero h first tail n c hn new fuel = absurd (omega arith)
add_head (suc k) h first tail n nil hn new fuel =
    (timers n.at n.at h, refl, cons hn refl nil, λ b o i. refl)
add_head (suc k) h first tail n (cons {q} {x = y} {xs = ys} hy yo c) hn new fuel =
    rw (hy.not_null, hy.content, hn.not_null, hn.content)
      (elim (Bool-cases (ltb y.expire n.expire)) [
        | inl earlier ↦
            let (h', e, added) =
              add_loop-Added h n k y.at tail hy yo c hn (ground arith) (ground arith)
                (omega arith) in
            rw earlier (
              timers y.at tail h',
              e,
              added.chain,
              λ b o i. added.same b o (ground arith) (ground arith),
            )
        | inr later ↦
            let h1 = write h n.at (timer n null null) in
            let h2 = write h1 n.at (timer n null y.at) in
            let h3 = write h2 y.at (timer y n.at q) in
            rw later (
              timers n.at tail h3,
              ground arith,
              cons (record { not_null = hn.not_null; content = ground arith }) new
                  (cons (record { not_null = hy.not_null; content = ground arith }) yo
                    (Chain-frame c (λ a i. ground arith))),
              λ b o i. ground arith,
            )
      ])

-- In a list whose pointers lead through distinct timers, AddTimer of a timer that is not among them and
-- has null pointers, on more fuel than there are timers, puts it behind the timers that expire earlier
-- and before the others, and changes the heap at these timers only.
pub add_timer-Adds :
    (k : ℕ) (l : TimerSortedList) (n : Cell) (xs : Cells)
    → IsTimers l xs
    → Holds l.heap n null null
    → has n.at xs ≡ false
    → length xs < k
    → Adds l n xs (add_timer k l n.at)
add_timer-Adds k l n xs c hn new fuel = add_head k l.heap l.head l.tail n c hn new fuel
