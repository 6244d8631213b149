-- ===== src/Examples/Timers/Unlink.antt =====
-- The search and the unlinking in SoftDelTimer of examples/framework-intro/client_timer_list.h.
use simple_http_serv.Prelude.{
  ℕ, zero, suc, ◌<◌, ◌≡◌, refl, inl, inr, true, false, ◌∷◌, arith, ◌==◌, if◌then◌else◌, Bool-cases,
  length, Run, ok, ==_iff,
}
use simple_http_serv.Examples.Timers.{Ptr, null, Heap, write, TimerSortedList, find_loop, unlink}
use simple_http_serv.Examples.Timers.Chain.{
  Cell, Cells, has, Holds, Chain, nil, cons, IsTimers, Holds-frame, Chain-frame, timers, erase,
  not_has-erase,
}
use simple_http_serv.Examples.Timers.Add.{timer}

-- The search ends at the timer, or at null where it is not in the list.
pub find_loop-has :
    (k : ℕ) (h : Heap) (first tail p : Ptr) {prev cur : Ptr} {xs : Cells}
    → Chain h prev cur xs
    → length xs < k
    → find_loop k (timers first tail h) p cur ≡ ok (if has p xs then p else null)
unfolding find_loop
find_loop-has zero h first tail p c fuel = absurd (omega arith)
find_loop-has (suc k) h first tail p nil fuel = refl
find_loop-has (suc k) h first tail p (cons {x} {xs} hx out c) fuel =
    rw (hx.not_null, hx.content)
      (elim (Bool-cases (x.at == p)) [
        | inl hit ↦ ground arith
        | inr miss ↦ ground (arith, find_loop-has k h first tail p c)
      ])

-- Behind `x`, the timers `ys` are left of `xs`; the timer at `p` is as it was.
record Removed (h : Heap) (x : Cell) (p prev : Ptr) (xs ys : Cells) (l : TimerSortedList)
    : Type 0 where
  chain : Chain l.heap prev x.at (x ∷ ys)
  same : (b : Ptr) → (b == x.at) ≡ false → has b xs ≡ false → l.heap b ≡ h b
  kept : l.heap p ≡ h p

module _ (h : Heap) where
  abbrev Result : (x : Cell) (p prev : Ptr) (xs ys : Cells) → Ptr → Run TimerSortedList → Type 0
  Result x p prev xs ys first r =
      (h' : Heap) × (tail : Ptr) × (r ≡ ok (timers first tail h'))
      × Removed h x p prev xs ys (timers first tail h')

  unlink_next :
      {x y : Cell} {prev q : Ptr} {ys : Cells} (first tail : Ptr)
      → Holds h x prev y.at
      → Holds h y x.at q
      → has x.at (y ∷ ys) ≡ false
      → has y.at ys ≡ false
      → Chain h y.at q ys
      → Result x y.at prev (y ∷ ys) ys first (unlink (timers first tail h) y.at)
  unfolding unlink
  unlink_next {x} {y} {prev} first tail hx hy xo yo nil =
      let h1 = write h x.at (timer x prev null) in
      (
        h1,
        x.at,
        ground arith,
        record {
          chain = cons (record { not_null = hx.not_null; content = ground arith }) refl nil;
          same = λ b o i. ground arith;
          kept = ground arith;
        },
      )
  unlink_next {x} {y} {prev} first tail hx hy xo yo (cons {q = r} {x = z} {xs = zs} hz zo c) =
      let h1 = write h x.at (timer x prev z.at) in
      let h2 = write h1 z.at (timer z x.at r) in
      (
        h2,
        tail,
        ground arith,
        record {
          chain =
              cons (record { not_null = hx.not_null; content = ground arith }) (ground arith)
                (cons (record { not_null = hz.not_null; content = ground arith }) zo
                  (Chain-frame c (λ a i. ground arith)));
          same = λ b o i. ground arith;
          kept = ground arith;
        },
      )

  -- The timer at `p` is somewhere behind `x`.
  unlink_behind :
      {x : Cell} {prev cur : Ptr} {xs : Cells} (first tail p : Ptr)
      → Holds h x prev cur
      → has x.at xs ≡ false
      → Chain h x.at cur xs
      → has p xs ≡ true
      → Result x p prev xs (erase p xs) first (unlink (timers first tail h) p)
  unfolding erase
  unlink_behind first tail p hx xo nil i = cc
  unlink_behind {x} {prev} first tail p hx xo (cons {x = y} {xs = ys} hy yo c) i =
      elim (Bool-cases (p == y.at)) [
        | inl hit ↦
            let same : p ≡ y.at = (==_iff p y.at).0 hit in
            rw hit (rw same (unlink_next first tail hx hy xo yo c))
        | inr miss ↦
            let (h', tail', e, removed) = unlink_behind first tail p hy yo c (ground arith) in
            rw miss (
              h',
              tail',
              e,
              record {
                chain =
                    cons (Holds-frame hx (removed.same x.at (ground arith) (ground arith)))
                      (ground (arith, not_has-erase x.at p ys)) removed.chain;
                same = λ b o o'. removed.same b (ground arith) (ground arith);
                kept = removed.kept;
              },
            )
      ]

-- The whole list, with the timer at `p` in it.
abbrev Unlinks : TimerSortedList → Ptr → Cells → Run TimerSortedList → Type 0
Unlinks l p xs r =
    (l' : TimerSortedList) × (r ≡ ok l')
    × IsTimers l' (erase p xs)
    × ((b : Ptr) → has b xs ≡ false → l'.heap b ≡ l.heap b)
    × (l'.heap p ≡ l.heap p)

unlink_first :
    (h : Heap) (tail : Ptr) (y : Cell) {q : Ptr} {ys : Cells}
    → Holds h y null q
    → has y.at ys ≡ false
    → Chain h y.at q ys
    → (l' : TimerSortedList) × (unlink (timers y.at tail h) y.at ≡ ok l')
      × IsTimers l' ys
      × ((b : Ptr) → has b ys ≡ false → l'.heap b ≡ h b)
      × (l'.heap y.at ≡ h y.at)
unfolding unlink
unlink_first h tail y hy yo nil = (timers null null h, ground arith, nil, λ b i. refl, refl)
unlink_first h tail y hy yo (cons {q = r} {x = z} {xs = zs} hz zo c) =
    let h1 = write h z.at (timer z null r) in
    (
      timers z.at tail h1,
      ground arith,
      cons (record { not_null = hz.not_null; content = ground arith }) zo
          (Chain-frame c (λ a i. ground arith)),
      λ b i. ground arith,
      ground arith,
    )

pub unlink_head :
    (h : Heap) (first tail p : Ptr) {xs : Cells}
    → Chain h null first xs
    → has p xs ≡ true
    → Unlinks (timers first tail h) p xs (unlink (timers first tail h) p)
unfolding erase
unlink_head h first tail p nil i = cc
unlink_head h first tail p (cons {x = y} {xs = ys} hy yo c) i = elim (Bool-cases (p == y.at)) [
  | inl hit ↦
      let at : p ≡ y.at = (==_iff p y.at).0 hit in
      let (l', e, t, same, kept) = unlink_first h tail y hy yo c in
      rw hit (rw at (l', e, t, λ b o. same b (ground arith), kept))
  | inr miss ↦
      let (h', tail', e, removed) = unlink_behind h first tail p hy yo c (ground arith) in
      rw miss (
        timers first tail' h',
        e,
        removed.chain,
        λ b o. removed.same b (ground arith) (ground arith),
        removed.kept,
      )
]
