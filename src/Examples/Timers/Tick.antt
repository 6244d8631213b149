-- ===== src/Examples/Timers/Tick.antt =====
-- TickOnce and the destructor of examples/framework-intro/client_timer_list.h.
use simple_http_serv.Prelude.{
  ℕ, zero, suc, ◌≤◌, ◌<◌, ◌≡◌, refl, ◌∙◌, inl, inr, false, none, [], ◌∷◌, ◌++◌, arith, ◌==◌, ltb,
  if◌then◌else◌, Bool-cases, length, Run, ok, ◌>>=◌, Run-cases, All, none_left, both,
}
use simple_http_serv.Examples.Timers.{
  Ptr, null, Heap, write, TimerSortedList, expire_head, tick_once, destroy,
}
use simple_http_serv.Examples.Timers.Chain.{
  Cell, Cells, has, Holds, Chain, nil, cons, IsTimers, Chain-frame, timers, IsSorted, Above,
}
use simple_http_serv.Examples.Timers.Add.{timer}

-- The timers up to the first that has not expired, and the others.
unfoldable pub expired : ℕ → Cells → Cells
expired t [] = []
expired t (x ∷ xs) = if ltb x.expire t then x ∷ expired t xs else []

unfoldable pub remaining : ℕ → Cells → Cells
remaining t [] = []
remaining t (x ∷ xs) = if ltb x.expire t then remaining t xs else x ∷ xs

All-Above : (t : ℕ) (xs : Cells) → Above t xs → IsSorted xs → All (λ x. t ≤ x.expire) xs
All-Above t [] l s = none_left
All-Above t (x ∷ []) l s = both l none_left
All-Above t (x ∷ y ∷ xs) l s = both l (All-Above t (y ∷ xs) (omega arith) s.1)

-- In a sorted list these are all the timers that have expired, and all that have not.
pub expired-All :
    (t : ℕ) (xs : Cells)
    → IsSorted xs
    → All (λ x. x.expire < t) (expired t xs) × All (λ x. t ≤ x.expire) (remaining t xs)
unfolding expired remaining
expired-All t [] s = (none_left, none_left)
expired-All t (x ∷ xs) s = elim (Bool-cases (ltb x.expire t)) [
  | inl late ↦
      let (before, behind) = expired-All t xs s.1 in rw late (both (ground arith) before, behind)
  | inr early ↦ rw early (none_left, All-Above t (x ∷ xs) (ground arith) s)
]

pub expired-append-remaining : (t : ℕ) (xs : Cells) → expired t xs ++ remaining t xs ≡ xs
unfolding expired remaining
expired-append-remaining t [] = refl
expired-append-remaining t (x ∷ xs) = ground (arith, expired-append-remaining t xs)

module _ {W : Type 0} (handler : ℕ → W → Run W) where
  -- The handler of each timer, in their order.
  abbrev pub handle_all : Cells → W → Run W
  handle_all [] w = ok w
  handle_all (x ∷ xs) w = do w' ← handler x.client w; handle_all xs w'

  -- The head is out of the list and freed, and its handler has run.
  abbrev Popped : (h : Heap) (first tail : Ptr) (x : Cell) (q : Ptr) (xs : Cells) → Type 0
  Popped h first tail x q xs =
      (h' : Heap) × ((w : W)
        → expire_head handler (timers first tail h)
            (record { prev = null; next = q; client_data = x.client; t_expire = x.expire }) w
          ≡ (handler x.client w >>= λ w'. ok (timers q tail h', w')))
      × Chain h' null q xs
      × (h' x.at ≡ none)
      × ((b : Ptr) → (b == x.at) ≡ false → has b xs ≡ false → h' b ≡ h b)

  expire_head-Popped :
      (h : Heap) (tail : Ptr) {x : Cell} {q : Ptr} {xs : Cells}
      → Holds h x null q
      → has x.at xs ≡ false
      → Chain h x.at q xs
      → Popped h x.at tail x q xs
  unfolding expire_head
  expire_head-Popped h tail {x} hx out nil = (
    write h x.at none,
    λ w. rw (hx.not_null, hx.content),
    nil,
    ground arith,
    λ b o i. ground arith,
  )
  expire_head-Popped h tail {x} hx out (cons {q = r} {x = z} {xs = zs} hz zo c) =
      let h1 = write h z.at (timer z null r) in
      (
        write h1 x.at none,
        λ w. elim (Run-cases (handler x.client w)) [
          | inl (w', e) ↦ ground (arith, e)
          | inr (f, e) ↦ ground (arith, e)
        ],
        cons (record { not_null = hz.not_null; content = ground arith }) zo
            (Chain-frame c (λ a i. ground arith)),
        ground arith,
        λ b o i. ground arith,
      )

  -- The expired timers are handled, taken out and freed.
  abbrev pub Ticks : ℕ → TimerSortedList → Cells → (W → Run (TimerSortedList × W)) → Type 0
  Ticks t l xs r =
      (l' : TimerSortedList) × ((w : W) → r w ≡ (handle_all (expired t xs) w >>= λ w'. ok (l', w')))
      × IsTimers l' (remaining t xs)
      × All (λ x. l'.heap x.at ≡ none) (expired t xs)
      × ((b : Ptr) → has b xs ≡ false → l'.heap b ≡ l.heap b)

  module _ (t : ℕ) where
    tick_head :
        (k : ℕ) (h : Heap) (first tail : Ptr) {xs : Cells}
        → Chain h null first xs
        → length xs < k
        → Ticks t (timers first tail h) xs (tick_once handler t k (timers first tail h))
    unfolding tick_once expired remaining
    tick_head zero h first tail c fuel = absurd (omega arith)
    tick_head (suc k) h first tail nil fuel =
        (timers null tail h, λ w. refl, nil, none_left, λ b i. refl)
    tick_head (suc k) h first tail (cons {q} {x} {xs} hx out c) fuel =
        rw (hx.not_null, hx.content)
          (elim (Bool-cases (ltb x.expire t)) [
            | inl late ↦
                let (h', e, c', gone, same) = expire_head-Popped h tail hx out c in
                let (l', e', t', gone', same') = tick_head k h' q tail c' (omega arith) in
                rw late (
                  l',
                  λ w. rw (e w) (elim (Run-cases (handler x.client w)) [
                    | inl (w', r) ↦ rw r (e' w')
                    | inr (f, r) ↦ rw r
                  ]),
                  t',
                  both (same' x.at out ∙ gone) gone',
                  λ b i. ground (arith, same' b, same b),
                )
            | inr early ↦
                rw early (timers x.at tail h, λ w. refl, cons hx out c, none_left, λ b i. refl)
          ])

-- In a list whose pointers lead through distinct timers, TickOnce, on more fuel than there are timers, handles the timers before the first that has not
-- expired, in their order, takes them out and frees them, and leaves the heap as it was outside of the
-- list; a handler that fails stops it.
pub tick_once-Ticks :
    {W : Type 0} (handler : ℕ → W → Run W) (t k : ℕ) (l : TimerSortedList) (xs : Cells)
    → IsTimers l xs
    → length xs < k
    → Ticks handler t l xs (tick_once handler t k l)
tick_once-Ticks handler t k l xs c fuel = tick_head handler t k l.heap l.head l.tail c fuel

-- The destructor frees every timer of the list.
abbrev pub Destroys : TimerSortedList → Cells → Run TimerSortedList → Type 0
Destroys l xs r =
    (l' : TimerSortedList) × (r ≡ ok l')
    × IsTimers l' []
    × All (λ x. l'.heap x.at ≡ none) xs
    × ((b : Ptr) → has b xs ≡ false → l'.heap b ≡ l.heap b)

-- The destructor's loop does not look at `prev`, so that any of it will do.
destroy_head :
    (k : ℕ) (h : Heap) (first tail : Ptr) {prev : Ptr} {xs : Cells}
    → Chain h prev first xs
    → length xs < k
    → Destroys (timers first tail h) xs (destroy k (timers first tail h))
unfolding destroy
destroy_head zero h first tail c fuel = absurd (omega arith)
destroy_head (suc k) h first tail nil fuel = (timers null tail h, refl, nil, none_left, λ b i. refl)
destroy_head (suc k) h first tail (cons {q} {x} {xs} hx out c) fuel =
    let h1 = write h x.at none in
    let (l', e, c', gone, same) =
      destroy_head k h1 q tail (Chain-frame c (λ a i. ground arith)) (omega arith) in
    (
      l',
      rw (hx.not_null, hx.content) e,
      c',
      both (same x.at out ∙ ground arith) gone,
      λ b i. ground (arith, same b),
    )

-- In a list whose pointers lead through distinct timers, the destructor, on more fuel than there are timers, frees every timer of the list and leaves the heap as it was elsewhere.
pub destroy-Destroys :
    (k : ℕ) (l : TimerSortedList) (xs : Cells)
    → IsTimers l xs
    → length xs < k
    → Destroys l xs (destroy k l)
destroy-Destroys k l xs c fuel = destroy_head k l.heap l.head l.tail c fuel
