-- ===== src/Examples/Timers/Remove.antt =====
-- SoftDelTimer, DelTimer and ChgTimer of examples/framework-intro/client_timer_list.h.
use simple_http_serv.Prelude.{
  ℕ, ◌≤◌, ◌<◌, ◌≡◌, refl, ◌∙◌, inl, inr, true, false, none, [], ◌∷◌, arith, ◌==◌, Bool-cases,
  length, Run, ok,
}
use simple_http_serv.Examples.Timers.{
  Ptr, null, Heap, write, TimerSortedList, soft_del_timer, del_timer, chg_timer,
}
use simple_http_serv.Examples.Timers.Chain.{
  Cell, Cells, has, Holds, Chain, nil, cons, IsTimers, Chain-frame, insert_sorted, erase,
  not_has-erase,
}
use simple_http_serv.Examples.Timers.Add.{timer, add_timer-Adds}
use simple_http_serv.Examples.Timers.Unlink.{find_loop-has, unlink_head}

-- The timer at an address of the list.
Chain-at :
    {h : Heap} {prev cur : Ptr} {xs : Cells} (p : Ptr)
    → Chain h prev cur xs
    → has p xs ≡ true
    → (c : Cell) × (c.at ≡ p) × (a : Ptr) × (b : Ptr) × Holds h c a b
Chain-at p nil i = cc
Chain-at p (cons {x} {xs} hx out c) i = elim (Bool-cases (p == x.at)) [
  | inl hit ↦ (x, ground arith, _, _, hx)
  | inr miss ↦ Chain-at p c (ground arith)
]

has-erase :
    {h : Heap} {prev cur : Ptr} {xs : Cells} (p : Ptr)
    → Chain h prev cur xs
    → has p (erase p xs) ≡ false
unfolding erase
has-erase p nil = refl
has-erase p (cons {x} {xs} hx out c) = elim (Bool-cases (p == x.at)) [
  | inl hit ↦ ground arith
  | inr miss ↦ ground (arith, has-erase p c)
]

length-erase-le : (p : Ptr) (xs : Cells) → length (erase p xs) ≤ length xs
unfolding erase
length-erase-le p [] = omega arith
length-erase-le p (x ∷ xs) = ground (arith, length-erase-le p xs)

-- SoftDelTimer of a timer that the list has not.
pub soft_del_timer_absent :
    (k : ℕ) (l : TimerSortedList) (p : Ptr) (xs : Cells)
    → IsTimers l xs
    → has p xs ≡ false
    → length xs < k
    → soft_del_timer k l p ≡ ok (false, l)
unfolding soft_del_timer
soft_del_timer_absent k l p xs c o fuel = rw (find_loop-has k l.heap l.head l.tail p c fuel, o)

soft_del_timer_present :
    (k : ℕ) (l : TimerSortedList) (p : Ptr) (xs : Cells)
    → IsTimers l xs
    → has p xs ≡ true
    → length xs < k
    → (l' : TimerSortedList) × (soft_del_timer k l p ≡ ok (true, l'))
      × IsTimers l' (erase p xs)
      × ((b : Ptr) → has b xs ≡ false → l'.heap b ≡ l.heap b)
      × (l'.heap p ≡ l.heap p)
unfolding soft_del_timer
soft_del_timer_present k l p xs c i fuel =
    let (x, at, a, b, hx) = Chain-at p c i in
    let not_null : (p == null) ≡ false = rw (← at) hx.not_null in
    let (l', e, t, same, kept) = unlink_head l.heap l.head l.tail p c i in
    (l', rw (find_loop-has k l.heap l.head l.tail p c fuel, i, not_null, e), t, same, kept)

-- The list without the timer at `p`, whose node is given back.
abbrev pub Deletes : TimerSortedList → Ptr → Cells → Run TimerSortedList → Type 0
Deletes l p xs r =
    (l' : TimerSortedList) × (r ≡ ok l')
    × IsTimers l' (erase p xs)
    × (l'.heap p ≡ none)
    × ((b : Ptr) → has b xs ≡ false → l'.heap b ≡ l.heap b)

-- In a list whose pointers lead through distinct timers, DelTimer of one of them, on more fuel than there
-- are timers, takes it out of the list, frees it, and changes the heap at the list's timers only.
pub del_timer-Deletes :
    (k : ℕ) (l : TimerSortedList) (p : Ptr) (xs : Cells)
    → IsTimers l xs
    → has p xs ≡ true
    → length xs < k
    → Deletes l p xs (del_timer k l p)
unfolding del_timer
del_timer-Deletes k l p xs c i fuel =
    let (x, at, a, b, hx) = Chain-at p c i in
    let (l', e, t, same, kept) = soft_del_timer_present k l p xs c i fuel in
    let not_null : (p == null) ≡ false = rw (← at) hx.not_null in
    let there : l'.heap p ≡ timer x a b = kept ∙ rw (← at) hx.content in
    let free_of = has-erase p c in
    (
      record l' { heap = write l'.heap p none },
      rw (e, not_null, there),
      Chain-frame t (λ d j. ground arith),
      ground arith,
      λ d j. ground (arith, same d),
    )

-- The list with the timer of `c` moved to its place for the new expiry.
abbrev pub Changes : TimerSortedList → Cell → ℕ → Cells → Run TimerSortedList → Type 0
Changes l c t_reset xs r =
    (l' : TimerSortedList) × (r ≡ ok l')
    × IsTimers l' (insert_sorted (record c { expire = t_reset }) (erase c.at xs))
    × ((b : Ptr) → has b xs ≡ false → l'.heap b ≡ l.heap b)

-- In a list whose pointers lead through distinct timers, ChgTimer of one of them, on more fuel than there
-- are timers, moves it to its place for the new expiry and changes the heap at the list's timers only.
pub chg_timer-Changes :
    (k : ℕ) (l : TimerSortedList) (c : Cell) (t_reset : ℕ) (xs : Cells) {a b : Ptr}
    → IsTimers l xs
    → Holds l.heap c a b
    → has c.at xs ≡ true
    → length xs < k
    → Changes l c t_reset xs (chg_timer k l c.at t_reset)
unfolding chg_timer
chg_timer-Changes k l c t_reset xs {a} {b} s hc i fuel =
    let (l', e, t, same, kept) = soft_del_timer_present k l c.at xs s i fuel in
    let there : l'.heap c.at ≡ timer c a b = kept ∙ hc.content in
    let free_of = has-erase c.at s in
    let n = record c { expire = t_reset } in
    let l1 = record l' { heap = write l'.heap c.at (timer n null null) } in
    let (l'', e', t', same') =
      add_timer-Adds k l1 n (erase c.at xs) (Chain-frame t (λ d j. ground arith))
        (record { not_null = hc.not_null; content = ground arith }) free_of
        (omega (arith, length-erase-le c.at xs)) in
    (
      l'',
      rw (e, hc.not_null, there) e',
      t',
      λ d j. ground (arith, same' d, same d, not_has-erase d c.at xs),
    )
