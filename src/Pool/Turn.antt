-- ===== src/Pool/Turn.antt =====
-- The `do` loop that selects a child in src/ProcessPool.h and in
-- src/examples/multitasking/processpool.h: one turn round a table, over its length and its test.
use native.Mathlib.Nat.{mod-add-mod, mod-eq_of_lt, add-mod_left}
use simple_http_serv.Prelude.{
  clash, ℕ, zero, suc, ◌+◌, ◌-◌, ◌%◌, ◌≤◌, ◌<◌, ◌≡◌, ◌≢◌, ◌⊎◌, sym, ap, subst, ◌∙◌, inl, inr, Bool,
  true, false, arith, Run, ok, fault, no_fuel, ◌==◌, Bool-cases, if◌then◌else◌, ltb, ltb→lt,
  if_true, if_false, ==_iff,
}

-- From `sel` to the next entry that fits, or back to `start`.
unfoldable pub select_from : (rounds : ℕ) (len : ℕ) → (ℕ → Bool) → (start sel : ℕ) → Run ℕ
select_from zero len fits start sel = fault no_fuel
select_from (suc rounds) len fits start sel =
    let next = (sel + 1) % len in
    let rest = select_from rounds len fits start next in
    if fits sel then ok sel else if next == start then ok next else rest

-- Within one turn, no step leads back to the start.
not_back : (len start d : ℕ) → start < len → 1 ≤ d → d < len → (start + d) % len ≢ start
not_back len start d l one le e = elim (Bool-cases (ltb (start + d) len)) [
  | inl lt ↦
      let same = mod-eq_of_lt {n = start + d} {m = len} (ltb→lt (start + d) len lt) in omega arith
  | inr ge ↦
      let back : len ≤ start + d = ground (arith, ge) in
      let whole : start + d ≡ len + (start + d - len) = omega arith in
      let wrapped : (start + d) % len ≡ (start + d - len) % len =
        ap (λ x. x % len) whole ∙ add-mod_left len (start + d - len) in
      let below = mod-eq_of_lt {n = start + d - len} {m = len} (omega arith) in omega arith
]

full_turn : (len start : ℕ) → start < len → (start + len) % len ≡ start
full_turn len start l =
    let turned : start + len ≡ len + start = omega arith in
    ap (λ x. x % len) turned ∙ add-mod_left len start ∙ mod-eq_of_lt l

pub at_start : (len start : ℕ) → start < len → start ≡ (start + 0) % len
at_start len start l = sym (ap (λ x. x % len) (omega arith) ∙ mod-eq_of_lt {n = start} {m = len} l)

-- The first entry that fits in the cyclic order from `start` on, or `start` where there is none.
abbrev pub Selected : (len : ℕ) → (ℕ → Bool) → (start : ℕ) → Run ℕ → Type 0
Selected len fits start r =
    ((d : ℕ) × (d < len)
      × (r ≡ ok ((start + d) % len))
      × (fits ((start + d) % len) ≡ true)
      × ((e : ℕ) → e < d → fits ((start + e) % len) ≡ false))
    ⊎ ((r ≡ ok start) × ((e : ℕ) → e < len → fits ((start + e) % len) ≡ false))

module _ (len : ℕ) (fits : ℕ → Bool) (start : ℕ) (within : start < len) where
  step : (d sel : ℕ) → sel ≡ (start + d) % len → (sel + 1) % len ≡ (start + (d + 1)) % len
  step d sel at =
      ap (λ x. (x + 1) % len) at ∙ mod-add-mod (start + d) len 1 ∙ ap (λ x. x % len) (omega arith)

  one_more :
      (d sel : ℕ)
      → sel ≡ (start + d) % len
      → fits sel ≡ false
      → ((e : ℕ) → e < d → fits ((start + e) % len) ≡ false)
      → (e : ℕ) → e < d + 1
      → fits ((start + e) % len) ≡ false
  one_more d sel at c before e l = elim (Bool-cases (e == d)) [
    | inl same ↦ ap (λ x. fits ((start + x) % len)) ((==_iff e d).0 same) ∙ ap fits (sym at) ∙ c
    | inr other ↦ before e (ground (arith, other))
  ]

  -- The loop is back at the start after a whole turn, and not before.
  round_over :
      (rounds d sel : ℕ)
      → sel ≡ (start + d) % len
      → d + suc rounds ≡ len
      → (sel + 1) % len == start ≡ true
      → (e : ℕ) → e < len
      → e < d + 1
  round_over rounds d sel at h back e le = elim (Bool-cases (ltb (d + 1) len)) [
    | inl early ↦ absurd (
        not_back len start (d + 1) within (omega arith) (ground (arith, early))
          (sym (step d sel at) ∙ (==_iff ((sel + 1) % len) start).0 back))
    | inr late ↦ ground (arith, late)
  ]

  still :
      (rounds d sel : ℕ)
      → sel ≡ (start + d) % len
      → d + suc rounds ≡ len
      → (sel + 1) % len == start ≡ false
      → 1 ≤ rounds
  still zero d sel at h on =
      let turned : d + 1 ≡ len = omega arith in
      let start_again : (sel + 1) % len ≡ start =
        step d sel at ∙ ap (λ x. (start + x) % len) turned ∙ full_turn len start within in
      absurd (ground (arith, on, start_again))
  still (suc rounds) d sel at h on = omega arith

  select_on :
      (rounds d sel : ℕ)
      → sel ≡ (start + d) % len
      → 1 ≤ rounds
      → d + rounds ≡ len
      → ((e : ℕ) → e < d → fits ((start + e) % len) ≡ false)
      → Selected len fits start (select_from rounds len fits start sel)
  unfolding select_from
  select_on zero d sel at l h before = absurd (omega arith)
  select_on (suc rounds) d sel at l h before =
      let next = (sel + 1) % len in
      let rest = select_from rounds len fits start next in
      let look = if next == start then ok next else rest in
      elim (Bool-cases (fits sel)) [
        | inl c ↦
            inl (d, omega arith, if_true (ok sel) look c ∙ ap ok at, ap fits (sym at) ∙ c, before)
        | inr c ↦
            let none_yet = one_more d sel at c before in
            elim (Bool-cases (next == start)) [
              | inl back ↦ inr (
                if_false (ok sel) look c
                    ∙ if_true (ok next) rest back
                    ∙ ap ok ((==_iff next start).0 back),
                λ e le. none_yet e (round_over rounds d sel at h back e le),
              )
              | inr on ↦
                  subst (Selected len fits start)
                    (sym (if_false (ok sel) look c ∙ if_false (ok next) rest on))
                    (select_on rounds (d + 1) next (step d sel at) (still rounds d sel at h on)
                      (omega arith) none_yet)
            ]
      ]

  -- One turn is enough, and finds the first.
  pub select_from-Selected : Selected len fits start (select_from len len fits start start)
  select_from-Selected =
      select_on len 0 start (at_start len start within) (omega arith) (omega arith)
        (λ e l. absurd (omega arith))

  -- No other place in the order fits.
  pub determined :
      (r : Run ℕ) (d : ℕ)
      → Selected len fits start r
      → d < len
      → fits ((start + d) % len) ≡ true
      → ((e : ℕ) → e < d → fits ((start + e) % len) ≡ false)
      → r ≡ ok ((start + d) % len)
  determined r d (inr (same, no_child)) l is_one before = clash is_one (no_child d l)
  determined r d (inl (d', l', same, is_one', before')) l is_one before =
      elim (Bool-cases (ltb d d')) [
        | inl lt ↦ clash is_one (before' d (ground (arith, lt)))
        | inr ge ↦ elim (Bool-cases (ltb d' d)) [
          | inl lt ↦ clash is_one' (before d' (ground (arith, lt)))
          | inr le ↦
              let one : d' ≡ d = ground (arith, ge, le) in
              same ∙ ap (λ x. ok ((start + x) % len)) one
        ]
      ]
