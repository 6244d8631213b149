-- ===== src/Examples/EarlierPool/Parent/Places.antt =====
-- The tables of src/examples/multitasking/processpool.h and of src/ProcessPool.h beside each other:
-- the order in which each looks for a child.
use native.Mathlib.Nat.{mod-eq_of_lt, add-mod_left}
use simple_http_serv.Prelude.{
  ℕ, suc, ◌+◌, ◌-◌, ◌%◌, ◌≤◌, ◌<◌, ◌≡◌, ◌⊎◌, refl, sym, ap, ◌∙◌, inl, inr, true, false, arith,
  Bool-cases, ltb, subst,
}
use simple_http_serv.Pool.Create.{ProcessPool}
use simple_http_serv.Pool.Parent as P
use simple_http_serv.Examples.EarlierPool.{Processpool}
use simple_http_serv.Examples.EarlierPool.Parent.{is_alive}

-- Entry `j` is entry `j + 1` of the later table, whose entry 0 is the parent.
abbrev pub SameTable : Processpool → ProcessPool → Type 0
SameTable o p =
    (p.num_proc ≡ o.num_process)
    × ((j : ℕ)
        → j < o.num_process
        → ((p.proc (suc j)).pid ≡ (o.sub_process j).pid)
          × ((p.proc (suc j)).parent_wfd ≡ (o.sub_process j).parent_wfd))

-- The later index is one ahead, or both are at their first value.
abbrev pub SameIndex : (earlier later : ℕ) → Type 0
SameIndex s s' = (s' ≡ suc s) ⊎ ((s ≡ 0) × (s' ≡ 0))

-- A child has a process id.
abbrev pub SomeAlive : Processpool → Type 0
SomeAlive o = (j : ℕ) × (j < o.num_process) × (is_alive o.sub_process j ≡ true)

mod_once : (m x : ℕ) → x < m → x % m ≡ x
mod_once m x l = mod-eq_of_lt l

from_zero : (n s j : ℕ) → s ≡ 0 → j < n → (s + j) % n ≡ j
from_zero n s j z l = let same : s + j ≡ j = omega arith in ap (λ x. x % n) same ∙ mod_once n j l

mod_twice : (m x : ℕ) → m ≤ x → x < m + m → x % m ≡ x - m
mod_twice m x l h =
    let whole : x ≡ m + (x - m) = omega arith in
    ap (λ y. y % m) whole ∙ add-mod_left m (x - m) ∙ mod-eq_of_lt (omega arith)

-- Every entry is some way from the start.
pub reach : (n s j : ℕ) → s < n → j < n → (e : ℕ) × (e < n) × ((s + e) % n ≡ j)
reach n s j sn jn = elim (Bool-cases (ltb j s)) [
  | inl before ↦
      let turned : s ≤ j + n = omega arith in
      let less : j < s = ground (arith, before) in
      (
        j + n - s,
        omega arith,
        mod_twice n (s + (j + n - s)) (omega arith) (omega arith) ∙ omega arith,
      )
  | inr behind ↦
      let more : s ≤ j = ground (arith, behind) in
      (j - s, omega arith, mod_once n (s + (j - s)) (omega arith) ∙ omega arith)
]

module _ (o : Processpool) (p : ProcessPool) (same : SameTable o p) where
  pub is_child-suc :
      (j : ℕ) → j < o.num_process → P.is_child p.proc (suc j) ≡ is_alive o.sub_process j
  is_child-suc j l = ground (arith, (same.1 j l).0)

  not_child :
      (q j : ℕ)
      → q ≡ suc j
      → j < o.num_process
      → is_alive o.sub_process j ≡ false
      → P.is_child p.proc q ≡ false
  not_child q j e l dead = ap (P.is_child p.proc) e ∙ is_child-suc j l ∙ dead

  not_parent : (q : ℕ) → q ≡ 0 → P.is_child p.proc q ≡ false
  not_parent q e = ap (P.is_child p.proc) e ∙ ground arith

  -- The place in the later order of the place `d` in the earlier one: none but the parent's entry
  -- comes in between.
  abbrev pub Onward : (s s' d : ℕ) → Type 0
  Onward s s' d =
      let n = o.num_process in
      (d' : ℕ) × (d' < n + 1)
      × ((s' + d') % (n + 1) ≡ suc ((s + d) % n))
      × ((e : ℕ) → e < d' → P.is_child p.proc ((s' + e) % (n + 1)) ≡ false)

  module _ (s d : ℕ) (sn : s < o.num_process) (dn : d < o.num_process)
      (before : (e : ℕ) → e < d → is_alive o.sub_process ((s + e) % o.num_process) ≡ false) where
    from_parent : s ≡ 0 → Onward s 0 d
    from_parent z =
        let n = o.num_process in
        let here : (s + d) % n ≡ d = from_zero n s d z dn in
        let none_yet : (e : ℕ) → e < d + 1 → P.is_child p.proc ((0 + e) % (n + 1)) ≡ false = λ e l.
          elim (Bool-cases (ltb 0 e)) [
            | inl some_way ↦
                let j = e - 1 in
                let at : (s + j) % n ≡ j = from_zero n s j z (omega arith) in
                let back : e ≡ suc j = ground (arith, some_way) in
                not_child ((0 + e) % (n + 1)) j (from_zero (n + 1) 0 e refl (omega arith) ∙ back)
                  (omega arith)
                  (ap (is_alive o.sub_process) (sym at) ∙ before j (ground (arith, some_way)))
            | inr first ↦
                not_parent ((0 + e) % (n + 1))
                  (from_zero (n + 1) 0 e refl (omega arith) ∙ ground (arith, first))
          ] in
        let after : (0 + (d + 1)) % (n + 1) ≡ suc ((s + d) % n) =
          from_zero (n + 1) 0 (d + 1) refl (omega arith) ∙ omega arith in
        (d + 1, omega arith, after, none_yet)

    -- Up to the end of the table, at the parent's entry, and from the first child on.
    none_around :
        o.num_process ≤ s + d
        → (e : ℕ) → e < d + 1
        → P.is_child p.proc ((suc s + e) % (o.num_process + 1)) ≡ false
    none_around more e l =
        let n = o.num_process in
        let q = (suc s + e) % (n + 1) in
        elim (Bool-cases (ltb (s + e) n)) [
          | inl inside ↦
              let less : s + e < n = ground (arith, inside) in
              not_child q (s + e) (mod_once (n + 1) (suc s + e) (omega arith) ∙ omega arith) less (
                ap (is_alive o.sub_process) (sym (mod_once n (s + e) less))
                ∙ before e (omega arith))
          | inr beyond ↦
              let past : n ≤ s + e = ground (arith, beyond) in
              let turned = mod_twice (n + 1) (suc s + e) (omega arith) (omega arith) in
              elim (Bool-cases (ltb n (s + e))) [
                | inl behind ↦
                    let strict : n < s + e = ground (arith, behind) in
                    let j = e - 1 in
                    not_child q (s + j - n) (turned ∙ omega arith) (omega arith) (
                      ap (is_alive o.sub_process)
                        (sym (mod_twice n (s + j) (omega arith) (omega arith)))
                      ∙ before j (omega arith))
                | inr first ↦ not_parent q (turned ∙ ground (arith, first, past))
              ]
        ]

    from_child : Onward s (suc s) d
    from_child =
        let n = o.num_process in
        elim (Bool-cases (ltb (s + d) n)) [
          | inl inside ↦
              let less : s + d < n = ground (arith, inside) in
              let none_yet : (e : ℕ) → e < d → P.is_child p.proc ((suc s + e) % (n + 1)) ≡ false =
                λ e l.
                  not_child ((suc s + e) % (n + 1)) (s + e)
                    (mod_once (n + 1) (suc s + e) (omega arith) ∙ omega arith) (omega arith)
                    (ap (is_alive o.sub_process) (sym (mod_once n (s + e) (omega arith)))
                      ∙ before e l) in
              (
                d,
                omega arith,
                mod_once (n + 1) (suc s + d) (omega arith)
                    ∙ omega arith
                    ∙ ap suc (sym (mod_once n (s + d) less)),
                none_yet,
              )
          | inr around ↦
              let more : n ≤ s + d = ground (arith, around) in
              (
                d + 1,
                omega arith,
                mod_twice (n + 1) (suc s + (d + 1)) (omega arith) (omega arith)
                    ∙ omega arith
                    ∙ ap suc (sym (mod_twice n (s + d) more (omega arith))),
                none_around more,
              )
        ]

  pub later_place :
      (s s' d : ℕ)
      → SameIndex s s'
      → s < o.num_process
      → d < o.num_process
      → ((e : ℕ) → e < d → is_alive o.sub_process ((s + e) % o.num_process) ≡ false)
      → Onward s s' d
  later_place s s' d (inl one) sn dn before =
      subst (λ x. Onward s x d) (sym one) (from_child s d sn dn before)
  later_place s s' d (inr (z, z')) sn dn before =
      subst (λ x. Onward s x d) (sym z') (from_parent s d sn dn before z)

  pub later_index : (s s' : ℕ) → SameIndex s s' → s < o.num_process → s' < o.num_process + 1
  later_index s s' (inl one) l = omega arith
  later_index s s' (inr (z, z')) l = omega arith
