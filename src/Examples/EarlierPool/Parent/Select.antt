-- ===== src/Examples/EarlierPool/Parent/Select.antt =====
-- The choice of a child in `run_parent` of src/examples/multitasking/processpool.h beside that in
-- `RunParent` of src/ProcessPool.h.
use native.Mathlib.Nat.{mod-lt}
use simple_http_serv.Prelude.{
  clash, ℕ, suc, ◌+◌, ◌%◌, ◌<◌, ◌≡◌, ap, ◌∙◌, inl, inr, true, false, arith, ok, lt→ltb, if_true,
  subst, fault, out_of_bounds,
}
use simple_http_serv.Pool.Create.{ProcessPool}
use simple_http_serv.Pool.Turn.{select_from, Selected, select_from-Selected, determined}
use simple_http_serv.Pool.Parent as P
use simple_http_serv.Pool.Parent.Select.{select_child-Selected}
use simple_http_serv.Examples.EarlierPool.{Processpool}
use simple_http_serv.Examples.EarlierPool.Parent.{is_alive, select_child}
use simple_http_serv.Examples.EarlierPool.Parent.Places.{
  SameTable, SameIndex, SomeAlive, is_child-suc, reach, later_place, later_index,
}

module _ (o : Processpool) (p : ProcessPool) (same : SameTable o p) where
  -- Both pools select the same child.
  abbrev Both : (s s' : ℕ) → Type 0
  Both s s' =
      (sel : ℕ) × (sel < o.num_process)
      × (select_child o s ≡ ok sel)
      × (P.select_child p s' ≡ ok (suc sel))

  selected_later :
      (s s' d : ℕ)
      → SameIndex s s'
      → s < o.num_process
      → d < o.num_process
      → is_alive o.sub_process ((s + d) % o.num_process) ≡ true
      → ((e : ℕ) → e < d → is_alive o.sub_process ((s + e) % o.num_process) ≡ false)
      → P.select_child p s' ≡ ok (suc ((s + d) % o.num_process))
  selected_later s s' d i sn dn alive before =
      let n = o.num_process in
      let inside : (s + d) % n < n = mod-lt (s + d) (omega arith) in
      let (d', l, e, none_yet) = later_place o p same s s' d i sn dn before in
      let within = later_index o p same s s' i sn in
      let found =
        subst (λ m. Selected (m + 1) (P.is_child p.proc) s' (P.select_child p s')) same.0
          (select_child-Selected p s' (ground (arith, within, same.0))) in
      determined (n + 1) (P.is_child p.proc) s' within (P.select_child p s') d' found l
        (ap (P.is_child p.proc) e ∙ is_child-suc o p same ((s + d) % n) inside ∙ alive) none_yet
      ∙ ap ok e

  pub select_child-same : (s s' : ℕ) → SomeAlive o → SameIndex s s' → s < o.num_process → Both s s'
  unfolding select_child
  select_child-same s s' (j, jn, alive) i sn =
      let n = o.num_process in
      let test = is_alive o.sub_process in
      let start = if_true (select_from n n test s s) (fault out_of_bounds) (lt→ltb s n sn) in
      elim (select_from-Selected n test s sn) [
        | inl (d, dn, e, fits, before) ↦ (
          (s + d) % n,
          mod-lt (s + d) (omega arith),
          start ∙ e,
          selected_later s s' d i sn dn fits before,
        )
        | inr (e, dead) ↦
            let (way, l, at) = reach n s j sn jn in clash (ap test at ∙ alive) (dead way l)
      ]
