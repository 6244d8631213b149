-- ===== src/Pool/Parent/Select.antt =====
-- The choice of a child in `RunParent` of src/ProcessPool.h: one turn round the table.
use native.Mathlib.Nat.{mod-lt}
use simple_http_serv.Prelude.{ℕ, ◌+◌, ◌%◌, ◌≤◌, ◌≡◌, inl, inr, arith, ok}
use simple_http_serv.Pool.Create.{ProcessPool}
use simple_http_serv.Pool.Turn.{Selected, select_from-Selected}
use simple_http_serv.Pool.Parent.{is_child, select_child}

-- The selection ends with the first child in the cyclic order from the index on; where there is no
-- child, with the index itself.
pub select_child-Selected :
    (pool : ProcessPool) (start : ℕ)
    → start ≤ pool.num_proc
    → Selected (pool.num_proc + 1) (is_child pool.proc) start (select_child pool start)
unfolding select_child
select_child-Selected pool start within =
    select_from-Selected (pool.num_proc + 1) (is_child pool.proc) start (omega arith)

pub next_within : (n sel : ℕ) → (sel + 1) % (n + 1) ≤ n
next_within n sel = ground (arith, mod-lt (sel + 1) {m = n + 1} (omega arith))

pub select_child-within :
    (pool : ProcessPool) (start : ℕ)
    → start ≤ pool.num_proc
    → (sel : ℕ) × (select_child pool start ≡ ok sel) × (sel ≤ pool.num_proc)
select_child-within pool start l = elim (select_child-Selected pool start l) [
  | inl (d, dn, e, c, before) ↦
      let n = pool.num_proc in
      ((start + d) % (n + 1), e, ground (arith, mod-lt (start + d) {m = n + 1} (omega arith)))
  | inr (e, none) ↦ (start, e, l)
]
