-- ===== src/Pool/Create/Roles.antt =====
-- Which loop each process of the pool enters: the constructor and `run` of src/ProcessPool.h.
use simple_http_serv.Prelude.{
  ℕ, zero, suc, ◌+◌, ◌≤◌, ◌<◌, ◌≡◌, ◌≢◌, ap, ◌∙◌, inl, inr, true, false, arith, ◌==◌, Bool-cases,
  if◌then◌else◌,
}
use simple_http_serv.Prelude.Int.{ℤ, pos, minus_one, eq_ℤ}
use simple_http_serv.Pool.Process.{Process}
use simple_http_serv.Pool.Create.{set_proc, find_child, forked_process}

-- No entry of the table but that of `k` has a pool id.
abbrev pub OnlyOwner : (ℕ → Process) → ℕ → Type 0
OnlyOwner proc k = ((proc k).pool_id ≡ pos k) × ((j : ℕ) → j ≢ k → (proc j).pool_id ≡ minus_one)

abbrev pub Unowned : (ℕ → Process) → Type 0
Unowned proc = (j : ℕ) → (proc j).pool_id ≡ minus_one

pub forked-Unowned :
    (proc : ℕ → Process) (i : ℕ) (pid : ℤ) (pair : ℤ × ℤ)
    → Unowned proc
    → Unowned (set_proc proc i (forked_process pid pair))
forked-Unowned proc i pid (rfd, wfd) u j = ground (arith, u j)

pub owner-OnlyOwner :
    (proc : ℕ → Process) (k : ℕ) (p : Process)
    → p.pool_id ≡ pos k
    → Unowned proc
    → OnlyOwner (set_proc proc k p) k
owner-OnlyOwner proc k p e u = (ground arith, λ j ne. ground (arith, u j))

pub same_index : (i k : ℕ) → i == k ≡ true → i ≡ k
same_index i k e = ground arith

other_index : (i k : ℕ) → i == k ≡ false → i ≢ k
other_index i k e h = ground arith

-- The test of `run`, where the id is known.
pub owner_step :
    {A : Type 0} (z : ℤ) (k : ℕ) (x y : A) → z ≡ pos k → (if eq_ℤ z minus_one then x else y) ≡ y
owner_step z k x y e = rw e

pub unowned_step :
    {A : Type 0} (z : ℤ) (x y : A) → z ≡ minus_one → (if eq_ℤ z minus_one then x else y) ≡ x
unowned_step z x y e = rw e

pub find_child_owner :
    (rounds i k : ℕ) (proc : ℕ → Process)
    → OnlyOwner proc k
    → i ≤ k
    → k < i + rounds
    → find_child rounds i proc ≡ pos k
unfolding find_child
find_child_owner zero i k proc o l h = absurd (omega arith)
find_child_owner (suc rounds) i k proc o l h =
    let later = find_child rounds (i + 1) proc in
    elim (Bool-cases (i == k)) [
      | inl e ↦
          owner_step (proc i).pool_id k later (pos i)
            (ap (λ x. (proc x).pool_id) (same_index i k e) ∙ o.0)
          ∙ ap pos (same_index i k e)
      | inr ne ↦
          unowned_step (proc i).pool_id later (pos i) (o.1 i (other_index i k ne))
          ∙ find_child_owner rounds (i + 1) k proc o (ground arith) (ground arith)
    ]
