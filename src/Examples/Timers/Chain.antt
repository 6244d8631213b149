-- ===== src/Examples/Timers/Chain.antt =====
-- What a timer list stands for, and what stays of it when the heap changes elsewhere.
use simple_http_serv.Prelude.{
  ℕ, ◌≤◌, ◌≡◌, refl, ◌∙◌, Bool, true, false, ◌||◌, some, List, [], ◌∷◌, arith, ◌==◌, ltb,
  if◌then◌else◌,
}
use simple_http_serv.Examples.Timers.{Ptr, null, Heap, TimerSortedList}

-- A timer of the list: its address, its expiry and its client.
pub record Cell : Type 0 where
  pub at : Ptr
  pub expire : ℕ
  pub client : ℕ

abbrev pub Cells : Type 0
Cells = List Cell

abbrev pub has : Ptr → Cells → Bool
has a [] = false
has a (x ∷ xs) = (a == x.at) || has a xs

-- `x` lies at its address, between `p` and `q`.
pub record Holds (h : Heap) (x : Cell) (p q : Ptr) : Type 0 where
  pub not_null : (x.at == null) ≡ false
  pub content :
      h x.at ≡ some (record { prev = p; next = q; client_data = x.client; t_expire = x.expire })

-- From `cur`, behind `prev`, the `next` pointers lead through the distinct timers `xs` to null, and
-- the `prev` pointers back.
pub data Chain (h : Heap) : (prev cur : Ptr) → Cells → Type 0 where
  nil : {prev : Ptr} → Chain h prev null []
  cons :
      {prev q : Ptr} {x : Cell} {xs : Cells}
      → Holds h x prev q
      → has x.at xs ≡ false
      → Chain h x.at q xs
      → Chain h prev x.at (x ∷ xs)

-- The tail is not part of it: the code never reads it.
abbrev pub IsTimers : TimerSortedList → Cells → Type 0
IsTimers l xs = Chain l.heap null l.head xs

-- `g` differs from `h` at most at the addresses of `xs` and at `a`.
abbrev pub SameOutside : Ptr → Cells → Heap → Heap → Type 0
SameOutside a xs h g = (b : Ptr) → (b == a) ≡ false → has b xs ≡ false → g b ≡ h b

module _ {h g : Heap} where
  pub Holds-frame : {x : Cell} {p q : Ptr} → Holds h x p q → g x.at ≡ h x.at → Holds g x p q
  Holds-frame b e = record { not_null = b.not_null; content = e ∙ b.content }

  pub Chain-frame :
      {prev cur : Ptr} {xs : Cells}
      → Chain h prev cur xs
      → ((a : Ptr) → has a xs ≡ true → g a ≡ h a)
      → Chain g prev cur xs
  Chain-frame nil same = nil
  Chain-frame (cons {x} e out s) same =
      cons (Holds-frame e (same x.at (ground arith))) out
        (Chain-frame s (λ a i. same a (ground arith)))

abbrev pub timers : (head tail : Ptr) → Heap → TimerSortedList
timers p e h = record { head = p; tail = e; heap = h }

-- Behind the timers that expire earlier.
unfoldable pub insert_sorted : Cell → Cells → Cells
insert_sorted c [] = c ∷ []
insert_sorted c (x ∷ xs) = if ltb x.expire c.expire then x ∷ insert_sorted c xs else c ∷ x ∷ xs

unfoldable pub erase : Ptr → Cells → Cells
erase p [] = []
erase p (x ∷ xs) = if p == x.at then xs else x ∷ erase p xs

pub has-insert_sorted :
    (a : Ptr) (c : Cell) (xs : Cells) → has a (insert_sorted c xs) ≡ ((a == c.at) || has a xs)
unfolding insert_sorted
has-insert_sorted a c [] = refl
has-insert_sorted a c (x ∷ xs) = ground (arith, has-insert_sorted a c xs)

pub not_has-erase : (a p : Ptr) (xs : Cells) → has a xs ≡ false → has a (erase p xs) ≡ false
unfolding erase
not_has-erase a p [] o = refl
not_has-erase a p (x ∷ xs) o = ground (arith, not_has-erase a p xs)

-- The timers are in the order of their expiry.
abbrev pub Above : ℕ → Cells → Type 0
Above e [] = Unit {0}
Above e (x ∷ xs) = e ≤ x.expire

abbrev pub IsSorted : Cells → Type 0
IsSorted [] = Unit {0}
IsSorted (x ∷ xs) = Above x.expire xs × IsSorted xs

pub insert_sorted-IsSorted : (c : Cell) (xs : Cells) → IsSorted xs → IsSorted (insert_sorted c xs)
unfolding insert_sorted
insert_sorted-IsSorted c [] s = (tt, tt)
insert_sorted-IsSorted c (x ∷ []) s = ground arith
insert_sorted-IsSorted c (x ∷ y ∷ xs) s = ground (arith, insert_sorted-IsSorted c (y ∷ xs) s.1)

pub erase-IsSorted : (p : Ptr) (xs : Cells) → IsSorted xs → IsSorted (erase p xs)
unfolding erase
erase-IsSorted p [] s = tt
erase-IsSorted p (x ∷ []) s = ground arith
erase-IsSorted p (x ∷ y ∷ []) s = ground arith
erase-IsSorted p (x ∷ y ∷ z ∷ xs) s = ground (arith, erase-IsSorted p (y ∷ z ∷ xs) s.1)
