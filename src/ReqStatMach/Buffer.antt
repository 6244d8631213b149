-- ===== src/ReqStatMach/Buffer.antt =====
-- Stretches of the receive buffer of src/ReqStatMach.h.
use simple_http_serv.Prelude.{
  ℕ, zero, suc, ◌+◌, ◌≤◌, ◌<◌, ◌≡◌, refl, ap, ◌∙◌, List, [], ◌∷◌, ◌++◌, arith, Run, ok, fault,
  out_of_bounds, ◌>>=◌, ◌==◌, if◌then◌else◌, length,
}
use simple_http_serv.Text.{cut}
use simple_http_serv.ReqStatMach.State.{Buf, update}

-- The `n` bytes from index `i` on.
abbrev pub slice : Buf → ℕ → ℕ → List ℕ
slice buf i zero = []
slice buf i (suc n) = buf i ∷ slice buf (i + 1) n

-- What `recv` leaves in the buffer when it is handed the address of index `i`.
unfoldable pub blit : Buf → ℕ → List ℕ → Buf
blit buf i [] = buf
blit buf i (c ∷ cs) = blit (update buf i c) (i + 1) cs

-- The C string at index `i`, with `n` bytes left up to the end of the array.
unfoldable pub c_string : ℕ → Buf → ℕ → Run (List ℕ)
c_string zero buf i = fault out_of_bounds
c_string (suc n) buf i =
    let rest = c_string n buf (i + 1) in
    if buf i == 0 then ok [] else (do cs ← rest; ok (buf i ∷ cs))

-- `text` stands in the buffer from index `i` on.
abbrev pub At : Buf → ℕ → List ℕ → Type 0
At buf i [] = Unit
At buf i (c ∷ cs) = (buf i ≡ c) × At buf (i + 1) cs

pub At-snoc :
    (buf : Buf) (i k c : ℕ) (text : List ℕ)
    → i + length text ≡ k
    → buf k ≡ c
    → At buf i text
    → At buf i (text ++ c ∷ [])
At-snoc buf i k c [] e v h = (ap buf (omega arith) ∙ v, tt)
At-snoc buf i k c (x ∷ xs) e v h = (h.0, At-snoc buf (i + 1) k c xs (omega arith) v h.1)

pub At-update :
    (buf : Buf) (i j v : ℕ) (text : List ℕ)
    → i + length text ≤ j
    → At buf i text
    → At (update buf j v) i text
At-update buf i j v [] h a = tt
At-update buf i j v (c ∷ cs) h a = (ground arith, At-update buf (i + 1) j v cs (omega arith) a.1)

pub slice-update : (buf : Buf) (i j v n : ℕ) → j < i → slice (update buf j v) i n ≡ slice buf i n
slice-update buf i j v zero h = refl
slice-update buf i j v (suc n) h = ground (arith, slice-update buf (i + 1) j v n (omega arith))

pub blit-before : (buf : Buf) (i j : ℕ) (bs : List ℕ) → j < i → blit buf i bs j ≡ buf j
unfolding blit
blit-before buf i j [] h = refl
blit-before buf i j (c ∷ cs) h =
    ground (arith, blit-before (update buf i c) (i + 1) j cs (omega arith))

pub blit-head : (buf : Buf) (i c : ℕ) (cs : List ℕ) → blit buf i (c ∷ cs) i ≡ c
unfolding blit
blit-head buf i c cs = ground (arith, blit-before (update buf i c) (i + 1) i cs (omega arith))

pub At-blit :
    (buf : Buf) (i j : ℕ) (bs text : List ℕ)
    → i + length text ≤ j
    → At buf i text
    → At (blit buf j bs) i text
At-blit buf i j bs [] h a = tt
At-blit buf i j bs (c ∷ cs) h a =
    (blit-before buf j i bs (omega arith) ∙ a.0, At-blit buf (i + 1) j bs cs (omega arith) a.1)

pub slice-blit : (buf : Buf) (i : ℕ) (bs : List ℕ) → slice (blit buf i bs) i (length bs) ≡ bs
unfolding blit
slice-blit buf i [] = refl
slice-blit buf i (c ∷ cs) = ground (
  arith,
  slice-blit (update buf i c) (i + 1) cs,
  blit-before (update buf i c) (i + 1) i cs (omega arith),
)

-- A NUL behind `text` bounds the C string there.
pub c_string-cut :
    (n : ℕ) (buf : Buf) (i k : ℕ) (text : List ℕ)
    → At buf i text
    → i + length text ≡ k
    → buf k ≡ 0
    → length text < n
    → c_string n buf i ≡ ok (cut text)
unfolding c_string cut
c_string-cut zero buf i k text a e z h = absurd (omega arith)
c_string-cut (suc n) buf i k [] a e z h =
    let z' : buf i ≡ 0 = ap buf (omega arith) ∙ z in ground arith
c_string-cut (suc n) buf i k (c ∷ cs) a e z h =
    ground (arith, c_string-cut n buf (i + 1) k cs a.1 (omega arith) z (omega arith))
