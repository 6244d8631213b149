-- ===== src/Text.antt =====
-- C strings: the byte lists that the functions of <cstring> see.
use Prim.Native.Char.{code}
use Prim.Native.String.{String}
use simple_http_serv.Prelude.{
  ℕ, suc, ◌+◌, Bool, true, false, ◌&&◌, ◌||◌, Option, none, some, List, [], ◌∷◌, map, leb, ◌==◌,
  if◌then◌else◌, take,
}

-- The code points of a text: its bytes, if it is ASCII.
abbrev pub codes : String → List ℕ
codes String.[] = []
codes (String.◌∷◌ c s) = code c ∷ codes s

abbrev pub cr : ℕ
cr = 13

abbrev pub lf : ℕ
lf = 10

-- The C string that starts at the front of some bytes: all before the first NUL.
unfoldable pub cut : List ℕ → List ℕ
cut [] = []
cut (c ∷ cs) = if c == 0 then [] else c ∷ cut cs

-- ASCII `tolower`
unfoldable pub lower : ℕ → ℕ
lower c = if leb b'A' c && leb c b'Z' then c + 32 else c

unfoldable pub same_bytes : List ℕ → List ℕ → Bool
same_bytes [] [] = true
same_bytes (x ∷ xs) (y ∷ ys) = x == y && same_bytes xs ys
same_bytes _ _ = false

-- A bound on the bytes compared; `none` is a `size_t` beyond every string.
abbrev pub limit : Option ℕ → List ℕ → List ℕ
limit none s = s
limit (some n) s = take n s

-- `strncasecmp(s, t, n) == 0`
unfoldable pub strncasecmp_zero : List ℕ → List ℕ → Option ℕ → Bool
unfolding same_bytes lower
strncasecmp_zero s t n = same_bytes (map lower (limit n s)) (map lower (limit n t))

abbrev pub is_blank : ℕ → Bool
is_blank c = c == b' ' || c == b'\t'

-- `strpbrk(s, " \t")`, as an offset into `s`; `none` is the null pointer.
unfoldable pub strpbrk_blank : List ℕ → Option ℕ
strpbrk_blank [] = none
strpbrk_blank (c ∷ cs) =
    if is_blank c then some 0 else elim (strpbrk_blank cs) [ none ↦ none | some i ↦ some (suc i) ]
