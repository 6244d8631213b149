-- ===== src/ReqStatMach/Request/Grammar.antt =====
-- The request lines that `parse_requesturi` of src/ReqStatMach.h accepts.
use simple_http_serv.Prelude.{
  ℕ, suc, ◌+◌, ◌<◌, ◌≡◌, ◌≢◌, ◌↔◌, ◌⊎◌, refl, sym, ap, subst, ◌∙◌, inl, inr, Bool, true, false,
  none, some, List, [], ◌∷◌, ◌++◌, map, arith, ok, fault, null_deref, Bool-cases, length, take,
  drop, lt→ltb, ltb, if◌then◌else◌,
}
use simple_http_serv.Text.{codes, lower, same_bytes, strncasecmp_zero, strpbrk_blank, is_blank}
use simple_http_serv.ReqStatMach.State.{no_request, bad_request}
use simple_http_serv.ReqStatMach.Request.{parse_version, parse_uri, parse_requesturi}

same_bytes_iff : (xs ys : List ℕ) → (same_bytes xs ys ≡ true) ↔ (xs ≡ ys)
unfolding same_bytes
same_bytes_iff [] [] = (λ _. refl, λ _. refl)
same_bytes_iff [] (y ∷ ys) = (λ e. cc, λ e. cc)
same_bytes_iff (x ∷ xs) [] = (λ e. cc, λ e. cc)
same_bytes_iff (x ∷ xs) (y ∷ ys) =
    let rest = same_bytes_iff xs ys in (λ e. ground (arith, rest.0), λ e. ground (arith, rest.1))

abbrev pub NoBlank : List ℕ → Type 0
NoBlank [] = Unit
NoBlank (c ∷ cs) = (is_blank c ≡ false) × NoBlank cs

-- `line` is `word`, which has no blank, then a blank, then `rest`.
pub record IsWord (line word rest : List ℕ) : Type 0 where
  pub sep : ℕ
  pub blank : is_blank sep ≡ true
  pub clear : NoBlank word
  pub splits : line ≡ word ++ sep ∷ rest

strpbrk_word :
    (word : List ℕ) (sep : ℕ) (rest : List ℕ)
    → NoBlank word
    → is_blank sep ≡ true
    → strpbrk_blank (word ++ sep ∷ rest) ≡ some (length word)
unfolding strpbrk_blank
strpbrk_word [] sep rest n b = ground arith
strpbrk_word (c ∷ cs) sep rest n b = ground (arith, strpbrk_word cs sep rest n.1 b)

strpbrk_none : (line : List ℕ) → NoBlank line → strpbrk_blank line ≡ none
unfolding strpbrk_blank
strpbrk_none [] n = refl
strpbrk_none (c ∷ cs) n = ground (arith, strpbrk_none cs n.1)

IsWord-cons :
    (c : ℕ) {cs word rest : List ℕ}
    → is_blank c ≡ false
    → IsWord cs word rest
    → IsWord (c ∷ cs) (c ∷ word) rest
IsWord-cons c n w = record {
  sep = w.sep;
  blank = w.blank;
  clear = (n, w.clear);
  splits = ap (λ xs. c ∷ xs) w.splits;
}

-- A line has a first blank or none.
words : (line : List ℕ) → NoBlank line ⊎ ((word : List ℕ) × (rest : List ℕ) × IsWord line word rest)
words [] = inl tt
words (c ∷ cs) = elim (Bool-cases (is_blank c)) [
  | inl b ↦ inr ([], cs, record { sep = c; blank = b; clear = tt; splits = refl })
  | inr n ↦ elim (words cs) [
    | inl clear ↦ inl (n, clear)
    | inr (word, rest, w) ↦ inr (c ∷ word, rest, IsWord-cons c n w)
  ]
]

take_word : (word rest : List ℕ) → take (length word) (word ++ rest) ≡ word
take_word [] rest = refl
take_word (c ∷ cs) rest = ap (λ xs. c ∷ xs) (take_word cs rest)

drop_word :
    (word : List ℕ) (sep : ℕ) (rest : List ℕ) → drop (suc (length word)) (word ++ sep ∷ rest) ≡ rest
drop_word [] sep rest = refl
drop_word (c ∷ cs) sep rest = drop_word cs sep rest

drop_next :
    (word : List ℕ) (sep : ℕ) (rest : List ℕ) → drop (length word + 1) (word ++ sep ∷ rest) ≡ rest
drop_next word sep rest =
    let e : length word + 1 ≡ suc (length word) = omega arith in rw e (drop_word word sep rest)

-- `strncasecmp` against "GET", over the word's own length.
abbrev pub IsMethod : List ℕ → Type 0
IsMethod word = map lower word ≡ map lower (take (length word) (codes "GET"))

abbrev pub IsVersion : List ℕ → Type 0
IsVersion rest =
    (map lower (take 8 rest) ≡ map lower (codes "HTTP/1.1"))
    ⊎ (map lower (take 8 rest) ≡ map lower (codes "HTTP/1.0"))

abbrev method_test : List ℕ → Bool
method_test word = same_bytes (map lower word) (map lower (take (length word) (codes "GET")))

requesturi_word :
    (line word rest : List ℕ)
    → IsWord line word rest
    → parse_requesturi line ≡ (if method_test word then ok (parse_uri rest) else ok bad_request)
unfolding parse_requesturi
requesturi_word line word rest w =
    let found : strpbrk_blank line ≡ some (length word) =
      ap strpbrk_blank w.splits ∙ strpbrk_word word w.sep rest w.clear w.blank in
    let front : take (length word) line ≡ word =
      ap (take (length word)) w.splits ∙ take_word word (w.sep ∷ rest) in
    let back : drop (length word + 1) line ≡ rest =
      ap (drop (length word + 1)) w.splits ∙ drop_next word w.sep rest in
    rw (found, parse_requesturi) (rw (front, back))

uri_word :
    (line word rest : List ℕ)
    → IsWord line word rest
    → parse_uri line ≡ (if ltb 0 (length word) then parse_version rest else bad_request)
unfolding parse_uri
uri_word line word rest w =
    let found : strpbrk_blank line ≡ some (length word) =
      ap strpbrk_blank w.splits ∙ strpbrk_word word w.sep rest w.clear w.blank in
    let back : drop (length word + 1) line ≡ rest =
      ap (drop (length word + 1)) w.splits ∙ drop_next word w.sep rest in
    rw (found, parse_uri) (rw back)

uri_none : (line : List ℕ) → NoBlank line → parse_uri line ≡ bad_request
unfolding parse_uri
uri_none line n = rw (strpbrk_none line n, parse_uri)

requesturi_none :
    (line : List ℕ)
    → NoBlank line
    → parse_requesturi line ≡ (
        if same_bytes (map lower line) (map lower (codes "GET"))
        then fault null_deref
        else ok bad_request)
unfolding parse_requesturi
requesturi_none line n = rw (strpbrk_none line n, parse_requesturi)

IsVersion-iff : (rest : List ℕ) → (parse_version rest ≡ no_request) ↔ IsVersion rest
unfolding parse_version strncasecmp_zero
IsVersion-iff rest =
    let one = same_bytes_iff (map lower (take 8 rest)) (map lower (codes "HTTP/1.1")) in
    let zero = same_bytes_iff (map lower (take 8 rest)) (map lower (codes "HTTP/1.0")) in
    (λ e. ground (arith, one.0, zero.0), λ e. ground (arith, one.1, zero.1))

-- A request line in the form that the machine takes: three words parted by single blanks. The
-- first may be any part of "GET" from its front, in either case, and may be empty; the second is
-- not empty; of the third only the first eight bytes count.
pub record IsAccepted (line : List ℕ) : Type 0 where
  pub method : List ℕ
  pub uri : List ℕ
  pub version : List ℕ
  pub behind_method : List ℕ
  pub first : IsWord line method behind_method
  pub second : IsWord behind_method uri version
  pub is_get : IsMethod method
  pub has_uri : 0 < length uri
  pub is_http : IsVersion version

bad≢go : bad_request ≢ no_request
bad≢go e = cc

IsMethod-iff : (word : List ℕ) → (method_test word ≡ true) ↔ IsMethod word
IsMethod-iff word = same_bytes_iff _ _

module _ (line method rest : List ℕ) (w : IsWord line method rest) where
  uri-IsAccepted : IsMethod method → parse_uri rest ≡ no_request → IsAccepted line
  uri-IsAccepted g e = elim (words rest) [
    | inl clear ↦ absurd (bad≢go (sym (uri_none rest clear) ∙ e))
    | inr (uri, version, u) ↦
        let test = sym (uri_word rest uri version u) ∙ e in
        record {
          method = method;
          uri = uri;
          version = version;
          behind_method = rest;
          first = w;
          second = u;
          is_get = g;
          has_uri = ground (arith, test);
          is_http = (IsVersion-iff version).0 (ground (arith, test));
        }
  ]

  word-IsAccepted : parse_requesturi line ≡ ok no_request → IsAccepted line
  word-IsAccepted e =
      let test = sym (requesturi_word line method rest w) ∙ e in
      uri-IsAccepted ((IsMethod-iff method).0 (ground (arith, test))) (ground (arith, test))

-- `parse_requesturi` accepts a line exactly when it has this form.
pub IsAccepted-iff : (line : List ℕ) → (parse_requesturi line ≡ ok no_request) ↔ IsAccepted line
IsAccepted-iff line = (only, all)
  where
    only : parse_requesturi line ≡ ok no_request → IsAccepted line
    only e = elim (words line) [
      | inl clear ↦ absurd (ground (arith, requesturi_none line clear))
      | inr (method, rest, w) ↦ word-IsAccepted line method rest w e
    ]

    all : IsAccepted line → parse_requesturi line ≡ ok no_request
    all a =
        requesturi_word line a.method a.behind_method a.first
        ∙ rw ((IsMethod-iff a.method).1 a.is_get) (
            ap ok (
              uri_word a.behind_method a.uri a.version a.second
              ∙ rw (lt→ltb 0 (length a.uri) a.has_uri) ((IsVersion-iff a.version).1 a.is_http)))

lower_blank : (c : ℕ) → is_blank (lower c) ≡ false → is_blank c ≡ false
unfolding lower
lower_blank c e = ground arith

NoBlank-lower : (line : List ℕ) → NoBlank (map lower line) → NoBlank line
NoBlank-lower [] n = tt
NoBlank-lower (c ∷ cs) n = (lower_blank c n.0, NoBlank-lower cs n.1)

get_clear : NoBlank (map lower (codes "GET"))
unfolding lower
get_clear = (refl, (refl, (refl, tt)))

-- It meets the null pointer exactly on the lines that are "GET", in either case, and nothing else.
pub crash_iff :
    (line : List ℕ)
    → (parse_requesturi line ≡ fault null_deref) ↔ (map lower line ≡ map lower (codes "GET"))
crash_iff line = (only, all)
  where
    only : parse_requesturi line ≡ fault null_deref → map lower line ≡ map lower (codes "GET")
    only e = elim (words line) [
      | inl clear ↦ (same_bytes_iff _ _).0 (ground (arith, requesturi_none line clear))
      | inr (method, rest, w) ↦ absurd (ground (arith, requesturi_word line method rest w))
    ]

    all : map lower line ≡ map lower (codes "GET") → parse_requesturi line ≡ fault null_deref
    all e =
        requesturi_none line (NoBlank-lower line (subst NoBlank (sym e) get_clear))
        ∙ rw ((same_bytes_iff _ _).1 e)
