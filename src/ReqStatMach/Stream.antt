-- ===== src/ReqStatMach/Stream.antt =====
-- What the machine of src/ReqStatMach.h promises, read one byte at a time and with no buffer: the
-- specification that `parse_batch` and `process` are held against.
pub mod Requests
pub mod Splits
use simple_http_serv.Prelude.{
  ℕ, ◌+◌, ◌≡◌, ◌≢◌, refl, ap, Bool, true, false, some, List, [], ◌∷◌, ◌++◌, arith, Run, ok, fault,
  Fault, assert_failed, ◌==◌, if◌then◌else◌,
}
use simple_http_serv.Text.{cr, lf, cut}
use simple_http_serv.ReqStatMach.State.{
  CheckStat, reqline, header, entity, ResultCode, no_request, bad_request,
}
use simple_http_serv.ReqStatMach.Request.{parse_requesturi, parse_headers}

-- `running cs text held`: in phase `cs`, with `text` read of the current line; `held` says that a
-- carriage return followed `text`.
pub data Parse : Type 0 where
  running : CheckStat → List ℕ → Bool → Parse
  done : ResultCode → Parse
  crashed : Fault → Parse

abbrev pub next_line : ResultCode → Parse
next_line no_request = running header [] false
next_line r = done r

abbrev pub settle : Run ResultCode → Parse
settle (ok r) = next_line r
settle (fault f) = crashed f

-- A line ends: only the bytes before a NUL count.
unfoldable pub end_of_line : CheckStat → List ℕ → Parse
end_of_line reqline text = settle (parse_requesturi (cut text))
end_of_line header text = next_line (parse_headers (some (cut text)))
end_of_line entity text = crashed assert_failed

abbrev feed_plain : CheckStat → List ℕ → ℕ → Parse
feed_plain cs text c =
    if c == cr
    then running cs text true
    else if c == lf
    then done bad_request
    else running cs (text ++ c ∷ []) false

unfoldable pub feed : Parse → ℕ → Parse
feed (running cs text true) c =
    if c == lf then end_of_line cs text else feed_plain cs (text ++ cr ∷ []) c
feed (running cs text false) c = feed_plain cs text c
feed (done r) c = done r
feed (crashed f) c = crashed f

unfoldable pub feeds : Parse → List ℕ → Parse
unfolding feed
feeds p [] = p
feeds p (c ∷ cs) = feeds (feed p c) cs

abbrev pub start : Parse
start = running reqline [] false

pub feeds_nil : (p : Parse) → feeds p [] ≡ p
unfolding feeds
feeds_nil p = refl

pub feeds-append : (p : Parse) (xs ys : List ℕ) → feeds p (xs ++ ys) ≡ feeds (feeds p xs) ys
unfolding feeds
feeds-append p [] ys = refl
feeds-append p (x ∷ xs) ys = feeds-append (feed p x) xs ys

pub feeds-done : (r : ResultCode) (xs : List ℕ) → feeds (done r) xs ≡ done r
unfolding feeds
feeds-done r [] = refl
feeds-done r (x ∷ xs) = feeds-done r xs

pub feeds-crashed : (f : Fault) (xs : List ℕ) → feeds (crashed f) xs ≡ crashed f
unfolding feeds
feeds-crashed f [] = refl
feeds-crashed f (x ∷ xs) = feeds-crashed f xs

module _ (cs : CheckStat) (text : List ℕ) (c : ℕ) (rest : List ℕ) where
  pub feeds-cr :
      c ≡ cr → feeds (running cs text false) (c ∷ rest) ≡ feeds (running cs text true) rest
  unfolding feeds
  feeds-cr e = rw e

  pub feeds-lf : c ≡ lf → feeds (running cs text false) (c ∷ rest) ≡ done bad_request
  unfolding feeds
  feeds-lf e = rw e (feeds-done bad_request rest)

  pub feeds_other :
      c ≢ cr
      → c ≢ lf
      → feeds (running cs text false) (c ∷ rest) ≡ feeds (running cs (text ++ c ∷ []) false) rest
  unfolding feeds
  feeds_other h k = ap (λ p. feeds p rest) (ground arith)

  pub feeds_held_lf :
      c ≡ lf → feeds (running cs text true) (c ∷ rest) ≡ feeds (end_of_line cs text) rest
  unfolding feeds
  feeds_held_lf e = rw e

  -- A held carriage return that no line feed follows is a byte of the line.
  pub feeds_release :
      c ≢ lf
      → feeds (running cs text true) (c ∷ rest)
        ≡ feeds (running cs (text ++ cr ∷ []) false) (c ∷ rest)
  unfolding feeds
  feeds_release h = ap (λ p. feeds p rest) (ground arith)
