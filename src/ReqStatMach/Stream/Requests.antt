-- ===== src/ReqStatMach/Stream/Requests.antt =====
-- Well-formed requests, as texts, and how the reading of src/ReqStatMach.h decides them.
use simple_http_serv.Prelude.{ℕ, ◌≡◌, ◌≢◌, refl, ap, ◌∙◌, false, List, [], ◌∷◌, ◌++◌, arith, ok}
use mathlib.Core.List.{append_assoc, append-nil}
use simple_http_serv.Text.{cr, lf, cut}
use simple_http_serv.ReqStatMach.State.{CheckStat, reqline, header, no_request, got_request}
use simple_http_serv.ReqStatMach.Request.{parse_requesturi, parse_headers}
use simple_http_serv.ReqStatMach.Stream.{
  running, done, end_of_line, feeds, feeds_other, feeds-cr, feeds_held_lf, feeds-done, start,
}

-- No line end and no NUL among the bytes.
abbrev pub IsPlain : List ℕ → Type 0
IsPlain [] = Unit
IsPlain (c ∷ cs) = (c ≢ cr) × (c ≢ lf) × (c ≢ 0) × IsPlain cs

pub record Request : Type 0 where
  pub line : List ℕ
  pub headers : List (List ℕ)

-- Header lines, none of them empty.
abbrev pub AreHeaders : List (List ℕ) → Type 0
AreHeaders [] = Unit
AreHeaders (h ∷ hs) = IsPlain h × (h ≢ []) × AreHeaders hs

pub record IsRequest (q : Request) : Type 0 where
  pub plain : IsPlain q.line
  pub accepted : parse_requesturi q.line ≡ ok no_request
  pub headers : AreHeaders q.headers

-- The header lines, each with its line end, and the empty line behind them.
abbrev pub render_headers : List (List ℕ) → List ℕ
render_headers [] = cr ∷ lf ∷ []
render_headers (h ∷ hs) = h ++ cr ∷ lf ∷ render_headers hs

abbrev pub render : Request → List ℕ
render q = q.line ++ cr ∷ lf ∷ render_headers q.headers

cut_plain : (text : List ℕ) → IsPlain text → cut text ≡ text
unfolding cut
cut_plain [] h = refl
cut_plain (c ∷ cs) (_, _, z, h) = ground (arith, cut_plain cs h)

feeds_plain :
    (cs : CheckStat) (text more rest : List ℕ)
    → IsPlain more
    → feeds (running cs text false) (more ++ rest) ≡ feeds (running cs (text ++ more) false) rest
feeds_plain cs text [] rest h = rw append-nil
feeds_plain cs text (c ∷ more) rest (a, b, z, h) =
    feeds_other cs text c (more ++ rest) a b
    ∙ feeds_plain cs (text ++ c ∷ []) more rest h
    ∙ ap (λ t. feeds (running cs t false) rest) (append_assoc text (c ∷ []) more)

-- A whole line, from its first byte.
feeds_line :
    (cs : CheckStat) (line rest : List ℕ)
    → IsPlain line
    → feeds (running cs [] false) (line ++ cr ∷ lf ∷ rest) ≡ feeds (end_of_line cs line) rest
feeds_line cs line rest h =
    feeds_plain cs [] line (cr ∷ lf ∷ rest) h
    ∙ feeds-cr cs line cr (lf ∷ rest) refl
    ∙ feeds_held_lf cs line lf rest refl

header_line : (h : List ℕ) → IsPlain h → h ≢ [] → end_of_line header h ≡ running header [] false
unfolding end_of_line parse_headers cut
header_line [] p ne = absurd (ne refl)
header_line (c ∷ cs) p ne = ground arith

feeds_headers :
    (hs : List (List ℕ)) (rest : List ℕ)
    → AreHeaders hs
    → feeds (running header [] false) (render_headers hs ++ rest) ≡ done got_request
unfolding end_of_line parse_headers cut
feeds_headers [] rest v = feeds_line header [] rest tt ∙ feeds-done got_request rest
feeds_headers (h ∷ hs) rest (p, ne, v) =
    ap (feeds (running header [] false)) (append_assoc h (cr ∷ lf ∷ render_headers hs) rest)
    ∙ feeds_line header h (render_headers hs ++ rest) p
    ∙ rw (header_line h p ne) (feeds_headers hs rest v)

request_line :
    (line : List ℕ)
    → IsPlain line
    → parse_requesturi line ≡ ok no_request
    → end_of_line reqline line ≡ running header [] false
unfolding end_of_line
request_line line p a = rw (cut_plain line p, a)

-- A well-formed request is decided as got, whatever follows it.
pub feeds_request :
    (q : Request) (rest : List ℕ) → IsRequest q → feeds start (render q ++ rest) ≡ done got_request
feeds_request q rest v =
    ap (feeds start) (append_assoc q.line (cr ∷ lf ∷ render_headers q.headers) rest)
    ∙ feeds_line reqline q.line (render_headers q.headers ++ rest) v.plain
    ∙ rw (request_line q.line v.plain v.accepted) (feeds_headers q.headers rest v.headers)
