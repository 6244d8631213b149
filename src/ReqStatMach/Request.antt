-- ===== src/ReqStatMach/Request.antt =====
-- `parse_requesturi` and `parse_headers` of src/ReqStatMach.h. A line is the C string that the
-- pointer leads to; of the output printed on the way nothing is kept.
pub mod Grammar
use simple_http_serv.Prelude.{
  ℕ, zero, suc, ◌+◌, Bool, true, false, ◌||◌, Option, none, some, List, [], ◌∷◌, Run, ok, fault,
  null_deref, ◌≡◌, refl, ltb, if◌then◌else◌, drop,
}
use simple_http_serv.Text.{codes, strncasecmp_zero, strpbrk_blank}
use simple_http_serv.ReqStatMach.State.{
  ResultCode, no_request, got_request, bad_request, internal_error,
}

-- `line` behind the URI.
parse_version : List ℕ → ResultCode
parse_version line =
    if strncasecmp_zero line (codes "HTTP/1.1") (some 8)
    then no_request
    else if strncasecmp_zero line (codes "HTTP/1.0") (some 8)
    then no_request
    else bad_request

-- `line` behind the method. The test `uri_end > line` fails for the null pointer.
parse_uri : List ℕ → ResultCode
unfolding parse_version strpbrk_blank
parse_uri line = elim (strpbrk_blank line) [
  | none ↦ bad_request
  | some uri_end ↦ if ltb 0 uri_end then parse_version (drop (uri_end + 1) line) else bad_request
]

-- With no blank in the line `method_end` is null: the length handed to `strncasecmp` exceeds every
-- string, and the search for the end of the URI reads at address 1.
unfoldable pub parse_requesturi : List ℕ → Run ResultCode
unfolding parse_uri strncasecmp_zero
parse_requesturi line = elim (strpbrk_blank line) [
  | none ↦ if strncasecmp_zero line (codes "GET") none then fault null_deref else ok bad_request
  | some method_end ↦
      if strncasecmp_zero line (codes "GET") (some method_end)
      then ok (parse_uri (drop (method_end + 1) line))
      else ok bad_request
]

-- `none` is the null pointer, `line[0] == '\0'` the empty string.
unfoldable pub parse_headers : Option (List ℕ) → ResultCode
parse_headers none = internal_error
parse_headers (some []) = got_request
parse_headers (some (c ∷ cs)) = no_request

root_line : parse_requesturi (codes "GET / HTTP/1.1") ≡ ok no_request
unfolding parse_requesturi
root_line = refl
