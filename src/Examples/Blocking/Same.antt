-- ===== src/Examples/Blocking/Same.antt =====
-- The parser of examples/framework-intro/handle_http_request.cc against that of src/ReqStatMach.h.
use simple_http_serv.Prelude.{
  ℕ, zero, suc, ◌+◌, ◌-◌, ◌≡◌, refl, ap, sym, ◌∙◌, some, List, [], ◌∷◌, Run, ok, fault, ◌>>=◌,
  arith, bind_assoc,
}
use simple_http_serv.ReqStatMach.State.{
  LineStat, line_ok, line_open, line_waiting_n, line_bad, CheckStat, reqline, header, entity,
  ResultCode, no_request, got_request, done_recv, bad_request, internal_error, Buf, recvbuf_size,
  ReqStatMach,
}
use simple_http_serv.ReqStatMach.Buffer.{c_string}
use simple_http_serv.ReqStatMach.Line.{is_waiting_n, scan}
use simple_http_serv.ReqStatMach.Line
use simple_http_serv.ReqStatMach.Request
use simple_http_serv.ReqStatMach.Request.{parse_requesturi}
use simple_http_serv.ReqStatMach.Batch.{dispatch, parse_line, parse_lines}
use simple_http_serv.ReqStatMach.Batch
use simple_http_serv.Examples.Blocking.{
  ReqParser, newline, transfer, parse_headers, check_from, check_one_line, parse_request_uri,
  parse_one, parse_rounds, parse_batch,
}

-- What a machine of the class is without its epoll set and its peer's address.
abbrev pub parser : ReqStatMach → ReqParser
parser m = record {
  req_sockfd = m.sockfd;
  read_idx = m.read_idx;
  checked_idx = m.checked_idx;
  linest_idx = m.linest_idx;
  recv_buf = m.recvbuf;
  lastline_stat = m.lastline_stat;
  check_stat = m.check_stat;
  result = m.result;
}

abbrev pub parser_of : Run ReqStatMach → Run ReqParser
parser_of (ok m) = ok (parser m)
parser_of (fault f) = fault f

check_from-scan :
    (last : LineStat) (read_idx rounds : ℕ) (buf : Buf) (i : ℕ)
    → check_from last read_idx rounds buf i ≡ scan (is_waiting_n last) read_idx rounds buf i
unfolding check_from newline scan
check_from-scan last read_idx zero buf i = refl
check_from-scan line_waiting_n read_idx (suc rounds) buf zero =
    let rest = check_from-scan line_waiting_n read_idx rounds buf 1 in ground arith
check_from-scan line_waiting_n read_idx (suc rounds) buf (suc i) =
    let rest = check_from-scan line_waiting_n read_idx rounds buf (suc i + 1) in ground arith
check_from-scan line_ok read_idx (suc rounds) buf i =
    let rest = check_from-scan line_ok read_idx rounds buf (i + 1) in ground arith
check_from-scan line_open read_idx (suc rounds) buf i =
    let rest = check_from-scan line_open read_idx rounds buf (i + 1) in ground arith
check_from-scan line_bad read_idx (suc rounds) buf i =
    let rest = check_from-scan line_bad read_idx rounds buf (i + 1) in ground arith

request_uri-same : (line : List ℕ) → parse_request_uri line ≡ parse_requesturi line
unfolding parse_request_uri parse_requesturi
request_uri-same line = refl

check_one_line-same :
    (m : ReqStatMach)
    → check_one_line (parser m) ≡ (do (stat, m') ← Line.check_one_line m; ok (stat, parser m'))
unfolding check_one_line Line.check_one_line
check_one_line-same m =
    rw
      (check_from-scan m.lastline_stat m.read_idx (m.read_idx - m.checked_idx) m.recvbuf
        m.checked_idx)
      (sym (
        bind_assoc
          (scan (is_waiting_n m.lastline_stat) m.read_idx (m.read_idx - m.checked_idx) m.recvbuf
            m.checked_idx)
          _ _))

transferred :
    (m : ReqStatMach) (r : ResultCode) → transfer (parser m) r ≡ parser (Batch.after_reqline m r)
transferred m no_request = refl
transferred m got_request = refl
transferred m done_recv = refl
transferred m bad_request = refl
transferred m internal_error = refl

headers-same : (line : List ℕ) → parse_headers (some line) ≡ Request.parse_headers (some line)
unfolding Request.parse_headers
headers-same [] = refl
headers-same (c ∷ cs) = refl

parser_of-bind :
    {A : Type 0} (x : Run A) (f : A → Run ReqStatMach) (g : A → Run ReqParser)
    → ((a : A) → g a ≡ parser_of (f a))
    → (x >>= g) ≡ parser_of (x >>= f)
parser_of-bind (ok a) f g e = e a
parser_of-bind (fault x) f g e = refl

parse_one-same :
    (cs : CheckStat) (m : ReqStatMach) (line : ℕ)
    → parse_one cs (parser m) line ≡ parser_of (dispatch cs m line)
unfolding parse_one dispatch
parse_one-same reqline m line =
    parser_of-bind (c_string (recvbuf_size - line) m.recvbuf line) _ _ (λ text.
      rw (request_uri-same text)
        (parser_of-bind (parse_requesturi text) _ _ (λ r. ap ok (transferred m r))))
parse_one-same header m line =
    parser_of-bind (c_string (recvbuf_size - line) m.recvbuf line) _ _
      (λ text. ap (λ r. ok (record (parser m) { result = r })) (headers-same text))
parse_one-same entity m line = refl

parser_of-then :
    (x : Run ReqStatMach) (f : ReqStatMach → Run ReqStatMach) (g : ReqParser → Run ReqParser)
    → ((m : ReqStatMach) → g (parser m) ≡ parser_of (f m))
    → (parser_of x >>= g) ≡ parser_of (x >>= f)
parser_of-then (ok m) f g e = e m
parser_of-then (fault x) f g e = refl

unless_decided :
    (r : ResultCode) (m : ReqStatMach) (x : Run ReqParser) (y : Run ReqStatMach)
    → x ≡ parser_of y
    → elim r [ no_request ↦ x | _ ↦ ok (parser m) ]
      ≡ parser_of (elim r [ no_request ↦ y | _ ↦ ok m ])
unless_decided no_request m x y e = e
unless_decided got_request m x y e = refl
unless_decided done_recv m x y e = refl
unless_decided bad_request m x y e = refl
unless_decided internal_error m x y e = refl

module _ (rounds : ℕ)
    (again : (m : ReqStatMach)
      → parse_rounds rounds (parser m) ≡ parser_of (parse_lines rounds m)) where
  line_ok-same :
      (m : ReqStatMach)
      → (do
        parsed ←
            parse_one m.check_stat (parser (record m { linest_idx = m.checked_idx })) m.linest_idx
        elim parsed.result [ no_request ↦ parse_rounds rounds parsed | _ ↦ ok parsed ])
        ≡ parser_of (do
          parsed ← parse_line m
          elim parsed.result [ no_request ↦ parse_lines rounds parsed | _ ↦ ok parsed ])
  unfolding parse_line
  line_ok-same m =
      rw (parse_one-same m.check_stat (record m { linest_idx = m.checked_idx }) m.linest_idx) (
        parser_of-then
          (dispatch m.check_stat (record m { linest_idx = m.checked_idx }) m.linest_idx) _ _
          (λ parsed. unless_decided parsed.result parsed _ _ (again parsed)))

abbrev round_of : (rounds : ℕ) → LineStat × ReqStatMach → Run ReqStatMach
round_of rounds (stat, checked) =
    let m = record checked { lastline_stat = stat } in
    elim stat [
      | line_ok ↦ do
        parsed ← parse_line m
        elim parsed.result [ no_request ↦ parse_lines rounds parsed | _ ↦ ok parsed ]
      | line_open ↦ ok m
      | line_waiting_n ↦ ok m
      | line_bad ↦ ok (record m { result = bad_request })
    ]

abbrev parser_round : (rounds : ℕ) → LineStat × ReqParser → Run ReqParser
parser_round rounds (stat, checked) =
    let r = record checked { lastline_stat = stat } in
    elim stat [
      | line_ok ↦ do
        parsed ← parse_one r.check_stat (record r { linest_idx = r.checked_idx }) r.linest_idx
        elim parsed.result [ no_request ↦ parse_rounds rounds parsed | _ ↦ ok parsed ]
      | line_open ↦ ok r
      | line_waiting_n ↦ ok r
      | line_bad ↦ ok (record r { result = bad_request })
    ]

round-same :
    (rounds : ℕ)
    → ((m : ReqStatMach) → parse_rounds rounds (parser m) ≡ parser_of (parse_lines rounds m))
    → (stat : LineStat) (m : ReqStatMach)
    → parser_round rounds (stat, parser m) ≡ parser_of (round_of rounds (stat, m))
round-same rounds again line_ok m = line_ok-same rounds again (record m { lastline_stat = line_ok })
round-same rounds again line_open m = refl
round-same rounds again line_waiting_n m = refl
round-same rounds again line_bad m = refl

parse_rounds-same :
    (rounds : ℕ) (m : ReqStatMach)
    → parse_rounds rounds (parser m) ≡ parser_of (parse_lines rounds m)
unfolding parse_rounds parse_lines
parse_rounds-same zero m = refl
parse_rounds-same (suc rounds) m = rw (check_one_line-same m) (
    bind_assoc (Line.check_one_line m) _ (parser_round rounds)
    ∙ parser_of-bind (Line.check_one_line m) (round_of rounds) _
        (λ checked. round-same rounds (parse_rounds-same rounds) checked.0 checked.1))

-- On the same bytes, indices and states, ParseBatch and the class's `parse_batch` return alike: the
-- same bytes, indices, states and result, or the same fault.
pub parse_batch-same : (m : ReqStatMach) → parse_batch (parser m) ≡ parser_of (Batch.parse_batch m)
unfolding parse_batch Batch.parse_batch
parse_batch-same m = parse_rounds-same (suc (m.read_idx - m.linest_idx)) m
