-- ===== src/ReqStatMach/Tests.antt =====
-- Runs of the machine of src/ReqStatMach.h, and its theorems at concrete requests.
use simple_http_serv.Prelude.{
  ℕ, ◌≡◌, ◌↔◌, refl, List, [], ◌∷◌, ◌++◌, none, some, arith, leb, if◌then◌else◌, length, get_elem?,
  ok, fault, null_deref, false, map,
}
use simple_http_serv.Prelude.Int.{pos, minus_one, eq_ℤ}
use simple_http_serv.Sys.{
  Recv, SockAddr, writev, epoll_del, close, eagain, ebadf, other, failed, bytes,
}
use simple_http_serv.Text.{cut, codes, cr, lf, lower}
use simple_http_serv.Prelude.{Bool, true, false, ◌==◌, Run}
use simple_http_serv.ReqStatMach.State.{Buf, LineStat, line_ok, line_waiting_n, peek, poke}
use simple_http_serv.ReqStatMach.Line.{check_one_line}
use simple_http_serv.ReqStatMach.State.{
  reqline, header, no_request, got_request, internal_error, ReqStatMach, init,
}
use simple_http_serv.ReqStatMach.Request.{parse_requesturi}
use simple_http_serv.ReqStatMach.Request.Grammar.{IsAccepted, IsAccepted-iff, crash_iff}
use simple_http_serv.ReqStatMach.Stream.{start, end_of_line, feeds}
use simple_http_serv.ReqStatMach.Stream.Requests.{Request, IsRequest}
use simple_http_serv.ReqStatMach.Stream.Splits.{AreJoined, join}
use simple_http_serv.ReqStatMach.Respond.{response}
use simple_http_serv.ReqStatMach.Batch.{parse_batch, received}
use simple_http_serv.ReqStatMach.Batch.Invariant.{Refines}
use simple_http_serv.ReqStatMach.Batch.Refine.{parse_batch-Refines}
use simple_http_serv.ReqStatMach.Batch.Handled.{IsSafe}
use simple_http_serv.ReqStatMach.Batch.Safety.{parse_batch-IsSafe}
use simple_http_serv.ReqStatMach.Process.{process}
use simple_http_serv.ReqStatMach.Process.Safety.{RecvFits, init-IsSound}
use simple_http_serv.ReqStatMach.Process.Delivery.{
  Delivers, Carries, verdict, init-Follows, process-verdict,
}
use simple_http_serv.ReqStatMach.Process.Answers.{process_request, partial_request_dropped}

-- A kernel that hands over these batches one by one, and then has no more data; it refuses -1.
abbrev batches_recv : List (List ℕ) → Recv
batches_recv bs round fd len = elim (get_elem? bs round) [
  | none ↦ failed eagain
  | some b ↦ if leb (length b) len then bytes b else failed other
]

batches-RecvFits : (bs : List (List ℕ)) → RecvFits (batches_recv bs)
batches-RecvFits bs round fd len b e = ground arith

abbrev request_line : List ℕ
request_line = codes "GET / HTTP/1.1"

abbrev request : Request
request = record { line = request_line; headers = codes "Host: tom" ∷ [] }

-- The request, with the first line end split between two batches.
abbrev batches : List (List ℕ)
batches =
    (codes "GET / HTTP/1.1" ++ cr ∷ []) ∷ (lf ∷ (codes "Host: tom" ++ cr ∷ lf ∷ cr ∷ lf ∷ [])) ∷ []

abbrev addr : SockAddr
addr = record { sin_addr = 0x7f00_0001; sin_port = 40000 }

abbrev machine : ReqStatMach
machine = init (pos 4) (pos 7) addr

response_lem :
    response
    ≡ codes "HTTP/1.1 200 OK"
      ++ cr
        ∷ lf
        ∷ (codes "Content-Length: 27"
            ++ cr ∷ lf ∷ cr ∷ lf ∷ (codes "Hello from Tom HTTP Server" ++ lf ∷ []))
unfolding response
response_lem = refl

request-IsRequest : IsRequest request
unfolding parse_requesturi
request-IsRequest = record { plain = ground arith; accepted = refl; headers = ground arith }

request_line_accepted : parse_requesturi request_line ≡ ok no_request
unfolding parse_requesturi
request_line_accepted = refl

IsAccepted-iff_example : (parse_requesturi request_line ≡ ok no_request) ↔ IsAccepted request_line
IsAccepted-iff_example = IsAccepted-iff request_line

crash_iff_example :
    (parse_requesturi (codes "gEt") ≡ fault null_deref)
    ↔ (map lower (codes "gEt") ≡ map lower (codes "GET"))
crash_iff_example = crash_iff (codes "gEt")

-- No method at all is taken for GET.
no_method_accepted : parse_requesturi (codes " / HTTP/1.1") ≡ ok no_request
unfolding parse_requesturi
no_method_accepted = refl

batches-AreJoined : AreJoined start batches
unfolding feeds parse_requesturi
batches-AreJoined = (tt, (refl, tt))

batches-Delivers : Delivers (batches_recv batches) 0 (pos 7) 0 batches (failed eagain)
batches-Delivers = (refl, (refl, refl))

process-verdict_example :
    Carries machine
      (verdict (feeds start (join batches)) (failed eagain))
      (process (batches_recv batches) machine)
process-verdict_example =
    process-verdict (batches_recv batches) (pos 4) (pos 7) addr batches (failed eagain)
      (batches-RecvFits batches) tt batches-Delivers batches-AreJoined

process_request_example :
    (m' : ReqStatMach) × (process (batches_recv batches) machine
      ≡ ok (m', writev (pos 7) response ∷ epoll_del (pos 4) (pos 7) ∷ close (pos 7) ∷ []))
    × (m'.result ≡ got_request)
    × (m'.sockfd ≡ minus_one)
    × (m'.epollfd ≡ pos 4)
process_request_example =
    process_request (batches_recv batches) (pos 4) (pos 7) addr request batches (failed eagain)
      (batches-RecvFits batches) tt batches-Delivers request-IsRequest ((λ e. cc), ((λ e. cc), tt))
      refl

-- The first line only.
abbrev part : List ℕ
part = request_line ++ cr ∷ lf ∷ []

abbrev refusing : Recv
refusing round fd len = if eq_ℤ fd minus_one then failed ebadf else failed eagain

partial_request_dropped_example :
    (m' : ReqStatMach) × (m'' : ReqStatMach) × (process (batches_recv (part ∷ [])) machine
      ≡ ok (m', []))
    × (process refusing m' ≡ ok (m'', epoll_del (pos 4) minus_one ∷ close minus_one ∷ []))
    × (m''.result ≡ internal_error)
unfolding feeds parse_requesturi end_of_line cut
partial_request_dropped_example =
    partial_request_dropped (batches_recv (part ∷ [])) refusing (pos 4) (pos 7) addr (part ∷ [])
      header [] false (batches-RecvFits (part ∷ [])) (refl, refl) (tt, tt) refl (λ round len. refl)

parse_batch-Refines_example :
    Refines (feeds start request_line) (parse_batch (received machine request_line))
unfolding init
parse_batch-Refines_example =
    parse_batch-Refines reqline [] false machine request_line (init-Follows (pos 4) (pos 7) addr) tt
      (omega arith)

parse_batch-IsSafe_example :
    IsSafe (received machine request_line) (parse_batch (received machine request_line))
unfolding init
parse_batch-IsSafe_example =
    parse_batch-IsSafe machine request_line (init-IsSound (pos 4) (pos 7) addr) (omega arith)

-- `a`, a carriage return that ended a batch, then `b` and a line feed: the wait for the line feed is
-- not over when `b` has come, and the line is taken for complete.
abbrev bare_lf : Buf
bare_lf i = if i == 0 then b'a' else if i == 1 then cr else if i == 2 then b'b' else lf

abbrev has_stat : LineStat → Run (LineStat × ReqStatMach) → Bool
has_stat line_ok (ok (line_ok, m)) = true
has_stat _ _ = false

bare_lf_accepted :
    has_stat line_ok (
      check_one_line (record machine {
        recvbuf = bare_lf;
        read_idx = 4;
        checked_idx = 1;
        lastline_stat = line_waiting_n;
      }))
    ≡ true
unfolding check_one_line init peek poke
bare_lf_accepted = refl
