-- ===== src/Examples/Blocking/Tests.antt =====
-- Requests to the server of examples/framework-intro/handle_http_request.cc.
use simple_http_serv.Prelude.{
  ℕ, ◌≡◌, refl, List, [], ◌∷◌, ◌++◌, none, some, arith, leb, if◌then◌else◌, length, get_elem?, ok,
  ◌>>=◌, none_left, both,
}
use simple_http_serv.Prelude.Int.{pos, minus_one}
use simple_http_serv.Sys.{Recv, writev, close, other, failed, bytes, Accepted, refused, accepted}
use simple_http_serv.Text.{codes, cr, lf}
use simple_http_serv.ReqStatMach.State.{ReqStatMach, init}
use simple_http_serv.ReqStatMach.Request.{parse_requesturi}
use simple_http_serv.ReqStatMach.Stream.{start, feeds}
use simple_http_serv.ReqStatMach.Stream.Requests.{Request, IsRequest}
use simple_http_serv.ReqStatMach.Stream.Splits.{AreJoined, join}
use simple_http_serv.ReqStatMach.Batch
use simple_http_serv.ReqStatMach.Batch.{received}
use simple_http_serv.ReqStatMach.Process.Safety.{RecvFits}
use simple_http_serv.ReqStatMach.Process.Delivery.{verdict}
use simple_http_serv.Examples.Blocking.{hello_http, parse_batch, serve_client, serve_clients}
use simple_http_serv.Examples.Blocking.Same.{parser, parser_of, parse_batch-same}
use simple_http_serv.Examples.Blocking.Serve.{settled}
use simple_http_serv.Examples.Blocking.Client.{farewell, serve_client-verdict, serve_client-request}
use simple_http_serv.Examples.Blocking.Clients.{AllServed, taken, serve_clients-AllServed}

abbrev batches_recv : List (List ℕ) → Recv
batches_recv bs round fd len = elim (get_elem? bs round) [
  | none ↦ bytes []
  | some b ↦ if leb (length b) len then bytes b else failed other
]

batches-RecvFits : (bs : List (List ℕ)) → RecvFits (batches_recv bs)
batches-RecvFits bs round fd len b e = ground arith

abbrev request : Request
request = record { line = codes "GET / HTTP/1.1"; headers = codes "Host: tom" ∷ [] }

-- The request, with the first line end split between two batches.
abbrev batches : List (List ℕ)
batches =
    (codes "GET / HTTP/1.1" ++ cr ∷ []) ∷ (lf ∷ (codes "Host: tom" ++ cr ∷ lf ∷ cr ∷ lf ∷ [])) ∷ []

abbrev machine : ReqStatMach
machine =
    received (init minus_one (pos 7) (record { sin_addr = 0; sin_port = 0 }))
      (codes "GET / HTTP/1.1" ++ cr ∷ lf ∷ [])

request-IsRequest : IsRequest request
unfolding parse_requesturi
request-IsRequest = record { plain = ground arith; accepted = refl; headers = ground arith }

batches-AreJoined : AreJoined start batches
unfolding feeds parse_requesturi
batches-AreJoined = (tt, (refl, tt))

parse_batch-same_example : parse_batch (parser machine) ≡ parser_of (Batch.parse_batch machine)
parse_batch-same_example = parse_batch-same machine

serve_client-verdict_example :
    serve_client (batches_recv batches) (pos 7)
    ≡ (verdict (feeds start (join batches)) (settled (bytes [])) >>= farewell (pos 7))
serve_client-verdict_example =
    serve_client-verdict (batches_recv batches) (pos 7) batches (bytes [])
      (batches-RecvFits batches) tt (refl, (refl, refl)) batches-AreJoined

serve_client-request_example :
    serve_client (batches_recv batches) (pos 7)
    ≡ ok (writev (pos 7) hello_http ∷ close (pos 7) ∷ [])
serve_client-request_example =
    serve_client-request (batches_recv batches) (pos 7) request batches (bytes [])
      (batches-RecvFits batches) tt (refl, (refl, refl)) request-IsRequest
      ((λ e. cc), ((λ e. cc), tt)) refl

-- Two clients, and then no more descriptors.
abbrev clients : List (Accepted × Recv)
clients =
    (accepted 7 (record { sin_addr = 0; sin_port = 40000 }), batches_recv batches)
    ∷ (accepted 7 (record { sin_addr = 0; sin_port = 40001 }), batches_recv [])
    ∷ (refused other, batches_recv [])
    ∷ []

serve_clients-AllServed_example : AllServed (taken clients) (serve_clients clients)
serve_clients-AllServed_example = serve_clients-AllServed clients (
    both (batches-RecvFits batches)
      (both (batches-RecvFits []) (both (batches-RecvFits []) none_left)))
