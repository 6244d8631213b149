-- ===== src/Examples/Blocking/Serve.antt =====
-- A client of examples/framework-intro/handle_http_request.cc against `process` of
-- src/ReqStatMach.h, with a `recv` that never has the caller try again.
use simple_http_serv.Prelude.{
  ℕ, zero, suc, ◌+◌, ◌-◌, ◌≡◌, ◌≢◌, refl, ap, [], ◌∷◌, Run, ok, fault, Fault, out_of_bounds,
  null_deref, dangling, underflow, assert_failed, no_fuel, ◌>>=◌,
}
use simple_http_serv.Sys.{Recv, eagain, eintr, ebadf, other, Received, failed, bytes}
use simple_http_serv.ReqStatMach.State.{
  ResultCode, no_request, got_request, done_recv, bad_request, internal_error, recvbuf_size,
  ReqStatMach,
}
use simple_http_serv.ReqStatMach.Batch.{received}
use simple_http_serv.ReqStatMach.Batch
use simple_http_serv.ReqStatMach.Process.{on_received, recv_loop}
use simple_http_serv.ReqStatMach.Process.Loop.{loop_undecided, loop_decided}
use simple_http_serv.Examples.Blocking.{ReqParser, recv_and_parse, recv_client}
use simple_http_serv.Examples.Blocking.Same.{parser, parser_of, parse_batch-same}

-- Any failure is for good.
abbrev pub settled : Received → Received
settled (failed eagain) = failed other
settled (failed e) = failed e
settled (bytes bs) = bytes bs

abbrev pub settled_recv : Recv → Recv
settled_recv recv round fd len = settled (recv round fd len)

abbrev pub Agrees : Run ReqStatMach → Run ReqParser → Type 0
Agrees (ok m) y = y ≡ ok (parser m)
Agrees (fault no_fuel) y = Unit
Agrees (fault f) y = y ≡ fault f

fault-Agrees : (f : Fault) → Agrees (fault f) (fault f)
fault-Agrees out_of_bounds = refl
fault-Agrees null_deref = refl
fault-Agrees dangling = refl
fault-Agrees underflow = refl
fault-Agrees assert_failed = refl
fault-Agrees no_fuel = tt

Agrees-then :
    (x : Run ReqStatMach) (f : ReqStatMach → Run ReqStatMach) (g : ReqParser → Run ReqParser)
    → ((m : ReqStatMach) → Agrees (f m) (g (parser m)))
    → Agrees (x >>= f) (parser_of x >>= g)
Agrees-then (ok m) f g a = a m
Agrees-then (fault e) f g a = fault-Agrees e

module _ (recv : Recv) (rounds round : ℕ) (r : ReqParser) where
  abbrev client_body : ResultCode → Run ReqParser
  client_body res = elim res [
    | no_request ↦ do
      r' ← recv_and_parse (recv round r.req_sockfd (recvbuf_size - r.read_idx)) r
      recv_client recv rounds (round + 1) r'
    | _ ↦ ok r
  ]

  client_undecided :
      r.result ≡ no_request
      → recv_client recv (suc rounds) round r ≡ (do
        r' ← recv_and_parse (recv round r.req_sockfd (recvbuf_size - r.read_idx)) r
        recv_client recv rounds (round + 1) r')
  unfolding recv_client
  client_undecided e = ap client_body e

  body_decided : (res : ResultCode) → res ≢ no_request → client_body res ≡ ok r
  body_decided no_request h = absurd (h refl)
  body_decided _ h = refl

  client_decided : r.result ≢ no_request → recv_client recv (suc rounds) round r ≡ ok r
  unfolding recv_client
  client_decided h = body_decided r.result h

module _ (recv : Recv) (rounds : ℕ)
    (again : (round : ℕ) (m : ReqStatMach)
      → Agrees
          (recv_loop (settled_recv recv) rounds round m)
          (recv_client recv (suc rounds) round (parser m))) where
  answer-Agrees :
      (round : ℕ) (m : ReqStatMach) (a : Received)
      → Agrees
          (on_received (recv_loop (settled_recv recv) rounds (round + 1)) m (settled a))
          (recv_and_parse a (parser m) >>= recv_client recv (suc rounds) (round + 1))
  unfolding on_received recv_and_parse
  answer-Agrees round m (failed eagain) = client_decided recv rounds (round + 1) _ (λ e. cc)
  answer-Agrees round m (failed eintr) = client_decided recv rounds (round + 1) _ (λ e. cc)
  answer-Agrees round m (failed ebadf) = client_decided recv rounds (round + 1) _ (λ e. cc)
  answer-Agrees round m (failed other) = client_decided recv rounds (round + 1) _ (λ e. cc)
  answer-Agrees round m (bytes []) = client_decided recv rounds (round + 1) _ (λ e. cc)
  answer-Agrees round m (bytes (c ∷ cs)) =
      rw (parse_batch-same (received m (c ∷ cs)))
        (Agrees-then (Batch.parse_batch (received m (c ∷ cs))) _ _ (again (round + 1)))

  decided-Agrees :
      (round : ℕ) (m : ReqStatMach)
      → m.result ≢ no_request
      → Agrees
          (recv_loop (settled_recv recv) (suc rounds) round m)
          (recv_client recv (suc (suc rounds)) round (parser m))
  decided-Agrees round m h =
      rw (loop_decided (settled_recv recv) rounds round m h)
        (client_decided recv (suc rounds) round (parser m) h)

  round-Agrees :
      (round : ℕ) (m : ReqStatMach) (res : ResultCode)
      → m.result ≡ res
      → Agrees
          (recv_loop (settled_recv recv) (suc rounds) round m)
          (recv_client recv (suc (suc rounds)) round (parser m))
  round-Agrees round m no_request e =
      rw
        (
          loop_undecided (settled_recv recv) rounds round m e,
          client_undecided recv (suc rounds) round (parser m) e,
        )
        (answer-Agrees round m (recv round m.sockfd (recvbuf_size - m.read_idx)))
  round-Agrees round m got_request e = decided-Agrees round m (λ n. cc)
  round-Agrees round m done_recv e = decided-Agrees round m (λ n. cc)
  round-Agrees round m bad_request e = decided-Agrees round m (λ n. cc)
  round-Agrees round m internal_error e = decided-Agrees round m (λ n. cc)

-- Where the class's loop ends within `rounds` rounds, the blocking loop leaves the same, within one more.
pub recv_client-Agrees :
    (recv : Recv) (rounds round : ℕ) (m : ReqStatMach)
    → Agrees
        (recv_loop (settled_recv recv) rounds round m)
        (recv_client recv (suc rounds) round (parser m))
unfolding recv_loop
recv_client-Agrees recv zero round m = tt
recv_client-Agrees recv (suc rounds) round m =
    round-Agrees recv rounds (recv_client-Agrees recv rounds) round m m.result refl
