-- ===== src/Examples/Blocking/Client.antt =====
-- What a client of examples/framework-intro/handle_http_request.cc is answered.
use mathlib.Core.List.{append-nil}
use simple_http_serv.Prelude.{
  ℕ, suc, ◌+◌, ◌≡◌, refl, ap, sym, subst, ◌∙◌, List, [], ◌∷◌, ◌++◌, Run, ok, fault, null_deref,
  ◌>>=◌, arith, false, length,
}
use simple_http_serv.Prelude.Int.{ℤ, minus_one}
use simple_http_serv.Sys.{
  Recv, SockAddr, Action, writev, close, eagain, eintr, ebadf, other, Received, failed, bytes,
}
use simple_http_serv.ReqStatMach.State.{
  reqline, ResultCode, no_request, got_request, done_recv, bad_request, internal_error,
  recvbuf_size, ReqStatMach, init,
}
use simple_http_serv.ReqStatMach.Stream.{start, feeds, done}
use simple_http_serv.ReqStatMach.Stream.Requests.{Request, IsRequest, render, feeds_request}
use simple_http_serv.ReqStatMach.Stream.Splits.{
  AreJoined, join, AllNonempty, IsPaired, paired-AreJoined,
}
use simple_http_serv.ReqStatMach.Process.{recv_loop}
use simple_http_serv.ReqStatMach.Process.Safety.{RecvFits, IsKept, loop-IsKept, init-IsSound}
use simple_http_serv.ReqStatMach.Process.Answers.{render-IsPaired}
use simple_http_serv.ReqStatMach.Process.Delivery.{
  Delivers, IsEnd, verdict, Concludes, loop-Concludes, init-Follows,
}
use simple_http_serv.Examples.Blocking.{
  ReqParser, new_parser, recv_client, hello_http, respond, serve_client,
}
use simple_http_serv.Examples.Blocking.Same.{parser}
use simple_http_serv.Examples.Blocking.Serve.{settled, settled_recv, Agrees, recv_client-Agrees}

settled_answer : (a : Received) (bs : List ℕ) → settled a ≡ bytes bs → a ≡ bytes bs
settled_answer (failed eagain) bs e = cc
settled_answer (failed eintr) bs e = cc
settled_answer (failed ebadf) bs e = cc
settled_answer (failed other) bs e = cc
settled_answer (bytes cs) bs e = e

settled-RecvFits : (recv : Recv) → RecvFits recv → RecvFits (settled_recv recv)
settled-RecvFits recv fits round fd len bs e =
    fits round fd len bs (settled_answer (recv round fd len) bs e)

settled-Delivers :
    (recv : Recv) (round : ℕ) (fd : ℤ) (used : ℕ) (bs : List (List ℕ)) (last : Received)
    → Delivers recv round fd used bs last
    → Delivers (settled_recv recv) round fd used bs (settled last)
settled-Delivers recv round fd used [] last d = ap settled d
settled-Delivers recv round fd used (b ∷ bs) last (d, ds) =
    (ap settled d, settled-Delivers recv (round + 1) fd (used + length b) bs last ds)

settled-IsEnd : (last : Received) → IsEnd last → IsEnd (settled last)
settled-IsEnd (failed eagain) e = tt
settled-IsEnd (failed eintr) e = tt
settled-IsEnd (failed ebadf) e = tt
settled-IsEnd (failed other) e = tt
settled-IsEnd (bytes []) e = tt
settled-IsEnd (bytes (c ∷ cs)) e = e

-- What is asked of the kernel once the result is there.
abbrev pub farewell : (peer_sockfd : ℤ) → ResultCode → Run (List Action)
farewell peer_sockfd r = ok (respond r peer_sockfd ++ close peer_sockfd ∷ [])

any_addr : SockAddr
any_addr = record { sin_addr = 0; sin_port = 0 }

module _ (recv : Recv) (peer_sockfd : ℤ) where
  abbrev entered : ReqStatMach
  entered = init minus_one peer_sockfd any_addr

  abbrev class_loop : Run ReqStatMach
  class_loop = recv_loop (settled_recv recv) (suc recvbuf_size) 0 entered

  abbrev client_loop : Run ReqParser
  client_loop = recv_client recv (suc (suc recvbuf_size)) 0 (new_parser peer_sockfd)

  loop-Agrees : Agrees class_loop client_loop
  unfolding init
  loop-Agrees = recv_client-Agrees recv (suc recvbuf_size) 0 entered

  decided-farewell :
      (v : Run ResultCode) (run : Run ReqStatMach) (y : Run ReqParser)
      → Concludes entered v run
      → IsKept entered run
      → Agrees run y
      → (y >>= λ r. farewell peer_sockfd r.result) ≡ (v >>= farewell peer_sockfd)
  decided-farewell (ok r) run y d k a =
      let left : y ≡ ok (parser d.last) = subst (λ x. Agrees x y) d.returns a in
      rw left (ap (farewell peer_sockfd) d.result)
  decided-farewell (fault f) run y c k a =
      let null : f ≡ null_deref = subst (IsKept entered) c k in
      let stopped : y ≡ fault null_deref = subst (λ x. Agrees x y) (c ∙ ap fault null) a in
      rw (stopped, null) refl

-- When `recv` stores no more than there is room for, hands over these batches and then fails or
-- reports the end of the stream, and when no batch is empty and none begins behind a carriage return
-- with a byte other than a line feed: the client gets the verdict of the byte-at-a-time reading of all
-- batches, the response where that is a request and nothing else otherwise, and its socket is closed
-- behind it. A reading that crashes is the crash of the server. A `recv` that would have to be tried
-- again counts as a failure.
pub serve_client-verdict :
    (recv : Recv) (peer_sockfd : ℤ) (bs : List (List ℕ)) (last : Received)
    → RecvFits recv
    → IsEnd last
    → Delivers recv 0 peer_sockfd 0 bs last
    → AreJoined start bs
    → serve_client recv peer_sockfd
      ≡ (verdict (feeds start (join bs)) (settled last) >>= farewell peer_sockfd)
unfolding serve_client
serve_client-verdict recv peer_sockfd bs last fits end dl j =
    let fits' = settled-RecvFits recv fits in
    decided-farewell recv peer_sockfd _ (class_loop recv peer_sockfd) (client_loop recv peer_sockfd)
      (unfold init in
        loop-Concludes (settled_recv recv) fits' (settled last) (settled-IsEnd last end) bs
          (suc recvbuf_size) 0 (entered recv peer_sockfd) reqline [] false
          (init-Follows minus_one peer_sockfd any_addr)
          (init-IsSound minus_one peer_sockfd any_addr)
          (settled-Delivers recv 0 peer_sockfd 0 bs last dl) j (omega arith))
      (unfold init in
        loop-IsKept (settled_recv recv) fits' (suc recvbuf_size) 0 (entered recv peer_sockfd)
          no_request refl (init-IsSound minus_one peer_sockfd any_addr) (omega arith))
      (loop-Agrees recv peer_sockfd)

-- A well-formed request, in any nonempty batches that fit the buffer, is answered once, and the
-- socket is closed behind the answer.
pub serve_client-request :
    (recv : Recv) (peer_sockfd : ℤ) (q : Request) (bs : List (List ℕ)) (last : Received)
    → RecvFits recv
    → IsEnd last
    → Delivers recv 0 peer_sockfd 0 bs last
    → IsRequest q
    → AllNonempty bs
    → join bs ≡ render q
    → serve_client recv peer_sockfd ≡ ok (writev peer_sockfd hello_http ∷ close peer_sockfd ∷ [])
serve_client-request recv peer_sockfd q bs last fits end dl v ne e =
    let joined : AreJoined start bs =
      paired-AreJoined bs ne (subst (IsPaired false) (sym e) (render-IsPaired q v)) in
    let got : feeds start (join bs) ≡ done got_request =
      ap (feeds start) (e ∙ sym (append-nil (render q))) ∙ feeds_request q [] v in
    serve_client-verdict recv peer_sockfd bs last fits end dl joined
    ∙ ap (λ p. verdict p (settled last) >>= farewell peer_sockfd) got

-- What may come of a client: an answer or none, and the socket closed; or the crash.
pub data Served (peer_sockfd : ℤ) : Run (List Action) → Type 0 where
  answered : Served peer_sockfd (ok (writev peer_sockfd hello_http ∷ close peer_sockfd ∷ []))
  dropped : Served peer_sockfd (ok (close peer_sockfd ∷ []))
  crash : Served peer_sockfd (fault null_deref)

farewell-Served : (peer_sockfd : ℤ) (r : ResultCode) → Served peer_sockfd (farewell peer_sockfd r)
farewell-Served peer_sockfd no_request = dropped
farewell-Served peer_sockfd got_request = answered
farewell-Served peer_sockfd done_recv = dropped
farewell-Served peer_sockfd bad_request = dropped
farewell-Served peer_sockfd internal_error = dropped

kept-Served :
    (recv : Recv) (peer_sockfd : ℤ) (run : Run ReqStatMach) (y : Run ReqParser)
    → IsKept (entered recv peer_sockfd) run
    → Agrees run y
    → Served peer_sockfd (y >>= λ r. farewell peer_sockfd r.result)
kept-Served recv peer_sockfd (ok m) y k a = rw a (farewell-Served peer_sockfd m.result)
kept-Served recv peer_sockfd (fault f) y k a =
    let stopped : y ≡ fault null_deref = subst (λ g. Agrees (fault g) y) k a in rw stopped crash

-- Whatever a client sends, when `recv` stores no more than there is room for: the call ends, inside
-- the receive buffer, with at most one answer and the socket closed, or in the null pointer.
pub serve_client-IsServed :
    (recv : Recv)
    → RecvFits recv
    → (peer_sockfd : ℤ) → Served peer_sockfd (serve_client recv peer_sockfd)
unfolding serve_client
serve_client-IsServed recv fits peer_sockfd =
    kept-Served recv peer_sockfd (class_loop recv peer_sockfd) (client_loop recv peer_sockfd)
      (unfold init in
        loop-IsKept (settled_recv recv) (settled-RecvFits recv fits) (suc recvbuf_size) 0
          (entered recv peer_sockfd) no_request refl (init-IsSound minus_one peer_sockfd any_addr)
          (omega arith))
      (loop-Agrees recv peer_sockfd)
