-- ===== src/ReqStatMach/Process/Answers.antt =====
-- Whole requests through `process` of src/ReqStatMach.h.
use simple_http_serv.Prelude.{
  ℕ, ◌-◌, ◌≡◌, refl, sym, ap, subst, ◌∙◌, Bool, false, List, [], ◌∷◌, ◌++◌, arith, ok, ◌==◌,
}
use mathlib.Core.List.{append-nil}
use simple_http_serv.Prelude.Int.{ℤ, minus_one}
use simple_http_serv.Sys.{Recv, SockAddr, writev, epoll_del, close, eagain, ebadf, Received, failed}
use simple_http_serv.Text.{cr}
use simple_http_serv.ReqStatMach.State.{
  CheckStat, no_request, got_request, internal_error, recvbuf_size, ReqStatMach, init,
}
use simple_http_serv.ReqStatMach.Stream.{running, done, start, feeds}
use simple_http_serv.ReqStatMach.Stream.Requests.{
  IsPlain, Request, AreHeaders, IsRequest, render_headers, render, feeds_request,
}
use simple_http_serv.ReqStatMach.Stream.Splits.{
  AreJoined, join, AllNonempty, IsPaired, paired-AreJoined,
}
use simple_http_serv.ReqStatMach.Respond.{response}
use simple_http_serv.ReqStatMach.Process.{on_received, conclude, process}
use simple_http_serv.ReqStatMach.Process.Loop.{loop_undecided}
use simple_http_serv.ReqStatMach.Process.Safety.{RecvFits}
use simple_http_serv.ReqStatMach.Process.Delivery.{
  Delivers, IsEnd, verdict, Carries, process-verdict,
}

plain-IsPaired : (t rest : List ℕ) → IsPlain t → IsPaired false rest → IsPaired false (t ++ rest)
plain-IsPaired [] rest p h = h
plain-IsPaired (c ∷ cs) rest (a, b, z, p) h =
    let off : (c == cr) ≡ false = ground arith in rw (IsPaired, off) (plain-IsPaired cs rest p h)

headers-IsPaired : (hs : List (List ℕ)) → AreHeaders hs → IsPaired false (render_headers hs)
headers-IsPaired [] v = (refl, tt)
headers-IsPaired (h ∷ hs) (p, ne, v) = plain-IsPaired h _ p (refl, headers-IsPaired hs v)

pub render-IsPaired : (q : Request) → IsRequest q → IsPaired false (render q)
render-IsPaired q v = plain-IsPaired q.line _ v.plain (refl, headers-IsPaired q.headers v.headers)

-- A well-formed request that arrives within one call of `process`, in any nonempty batches that
-- fit the buffer, is answered once: the response goes to the accepted descriptor, which is then
-- taken out of the epoll set and closed. `last` is what `recv` would answer next.
pub process_request :
    (recv : Recv) (epollfd sockfd : ℤ) (addr : SockAddr) (q : Request) (bs : List (List ℕ))
    (last : Received)
    → RecvFits recv
    → IsEnd last
    → Delivers recv 0 sockfd 0 bs last
    → IsRequest q
    → AllNonempty bs
    → join bs ≡ render q
    → (m' : ReqStatMach) × (process recv (init epollfd sockfd addr)
        ≡ ok (m', writev sockfd response ∷ epoll_del epollfd sockfd ∷ close sockfd ∷ []))
      × (m'.result ≡ got_request)
      × (m'.sockfd ≡ minus_one)
      × (m'.epollfd ≡ epollfd)
unfolding init conclude
process_request recv epollfd sockfd addr q bs last fits end dl v ne e =
    let joined : AreJoined start bs =
      paired-AreJoined bs ne (subst (IsPaired false) (sym e) (render-IsPaired q v)) in
    let got : feeds start (join bs) ≡ done got_request =
      ap (feeds start) (e ∙ sym (append-nil (render q))) ∙ feeds_request q [] v in
    subst
      (λ p.
        Carries (init epollfd sockfd addr) (verdict p last)
          (process recv (init epollfd sockfd addr)))
      got (process-verdict recv epollfd sockfd addr bs last fits end dl joined)

module _ (recv : Recv) (epollfd sockfd : ℤ) (addr : SockAddr) (bs : List (List ℕ)) (cs : CheckStat)
    (text : List ℕ) (held : Bool) (fits : RecvFits recv)
    (dl : Delivers recv 0 sockfd 0 bs (failed eagain)) (joined : AreJoined start bs)
    (partial : feeds start (join bs) ≡ running cs text held) where
  -- The first call, on the part of a request that has arrived.
  first_call :
      (m' : ReqStatMach) × (process recv (init epollfd sockfd addr) ≡ ok (m', []))
      × (m'.result ≡ no_request)
      × (m'.sockfd ≡ minus_one)
      × (m'.epollfd ≡ epollfd)
  unfolding init conclude
  first_call =
      subst
        (λ p.
          Carries (init epollfd sockfd addr) (verdict p (failed eagain))
            (process recv (init epollfd sockfd addr)))
        partial (process-verdict recv epollfd sockfd addr bs (failed eagain) fits tt dl joined)

-- A call on the descriptor -1 that `process` leaves behind.
second_call :
    (recv : Recv) (m : ReqStatMach)
    → m.result ≡ no_request
    → m.sockfd ≡ minus_one
    → ((round len : ℕ) → recv round minus_one len ≡ failed ebadf)
    → (m' : ReqStatMach) × (process recv m
        ≡ ok (m', epoll_del m.epollfd minus_one ∷ close minus_one ∷ []))
      × (m'.result ≡ internal_error)
unfolding process on_received conclude
second_call recv m e s bad =
    let answer : recv 0 m.sockfd (recvbuf_size - m.read_idx) ≡ failed ebadf =
      ap (λ fd. recv 0 fd (recvbuf_size - m.read_idx)) s ∙ bad 0 _ in
    (
      record m { result = internal_error; sockfd = minus_one },
      rw (loop_undecided recv (recvbuf_size - m.read_idx) 0 m e, answer)
          (ap
            (λ fd. ok (
              record m { result = internal_error; sockfd = minus_one },
              epoll_del m.epollfd fd ∷ close fd ∷ [],
            ))
            s),
      refl,
    )

-- A request that has arrived only in part when `recv` has no more data: the call asks nothing of
-- the kernel and gives up the descriptor, so that the next call (whose `recv` refuses the
-- descriptor -1) fails, and takes out of the epoll set and closes -1. Neither call answers or
-- closes the accepted connection, whatever the rest of the request was.
pub partial_request_dropped :
    (recv next_recv : Recv) (epollfd sockfd : ℤ) (addr : SockAddr) (bs : List (List ℕ))
    (cs : CheckStat) (text : List ℕ) (held : Bool)
    → RecvFits recv
    → Delivers recv 0 sockfd 0 bs (failed eagain)
    → AreJoined start bs
    → feeds start (join bs) ≡ running cs text held
    → ((round len : ℕ) → next_recv round minus_one len ≡ failed ebadf)
    → (m' : ReqStatMach) × (m'' : ReqStatMach) × (process recv (init epollfd sockfd addr)
        ≡ ok (m', []))
      × (process next_recv m' ≡ ok (m'', epoll_del epollfd minus_one ∷ close minus_one ∷ []))
      × (m''.result ≡ internal_error)
partial_request_dropped recv next_recv epollfd sockfd addr bs cs text held fits dl j p bad =
    let (m', runs, r, s, e) = first_call recv epollfd sockfd addr bs cs text held fits dl j p in
    let (m'', runs', r') = second_call next_recv m' r s bad in
    (
      m',
      m'',
      runs,
      runs' ∙ ap (λ ep. ok (m'', epoll_del ep minus_one ∷ close minus_one ∷ [])) e,
      r',
    )
