-- ===== src/ReqStatMach/Process/Loop.antt =====
-- The test of the loop in `process` of src/ReqStatMach.h.
use simple_http_serv.Prelude.{ℕ, suc, ◌+◌, ◌-◌, ◌≡◌, ◌≢◌, refl, ap, Run, ok}
use simple_http_serv.Sys.{Recv}
use simple_http_serv.ReqStatMach.State.{ResultCode, no_request, recvbuf_size, ReqStatMach}
use simple_http_serv.ReqStatMach.Process.{on_received, recv_loop}

module _ (recv : Recv) (rounds round : ℕ) (m : ReqStatMach) where
  abbrev body : ResultCode → Run ReqStatMach
  body r = elim r [
    | no_request ↦
        on_received (recv_loop recv rounds (round + 1)) m
          (recv round m.sockfd (recvbuf_size - m.read_idx))
    | _ ↦ ok m
  ]

  pub loop_undecided :
      m.result ≡ no_request
      → recv_loop recv (suc rounds) round m
        ≡ on_received
            (recv_loop recv rounds (round + 1))
            m
            (recv round m.sockfd (recvbuf_size - m.read_idx))
  unfolding recv_loop
  loop_undecided e = ap body e

  body_decided : (r : ResultCode) → r ≢ no_request → body r ≡ ok m
  body_decided no_request h = absurd (h refl)
  body_decided _ h = refl

  pub loop_decided : m.result ≢ no_request → recv_loop recv (suc rounds) round m ≡ ok m
  unfolding recv_loop
  loop_decided h = body_decided m.result h
