-- ===== src/Examples/RespondHttp/Tests.antt =====
-- The theorem on respond_http.cc at a concrete input.
use simple_http_serv.Prelude.{◌≡◌, refl, [], ◌∷◌}
use simple_http_serv.Prelude.Int.{pos}
use simple_http_serv.Sys.{writev, close, refused, eintr, SockAddr}
use simple_http_serv.ReqStatMach.Respond.{response}
use simple_http_serv.Examples.RespondHttp.{returned, main}
use simple_http_serv.Examples.RespondHttp.Clients.{connects, turns, sigterm_came, main-answers}

abbrev addr : SockAddr
addr = record { sin_addr = 1; sin_port = 80 }

main-answers_example :
    main
      (pos 3)
      (pos 0)
      (pos 0)
      (connects ((4, addr) ∷ (5, addr) ∷ []) (turns (sigterm_came (refused eintr) [])))
    ≡ (
      returned,
      writev (pos 4) response
          ∷ close (pos 4)
          ∷ writev (pos 5) response
          ∷ close (pos 5)
          ∷ close (pos 3)
          ∷ [],
    )
main-answers_example =
    main-answers (pos 3) (pos 0) (pos 0) ((4, addr) ∷ (5, addr) ∷ [])
      (sigterm_came (refused eintr) []) refl
