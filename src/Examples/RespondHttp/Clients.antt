-- ===== src/Examples/RespondHttp/Clients.antt =====
-- What the clients of examples/framework-intro/respond_http.cc see.
use simple_http_serv.Prelude.{ℕ, ◌≡◌, refl, ◌∙◌, true, false, List, [], ◌∷◌, ◌||◌, if_false}
use simple_http_serv.Prelude.Int.{ℤ, pos, minus_one, eq_ℤ}
use simple_http_serv.Sys.{SockAddr, Action, writev, close, Errno, Accepted, refused, accepted}
use simple_http_serv.ReqStatMach.Respond.{response, data_buf, head_buf}
use simple_http_serv.Examples.RespondHttp.{
  Exit, returned, exited, running, Turn, hello, on_accept, serve, main,
}

-- The same bytes as `respond_http` of src/ReqStatMach.h writes.
pub hello-response : hello ≡ response
unfolding hello response data_buf head_buf
hello-response = refl

-- Connections, one after another, with no SIGTERM in between.
abbrev pub Peer : Type 0
Peer = ℕ × SockAddr

abbrev pub connects : List Peer → List Turn → List Turn
connects [] rest = rest
connects ((fd, addr) ∷ peers) rest =
    record { term = false; accept = accepted fd addr } ∷ connects peers rest

-- Each connection answered as the class does, and closed before the next.
abbrev pub answers : List Peer → List Action → List Action
answers [] rest = rest
answers ((fd, addr) ∷ peers) rest = writev (pos fd) response ∷ close (pos fd) ∷ answers peers rest

-- How the list of turns goes on behind the connections.
pub data Close : Type 0 where
  still : Close
  sigterm_came : Accepted → List Turn → Close
  accept_failed : Errno → List Turn → Close

abbrev pub turns : Close → List Turn
turns still = []
turns (sigterm_came a ts) = record { term = true; accept = a } ∷ ts
turns (accept_failed e ts) = record { term = false; accept = refused e } ∷ ts

abbrev pub ended : ℤ → Close → Exit × List Action
ended my_sockfd still = (running, [])
ended my_sockfd (sigterm_came a ts) = (returned, close my_sockfd ∷ [])
ended my_sockfd (accept_failed e ts) = (exited, [])

pub serve-answers :
    (my_sockfd : ℤ) (peers : List Peer) (c : Close)
    → serve my_sockfd (connects peers (turns c))
      ≡ ((ended my_sockfd c).0, answers peers (ended my_sockfd c).1)
unfolding serve on_accept
serve-answers my_sockfd [] still = refl
serve-answers my_sockfd [] (sigterm_came a ts) = refl
serve-answers my_sockfd [] (accept_failed e ts) = refl
serve-answers my_sockfd ((fd, addr) ∷ peers) c =
    rw (serve-answers my_sockfd peers c, hello-response)

-- Once the socket listens, any connections before the first SIGTERM or failed `accept` are each
-- answered, with the bytes that the class writes, and closed before the next is accepted. SIGTERM
-- then ends the loop with no more calls but the close of the listening socket; a failed `accept`
-- ends the process with none.
pub main-answers :
    (my_sockfd bind listen : ℤ) (peers : List Peer) (c : Close)
    → (eq_ℤ my_sockfd minus_one || eq_ℤ bind minus_one || eq_ℤ listen minus_one) ≡ false
    → main my_sockfd bind listen (connects peers (turns c))
      ≡ ((ended my_sockfd c).0, answers peers (ended my_sockfd c).1)
unfolding main
main-answers my_sockfd bind listen peers c prepared =
    if_false _ _ prepared ∙ serve-answers my_sockfd peers c
