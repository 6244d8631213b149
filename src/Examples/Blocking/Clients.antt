-- ===== src/Examples/Blocking/Clients.antt =====
-- The loop in `main` of examples/framework-intro/handle_http_request.cc.
use simple_http_serv.Prelude.{
  ◌≡◌, refl, List, [], ◌∷◌, ◌++◌, Run, ok, fault, null_deref, ◌>>=◌, All, both,
}
use simple_http_serv.Prelude.Int.{ℤ, pos}
use simple_http_serv.Sys.{Recv, Action, writev, close, Accepted, refused, accepted}
use simple_http_serv.ReqStatMach.Process.Safety.{RecvFits}
use simple_http_serv.Examples.Blocking.{hello_http, serve_client, serve_clients}
use simple_http_serv.Examples.Blocking.Client.{
  Served, answered, dropped, crash, serve_client-IsServed,
}

-- The descriptors that `accept` returns, up to its first failure.
abbrev pub taken : List (Accepted × Recv) → List ℤ
taken [] = []
taken ((refused e, recv) ∷ cs) = []
taken ((accepted fd addr, recv) ∷ cs) = pos fd ∷ taken cs

-- The sockets, each at most written to and then closed, one client after another.
pub data OneByOne : List ℤ → List Action → Type 0 where
  over : OneByOne [] []
  with_answer :
      (fd : ℤ) (fds : List ℤ) (actions : List Action)
      → OneByOne fds actions
      → OneByOne (fd ∷ fds) (writev fd hello_http ∷ close fd ∷ actions)
  without :
      (fd : ℤ) (fds : List ℤ) (actions : List Action)
      → OneByOne fds actions
      → OneByOne (fd ∷ fds) (close fd ∷ actions)

abbrev pub AllServed : List ℤ → Run (List Action) → Type 0
AllServed fds (ok actions) = OneByOne fds actions
AllServed fds (fault f) = f ≡ null_deref

abbrev pub RoomFits : Accepted × Recv → Type 0
RoomFits (a, recv) = RecvFits recv

then-AllServed :
    (fd : ℤ) (fds : List ℤ) (client rest : Run (List Action))
    → Served fd client
    → AllServed fds rest
    → AllServed (fd ∷ fds) (do actions ← client; more ← rest; ok (actions ++ more))
then-AllServed fd fds _ (ok more) answered h = with_answer fd fds more h
then-AllServed fd fds _ (ok more) dropped h = without fd fds more h
then-AllServed fd fds _ (ok more) crash h = refl
then-AllServed fd fds _ (fault f) answered h = h
then-AllServed fd fds _ (fault f) dropped h = h
then-AllServed fd fds _ (fault f) crash h = refl

-- Whatever the clients send, when no `recv` stores more than there is room for: the server closes
-- each socket that it accepts, each before the next is accepted and with at most one answer, up to
-- the first `accept` that fails; or it ends in the null pointer.
pub serve_clients-AllServed :
    (cs : List (Accepted × Recv)) → All RoomFits cs → AllServed (taken cs) (serve_clients cs)
unfolding serve_clients
serve_clients-AllServed [] fits = over
serve_clients-AllServed ((refused e, recv) ∷ cs) fits = over
serve_clients-AllServed ((accepted fd addr, recv) ∷ cs) (both fit fits) =
    then-AllServed (pos fd) (taken cs) (serve_client recv (pos fd)) (serve_clients cs)
      (serve_client-IsServed recv fit (pos fd)) (serve_clients-AllServed cs fits)
