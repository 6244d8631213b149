-- ===== src/Examples/RespondHttp.antt =====
-- The server of examples/framework-intro/respond_http.cc, which answers every connection without
-- reading from it.
pub mod Clients
mod Tests
use simple_http_serv.Prelude.{ℕ, Bool, ◌||◌, List, [], ◌∷◌, ◌++◌, if◌then◌else◌}
use simple_http_serv.Prelude.Int.{ℤ, pos, minus_one, eq_ℤ}
use simple_http_serv.Sys.{Action, writev, close, Accepted, refused, accepted}
use simple_http_serv.Text.{codes, lf}
use simple_http_serv.ReqStatMach.State.{headerbuf_size, databuf_size}
use simple_http_serv.ReqStatMach.Respond.{decimal, snprintf, blank, crlf, iov, response}

-- How the process ends: by the end of main, by `exit` in PrintErrnoAndExist, or it still waits.
pub data Exit : Type 0 where
  returned exited running : Exit

-- `head_buf` and `data_buf`, as `writev` gathers them.
unfoldable pub hello : List ℕ
hello =
    let data_buf = snprintf databuf_size blank (codes "Hello from Tom HTTP Server" ++ lf ∷ []) in
    let status =
      snprintf headerbuf_size blank (codes "HTTP/1.1" ++ 32 ∷ (codes "200 OK" ++ crlf)) in
    let content_length =
      snprintf headerbuf_size status
        (codes "Content-Length: " ++ decimal data_buf.used_len ++ crlf) in
    iov (snprintf headerbuf_size content_length crlf) ++ iov data_buf

-- One round of the loop: whether HandleTERM has set `kStop` by the test, and what `accept` returns.
pub record Turn : Type 0 where
  pub term : Bool
  pub accept : Accepted

-- Behind `accept`; `again` is the rest of the loop.
unfoldable pub on_accept : Accepted → (again : Exit × List Action) → Exit × List Action
on_accept (refused e) again = (exited, [])
on_accept (accepted fd addr) (exit, more) = (exit, writev (pos fd) hello ∷ close (pos fd) ∷ more)

-- `while (!kStop)`, and the `close` behind it.
unfoldable pub serve : (my_sockfd : ℤ) → List Turn → Exit × List Action
serve my_sockfd [] = (running, [])
serve my_sockfd (t ∷ ts) =
    let again = serve my_sockfd ts in
    if t.term then (returned, close my_sockfd ∷ []) else on_accept t.accept again

-- What `socket`, `bind` and `listen` return.
unfoldable pub main : (my_sockfd bind listen : ℤ) → List Turn → Exit × List Action
main my_sockfd bind listen ts =
    if eq_ℤ my_sockfd minus_one || eq_ℤ bind minus_one || eq_ℤ listen minus_one
    then (exited, [])
    else serve my_sockfd ts
