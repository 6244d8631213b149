-- ===== src/Examples/Blocking.antt =====
-- The server of examples/framework-intro/handle_http_request.cc, which reads and answers one client
-- after another and blocks in `recv`. Its enumerations, its buffer and its parser are a copy of those
-- of src/ReqStatMach.h; examples/multitasking/test_block_http_handler.cc is the same file again.
pub mod Same
pub mod Serve
pub mod Client
pub mod Clients
mod Tests
use simple_http_serv.Prelude.{
  ℕ, zero, suc, ◌+◌, ◌-◌, Bool, true, false, Option, none, some, List, [], ◌∷◌, ◌++◌, Run, ok,
  fault, out_of_bounds, null_deref, assert_failed, no_fuel, ◌>>=◌, ◌==◌, ltb, if◌then◌else◌, length,
  drop,
}
use simple_http_serv.Prelude.Int.{ℤ, pos}
use simple_http_serv.Sys.{
  Recv, SockAddr, Action, writev, close, Received, failed, bytes, Accepted, refused, accepted,
}
use simple_http_serv.Text.{codes, cr, lf, strncasecmp_zero, strpbrk_blank}
use simple_http_serv.ReqStatMach.State.{
  LineStat, line_ok, line_open, line_waiting_n, line_bad, CheckStat, reqline, header, entity,
  ResultCode, no_request, got_request, done_recv, bad_request, internal_error, Buf, peek, poke,
  headerbuf_size, databuf_size, recvbuf_size,
}
use simple_http_serv.ReqStatMach.Buffer.{blit, c_string}
use simple_http_serv.ReqStatMach.Respond.{decimal, Filled, snprintf, blank, crlf, iov}

-- `struct ReqStatMach`
pub record ReqParser : Type 0 where
  pub req_sockfd : ℤ
  pub read_idx : ℕ
  pub checked_idx : ℕ
  pub linest_idx : ℕ
  pub recv_buf : Buf
  pub lastline_stat : LineStat
  pub check_stat : CheckStat
  pub result : ResultCode

-- As `main` sets it up behind an `accept`.
abbrev pub new_parser : (peer_sockfd : ℤ) → ReqParser
new_parser peer_sockfd = record {
  req_sockfd = peer_sockfd;
  read_idx = 0;
  checked_idx = 0;
  linest_idx = 0;
  recv_buf = λ _. 0;
  lastline_stat = line_ok;
  check_stat = reqline;
  result = no_request;
}

-- `case '\n'`, with the status of the last line.
pub newline : LineStat → Buf → (checked_idx : ℕ) → Run (LineStat × Buf × ℕ)
newline line_waiting_n buf zero = fault out_of_bounds
newline line_waiting_n buf (suc i) = do
  b ← poke buf i 0
  b' ← poke b (suc i) 0
  ok (line_ok, b', suc i + 1)
newline _ buf i = ok (line_bad, buf, i)

-- The `for` loop, `rounds` of it left.
pub check_from :
    LineStat → (read_idx rounds : ℕ) → Buf → (checked_idx : ℕ) → Run (LineStat × Buf × ℕ)
unfolding newline
check_from last read_idx zero buf i = ok (line_open, buf, i)
check_from last read_idx (suc rounds) buf i =
    let go_on = check_from last read_idx rounds buf (i + 1) in
    do
      c ← peek buf i
      if c == cr
          then (if i + 1 == read_idx then ok (line_waiting_n, buf, i) else do
            next ← peek buf (i + 1)
            if next == lf
                then (do b ← poke buf i 0; b' ← poke b (i + 1) 0; ok (line_ok, b', i + 2))
                else go_on)
          else if c == lf
          then newline last buf i
          else go_on

pub check_one_line : ReqParser → Run (LineStat × ReqParser)
check_one_line r = do
  (stat, buf, i) ←
      check_from r.lastline_stat r.read_idx (r.read_idx - r.checked_idx) r.recv_buf r.checked_idx
  ok (stat, record r { recv_buf = buf; checked_idx = i })

-- As in the class, a null `method_end` is a length that exceeds every string.
pub parse_request_uri : (line : List ℕ) → Run ResultCode
parse_request_uri line =
    let version : List ℕ → ResultCode = λ l.
      if strncasecmp_zero l (codes "HTTP/1.1") (some 8)
      then no_request
      else if strncasecmp_zero l (codes "HTTP/1.0") (some 8)
      then no_request
      else bad_request in
    let uri : List ℕ → ResultCode = λ l. elim (strpbrk_blank l) [
      | none ↦ bad_request
      | some uri_end ↦ if ltb 0 uri_end then version (drop (uri_end + 1) l) else bad_request
    ] in
    elim (strpbrk_blank line) [
      | none ↦ if strncasecmp_zero line (codes "GET") none then fault null_deref else ok bad_request
      | some method_end ↦
          if strncasecmp_zero line (codes "GET") (some method_end)
          then ok (uri (drop (method_end + 1) line))
          else ok bad_request
    ]

abbrev pub parse_headers : Option (List ℕ) → ResultCode
parse_headers none = internal_error
parse_headers (some []) = got_request
parse_headers (some (c ∷ cs)) = no_request

-- Behind ParseRequestUri.
abbrev pub transfer : ReqParser → ResultCode → ReqParser
transfer r no_request = record r { result = no_request; check_stat = header }
transfer r res = record r { result = res }

-- `switch (check_stat)`, on the line that starts at `cur_line`.
pub parse_one : CheckStat → ReqParser → (cur_line : ℕ) → Run ReqParser
parse_one reqline r cur_line = do
  line ← c_string (recvbuf_size - cur_line) r.recv_buf cur_line
  res ← parse_request_uri line
  ok (transfer r res)
parse_one header r cur_line = do
  line ← c_string (recvbuf_size - cur_line) r.recv_buf cur_line
  ok (record r { result = parse_headers (some line) })
parse_one entity r cur_line = fault assert_failed

-- The `while` loop, and the `switch` behind it.
pub parse_rounds : (rounds : ℕ) → ReqParser → Run ReqParser
parse_rounds zero r = fault no_fuel
parse_rounds (suc rounds) r = do
  (stat, checked) ← check_one_line r
  let r' = record checked { lastline_stat = stat }
  elim stat [
    | line_ok ↦ do
      parsed ← parse_one r'.check_stat (record r' { linest_idx = r'.checked_idx }) r'.linest_idx
      elim parsed.result [ no_request ↦ parse_rounds rounds parsed | _ ↦ ok parsed ]
    | line_open ↦ ok r'
    | line_waiting_n ↦ ok r'
    | line_bad ↦ ok (record r' { result = bad_request })
  ]

-- A round of the loop moves the start of the line on.
pub parse_batch : ReqParser → Run ReqParser
parse_batch r = parse_rounds (suc (r.read_idx - r.linest_idx)) r

-- RecvAndParse, behind the answer of `recv`.
pub recv_and_parse : Received → ReqParser → Run ReqParser
recv_and_parse (failed e) r = ok (record r { result = internal_error })
recv_and_parse (bytes []) r = ok (record r { result = done_recv })
recv_and_parse (bytes (b ∷ bs)) r = parse_batch (record r {
  recv_buf = blit r.recv_buf r.read_idx (b ∷ bs);
  read_idx = r.read_idx + length (b ∷ bs);
})

-- `while (req_parser.result == RES_NO_REQUEST)`, with `round` calls of `recv` made for this client.
pub recv_client : Recv → (rounds round : ℕ) → ReqParser → Run ReqParser
recv_client recv zero round r = fault no_fuel
recv_client recv (suc rounds) round r = elim r.result [
  | no_request ↦ do
    r' ← recv_and_parse (recv round r.req_sockfd (recvbuf_size - r.read_idx)) r
    recv_client recv rounds (round + 1) r'
  | _ ↦ ok r
]

-- The bytes that RespondHelloHTTP writes, header first.
pub hello_http : List ℕ
hello_http =
    let data_buf = snprintf databuf_size blank (codes "Hello from Tom HTTP Server" ++ lf ∷ []) in
    let status =
      snprintf headerbuf_size blank (codes "HTTP/1.1" ++ 32 ∷ (codes "200 OK" ++ crlf)) in
    let head_buf =
      snprintf headerbuf_size status
        (codes "Content-Length: " ++ decimal data_buf.used_len ++ crlf) in
    iov (snprintf headerbuf_size head_buf crlf) ++ iov data_buf

abbrev pub respond_hello_http : (peer_sockfd : ℤ) → List Action
respond_hello_http peer_sockfd = writev peer_sockfd hello_http ∷ []

-- `switch (req_parser.result)`
abbrev pub respond : ResultCode → (peer_sockfd : ℤ) → List Action
respond got_request peer_sockfd = respond_hello_http peer_sockfd
respond _ peer_sockfd = []

-- The body of the loop in `main` behind an `accept`. Each call of `recv` but the last two takes a
-- byte of the buffer's room.
pub serve_client : Recv → (peer_sockfd : ℤ) → Run (List Action)
serve_client recv peer_sockfd = do
  r ← recv_client recv (suc (suc recvbuf_size)) 0 (new_parser peer_sockfd)
  ok (respond r.result peer_sockfd ++ close peer_sockfd ∷ [])

-- The loop in `main`, over what `accept` answers and what `recv` answers for that client: the
-- descriptor that is refused ends the process. SIGTERM ends it in its handler.
pub serve_clients : List (Accepted × Recv) → Run (List Action)
serve_clients [] = ok []
serve_clients ((refused e, recv) ∷ cs) = ok []
serve_clients ((accepted fd addr, recv) ∷ cs) = do
  actions ← serve_client recv (pos fd)
  more ← serve_clients cs
  ok (actions ++ more)
