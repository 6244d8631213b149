-- ===== src/Examples/Chat.antt =====
-- The table of clients that the group chat programs keep, with `kFDS` and `kClient`: the functions
-- and the phases of the loop in examples/framework-intro/group_chat_service.cc. `first` is the index
-- of the first client, 1 there and `kStIdxClient` in group_chat_service_sio.cc.
pub mod GroupChat
pub mod SignalChat
pub mod Table
pub mod Step
pub mod Sweep
pub mod Accept
pub mod Phases
pub mod Broadcast
pub mod Loop
pub mod Stop
mod Tests
use simple_http_serv.Prelude.{
  ℕ, zero, suc, ◌+◌, ◌-◌, Bool, true, false, Option, none, some, List, [], ◌∷◌, ◌++◌, Run, ok,
  fault, out_of_bounds, assert_failed, no_fuel, ◌>>=◌, ◌==◌, ltb, leb, if◌then◌else◌, length, drop,
  replicate,
}
use simple_http_serv.Prelude.Int.{ℤ, pos, negsuc, eq_ℤ}
use simple_http_serv.Sys.{
  SockAddr, Action, close, send, Errno, Received, failed, bytes, Accepted, refused, accepted,
}

abbrev pub max_client : ℕ
max_client = 2

abbrev pub buf_size_recv : ℕ
buf_size_recv = 32

abbrev pub max_fd : ℕ
max_fd = 65535

-- The bits of `events` and `revents` that the programs use.
pub record PollFlags : Type 0 where
  pub pollin : Bool
  pub pollout : Bool
  pub pollerr : Bool
  pub pollrdhup : Bool

abbrev pub no_flags : PollFlags
no_flags = record { pollin = false; pollout = false; pollerr = false; pollrdhup = false }

abbrev pub client_events : PollFlags
client_events = record { pollin = true; pollout = false; pollerr = true; pollrdhup = true }

pub record PollFd : Type 0 where
  pub fd : ℤ
  pub events : PollFlags
  pub revents : PollFlags

pub record ClientData : Type 0 where
  pub client_sockaddr : SockAddr
  pub buf_to_write : Option (List ℕ)
  pub recv_buf : List ℕ

-- `kCntClient`, `kFDS` and `kClient`.
pub record Chat : Type 0 where
  pub cnt : ℕ
  pub fds : ℕ → PollFd
  pub clients : ℕ → ClientData

-- What the kernel answers in one turn of the loop: to `poll`, to an `accept` and to a `recv` on each
-- descriptor. Where `poll` fails, it leaves the flags as they were.
pub record Polled : Type 0 where
  pub error : Option Errno
  pub revents : ℕ → PollFlags
  pub accept : Accepted
  pub recv : (fd : ℤ) (len : ℕ) → Received

abbrev pub at {ℓ} : {A : Type ℓ} → (ℕ → A) → ℕ → A → ℕ → A
at f i v j = if j == i then v else f j

-- `kClient[fd]`
abbrev pub client_index : ℤ → Run ℕ
client_index (pos n) = if ltb n max_fd then ok n else fault out_of_bounds
client_index (negsuc n) = fault out_of_bounds

-- A message as it stands in the zeroed buffer.
abbrev pub filled : List ℕ → List ℕ
filled bs = bs ++ drop (length bs) (replicate buf_size_recv 0)

module _ (first : ℕ) where
  -- `kFDS[i]`
  abbrev pub fd_at : Chat → ℕ → Run PollFd
  fd_at c i = if ltb i (first + max_client) then ok (c.fds i) else fault out_of_bounds

  abbrev pub set_revents : (ℕ → PollFlags) → Chat → Chat
  set_revents r c = record c {
    fds = λ i. if ltb i (first + c.cnt) then record (c.fds i) { revents = r i } else c.fds i;
  }

  unfoldable pub replace_and_close_pollfd : (dst src : ℕ) → Chat → Run (Chat × List Action)
  replace_and_close_pollfd dst src c = do
    d ← fd_at c dst
    s ← fd_at c src
    to ← client_index d.fd
    from ← client_index s.fd
    ok (
      record c { clients = at c.clients to (c.clients from); fds = at c.fds dst s },
      close d.fd ∷ [],
    )

  -- The branches for POLLERR and POLLRDHUP.
  pub remove_client : ℕ → Chat → Run (Chat × List Action)
  unfolding replace_and_close_pollfd
  remove_client i c = do
    (c', actions) ← replace_and_close_pollfd i (first + c.cnt - 1) c
    ok (record c' { cnt = c'.cnt - 1 }, actions)

  -- Phase 1, behind `accept`.
  unfoldable pub on_accept : Accepted → Chat → Run (Chat × List Action)
  on_accept (refused e) c = ok (c, [])
  on_accept (accepted fd addr) c =
      if leb max_client c.cnt
      then ok (c, close (pos fd) ∷ [])
      else if ltb fd max_fd
      then ok (
        record {
          cnt = c.cnt + 1;
          fds =
              at c.fds (first + c.cnt)
                (record { fd = pos fd; events = client_events; revents = no_flags });
          clients =
              at c.clients fd
                (record (c.clients fd) { client_sockaddr = addr; buf_to_write = none });
        },
        [],
      )
      else fault assert_failed

  -- The loop that sends a message to the others, `rounds` of them left.
  unfoldable pub send_others :
      (rounds j : ℕ) → Chat → (peer_sockfd : ℤ) → List ℕ → Run (List Action)
  send_others zero j c peer_sockfd buf = ok []
  send_others (suc rounds) j c peer_sockfd buf = do
    p ← fd_at c j
    more ← send_others rounds (j + 1) c peer_sockfd buf
    ok (if eq_ℤ p.fd peer_sockfd then more else send p.fd buf ∷ more)

  -- The branch for POLLIN, behind `recv`.
  pub on_readable : Chat → (peer_sockfd : ℤ) → Received → Run (Chat × List Action)
  unfolding send_others
  on_readable c peer_sockfd (failed e) = do
    n ← client_index peer_sockfd
    ok (record c { clients = at c.clients n (record (c.clients n) { recv_buf = filled [] }) }, [])
  on_readable c peer_sockfd (bytes []) = do
    n ← client_index peer_sockfd
    ok (record c { clients = at c.clients n (record (c.clients n) { recv_buf = filled [] }) }, [])
  on_readable c peer_sockfd (bytes (b ∷ bs)) = do
    n ← client_index peer_sockfd
    actions ← send_others c.cnt first c peer_sockfd (filled (b ∷ bs))
    ok (
      record c { clients = at c.clients n (record (c.clients n) { recv_buf = filled (b ∷ bs) }) },
      actions,
    )

  -- The body of phase 2 for the entry `i`, with the index that comes next.
  pub serve_one : ((fd : ℤ) (len : ℕ) → Received) → ℕ → Chat → Run (ℕ × Chat × List Action)
  serve_one recv i c = do
    p ← fd_at c i
    if p.revents.pollout
        then ok (i + 1, c, [])
        else if p.revents.pollerr
        then (do (c', actions) ← remove_client i c; ok (i, c', actions))
        else if p.revents.pollrdhup
        then (do (c', actions) ← remove_client i c; ok (i, c', actions))
        else if p.revents.pollin
        then (do
          (c', actions) ← on_readable c p.fd (recv p.fd (buf_size_recv - 1))
          ok (i + 1, c', actions))
        else ok (i + 1, c, [])

  -- Phase 2. Each round brings the index and the end of the table closer by one.
  pub serve : (rounds : ℕ) → ((fd : ℤ) (len : ℕ) → Received) → ℕ → Chat → Run (Chat × List Action)
  serve zero recv i c = fault no_fuel
  serve (suc rounds) recv i c =
      let more = (do
        (i', c', actions) ← serve_one recv i c
        (c'', more) ← serve rounds recv i' c'
        ok (c'', actions ++ more)) in
      if ltb i (first + c.cnt) then more else ok (c, [])

  -- Phases 1 and 2.
  unfoldable pub phases : Polled → Chat → Run (Chat × List Action)
  unfolding serve serve_one remove_client on_readable send_others
  phases p c = do
    (c', actions) ← if (c.fds 0).revents.pollin then on_accept p.accept c else ok (c, [])
    (c'', more) ← serve (c'.cnt + 1) p.recv first c'
    ok (c'', actions ++ more)
