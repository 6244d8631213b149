-- ===== src/Examples/TimingChat.antt =====
-- The program examples/framework-intro/timing_group_chat_service.cc, a group chat whose silent clients
-- are removed: the table of its clients, the timers on them, and the loop's phases. `k` bounds the
-- loops over the timers.
pub mod Loop
pub mod Entries
pub mod Join
pub mod Gone
pub mod Silent
pub mod Message
pub mod Visit
pub mod Alarm
pub mod Quiet
pub mod Round
pub mod Turns
pub mod Expiry
pub mod Orderly
mod Tests
use simple_http_serv.Prelude.{
  ℕ, zero, suc, ◌+◌, ◌-◌, Bool, true, false, ◌||◌, Option, none, some, List, [], ◌∷◌, ◌++◌, Run, ok,
  fault, out_of_bounds, underflow, assert_failed, no_fuel, ◌>>=◌, ◌==◌, ltb, leb, if◌then◌else◌,
}
use simple_http_serv.Prelude.Int.{ℤ, pos, eq_ℤ}
use simple_http_serv.Sys.{
  SockAddr, Action, close, send, alarm, Errno, Received, failed, bytes, Accepted, refused, accepted,
  sigterm,
}
use simple_http_serv.Examples.Timers.{
  Ptr, null, ClientTimer, TimerSortedList, store, add_timer, del_timer, chg_timer, tick_once,
}
use simple_http_serv.Examples.Chat.{
  max_client, buf_size_recv, max_fd, PollFlags, no_flags, client_events, PollFd, at, client_index,
  filled,
}
use simple_http_serv.Examples.Chat.SignalChat.{st_idx_client, sigpipe_buf_size}

abbrev pub alrm_slot_sec : ℕ
alrm_slot_sec = 3

abbrev pub client_alive_sec : ℕ
client_alive_sec = 9

abbrev pub sigalrm : ℕ
sigalrm = 14

-- `struct ClientData`
pub record TimedClient : Type 0 where
  pub client_sockaddr : SockAddr
  pub buf_to_write : Option (List ℕ)
  pub recv_buf : List ℕ
  pub pollfds_idx : ℕ
  pub timer : Ptr

-- `kCntClient`, `kFDS` and `kClient`.
pub record Table : Type 0 where
  pub cnt : ℕ
  pub fds : ℕ → PollFd
  pub clients : ℕ → TimedClient

-- With `kClientTimerList`, `kStop` and `kTimeout`.
pub record TimingChat : Type 0 where
  pub table : Table
  pub timers : TimerSortedList
  pub stop : Bool
  pub timeout : Bool

-- What the kernel answers in one turn of the loop, the addresses and times that `new` and `time`
-- return where they are called among it.
pub record Turn : Type 0 where
  pub error : Option Errno
  pub revents : ℕ → PollFlags
  pub accept : Accepted
  pub new_timer : Ptr
  pub t_accept : ℕ
  pub recv : (fd : ℤ) (len : ℕ) → Received
  pub t_recv : (fd : ℤ) → ℕ
  pub t_alarm : ℕ

-- `kFDS[i]`
abbrev pub fd_at : Table → ℕ → Run PollFd
fd_at t i = if ltb i (st_idx_client + max_client) then ok (t.fds i) else fault out_of_bounds

pub replace_and_close_pollfd : (dst src : ℕ) → Table → Run (Table × List Action)
replace_and_close_pollfd dst src t = do
  d ← fd_at t dst
  s ← fd_at t src
  to ← client_index d.fd
  from ← client_index s.fd
  ok (
    record t { clients = at t.clients to (t.clients from); fds = at t.fds dst s },
    close d.fd ∷ [],
  )

-- `c` is the index of the client's slot.
pub remove_client_from_poll : (c : ℕ) → Table → Run (Table × List Action)
unfolding replace_and_close_pollfd
remove_client_from_poll c t = if t.cnt == 0 then fault underflow else do
  (t', actions) ← replace_and_close_pollfd (t.clients c).pollfds_idx (st_idx_client + t.cnt - 1) t
  ok (record t' { cnt = t'.cnt - 1 }, actions)

-- The `switch` on each byte of the signal pipe.
abbrev pub signalled : TimingChat → List ℕ → TimingChat
signalled c [] = c
signalled c (sig ∷ sigs) =
    signalled (record c { timeout = c.timeout || sig == sigalrm; stop = c.stop || sig == sigterm })
      sigs

-- Phase 0.
pub read_signals : Turn → TimingChat → TimingChat
read_signals p c =
    if (c.table.fds 1).revents.pollin
    then elim (p.recv (c.table.fds 1).fd sigpipe_buf_size) [
      | failed e ↦ c
      | bytes sigs ↦ signalled c sigs
    ]
    else c

-- The send loop of phase 2, `rounds` of it left.
pub send_others : (rounds j : ℕ) → Table → (peer_sockfd : ℤ) → List ℕ → Run (List Action)
send_others zero j t peer_sockfd buf = ok []
send_others (suc rounds) j t peer_sockfd buf = do
  p ← fd_at t j
  more ← send_others rounds (j + 1) t peer_sockfd buf
  ok (if eq_ℤ p.fd peer_sockfd then more else send p.fd buf ∷ more)

abbrev pub put_recv_buf : ℕ → List ℕ → Table → Table
put_recv_buf n bs t = record t {
  clients = at t.clients n (record (t.clients n) { recv_buf = filled bs });
}

module _ (k : ℕ) where
  -- AlarmHandler. The handler of an expired timer is RemoveClientFromPoll.
  pub alarm_handler : (t_current : ℕ) → TimingChat → Run (TimingChat × List Action)
  unfolding remove_client_from_poll
  alarm_handler t_current c = do
    let expire : ℕ → Table × List Action → Run (Table × List Action) =
        λ n (t, actions). (do (t', more) ← remove_client_from_poll n t; ok (t', actions ++ more))
    (timers, (table, actions)) ← tick_once expire t_current k c.timers (c.table, [])
    ok (
      record { table = table; timers = timers; stop = c.stop; timeout = false },
      actions ++ alarm alrm_slot_sec ∷ [],
    )

  -- Phase 1, behind `accept`.
  pub on_accept : Turn → TimingChat → Run (TimingChat × List Action)
  on_accept p c = elim p.accept [
    | refused e ↦ ok (c, [])
    | accepted fd addr ↦
        if leb max_client c.table.cnt
        then ok (c, close (pos fd) ∷ [])
        else if ltb fd max_fd
        then (do
          let i = st_idx_client + c.table.cnt
          let client : TimedClient = record (c.table.clients fd) {
            client_sockaddr = addr;
            buf_to_write = none;
            pollfds_idx = i;
            timer = p.new_timer;
          }
          let new_timer : ClientTimer = record {
            prev = null;
            next = null;
            client_data = fd;
            t_expire = p.t_accept + client_alive_sec;
          }
          timers ← add_timer k (store c.timers p.new_timer (some new_timer)) p.new_timer
          ok (
            record c {
              table = record {
                cnt = c.table.cnt + 1;
                fds =
                    at c.table.fds i
                      (record { fd = pos fd; events = client_events; revents = no_flags });
                clients = at c.table.clients fd client;
              };
              timers = timers;
            },
            [],
          ))
        else fault assert_failed
  ]

  -- The branches for POLLERR and POLLRDHUP.
  pub on_gone : (fds_i : ℕ) → TimingChat → Run (TimingChat × List Action)
  on_gone i c = do
    p ← fd_at c.table i
    n ← client_index p.fd
    timers ←
        if (c.table.clients n).timer == null
        then ok c.timers
        else del_timer k c.timers (c.table.clients n).timer
    if (c.table.clients n).pollfds_idx == i
        then (do
          (table, actions) ← remove_client_from_poll n c.table
          ok (record c { table = table; timers = timers }, actions))
        else fault assert_failed

  -- The branch for POLLIN, behind `recv`.
  pub on_readable :
      (peer_sockfd : ℤ) → (t_recv : ℕ) → Received → TimingChat → Run (TimingChat × List Action)
  unfolding send_others
  on_readable peer_sockfd t_recv (failed e) c = do
    n ← client_index peer_sockfd
    ok (record c { table = put_recv_buf n [] c.table }, [])
  on_readable peer_sockfd t_recv (bytes []) c = do
    n ← client_index peer_sockfd
    ok (record c { table = put_recv_buf n [] c.table }, [])
  on_readable peer_sockfd t_recv (bytes (b ∷ bs)) c = do
    n ← client_index peer_sockfd
    actions ← send_others c.table.cnt st_idx_client c.table peer_sockfd (filled (b ∷ bs))
    timers ← chg_timer k c.timers (c.table.clients n).timer (t_recv + client_alive_sec)
    ok (record c { table = put_recv_buf n (b ∷ bs) c.table; timers = timers }, actions)

  -- The body of phase 2 for the entry `i`, with the index that comes next.
  pub serve_one : Turn → ℕ → TimingChat → Run (ℕ × TimingChat × List Action)
  serve_one p i c = do
    e ← fd_at c.table i
    if e.revents.pollout
        then ok (i + 1, c, [])
        else if e.revents.pollerr
        then (do (c', actions) ← on_gone i c; ok (i, c', actions))
        else if e.revents.pollrdhup
        then (do (c', actions) ← on_gone i c; ok (i, c', actions))
        else if e.revents.pollin
        then (do
          (c', actions) ← on_readable e.fd (p.t_recv e.fd) (p.recv e.fd (buf_size_recv - 1)) c
          ok (i + 1, c', actions))
        else ok (i + 1, c, [])

  -- Phase 2.
  pub serve : (rounds : ℕ) → Turn → ℕ → TimingChat → Run (TimingChat × List Action)
  serve zero p i c = fault no_fuel
  serve (suc rounds) p i c =
      let more = (do
        (i', c', actions) ← serve_one p i c
        (c'', more) ← serve rounds p i' c'
        ok (c'', actions ++ more)) in
      if ltb i (st_idx_client + c.table.cnt) then more else ok (c, [])
