-- ===== src/Sys.antt =====
-- The operating system as the program sees it: what it asks the kernel to do, in order, and what
-- `recv` hands back. The kernel itself is a parameter of the functions that call it.
use simple_http_serv.Prelude.{ℕ, Bool, List}
use simple_http_serv.Prelude.Int.{ℤ}

-- struct sockaddr_in
pub record SockAddr : Type 0 where
  pub sin_addr : ℕ
  pub sin_port : ℕ

-- A call that changes something outside the process.
pub data Action : Type 0 where
  epoll_add_et epoll_add_lt epoll_del : (epollfd fd : ℤ) → Action
  close : ℤ → Action
  set_nonblocking : ℤ → Action
  writev : ℤ → List ℕ → Action
  send : ℤ → List ℕ → Action
  alarm : (seconds : ℕ) → Action
  kill : (pid : ℤ) (signum : ℕ) → Action
  sigaction : (signum : ℕ) → Action

pub data Errno : Type 0 where
  eagain eintr ebadf other : Errno

-- What `recv` returns: -1 with an error number, or the bytes received (none at the end of the
-- stream).
pub data Received : Type 0 where
  failed : Errno → Received
  bytes : List ℕ → Received

-- The kernel's `recv`: its answer may depend on how often it was called, on the descriptor and on
-- the room left.
abbrev pub Recv : Type 0
Recv = (round : ℕ) (fd : ℤ) (len : ℕ) → Received

-- What `epoll_wait` reports of a descriptor; `recv` is what a `recv` on it would answer, and
-- `accept` what the next calls of `accept` would.
pub data Accepted : Type 0 where
  refused : Errno → Accepted
  accepted : (sockfd : ℕ) → SockAddr → Accepted

pub record Event : Type 0 where
  pub fd : ℤ
  pub is_in : Bool
  pub recv : Recv
  pub accept : ℕ → Accepted

-- -1 with an error number, or the events.
pub data Wait : Type 0 where
  wait_failed : Errno → Wait
  ready : List Event → Wait

abbrev pub sigint : ℕ
sigint = 2

abbrev pub sigterm : ℕ
sigterm = 15

abbrev pub sigchld : ℕ
sigchld = 17

-- How a loop over a list of the kernel's answers ends: by its test or a failure, or still waiting
-- when the list ends.
pub data Ending : Type 0 where
  left waiting : Ending
