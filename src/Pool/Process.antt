-- ===== src/Pool/Process.antt =====
-- src/Process.h and src/Process.cc: a process of the pool, and its epoll set and signal pipe.
use simple_http_serv.Prelude.{
  ℕ, Option, none, some, List, [], ◌∷◌, ◌++◌, Run, ok, fault, assert_failed, ◌>>=◌, ◌≡◌, false,
  if◌then◌else◌,
}
use simple_http_serv.Prelude.Int.{ℤ, minus_one, eq_ℤ}
use simple_http_serv.Sys.{Action, send, sigaction, sigint, sigterm, sigchld}
use simple_http_serv.Epoll.{epoll_add_fd}

-- `fa_pipefd_[kChRfdIdx]` is `child_rfd` and `fa_pipefd_[kPaWfdIdx]` is `parent_wfd`.
pub record Process : Type 0 where
  pub pid : ℤ
  pub listenfd : ℤ
  pub epollfd : ℤ
  pub pool_id : ℤ
  pub child_rfd : ℤ
  pub parent_wfd : ℤ

-- The constructor leaves the pipe unset; here its ends start as -1.
abbrev pub fresh_process : Process
fresh_process = record {
  pid = minus_one;
  listenfd = minus_one;
  epollfd = minus_one;
  pool_id = minus_one;
  child_rfd = minus_one;
  parent_wfd = minus_one;
}

-- `fd` is what `epoll_create` returns.
unfoldable pub setup_epoll : (fd : ℤ) → Process → Run Process
setup_epoll fd p = if eq_ℤ fd minus_one then fault assert_failed else ok (record p { epollfd = fd })

-- The handler is SioHandler; `ret` is what `sigaction` returns.
unfoldable pub add_sigaction : (ret : ℤ) (signum : ℕ) → Run (List Action)
add_sigaction ret signum =
    if eq_ℤ ret minus_one then fault assert_failed else ok (sigaction signum ∷ [])

-- What `socketpair` returns, its read end and its write end, and what `sigaction` returns for each
-- signal.
pub record SigAnswers : Type 0 where
  pub pair : Option (ℤ × ℤ)
  pub sigaction_ret : ℕ → ℤ

-- SIGTERM, SIGINT and SIGCHLD.
unfoldable pub add_sigactions : (ℕ → ℤ) → Run (List Action)
unfolding add_sigaction
add_sigactions ret = do
  term ← add_sigaction (ret sigterm) sigterm
  int ← add_sigaction (ret sigint) sigint
  chld ← add_sigaction (ret sigchld) sigchld
  ok (term ++ int ++ chld)

unfoldable pub setup_sig_pipe : SigAnswers → Process → Run ((ℤ × ℤ) × List Action)
unfolding add_sigactions
setup_sig_pipe answers p =
    if eq_ℤ p.epollfd minus_one then fault assert_failed else elim answers.pair [
      | none ↦ fault assert_failed
      | some (rfd, wfd) ↦ do
        actions ← add_sigactions answers.sigaction_ret
        ok ((rfd, wfd), actions ++ epoll_add_fd p.epollfd rfd)
    ]

-- Every handler can be installed.
abbrev pub Installs : (ℕ → ℤ) → Type 0
Installs ret = (signum : ℕ) → eq_ℤ (ret signum) minus_one ≡ false

pub add_sigactions-Installs :
    (ret : ℕ → ℤ)
    → Installs ret
    → add_sigactions ret ≡ ok (sigaction sigterm ∷ sigaction sigint ∷ sigaction sigchld ∷ [])
unfolding add_sigactions add_sigaction
add_sigactions-Installs ret yes_all = rw (yes_all sigterm, yes_all sigint, yes_all sigchld)

-- A signal becomes a byte in the pipe.
pub sio_handler : (sig_pipefd : ℤ × ℤ) → (signum : ℕ) → List Action
sio_handler (rfd, wfd) signum = send wfd (signum ∷ []) ∷ []
