-- ===== src/Epoll.antt =====
-- The descriptor helpers of src/Process.cc and src/ProcessPool.h.
use simple_http_serv.Prelude.{List, [], ◌∷◌}
use simple_http_serv.Prelude.Int.{ℤ}
use simple_http_serv.Sys.{Action, epoll_add_et, epoll_add_lt, epoll_del, close, set_nonblocking}

-- EPOLLIN | EPOLLET
abbrev pub epoll_add_fd : (epollfd fd : ℤ) → List Action
epoll_add_fd epollfd fd = epoll_add_et epollfd fd ∷ []

abbrev pub epoll_del_fd : (epollfd fd : ℤ) → List Action
epoll_del_fd epollfd fd = epoll_del epollfd fd ∷ close fd ∷ []

-- EPOLLIN
abbrev pub test_epoll_add_fd_lt : (epollfd fd : ℤ) → List Action
test_epoll_add_fd_lt epollfd fd = epoll_add_lt epollfd fd ∷ []

-- O_NONBLOCK is set beside the options that the descriptor has.
abbrev pub set_non_blocking : ℤ → List Action
set_non_blocking fd = set_nonblocking fd ∷ []
