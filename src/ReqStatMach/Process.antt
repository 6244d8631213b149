-- ===== src/ReqStatMach/Process.antt =====
-- `process` of src/ReqStatMach.h. The kernel's `recv` is a parameter: its answer may depend on how
-- often it was called since `process` was entered, on the descriptor and on the room left.
pub mod Loop
pub mod Safety
pub mod Delivery
pub mod Answers
use simple_http_serv.Prelude.{
  ℕ, zero, suc, ◌+◌, ◌-◌, List, [], ◌∷◌, ◌++◌, Run, ok, fault, no_fuel, ◌>>=◌,
}
use simple_http_serv.Prelude.Int.{ℤ, minus_one}
use simple_http_serv.Sys.{Recv, Action, Errno, eagain, Received, failed, bytes}
use simple_http_serv.Epoll.{epoll_del_fd}
use simple_http_serv.ReqStatMach.State.{
  ResultCode, no_request, got_request, done_recv, internal_error, recvbuf_size, ReqStatMach,
}
use simple_http_serv.ReqStatMach.Batch.{parse_batch, received}
use simple_http_serv.ReqStatMach.Respond.{respond_http}

-- The loop goes on after a batch, and stops at -1 and at 0.
unfoldable pub on_received :
    (ReqStatMach → Run ReqStatMach) → ReqStatMach → Received → Run ReqStatMach
on_received again m (failed eagain) = ok m
on_received again m (failed e) = ok (record m { result = internal_error })
on_received again m (bytes []) = ok (record m { result = done_recv })
on_received again m (bytes (c ∷ cs)) = do m' ← parse_batch (received m (c ∷ cs)); again m'

-- `while (get_result() == RES_NO_REQUEST)`, with `round` calls of `recv` made.
unfoldable pub recv_loop : Recv → (rounds round : ℕ) → ReqStatMach → Run ReqStatMach
unfolding on_received
recv_loop recv zero round m = fault no_fuel
recv_loop recv (suc rounds) round m = elim m.result [
  | no_request ↦
      on_received (recv_loop recv rounds (round + 1)) m
        (recv round m.sockfd (recvbuf_size - m.read_idx))
  | _ ↦ ok m
]

-- `switch (res)`
unfoldable pub conclude : ResultCode → ReqStatMach → List Action
unfolding respond_http
conclude no_request m = []
conclude got_request m = respond_http m ++ epoll_del_fd m.epollfd m.sockfd
conclude done_recv m = epoll_del_fd m.epollfd m.sockfd
conclude _ m = epoll_del_fd m.epollfd m.sockfd

-- Each round but the last takes a byte of the buffer's room.
unfoldable pub process : Recv → ReqStatMach → Run (ReqStatMach × List Action)
unfolding recv_loop
process recv m = do
  m' ← recv_loop recv (suc (recvbuf_size - m.read_idx)) 0 m
  ok (record m' { sockfd = minus_one }, conclude m'.result m')
