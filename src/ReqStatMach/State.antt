-- ===== src/ReqStatMach/State.antt =====
-- The types of src/ReqStatMach.h, its fields, and the operations that set them up.
use simple_http_serv.Prelude.{ℕ, ◌+◌, Bool, Run, ok, fault, out_of_bounds, ltb, ◌==◌, if◌then◌else◌}
use simple_http_serv.Prelude.Int.{ℤ, minus_one, eq_ℤ}
use simple_http_serv.Sys.{SockAddr}

-- LINE_STAT
pub data LineStat : Type 0 where
  line_ok line_open line_waiting_n line_bad : LineStat

-- CHECK_STAT
pub data CheckStat : Type 0 where
  reqline header entity : CheckStat

-- RESULT_CODE
pub data ResultCode : Type 0 where
  no_request got_request done_recv bad_request internal_error : ResultCode

abbrev pub headerbuf_size : ℕ
headerbuf_size = 1024

abbrev pub databuf_size : ℕ
databuf_size = 1024

abbrev pub recvbuf_size : ℕ
recvbuf_size = headerbuf_size + databuf_size

-- `char recvbuf[k_recvbuf_size]`: the byte at each index. Only `peek`, `poke` and `blit` look at
-- it, and they stop at an index that is out of the array.
abbrev pub Buf : Type 0
Buf = ℕ → ℕ

unfoldable pub peek : Buf → ℕ → Run ℕ
peek buf i = if ltb i recvbuf_size then ok (buf i) else fault out_of_bounds

abbrev pub update : Buf → ℕ → ℕ → Buf
update buf i v j = if j == i then v else buf j

unfoldable pub poke : Buf → ℕ → ℕ → Run Buf
poke buf i v = if ltb i recvbuf_size then ok (update buf i v) else fault out_of_bounds

pub record ReqStatMach : Type 0 where
  pub epollfd : ℤ
  pub sockfd : ℤ
  pub addr : SockAddr
  pub read_idx : ℕ
  pub checked_idx : ℕ
  pub linest_idx : ℕ
  pub lastline_stat : LineStat
  pub check_stat : CheckStat
  pub result : ResultCode
  pub recvbuf : Buf

-- `init` sets every field but those the constructor leaves alone, and clears the buffer.
unfoldable pub init : (epollfd sockfd : ℤ) → SockAddr → ReqStatMach
init epollfd sockfd addr = record {
  epollfd = epollfd;
  sockfd = sockfd;
  addr = addr;
  read_idx = 0;
  checked_idx = 0;
  linest_idx = 0;
  lastline_stat = line_ok;
  check_stat = reqline;
  result = no_request;
  recvbuf = λ _. 0;
}

-- The constructor sets `m_sockfd` only; here the other fields start as `init` would set them.
unfoldable pub fresh : ReqStatMach
unfolding init
fresh = init minus_one minus_one (record { sin_addr = 0; sin_port = 0 })

unfoldable pub is_init : ReqStatMach → ℤ → Bool
is_init m expected_sockfd = eq_ℤ m.sockfd expected_sockfd
