-- ===== src/ReqStatMach/Batch.antt =====
-- `parse_batch` of src/ReqStatMach.h.
pub mod Invariant
pub mod Lines
pub mod Refine
pub mod Handled
pub mod Safety
use simple_http_serv.Prelude.{
  ℕ, zero, suc, ◌+◌, ◌-◌, some, List, length, Run, ok, fault, assert_failed, no_fuel, ◌>>=◌,
}
use simple_http_serv.ReqStatMach.State.{
  line_ok, line_open, line_waiting_n, line_bad, CheckStat, reqline, header, entity, ResultCode,
  no_request, bad_request, recvbuf_size, ReqStatMach,
}
use simple_http_serv.ReqStatMach.Buffer.{blit, c_string}
use simple_http_serv.ReqStatMach.Line.{check_one_line}
use simple_http_serv.ReqStatMach.Request.{parse_requesturi, parse_headers}

-- `set_result`, and the step to the headers behind an accepted request line.
abbrev pub after_reqline : ReqStatMach → ResultCode → ReqStatMach
after_reqline m no_request = record m { result = no_request; check_stat = header }
after_reqline m res = record m { result = res }

-- `switch (check_stat)`, on the line at `line`.
unfoldable pub dispatch : CheckStat → ReqStatMach → (line : ℕ) → Run ReqStatMach
dispatch reqline m line = do
  cur_line ← c_string (recvbuf_size - line) m.recvbuf line
  res ← parse_requesturi cur_line
  ok (after_reqline m res)
dispatch header m line = do
  cur_line ← c_string (recvbuf_size - line) m.recvbuf line
  ok (record m { result = parse_headers (some cur_line) })
dispatch entity m line = fault assert_failed

-- The loop's body behind a complete line.
unfoldable pub parse_line : ReqStatMach → Run ReqStatMach
unfolding dispatch
parse_line m = dispatch m.check_stat (record m { linest_idx = m.checked_idx }) m.linest_idx

-- The `while` loop and the `switch` behind it, in at most `rounds` rounds.
unfoldable pub parse_lines : (rounds : ℕ) → ReqStatMach → Run ReqStatMach
parse_lines zero m = fault no_fuel
parse_lines (suc rounds) m = do
  (stat, checked) ← check_one_line m
  let m = record checked { lastline_stat = stat }
  elim stat [
    | line_ok ↦ do
      parsed ← parse_line m
      elim parsed.result [ no_request ↦ parse_lines rounds parsed | _ ↦ ok parsed ]
    | line_open ↦ ok m
    | line_waiting_n ↦ ok m
    | line_bad ↦ ok (record m { result = bad_request })
  ]

-- Each complete line takes bytes of the buffer, so the bytes behind `m_linest_idx` bound the rounds.
unfoldable pub parse_batch : ReqStatMach → Run ReqStatMach
parse_batch m = parse_lines (suc (m.read_idx - m.linest_idx)) m

-- `recv` has put `bytes` behind the bytes read so far, and `m_read_idx += bytes_read`.
abbrev pub received : ReqStatMach → List ℕ → ReqStatMach
received m bytes = record m {
  recvbuf = blit m.recvbuf m.read_idx bytes;
  read_idx = m.read_idx + length bytes;
}
