-- ===== src/ReqStatMach/Line.antt =====
-- `check_one_line` of src/ReqStatMach.h.
pub mod Scan
pub mod Steps
pub mod Safety
use simple_http_serv.Prelude.{
  ℕ, zero, suc, ◌+◌, ◌-◌, Bool, true, false, Run, ok, fault, out_of_bounds, ◌>>=◌, ◌==◌,
  if◌then◌else◌,
}
use simple_http_serv.Text.{cr, lf}
use simple_http_serv.ReqStatMach.State.{
  LineStat, line_ok, line_open, line_waiting_n, line_bad, Buf, peek, poke, ReqStatMach,
}

-- `m_lastline_stat == LINE_STAT_WAITING_N`
abbrev pub is_waiting_n : LineStat → Bool
is_waiting_n line_waiting_n = true
is_waiting_n _ = false

-- `buf[i - 1] = v`
poke_before : Buf → ℕ → ℕ → Run Buf
unfolding poke
poke_before buf zero v = fault out_of_bounds
poke_before buf (suc i) v = poke buf i v

-- `case '\n'`
at_lf : (waiting : Bool) → Buf → ℕ → Run (LineStat × Buf × ℕ)
unfolding poke poke_before
at_lf true buf i = do b ← poke_before buf i 0; b ← poke b i 0; ok (line_ok, b, i + 1)
at_lf false buf i = ok (line_bad, buf, i)

-- `buf[i] = buf[i + 1] = '\0'` behind a complete line.
end_line : Buf → ℕ → Run (LineStat × Buf × ℕ)
unfolding poke
end_line buf i = do b ← poke buf i 0; b ← poke b (i + 1) 0; ok (line_ok, b, i + 2)

-- The `for` loop: `rounds` is `read_idx - checked_idx`, `i` is `checked_idx`.
unfoldable pub scan : (waiting : Bool) (read_idx rounds : ℕ) → Buf → ℕ → Run (LineStat × Buf × ℕ)
unfolding peek at_lf end_line
scan waiting read_idx zero buf i = ok (line_open, buf, i)
scan waiting read_idx (suc rounds) buf i =
    let rest = scan waiting read_idx rounds buf (i + 1) in
    do
      c ← peek buf i
      if c == cr
          then (if i + 1 == read_idx
              then ok (line_waiting_n, buf, i)
              else do next ← peek buf (i + 1); if next == lf then end_line buf i else rest)
          else if c == lf
          then at_lf waiting buf i
          else rest

unfoldable pub check_one_line : ReqStatMach → Run (LineStat × ReqStatMach)
unfolding scan
check_one_line m = do
  (stat, buf, i) ←
      scan (is_waiting_n m.lastline_stat) m.read_idx (m.read_idx - m.checked_idx) m.recvbuf
        m.checked_idx
  ok (stat, record m { recvbuf = buf; checked_idx = i })
