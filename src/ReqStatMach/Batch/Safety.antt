-- ===== src/ReqStatMach/Batch/Safety.antt =====
-- `parse_batch` of src/ReqStatMach.h stays inside the buffer and ends, however the bytes are split
-- into batches: the one fault left is the null pointer in `parse_requesturi`.
use simple_http_serv.Prelude.{
  ℕ, zero, suc, ◌+◌, ◌-◌, ◌≤◌, ◌<◌, ◌≡◌, refl, ◌∙◌, inr, List, arith, Run, ok, fault, length,
}
use simple_http_serv.ReqStatMach.State.{
  LineStat, line_ok, line_open, line_waiting_n, line_bad, Buf, recvbuf_size, ReqStatMach,
}
use simple_http_serv.ReqStatMach.Buffer.{blit-before}
use simple_http_serv.ReqStatMach.Line.{is_waiting_n, check_one_line}
use simple_http_serv.ReqStatMach.Line.Safety.{InRange, scan-InRange}
use simple_http_serv.ReqStatMach.Batch.{parse_line, parse_lines, parse_batch, received}
use simple_http_serv.ReqStatMach.Batch.Lines.{scan_of}
use simple_http_serv.ReqStatMach.Batch.Handled.{
  IsSound, IsAfter, IsSafe, c_string_ok, dispatch-Handled, IsSafe-after, Safely, line-IsSafe,
}

module _ (rounds : ℕ) (m : ReqStatMach) (v : IsSound m)
    (safely : (j : ℕ) (b : Buf)
      → m.linest_idx < j
      → j ≤ m.read_idx
      → Safely rounds (record m { recvbuf = b; checked_idx = j; lastline_stat = line_ok })) where
  scanned-IsSafe :
      (r : Run (LineStat × Buf × ℕ))
      → scan_of m ≡ r
      → InRange m.linest_idx m.read_idx r
      → IsSafe m (parse_lines (suc rounds) m)
  unfolding parse_lines check_one_line parse_line
  scanned-IsSafe (fault e) s h = elim h [ ]
  scanned-IsSafe (ok (line_open, b, j)) s (l, h) = rw s (record {
    sound = record { begun = l; within = h; bounded = v.bounded; waits = λ w. cc; phase = v.phase };
    read = refl;
    sockfd = refl;
    epollfd = refl;
  })
  scanned-IsSafe (ok (line_waiting_n, b, j)) s (l, h, c) = rw s (record {
    sound = record {
      begun = l;
      within = omega arith;
      bounded = v.bounded;
      waits = λ w. (h, c);
      phase = v.phase;
    };
    read = refl;
    sockfd = refl;
    epollfd = refl;
  })
  scanned-IsSafe (ok (line_bad, b, j)) s (l, h) = rw s (record {
    sound = record { begun = l; within = h; bounded = v.bounded; waits = λ w. cc; phase = v.phase };
    read = refl;
    sockfd = refl;
    epollfd = refl;
  })
  scanned-IsSafe (ok (line_ok, b, j)) s (k, l, h, inside, z) =
      let m' : ReqStatMach = record m { recvbuf = b; checked_idx = j; lastline_stat = line_ok } in
      let line =
        c_string_ok (recvbuf_size - m.linest_idx) b m.linest_idx k l (omega (arith, v.bounded)) z in
      let after : IsAfter m m' = record {
        sound = record {
          begun = omega arith;
          within = inside;
          bounded = v.bounded;
          waits = λ w. cc;
          phase = v.phase;
        };
        read = refl;
        sockfd = refl;
        epollfd = refl;
      } in
      rw s (
        IsSafe-after m m' _ after (
          line-IsSafe rounds m' (safely j b (omega arith) inside) (parse_line m')
            (dispatch-Handled m' line.0 m.check_stat v.phase v.phase line.1) refl inside v.bounded))

pub parse_lines-IsSafe :
    (rounds : ℕ) (m : ReqStatMach)
    → IsSound m
    → m.read_idx - m.linest_idx < rounds
    → IsSafe m (parse_lines rounds m)
parse_lines-IsSafe zero m v fuel = absurd (omega arith)
parse_lines-IsSafe (suc rounds) m v fuel =
    scanned-IsSafe rounds m v
      (λ j b lt inside m' a l.
        parse_lines-IsSafe rounds m' a.sound (omega (arith, a.read, a.sound.begun, a.sound.within)))
      (scan_of m) refl
      (scan-InRange m.linest_idx m.read_idx v.bounded m.recvbuf (is_waiting_n m.lastline_stat) _
        m.checked_idx (omega (arith, v.within)) v.begun (λ w. inr (v.waits w).1))

received-IsSound :
    (m : ReqStatMach) (bytes : List ℕ)
    → IsSound m
    → m.read_idx + length bytes ≤ recvbuf_size
    → IsSound (received m bytes)
received-IsSound m bytes v room = record {
  begun = v.begun;
  within = omega (arith, v.within);
  bounded = room;
  waits = λ w. (
    omega (arith, v.within),
    blit-before m.recvbuf m.read_idx m.checked_idx bytes (v.waits w).0 ∙ (v.waits w).1,
  );
  phase = v.phase;
}

pub parse_batch-IsSafe :
    (m : ReqStatMach) (bytes : List ℕ)
    → IsSound m
    → m.read_idx + length bytes ≤ recvbuf_size
    → IsSafe (received m bytes) (parse_batch (received m bytes))
unfolding parse_batch
parse_batch-IsSafe m bytes v room =
    parse_lines-IsSafe _ (received m bytes) (received-IsSound m bytes v room) (omega arith)
