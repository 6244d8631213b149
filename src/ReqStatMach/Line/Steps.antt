-- ===== src/ReqStatMach/Line/Steps.antt =====
-- One round of the loop in `check_one_line`, case by case.
use simple_http_serv.Prelude.{ℕ, suc, ◌+◌, ◌<◌, ◌≡◌, ◌≢◌, Bool, false, arith, ok}
use simple_http_serv.Text.{cr, lf}
use simple_http_serv.ReqStatMach.State.{
  line_ok, line_waiting_n, line_bad, Buf, update, recvbuf_size,
}
use simple_http_serv.ReqStatMach.Line.{scan}

module _ (waiting : Bool) (read rounds : ℕ) (buf : Buf) (i : ℕ) (inside : i < recvbuf_size) where
  pub scan-cr_last :
      buf i ≡ cr → i + 1 ≡ read → scan waiting read (suc rounds) buf i ≡ ok (line_waiting_n, buf, i)
  unfolding scan
  scan-cr_last c last = ground arith

  pub scan-cr-lf :
      buf i ≡ cr
      → i + 1 < read
      → i + 1 < recvbuf_size
      → buf (i + 1) ≡ lf
      → scan waiting read (suc rounds) buf i
        ≡ ok (line_ok, update (update buf i 0) (i + 1) 0, i + 2)
  unfolding scan
  scan-cr-lf c more room n = ground arith

  pub scan-cr_other :
      buf i ≡ cr
      → i + 1 < read
      → i + 1 < recvbuf_size
      → buf (i + 1) ≢ lf
      → scan waiting read (suc rounds) buf i ≡ scan waiting read rounds buf (i + 1)
  unfolding scan
  scan-cr_other c more room n = ground arith

  pub scan_other :
      buf i ≢ cr
      → buf i ≢ lf
      → scan waiting read (suc rounds) buf i ≡ scan waiting read rounds buf (i + 1)
  unfolding scan
  scan_other c n = ground arith

  pub scan-lf : buf i ≡ lf → scan false read (suc rounds) buf i ≡ ok (line_bad, buf, i)
  unfolding scan
  scan-lf n = ground arith
