-- ===== src/ReqStatMach/Line/Safety.antt =====
-- `check_one_line` of src/ReqStatMach.h stays inside the received bytes, however the bytes are
-- split into batches.
use simple_http_serv.Prelude.{
  ℕ, zero, suc, ◌+◌, ◌≤◌, ◌<◌, ◌≡◌, refl, ◌⊎◌, inl, inr, Bool, true, false, arith, Run, ok, fault,
  ◌==◌, Bool-cases,
}
use simple_http_serv.Text.{cr, lf}
use simple_http_serv.ReqStatMach.State.{
  LineStat, line_ok, line_open, line_waiting_n, line_bad, Buf, update, recvbuf_size,
}
use simple_http_serv.ReqStatMach.Line.{scan}
use simple_http_serv.ReqStatMach.Line.Steps.{
  scan-cr_last, scan-cr-lf, scan-cr_other, scan_other, scan-lf,
}

-- No fault; the index stays within the bytes read; a complete line ends in a NUL; a scan that
-- waits stands on a carriage return.
abbrev pub InRange : (linest read : ℕ) → Run (LineStat × Buf × ℕ) → Type 0
InRange linest read (fault e) = ⊥
InRange linest read (ok (line_ok, b, j)) = (k : ℕ) × (linest ≤ k) × (k < j) × (j ≤ read) × (b k ≡ 0)
InRange linest read (ok (line_open, b, j)) = (linest ≤ j) × (j ≤ read)
InRange linest read (ok (line_waiting_n, b, j)) = (linest ≤ j) × (j < read) × (b j ≡ cr)
InRange linest read (ok (line_bad, b, j)) = (linest ≤ j) × (j ≤ read)

scan-lf_waiting :
    (read rounds : ℕ) (buf : Buf) (i : ℕ)
    → suc i < recvbuf_size
    → buf (suc i) ≡ lf
    → scan true read (suc rounds) buf (suc i)
      ≡ ok (line_ok, update (update buf i 0) (suc i) 0, suc i + 1)
unfolding scan
scan-lf_waiting read rounds buf i inside n = ground arith

module _ (linest read : ℕ) (bounded : read ≤ recvbuf_size) (buf : Buf) where
  lf-InRange :
      (waiting : Bool) (rounds i : ℕ)
      → i + suc rounds ≡ read
      → linest ≤ i
      → (waiting ≡ true → linest < i)
      → buf i ≡ lf
      → InRange linest read (scan waiting read (suc rounds) buf i)
  lf-InRange false rounds i r l w n =
      rw (scan-lf false read rounds buf i (omega arith) n) (l, omega arith)
  lf-InRange true rounds zero r l w n = absurd (omega (arith, w refl))
  lf-InRange true rounds (suc i) r l w n =
      rw (scan-lf_waiting read rounds buf i (omega arith) n)
        (i, omega (arith, w refl), omega arith, omega arith, ground arith)

  cr-InRange :
      (waiting : Bool) (rounds i : ℕ)
      → i + suc rounds ≡ read
      → linest ≤ i
      → buf i ≡ cr
      → InRange linest read (scan waiting read rounds buf (i + 1))
      → InRange linest read (scan waiting read (suc rounds) buf i)
  cr-InRange waiting zero i r l c rest =
      rw (scan-cr_last waiting read zero buf i (omega arith) c (omega arith)) (l, omega arith, c)
  cr-InRange waiting (suc rounds) i r l c rest = elim (Bool-cases (buf (i + 1) == lf)) [
    | inl n ↦
        rw
          (scan-cr-lf waiting read (suc rounds) buf i (omega arith) c (omega arith) (omega arith)
            (ground arith))
          (i, l, omega arith, omega arith, ground arith)
    | inr n ↦
        rw
          (scan-cr_other waiting read (suc rounds) buf i (omega arith) c (omega arith) (omega arith)
            (ground arith))
          rest
  ]

  -- A line feed at the start of a scan that waits would be paired with the byte before the scan.
  pub scan-InRange :
      (waiting : Bool) (rounds i : ℕ)
      → i + rounds ≡ read
      → linest ≤ i
      → (waiting ≡ true → (linest < i) ⊎ (buf i ≡ cr))
      → InRange linest read (scan waiting read rounds buf i)
  unfolding scan
  scan-InRange waiting zero i r l w = (l, omega arith)
  scan-InRange waiting (suc rounds) i r l w =
      let rest =
        scan-InRange waiting rounds (i + 1) (omega arith) (omega arith) (λ _. inl (omega arith)) in
      elim (Bool-cases (buf i == cr)) [
        | inl c ↦ cr-InRange waiting rounds i r l (ground arith) rest
        | inr c ↦ elim (Bool-cases (buf i == lf)) [
          | inl n ↦ lf-InRange waiting rounds i r l (λ e. ground (arith, w e)) (ground arith)
          | inr n ↦
              rw (scan_other waiting read rounds buf i (omega arith) (ground arith) (ground arith))
                rest
        ]
      ]
