-- ===== src/ReqStatMach/Line/Scan.antt =====
-- The loop of `check_one_line` in src/ReqStatMach.h against the byte-at-a-time reading.
use simple_http_serv.Prelude.{
  ℕ, zero, suc, ◌+◌, ◌-◌, ◌≤◌, ◌≡◌, refl, ap, ◌∙◌, inl, inr, Bool, true, false, List, [], ◌∷◌, ◌++◌,
  arith, Run, ok, fault, ◌==◌, Bool-cases, length, length-append,
}
use simple_http_serv.Text.{cr, lf}
use simple_http_serv.ReqStatMach.State.{
  CheckStat, bad_request, LineStat, line_ok, line_open, line_waiting_n, line_bad, Buf, update,
  recvbuf_size,
}
use simple_http_serv.ReqStatMach.Buffer.{slice, At, At-snoc, slice-update}
use simple_http_serv.ReqStatMach.Stream.{
  Parse, running, done, end_of_line, feeds, feeds-cr, feeds-lf, feeds_other, feeds_held_lf,
  feeds_release, feeds_nil,
}
use simple_http_serv.ReqStatMach.Line.{scan}
use simple_http_serv.ReqStatMach.Line.Steps.{
  scan-cr_last, scan-cr-lf, scan-cr_other, scan_other, scan-lf,
}

-- What a scan of the line that starts at `linest` leaves, when the unread bytes lead the reading
-- to `p`.
abbrev pub Scanned :
    (cs : CheckStat) (linest read : ℕ) (buf : Buf) → Parse → Run (LineStat × Buf × ℕ) → Type 0
Scanned cs linest read buf p (fault e) = ⊥
Scanned cs linest read buf p (ok (line_open, b, j)) =
    (text : List ℕ) × (p ≡ running cs text false)
    × (b ≡ buf)
    × (j ≡ read)
    × At buf linest text
    × (linest + length text ≡ read)
Scanned cs linest read buf p (ok (line_waiting_n, b, j)) =
    (text : List ℕ) × (p ≡ running cs text true)
    × (b ≡ buf)
    × (j + 1 ≡ read)
    × At buf linest text
    × (linest + length text ≡ j)
    × (buf j ≡ cr)
Scanned cs linest read buf p (ok (line_bad, b, j)) = p ≡ done bad_request
Scanned cs linest read buf p (ok (line_ok, b, j)) =
    (text : List ℕ) × (k : ℕ) × (p ≡ feeds (end_of_line cs text) (slice b j (read - j)))
    × (k ≡ linest + length text)
    × (j ≡ k + 2)
    × (j ≤ read)
    × At buf linest text
    × (b ≡ update (update buf k 0) (k + 1) 0)

module _ (cs : CheckStat) (linest read : ℕ) (bounded : read ≤ recvbuf_size) (buf : Buf) where
  abbrev pub Goal : Bool → ℕ → ℕ → List ℕ → Type 0
  Goal waiting rounds i text =
      Scanned cs linest read buf (feeds (running cs text false) (slice buf i rounds))
        (scan waiting read rounds buf i)

  same_rest :
      (rounds i : ℕ)
      → i + suc (suc rounds) ≡ read
      → slice buf (i + 1 + 1) rounds
        ≡ slice (update (update buf i 0) (i + 1) 0) (i + 2) (read - (i + 2))
  same_rest rounds i r =
      let left : read - (i + 2) ≡ rounds = omega arith in
      rw
        (
          left,
          slice-update (update buf i 0) (i + 2) (i + 1) 0 rounds (omega arith),
          slice-update buf (i + 2) i 0 rounds (omega arith),
        )
        (ap (λ j. slice buf j rounds) (omega arith))

  pub line_end :
      (waiting : Bool) (rounds i : ℕ) (text : List ℕ)
      → At buf linest text
      → linest + length text ≡ i
      → i + suc (suc rounds) ≡ read
      → buf i ≡ cr
      → buf (i + 1) ≡ lf
      → Goal waiting (suc (suc rounds)) i text
  line_end waiting rounds i text a e r c n =
      rw (scan-cr-lf waiting read (suc rounds) buf i (omega arith) c (omega arith) (omega arith) n)
        (
          text,
          i,
          feeds-cr cs text (buf i) _ c
              ∙ feeds_held_lf cs text (buf (i + 1)) _ n
              ∙ ap (feeds (end_of_line cs text)) (same_rest rounds i r),
          omega arith,
          refl,
          omega arith,
          a,
          refl,
        )

  -- The case of a carriage return, given what the rest of the scan does.
  cr-Goal :
      (rounds i : ℕ) (text : List ℕ)
      → At buf linest text
      → linest + length text ≡ i
      → i + suc rounds ≡ read
      → buf i ≡ cr
      → Goal false rounds (i + 1) (text ++ cr ∷ [])
      → Goal false (suc rounds) i text
  cr-Goal zero i text a e r c rest =
      rw
        (
          scan-cr_last false read zero buf i (omega arith) c (omega arith),
          feeds-cr cs text (buf i) [] c,
        )
        (text, feeds_nil _, refl, omega arith, a, e, c)
  cr-Goal (suc rounds) i text a e r c rest = elim (Bool-cases (buf (i + 1) == lf)) [
    | inl n ↦ line_end false rounds i text a e r c (ground arith)
    | inr n ↦
        rw
          (
            scan-cr_other false read (suc rounds) buf i (omega arith) c (omega arith) (omega arith)
                (ground arith),
            feeds-cr cs text (buf i) _ c,
            feeds_release cs text (buf (i + 1)) _ (ground arith),
          )
          rest
  ]

  pub scan-Scanned :
      (rounds i : ℕ) (text : List ℕ)
      → At buf linest text
      → linest + length text ≡ i
      → i + rounds ≡ read
      → Goal false rounds i text
  unfolding scan
  scan-Scanned zero i text a e r = (text, feeds_nil _, refl, omega arith, a, omega arith)
  scan-Scanned (suc rounds) i text a e r =
      let grown = λ (c : ℕ) (h : buf i ≡ c).
        scan-Scanned rounds (i + 1) (text ++ c ∷ []) (At-snoc buf linest i c text e h a)
          (omega (arith, length-append text (c ∷ []))) (omega arith) in
      elim (Bool-cases (buf i == cr)) [
        | inl c ↦ cr-Goal rounds i text a e r (ground arith) (grown cr (ground arith))
        | inr c ↦ elim (Bool-cases (buf i == lf)) [
          | inl n ↦
              rw (scan-lf false read rounds buf i (omega arith) (ground arith))
                (feeds-lf cs text (buf i) _ (ground arith))
          | inr n ↦
              rw
                (
                  scan_other false read rounds buf i (omega arith) (ground arith) (ground arith),
                  feeds_other cs text (buf i) (slice buf (i + 1) rounds) (ground arith)
                      (ground arith),
                )
                (grown (buf i) refl)
        ]
      ]
