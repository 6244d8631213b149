-- ===== src/ReqStatMach/Batch/Lines.antt =====
-- The loop of `parse_batch` in src/ReqStatMach.h, one round, against the byte-at-a-time reading.
use simple_http_serv.Prelude.{
  ℕ, suc, ◌+◌, ◌-◌, ◌≤◌, ◌<◌, ◌≡◌, ◌≢◌, refl, sym, ap, subst, ◌∙◌, ◌>>=◌, false, List, some, arith,
  Run, ok, fault, length,
}
use simple_http_serv.Text.{cut}
use simple_http_serv.ReqStatMach.State.{
  CheckStat, reqline, header, entity, ResultCode, no_request, got_request, done_recv, bad_request,
  internal_error, LineStat, line_ok, line_open, line_waiting_n, line_bad, recvbuf_size, Buf, update,
  ReqStatMach,
}
use simple_http_serv.ReqStatMach.Buffer.{slice, At, At-update, c_string, c_string-cut}
use simple_http_serv.ReqStatMach.Request.{parse_requesturi, parse_headers}
use simple_http_serv.ReqStatMach.Stream.{
  Parse, running, done, crashed, end_of_line, settle, next_line, feeds, feeds-done, feeds-crashed,
}
use simple_http_serv.ReqStatMach.Line.{is_waiting_n, scan, check_one_line}
use simple_http_serv.ReqStatMach.Line.Scan.{Scanned}
use simple_http_serv.ReqStatMach.Batch.{parse_line, dispatch, parse_lines}
use simple_http_serv.ReqStatMach.Batch.Invariant.{Refines}

-- Within a batch, before a call of `check_one_line`.
pub record InLine (cs : CheckStat) (text : List ℕ) (m : ReqStatMach) : Type 0 where
  pub phase : m.check_stat ≡ cs
  pub undecided : m.result ≡ no_request
  pub stored : At m.recvbuf m.linest_idx text
  pub checked : m.linest_idx + length text ≡ m.checked_idx
  pub within : m.checked_idx ≤ m.read_idx
  pub bounded : m.read_idx ≤ recvbuf_size

-- What handling a line leaves: the start of the next line, a decision or a fault.
abbrev Advanced : ReqStatMach → Parse → Run ReqStatMach → Type 0
Advanced m (running cs text held) (ok m') =
    InLine cs text m'
    × (held ≡ false)
    × (m'.recvbuf ≡ m.recvbuf)
    × (m'.linest_idx ≡ m.checked_idx)
    × (m'.checked_idx ≡ m.checked_idx)
    × (m'.read_idx ≡ m.read_idx)
    × (m'.lastline_stat ≡ m.lastline_stat)
Advanced m (done r) (ok m') = (m'.result ≡ r) × (r ≢ no_request)
Advanced m (crashed f) (fault g) = g ≡ f
Advanced m (running cs text held) (fault g) = ⊥
Advanced m (done r) (fault g) = ⊥
Advanced m (crashed f) (ok m') = ⊥

module _ (m : ReqStatMach) (text : List ℕ) (within : m.checked_idx ≤ m.read_idx)
    (bounded : m.read_idx ≤ recvbuf_size) where
  reqline-Advanced :
      (r : Run ResultCode)
      → parse_requesturi (cut text) ≡ r
      → c_string (recvbuf_size - m.linest_idx) m.recvbuf m.linest_idx ≡ ok (cut text)
      → Advanced m
          (settle r)
          (dispatch reqline (record m { linest_idx = m.checked_idx }) m.linest_idx)
  unfolding dispatch
  reqline-Advanced (ok no_request) e c =
      rw (c, e)
        (
          record {
            phase = refl;
            undecided = refl;
            stored = tt;
            checked = omega arith;
            within = within;
            bounded = bounded;
          },
          refl,
          refl,
          refl,
          refl,
          refl,
          refl,
        )
  reqline-Advanced (ok got_request) e c = rw (c, e) (refl, λ h. cc)
  reqline-Advanced (ok done_recv) e c = rw (c, e) (refl, λ h. cc)
  reqline-Advanced (ok bad_request) e c = rw (c, e) (refl, λ h. cc)
  reqline-Advanced (ok internal_error) e c = rw (c, e) (refl, λ h. cc)
  reqline-Advanced (fault f) e c = rw (c, e) refl

  header-Advanced :
      (r : ResultCode)
      → m.check_stat ≡ header
      → parse_headers (some (cut text)) ≡ r
      → c_string (recvbuf_size - m.linest_idx) m.recvbuf m.linest_idx ≡ ok (cut text)
      → Advanced m
          (next_line r)
          (dispatch header (record m { linest_idx = m.checked_idx }) m.linest_idx)
  unfolding dispatch
  header-Advanced no_request p e c =
      rw (c, e)
        (
          record {
            phase = p;
            undecided = refl;
            stored = tt;
            checked = omega arith;
            within = within;
            bounded = bounded;
          },
          refl,
          refl,
          refl,
          refl,
          refl,
          refl,
        )
  header-Advanced got_request p e c = rw (c, e) (refl, λ h. cc)
  header-Advanced done_recv p e c = rw (c, e) (refl, λ h. cc)
  header-Advanced bad_request p e c = rw (c, e) (refl, λ h. cc)
  header-Advanced internal_error p e c = rw (c, e) (refl, λ h. cc)

  parse_line-Advanced :
      (cs : CheckStat)
      → m.check_stat ≡ cs
      → c_string (recvbuf_size - m.linest_idx) m.recvbuf m.linest_idx ≡ ok (cut text)
      → Advanced m (end_of_line cs text) (parse_line m)
  unfolding parse_line end_of_line
  parse_line-Advanced cs p c =
      subst
        (λ s.
          Advanced m (end_of_line cs text)
            (dispatch s (record m { linest_idx = m.checked_idx }) m.linest_idx))
        (sym p) (by_phase cs p c)
    where
      by_phase :
          (s : CheckStat)
          → m.check_stat ≡ s
          → c_string (recvbuf_size - m.linest_idx) m.recvbuf m.linest_idx ≡ ok (cut text)
          → Advanced m
              (end_of_line s text)
              (dispatch s (record m { linest_idx = m.checked_idx }) m.linest_idx)
      by_phase reqline q d = reqline-Advanced _ refl d
      by_phase header q d = header-Advanced _ q refl d
      by_phase entity q d = refl

-- The unread bytes of a batch.
abbrev pub pending : ReqStatMach → List ℕ
pending m = slice m.recvbuf m.checked_idx (m.read_idx - m.checked_idx)

abbrev pub scan_of : ReqStatMach → Run (LineStat × Buf × ℕ)
scan_of m =
    scan (is_waiting_n m.lastline_stat) m.read_idx (m.read_idx - m.checked_idx) m.recvbuf
      m.checked_idx

-- The rounds after a handled line.
abbrev pub Onward : ℕ → ReqStatMach → Type 0
Onward rounds m =
    (cs : CheckStat) (text : List ℕ) (m' : ReqStatMach)
    → InLine cs text m'
    → is_waiting_n m'.lastline_stat ≡ false
    → m'.linest_idx ≡ m.checked_idx
    → m'.read_idx ≡ m.read_idx
    → Refines (feeds (running cs text false) (pending m')) (parse_lines rounds m')

module _ (rounds : ℕ) (m : ReqStatMach) (onward : Onward rounds m) where
  decided-Refines :
      (m' : ReqStatMach) (r : ResultCode)
      → m'.result ≡ r
      → r ≢ no_request
      → Refines (done r) (elim m'.result [ no_request ↦ parse_lines rounds m' | _ ↦ ok m' ])
  decided-Refines m' no_request e h = absurd (h refl)
  decided-Refines m' got_request e h = rw e (e, h)
  decided-Refines m' done_recv e h = rw e (e, h)
  decided-Refines m' bad_request e h = rw e (e, h)
  decided-Refines m' internal_error e h = rw e (e, h)

  line-Refines :
      (p : Parse) (run : Run ReqStatMach)
      → is_waiting_n m.lastline_stat ≡ false
      → Advanced m p run
      → Refines
          (feeds p (pending m))
          (run >>= λ m'. elim m'.result [ no_request ↦ parse_lines rounds m' | _ ↦ ok m' ])
  line-Refines (running cs text held) (ok m') w (i, h, b, s, c, r, l) =
      let same : pending m' ≡ pending m = rw (b, c, r) in
      rw (i.undecided, h, ← same) (onward cs text m' i (ap is_waiting_n l ∙ w) s r)
  line-Refines (done r) (ok m') w (e, h) = rw (feeds-done r (pending m)) (decided-Refines m' r e h)
  line-Refines (crashed f) (fault g) w e = rw (feeds-crashed f (pending m)) e
  line-Refines (running cs text held) (fault g) w h = elim h [ ]
  line-Refines (done r) (fault g) w h = elim h [ ]
  line-Refines (crashed f) (ok m') w h = elim h [ ]

module _ (rounds : ℕ) (m : ReqStatMach) (cs : CheckStat) (text : List ℕ) (i : InLine cs text m)
    (onward : (j : ℕ) (b : Buf)
      → m.linest_idx < j
      → Onward rounds (record m { recvbuf = b; checked_idx = j; lastline_stat = line_ok })) where
  -- The NUL behind the line bounds the C string that is parsed.
  line_text :
      (t : List ℕ) (k : ℕ)
      → k ≡ m.linest_idx + length t
      → k + 2 ≤ m.read_idx
      → At m.recvbuf m.linest_idx t
      → c_string
          (recvbuf_size - m.linest_idx)
          (update (update m.recvbuf k 0) (k + 1) 0)
          m.linest_idx
        ≡ ok (cut t)
  line_text t k at inside a =
      c_string-cut _ _ m.linest_idx k t
        (At-update _ m.linest_idx (k + 1) 0 t (omega arith)
          (At-update _ m.linest_idx k 0 t (omega arith) a))
        (omega arith) (ground arith) (omega (arith, i.bounded))

  pub Scanned-Refines :
      (r : Run (LineStat × Buf × ℕ)) (p : Parse)
      → scan_of m ≡ r
      → Scanned cs m.linest_idx m.read_idx m.recvbuf p r
      → Refines p (parse_lines (suc rounds) m)
  unfolding parse_lines check_one_line
  Scanned-Refines (fault e) p s h = elim h [ ]
  Scanned-Refines (ok (line_open, b, j)) p s (t, e, same, at_end, a, k) =
      rw (e, s)
        (record {
          phase = i.phase;
          undecided = i.undecided;
          stored = rw same a;
          checked = omega arith;
          unread = (refl, at_end);
          bounded = i.bounded;
        })
  Scanned-Refines (ok (line_waiting_n, b, j)) p s (t, e, same, at_end, a, k, c) =
      rw (e, s)
        (record {
          phase = i.phase;
          undecided = i.undecided;
          stored = rw same a;
          checked = k;
          unread = (refl, at_end, rw same c);
          bounded = i.bounded;
        })
  Scanned-Refines (ok (line_bad, b, j)) p s e = rw (e, s) (refl, λ h. cc)
  Scanned-Refines (ok (line_ok, b, j)) p s (t, k, e, at, next, inside, a, new) =
      let m' : ReqStatMach = record m { recvbuf = b; checked_idx = j; lastline_stat = line_ok } in
      rw (e, s)
        (line-Refines rounds m' (onward j b (omega arith)) (end_of_line cs t) (parse_line m') refl (
          parse_line-Advanced m' t inside i.bounded cs i.phase
            (rw new (line_text t k at (omega arith) a))))
