-- ===== src/ReqStatMach/Batch/Refine.antt =====
-- `parse_batch` of src/ReqStatMach.h against the byte-at-a-time reading.
use simple_http_serv.Prelude.{
  ℕ, zero, suc, ◌+◌, ◌-◌, ◌≤◌, ◌<◌, ◌≡◌, refl, ap, ap₂, subst, ◌∙◌, inl, inr, Bool, true, false,
  List, [], ◌∷◌, arith, Bool-cases, length,
}
use simple_http_serv.Text.{cr, lf}
use simple_http_serv.ReqStatMach.State.{CheckStat, recvbuf_size, ReqStatMach}
use simple_http_serv.ReqStatMach.Buffer.{slice, At-blit, blit, blit-before, blit-head, slice-blit}
use simple_http_serv.ReqStatMach.Stream.{running, feeds, feeds-cr}
use simple_http_serv.ReqStatMach.Stream.Splits.{Joins}
use simple_http_serv.ReqStatMach.Line.{is_waiting_n}
use simple_http_serv.ReqStatMach.Line.Scan.{Scanned, scan-Scanned, line_end}
use simple_http_serv.ReqStatMach.Batch.{parse_lines, parse_batch, received}
use simple_http_serv.ReqStatMach.Batch.Invariant.{Follows, Refines}
use simple_http_serv.ReqStatMach.Batch.Lines.{InLine, pending, scan_of, Scanned-Refines}

-- Where the last call waited for a line feed, that is the next byte.
abbrev Resumes : ReqStatMach → Type 0
Resumes m =
    is_waiting_n m.lastline_stat ≡ true
    → (m.checked_idx + 1 < m.read_idx)
      × (m.recvbuf m.checked_idx ≡ cr)
      × (m.recvbuf (m.checked_idx + 1) ≡ lf)

scan_of-Scanned :
    (m : ReqStatMach) (cs : CheckStat) (text : List ℕ)
    → InLine cs text m
    → Resumes m
    → Scanned cs m.linest_idx m.read_idx m.recvbuf
        (feeds (running cs text false) (pending m))
        (scan_of m)
scan_of-Scanned m cs text i resumes = elim (Bool-cases (is_waiting_n m.lastline_stat)) [
  | inl w ↦
      let at = resumes w in
      let left : m.read_idx - m.checked_idx ≡ suc (suc (m.read_idx - m.checked_idx - 2)) =
        omega arith in
      rw left (
        line_end cs m.linest_idx m.read_idx i.bounded m.recvbuf (is_waiting_n m.lastline_stat) _
          m.checked_idx text i.stored i.checked (omega arith) at.1 at.2)
  | inr w ↦ rw w (
      scan-Scanned cs m.linest_idx m.read_idx i.bounded m.recvbuf (m.read_idx - m.checked_idx)
        m.checked_idx text i.stored i.checked (omega (arith, i.within)))
]

parse_lines-Refines :
    (rounds : ℕ) (m : ReqStatMach) (cs : CheckStat) (text : List ℕ)
    → InLine cs text m
    → Resumes m
    → m.read_idx - m.linest_idx < rounds
    → Refines (feeds (running cs text false) (pending m)) (parse_lines rounds m)
parse_lines-Refines zero m cs text i resumes fuel = absurd (omega arith)
parse_lines-Refines (suc rounds) m cs text i resumes fuel =
    Scanned-Refines rounds m cs text i
      (λ j b lt cs' t m' i' w l r.
        parse_lines-Refines rounds m' cs' t i' (λ w'. cc) (omega (arith, i'.within, i'.checked)))
      (scan_of m) _ refl (scan_of-Scanned m cs text i resumes)

slice_path : (buf : ℕ → ℕ) (i j n k : ℕ) → i ≡ j → n ≡ k → slice buf i n ≡ slice buf j k
slice_path buf i j n k e h = cc

module _ (cs : CheckStat) (text : List ℕ) (m : ReqStatMach) (bytes : List ℕ)
    (room : m.read_idx + length bytes ≤ recvbuf_size) where
  received-InLine :
      (held : Bool)
      → Follows cs text held m
      → m.checked_idx ≤ m.read_idx
      → InLine cs text (received m bytes)
  received-InLine held f within = record {
    phase = f.phase;
    undecided = f.undecided;
    stored =
        At-blit m.recvbuf m.linest_idx m.read_idx bytes text (omega (arith, f.checked)) f.stored;
    checked = f.checked;
    within = omega arith;
    bounded = room;
  }

  pending-plain : m.checked_idx ≡ m.read_idx → pending (received m bytes) ≡ bytes
  pending-plain e =
      slice_path _ m.checked_idx m.read_idx _ (length bytes) e (omega arith)
      ∙ slice-blit m.recvbuf m.read_idx bytes

  pending-held :
      m.checked_idx + 1 ≡ m.read_idx
      → m.recvbuf m.checked_idx ≡ cr
      → pending (received m bytes) ≡ cr ∷ bytes
  pending-held e c =
      let kept = blit-before m.recvbuf m.read_idx m.checked_idx bytes (omega arith) ∙ c in
      let rest =
        slice_path _ _ m.read_idx _ (length bytes) e refl ∙ slice-blit m.recvbuf m.read_idx bytes in
      slice_path _ m.checked_idx m.checked_idx _ (suc (length bytes)) refl (omega arith)
      ∙ ap₂ (λ x xs. x ∷ xs) kept rest

pub parse_batch-Refines :
    (cs : CheckStat) (text : List ℕ) (held : Bool) (m : ReqStatMach) (bytes : List ℕ)
    → Follows cs text held m
    → Joins held bytes
    → m.read_idx + length bytes ≤ recvbuf_size
    → Refines (feeds (running cs text held) bytes) (parse_batch (received m bytes))
unfolding parse_batch
parse_batch-Refines cs text held m [] f j room = elim j [ ]
parse_batch-Refines cs text false m (c ∷ rest) f j room =
    let bs : List ℕ = c ∷ rest in
    let follows = received-InLine cs text m bs room false f (omega arith) in
    subst (λ xs. Refines (feeds (running cs text false) xs) (parse_batch (received m bs)))
      (pending-plain cs text m bs room f.unread.1)
      (parse_lines-Refines _ (received m bs) cs text follows (λ w. cc) (omega arith))
parse_batch-Refines cs text true m (c ∷ rest) f j room =
    let bs : List ℕ = c ∷ rest in
    let follows = received-InLine cs text m bs room true f (omega arith) in
    subst (λ p. Refines p (parse_batch (received m bs)))
      (ap (feeds (running cs text false)) (pending-held cs text m bs room f.unread.1 f.unread.2)
        ∙ feeds-cr cs text cr bs refl)
      (parse_lines-Refines _ (received m bs) cs text follows
        (λ w. (
          omega arith,
          blit-before m.recvbuf m.read_idx m.checked_idx bs (omega arith) ∙ f.unread.2,
          ap (blit m.recvbuf m.read_idx bs) f.unread.1 ∙ blit-head m.recvbuf m.read_idx c rest ∙ j,
        ))
        (omega arith))
