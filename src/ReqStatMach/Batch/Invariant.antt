-- ===== src/ReqStatMach/Batch/Invariant.antt =====
-- How the machine's state follows the byte-at-a-time reading.
use simple_http_serv.Prelude.{
  ℕ, ◌+◌, ◌≤◌, ◌≡◌, ◌≢◌, Bool, true, false, List, Run, ok, fault, length,
}
use simple_http_serv.Text.{cr}
use simple_http_serv.ReqStatMach.State.{CheckStat, no_request, recvbuf_size, ReqStatMach}
use simple_http_serv.ReqStatMach.Buffer.{At}
use simple_http_serv.ReqStatMach.Stream.{Parse, running, done, crashed}
use simple_http_serv.ReqStatMach.Line.{is_waiting_n}

-- The unread end of the buffer: nothing, or a carriage return that waits for its line feed.
abbrev pub Unread : Bool → ReqStatMach → Type 0
Unread false m = (is_waiting_n m.lastline_stat ≡ false) × (m.checked_idx ≡ m.read_idx)
Unread true m =
    (is_waiting_n m.lastline_stat ≡ true)
    × (m.checked_idx + 1 ≡ m.read_idx)
    × (m.recvbuf m.checked_idx ≡ cr)

-- Between two batches, in phase `cs`, with `text` of the current line in the buffer.
pub record Follows (cs : CheckStat) (text : List ℕ) (held : Bool) (m : ReqStatMach) : Type 0 where
  pub phase : m.check_stat ≡ cs
  pub undecided : m.result ≡ no_request
  pub stored : At m.recvbuf m.linest_idx text
  pub checked : m.linest_idx + length text ≡ m.checked_idx
  pub unread : Unread held m
  pub bounded : m.read_idx ≤ recvbuf_size

-- A run of the machine agrees with a reading of the same bytes: it goes on, decides or faults
-- where the reading does, and in the same way.
abbrev pub Refines : Parse → Run ReqStatMach → Type 0
Refines (running cs text held) (ok m) = Follows cs text held m
Refines (done r) (ok m) = (m.result ≡ r) × (r ≢ no_request)
Refines (crashed f) (fault g) = g ≡ f
Refines (running cs text held) (fault g) = ⊥
Refines (done r) (fault g) = ⊥
Refines (crashed f) (ok m) = ⊥
