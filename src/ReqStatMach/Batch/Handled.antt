-- ===== src/ReqStatMach/Batch/Handled.antt =====
-- What `parse_line` of src/ReqStatMach.h leaves alone, and the machine states that keep its indices
-- inside the buffer.
use simple_http_serv.Prelude.{
  ℕ, zero, suc, ◌+◌, ◌-◌, ◌≤◌, ◌<◌, ◌≡◌, ◌≢◌, refl, ap, ◌∙◌, inl, inr, true, false, List, [], ◌∷◌,
  arith, Run, ok, fault, Fault, null_deref, ◌>>=◌, ◌==◌, Bool-cases,
}
use simple_http_serv.Text.{cr}
use simple_http_serv.ReqStatMach.State.{
  CheckStat, reqline, header, entity, ResultCode, no_request, got_request, done_recv, bad_request,
  internal_error, Buf, recvbuf_size, ReqStatMach,
}
use simple_http_serv.ReqStatMach.Buffer.{c_string}
use simple_http_serv.ReqStatMach.Request.{parse_requesturi}
use simple_http_serv.ReqStatMach.Line.{is_waiting_n}
use simple_http_serv.ReqStatMach.Batch.{after_reqline, dispatch, parse_lines}

-- The indices stand in order within the buffer, a machine that waits for a line feed stands on a
-- carriage return, and the phase is one that the machine enters.
pub record IsSound (m : ReqStatMach) : Type 0 where
  pub begun : m.linest_idx ≤ m.checked_idx
  pub within : m.checked_idx ≤ m.read_idx
  pub bounded : m.read_idx ≤ recvbuf_size
  pub waits :
      is_waiting_n m.lastline_stat ≡ true
      → (m.checked_idx < m.read_idx) × (m.recvbuf m.checked_idx ≡ cr)
  pub phase : m.check_stat ≢ entity

-- A sound machine, with the bytes and the connection of `m`.
pub record IsAfter (m m' : ReqStatMach) : Type 0 where
  pub sound : IsSound m'
  pub read : m'.read_idx ≡ m.read_idx
  pub sockfd : m'.sockfd ≡ m.sockfd
  pub epollfd : m'.epollfd ≡ m.epollfd

abbrev pub IsSafe : ReqStatMach → Run ReqStatMach → Type 0
IsSafe m (ok m') = IsAfter m m'
IsSafe m (fault f) = f ≡ null_deref

pub c_string_ok :
    (n : ℕ) (buf : Buf) (i k : ℕ)
    → i ≤ k
    → k < i + n
    → buf k ≡ 0
    → (text : List ℕ) × (c_string n buf i ≡ ok text)
unfolding c_string
c_string_ok zero buf i k l h z = absurd (omega arith)
c_string_ok (suc n) buf i k l h z = elim (Bool-cases (buf i == 0)) [
  | inl e ↦ ([], rw e)
  | inr e ↦
      let rest = c_string_ok n buf (i + 1) k (grind arith) (omega arith) z in
      (buf i ∷ rest.0, rw (e, rest.1))
]

requesturi_fault : (line : List ℕ) (f : Fault) → parse_requesturi line ≡ fault f → f ≡ null_deref
unfolding parse_requesturi
requesturi_fault line f e = ground arith

-- What a handled line leaves alone.
abbrev pub Handled : ReqStatMach → Run ReqStatMach → Type 0
Handled m (ok m') =
    (m'.linest_idx ≡ m.checked_idx)
    × (m'.checked_idx ≡ m.checked_idx)
    × (m'.read_idx ≡ m.read_idx)
    × (m'.recvbuf ≡ m.recvbuf)
    × (m'.lastline_stat ≡ m.lastline_stat)
    × (m'.sockfd ≡ m.sockfd)
    × (m'.epollfd ≡ m.epollfd)
    × (m'.check_stat ≢ entity)
Handled m (fault f) = f ≡ null_deref

module _ (m : ReqStatMach) (text : List ℕ) where
  reqline-Handled :
      (r : Run ResultCode)
      → parse_requesturi text ≡ r
      → m.check_stat ≢ entity
      → Handled m (do res ← r; ok (after_reqline (record m { linest_idx = m.checked_idx }) res))
  reqline-Handled (ok no_request) e p = (refl, refl, refl, refl, refl, refl, refl, λ h. cc)
  reqline-Handled (ok got_request) e p = (refl, refl, refl, refl, refl, refl, refl, p)
  reqline-Handled (ok done_recv) e p = (refl, refl, refl, refl, refl, refl, refl, p)
  reqline-Handled (ok bad_request) e p = (refl, refl, refl, refl, refl, refl, refl, p)
  reqline-Handled (ok internal_error) e p = (refl, refl, refl, refl, refl, refl, refl, p)
  reqline-Handled (fault f) e p = requesturi_fault text f e

  pub dispatch-Handled :
      (cs : CheckStat)
      → m.check_stat ≢ entity
      → cs ≢ entity
      → c_string (recvbuf_size - m.linest_idx) m.recvbuf m.linest_idx ≡ ok text
      → Handled m (dispatch cs (record m { linest_idx = m.checked_idx }) m.linest_idx)
  unfolding dispatch
  dispatch-Handled reqline p q c = rw c (reqline-Handled _ refl p)
  dispatch-Handled header p q c = rw c (refl, refl, refl, refl, refl, refl, refl, p)
  dispatch-Handled entity p q c = absurd (q refl)

-- The rounds after a handled line.
abbrev pub Safely : ℕ → ReqStatMach → Type 0
Safely rounds m =
    (m' : ReqStatMach)
    → IsAfter m m'
    → m'.linest_idx ≡ m.checked_idx
    → IsSafe m' (parse_lines rounds m')

pub IsSafe-after :
    (m m' : ReqStatMach) (run : Run ReqStatMach) → IsAfter m m' → IsSafe m' run → IsSafe m run
IsSafe-after m m' (ok m'') a s = record {
  sound = s.sound;
  read = s.read ∙ a.read;
  sockfd = s.sockfd ∙ a.sockfd;
  epollfd = s.epollfd ∙ a.epollfd;
}
IsSafe-after m m' (fault f) a s = s

module _ (rounds : ℕ) (m : ReqStatMach) (safely : Safely rounds m) where
  resumed-IsSafe :
      (m' : ReqStatMach)
      → IsAfter m m'
      → m'.linest_idx ≡ m.checked_idx
      → (r : ResultCode) → m'.result ≡ r
      → IsSafe m (elim m'.result [ no_request ↦ parse_lines rounds m' | _ ↦ ok m' ])
  resumed-IsSafe m' a l no_request e = rw e (IsSafe-after m m' _ a (safely m' a l))
  resumed-IsSafe m' a l got_request e = rw e a
  resumed-IsSafe m' a l done_recv e = rw e a
  resumed-IsSafe m' a l bad_request e = rw e a
  resumed-IsSafe m' a l internal_error e = rw e a

  pub line-IsSafe :
      (run : Run ReqStatMach)
      → Handled m run
      → is_waiting_n m.lastline_stat ≡ false
      → m.checked_idx ≤ m.read_idx
      → m.read_idx ≤ recvbuf_size
      → IsSafe m (run >>= λ m'. elim m'.result [ no_request ↦ parse_lines rounds m' | _ ↦ ok m' ])
  line-IsSafe (fault f) e w c b = e
  line-IsSafe (ok m') (l, c, r, u, s, fd, ep, p) w within bounded =
      resumed-IsSafe m'
        (record {
          sound = record {
            begun = omega arith;
            within = omega arith;
            bounded = omega arith;
            waits = λ h. absurd (ground (arith, ap is_waiting_n s ∙ w));
            phase = p;
          };
          read = r;
          sockfd = fd;
          epollfd = ep;
        })
        l _ refl
