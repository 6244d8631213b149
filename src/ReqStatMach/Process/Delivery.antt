-- ===== src/ReqStatMach/Process/Delivery.antt =====
-- `process` of src/ReqStatMach.h against the byte-at-a-time reading of what arrives.
use simple_http_serv.Prelude.{
  ℕ, zero, suc, ◌+◌, ◌-◌, ◌≤◌, ◌<◌, ◌≡◌, refl, sym, ap, subst, ◌∙◌, List, [], ◌∷◌, arith, Run, ok,
  fault, ◌>>=◌, Bool, false, length,
}
use simple_http_serv.Prelude.Int.{ℤ, minus_one}
use simple_http_serv.Sys.{Recv, SockAddr, Action, eagain, Received, failed, bytes}
use simple_http_serv.ReqStatMach.State.{
  CheckStat, reqline, ResultCode, no_request, done_recv, internal_error, recvbuf_size, ReqStatMach,
  init,
}
use simple_http_serv.ReqStatMach.Stream.{
  Parse, running, done, crashed, start, feeds, feeds_nil, feeds-append, feeds-done, feeds-crashed,
}
use simple_http_serv.ReqStatMach.Stream.Splits.{AreJoined, join}
use simple_http_serv.ReqStatMach.Batch.{parse_batch, received}
use simple_http_serv.ReqStatMach.Batch.Invariant.{Follows, Refines}
use simple_http_serv.ReqStatMach.Batch.Refine.{parse_batch-Refines}
use simple_http_serv.ReqStatMach.Batch.Handled.{IsSound, IsSafe, IsAfter}
use simple_http_serv.ReqStatMach.Batch.Safety.{parse_batch-IsSafe}
use simple_http_serv.ReqStatMach.Process.{on_received, recv_loop, conclude, process}
use simple_http_serv.ReqStatMach.Process.Loop.{loop_undecided, loop_decided}
use simple_http_serv.ReqStatMach.Process.Safety.{RecvFits, conclude-same, init-IsSound}

-- From call `round` on, with `used` bytes of the buffer taken, `recv` hands over these batches, and
-- then answers `last`.
abbrev pub Delivers : Recv → (round : ℕ) → (fd : ℤ) → (used : ℕ) → List (List ℕ) → Received → Type 0
Delivers recv round fd used [] last = recv round fd (recvbuf_size - used) ≡ last
Delivers recv round fd used (b ∷ bs) last =
    (recv round fd (recvbuf_size - used) ≡ bytes b)
    × Delivers recv (round + 1) fd (used + length b) bs last

-- `recv` fails, or the peer has closed its side.
abbrev pub IsEnd : Received → Type 0
IsEnd (failed e) = Unit
IsEnd (bytes []) = Unit
IsEnd (bytes (c ∷ cs)) = ⊥

-- What is to come of a reading when `last` ends it.
abbrev pub verdict : Parse → Received → Run ResultCode
verdict (done r) last = ok r
verdict (crashed f) last = fault f
verdict (running cs text held) (failed eagain) = ok no_request
verdict (running cs text held) (failed e) = ok internal_error
verdict (running cs text held) (bytes b) = ok done_recv

-- The loop's end: the decision, on the connection of `m`.
pub record Decides (m : ReqStatMach) (r : ResultCode) (run : Run ReqStatMach) : Type 0 where
  pub last : ReqStatMach
  pub returns : run ≡ ok last
  pub result : last.result ≡ r
  pub sockfd : last.sockfd ≡ m.sockfd
  pub epollfd : last.epollfd ≡ m.epollfd

abbrev pub Concludes : ReqStatMach → Run ResultCode → Run ReqStatMach → Type 0
Concludes m (ok r) run = Decides m r run
Concludes m (fault f) run = run ≡ fault f

Concludes-from :
    (m m' : ReqStatMach) (v : Run ResultCode) (run : Run ReqStatMach)
    → m'.sockfd ≡ m.sockfd
    → m'.epollfd ≡ m.epollfd
    → Concludes m' v run
    → Concludes m v run
Concludes-from m m' (ok r) run s e d = record {
  last = d.last;
  returns = d.returns;
  result = d.result;
  sockfd = d.sockfd ∙ s;
  epollfd = d.epollfd ∙ e;
}
Concludes-from m m' (fault f) run s e d = d

Delivers-path :
    (recv : Recv) (round : ℕ) (bs : List (List ℕ)) (last : Received) {fd fd' : ℤ} {used used' : ℕ}
    → fd ≡ fd'
    → used ≡ used'
    → Delivers recv round fd used bs last
    → Delivers recv round fd' used' bs last
Delivers-path recv round bs last {fd'} {used} e h d =
    subst (λ u. Delivers recv round fd' u bs last) h
      (subst (λ x. Delivers recv round x used bs last) e d)

-- The loop's last call of `recv`.
end-Concludes :
    (again : ReqStatMach → Run ReqStatMach) (m : ReqStatMach) (cs : CheckStat) (text : List ℕ)
    (held : Bool) (last : Received)
    → Follows cs text held m
    → IsEnd last
    → Concludes m (verdict (running cs text held) last) (on_received again m last)
unfolding on_received
end-Concludes again m cs text held (failed eagain) f i = record {
  last = m;
  returns = refl;
  result = f.undecided;
  sockfd = refl;
  epollfd = refl;
}
end-Concludes again m cs text held (failed e) f i = record {
  last = _;
  returns = refl;
  result = refl;
  sockfd = refl;
  epollfd = refl;
}
end-Concludes again m cs text held (bytes []) f i = record {
  last = _;
  returns = refl;
  result = refl;
  sockfd = refl;
  epollfd = refl;
}
end-Concludes again m cs text held (bytes (c ∷ rest)) f i = elim i [ ]

module _ (recv : Recv) (fits : RecvFits recv) (last : Received) (end : IsEnd last) where
  -- The rest of the loop concludes as the reading of the remaining batches does.
  abbrev Rest : (rounds round : ℕ) → List (List ℕ) → ReqStatMach → Parse → Type 0
  Rest rounds round bs m p =
      (cs : CheckStat) (text : List ℕ) (held : Bool)
      → p ≡ running cs text held
      → Follows cs text held m
      → Concludes m (verdict (feeds p (join bs)) last) (recv_loop recv rounds round m)

  -- Behind a batch: a decision stops the loop, and the reading of further bytes keeps it.
  batch-Concludes :
      (rounds round : ℕ) (m : ReqStatMach) (bs : List (List ℕ)) (p : Parse) (run : Run ReqStatMach)
      → 0 < rounds
      → Refines p run
      → IsSafe m run
      → ((m' : ReqStatMach) → IsAfter m m' → Rest rounds round bs m' p)
      → Concludes m (verdict (feeds p (join bs)) last) (run >>= recv_loop recv rounds round)
  batch-Concludes rounds round m bs (crashed f) (fault g) l e s rest =
      rw (feeds-crashed f (join bs)) (ap fault e)
  batch-Concludes zero round m bs (done r) (ok m') l e s rest = absurd (omega arith)
  batch-Concludes (suc rounds) round m bs (done r) (ok m') l (e, ne) s rest =
      rw (feeds-done r (join bs)) (record {
        last = m';
        returns = loop_decided recv rounds round m' (λ h. ne (sym e ∙ h));
        result = e;
        sockfd = s.sockfd;
        epollfd = s.epollfd;
      })
  batch-Concludes rounds round m bs (running cs text held) (ok m') l f s rest =
      Concludes-from m m' _ _ s.sockfd s.epollfd (rest m' s cs text held refl f)
  batch-Concludes rounds round m bs (running cs text held) (fault g) l e s rest = elim e [ ]
  batch-Concludes rounds round m bs (done r) (fault g) l e s rest = elim e [ ]
  batch-Concludes rounds round m bs (crashed f) (ok m') l e s rest = elim e [ ]

  pub loop-Concludes :
      (bs : List (List ℕ)) (rounds round : ℕ) (m : ReqStatMach) (cs : CheckStat) (text : List ℕ)
      (held : Bool)
      → Follows cs text held m
      → IsSound m
      → Delivers recv round m.sockfd m.read_idx bs last
      → AreJoined (running cs text held) bs
      → recvbuf_size - m.read_idx < rounds
      → Concludes m
          (verdict (feeds (running cs text held) (join bs)) last)
          (recv_loop recv rounds round m)
  unfolding on_received
  loop-Concludes [] zero round m cs text held f v dl j fuel = absurd (omega arith)
  loop-Concludes [] (suc rounds) round m cs text held f v dl j fuel =
      rw (loop_undecided recv rounds round m f.undecided, dl, feeds_nil (running cs text held))
        (end-Concludes _ m cs text held last f end)
  loop-Concludes (b ∷ bs) zero round m cs text held f v dl j fuel = absurd (omega arith)
  loop-Concludes ([] ∷ bs) (suc rounds) round m cs text held f v dl j fuel = elim j.0 [ ]
  loop-Concludes ((c ∷ rest) ∷ bs) (suc rounds) round m cs text held f v dl j fuel =
      let b : List ℕ = c ∷ rest in
      let room = fits round m.sockfd _ b dl.0 in
      let fit : m.read_idx + length b ≤ recvbuf_size = omega (arith, f.bounded, room) in
      let p : Parse = running cs text held in
      rw (loop_undecided recv rounds round m f.undecided, dl.0, feeds-append p b (join bs))
        (Concludes-from m (received m b) _ _ refl refl (
          batch-Concludes rounds (round + 1) (received m b) bs (feeds p b)
            (parse_batch (received m b)) (omega arith)
            (parse_batch-Refines cs text held m b f j.0 fit) (parse_batch-IsSafe m b v fit)
            (λ m' a cs' text' held' e f'.
              subst
                (λ q.
                  Concludes m' (verdict (feeds q (join bs)) last)
                    (recv_loop recv rounds (round + 1) m'))
                (sym e)
                (loop-Concludes bs rounds (round + 1) m' cs' text' held' f' a.sound
                  (Delivers-path recv (round + 1) bs last (sym a.sockfd) (sym a.read) dl.1)
                  (subst (λ q. AreJoined q bs) e j.1) (omega (arith, a.read))))))

pub init-Follows :
    (epollfd sockfd : ℤ) (addr : SockAddr) → Follows reqline [] false (init epollfd sockfd addr)
unfolding init
init-Follows epollfd sockfd addr = record {
  phase = refl;
  undecided = refl;
  stored = tt;
  checked = omega arith;
  unread = (refl, refl);
  bounded = omega arith;
}

-- What `process` does on a machine that is entered as `m`, when `v` is to come of it.
abbrev pub Carries : ReqStatMach → Run ResultCode → Run (ReqStatMach × List Action) → Type 0
Carries m (ok r) run =
    (m' : ReqStatMach) × (run ≡ ok (m', conclude r m))
    × (m'.result ≡ r)
    × (m'.sockfd ≡ minus_one)
    × (m'.epollfd ≡ m.epollfd)
Carries m (fault f) run = run ≡ fault f

Concludes-Carries :
    (m : ReqStatMach) (v : Run ResultCode) (run : Run ReqStatMach)
    → Concludes m v run
    → Carries m v (run >>= λ m'. ok (record m' { sockfd = minus_one }, conclude m'.result m'))
Concludes-Carries m (fault f) run e = rw e
Concludes-Carries m (ok r) run d = (
  record d.last { sockfd = minus_one },
  rw d.returns (
      ap (λ actions. ok (record d.last { sockfd = minus_one }, actions))
        (ap (λ s. conclude s d.last) d.result ∙ conclude-same r m d.last d.sockfd d.epollfd)),
  d.result,
  refl,
  d.epollfd,
)

-- From a machine as `init` leaves it, when `recv` stores no more than there is room for, hands
-- over these batches and then fails or reports the end of the stream, and when no batch is empty
-- and none begins behind a carriage return with a byte other than a line feed: `process` carries
-- out the verdict of the byte-at-a-time reading of all batches. A decision is the result whatever
-- follows; with none, the result is to go on, an internal error or the end of the stream, as the
-- last answer of `recv` says; the reading's fault is the fault of `process`. In each case but the
-- last the kernel is asked for what the result calls for on the accepted connection, and the
-- machine gives up its descriptor.
pub process-verdict :
    (recv : Recv) (epollfd sockfd : ℤ) (addr : SockAddr) (bs : List (List ℕ)) (last : Received)
    → RecvFits recv
    → IsEnd last
    → Delivers recv 0 sockfd 0 bs last
    → AreJoined start bs
    → Carries
        (init epollfd sockfd addr)
        (verdict (feeds start (join bs)) last)
        (process recv (init epollfd sockfd addr))
unfolding process
process-verdict recv epollfd sockfd addr bs last fits end dl j =
    let m : ReqStatMach = init epollfd sockfd addr in
    Concludes-Carries m _ _ (
      unfold init in
      loop-Concludes recv fits last end bs (suc (recvbuf_size - m.read_idx)) 0 m reqline [] false
        (init-Follows epollfd sockfd addr) (init-IsSound epollfd sockfd addr) dl j (omega arith))
