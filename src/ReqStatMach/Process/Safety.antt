-- ===== src/ReqStatMach/Process/Safety.antt =====
-- `process` of src/ReqStatMach.h ends and stays inside its buffer, whatever the peer sends.
use simple_http_serv.Prelude.{
  ℕ, zero, suc, ◌+◌, ◌-◌, ◌≤◌, ◌<◌, ◌≡◌, refl, ap, ap₂, ◌∙◌, ◌++◌, List, [], ◌∷◌, arith, Run, ok,
  fault, null_deref, ◌>>=◌, length,
}
use simple_http_serv.Prelude.Int.{ℤ, minus_one}
use simple_http_serv.Sys.{
  Recv, SockAddr, Action, writev, eagain, eintr, ebadf, other, Received, failed, bytes,
}
use simple_http_serv.ReqStatMach.State.{
  no_request, got_request, done_recv, bad_request, internal_error, ResultCode, recvbuf_size,
  ReqStatMach, init,
}
use simple_http_serv.ReqStatMach.Batch.{received}
use simple_http_serv.ReqStatMach.Batch.Handled.{IsSound, IsSafe}
use simple_http_serv.ReqStatMach.Batch.Safety.{parse_batch-IsSafe}
use simple_http_serv.ReqStatMach.Process.{on_received, recv_loop, conclude, process}
use simple_http_serv.ReqStatMach.Process.Loop.{loop_undecided, loop_decided}
use simple_http_serv.ReqStatMach.Respond.{response, respond_http}
use simple_http_serv.Epoll.{epoll_del_fd}

-- What recv(2) documents: it stores no more bytes than there is room for.
abbrev pub RecvFits : Recv → Type 0
RecvFits recv =
    (round : ℕ) (fd : ℤ) (len : ℕ) (bs : List ℕ) → recv round fd len ≡ bytes bs → length bs ≤ len

-- The connection is that of `m` and the indices are in order; the one fault is the null pointer.
abbrev pub IsKept : ReqStatMach → Run ReqStatMach → Type 0
IsKept m (ok m') = IsSound m' × (m'.sockfd ≡ m.sockfd) × (m'.epollfd ≡ m.epollfd)
IsKept m (fault f) = f ≡ null_deref

IsKept-from :
    (m m' : ReqStatMach) (run : Run ReqStatMach)
    → m'.sockfd ≡ m.sockfd
    → m'.epollfd ≡ m.epollfd
    → IsKept m' run
    → IsKept m run
IsKept-from m m' (ok m'') s e k = (k.0, k.1 ∙ s, k.2 ∙ e)
IsKept-from m m' (fault f) s e k = k

decided-IsSound : (m : ReqStatMach) (r : ResultCode) → IsSound m → IsSound (record m { result = r })
decided-IsSound m r v = record {
  begun = v.begun;
  within = v.within;
  bounded = v.bounded;
  waits = v.waits;
  phase = v.phase;
}

module _ (recv : Recv) (fits : RecvFits recv) where
  -- The loop, at one round fewer.
  abbrev Again : (rounds : ℕ) (again : ReqStatMach → Run ReqStatMach) → Type 0
  Again rounds again =
      (m : ReqStatMach) → IsSound m → recvbuf_size - m.read_idx < rounds → IsKept m (again m)

  batch-IsKept :
      (rounds : ℕ) (again : ReqStatMach → Run ReqStatMach) (m : ReqStatMach) (c : ℕ) (cs : List ℕ)
      → Again rounds again
      → recvbuf_size - m.read_idx < suc rounds
      → length (c ∷ cs) ≤ recvbuf_size - m.read_idx
      → m.read_idx ≤ recvbuf_size
      → (run : Run ReqStatMach) → IsSafe (received m (c ∷ cs)) run
      → IsKept m (run >>= again)
  batch-IsKept rounds again m c cs hyp fuel room bounded (fault f) s = s
  batch-IsKept rounds again m c cs hyp fuel room bounded (ok m') s =
      IsKept-from m m' (again m') s.sockfd s.epollfd (hyp m' s.sound (omega (arith, s.read)))

  on_received-IsKept :
      (rounds : ℕ) (again : ReqStatMach → Run ReqStatMach) (m : ReqStatMach) (r : Received)
      → Again rounds again
      → IsSound m
      → recvbuf_size - m.read_idx < suc rounds
      → ((bs : List ℕ) → r ≡ bytes bs → length bs ≤ recvbuf_size - m.read_idx)
      → IsKept m (on_received again m r)
  unfolding on_received
  on_received-IsKept rounds again m (failed eagain) hyp v fuel room = (v, refl, refl)
  on_received-IsKept rounds again m (failed eintr) hyp v fuel room =
      (decided-IsSound m _ v, refl, refl)
  on_received-IsKept rounds again m (failed ebadf) hyp v fuel room =
      (decided-IsSound m _ v, refl, refl)
  on_received-IsKept rounds again m (failed other) hyp v fuel room =
      (decided-IsSound m _ v, refl, refl)
  on_received-IsKept rounds again m (bytes []) hyp v fuel room = (decided-IsSound m _ v, refl, refl)
  on_received-IsKept rounds again m (bytes (c ∷ cs)) hyp v fuel room =
      batch-IsKept rounds again m c cs hyp fuel (room _ refl) v.bounded _
        (parse_batch-IsSafe m (c ∷ cs) v (omega (arith, room (c ∷ cs) refl, v.bounded)))

  pub loop-IsKept :
      (rounds round : ℕ) (m : ReqStatMach) (r : ResultCode)
      → m.result ≡ r
      → IsSound m
      → recvbuf_size - m.read_idx < rounds
      → IsKept m (recv_loop recv rounds round m)
  loop-IsKept zero round m r e v fuel = absurd (omega arith)
  loop-IsKept (suc rounds) round m no_request e v fuel = rw (loop_undecided recv rounds round m e) (
      on_received-IsKept rounds (recv_loop recv rounds (round + 1)) m
        (recv round m.sockfd (recvbuf_size - m.read_idx))
        (λ m' v' fuel'. loop-IsKept rounds (round + 1) m' m'.result refl v' fuel') v fuel
        (λ bs h. fits round m.sockfd _ bs h))
  loop-IsKept (suc rounds) round m r e v fuel =
      rw (loop_decided recv rounds round m (λ h. ground (arith, h))) (v, refl, refl)

respond_http-same : (m m' : ReqStatMach) → m'.sockfd ≡ m.sockfd → respond_http m' ≡ respond_http m
unfolding respond_http
respond_http-same m m' s = ap (λ fd. writev fd response ∷ []) s

pub conclude-same :
    (r : ResultCode) (m m' : ReqStatMach)
    → m'.sockfd ≡ m.sockfd
    → m'.epollfd ≡ m.epollfd
    → conclude r m' ≡ conclude r m
unfolding conclude
conclude-same no_request m m' s e = refl
conclude-same got_request m m' s e =
    ap₂ (λ xs ys. xs ++ ys) (respond_http-same m m' s) (ap₂ epoll_del_fd e s)
conclude-same done_recv m m' s e = ap₂ epoll_del_fd e s
conclude-same bad_request m m' s e = ap₂ epoll_del_fd e s
conclude-same internal_error m m' s e = ap₂ epoll_del_fd e s

-- A call that returns leaves a sound machine that has given up its descriptor, and has asked the
-- kernel for what its result calls for, on the connection that it was entered with.
abbrev pub HasEnded : ReqStatMach → Run (ReqStatMach × List Action) → Type 0
HasEnded m (ok (m', actions)) =
    IsSound m' × (m'.sockfd ≡ minus_one) × (actions ≡ conclude m'.result m)
HasEnded m (fault f) = f ≡ null_deref

HasEnded-bind :
    (m : ReqStatMach) (run : Run ReqStatMach)
    → IsKept m run
    → HasEnded m (run >>= λ m'. ok (record m' { sockfd = minus_one }, conclude m'.result m'))
HasEnded-bind m (fault f) k = k
HasEnded-bind m (ok m') (v, s, e) = (
  record {
    begun = v.begun;
    within = v.within;
    bounded = v.bounded;
    waits = v.waits;
    phase = v.phase;
  },
  refl,
  conclude-same m'.result m m' s e,
)

pub process_safe :
    (recv : Recv) → RecvFits recv → (m : ReqStatMach) → IsSound m → HasEnded m (process recv m)
unfolding process
process_safe recv fits m v =
    HasEnded-bind m _
      (loop-IsKept recv fits (suc (recvbuf_size - m.read_idx)) 0 m m.result refl v (omega arith))

pub init-IsSound : (epollfd sockfd : ℤ) (addr : SockAddr) → IsSound (init epollfd sockfd addr)
unfolding init
init-IsSound epollfd sockfd addr = record {
  begun = omega arith;
  within = omega arith;
  bounded = omega arith;
  waits = λ w. cc;
  phase = λ e. cc;
}
