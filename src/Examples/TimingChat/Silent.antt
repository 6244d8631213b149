-- ===== src/Examples/TimingChat/Silent.antt =====
-- RemoveClientFromPoll of examples/framework-intro/timing_group_chat_service.cc, which the expiry of a
-- timer calls, for a client whose index is not that of its entry.
use simple_http_serv.Prelude.{
  ℕ, ◌+◌, ◌-◌, ◌<◌, ◌≡◌, ◌≢◌, sym, ap, subst, ◌∙◌, [], ◌∷◌, arith, ok, if_true, if_false, ==_iff,
}
use simple_http_serv.Prelude.Int.{ℤ, pos}
use simple_http_serv.Sys.{SockAddr, close, accepted}
use simple_http_serv.Examples.Timers.Chain.{Cells, erase}
use simple_http_serv.Examples.Chat.{max_client, max_fd, PollFd, at}
use simple_http_serv.Examples.Chat.SignalChat.{st_idx_client}
use simple_http_serv.Examples.TimingChat.{
  TimedClient, Table, TimingChat, Turn, remove_client_from_poll, on_accept, on_gone,
}
use simple_http_serv.Examples.TimingChat.Entries.{
  Owns-has, length-erase, Entry, IsTimed, remove_client_lem,
}
use simple_http_serv.Examples.TimingChat.Join.{IsNew, on_accept_lem, joined}
use simple_http_serv.Examples.TimingChat.Gone.{on_gone_lem, without, at_same}

at_on : {A : Type 0} (f : ℕ → A) (i j : ℕ) (v : A) → j ≡ i → at f i v j ≡ v
at_on f i j v e = if_true v (f j) ((==_iff j i).1 e)

at_off : {A : Type 0} (f : ℕ → A) (i j : ℕ) (v : A) → j ≢ i → at f i v j ≡ f j
at_off f i j v n = if_false v (f j) (ground (arith, n))

-- When table and timers agree, the first of two clients leaves, and another connects, on a descriptor
-- `r` that is not that of the client that has stayed and is below kMaxnFD, so that `kClient` has a
-- slot for it, then RemoveClientFromPoll of the client that has stayed closes the socket of the other.
-- `new` returns memory that is not null and, behind the first client's leaving, not in use; the loops'
-- fuel exceeds the seats.
pub expiry-closes_another :
    (k : ℕ) (c : TimingChat) (xs : Cells) (n m r : ℕ) (p : Turn) (addr : SockAddr)
    → max_client < k
    → IsTimed c xs
    → c.table.cnt ≡ 2
    → Entry c xs 2 n
    → Entry c xs 3 m
    → p.accept ≡ accepted r addr
    → r < max_fd
    → r ≢ m
    → IsNew p (erase (c.table.clients n).timer xs)
    → (c1 : TimingChat) × (c2 : TimingChat) × (t : Table) × (on_gone k 2 c
        ≡ ok (c1, close (pos n) ∷ []))
      × (on_accept k p c1 ≡ ok (c2, []))
      × ((c2.table.fds 2).fd ≡ pos m)
      × (remove_client_from_poll m c2.table ≡ ok (t, close (pos r) ∷ []))
expiry-closes_another k c xs n m r p addr fuel v two e f a b other new =
    let last : st_idx_client + c.table.cnt - 1 ≡ 3 = omega arith in
    let (l1, g, t1) =
      on_gone_lem k c xs 2 n m fuel v (omega arith) (omega arith) e
        (subst (λ j. Entry c xs j m) (sym last) f) in
    let c1 = without c 2 n m l1 in
    let fewer = length-erase (c.table.clients n).timer xs (Owns-has _ n xs e.owns) in
    let (l2, j, t2) =
      on_accept_lem k p r addr c1 _ a b (omega arith) t1 (omega (arith, fewer, v.count)) new in
    let c2 : TimingChat = record c1 { table = joined p r addr c1.table; timers = l2 } in
    let seat : st_idx_client + c1.table.cnt ≡ 3 = omega arith in
    let fd_of : PollFd → ℤ = λ x. x.fd in
    let index_of : TimedClient → ℕ = λ x. x.pollfds_idx in
    let stays : (c2.table.fds 2).fd ≡ pos m =
      ap fd_of (at_off c1.table.fds (st_idx_client + c1.table.cnt) 2 _ (λ h. absurd (omega arith)))
      ∙ ap (λ i. (c.table.fds i).fd) last
      ∙ f.fd in
    let stale : (c2.table.clients m).pollfds_idx ≡ 3 =
      ap index_of (at_off c1.table.clients r m _ (λ h. other (sym h)))
      ∙ ap index_of (at_same c.table.clients n m)
      ∙ f.index in
    let comes : (c2.table.fds 3).fd ≡ pos r =
      ap fd_of (at_on c1.table.fds (st_idx_client + c1.table.cnt) 3 _ (sym seat)) in
    let comes' : (c2.table.fds (st_idx_client + c2.table.cnt - 1)).fd ≡ pos r =
      ap fd_of (at_on c1.table.fds (st_idx_client + c1.table.cnt) _ _ (omega arith)) in
    (
      c1,
      c2,
      _,
      g,
      j,
      stays,
      remove_client_lem c2.table m 3 r r stale (omega arith) comes b comes' b (omega arith)
          (omega arith),
    )
