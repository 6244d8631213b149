-- ===== src/Examples/TimingChat/Turns.antt =====
-- A turn of examples/framework-intro/timing_group_chat_service.cc in which nobody but the client of the
-- last entry leaves, and nobody is silent for too long.
use simple_http_serv.Prelude.{
  ℕ, suc, ◌+◌, ◌-◌, ◌≤◌, ◌<◌, ◌≡◌, ◌≢◌, refl, sym, ap, subst, ◌∙◌, inl, inr, Bool, true, false,
  Option, none, some, List, [], ◌∷◌, ◌++◌, arith, ok, ◌==◌, ==_iff, Bool-cases, leb, length,
  if_true, if_false, if◌then◌else◌, clash,
}
use simple_http_serv.Prelude.Int.{ℤ, pos}
use simple_http_serv.Sys.{SockAddr, Action, close, alarm, Accepted, refused, accepted}
use simple_http_serv.Examples.Timers.{Ptr, null, Heap, TimerSortedList}
use simple_http_serv.Examples.Timers.Chain.{Cells, has, Chain, nil, cons, IsTimers, insert_sorted}
use simple_http_serv.Examples.Timers.Tick.{expired}
use simple_http_serv.Examples.Chat.{max_client, max_fd, at, client_events, no_flags}
use simple_http_serv.Examples.Chat.SignalChat.{st_idx_client}
use simple_http_serv.Examples.Chat.Table.{is_gone}
use simple_http_serv.Examples.TimingChat.{
  alrm_slot_sec, client_alive_sec, TimingChat, Turn, on_accept, alarm_handler,
}
use simple_http_serv.Examples.TimingChat.Loop.{phases}
use simple_http_serv.Examples.TimingChat.Entries.{IsTimed}
use simple_http_serv.Examples.TimingChat.Join.{
  new_cell, IsNew, joined, on_accept_lem, joined-IsTimed,
}
use simple_http_serv.Examples.TimingChat.Alarm.{FromLast, closes, alarm_handler_lem}
use simple_http_serv.Examples.TimingChat.Quiet.{
  IsTimed-same, read_signals-Flagged, InTime, InTime-insert_sorted, InTime-none_expired, InOrder,
  LastLeaves,
}
use simple_http_serv.Examples.TimingChat.Round.{serve-InOrder}

-- What the kernel's answers of a turn keep to, behind `poll`: a descriptor that `accept` returns is
-- that of no client, and below kMaxnFD, so that `kClient` has a slot for it; `new` returns memory that
-- is not null and not in use; a client that leaves has the last entry, and no other comes in its turn;
-- the timers have time at the time that an alarm of the turn would read, so that nobody has been silent
-- for too long; and that time is at most kClientAliveSec after those that the turn's accept and each
-- recv would read.
pub record TurnFits (p : Turn) (c : TimingChat) : Type 0 where
  pub slot : (fd : ℕ) (addr : SockAddr) → p.accept ≡ accepted fd addr → fd < max_fd
  pub unused :
      (fd : ℕ) (addr : SockAddr)
      → p.accept ≡ accepted fd addr
      → (i : ℕ) → st_idx_client ≤ i
      → i < st_idx_client + c.table.cnt
      → (c.table.fds i).fd ≢ pos fd
  pub allocated : (p.new_timer == null) ≡ false
  pub free : c.timers.heap p.new_timer ≡ none
  pub leaves :
      (j : ℕ)
      → st_idx_client ≤ j
      → j < st_idx_client + c.table.cnt
      → is_gone (c.table.fds j) ≡ true
      → (suc j ≡ st_idx_client + c.table.cnt) × ((c.table.fds 0).revents.pollin ≡ false)
  pub in_time : (xs : Cells) → IsTimers c.timers xs → InTime p.t_alarm xs
  pub accept_time : p.t_alarm ≤ p.t_accept + client_alive_sec
  pub recv_time : (fd : ℤ) → p.t_alarm ≤ p.t_recv fd + client_alive_sec

some-none : {A B : Type 0} (v : A) → some v ≡ none → B
some-none v e = cc

-- No timer of the list is where the heap has none.
content-apart :
    {A : Type 0} {v : A} (h : Ptr → Option A) (p q : Ptr)
    → h p ≡ some v
    → h q ≡ none
    → (q == p) ≡ false
content-apart {A} {v} h p q s n = elim (Bool-cases (q == p)) [
  | inr e ↦ e
  | inl e ↦ some-none v (sym s ∙ ap h (sym ((==_iff q p).0 e)) ∙ n)
]

free-absent :
    {h : Heap} {prev cur : Ptr} {xs : Cells} (q : Ptr)
    → Chain h prev cur xs
    → h q ≡ none
    → has q xs ≡ false
free-absent q nil f = refl
free-absent {h} q (cons {x} hx out c) f =
    ground (arith, content-apart h x.at q hx.content f, free-absent q c f)

module _ (k : ℕ) (fuel : max_client < k) (p : Turn) where
  -- Phase 1, where the kernel reports a connection.
  joined-LastLeaves :
      (fd : ℕ) (addr : SockAddr) (c : TimingChat) (l : TimerSortedList)
      → TurnFits p c
      → (c.table.fds 0).revents.pollin ≡ true
      → LastLeaves st_idx_client (record c { table = joined p fd addr c.table; timers = l })
  joined-LastLeaves fd addr c l fits i j jl jh g =
      elim (Bool-cases (j == st_idx_client + c.table.cnt)) [
        | inl new ↦ ground (arith, new)
        | inr old ↦
            let same : at c.table.fds (st_idx_client + c.table.cnt)
                  (record { fd = pos fd; events = client_events; revents = no_flags }) j
                ≡ c.table.fds j =
              if_false _ (c.table.fds j) old in
            clash i (fits.leaves j jl (ground (arith, old)) (ap is_gone (sym same) ∙ g)).1
      ]

  accepted-InOrder :
      (a : Accepted) (c : TimingChat)
      → p.accept ≡ a
      → (c.table.fds 0).revents.pollin ≡ true
      → InOrder p.t_alarm c
      → TurnFits p c
      → (c' : TimingChat) × (actions : List Action) × (on_accept k p c ≡ ok (c', actions))
        × InOrder p.t_alarm c'
        × LastLeaves st_idx_client c'
  unfolding on_accept
  accepted-InOrder (refused e) c a i order fits =
      (c, [], rw (on_accept, a), order, λ j jl jh g. (fits.leaves j jl jh g).0)
  accepted-InOrder (accepted fd addr) c a i (xs, v, h) fits =
      elim (Bool-cases (leb max_client c.table.cnt)) [
        | inl full ↦ (
          c,
          close (pos fd) ∷ [],
          rw (on_accept, a, full),
          (xs, v, h),
          λ j jl jh g. (fits.leaves j jl jh g).0,
        )
        | inr seat ↦
            let room : c.table.cnt < max_client = ground (arith, seat) in
            let b = fits.slot fd addr a in
            let new : IsNew p xs = record {
              allocated = fits.allocated;
              unused = free-absent p.new_timer v.chain fits.free;
            } in
            let (l, e, t) =
              on_accept_lem k p fd addr c xs a b room v.chain (omega (arith, v.count)) new in
            (
              record c { table = joined p fd addr c.table; timers = l },
              [],
              e,
              (
                insert_sorted (new_cell p fd) xs,
                joined-IsTimed p fd addr c xs v b
                    (λ i n il ih entry same. fits.unused fd addr a i il ih (entry.fd ∙ ap pos same))
                    new l room t,
                InTime-insert_sorted p.t_alarm (new_cell p fd) xs fits.accept_time h,
              ),
              joined-LastLeaves fd addr c l fits i,
            )
      ]

  phase_1-InOrder :
      (c : TimingChat)
      → InOrder p.t_alarm c
      → TurnFits p c
      → (c' : TimingChat) × (actions : List Action) × ((if (c.table.fds 0).revents.pollin
            then on_accept k p c
            else ok (c, []))
          ≡ ok (c', actions))
        × InOrder p.t_alarm c'
        × LastLeaves st_idx_client c'
  phase_1-InOrder c order fits = elim (Bool-cases (c.table.fds 0).revents.pollin) [
    | inl i ↦
        let (c', actions, e, order', leave) = accepted-InOrder p.accept c refl i order fits in
        (c', actions, if_true _ _ i ∙ e, order', leave)
    | inr i ↦ (c, [], if_false _ _ i, order, λ j jl jh g. (fits.leaves j jl jh g).0)
  ]

  -- Nobody has been silent for too long: the alarm changes a flag and is set again.
  phase_3-InOrder :
      (c : TimingChat)
      → InOrder p.t_alarm c
      → (c' : TimingChat) × (actions : List Action) × ((if c.timeout
            then alarm_handler k p.t_alarm c
            else ok (c, []))
          ≡ ok (c', actions))
        × InOrder p.t_alarm c'
  phase_3-InOrder c (xs, v, h) = elim (Bool-cases c.timeout) [
    | inr i ↦ (c, [], if_false _ _ i, (xs, v, h))
    | inl i ↦
        let (nobody, everybody) = InTime-none_expired p.t_alarm xs h in
        let (l, e, t, time, gone) =
          alarm_handler_lem k p.t_alarm c xs fuel v (subst (FromLast c.table) (sym nobody) tt) in
        let all : c.table.cnt - length (expired p.t_alarm xs) ≡ c.table.cnt =
          ap (λ ys. c.table.cnt - length ys) nobody ∙ omega arith in
        (
          record c {
            table = record (c.table) { cnt = c.table.cnt - length (expired p.t_alarm xs) };
            timers = l;
            timeout = false;
          },
          closes (expired p.t_alarm xs) ++ alarm alrm_slot_sec ∷ [],
          if_true _ _ i ∙ e,
          (
            xs,
            IsTimed-same c _ xs
                (record { cnt = all; fd = λ i. refl; index = λ n. refl; timer = λ n. refl }) v
                (subst (IsTimers l) everybody t),
            h,
          ),
        )
  ]

  flagged-TurnFits :
      (stop timeout : Bool) (c : TimingChat)
      → TurnFits p c
      → TurnFits p (record c { stop = stop; timeout = timeout })
  flagged-TurnFits stop timeout c f = record {
    slot = f.slot;
    unused = f.unused;
    allocated = f.allocated;
    free = f.free;
    leaves = f.leaves;
    in_time = f.in_time;
    accept_time = f.accept_time;
    recv_time = f.recv_time;
  }

  -- One turn behind `poll`, whose answers fit the state: no fault, and the table and the timers agree
  -- as before.
  pub phases-IsTimed :
      (c : TimingChat) (xs : Cells)
      → IsTimed c xs
      → TurnFits p c
      → (c' : TimingChat) × (actions : List Action) × (phases k p c ≡ ok (c', actions))
        × (xs' : Cells) × IsTimed c' xs'
  unfolding phases
  phases-IsTimed c xs v fits =
      let (stop, timeout, flags) = read_signals-Flagged p c in
      let c0 = record c { stop = stop; timeout = timeout } in
      let v0 =
        IsTimed-same c c0 xs
          (record { cnt = refl; fd = λ i. refl; index = λ n. refl; timer = λ n. refl }) v v.chain in
      let (c1, a1, e1, order1, leave) =
        phase_1-InOrder c0 (xs, v0, fits.in_time xs v.chain)
          (flagged-TurnFits stop timeout c fits) in
      let (c2, a2, e2, order2) =
        serve-InOrder k p.t_alarm fuel p fits.recv_time (c1.table.cnt + 1) st_idx_client c1 order1
          (omega arith) (omega arith) (omega arith) leave in
      let (c3, a3, e3, (xs3, v3, h3)) = phase_3-InOrder c2 order2 in
      (c3, a1 ++ (a2 ++ a3), rw (flags, e1, e2, e3), xs3, v3)
