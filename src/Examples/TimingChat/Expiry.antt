-- ===== src/Examples/TimingChat/Expiry.antt =====
-- What AlarmHandler of examples/framework-intro/timing_group_chat_service.cc leaves of table and
-- timers.
use simple_http_serv.Prelude.{
  ℕ, zero, suc, ◌+◌, ◌-◌, ◌≤◌, ◌<◌, ◌≡◌, ◌⊎◌, refl, sym, ap, subst, ◌∙◌, inl, inr, false, none,
  List, [], ◌∷◌, ◌++◌, arith, ok, Bool-cases, if_true, if_false, ltb, lt→ltb, length, here, there,
  All, Any-append_right,
}
use simple_http_serv.Sys.{Action, alarm}
use simple_http_serv.Examples.Timers.{Ptr, TimerSortedList}
use simple_http_serv.Examples.Timers.Chain.{Cells, IsTimers, IsSorted}
use simple_http_serv.Examples.Timers.Tick.{expired, remaining, expired-append-remaining}
use simple_http_serv.Examples.Chat.{max_client}
use simple_http_serv.Examples.Chat.SignalChat.{st_idx_client}
use simple_http_serv.Examples.TimingChat.{
  alrm_slot_sec, Table, TimingChat, Turn, alarm_handler, serve_one, serve,
}
use simple_http_serv.Examples.TimingChat.Loop.{phases}
use simple_http_serv.Examples.TimingChat.Quiet.{IsTimed-same, read_signals-Flagged}
use simple_http_serv.Examples.TimingChat.Entries.{Owns, Entry, IsTimed}
use simple_http_serv.Examples.TimingChat.Alarm.{FromLast, closes, alarm_handler_lem}

-- Clients with an expired timer have the entries behind those that are kept.
FromLast-index :
    (t : Table) (p : Ptr) (n : ℕ) (xs : Cells)
    → FromLast t xs
    → Owns p n xs
    → st_idx_client + t.cnt ≤ (t.clients n).pollfds_idx + length xs
FromLast-index t p n [] h o = elim o [ ]
FromLast-index t p n (x ∷ xs) (more, fd, slot, index, rest) (here (a, c)) =
    let mine : (t.clients n).pollfds_idx ≡ st_idx_client + t.cnt - 1 =
      ap (λ m. (t.clients m).pollfds_idx) (sym c) ∙ index in
    omega arith
FromLast-index t p n (x ∷ xs) (more, fd, slot, index, rest) (there o) =
    let fewer = FromLast-index (record t { cnt = t.cnt - 1 }) p n xs rest o in omega arith

Owns-split : (p : Ptr) (n : ℕ) (xs ys : Cells) → Owns p n (xs ++ ys) → Owns p n xs ⊎ Owns p n ys
Owns-split p n [] ys o = inr o
Owns-split p n (x ∷ xs) ys (here a) = inl (here a)
Owns-split p n (x ∷ xs) ys (there o) = elim (Owns-split p n xs ys o) [
  | inl l ↦ inl (there l)
  | inr r ↦ inr r
]

remaining-IsSorted : (t : ℕ) (xs : Cells) → IsSorted xs → IsSorted (remaining t xs)
unfolding remaining
remaining-IsSorted t [] s = s
remaining-IsSorted t (x ∷ xs) s = elim (Bool-cases (ltb x.expire t)) [
  | inl e ↦ rw e (remaining-IsSorted t xs s.1)
  | inr e ↦ rw e s
]

length-expired : (t : ℕ) (xs : Cells) → length (expired t xs) + length (remaining t xs) ≡ length xs
unfolding expired remaining
length-expired t [] = refl
length-expired t (x ∷ xs) = ground (arith, length-expired t xs)

module _ (t : ℕ) (c : TimingChat) (xs : Cells) (v : IsTimed c xs)
    (h : FromLast c.table (expired t xs)) (l : TimerSortedList) where
  abbrev after : TimingChat
  after = record c {
    table = record (c.table) { cnt = c.table.cnt - length (expired t xs) };
    timers = l;
    timeout = false;
  }

  kept_count : length (remaining t xs) ≡ c.table.cnt - length (expired t xs)
  kept_count = omega (arith, length-expired t xs, v.count)

  Owns-whole : (p : Ptr) (n : ℕ) → Owns p n (remaining t xs) → Owns p n xs
  Owns-whole p n o =
      subst (Owns p n) (expired-append-remaining t xs) (Any-append_right (expired t xs) o)

  kept-Entry :
      (i n : ℕ)
      → i < st_idx_client + after.table.cnt
      → Entry c xs i n
      → Entry after (remaining t xs) i n
  kept-Entry i n ih e = record {
    fd = e.fd;
    slot = e.slot;
    index = e.index;
    owns =
        let p = (c.table.clients n).timer in
        elim (Owns-split p n (expired t xs) (remaining t xs)
          (subst (Owns p n) (sym (expired-append-remaining t xs)) e.owns)) [
            | inr r ↦ r
            | inl out ↦
                let behind = FromLast-index c.table p n (expired t xs) h out in
                absurd (omega (arith, e.index, v.count, length-expired t xs))
          ];
  }

  was-Entry : (i n : ℕ) → Entry after (remaining t xs) i n → Entry c xs i n
  was-Entry i n e = record {
    fd = e.fd;
    slot = e.slot;
    index = e.index;
    owns = Owns-whole _ n e.owns;
  }

  after-IsTimed : IsTimers l (remaining t xs) → IsTimed after (remaining t xs)
  after-IsTimed chain = record {
    bounded = omega (arith, v.bounded);
    chain = chain;
    count = kept_count;
    sorted = remaining-IsSorted t xs v.sorted;
    entry = λ i il ih. let (n, e) = v.entry i il (omega (arith, ih)) in (n, kept-Entry i n ih e);
    apart = λ i j n m il ih jl jh e f same.
        v.apart i j n m il (omega (arith, ih)) jl (omega (arith, jh)) (was-Entry i n e)
          (was-Entry j m f) same;
  }

-- When the silent clients have the last entries, the last of them silent for longest, AlarmHandler
-- closes the socket of each, their entries go, and their timers are deleted; every timer that is left
-- has time; the alarm is set again; and the table and the timers agree as before. The loops' fuel
-- exceeds the seats.
pub alarm_handler-IsTimed :
    (k t_current : ℕ) (c : TimingChat) (xs : Cells)
    → max_client < k
    → IsTimed c xs
    → FromLast c.table (expired t_current xs)
    → (c' : TimingChat) × (alarm_handler k t_current c
        ≡ ok (c', closes (expired t_current xs) ++ alarm alrm_slot_sec ∷ []))
      × IsTimed c' (remaining t_current xs)
      × (c'.table.cnt + length (expired t_current xs) ≡ c.table.cnt)
      × All (λ x. t_current ≤ x.expire) (remaining t_current xs)
      × All (λ x. c'.timers.heap x.at ≡ none) (expired t_current xs)
alarm_handler-IsTimed k t_current c xs fuel v h =
    let (l, e, chain, time, gone) = alarm_handler_lem k t_current c xs fuel v h in
    (
      after t_current c xs v h l,
      e,
      after-IsTimed t_current c xs v h l chain,
      omega (arith, length-expired t_current xs, v.count),
      time,
      gone,
    )

-- The kernel reports nothing of a client.
abbrev pub Idle : ℕ → TimingChat → Type 0
Idle i c =
    (j : ℕ)
    → i ≤ j
    → j < st_idx_client + c.table.cnt
    → (c.table.fds j).revents.pollout ≡ false
    → ((c.table.fds j).revents.pollerr ≡ false)
      × ((c.table.fds j).revents.pollrdhup ≡ false)
      × ((c.table.fds j).revents.pollin ≡ false)

module _ (k : ℕ) (p : Turn) (c : TimingChat) (bounded : c.table.cnt ≤ max_client) where
  serve_one-Idle :
      (i : ℕ) → i < st_idx_client + c.table.cnt → Idle i c → serve_one k p i c ≡ ok (i + 1, c, [])
  unfolding serve_one
  serve_one-Idle i ih idle =
      let e = c.table.fds i in
      let inside = lt→ltb i (st_idx_client + max_client) (omega (arith, bounded)) in
      elim (Bool-cases e.revents.pollout) [
        | inl out ↦ rw (inside, out)
        | inr out ↦
            let (err, hup, inn) = idle i (omega arith) ih out in rw (inside, out, err, hup, inn)
      ]

  serve-Idle :
      (rounds i : ℕ)
      → i ≤ st_idx_client + c.table.cnt
      → st_idx_client + c.table.cnt < i + rounds
      → Idle i c
      → serve k rounds p i c ≡ ok (c, [])
  unfolding serve
  serve-Idle zero i at_most enough idle = absurd (omega arith)
  serve-Idle (suc rounds) i at_most enough idle =
      elim (Bool-cases (ltb i (st_idx_client + c.table.cnt))) [
        | inr over ↦ rw over
        | inl more ↦
            let ih : i < st_idx_client + c.table.cnt = ground (arith, more) in
            rw (
              more,
              serve_one-Idle i ih idle,
              serve-Idle rounds (i + 1) (omega (arith, ih)) (omega (arith, enough))
                  (λ j l. idle j (omega (arith, l))),
            )
      ]

-- A turn in which nothing but an alarm or a stop may come: when those silent for too long have the
-- last entries, there is no fault, and the table and the timers agree as before.
pub phases-Idle :
    (k : ℕ) (p : Turn) (c : TimingChat) (xs : Cells)
    → max_client < k
    → IsTimed c xs
    → (c.table.fds 0).revents.pollin ≡ false
    → Idle st_idx_client c
    → FromLast c.table (expired p.t_alarm xs)
    → (c' : TimingChat) × (actions : List Action) × (phases k p c ≡ ok (c', actions))
      × (xs' : Cells) × IsTimed c' xs'
unfolding phases
phases-Idle k p c xs fuel v quiet idle h =
    let (stop, timeout, flags) = read_signals-Flagged p c in
    let c0 = record c { stop = stop; timeout = timeout } in
    let v0 =
      IsTimed-same c c0 xs
        (record { cnt = refl; fd = λ i. refl; index = λ n. refl; timer = λ n. refl }) v v.chain in
    let served =
      serve-Idle k p c0 v.bounded (c.table.cnt + 1) st_idx_client (omega arith) (omega arith)
        idle in
    elim (Bool-cases timeout) [
      | inr no_alarm ↦ (
        c0,
        [],
        rw (flags, quiet, served, if_false (alarm_handler k p.t_alarm c0) (ok (c0, [])) no_alarm),
        xs,
        v0,
      )
      | inl rings ↦
          let (c', e, v', fewer, time, gone) = alarm_handler-IsTimed k p.t_alarm c0 xs fuel v0 h in
          (
            c',
            closes (expired p.t_alarm xs) ++ alarm alrm_slot_sec ∷ [],
            rw (
              flags,
              quiet,
              served,
              if_true (alarm_handler k p.t_alarm c0) (ok (c0, [])) rings,
              e,
            ),
            remaining p.t_alarm xs,
            v',
          )
    ]
