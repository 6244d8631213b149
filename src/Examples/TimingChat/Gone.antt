-- ===== src/Examples/TimingChat/Gone.antt =====
-- A client that leaves in examples/framework-intro/timing_group_chat_service.cc.
use simple_http_serv.Prelude.{
  ℕ, zero, ◌+◌, ◌-◌, ◌≤◌, ◌<◌, ◌≡◌, refl, sym, ap, subst, ◌∙◌, inl, inr, true, false, [], ◌∷◌,
  arith, ok, fault, assert_failed, ◌==◌, ==_iff, ltb, lt→ltb, Bool-cases,
}
use simple_http_serv.Prelude.Int.{pos}
use simple_http_serv.Sys.{close}
use simple_http_serv.Examples.Timers.{Ptr, TimerSortedList}
use simple_http_serv.Examples.Timers.Chain.{Cells, has, IsTimers, erase, erase-IsSorted}
use simple_http_serv.Examples.Timers.Remove.{del_timer-Deletes}
use simple_http_serv.Examples.Chat.{max_client, max_fd, PollFd, at}
use simple_http_serv.Examples.Chat.SignalChat.{st_idx_client}
use simple_http_serv.Examples.TimingChat.{TimedClient, TimingChat, on_gone}
use simple_http_serv.Examples.TimingChat.Entries.{
  Owns, Owns-has, Owns-erase, length-erase, Entry, IsTimed, left_of, remove_client_lem,
  del_timer_ok, not_null,
}

-- The chat behind the removal of the entry `i`, of the client `n`; `m` is the client of the last entry.
abbrev pub without : TimingChat → (i n m : ℕ) → TimerSortedList → TimingChat
without c i n m l = record c { table = left_of i n m c.table; timers = l }

pub on_gone_lem :
    (k : ℕ) (c : TimingChat) (xs : Cells) (i n m : ℕ)
    → max_client < k
    → IsTimed c xs
    → st_idx_client ≤ i
    → i < st_idx_client + c.table.cnt
    → Entry c xs i n
    → Entry c xs (st_idx_client + c.table.cnt - 1) m
    → (l : TimerSortedList) × (on_gone k i c ≡ ok (without c i n m l, close (pos n) ∷ []))
      × IsTimers l (erase (c.table.clients n).timer xs)
unfolding on_gone
on_gone_lem k c xs i n m fuel v il ih e f =
    let p = (c.table.clients n).timer in
    let owned : has p xs ≡ true = Owns-has p n xs e.owns in
    let (l, d, t, gone, same) =
      del_timer-Deletes k c.timers p xs v.chain owned (omega (arith, v.count, v.bounded)) in
    let inside : ltb i (st_idx_client + max_client) ≡ true =
      lt→ltb _ _ (omega (arith, v.bounded)) in
    let removed =
      remove_client_lem c.table n i n m e.index (omega (arith, v.bounded)) e.fd e.slot f.fd f.slot
        (omega arith) v.bounded in
    (
      l,
      rw
          (
            inside,
            e.fd,
            lt→ltb n max_fd e.slot,
            not_null p v.chain owned,
            d,
            (==_iff _ i).1 e.index,
            removed,
          )
          refl,
      t,
    )

pub at_same : {A : Type 0} (f : ℕ → A) (i j : ℕ) → at f i (f j) j ≡ f j
at_same f i j = ground arith

-- The last entry leaves; the others stay where their clients have them.
module _ (c : TimingChat) (xs : Cells) (v : IsTimed c xs) (some_left : zero < c.table.cnt) (n : ℕ)
    (e : Entry c xs (st_idx_client + c.table.cnt - 1) n) (l : TimerSortedList) where
  abbrev end : ℕ
  end = st_idx_client + c.table.cnt - 1

  abbrev after : TimingChat
  after = without c end n n l

  abbrev cells : Cells
  cells = erase (c.table.clients n).timer xs

  same_client : (m : ℕ) → after.table.clients m ≡ c.table.clients m
  same_client m = ground arith

  same_fd : (j : ℕ) → after.table.fds j ≡ c.table.fds j
  same_fd j = ground arith

  stays-Entry : (j m : ℕ) → st_idx_client ≤ j → j < end → Entry c xs j m → Entry after cells j m
  stays-Entry j m jl jh f =
      let other : ((c.table.clients m).timer == (c.table.clients n).timer) ≡ false =
        elim (Bool-cases ((c.table.clients m).timer == (c.table.clients n).timer)) [
          | inl s ↦
              let same =
                v.apart j end m n jl (omega arith) (omega arith) (omega arith) f e
                  ((==_iff _ _).0 s) in
              absurd (omega (arith, same))
          | inr d ↦ d
        ] in
      record {
        fd = ap (λ (x : PollFd). x.fd) (same_fd j) ∙ f.fd;
        slot = f.slot;
        index = ap (λ (d : TimedClient). d.pollfds_idx) (same_client m) ∙ f.index;
        owns =
            subst (λ (d : TimedClient). Owns d.timer m cells) (sym (same_client m))
              (Owns-erase _ _ m xs other f.owns);
      }

  was-Entry : (j m : ℕ) → st_idx_client ≤ j → j < end → Entry after cells j m → Entry c xs j m
  was-Entry j m jl jh f =
      let (m0, f0) = v.entry j jl (omega arith) in
      let same : m0 ≡ m = ground (arith, ap (λ (x : PollFd). x.fd) (same_fd j), f0.fd, f.fd) in
      subst (Entry c xs j) same f0

  stays-IsTimed : IsTimers l cells → IsTimed after cells
  stays-IsTimed t = record {
    bounded = omega (arith, v.bounded);
    chain = t;
    count =
        let fewer = length-erase (c.table.clients n).timer xs (Owns-has _ n xs e.owns) in
        omega (arith, fewer, v.count);
    sorted = erase-IsSorted (c.table.clients n).timer xs v.sorted;
    entry = λ j jl jh.
        let (m, f) = v.entry j jl (omega arith) in (m, stays-Entry j m jl (omega arith) f);
    apart = λ i j a b il ih jl jh f g same.
        let timer_of : TimedClient → Ptr = λ d. d.timer in
        v.apart i j a b il (omega arith) jl (omega arith) (was-Entry i a il (omega arith) f)
          (was-Entry j b jl (omega arith) g)
          (sym (ap timer_of (same_client a)) ∙ same ∙ ap timer_of (same_client b));
  }

-- When the client of the last entry leaves, its socket is closed and its timer deleted, the other
-- entries stay, and the table and the timers agree as before. The loops' fuel exceeds the seats.
pub on_gone-IsTimed :
    (k : ℕ) (c : TimingChat) (xs : Cells) (n : ℕ)
    → max_client < k
    → IsTimed c xs
    → zero < c.table.cnt
    → Entry c xs (st_idx_client + c.table.cnt - 1) n
    → (c' : TimingChat) × (on_gone k (st_idx_client + c.table.cnt - 1) c
        ≡ ok (c', close (pos n) ∷ []))
      × IsTimed c' (erase (c.table.clients n).timer xs)
      × (c'.table.cnt + 1 ≡ c.table.cnt)
      × ((j m : ℕ)
          → st_idx_client ≤ j
          → j < st_idx_client + c.table.cnt - 1
          → Entry c xs j m
          → Entry c' (erase (c.table.clients n).timer xs) j m)
on_gone-IsTimed k c xs n fuel v some_left e =
    let (l, r, t) =
      on_gone_lem k c xs (st_idx_client + c.table.cnt - 1) n n fuel v (omega arith) (omega arith) e
        e in
    (
      after c xs v some_left n e l,
      r,
      stays-IsTimed c xs v some_left n e l t,
      omega arith,
      stays-Entry c xs v some_left n e l,
    )

-- When the first of two clients leaves, its socket is closed, and the other's entry takes its place
-- while that client's own index is left as it was: when the other leaves in turn, the assertion on
-- its index fails. The loops' fuel exceeds the seats.
pub on_gone-aborts :
    (k : ℕ) (c : TimingChat) (xs : Cells) (n m : ℕ)
    → max_client < k
    → IsTimed c xs
    → c.table.cnt ≡ 2
    → Entry c xs 2 n
    → Entry c xs 3 m
    → (c' : TimingChat) × (on_gone k 2 c ≡ ok (c', close (pos n) ∷ []))
      × (c'.table.cnt ≡ 1)
      × ((c'.table.fds 2).fd ≡ pos m)
      × (on_gone k 2 c' ≡ fault assert_failed)
unfolding on_gone
on_gone-aborts k c xs n m fuel v two e f =
    let last : st_idx_client + c.table.cnt - 1 ≡ 3 = omega arith in
    let (l, r, t) =
      on_gone_lem k c xs 2 n m fuel v (omega arith) (omega arith) e
        (subst (λ j. Entry c xs j m) (sym last) f) in
    let c' = without c 2 n m l in
    let owned : has (c.table.clients m).timer xs ≡ true = Owns-has _ m xs f.owns in
    let fewer = length-erase (c.table.clients n).timer xs (Owns-has _ n xs e.owns) in
    let (l', d) = del_timer_ok k l (c.table.clients m).timer _ t (omega (arith, fewer, v.count)) in
    let moved : (c'.table.fds 2).fd ≡ pos m = ap (λ j. (c.table.fds j).fd) last ∙ f.fd in
    let kept : c'.table.clients m ≡ c.table.clients m = at_same c.table.clients n m in
    (
      c',
      r,
      omega arith,
      moved,
      rw (moved, lt→ltb m max_fd f.slot, kept, not_null _ v.chain owned, d, f.index) refl,
    )
