-- ===== src/Examples/TimingChat/Join.antt =====
-- A client that joins in examples/framework-intro/timing_group_chat_service.cc.
use simple_http_serv.Prelude.{
  ℕ, ◌+◌, ◌≤◌, ◌<◌, ◌≡◌, ◌≢◌, ◌⊎◌, refl, sym, ap, subst, ◌∙◌, inl, inr, false, none, some, [],
  arith, ok, ◌==◌, ==_iff, leb, lt→ltb, if_true, if_false, Bool-cases, length, clash,
}
use simple_http_serv.Prelude.Int.{pos}
use simple_http_serv.Sys.{SockAddr, accepted}
use simple_http_serv.Examples.Timers.{Ptr, null, TimerSortedList, write}
use simple_http_serv.Examples.Timers.Chain.{
  Cell, Cells, has, Chain-frame, IsTimers, insert_sorted, insert_sorted-IsSorted,
}
use simple_http_serv.Examples.Timers.Add.{add_timer-Adds}
use simple_http_serv.Examples.Chat.{max_client, max_fd, PollFd, no_flags, client_events, at}
use simple_http_serv.Examples.Chat.SignalChat.{st_idx_client}
use simple_http_serv.Examples.TimingChat.{
  client_alive_sec, TimedClient, Table, TimingChat, Turn, on_accept,
}
use simple_http_serv.Examples.TimingChat.Entries.{
  Owns, Owns-has, Owns-insert_new, Owns-insert_old, length-insert_sorted, Entry, IsTimed,
}

-- The timer that an accepted client gets.
abbrev pub new_cell : Turn → ℕ → Cell
new_cell p fd = record { at = p.new_timer; expire = p.t_accept + client_alive_sec; client = fd }

-- What `new` documents: not the null pointer, and no memory in use.
pub record IsNew (p : Turn) (xs : Cells) : Type 0 where
  pub allocated : (p.new_timer == null) ≡ false
  pub unused : has p.new_timer xs ≡ false

-- The table with the new client at its end.
abbrev pub joined : Turn → ℕ → SockAddr → Table → Table
joined p fd addr t = record {
  cnt = t.cnt + 1;
  fds =
      at t.fds (st_idx_client + t.cnt)
        (record { fd = pos fd; events = client_events; revents = no_flags });
  clients = at t.clients fd (record (t.clients fd) {
    client_sockaddr = addr;
    buf_to_write = none;
    pollfds_idx = st_idx_client + t.cnt;
    timer = p.new_timer;
  });
}

pub on_accept_lem :
    (k : ℕ) (p : Turn) (fd : ℕ) (addr : SockAddr) (c : TimingChat) (xs : Cells)
    → p.accept ≡ accepted fd addr
    → fd < max_fd
    → c.table.cnt < max_client
    → IsTimers c.timers xs
    → length xs < k
    → IsNew p xs
    → (l : TimerSortedList) × (on_accept k p c
        ≡ ok (record c { table = joined p fd addr c.table; timers = l }, []))
      × IsTimers l (insert_sorted (new_cell p fd) xs)
unfolding on_accept
on_accept_lem k p fd addr c xs a b room t fuel new =
    let x = new_cell p fd in
    let l0 : TimerSortedList = record c.timers {
      heap =
          write c.timers.heap x.at (
            some
              (record { prev = null; next = null; client_data = x.client; t_expire = x.expire }));
    } in
    let (l, e, t', same) =
      add_timer-Adds k l0 x xs (Chain-frame t (λ d j. ground (arith, new.unused)))
        (record { not_null = new.allocated; content = ground arith }) new.unused fuel in
    let open_seat : leb max_client c.table.cnt ≡ false = ground arith in
    (l, rw (a, open_seat, lt→ltb fd max_fd b, e) refl, t')

module _ (p : Turn) (fd : ℕ) (addr : SockAddr) (c : TimingChat) (xs : Cells) (v : IsTimed c xs)
    (b : fd < max_fd)
    (other : (i n : ℕ)
      → st_idx_client ≤ i
      → i < st_idx_client + c.table.cnt
      → Entry c xs i n
      → n ≢ fd)
    (new : IsNew p xs) (l : TimerSortedList) where
  abbrev after : TimingChat
  after = record c { table = joined p fd addr c.table; timers = l }

  abbrev cells : Cells
  cells = insert_sorted (new_cell p fd) xs

  abbrev seat : ℕ
  seat = st_idx_client + c.table.cnt

  newcomer : after.table.clients fd ≡ record (c.table.clients fd) {
    client_sockaddr = addr;
    buf_to_write = none;
    pollfds_idx = seat;
    timer = p.new_timer;
  }
  newcomer = if_true _ (c.table.clients fd) ((==_iff fd fd).1 refl)

  newcomer-Entry : Entry after cells seat fd
  newcomer-Entry = record {
    fd = ap (λ (x : PollFd). x.fd) (if_true _ (c.table.fds seat) ((==_iff seat seat).1 refl));
    slot = b;
    index = ap (λ (d : TimedClient). d.pollfds_idx) newcomer;
    owns =
        subst (λ (d : TimedClient). Owns d.timer fd cells) (sym newcomer)
          (Owns-insert_new (new_cell p fd) xs);
  }

  regular-Entry : (i n : ℕ) → st_idx_client ≤ i → i < seat → Entry c xs i n → Entry after cells i n
  regular-Entry i n l h e =
      let apart : (n == fd) ≡ false = ground (arith, other i n l h e) in
      let off : (i == seat) ≡ false = ground arith in
      let same : at c.table.clients fd _ n ≡ c.table.clients n =
        if_false _ (c.table.clients n) apart in
      record {
        fd = ap (λ (x : PollFd). x.fd) (if_false _ (c.table.fds i) off) ∙ e.fd;
        slot = e.slot;
        index = ap (λ (d : TimedClient). d.pollfds_idx) same ∙ e.index;
        owns =
            subst (λ (d : TimedClient). Owns d.timer n cells) (sym same)
              (Owns-insert_old _ n (new_cell p fd) xs e.owns);
      }

  from_before :
      (i n : ℕ)
      → st_idx_client ≤ i
      → i < seat + 1
      → Entry after cells i n
      → ((i ≡ seat) × (n ≡ fd)) ⊎ ((i < seat) × Entry c xs i n)
  from_before i n l h e = elim (Bool-cases (i == seat)) [
    | inl last ↦
        let here_sits : (after.table.fds i).fd ≡ pos fd =
          ap (λ (x : PollFd). x.fd) (if_true _ (c.table.fds i) last) in
        inl (ground (arith, last), ground (arith, here_sits, e.fd))
    | inr off ↦
        let still : (after.table.fds i).fd ≡ (c.table.fds i).fd =
          ap (λ (x : PollFd). x.fd) (if_false _ (c.table.fds i) off) in
        let below : i < seat = ground (arith, off) in
        let (n0, e0) = v.entry i l below in
        let same : n0 ≡ n = ground (arith, still, e0.fd, e.fd) in
        inr (below, subst (Entry c xs i) same e0)
  ]

  timer_before :
      (i n : ℕ)
      → st_idx_client ≤ i
      → i < seat
      → Entry c xs i n
      → after.table.clients n ≡ c.table.clients n
  timer_before i n l h e =
      let apart : (n == fd) ≡ false = ground (arith, other i n l h e) in
      if_false _ (c.table.clients n) apart

  timer_apart :
      (i n : ℕ)
      → st_idx_client ≤ i
      → i < seat
      → Entry c xs i n
      → (after.table.clients n).timer ≢ (after.table.clients fd).timer
  timer_apart i n l h e same =
      let old = ap (λ (d : TimedClient). d.timer) (timer_before i n l h e) in
      let it : (c.table.clients n).timer ≡ p.new_timer =
        sym old ∙ same ∙ ap (λ (d : TimedClient). d.timer) newcomer in
      clash (ap (λ q. has q xs) (sym it) ∙ Owns-has _ n xs e.owns) new.unused

  joined-apart :
      (i j n m : ℕ)
      → st_idx_client ≤ i
      → i < st_idx_client + after.table.cnt
      → st_idx_client ≤ j
      → j < st_idx_client + after.table.cnt
      → Entry after cells i n
      → Entry after cells j m
      → (after.table.clients n).timer ≡ (after.table.clients m).timer
      → i ≡ j
  joined-apart i j n m il ih jl jh e f same = elim (from_before i n il (omega arith) e) [
    | inl (ei, en) ↦ elim (from_before j m jl (omega arith) f) [
      | inl (ej, em) ↦ ei ∙ sym ej
      | inr (h, f0) ↦
          absurd (timer_apart j m jl h f0 (sym same ∙ ap (λ x. (after.table.clients x).timer) en))
    ]
    | inr (h, e0) ↦ elim (from_before j m jl (omega arith) f) [
      | inl (ej, em) ↦
          absurd (timer_apart i n il h e0 (same ∙ ap (λ x. (after.table.clients x).timer) em))
      | inr (g, f0) ↦
          let timer_of : TimedClient → Ptr = λ d. d.timer in
          v.apart i j n m il h jl g e0 f0 (
            sym (ap timer_of (timer_before i n il h e0))
            ∙ same
            ∙ ap timer_of (timer_before j m jl g f0))
    ]
  ]

  pub joined-IsTimed : c.table.cnt < max_client → IsTimers l cells → IsTimed after cells
  joined-IsTimed room t = record {
    bounded = omega arith;
    chain = t;
    count = length-insert_sorted (new_cell p fd) xs ∙ ground (arith, v.count);
    sorted = insert_sorted-IsSorted (new_cell p fd) xs v.sorted;
    entry = λ i il ih. elim (Bool-cases (i == seat)) [
      | inl last ↦
          (fd, subst (λ j. Entry after cells j fd) (sym ((==_iff i seat).0 last)) newcomer-Entry)
      | inr off ↦
          let (n, e) = v.entry i il (ground (arith, off)) in
          (n, regular-Entry i n il (ground (arith, off)) e)
    ];
    apart = joined-apart;
  }

-- When table and timers agree, a client that connects while there is a seat, on a descriptor that no
-- client of the table has and that is below kMaxnFD, so that `kClient` has a slot for it, joins: its
-- entry is the last, its timer is put behind those that expire earlier, the other entries stay, and
-- the table and the timers agree as before. `new` returns memory that is not null and not in use, and
-- the loops' fuel exceeds the seats.
pub on_accept-IsTimed :
    (k : ℕ) (p : Turn) (fd : ℕ) (addr : SockAddr) (c : TimingChat) (xs : Cells)
    → max_client < k
    → IsTimed c xs
    → p.accept ≡ accepted fd addr
    → fd < max_fd
    → c.table.cnt < max_client
    → ((i n : ℕ) → st_idx_client ≤ i → i < st_idx_client + c.table.cnt → Entry c xs i n → n ≢ fd)
    → IsNew p xs
    → (c' : TimingChat) × (on_accept k p c ≡ ok (c', []))
      × IsTimed c' (insert_sorted (new_cell p fd) xs)
      × (c'.table.cnt ≡ c.table.cnt + 1)
      × Entry c' (insert_sorted (new_cell p fd) xs) (st_idx_client + c.table.cnt) fd
      × ((c'.table.clients fd).timer ≡ p.new_timer)
      × ((i n : ℕ)
          → st_idx_client ≤ i
          → i < st_idx_client + c.table.cnt
          → Entry c xs i n
          → Entry c' (insert_sorted (new_cell p fd) xs) i n)
on_accept-IsTimed k p fd addr c xs fuel v a b room other new =
    let (l, e, t) = on_accept_lem k p fd addr c xs a b room v.chain (omega (arith, v.count)) new in
    (
      after p fd addr c xs v b other new l,
      e,
      joined-IsTimed p fd addr c xs v b other new l room t,
      refl,
      newcomer-Entry p fd addr c xs v b other new l,
      ap (λ (d : TimedClient). d.timer) (newcomer p fd addr c xs v b other new l),
      regular-Entry p fd addr c xs v b other new l,
    )
