-- ===== src/Examples/TimingChat/Message.antt =====
-- A client that sends in examples/framework-intro/timing_group_chat_service.cc.
use simple_http_serv.Prelude.{
  ℕ, zero, suc, ◌+◌, ◌≤◌, ◌<◌, ◌≡◌, refl, sym, ap, subst, ◌∙◌, inl, inr, true, none, List, [], ◌∷◌,
  arith, ok, ◌==◌, ==_iff, lt→ltb, if_true, if_false, Bool-cases, here, there,
}
use simple_http_serv.Prelude.Int.{ℤ, pos}
use simple_http_serv.Sys.{Action, bytes}
use simple_http_serv.Examples.Timers.{Ptr, Heap, TimerSortedList, chg_timer}
use simple_http_serv.Examples.Timers.Chain.{
  Cell, Cells, has, Holds, Chain, nil, cons, IsTimers, insert_sorted, insert_sorted-IsSorted, erase,
  erase-IsSorted,
}
use simple_http_serv.Examples.Timers.Remove.{chg_timer-Changes}
use simple_http_serv.Examples.Chat.{
  max_client, max_fd, PollFd, ClientData, Chat, at, client_index, filled,
}
use simple_http_serv.Examples.Chat
use simple_http_serv.Examples.Chat.Broadcast.{Reaches, send_others-Reaches}
use simple_http_serv.Examples.Chat.SignalChat.{st_idx_client}
use simple_http_serv.Examples.TimingChat.{
  client_alive_sec, TimedClient, Table, TimingChat, send_others, put_recv_buf, on_readable,
}
use simple_http_serv.Examples.TimingChat.Entries.{
  Owns, Owns-has, Owns-insert_new, Owns-insert_old, Owns-erase, length-insert_sorted, length-erase,
  Entry, IsTimed,
}

-- The entries, as the other group chats keep them.
abbrev pub chat_of : Table → Chat
chat_of t = record {
  cnt = t.cnt;
  fds = t.fds;
  clients = λ i. record {
    client_sockaddr = record { sin_addr = 0; sin_port = 0 };
    buf_to_write = none;
    recv_buf = [];
  };
}

send_others-same :
    (rounds j : ℕ) (t : Table) (peer_sockfd : ℤ) (buf : List ℕ)
    → send_others rounds j t peer_sockfd buf
      ≡ Chat.send_others st_idx_client rounds j (chat_of t) peer_sockfd buf
unfolding send_others Chat.send_others
send_others-same zero j t peer_sockfd buf = refl
send_others-same (suc rounds) j t peer_sockfd buf =
    rw (send_others-same rounds (j + 1) t peer_sockfd buf)

-- A timer that is owned lies on the heap.
Owns-Holds :
    {h : Heap} {prev cur : Ptr} {xs : Cells} (p : Ptr) (n : ℕ)
    → Chain h prev cur xs
    → Owns p n xs
    → (x : Cell) × (x.at ≡ p) × (x.client ≡ n) × (a : Ptr) × (b : Ptr) × Holds h x a b
Owns-Holds p n nil o = elim o [ ]
Owns-Holds p n (cons {prev} {q} {x} hx out c) (here (a, e)) = (x, a, e, prev, q, hx)
Owns-Holds p n (cons hx out c) (there o) = Owns-Holds p n c o

pub at_keeps :
    {A : Type 0} (f : TimedClient → A) (clients : ℕ → TimedClient) (n m : ℕ) (d : TimedClient)
    → f d ≡ f (clients n)
    → f (at clients n d m) ≡ f (clients m)
at_keeps f clients n m d e = elim (Bool-cases (m == n)) [
  | inl s ↦ ap f (if_true d (clients m) s) ∙ e ∙ ap (λ i. f (clients i)) (sym ((==_iff m n).0 s))
  | inr o ↦ ap f (if_false d (clients m) o)
]

module _ (c : TimingChat) (xs : Cells) (v : IsTimed c xs) (i n : ℕ) (il : st_idx_client ≤ i)
    (ih : i < st_idx_client + c.table.cnt) (e : Entry c xs i n) (x : Cell)
    (at_it : x.at ≡ (c.table.clients n).timer) (its : x.client ≡ n) (l : TimerSortedList)
    (bs : List ℕ) where
  abbrev after : TimingChat
  after = record c { table = put_recv_buf n bs c.table; timers = l }

  abbrev cells : ℕ → Cells
  cells t = insert_sorted (record x { expire = t }) (erase x.at xs)

  same_index : (m : ℕ) → (after.table.clients m).pollfds_idx ≡ (c.table.clients m).pollfds_idx
  same_index m = at_keeps (λ d. d.pollfds_idx) c.table.clients n m _ refl

  same_timer : (m : ℕ) → (after.table.clients m).timer ≡ (c.table.clients m).timer
  same_timer m = at_keeps (λ d. d.timer) c.table.clients n m _ refl

  Owns-after :
      (t j m : ℕ)
      → st_idx_client ≤ j
      → j < st_idx_client + c.table.cnt
      → Entry c xs j m
      → Owns (c.table.clients m).timer m (cells t)
  Owns-after t j m jl jh f = elim (Bool-cases ((c.table.clients m).timer == x.at)) [
    | inl s ↦
        let same : i ≡ j = v.apart i j n m il ih jl jh e f (sym at_it ∙ sym ((==_iff _ _).0 s)) in
        let who : m ≡ x.client =
          let mine : (c.table.fds j).fd ≡ pos n = ap (λ y. (c.table.fds y).fd) (sym same) ∙ e.fd in
          ground (arith, mine, f.fd, its) in
        subst (λ p. Owns p m (cells t)) (sym ((==_iff _ _).0 s))
          (subst (λ y. Owns x.at y (cells t)) (sym who)
            (Owns-insert_new (record x { expire = t }) (erase x.at xs)))
    | inr d ↦ Owns-insert_old _ m (record x { expire = t }) _ (Owns-erase _ x.at m xs d f.owns)
  ]

  after-Entry :
      (t j m : ℕ)
      → st_idx_client ≤ j
      → j < st_idx_client + c.table.cnt
      → Entry c xs j m
      → Entry after (cells t) j m
  after-Entry t j m jl jh f = record {
    fd = f.fd;
    slot = f.slot;
    index = same_index m ∙ f.index;
    owns = subst (λ p. Owns p m (cells t)) (sym (same_timer m)) (Owns-after t j m jl jh f);
  }

  was-Entry :
      (t j m : ℕ)
      → st_idx_client ≤ j
      → j < st_idx_client + c.table.cnt
      → Entry after (cells t) j m
      → Entry c xs j m
  was-Entry t j m jl jh f =
      let (m0, f0) = v.entry j jl jh in
      let same : m0 ≡ m = ground (arith, f0.fd, f.fd) in subst (Entry c xs j) same f0

  after-IsTimed : (t : ℕ) → IsTimers l (cells t) → IsTimed after (cells t)
  after-IsTimed t h =
      let owned : has x.at xs ≡ true =
        subst (λ p. has p xs ≡ true) (sym at_it) (Owns-has _ n xs e.owns) in
      record {
        bounded = v.bounded;
        chain = h;
        count =
            length-insert_sorted (record x { expire = t }) (erase x.at xs)
            ∙ length-erase x.at xs owned
            ∙ v.count;
        sorted =
            insert_sorted-IsSorted (record x { expire = t }) _ (erase-IsSorted x.at xs v.sorted);
        entry = λ j jl jh. let (m, f) = v.entry j jl jh in (m, after-Entry t j m jl jh f);
        apart = λ j j' a b jl jh jl' jh' f g same.
            v.apart j j' a b jl jh jl' jh' (was-Entry t j a jl jh f) (was-Entry t j' b jl' jh' g)
              (sym (same_timer a) ∙ same ∙ same_timer b);
      }

pub on_readable_lem :
    (k : ℕ) (c : TimingChat) (xs : Cells) (i n t_recv b : ℕ) (bs : List ℕ)
    → max_client < k
    → IsTimed c xs
    → st_idx_client ≤ i
    → i < st_idx_client + c.table.cnt
    → Entry c xs i n
    → (x : Cell) × (l : TimerSortedList) × (actions : List Action) × (on_readable k
          (pos n)
          t_recv
          (bytes (b ∷ bs))
          c
        ≡ ok (record c { table = put_recv_buf n (b ∷ bs) c.table; timers = l }, actions))
      × Reaches st_idx_client (chat_of c.table) st_idx_client (pos n) (filled (b ∷ bs)) actions
      × (x.at ≡ (c.table.clients n).timer)
      × (x.client ≡ n)
      × IsTimed
          (record c { table = put_recv_buf n (b ∷ bs) c.table; timers = l })
          (insert_sorted (record x { expire = t_recv + client_alive_sec }) (erase x.at xs))
unfolding on_readable
on_readable_lem k c xs i n t_recv b bs fuel v il ih e =
    let (x, at_it, its, p, q, h) = Owns-Holds _ n v.chain e.owns in
    let owned : has x.at xs ≡ true =
      subst (λ y. has y xs ≡ true) (sym at_it) (Owns-has _ n xs e.owns) in
    let (l, r, t, same) =
      chg_timer-Changes k c.timers x (t_recv + client_alive_sec) xs v.chain h owned
        (omega (arith, v.count, v.bounded)) in
    let changed : chg_timer k c.timers (c.table.clients n).timer (t_recv + client_alive_sec)
        ≡ ok l =
      ap (λ y. chg_timer k c.timers y (t_recv + client_alive_sec)) (sym at_it) ∙ r in
    let (actions, s, reach) =
      send_others-Reaches st_idx_client c.table.cnt st_idx_client (chat_of c.table) (pos n)
        (filled (b ∷ bs)) v.bounded refl in
    (
      x,
      l,
      actions,
      rw
          (
            lt→ltb n max_fd e.slot,
            send_others-same c.table.cnt st_idx_client c.table (pos n) (filled (b ∷ bs)),
            s,
            changed,
          )
          refl,
      reach,
      at_it,
      its,
      after-IsTimed c xs v i n il ih e x at_it its l (b ∷ bs) (t_recv + client_alive_sec) t,
    )

-- A message from the client of an entry goes, with zeros up to the buffer's size, to each other client
-- and to nobody else; its timer moves behind those that expire before the new time; and the table and
-- the timers agree as before. The loops' fuel exceeds the seats.
pub on_readable-IsTimed :
    (k : ℕ) (c : TimingChat) (xs : Cells) (i n t_recv b : ℕ) (bs : List ℕ)
    → max_client < k
    → IsTimed c xs
    → st_idx_client ≤ i
    → i < st_idx_client + c.table.cnt
    → Entry c xs i n
    → (x : Cell) × (c' : TimingChat) × (actions : List Action) × (on_readable k
          (pos n)
          t_recv
          (bytes (b ∷ bs))
          c
        ≡ ok (c', actions))
      × Reaches st_idx_client (chat_of c.table) st_idx_client (pos n) (filled (b ∷ bs)) actions
      × (x.at ≡ (c.table.clients n).timer)
      × (x.client ≡ n)
      × IsTimed c' (insert_sorted (record x { expire = t_recv + client_alive_sec }) (erase x.at xs))
on_readable-IsTimed k c xs i n t_recv b bs fuel v il ih e =
    let (x, l, actions, r, reach, at_it, its, t) =
      on_readable_lem k c xs i n t_recv b bs fuel v il ih e in
    (
      x,
      record c { table = put_recv_buf n (b ∷ bs) c.table; timers = l },
      actions,
      r,
      reach,
      at_it,
      its,
      t,
    )
