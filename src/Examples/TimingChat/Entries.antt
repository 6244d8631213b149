-- ===== src/Examples/TimingChat/Entries.antt =====
-- When the table of examples/framework-intro/timing_group_chat_service.cc and its timers agree.
use simple_http_serv.Prelude.{
  ℕ, zero, suc, ◌+◌, ◌-◌, ◌≤◌, ◌<◌, ◌≡◌, refl, sym, ap, ◌∙◌, inl, inr, true, false, [], ◌∷◌, arith,
  ok, ◌==◌, ==_iff, ltb, lt→ltb, Bool-cases, length, Any, here, there,
}
use simple_http_serv.Prelude.Int.{pos}
use simple_http_serv.Sys.{close}
use simple_http_serv.Examples.Timers.{Ptr, null, Heap, TimerSortedList, del_timer}
use simple_http_serv.Examples.Timers.Chain.{
  Cell, Cells, has, Chain, nil, cons, IsTimers, insert_sorted, erase, IsSorted,
}
use simple_http_serv.Examples.Timers.Remove.{soft_del_timer_absent, del_timer-Deletes}
use simple_http_serv.Examples.Chat.{max_client, max_fd, at}
use simple_http_serv.Examples.Chat.SignalChat.{st_idx_client}
use simple_http_serv.Examples.TimingChat.{
  Table, TimingChat, replace_and_close_pollfd, remove_client_from_poll,
}

-- The timer at `p` is among these, and its client is `n`.
abbrev pub Owns : Ptr → ℕ → Cells → Type 0
Owns p n xs = Any (λ x. (x.at ≡ p) × (x.client ≡ n)) xs

pub Owns-has : (p : Ptr) (n : ℕ) (xs : Cells) → Owns p n xs → has p xs ≡ true
Owns-has p n [] o = elim o [ ]
Owns-has p n (x ∷ xs) (here (a, c)) = ground arith
Owns-has p n (x ∷ xs) (there o) = ground (arith, Owns-has p n xs o)

pub Owns-insert_new : (c : Cell) (xs : Cells) → Owns c.at c.client (insert_sorted c xs)
unfolding insert_sorted
Owns-insert_new c [] = here (refl, refl)
Owns-insert_new c (x ∷ xs) = elim (Bool-cases (ltb x.expire c.expire)) [
  | inl e ↦ rw e (there (Owns-insert_new c xs))
  | inr e ↦ rw e (here (refl, refl))
]

pub Owns-insert_old :
    (p : Ptr) (n : ℕ) (c : Cell) (xs : Cells) → Owns p n xs → Owns p n (insert_sorted c xs)
unfolding insert_sorted
Owns-insert_old p n c [] o = elim o [ ]
Owns-insert_old p n c (x ∷ xs) o = elim (Bool-cases (ltb x.expire c.expire)) [
  | inr e ↦ rw e (there o)
  | inl e ↦ rw e (elim o [ here a ↦ here a | there o' ↦ there (Owns-insert_old p n c xs o') ])
]

pub Owns-erase :
    (p q : Ptr) (n : ℕ) (xs : Cells) → (p == q) ≡ false → Owns p n xs → Owns p n (erase q xs)
unfolding erase
Owns-erase p q n [] d o = elim o [ ]
Owns-erase p q n (x ∷ xs) d (here (a, c)) =
    let apart : (q == x.at) ≡ false = ground arith in rw apart (here (a, c))
Owns-erase p q n (x ∷ xs) d (there o) = elim (Bool-cases (q == x.at)) [
  | inl e ↦ rw e o
  | inr e ↦ rw e (there (Owns-erase p q n xs d o))
]

pub length-insert_sorted : (c : Cell) (xs : Cells) → length (insert_sorted c xs) ≡ suc (length xs)
unfolding insert_sorted
length-insert_sorted c [] = refl
length-insert_sorted c (x ∷ xs) = ground (arith, length-insert_sorted c xs)

pub length-erase : (p : Ptr) (xs : Cells) → has p xs ≡ true → suc (length (erase p xs)) ≡ length xs
unfolding erase
length-erase p [] i = cc
length-erase p (x ∷ xs) i = ground (arith, length-erase p xs)

-- The entry `i` of the table is that of the client `n`, which knows the index and has a timer.
pub record Entry (c : TimingChat) (xs : Cells) (i n : ℕ) : Type 0 where
  pub fd : (c.table.fds i).fd ≡ pos n
  pub slot : n < max_fd
  pub index : (c.table.clients n).pollfds_idx ≡ i
  pub owns : Owns (c.table.clients n).timer n xs

-- The table and the timers agree: a timer for each entry, in the order of their expiry.
pub record IsTimed (c : TimingChat) (xs : Cells) : Type 0 where
  pub bounded : c.table.cnt ≤ max_client
  pub chain : IsTimers c.timers xs
  pub count : length xs ≡ c.table.cnt
  pub sorted : IsSorted xs
  pub entry :
      (i : ℕ) → st_idx_client ≤ i → i < st_idx_client + c.table.cnt → (n : ℕ) × Entry c xs i n
  pub apart :
      (i j n m : ℕ)
      → st_idx_client ≤ i
      → i < st_idx_client + c.table.cnt
      → st_idx_client ≤ j
      → j < st_idx_client + c.table.cnt
      → Entry c xs i n
      → Entry c xs j m
      → (c.table.clients n).timer ≡ (c.table.clients m).timer
      → i ≡ j

-- The entry `i` goes, and the last takes its place.
abbrev pub left_of : ℕ → ℕ → ℕ → Table → Table
left_of i n m t = record {
  cnt = t.cnt - 1;
  fds = at t.fds i (t.fds (st_idx_client + t.cnt - 1));
  clients = at t.clients n (t.clients m);
}

pub remove_client_lem :
    (t : Table) (c i n m : ℕ)
    → (t.clients c).pollfds_idx ≡ i
    → i < st_idx_client + max_client
    → (t.fds i).fd ≡ pos n
    → n < max_fd
    → (t.fds (st_idx_client + t.cnt - 1)).fd ≡ pos m
    → m < max_fd
    → zero < t.cnt
    → t.cnt ≤ max_client
    → remove_client_from_poll c t ≡ ok (left_of i n m t, close (pos n) ∷ [])
unfolding remove_client_from_poll replace_and_close_pollfd
remove_client_lem t c i n m e il f nl g ml some_left b =
    let counted : (t.cnt == 0) ≡ false = ground arith in
    let inside : ltb (st_idx_client + t.cnt - 1) (st_idx_client + max_client) ≡ true =
      lt→ltb _ _ (omega arith) in
    rw (
      counted,
      e,
      lt→ltb i (st_idx_client + max_client) il,
      inside,
      f,
      g,
      lt→ltb n max_fd nl,
      lt→ltb m max_fd ml,
    )

-- DelTimer does no harm, in the list or not.
pub del_timer_ok :
    (k : ℕ) (l : TimerSortedList) (p : Ptr) (xs : Cells)
    → IsTimers l xs
    → length xs < k
    → (l' : TimerSortedList) × (del_timer k l p ≡ ok l')
unfolding del_timer
del_timer_ok k l p xs c fuel = elim (Bool-cases (has p xs)) [
  | inr out ↦ (l, rw (soft_del_timer_absent k l p xs c out fuel))
  | inl i ↦ let (l', e, t, gone, same) = del_timer-Deletes k l p xs c i fuel in (l', e)
]

pub not_null :
    {h : Heap} {prev cur : Ptr} {xs : Cells} (p : Ptr)
    → Chain h prev cur xs
    → has p xs ≡ true
    → (p == null) ≡ false
not_null p nil i = cc
not_null p (cons {x} hx out c) i = elim (Bool-cases (x.at == p)) [
  | inl e ↦ ap (λ q. q == null) (sym ((==_iff x.at p).0 e)) ∙ hx.not_null
  | inr o ↦ not_null p c (ground arith)
]
