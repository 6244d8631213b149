-- ===== src/Examples/TimingChat/Quiet.antt =====
-- What a quiet step of examples/framework-intro/timing_group_chat_service.cc keeps: one that changes
-- neither which clients there are nor their timers.
use simple_http_serv.Prelude.{
  ℕ, suc, ◌+◌, ◌≤◌, ◌<◌, ◌≡◌, refl, sym, ◌∙◌, inl, inr, Bool, true, false, ◌||◌, List, [], ◌∷◌,
  arith, ◌==◌, Bool-cases, if◌then◌else◌, ltb, All, none_left, both,
}
use simple_http_serv.Sys.{sigterm, Received, failed, bytes}
use simple_http_serv.Examples.Timers.Chain.{Cell, Cells, IsTimers, insert_sorted, erase}
use simple_http_serv.Examples.Timers.Tick.{expired, remaining}
use simple_http_serv.Examples.Chat.{PollFd, PollFlags}
use simple_http_serv.Examples.Chat.SignalChat.{st_idx_client, sigpipe_buf_size}
use simple_http_serv.Examples.Chat.Table.{is_gone}
use simple_http_serv.Examples.TimingChat.{
  TimingChat, Turn, sigalrm, read_signals, signalled, put_recv_buf,
}
use simple_http_serv.Examples.TimingChat.Loop.{set_revents}
use simple_http_serv.Examples.TimingChat.Message.{at_keeps}
use simple_http_serv.Examples.TimingChat.Entries.{Entry, IsTimed}

-- The same clients on the same entries, with timers at the same place.
pub record SameClients (c c' : TimingChat) : Type 0 where
  pub cnt : c'.table.cnt ≡ c.table.cnt
  pub fd : (i : ℕ) → (c'.table.fds i).fd ≡ (c.table.fds i).fd
  pub index : (n : ℕ) → (c'.table.clients n).pollfds_idx ≡ (c.table.clients n).pollfds_idx
  pub timer : (n : ℕ) → (c'.table.clients n).timer ≡ (c.table.clients n).timer

module _ (c c' : TimingChat) (xs : Cells) (s : SameClients c c') where
  pub Entry-same : (i n : ℕ) → Entry c xs i n → Entry c' xs i n
  Entry-same i n e = record {
    fd = s.fd i ∙ e.fd;
    slot = e.slot;
    index = s.index n ∙ e.index;
    owns = rw (s.timer n) e.owns;
  }

  Entry-was : (i n : ℕ) → Entry c' xs i n → Entry c xs i n
  Entry-was i n e = record {
    fd = sym (s.fd i) ∙ e.fd;
    slot = e.slot;
    index = sym (s.index n) ∙ e.index;
    owns = rw (sym (s.timer n)) e.owns;
  }

  pub IsTimed-same : IsTimed c xs → IsTimers c'.timers xs → IsTimed c' xs
  IsTimed-same v t =
      let room : (i : ℕ) → i < st_idx_client + c'.table.cnt → i < st_idx_client + c.table.cnt =
        λ i l. omega (arith, l, s.cnt) in
      record {
        bounded = omega (arith, v.bounded, s.cnt);
        chain = t;
        count = v.count ∙ sym s.cnt;
        sorted = v.sorted;
        entry = λ i l h. let (n, e) = v.entry i l (room i h) in (n, Entry-same i n e);
        apart = λ i j n m il ih jl jh e f same.
            v.apart i j n m il (room i ih) jl (room j jh) (Entry-was i n e) (Entry-was j m f)
              (sym (s.timer n) ∙ same ∙ s.timer m);
      }

polled_fd :
    (b : Bool) (e : PollFd) (r : PollFlags) → (if b then record e { revents = r } else e).fd ≡ e.fd
polled_fd true e r = refl
polled_fd false e r = refl

pub set_revents-SameClients : (r : ℕ → PollFlags) (c : TimingChat) → SameClients c (set_revents r c)
set_revents-SameClients r c = record {
  cnt = refl;
  fd = λ i. polled_fd (ltb i (st_idx_client + c.table.cnt)) (c.table.fds i) (r i);
  index = λ n. refl;
  timer = λ n. refl;
}

-- Only the two flags of the signals may change.
abbrev pub Flagged : TimingChat → TimingChat → Type 0
Flagged c c' = (stop : Bool) × (timeout : Bool) × (c' ≡ record c { stop = stop; timeout = timeout })

signalled_lem : (sigs : List ℕ) (c : TimingChat) → Flagged c (signalled c sigs)
signalled_lem [] c = (c.stop, c.timeout, refl)
signalled_lem (sig ∷ sigs) c =
    signalled_lem sigs
      (record c { timeout = c.timeout || sig == sigalrm; stop = c.stop || sig == sigterm })

read_received :
    (p : Turn) (c : TimingChat) (r : Received)
    → (c.table.fds 1).revents.pollin ≡ true
    → p.recv (c.table.fds 1).fd sigpipe_buf_size ≡ r
    → Flagged c (read_signals p c)
unfolding read_signals
read_received p c (failed e) i r = (c.stop, c.timeout, rw (read_signals, i, r))
read_received p c (bytes sigs) i r =
    let (stop, timeout, same) = signalled_lem sigs c in
    (stop, timeout, rw (read_signals, i, r) same)

pub read_signals-Flagged : (p : Turn) (c : TimingChat) → Flagged c (read_signals p c)
unfolding read_signals
read_signals-Flagged p c = elim (Bool-cases (c.table.fds 1).revents.pollin) [
  | inr e ↦ (c.stop, c.timeout, rw e)
  | inl e ↦ read_received p c (p.recv (c.table.fds 1).fd sigpipe_buf_size) e refl
]

-- Nothing but the receive buffer of the client `n`.
pub put_recv_buf-SameClients :
    (n : ℕ) (bs : List ℕ) (c : TimingChat)
    → SameClients c (record c { table = put_recv_buf n bs c.table })
put_recv_buf-SameClients n bs c = record {
  cnt = refl;
  fd = λ i. refl;
  index = λ m. at_keeps (λ d. d.pollfds_idx) c.table.clients n m _ refl;
  timer = λ m. at_keeps (λ d. d.timer) c.table.clients n m _ refl;
}

-- Every timer has time at `t`.
abbrev pub InTime : ℕ → Cells → Type 0
InTime t xs = All (λ x. t ≤ x.expire) xs

pub InTime-insert_sorted :
    (t : ℕ) (x : Cell) (xs : Cells) → t ≤ x.expire → InTime t xs → InTime t (insert_sorted x xs)
unfolding insert_sorted
InTime-insert_sorted t x [] l none_left = both l none_left
InTime-insert_sorted t x (y ∷ ys) l (both m rest) = elim (Bool-cases (ltb y.expire x.expire)) [
  | inl e ↦ rw e (both m (InTime-insert_sorted t x ys l rest))
  | inr e ↦ rw e (both l (both m rest))
]

pub InTime-erase : (t p : ℕ) (xs : Cells) → InTime t xs → InTime t (erase p xs)
unfolding erase
InTime-erase t p [] none_left = none_left
InTime-erase t p (x ∷ xs) (both m rest) = elim (Bool-cases (p == x.at)) [
  | inl e ↦ rw e rest
  | inr e ↦ rw e (both m (InTime-erase t p xs rest))
]

pub InTime-none_expired :
    (t : ℕ) (xs : Cells) → InTime t xs → (expired t xs ≡ []) × (remaining t xs ≡ xs)
unfolding expired remaining
InTime-none_expired t [] none_left = (refl, refl)
InTime-none_expired t (x ∷ xs) (both m rest) =
    let has_time : ltb x.expire t ≡ false = ground (arith, m) in (rw has_time, rw has_time)

-- The table and the timers agree, and every timer has time at `t`.
abbrev pub InOrder : ℕ → TimingChat → Type 0
InOrder t c = (xs : Cells) × IsTimed c xs × InTime t xs

-- From the entry `i` on, only the last client asks to leave.
abbrev pub LastLeaves : ℕ → TimingChat → Type 0
LastLeaves i c =
    (j : ℕ)
    → i ≤ j
    → j < st_idx_client + c.table.cnt
    → is_gone (c.table.fds j) ≡ true
    → suc j ≡ st_idx_client + c.table.cnt
