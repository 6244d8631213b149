-- ===== src/Examples/TimingChat/Orderly.antt =====
-- The loop of examples/framework-intro/timing_group_chat_service.cc over any orderly turns.
use simple_http_serv.Prelude.{
  ℕ, ◌<◌, ◌≡◌, refl, subst, sym, inl, inr, false, Option, none, some, List, [], ◌∷◌, ◌++◌, Run, ok,
  Bool-cases, if◌then◌else◌, if_true, if_false, arith,
}
use simple_http_serv.Prelude.Int.{ℤ}
use simple_http_serv.Sys.{Action, close, Errno, eagain, eintr, ebadf, other, Ending, left, waiting}
use simple_http_serv.Examples.Timers.Chain.{Cells, nil}
use simple_http_serv.Examples.Chat.{max_client, PollFlags}
use simple_http_serv.Examples.TimingChat.{TimingChat, TimedClient, Turn}
use simple_http_serv.Examples.TimingChat.Loop.{
  new_timing_chat, set_revents, after_poll, phases, run_timing_chat,
}
use simple_http_serv.Examples.TimingChat.Entries.{IsTimed}
use simple_http_serv.Examples.TimingChat.Quiet.{IsTimed-same, set_revents-SameClients}
use simple_http_serv.Examples.TimingChat.Alarm.{FromLast}
use simple_http_serv.Examples.TimingChat.Expiry.{Idle, phases-Idle}
use simple_http_serv.Examples.Timers.Tick.{expired}
use simple_http_serv.Examples.Chat.SignalChat.{st_idx_client}
use simple_http_serv.Examples.TimingChat.Turns.{TurnFits, phases-IsTimed}

-- Each turn fits the state that it meets, or brings at most an alarm by which those silent for too long
-- have the last entries; up to a `poll` that fails.
pub data Orderly (k : ℕ) : TimingChat → List Turn → Type 0 where
  over : {c : TimingChat} → Orderly k c []
  fails :
      {c : TimingChat} {p : Turn} {ps : List Turn}
      → after_poll p.error p.revents c ≡ none
      → Orderly k c (p ∷ ps)
  goes_on :
      {c c' : TimingChat} {p : Turn} {ps : List Turn}
      → after_poll p.error p.revents c ≡ some c'
      → TurnFits p c'
      → ((c'' : TimingChat) (actions : List Action)
          → phases k p c' ≡ ok (c'', actions)
          → Orderly k c'' ps)
      → Orderly k c (p ∷ ps)
  expires :
      {c c' : TimingChat} {p : Turn} {ps : List Turn}
      → after_poll p.error p.revents c ≡ some c'
      → (c'.table.fds 0).revents.pollin ≡ false
      → Idle st_idx_client c'
      → ((xs : Cells) → IsTimed c' xs → FromLast c'.table (expired p.t_alarm xs))
      → ((c'' : TimingChat) (actions : List Action)
          → phases k p c' ≡ ok (c'', actions)
          → Orderly k c'' ps)
      → Orderly k c (p ∷ ps)

-- Before anybody connects, the list of timers is empty.
pub new_timing_chat-IsTimed :
    (my_sockfd sig_pipe_rfd : ℤ) (clients : ℕ → TimedClient)
    → IsTimed (new_timing_chat my_sockfd sig_pipe_rfd clients) []
new_timing_chat-IsTimed my_sockfd sig_pipe_rfd clients = record {
  bounded = omega arith;
  chain = nil;
  count = refl;
  sorted = tt;
  entry = λ i l h. absurd (omega arith);
  apart = λ i j n m il ih jl jh e f same. absurd (omega arith);
}

after_poll-IsTimed :
    (e : Option Errno) (r : ℕ → PollFlags) (c c' : TimingChat) (xs : Cells)
    → after_poll e r c ≡ some c'
    → IsTimed c xs
    → IsTimed c' xs
after_poll-IsTimed none r c c' xs e v =
    let same : set_revents r c ≡ c' = cc in
    subst (λ x. IsTimed x xs) same
      (IsTimed-same c (set_revents r c) xs (set_revents-SameClients r c) v v.chain)
after_poll-IsTimed (some eintr) r c c' xs e v =
    let same : c ≡ c' = cc in subst (λ x. IsTimed x xs) same v
after_poll-IsTimed (some eagain) r c c' xs e v = cc
after_poll-IsTimed (some ebadf) r c c' xs e v = cc
after_poll-IsTimed (some other) r c c' xs e v = cc

-- A run that ends with table and timers in agreement.
abbrev pub TimedEnds : Run (Ending × TimingChat × List Action) → Type 0
TimedEnds r =
    (ending : Ending) × (c' : TimingChat) × (actions : List Action) × (r ≡ ok (ending, c', actions))
    × (xs : Cells) × IsTimed c' xs

module _ (k : ℕ) (fuel : max_client < k) (my_sockfd : ℤ) where
  leaves :
      (c : TimingChat) (xs : Cells) → IsTimed c xs → TimedEnds (ok (left, c, close my_sockfd ∷ []))
  leaves c xs v = (left, c, close my_sockfd ∷ [], refl, xs, v)

  stop_or :
      (c : TimingChat) (xs : Cells) (r : Run (Ending × TimingChat × List Action))
      → IsTimed c xs
      → TimedEnds r
      → TimedEnds (if c.stop then ok (left, c, close my_sockfd ∷ []) else r)
  stop_or c xs r v t = elim (Bool-cases c.stop) [
    | inl s ↦ subst TimedEnds (sym (if_true _ r s)) (leaves c xs v)
    | inr s ↦ subst TimedEnds (sym (if_false (ok (left, c, close my_sockfd ∷ [])) r s)) t
  ]

  -- From a table and timers in agreement, the loop meets no fault over any number of turns that fit
  -- the states that they meet, and leaves them in agreement. The loops' fuel exceeds the seats. A turn
  -- fits in one of three ways. Its `poll` fails, for no interruption by a signal. Or all of these hold:
  -- a descriptor that `accept` returns is that of no client and below kMaxnFD, so that `kClient` has a
  -- slot for it; `new` returns memory that is not null and not in use; a client that leaves has the
  -- last entry, and none connects in its turn; the timers have time at the time that an alarm would
  -- read; and that time is at most kClientAliveSec after those that accept and each recv of the turn
  -- would read. Or `poll` reports neither a connection nor, of a client, anything that the loop acts
  -- on, and those silent for too long have the last entries, the last of them silent for longest.
  pub run_timing_chat-IsTimed :
      (ps : List Turn) (c : TimingChat) (xs : Cells)
      → IsTimed c xs
      → Orderly k c ps
      → TimedEnds (run_timing_chat k my_sockfd ps c)
  unfolding run_timing_chat
  run_timing_chat-IsTimed [] c xs v o = stop_or c xs _ v (waiting, c, [], refl, xs, v)
  run_timing_chat-IsTimed (p ∷ ps) c xs v (fails e) =
      stop_or c xs _ v (left, c, close my_sockfd ∷ [], rw e, xs, v)
  run_timing_chat-IsTimed (p ∷ ps) c xs v (goes_on {c' = c'} e fits more) =
      let (c1, a1, r, xs1, v1) =
        phases-IsTimed k fuel p c' xs (after_poll-IsTimed p.error p.revents c c' xs e v) fits in
      let (ending, c2, a2, r', xs2, v2) = run_timing_chat-IsTimed ps c1 xs1 v1 (more c1 a1 r) in
      stop_or c xs _ v (ending, c2, a1 ++ a2, rw (e, r, r'), xs2, v2)
  run_timing_chat-IsTimed (p ∷ ps) c xs v (expires {c' = c'} e quiet idle silent more) =
      let v0 = after_poll-IsTimed p.error p.revents c c' xs e v in
      let (c1, a1, r, xs1, v1) = phases-Idle k p c' xs fuel v0 quiet idle (silent xs v0) in
      let (ending, c2, a2, r', xs2, v2) = run_timing_chat-IsTimed ps c1 xs1 v1 (more c1 a1 r) in
      stop_or c xs _ v (ending, c2, a1 ++ a2, rw (e, r, r'), xs2, v2)
