-- ===== src/Examples/Chat/Loop.antt =====
-- The loops of the group chats over any turns.
use simple_http_serv.Prelude.{
  ℕ, ◌+◌, ◌<◌, ◌≡◌, refl, subst, ◌∙◌, inl, inr, Bool, true, false, Option, none, some, List, [],
  ◌∷◌, ◌++◌, arith, Run, ok, ltb, if◌then◌else◌, if_true, if_false, Bool-cases, Option-cases, All,
  both,
}
use simple_http_serv.Prelude.Int.{ℤ}
use simple_http_serv.Sys.{
  Action, close, Errno, eagain, eintr, ebadf, other, SockAddr, accepted, Ending, left, waiting,
}
use simple_http_serv.Examples.Chat.{max_fd, PollFlags, PollFd, Chat, Polled, set_revents}
use simple_http_serv.Examples.Chat.GroupChat.{Turn, is_failure, run_group_chat}
use simple_http_serv.Examples.Chat.SignalChat.{
  st_idx_client, SignalChat, read_signals, serve_signal_chat, after_poll, run_signal_chat,
}
use simple_http_serv.Examples.Chat.Table.{FdFits, IsTable}
use simple_http_serv.Examples.Chat.Phases.{Serves, phases-Serves}

-- A kernel whose `accept` returns descriptors that `kClient` has a slot for.
abbrev pub AcceptFits : Polled → Type 0
AcceptFits p = (fd : ℕ) (addr : SockAddr) → p.accept ≡ accepted fd addr → fd < max_fd

abbrev pub TurnFits : Turn → Type 0
TurnFits t = AcceptFits t.polled

fits_either : (b : Bool) (p q : PollFd) → FdFits p → FdFits q → FdFits (if b then p else q)
fits_either true p q fp fq = fp
fits_either false p q fp fq = fq

set_revents-IsTable :
    (first : ℕ) (r : ℕ → PollFlags) (c : Chat)
    → IsTable first c
    → IsTable first (set_revents first r c)
set_revents-IsTable first r c t = record {
  bounded = t.bounded;
  fits = λ j jl jh.
      fits_either (ltb j (first + c.cnt)) (record (c.fds j) { revents = r j }) (c.fds j)
        (t.fits j jl jh) (t.fits j jl jh);
}

-- A run that ends with a table in order.
abbrev pub GroupEnds : Run (Ending × Chat × List Action) → Type 0
GroupEnds r =
    (ending : Ending) × (c' : Chat) × (actions : List Action) × (r ≡ ok (ending, c', actions))
    × IsTable 1 c'

group_leaves :
    (my_sockfd : ℤ) (c : Chat) → IsTable 1 c → GroupEnds (ok (left, c, close my_sockfd ∷ []))
group_leaves my_sockfd c t = (left, c, close my_sockfd ∷ [], refl, t)

-- From a table in order, the loop of group_chat_service.cc meets no fault over any turns whose accept
-- returns descriptors that `kClient` has a slot for, and leaves the table in order.
pub run_group_chat-IsSafe :
    (my_sockfd : ℤ) (ts : List Turn) (c : Chat)
    → All TurnFits ts
    → IsTable 1 c
    → GroupEnds (run_group_chat my_sockfd ts c)
unfolding run_group_chat
run_group_chat-IsSafe my_sockfd [] c fits t = (waiting, c, [], refl, t)
run_group_chat-IsSafe my_sockfd (turn ∷ ts) c (both fit fits) t = elim (Bool-cases turn.stop) [
  | inl s ↦ rw s (group_leaves my_sockfd c t)
  | inr s ↦ elim (Bool-cases (is_failure turn.polled.error)) [
    | inl e ↦ (left, c, close my_sockfd ∷ [], rw (s, e), t)
    | inr e ↦
        let (c1, actions, r, w) =
          phases-Serves 1 turn.polled (set_revents 1 turn.polled.revents c)
            (set_revents-IsTable 1 turn.polled.revents c t) fit in
        let (ending, c2, more, r', t') = run_group_chat-IsSafe my_sockfd ts c1 fits w.table in
        (ending, c2, actions ++ more, rw (s, e, r, r'), t')
  ]
]

abbrev pub SignalEnds : Run (Ending × SignalChat × List Action) → Type 0
SignalEnds r =
    (ending : Ending) × (s' : SignalChat) × (actions : List Action) × (r ≡ ok (ending, s', actions))
    × IsTable st_idx_client s'.chat

read_signals-chat : (p : Polled) (s : SignalChat) → (read_signals p s).chat ≡ s.chat
unfolding read_signals
read_signals-chat p s = ground arith

pub serve_signal_chat_lem :
    (p : Polled) (s : SignalChat)
    → AcceptFits p
    → IsTable st_idx_client s.chat
    → (c' : Chat) × (actions : List Action) × (serve_signal_chat p s
        ≡ ok (record s { chat = c'; stop = (read_signals p s).stop }, actions))
      × Serves st_idx_client s.chat p.accept c' actions
unfolding serve_signal_chat
serve_signal_chat_lem p s fit t =
    let (c', actions, e, w) = phases-Serves st_idx_client p s.chat t fit in
    (c', actions, rw (read_signals-chat p s, e), w)

after_poll-IsTable :
    (e : Option Errno) (r : ℕ → PollFlags) (s : SignalChat) (s' : SignalChat)
    → after_poll e r s ≡ some s'
    → IsTable st_idx_client s.chat
    → IsTable st_idx_client s'.chat
after_poll-IsTable none r s s' e t =
    let same : record s { chat = set_revents st_idx_client r s.chat } ≡ s' = cc in
    subst (λ x. IsTable st_idx_client x.chat) same (set_revents-IsTable st_idx_client r s.chat t)
after_poll-IsTable (some eintr) r s s' e t =
    let same : s ≡ s' = cc in subst (λ x. IsTable st_idx_client x.chat) same t
after_poll-IsTable (some eagain) r s s' e t = cc
after_poll-IsTable (some ebadf) r s s' e t = cc
after_poll-IsTable (some other) r s s' e t = cc

-- From a table in order, the loop of group_chat_service_sio.cc meets no fault over any turns whose
-- accept returns descriptors that `kClient` has a slot for, and leaves the table in order.
pub run_signal_chat-IsSafe :
    (my_sockfd : ℤ) (ps : List Polled) (s : SignalChat)
    → All AcceptFits ps
    → IsTable st_idx_client s.chat
    → SignalEnds (run_signal_chat my_sockfd ps s)
unfolding run_signal_chat
run_signal_chat-IsSafe my_sockfd [] s fits t = elim (Bool-cases s.stop) [
  | inl e ↦ (left, s, close my_sockfd ∷ [], if_true _ _ e, t)
  | inr e ↦ (waiting, s, [], if_false _ _ e, t)
]
run_signal_chat-IsSafe my_sockfd (p ∷ ps) s (both fit fits) t = elim (Bool-cases s.stop) [
  | inl e ↦ (left, s, close my_sockfd ∷ [], if_true _ _ e, t)
  | inr e ↦ elim (Option-cases (after_poll p.error p.revents s)) [
    | inl n ↦ (left, s, close my_sockfd ∷ [], if_false _ _ e ∙ rw n, t)
    | inr (s', n) ↦
        let (c1, actions, r, w) =
          serve_signal_chat_lem p s' fit (after_poll-IsTable p.error p.revents s s' n t) in
        let s1 = record s' { chat = c1; stop = (read_signals p s').stop } in
        let (ending, s2, more, r', t') = run_signal_chat-IsSafe my_sockfd ps s1 fits w.table in
        (ending, s2, actions ++ more, if_false _ _ e ∙ rw (n, r, r'), t')
  ]
]
