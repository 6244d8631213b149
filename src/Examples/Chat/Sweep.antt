-- ===== src/Examples/Chat/Sweep.antt =====
-- Phase 2 of the group chats as a whole.
use simple_http_serv.Prelude.{
  ℕ, zero, suc, ◌+◌, ◌≤◌, ◌<◌, ◌≡◌, sym, ap, ◌∙◌, inl, inr, true, false, List, [], ◌++◌, arith, ok,
  ltb, ltb→lt, Bool-cases, Any, All, none_left, both, All-append, Any-append_left, Any-append_right,
  clash,
}
use simple_http_serv.Prelude.Int.{ℤ}
use simple_http_serv.Sys.{Action, close, Received}
use simple_http_serv.Examples.Chat.{PollFd, Chat, serve}
use simple_http_serv.Examples.Chat.Table.{is_gone, InTable, IsTable, Served}
use simple_http_serv.Examples.Chat.Step.{Call, serve_one-Served}

module _ (first : ℕ) where
  -- Phase 2 leaves the clients that are not gone, closes the others, and calls for nothing else
  -- but messages to clients.
  pub record Swept (c c' : Chat) (actions : List Action) : Type 0 where
    pub table : IsTable first c'
    pub kept : (p : PollFd) → InTable first c p → is_gone p ≡ false → InTable first c' p
    pub only : (p : PollFd) → InTable first c' p → InTable first c p × (is_gone p ≡ false)
    pub closed :
        (p : PollFd) → InTable first c p → is_gone p ≡ true → Any (λ a. a ≡ close p.fd) actions
    pub calls : All (Call first c) actions

  Call-before :
      (c c' : Chat) {actions : List Action}
      → ((p : PollFd) → InTable first c' p → InTable first c p)
      → All (Call first c') actions
      → All (Call first c) actions
  Call-before c c' only none_left = none_left
  Call-before c c' only (both (inl (p, inn, g, e)) rest) =
      both (inl (p, only p inn, g, e)) (Call-before c c' only rest)
  Call-before c c' only (both (inr (p, buf, inn, e)) rest) =
      both (inr (p, buf, only p inn, e)) (Call-before c c' only rest)

  -- What lies behind the index has been looked at.
  abbrev Passed : ℕ → Chat → Type 0
  Passed i c = (j : ℕ) → first ≤ j → j < i → is_gone (c.fds j) ≡ false

  ended-Swept :
      (i : ℕ) (c : Chat)
      → IsTable first c
      → Passed i c
      → ltb i (first + c.cnt) ≡ false
      → Swept c c []
  ended-Swept i c t past over = record {
    table = t;
    kept = λ p inn stay. inn;
    only =
        λ p (j, jl, jh, e). ((j, jl, jh, e), ap is_gone (sym e) ∙ past j jl (ground (arith, over)));
    closed =
        λ p (j, jl, jh, e) gone. clash gone (ap is_gone (sym e) ∙ past j jl (ground (arith, over)));
    calls = none_left;
  }

  Served-Swept :
      (i i' : ℕ) (c c1 c' : Chat) (actions more : List Action)
      → Served first i c i' c1 actions
      → Swept c1 c' more
      → Swept c c' (actions ++ more)
  Served-Swept i i' c c1 c' actions more s w = record {
    table = w.table;
    kept = λ p inn stay. w.kept p (s.kept p inn stay) stay;
    only = λ p inn. let (inn1, stay) = w.only p inn in (s.only p inn1, stay);
    closed = λ p inn gone. elim (s.closed p inn gone) [
      | inl inn1 ↦ Any-append_right actions (w.closed p inn1 gone)
      | inr done ↦ Any-append_left more done
    ];
    calls = All-append s.calls (Call-before c c1 s.only w.calls);
  }

  next_past :
      (i i' : ℕ) (c c1 : Chat) (actions : List Action)
      → Served first i c i' c1 actions
      → Passed i c
      → Passed i' c1
  next_past i i' c c1 actions s past j jl jh = elim (Bool-cases (ltb j i)) [
    | inl lt ↦ ap is_gone (s.before j (ltb→lt j i lt)) ∙ past j jl (ltb→lt j i lt)
    | inr ge ↦ s.passed j (ground (arith, ge)) jh
  ]

  pub serve-Swept :
      (rounds : ℕ) (recv : (fd : ℤ) (len : ℕ) → Received) (i : ℕ) (c : Chat)
      → IsTable first c
      → first ≤ i
      → Passed i c
      → i ≤ first + c.cnt
      → first + c.cnt < i + rounds
      → (c' : Chat) × (actions : List Action) × (serve first rounds recv i c ≡ ok (c', actions))
        × Swept c c' actions
  unfolding serve
  serve-Swept zero recv i c t l past u fuel = absurd (omega arith)
  serve-Swept (suc rounds) recv i c t l past u fuel = elim (Bool-cases (ltb i (first + c.cnt))) [
    | inl inside ↦
        let (i', c1, actions, e, s) =
          serve_one-Served first recv i c t l (ground (arith, inside)) in
        let (c', more, e', w) =
          serve-Swept rounds recv i' c1 s.table (omega (arith, s.ahead))
            (next_past i i' c c1 actions s past) (ground (arith, inside, s.closer))
            (omega (arith, s.closer)) in
        (c', actions ++ more, rw (inside, e, e'), Served-Swept i i' c c1 c' actions more s w)
    | inr over ↦ (c, [], rw over, ended-Swept i c t past over)
  ]
