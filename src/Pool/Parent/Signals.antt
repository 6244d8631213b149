-- ===== src/Pool/Parent/Signals.antt =====
-- The signals in `RunParent` of src/ProcessPool.h: which processes are killed, and what stops.
use simple_http_serv.Prelude.{
  ℕ, zero, suc, ◌+◌, ◌≤◌, ◌<◌, ◌≡◌, refl, sym, ap, subst, ◌∙◌, inl, inr, Bool, true, false, ◌||◌,
  arith, ◌==◌, Bool-cases, if◌then◌else◌, List, [], ◌∷◌, ◌++◌, if_true, if_false, ==_iff, All,
  none_left, both, Any, here, All-append, Any-append_left, Any-append_right,
}
use simple_http_serv.Prelude.Int.{ℤ}
use simple_http_serv.Sys.{Action, send, kill, close, sigint, sigterm}
use simple_http_serv.Pool.Process.{Process}
use simple_http_serv.Pool.Create.{ProcessPool}
use simple_http_serv.Pool.Parent.{is_child, has_new_conn, kill_children, on_signal, on_signals}

-- What the parent may ask of the kernel with `n` children in the table.
pub data Allowed (n : ℕ) (proc : ℕ → Process) (epollfd : ℤ) : Action → Type 0 where
  notified : (j : ℕ) → j ≤ n → Allowed n proc epollfd (send (proc j).parent_wfd has_new_conn)
  killed :
      (j : ℕ) → j ≤ n → is_child proc j ≡ true → Allowed n proc epollfd (kill (proc j).pid sigterm)
  closed : Allowed n proc epollfd (close epollfd)

abbrev pub is_stop : ℕ → Bool
is_stop sig = sig == sigint || sig == sigterm

abbrev pub asks_stop : List ℕ → Bool
asks_stop [] = false
asks_stop (sig ∷ sigs) = is_stop sig || asks_stop sigs

abbrev pub Kill : (ℕ → Process) → ℕ → Action → Type 0
Kill proc j a = a ≡ kill (proc j).pid sigterm

module _ (n : ℕ) (proc : ℕ → Process) (epollfd : ℤ) where
  one_killed :
      (idx : ℕ)
      → idx ≤ n
      → All
          (Allowed n proc epollfd)
          (if is_child proc idx then kill (proc idx).pid sigterm ∷ [] else [])
  one_killed idx l = elim (Bool-cases (is_child proc idx)) [
    | inl c ↦
        subst (All (Allowed n proc epollfd)) (sym (if_true (kill (proc idx).pid sigterm ∷ []) [] c))
          (both (killed idx l c) none_left)
    | inr c ↦
        subst (All (Allowed n proc epollfd))
          (sym (if_false (kill (proc idx).pid sigterm ∷ []) [] c)) none_left
  ]

  kill_children-Allowed :
      (rounds idx : ℕ)
      → idx + rounds ≤ n + 1
      → All (Allowed n proc epollfd) (kill_children rounds idx proc)
  unfolding kill_children
  kill_children-Allowed zero idx l = none_left
  kill_children-Allowed (suc rounds) idx l =
      All-append (one_killed idx (omega arith))
        (kill_children-Allowed rounds (idx + 1) (omega arith))

pub kill_children-every :
    (rounds idx : ℕ) (proc : ℕ → Process) (j : ℕ)
    → is_child proc j ≡ true
    → idx ≤ j
    → j < idx + rounds
    → Any (Kill proc j) (kill_children rounds idx proc)
unfolding kill_children
kill_children-every zero idx proc j c l h = absurd (omega arith)
kill_children-every (suc rounds) idx proc j c l h =
    let own = if is_child proc idx then kill (proc idx).pid sigterm ∷ [] else [] in
    elim (Bool-cases (j == idx)) [
      | inl e ↦
          let same = (==_iff j idx).0 e in
          Any-append_left (kill_children rounds (idx + 1) proc) (
            subst (Any (Kill proc j))
              (sym
                (if_true (kill (proc idx).pid sigterm ∷ []) [] (ap (is_child proc) (sym same) ∙ c)))
              (here (ap (λ x. kill (proc x).pid sigterm) (sym same))))
      | inr ne ↦
          Any-append_right own
            (kill_children-every rounds (idx + 1) proc j c (ground (arith, ne)) (omega arith))
    ]

on_signal_stop :
    (pool : ProcessPool) (sig : ℕ)
    → is_stop sig ≡ true
    → on_signal pool sig
      ≡ (record pool { stop = true }, kill_children (pool.num_proc + 1) 0 pool.proc)
unfolding on_signal
on_signal_stop pool sig s =
    if_true (record pool { stop = true }, kill_children (pool.num_proc + 1) 0 pool.proc) (pool, [])
      s

on_signal_skip :
    (pool : ProcessPool) (sig : ℕ) → is_stop sig ≡ false → on_signal pool sig ≡ (pool, [])
unfolding on_signal
on_signal_skip pool sig s =
    if_false (record pool { stop = true }, kill_children (pool.num_proc + 1) 0 pool.proc) (pool, [])
      s

or_true : (b : Bool) → (b || true) ≡ true
or_true true = refl
or_true false = refl

-- The bytes of the pipe set `stop`, or leave all as it was.
pub on_signals_lem :
    (pool : ProcessPool) (epollfd : ℤ) (sigs : List ℕ)
    → (actions : List Action) × (on_signals pool sigs
        ≡ (record pool { stop = asks_stop sigs || pool.stop }, actions))
      × All (Allowed pool.num_proc pool.proc epollfd) actions
      × ((j : ℕ)
          → asks_stop sigs ≡ true
          → j ≤ pool.num_proc
          → is_child pool.proc j ≡ true
          → Any (Kill pool.proc j) actions)
unfolding on_signals
on_signals_lem pool epollfd [] = ([], refl, none_left, λ j a l c. absurd (ground (arith, a)))
on_signals_lem pool epollfd (sig ∷ sigs) = elim (Bool-cases (is_stop sig)) [
  | inl s ↦
      let (more, e, may, every) = on_signals_lem (record pool { stop = true }) epollfd sigs in
      let kills = kill_children (pool.num_proc + 1) 0 pool.proc in
      (
        kills ++ more,
        rw (on_signal_stop pool sig s, e, s, or_true (asks_stop sigs)),
        All-append
            (kill_children-Allowed pool.num_proc pool.proc epollfd (pool.num_proc + 1) 0
              (omega arith))
            may,
        λ j a l c.
            Any-append_left more
              (kill_children-every (pool.num_proc + 1) 0 pool.proc j c (omega arith) (omega arith)),
      )
  | inr s ↦
      let (more, e, may, every) = on_signals_lem pool epollfd sigs in
      (
        more,
        rw (on_signal_skip pool sig s, e, s),
        may,
        λ j a l c. every j (ap (λ b. b || asks_stop sigs) (sym s) ∙ a) l c,
      )
]
