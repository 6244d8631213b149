-- ===== src/Examples/EarlierPool/Parent/Same.antt =====
-- `run_parent` of src/examples/multitasking/processpool.h beside `RunParent` of src/ProcessPool.h.
use native.Mathlib.Nat.{mod_self, mod-eq_of_lt}
use simple_http_serv.Prelude.{
  ℕ, suc, ◌+◌, ◌%◌, ◌<◌, ◌≡◌, refl, sym, ap, subst, ◌∙◌, inl, inr, Bool, true, false, ◌&&◌, arith,
  Run, ok, ◌==◌, ==_iff, Bool-cases, if◌then◌else◌, List, [], ◌∷◌, ◌++◌,
}
use simple_http_serv.Prelude.Int.{ℤ, eq_ℤ}
use simple_http_serv.Sys.{Ending, left, waiting}
use simple_http_serv.Sys.{
  Action, close, send, eagain, eintr, ebadf, other, Received, failed, bytes, Event, Wait,
  wait_failed, ready,
}
use simple_http_serv.Pool.Parent as P
use simple_http_serv.Pool.Parent.{has_new_conn, sigs_size}
use simple_http_serv.Examples.EarlierPool.Parent.{
  Parent, on_connection, on_sig_pipe, parent_event, parent_events, run_parent,
}
use simple_http_serv.Examples.EarlierPool.Parent.Signals.{on_signals-same}
use simple_http_serv.Examples.EarlierPool.Parent.Places.{SameTable, SameIndex, SomeAlive}
use simple_http_serv.Examples.EarlierPool.Parent.Select.{select_child-same}

-- The two parents between events, with a child alive.
abbrev pub Matches : (listenfd epollfd : ℤ) → Parent → P.Parent → Type 0
Matches listenfd epollfd o p =
    (o.pool.listenfd ≡ listenfd)
    × (o.pool.epollfd ≡ epollfd)
    × SameTable o.pool p.pool
    × (p.pool.stop ≡ o.pool.stop)
    × (o.sub_process_idx < o.pool.num_process)
    × SameIndex o.sub_process_idx p.sub_process_idx
    × SomeAlive o.pool

next_index : (n s : ℕ) → s < n → ((s + 1) % n < n) × SameIndex ((s + 1) % n) ((suc s + 1) % (n + 1))
next_index n s l = elim (Bool-cases (s + 1 == n)) [
  | inl last ↦
      let whole = (==_iff (s + 1) n).0 last in
      let first : (s + 1) % n ≡ 0 = ap (λ x. x % n) whole ∙ mod_self n in
      let more : suc s + 1 ≡ n + 1 = omega arith in
      let first' : (suc s + 1) % (n + 1) ≡ 0 = ap (λ x. x % (n + 1)) more ∙ mod_self (n + 1) in
      (omega arith, inr (first, first'))
  | inr on ↦
      let less : s + 1 < n = ground (arith, on) in
      let here = mod-eq_of_lt {n = s + 1} {m = n} less in
      let there = mod-eq_of_lt {n = suc s + 1} {m = n + 1} (omega arith) in
      (omega arith, inl (omega arith))
]

module _ (listenfd sig_rfd epollfd : ℤ) where
  -- Both asked the same of the kernel.
  abbrev SameStep : Run (Parent × List Action) → Run (P.Parent × List Action) → Type 0
  SameStep r r' =
      (o : Parent) × (p : P.Parent) × (actions : List Action) × (r ≡ ok (o, actions))
      × (r' ≡ ok (p, actions))
      × Matches listenfd epollfd o p

  abbrev pub SameRun :
      Run (Ending × Parent × List Action) → Run (Ending × P.Parent × List Action) → Type 0
  SameRun r r' =
      (ending : Ending) × (o : Parent) × (p : P.Parent) × (actions : List Action) × (r
        ≡ ok (ending, o, actions))
      × (r' ≡ ok (ending, p, actions))
      × Matches listenfd epollfd o p

  on_connection-same :
      (o : Parent) (p : P.Parent)
      → Matches listenfd epollfd o p
      → SameStep (on_connection o) (P.on_connection p)
  unfolding on_connection P.on_connection
  on_connection-same o p (le, ee, same, stop, inside, idx, alive) =
      let n = o.pool.num_process in
      let (sel, l, e, e') =
        select_child-same o.pool p.pool same o.sub_process_idx p.sub_process_idx alive idx inside in
      let (inside', idx') = next_index n sel l in
      let len : p.pool.num_proc ≡ n = same.0 in
      (
        record o { sub_process_idx = (sel + 1) % n },
        record p { sub_process_idx = (suc sel + 1) % (n + 1) },
        send (o.pool.sub_process sel).parent_wfd has_new_conn ∷ [],
        rw e,
        rw (e', (same.1 sel l).1, len),
        (le, ee, same, stop, inside', idx', alive),
      )

  on_sig_pipe-same :
      (o : Parent) (p : P.Parent) (r : Received)
      → Matches listenfd epollfd o p
      → SameStep (ok (on_sig_pipe o r)) (ok (P.on_sig_pipe p r))
  unfolding on_sig_pipe P.on_sig_pipe
  on_sig_pipe-same o p (failed e) m = (o, p, [], refl, refl, m)
  on_sig_pipe-same o p (bytes []) m = (o, p, [], refl, refl, m)
  on_sig_pipe-same o p (bytes (sig ∷ sigs)) (le, ee, same, stop, inside, idx, alive) =
      let (stop', actions, e, e') = on_signals-same o.pool p.pool same o.pool.stop (sig ∷ sigs) in
      let begun : P.on_signals p.pool (sig ∷ sigs) ≡ (record p.pool { stop = stop' }, actions) =
        ap (λ b. P.on_signals (record p.pool { stop = b }) (sig ∷ sigs)) stop ∙ e' in
      (
        record o { pool = record o.pool { stop = stop' } },
        record p { pool = record p.pool { stop = stop' } },
        actions,
        rw e,
        rw begun,
        (le, ee, same, refl, inside, idx, alive),
      )

  SameStep-if :
      (b : Bool) (x y : Run (Parent × List Action)) (x' y' : Run (P.Parent × List Action))
      → SameStep x x'
      → SameStep y y'
      → SameStep (if b then x else y) (if b then x' else y')
  SameStep-if true x y x' y' s t = s
  SameStep-if false x y x' y' s t = t

  parent_event-same :
      (o : Parent) (p : P.Parent) (ev : Event)
      → Matches listenfd epollfd o p
      → SameStep (parent_event sig_rfd o ev) (P.parent_event listenfd sig_rfd p ev)
  unfolding parent_event P.parent_event
  parent_event-same o p ev m =
      subst
        (λ fd.
          SameStep
            (if eq_ℤ ev.fd fd
              then on_connection o
              else if eq_ℤ ev.fd sig_rfd && ev.is_in
              then ok (on_sig_pipe o (ev.recv 0 ev.fd sigs_size))
              else ok (o, []))
            (P.parent_event listenfd sig_rfd p ev))
        (sym m.0)
        (SameStep-if (eq_ℤ ev.fd listenfd) _ _ _ _ (on_connection-same o p m) (
          SameStep-if (eq_ℤ ev.fd sig_rfd && ev.is_in) _ _ _ _
            (on_sig_pipe-same o p (ev.recv 0 ev.fd sigs_size) m) (o, p, [], refl, refl, m)))

  parent_events-same :
      (o : Parent) (p : P.Parent) (evs : List Event)
      → Matches listenfd epollfd o p
      → SameStep (parent_events sig_rfd o evs) (P.parent_events listenfd sig_rfd p evs)
  unfolding parent_events P.parent_events
  parent_events-same o p [] m = (o, p, [], refl, refl, m)
  parent_events-same o p (ev ∷ evs) m =
      let (o', p', actions, e, e', m') = parent_event-same o p ev m in
      let (o'', p'', more, f, f', m'') = parent_events-same o' p' evs m' in
      (o'', p'', actions ++ more, rw (e, f), rw (e', f'), m'')

  leaves :
      (o : Parent) (p : P.Parent)
      → Matches listenfd epollfd o p
      → SameRun (ok (left, o, close o.pool.epollfd ∷ [])) (ok (left, p, close epollfd ∷ []))
  leaves o p m =
      (left, o, p, close epollfd ∷ [], ap (λ fd. ok (left, o, close fd ∷ [])) m.1, refl, m)

  SameRun-if :
      (b : Bool) (x y : Run (Ending × Parent × List Action))
      (x' y' : Run (Ending × P.Parent × List Action))
      → SameRun x x'
      → SameRun y y'
      → SameRun (if b then x else y) (if b then x' else y')
  SameRun-if true x y x' y' s t = s
  SameRun-if false x y x' y' s t = t

  stop_or :
      (o : Parent) (p : P.Parent) (r : Run (Ending × Parent × List Action))
      (r' : Run (Ending × P.Parent × List Action))
      → Matches listenfd epollfd o p
      → SameRun r r'
      → SameRun
          (if o.pool.stop then ok (left, o, close o.pool.epollfd ∷ []) else r)
          (if p.pool.stop then ok (left, p, close epollfd ∷ []) else r')
  stop_or o p r r' m s =
      let here = if o.pool.stop then ok (left, o, close o.pool.epollfd ∷ []) else r in
      subst (λ b. SameRun here (if b then ok (left, p, close epollfd ∷ []) else r')) (sym m.3)
        (SameRun-if o.pool.stop _ _ _ _ (leaves o p m) s)

  -- The parents of both pools, with tables, flags and indices that match and a child alive, ask the
  -- same of the kernel whatever the waits report, end the same way and still match.
  pub run_parent-same :
      (o : Parent) (p : P.Parent) (waits : List Wait)
      → Matches listenfd epollfd o p
      → SameRun (run_parent sig_rfd o waits) (P.run_parent listenfd sig_rfd epollfd p waits)
  unfolding run_parent P.run_parent
  run_parent-same o p [] m = stop_or o p _ _ m (waiting, o, p, [], refl, refl, m)
  run_parent-same o p (wait_failed eintr ∷ ws) m = stop_or o p _ _ m (run_parent-same o p ws m)
  run_parent-same o p (wait_failed eagain ∷ ws) m = leaves o p m
  run_parent-same o p (wait_failed ebadf ∷ ws) m = leaves o p m
  run_parent-same o p (wait_failed other ∷ ws) m = leaves o p m
  run_parent-same o p (ready evs ∷ ws) m =
      let (o', p', actions, e, e', m') = parent_events-same o p evs m in
      let (ending, o'', p'', more, f, f', m'') = run_parent-same o' p' ws m' in
      stop_or o p _ _ m (ending, o'', p'', actions ++ more, rw (e, f), rw (e', f'), m'')
