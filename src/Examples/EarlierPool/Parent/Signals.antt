-- ===== src/Examples/EarlierPool/Parent/Signals.antt =====
-- The signals in `run_parent` of src/examples/multitasking/processpool.h beside those in `RunParent`
-- of src/ProcessPool.h.
use simple_http_serv.Prelude.{
  ℕ, zero, suc, ◌+◌, ◌≤◌, ◌≡◌, refl, ap, ◌∙◌, inl, inr, Bool, true, false, ◌||◌, arith, ◌==◌,
  Bool-cases, if_true, if_false, List, [], ◌∷◌, ◌++◌,
}
use simple_http_serv.Sys.{Action, sigterm, sigint}
use simple_http_serv.Pool.Create.{ProcessPool}
use simple_http_serv.Pool.Parent as P
use simple_http_serv.Pool.Parent.{has_new_conn, sigs_size}
use simple_http_serv.Examples.EarlierPool.{Processpool}
use simple_http_serv.Examples.EarlierPool.Parent.{is_alive, kill_children, on_signal, on_signals}
use simple_http_serv.Examples.EarlierPool.Parent.Places.{SameTable, is_child-suc}

kill_children-same :
    (o : Processpool) (p : ProcessPool) (same : SameTable o p) (rounds idx idx' : ℕ)
    → idx' ≡ suc idx
    → idx + rounds ≤ o.num_process
    → kill_children rounds idx o.sub_process ≡ P.kill_children rounds idx' p.proc
unfolding kill_children P.kill_children
kill_children-same o p same zero idx idx' e l = refl
kill_children-same o p same (suc rounds) idx idx' e l =
    let rest =
      kill_children-same o p same rounds (idx + 1) (idx' + 1) (omega arith) (omega arith) in
    let child : P.is_child p.proc idx' ≡ is_alive o.sub_process idx =
      ap (P.is_child p.proc) e ∙ is_child-suc o p same idx (omega arith) in
    let pid : (p.proc idx').pid ≡ (o.sub_process idx).pid =
      ap (λ j. (p.proc j).pid) e ∙ (same.1 idx (omega arith)).0 in
    rw (child, pid, rest)

-- Entry 0, the parent's own, is passed over.
kill_all-same :
    (o : Processpool) (p : ProcessPool)
    → SameTable o p
    → P.kill_children (p.num_proc + 1) 0 p.proc ≡ kill_children o.num_process 0 o.sub_process
unfolding P.kill_children
kill_all-same o p same =
    let more : p.num_proc + 1 ≡ suc o.num_process = omega (arith, same.0) in
    let parent : P.is_child p.proc 0 ≡ false = ground arith in
    rw (more, parent, kill_children-same o p same o.num_process 0 1 refl (omega arith))

module _ (o : Processpool) (p : ProcessPool) (same : SameTable o p) where
  -- Both handlers set the same flag and kill the same processes.
  abbrev pub SameSignal : Processpool × List Action → ProcessPool × List Action → Type 0
  SameSignal r r' =
      (stop : Bool) × (actions : List Action) × (r ≡ (record o { stop = stop }, actions))
      × (r' ≡ (record p { stop = stop }, actions))

  on_signal-same :
      (stop : Bool) (sig : ℕ)
      → SameSignal
          (on_signal (record o { stop = stop }) sig)
          (P.on_signal (record p { stop = stop }) sig)
  unfolding on_signal P.on_signal
  on_signal-same stop sig = elim (Bool-cases (sig == sigint || sig == sigterm)) [
    | inl s ↦ (
      true,
      kill_children o.num_process 0 o.sub_process,
      if_true _ _ s,
      if_true _ _ s ∙ ap (λ kills. (record p { stop = true }, kills)) (kill_all-same o p same),
    )
    | inr s ↦ (stop, [], if_false _ _ s, if_false _ _ s)
  ]

  pub on_signals-same :
      (stop : Bool) (sigs : List ℕ)
      → SameSignal
          (on_signals (record o { stop = stop }) sigs)
          (P.on_signals (record p { stop = stop }) sigs)
  unfolding on_signals P.on_signals
  on_signals-same stop [] = (stop, [], refl, refl)
  on_signals-same stop (sig ∷ sigs) =
      let (stop', actions, e, e') = on_signal-same stop sig in
      let (stop'', more, f, f') = on_signals-same stop' sigs in
      (stop'', actions ++ more, rw (e, f), rw (e', f'))
