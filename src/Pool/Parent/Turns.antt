-- ===== src/Pool/Parent/Turns.antt =====
-- The loop of `RunParent` of src/ProcessPool.h, taken up where earlier waits have left it.
use simple_http_serv.Prelude.{
  ℕ, ◌≤◌, ◌≡◌, sym, ap, subst, ◌∙◌, inl, inr, Bool, false, Run, ok, fault, if◌then◌else◌, if_true,
  if_false, Bool-cases, List, [], ◌∷◌, ◌++◌,
}
use simple_http_serv.Prelude.Int.{ℤ}
use simple_http_serv.Sys.{Ending, left, waiting}
use simple_http_serv.Sys.{
  Action, close, Event, Wait, wait_failed, ready, eagain, eintr, ebadf, other,
}
use simple_http_serv.Pool.Loops.{behind, behind-nil, behind-append}
use simple_http_serv.Pool.Parent.{Parent, parent_events, run_parent}
use simple_http_serv.Pool.Parent.Safety.{parent_events-Steady}

abbrev Ran : Type 0
Ran = Run (Ending × Parent × List Action)

module _ (listenfd sig_rfd epollfd : ℤ) where
  abbrev loop : Parent → List Wait → Ran
  loop = run_parent listenfd sig_rfd epollfd

  -- A parent that still waits runs, has the table it had, and goes on with the waits that follow.
  abbrev pub GoesOn : Parent → List Wait → Ran → Type 0
  GoesOn pa pre (ok (waiting, pa', actions)) =
      (pa'.pool ≡ record pa.pool { stop = false })
      × (pa'.sub_process_idx ≤ pa.pool.num_proc)
      × ((ws : List Wait) → loop pa (pre ++ ws) ≡ behind actions (loop pa' ws))
  GoesOn pa pre (ok (left, pa', actions)) = Unit
  GoesOn pa pre (fault f) = Unit

  GoesOn-stop :
      (pa : Parent) (pre : List Wait) (r : Ran)
      → (pa.pool.stop ≡ false → GoesOn pa pre r)
      → GoesOn pa pre (if pa.pool.stop then ok (left, pa, close epollfd ∷ []) else r)
  GoesOn-stop pa pre r k = elim (Bool-cases pa.pool.stop) [
    | inl s ↦ subst (GoesOn pa pre) (sym (if_true _ r s)) tt
    | inr s ↦ subst (GoesOn pa pre) (sym (if_false (ok (left, pa, close epollfd ∷ [])) r s)) (k s)
  ]

  GoesOn-eintr :
      (pa : Parent) (pre : List Wait) (r : Ran)
      → pa.pool.stop ≡ false
      → GoesOn pa pre r
      → GoesOn pa (wait_failed eintr ∷ pre) r
  unfolding run_parent
  GoesOn-eintr pa pre (ok (waiting, pa', actions)) s (same, l, on) =
      (same, l, λ ws. if_false _ _ s ∙ on ws)
  GoesOn-eintr pa pre (ok (left, pa', actions)) s k = tt
  GoesOn-eintr pa pre (fault f) s k = tt

  -- Behind a wait that reported events.
  module _ (pa : Parent) (evs : List Event) (stop : Bool) (idx : ℕ) (actions : List Action)
      (s : pa.pool.stop ≡ false)
      (e : parent_events listenfd sig_rfd pa evs
        ≡ ok (
          record pa { pool = record pa.pool { stop = stop }; sub_process_idx = idx },
          actions,
        )) where
    abbrev after : Parent
    after = record pa { pool = record pa.pool { stop = stop }; sub_process_idx = idx }

    loop-after : (ws : List Wait) → loop pa (ready evs ∷ ws) ≡ behind actions (loop after ws)
    unfolding run_parent
    loop-after ws = if_false _ _ s ∙ rw e

    GoesOn-ready :
        (pre : List Wait) (r : Ran)
        → GoesOn after pre r
        → GoesOn pa (ready evs ∷ pre) (behind actions r)
    GoesOn-ready pre (ok (waiting, pa', more)) (same, l, on) = (
      same,
      l,
      λ ws.
          loop-after (pre ++ ws)
          ∙ ap (behind actions) (on ws)
          ∙ behind-append actions more (loop pa' ws),
    )
    GoesOn-ready pre (ok (left, pa', more)) k = tt
    GoesOn-ready pre (fault f) k = tt

  -- The loop over earlier waits and then others is the loop over the others from where the earlier
  -- ones have left the parent, if it still waits.
  pub run_parent-GoesOn :
      (pre : List Wait) (pa : Parent)
      → pa.sub_process_idx ≤ pa.pool.num_proc
      → GoesOn pa pre (loop pa pre)
  unfolding run_parent
  run_parent-GoesOn [] pa l =
      GoesOn-stop pa [] _
        (λ s. (ap (λ b. record pa.pool { stop = b }) s, l, λ ws. sym (behind-nil (loop pa ws))))
  run_parent-GoesOn (wait_failed eintr ∷ pre) pa l =
      GoesOn-stop pa (wait_failed eintr ∷ pre) _
        (λ s. GoesOn-eintr pa pre (loop pa pre) s (run_parent-GoesOn pre pa l))
  run_parent-GoesOn (wait_failed eagain ∷ pre) pa l = tt
  run_parent-GoesOn (wait_failed ebadf ∷ pre) pa l = tt
  run_parent-GoesOn (wait_failed other ∷ pre) pa l = tt
  run_parent-GoesOn (ready evs ∷ pre) pa l =
      let (stop, idx, actions, e, inside, may) =
        parent_events-Steady listenfd sig_rfd epollfd pa evs l in
      GoesOn-stop pa (ready evs ∷ pre) _ (λ s. subst (GoesOn pa (ready evs ∷ pre)) (sym (rw e)) (
        GoesOn-ready pa evs stop idx actions s e pre _ (
          run_parent-GoesOn pre
            (record pa { pool = record pa.pool { stop = stop }; sub_process_idx = idx }) inside)))
