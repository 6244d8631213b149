-- ===== src/Pool/Child/Stop.antt =====
-- How the loop of `RunChild` in src/ProcessPool.h is left, behind any earlier waits.
use simple_http_serv.Prelude.{
  ◌≡◌, refl, sym, ap, subst, ◌∙◌, inl, inr, Bool, true, false, ◌||◌, ◌&&◌, Run, ok, fault, ◌>>=◌,
  if◌then◌else◌, if_true, if_false, Bool-cases, ℕ, List, [], ◌∷◌, ◌++◌, ◌==◌, arith,
}
use simple_http_serv.Prelude.Int.{eq_ℤ}
use simple_http_serv.Sys.{Ending, left, waiting}
use simple_http_serv.Sys.{
  Action, Event, Wait, wait_failed, ready, eagain, eintr, ebadf, other, bytes, sigint, sigterm,
}
use simple_http_serv.Pool.Loops.{behind, behind-nil, behind-append}
use simple_http_serv.Pool.Parent.{sigs_size}
use simple_http_serv.Pool.Parent.Signals.{is_stop, asks_stop}
use simple_http_serv.Pool.Child.{
  Client, Fds, Child, child_signals, on_child_sigs, child_event, child_events, leave, run_child,
}

module _ {T : Type 0} (C : Client T) (fds : Fds) where
  abbrev Ran : Type 0
  Ran = Run (Ending × Child C fds × List Action)

  abbrev loop : Child C fds → List Wait → Ran
  loop = run_child C fds

  -- A child that still waits runs, and goes on with the waits that follow.
  abbrev pub GoesOn : Child C fds → List Wait → Ran → Type 0
  GoesOn ch pre (ok (waiting, ch', actions)) =
      (ch'.stop ≡ false) × ((ws : List Wait) → loop ch (pre ++ ws) ≡ behind actions (loop ch' ws))
  GoesOn ch pre (ok (left, ch', actions)) = Unit
  GoesOn ch pre (fault f) = Unit

  GoesOn-stop :
      (ch : Child C fds) (pre : List Wait) (r : Ran)
      → (ch.stop ≡ false → GoesOn ch pre r)
      → GoesOn ch pre (if ch.stop then ok (left, ch, leave C fds ch) else r)
  GoesOn-stop ch pre r k = elim (Bool-cases ch.stop) [
    | inl s ↦ subst (GoesOn ch pre) (sym (if_true _ r s)) tt
    | inr s ↦ subst (GoesOn ch pre) (sym (if_false (ok (left, ch, leave C fds ch)) r s)) (k s)
  ]

  GoesOn-eintr :
      (ch : Child C fds) (pre : List Wait) (r : Ran)
      → ch.stop ≡ false
      → GoesOn ch pre r
      → GoesOn ch (wait_failed eintr ∷ pre) r
  unfolding run_child
  GoesOn-eintr ch pre (ok (waiting, ch', actions)) s (runs, on) =
      (runs, λ ws. if_false _ _ s ∙ on ws)
  GoesOn-eintr ch pre (ok (left, ch', actions)) s k = tt
  GoesOn-eintr ch pre (fault f) s k = tt

  GoesOn-ready :
      (ch : Child C fds) (evs : List Event) (ch1 : Child C fds) (actions : List Action)
      (pre : List Wait) (r : Ran)
      → ch.stop ≡ false
      → child_events C fds ch evs ≡ ok (ch1, actions)
      → GoesOn ch1 pre r
      → GoesOn ch (ready evs ∷ pre) (behind actions r)
  unfolding run_child
  GoesOn-ready ch evs ch1 actions pre (ok (waiting, ch', more)) s e (runs, on) =
      (runs, λ ws. if_false _ _ s ∙ rw (e, on ws) (behind-append actions more (loop ch' ws)))
  GoesOn-ready ch evs ch1 actions pre (ok (left, ch', more)) s e k = tt
  GoesOn-ready ch evs ch1 actions pre (fault f) s e k = tt

  GoesOn-events :
      (ch : Child C fds) (evs : List Event) (pre : List Wait) (r : Run (Child C fds × List Action))
      → ch.stop ≡ false
      → child_events C fds ch evs ≡ r
      → ((ch1 : Child C fds) → GoesOn ch1 pre (loop ch1 pre))
      → GoesOn ch (ready evs ∷ pre) (r >>= λ (ch1, actions). behind actions (loop ch1 pre))
  GoesOn-events ch evs pre (fault f) s e k = tt
  GoesOn-events ch evs pre (ok (ch1, actions)) s e k =
      GoesOn-ready ch evs ch1 actions pre (loop ch1 pre) s e (k ch1)

  -- The loop over earlier waits and then others is the loop over the others from where the earlier
  -- ones have left the child, if it still waits.
  pub run_child-GoesOn : (pre : List Wait) (ch : Child C fds) → GoesOn ch pre (loop ch pre)
  unfolding run_child
  run_child-GoesOn [] ch = GoesOn-stop ch [] _ (λ s. (s, λ ws. sym (behind-nil (loop ch ws))))
  run_child-GoesOn (wait_failed eintr ∷ pre) ch =
      GoesOn-stop ch (wait_failed eintr ∷ pre) _
        (λ s. GoesOn-eintr ch pre (loop ch pre) s (run_child-GoesOn pre ch))
  run_child-GoesOn (wait_failed eagain ∷ pre) ch = tt
  run_child-GoesOn (wait_failed ebadf ∷ pre) ch = tt
  run_child-GoesOn (wait_failed other ∷ pre) ch = tt
  run_child-GoesOn (ready evs ∷ pre) ch = GoesOn-stop ch (ready evs ∷ pre) _ (λ s.
      GoesOn-events ch evs pre (child_events C fds ch evs) s refl (λ ch1. run_child-GoesOn pre ch1))

  still_stops : (sigs : List ℕ) → child_signals C fds true sigs ≡ true
  still_stops [] = refl
  still_stops (sig ∷ sigs) = still_stops sigs

  child_signals-asks :
      (stop : Bool) (sigs : List ℕ) → asks_stop sigs ≡ true → child_signals C fds stop sigs ≡ true
  child_signals-asks stop [] a = absurd (ground (arith, a))
  child_signals-asks stop (sig ∷ sigs) a = elim (Bool-cases (is_stop sig)) [
    | inl s ↦
        let stops : (stop || sig == sigint || sig == sigterm) ≡ true = ground (arith, s) in
        ap (λ b. child_signals C fds b sigs) stops ∙ still_stops sigs
    | inr s ↦
        child_signals-asks (stop || sig == sigint || sig == sigterm) sigs
          (ap (λ b. b || asks_stop sigs) (sym s) ∙ a)
  ]

  stopped :
      (ch : Child C fds) (ws : List Wait)
      → ch.stop ≡ true
      → loop ch ws ≡ ok (left, ch, leave C fds ch)
  unfolding run_child
  stopped ch [] s = if_true _ _ s
  stopped ch (wait_failed eintr ∷ ws) s = if_true _ _ s
  stopped ch (wait_failed eagain ∷ ws) s = refl
  stopped ch (wait_failed ebadf ∷ ws) s = refl
  stopped ch (wait_failed other ∷ ws) s = refl
  stopped ch (ready evs ∷ ws) s = if_true _ _ s

  signalled :
      (ch : Child C fds) (ev : Event) (sigs : List ℕ)
      → (eq_ℤ ev.fd fds.ipc_pipefd && ev.is_in) ≡ false
      → (eq_ℤ ev.fd fds.sig_rfd && ev.is_in) ≡ true
      → ev.recv 0 ev.fd sigs_size ≡ bytes sigs
      → asks_stop sigs ≡ true
      → child_events C fds ch (ev ∷ []) ≡ ok (record ch { stop = true }, [])
  unfolding child_events child_event on_child_sigs
  signalled ch ev sigs no_ipc signal received asks =
      rw (no_ipc, signal, received, child_signals-asks ch.stop sigs asks)

  same_sweep : (ch : Child C fds) → leave C fds (record ch { stop = true }) ≡ leave C fds ch
  unfolding leave
  same_sweep ch = refl

  -- SIGTERM or SIGINT among the bytes of the signal pipe, alone in its wait, ends the loop of a child
  -- whatever would come next: the sweep is all that follows.
  pub run_child-stops :
      (ch : Child C fds) (ev : Event) (ws : List Wait) (sigs : List ℕ)
      → ch.stop ≡ false
      → (eq_ℤ ev.fd fds.ipc_pipefd && ev.is_in) ≡ false
      → (eq_ℤ ev.fd fds.sig_rfd && ev.is_in) ≡ true
      → ev.recv 0 ev.fd sigs_size ≡ bytes sigs
      → asks_stop sigs ≡ true
      → loop ch (ready (ev ∷ []) ∷ ws) ≡ ok (left, record ch { stop = true }, leave C fds ch)
  unfolding run_child
  run_child-stops ch ev ws sigs runs no_ipc signal received asks =
      let ch' = record ch { stop = true } in
      if_false _ _ runs
      ∙ rw (signalled ch ev sigs no_ipc signal received asks, stopped ch' ws refl, same_sweep ch)
