-- ===== src/Pool/Child/Loop.antt =====
-- The loop of `RunChild` in src/ProcessPool.h, over any waits, and the sweep behind it.
use simple_http_serv.Prelude.{
  ◌≡◌, refl, sym, ap, subst, ◌∙◌, inl, inr, false, List, [], ◌∷◌, ◌++◌, Run, ok, fault, null_deref,
  ◌>>=◌, if◌then◌else◌, if_true, if_false, Bool-cases, All, both,
}
use simple_http_serv.Sys.{Ending, left, waiting}
use simple_http_serv.Sys.{
  Action, Errno, eagain, eintr, ebadf, other, Event, Wait, wait_failed, ready,
}
use simple_http_serv.Pool.Child.{Client, Fds, Child, child_event, child_events, leave, run_child}
use simple_http_serv.Pool.Child.Slots.{ClientLaws, EventFits, Slots, Steps, child_event-Steps}

pub data WaitFits : Wait → Type 0 where
  interrupted : {e : Errno} → WaitFits (wait_failed e)
  events : {evs : List Event} → All EventFits evs → WaitFits (ready evs)

append_assoc : (xs ys zs : List Action) → (xs ++ ys) ++ zs ≡ xs ++ (ys ++ zs)
append_assoc [] ys zs = refl
append_assoc (x ∷ xs) ys zs = ap (λ l. x ∷ l) (append_assoc xs ys zs)

module _ {T : Type 0} (C : Client T) (Sound : T → Type 0) (laws : ClientLaws C Sound)
    (fds : Fds) where
  -- Where the loop is left, the sweep was its last act.
  abbrev pub Ended : Run (Ending × Child C fds × List Action) → Type 0
  Ended (ok (left, ch, actions)) =
      Slots C Sound laws fds ch.clients
      × (before : List Action) × (actions ≡ before ++ leave C fds ch)
  Ended (ok (waiting, ch, actions)) = Slots C Sound laws fds ch.clients × (ch.stop ≡ false)
  Ended (fault f) = f ≡ null_deref

  Steps-bind :
      (actions : List Action) (r : Run (Child C fds × List Action))
      → Steps C Sound laws fds r
      → Steps C Sound laws fds (r >>= λ (ch, more). ok (ch, actions ++ more))
  Steps-bind actions (ok r) k = k
  Steps-bind actions (fault f) k = k

  and_then :
      (evs : List Event) (r : Run (Child C fds × List Action))
      → Steps C Sound laws fds r
      → ((ch : Child C fds)
          → Slots C Sound laws fds ch.clients
          → Steps C Sound laws fds (child_events C fds ch evs))
      → Steps C Sound laws fds (do
        (ch', actions) ← r
        (ch'', more) ← child_events C fds ch' evs
        ok (ch'', actions ++ more))
  and_then evs (fault f) k rest = k
  and_then evs (ok (ch, actions)) k rest =
      Steps-bind actions (child_events C fds ch evs) (rest ch k)

  child_events-Steps :
      (evs : List Event) (ch : Child C fds)
      → All EventFits evs
      → Slots C Sound laws fds ch.clients
      → Steps C Sound laws fds (child_events C fds ch evs)
  unfolding child_events
  child_events-Steps [] ch fits all = all
  child_events-Steps (ev ∷ evs) ch (both fit fits) all =
      and_then evs (child_event C fds ch ev) (child_event-Steps C Sound laws fds ch ev fit all)
        (λ ch' all'. child_events-Steps evs ch' fits all')

  leaves :
      (ch : Child C fds) → Slots C Sound laws fds ch.clients → Ended (ok (left, ch, leave C fds ch))
  leaves ch all = (all, [], refl)

  Ended-bind :
      (actions : List Action) (r : Run (Ending × Child C fds × List Action))
      → Ended r
      → Ended (r >>= λ (ending, ch, more). ok (ending, ch, actions ++ more))
  Ended-bind actions (fault f) k = k
  Ended-bind actions (ok (waiting, ch, more)) k = k
  Ended-bind actions (ok (left, ch, more)) (all, before, e) = (
    all,
    actions ++ before,
    ap (λ l. actions ++ l) e ∙ sym (append_assoc actions before (leave C fds ch)),
  )

  turn_bind :
      (r : Run (Child C fds × List Action))
      (again : Child C fds → Run (Ending × Child C fds × List Action))
      → Steps C Sound laws fds r
      → ((ch : Child C fds) → Slots C Sound laws fds ch.clients → Ended (again ch))
      → Ended (do
        (ch', actions) ← r
        (ending, ch'', more) ← again ch'
        ok (ending, ch'', actions ++ more))
  turn_bind (fault f) again k rest = k
  turn_bind (ok (ch, actions)) again k rest = Ended-bind actions (again ch) (rest ch k)

  stop_or :
      (ch : Child C fds) (r : Run (Ending × Child C fds × List Action))
      → Slots C Sound laws fds ch.clients
      → (ch.stop ≡ false → Ended r)
      → Ended (if ch.stop then ok (left, ch, leave C fds ch) else r)
  stop_or ch r all rest = elim (Bool-cases ch.stop) [
    | inl s ↦ subst Ended (sym (if_true _ r s)) (leaves ch all)
    | inr s ↦ subst Ended (sym (if_false (ok (left, ch, leave C fds ch)) r s)) (rest s)
  ]

  -- A child whose slots are free or their own keeps them so over any waits that fit: the loop ends
  -- with the sweep or still waits, or a client's null pointer stops the process.
  pub run_child-Ended :
      (waits : List Wait) (ch : Child C fds)
      → All WaitFits waits
      → Slots C Sound laws fds ch.clients
      → Ended (run_child C fds ch waits)
  unfolding run_child
  run_child-Ended [] ch fits all = stop_or ch (ok (waiting, ch, [])) all (λ s. (all, s))
  run_child-Ended (wait_failed eintr ∷ ws) ch (both fit fits) all =
      stop_or ch (run_child C fds ch ws) all (λ s. run_child-Ended ws ch fits all)
  run_child-Ended (wait_failed eagain ∷ ws) ch (both fit fits) all = leaves ch all
  run_child-Ended (wait_failed ebadf ∷ ws) ch (both fit fits) all = leaves ch all
  run_child-Ended (wait_failed other ∷ ws) ch (both fit fits) all = leaves ch all
  run_child-Ended (ready evs ∷ ws) ch (both (events fit) fits) all = stop_or ch _ all (λ s.
      turn_bind (child_events C fds ch evs) (λ ch'. run_child C fds ch' ws)
        (child_events-Steps evs ch fit all) (λ ch' all'. run_child-Ended ws ch' fits all'))
