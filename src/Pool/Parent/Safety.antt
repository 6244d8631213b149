-- ===== src/Pool/Parent/Safety.antt =====
-- `RunParent` of src/ProcessPool.h runs without a fault, and only notifies and kills children.
use simple_http_serv.Prelude.{
  ℕ, ◌+◌, ◌%◌, ◌≤◌, ◌≡◌, refl, sym, subst, inl, inr, Bool, true, false, ◌||◌, ◌&&◌, Run, ok,
  Bool-cases, if◌then◌else◌, List, [], ◌∷◌, ◌++◌, if_true, if_false, All, none_left, both,
  All-append,
}
use simple_http_serv.Prelude.Int.{ℤ, eq_ℤ}
use simple_http_serv.Sys.{Ending, left, waiting}
use simple_http_serv.Sys.{
  Action, send, close, Event, Wait, wait_failed, ready, eintr, eagain, ebadf, other, Received,
  failed, bytes,
}
use simple_http_serv.Pool.Parent.{
  Parent, has_new_conn, on_connection, on_sig_pipe, sigs_size, parent_event, parent_events,
  run_parent,
}
use simple_http_serv.Pool.Parent.Select.{select_child-within, next_within}
use simple_http_serv.Pool.Parent.Signals.{Allowed, notified, closed, asks_stop, on_signals_lem}

-- The table is the same, the index is inside it, and the calls are allowed.
abbrev pub Steady : Parent → ℤ → Run (Parent × List Action) → Type 0
Steady pa epollfd r =
    (stop : Bool) × (idx : ℕ) × (actions : List Action) × (r
      ≡ ok (record pa { pool = record pa.pool { stop = stop }; sub_process_idx = idx }, actions))
    × (idx ≤ pa.pool.num_proc)
    × All (Allowed pa.pool.num_proc pa.pool.proc epollfd) actions

-- Either way the selected entry is in the table.
on_connection-Steady :
    (pa : Parent) (epollfd : ℤ)
    → pa.sub_process_idx ≤ pa.pool.num_proc
    → Steady pa epollfd (on_connection pa)
unfolding on_connection
on_connection-Steady pa epollfd l =
    let n = pa.pool.num_proc in
    let (sel, e, inside) = select_child-within pa.pool pa.sub_process_idx l in
    (
      pa.pool.stop,
      (sel + 1) % (n + 1),
      send (pa.pool.proc sel).parent_wfd has_new_conn ∷ [],
      rw e,
      next_within n sel,
      both (notified sel inside) none_left,
    )

on_sig_pipe-Steady :
    (pa : Parent) (epollfd : ℤ) (r : Received)
    → pa.sub_process_idx ≤ pa.pool.num_proc
    → Steady pa epollfd (ok (on_sig_pipe pa r))
unfolding on_sig_pipe
on_sig_pipe-Steady pa epollfd (failed e) l =
    (pa.pool.stop, pa.sub_process_idx, [], refl, l, none_left)
on_sig_pipe-Steady pa epollfd (bytes []) l =
    (pa.pool.stop, pa.sub_process_idx, [], refl, l, none_left)
on_sig_pipe-Steady pa epollfd (bytes (sig ∷ sigs)) l =
    let (actions, e, may, every) = on_signals_lem pa.pool epollfd (sig ∷ sigs) in
    (asks_stop (sig ∷ sigs) || pa.pool.stop, pa.sub_process_idx, actions, rw e, l, may)

module _ (listenfd sig_rfd epollfd : ℤ) where
  parent_event-Steady :
      (pa : Parent) (ev : Event)
      → pa.sub_process_idx ≤ pa.pool.num_proc
      → Steady pa epollfd (parent_event listenfd sig_rfd pa ev)
  unfolding parent_event
  parent_event-Steady pa ev l =
      let from_pipe = ok (on_sig_pipe pa (ev.recv 0 ev.fd sigs_size)) in
      let not_conn = if eq_ℤ ev.fd sig_rfd && ev.is_in then from_pipe else ok (pa, []) in
      elim (Bool-cases (eq_ℤ ev.fd listenfd)) [
        | inl conn ↦
            subst (Steady pa epollfd) (sym (if_true (on_connection pa) not_conn conn))
              (on_connection-Steady pa epollfd l)
        | inr no_conn ↦
            subst (Steady pa epollfd) (sym (if_false (on_connection pa) not_conn no_conn))
              (elim (Bool-cases (eq_ℤ ev.fd sig_rfd && ev.is_in)) [
                | inl sig ↦
                    subst (Steady pa epollfd) (sym (if_true from_pipe (ok (pa, [])) sig))
                      (on_sig_pipe-Steady pa epollfd (ev.recv 0 ev.fd sigs_size) l)
                | inr no_sig ↦
                    subst (Steady pa epollfd) (sym (if_false from_pipe (ok (pa, [])) no_sig))
                      (pa.pool.stop, pa.sub_process_idx, [], refl, l, none_left)
              ])
      ]

  pub parent_events-Steady :
      (pa : Parent) (evs : List Event)
      → pa.sub_process_idx ≤ pa.pool.num_proc
      → Steady pa epollfd (parent_events listenfd sig_rfd pa evs)
  unfolding parent_events
  parent_events-Steady pa [] l = (pa.pool.stop, pa.sub_process_idx, [], refl, l, none_left)
  parent_events-Steady pa (ev ∷ evs) l =
      let (stop, idx, actions, e, inside, may) = parent_event-Steady pa ev l in
      let pa' = record pa { pool = record pa.pool { stop = stop }; sub_process_idx = idx } in
      let (stop', idx', more, e', inside', may') = parent_events-Steady pa' evs inside in
      (stop', idx', actions ++ more, rw (e, e'), inside', All-append may may')

  -- The whole loop, over any waits.
  abbrev pub Ends : Parent → Run (Ending × Parent × List Action) → Type 0
  Ends pa r =
      (ending : Ending) × (stop : Bool) × (idx : ℕ) × (actions : List Action) × (r
        ≡ ok (
          ending,
          record pa { pool = record pa.pool { stop = stop }; sub_process_idx = idx },
          actions,
        ))
      × (idx ≤ pa.pool.num_proc)
      × All (Allowed pa.pool.num_proc pa.pool.proc epollfd) actions

  leaves :
      (pa : Parent)
      → pa.sub_process_idx ≤ pa.pool.num_proc
      → Ends pa (ok (left, pa, close epollfd ∷ []))
  leaves pa l =
      (left, pa.pool.stop, pa.sub_process_idx, close epollfd ∷ [], refl, l, both closed none_left)

  still_waiting :
      (pa : Parent) → pa.sub_process_idx ≤ pa.pool.num_proc → Ends pa (ok (waiting, pa, []))
  still_waiting pa l = (waiting, pa.pool.stop, pa.sub_process_idx, [], refl, l, none_left)

  either :
      (pa : Parent) (b : Bool) (x y : Run (Ending × Parent × List Action))
      → Ends pa x
      → Ends pa y
      → Ends pa (if b then x else y)
  either pa true x y ex ey = ex
  either pa false x y ex ey = ey

  -- The parent's loop has no fault, whatever the events; the table stays, and each call is a
  -- notification to an entry of it, SIGTERM to a child, or the close of the epoll descriptor.
  pub run_parent-IsSafe :
      (waits : List Wait) (pa : Parent)
      → pa.sub_process_idx ≤ pa.pool.num_proc
      → Ends pa (run_parent listenfd sig_rfd epollfd pa waits)
  unfolding run_parent
  run_parent-IsSafe [] pa l =
      either pa pa.pool.stop (ok (left, pa, close epollfd ∷ [])) (ok (waiting, pa, []))
        (leaves pa l) (still_waiting pa l)
  run_parent-IsSafe (wait_failed eintr ∷ ws) pa l =
      either pa pa.pool.stop (ok (left, pa, close epollfd ∷ []))
        (run_parent listenfd sig_rfd epollfd pa ws) (leaves pa l) (run_parent-IsSafe ws pa l)
  run_parent-IsSafe (wait_failed eagain ∷ ws) pa l = leaves pa l
  run_parent-IsSafe (wait_failed ebadf ∷ ws) pa l = leaves pa l
  run_parent-IsSafe (wait_failed other ∷ ws) pa l = leaves pa l
  run_parent-IsSafe (ready evs ∷ ws) pa l =
      let (stop, idx, actions, e, inside, may) = parent_events-Steady pa evs l in
      let pa' = record pa { pool = record pa.pool { stop = stop }; sub_process_idx = idx } in
      let (ending, stop', idx', more, e', inside', may') = run_parent-IsSafe ws pa' inside in
      either pa pa.pool.stop (ok (left, pa, close epollfd ∷ [])) _ (leaves pa l)
        (ending, stop', idx', actions ++ more, rw (e, e'), inside', All-append may may')
