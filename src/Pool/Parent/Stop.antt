-- ===== src/Pool/Parent/Stop.antt =====
-- How the loop of `RunParent` of src/ProcessPool.h is left.
use simple_http_serv.Prelude.{
  ℕ, ◌≤◌, ◌≡◌, refl, ap, ◌∙◌, true, false, ◌||◌, ◌&&◌, ok, List, [], ◌∷◌, ◌++◌, if_true, if_false,
  Any, Any-append_left,
}
use simple_http_serv.Prelude.Int.{ℤ, eq_ℤ}
use simple_http_serv.Sys.{left}
use simple_http_serv.Sys.{
  Action, close, Event, Wait, wait_failed, ready, eintr, eagain, ebadf, other, bytes,
}
use simple_http_serv.Pool.Parent.{
  Parent, is_child, on_sig_pipe, on_signals, sigs_size, parent_event, parent_events, run_parent,
}
use simple_http_serv.Pool.Parent.Signals.{asks_stop, Kill, on_signals_lem}

stopped :
    (listenfd sig_rfd epollfd : ℤ) (pa : Parent) (waits : List Wait)
    → pa.pool.stop ≡ true
    → run_parent listenfd sig_rfd epollfd pa waits ≡ ok (left, pa, close epollfd ∷ [])
unfolding run_parent
stopped listenfd sig_rfd epollfd pa [] s = if_true _ _ s
stopped listenfd sig_rfd epollfd pa (wait_failed eintr ∷ ws) s = if_true _ _ s
stopped listenfd sig_rfd epollfd pa (wait_failed eagain ∷ ws) s = refl
stopped listenfd sig_rfd epollfd pa (wait_failed ebadf ∷ ws) s = refl
stopped listenfd sig_rfd epollfd pa (wait_failed other ∷ ws) s = refl
stopped listenfd sig_rfd epollfd pa (ready evs ∷ ws) s = if_true _ _ s

-- The event on the signal pipe, alone in its batch.
signalled :
    (listenfd sig_rfd : ℤ) (pa : Parent) (ev : Event) (sig : ℕ) (sigs : List ℕ)
    → eq_ℤ ev.fd listenfd ≡ false
    → (eq_ℤ ev.fd sig_rfd && ev.is_in) ≡ true
    → ev.recv 0 ev.fd sigs_size ≡ bytes (sig ∷ sigs)
    → parent_events listenfd sig_rfd pa (ev ∷ [])
      ≡ ok (
        record pa { pool = (on_signals pa.pool (sig ∷ sigs)).0 },
        (on_signals pa.pool (sig ∷ sigs)).1 ++ [],
      )
unfolding parent_events parent_event on_sig_pipe
signalled listenfd sig_rfd pa ev sig sigs nl s r = rw (nl, s, r, on_sig_pipe)

-- SIGTERM or SIGINT among the bytes of the signal pipe ends the parent's loop, whatever would come
-- next: every child gets SIGTERM, and the epoll descriptor is closed at the end.
pub run_parent-stops :
    (listenfd sig_rfd epollfd : ℤ) (pa : Parent) (ev : Event) (waits : List Wait) (sig : ℕ)
    (sigs : List ℕ)
    → pa.pool.stop ≡ false
    → eq_ℤ ev.fd listenfd ≡ false
    → (eq_ℤ ev.fd sig_rfd && ev.is_in) ≡ true
    → ev.recv 0 ev.fd sigs_size ≡ bytes (sig ∷ sigs)
    → asks_stop (sig ∷ sigs) ≡ true
    → (actions : List Action) × (run_parent listenfd sig_rfd epollfd pa (ready (ev ∷ []) ∷ waits)
        ≡ ok (
          left,
          record pa { pool = record pa.pool { stop = true } },
          actions ++ close epollfd ∷ [],
        ))
      × ((j : ℕ)
          → j ≤ pa.pool.num_proc
          → is_child pa.pool.proc j ≡ true
          → Any (Kill pa.pool.proc j) actions)
unfolding run_parent
run_parent-stops listenfd sig_rfd epollfd pa ev waits sig sigs running nl s r a =
    let (actions, e, may, every) = on_signals_lem pa.pool epollfd (sig ∷ sigs) in
    let pa' = record pa { pool = record pa.pool { stop = true } } in
    let done : on_signals pa.pool (sig ∷ sigs) ≡ (record pa.pool { stop = true }, actions) =
      e ∙ ap (λ b. (record pa.pool { stop = b || pa.pool.stop }, actions)) a in
    (
      actions ++ [],
      if_false _ _ running
          ∙ rw (
            signalled listenfd sig_rfd pa ev sig sigs nl s r,
            done,
            stopped listenfd sig_rfd epollfd pa' waits refl,
          ),
      λ j l c. Any-append_left [] (every j a l c),
    )
