-- ===== src/Pool/Tests/Stops.antt =====
-- SIGTERM to the parent and to the second child, from `main` on.
use simple_http_serv.Prelude.{
  ℕ, suc, ◌≤◌, ◌<◌, ◌≡◌, refl, true, List, [], ◌∷◌, ◌++◌, arith, ok, Any,
}
use simple_http_serv.Prelude.Int.{pos}
use simple_http_serv.Sys.{left}
use simple_http_serv.Sys.{Action, close, ready, sigterm}
use simple_http_serv.Pool.Parent.{Parent, is_child, select_child, parent_events}
use simple_http_serv.Pool.Parent as P
use simple_http_serv.Sys.{Wait}
use simple_http_serv.Prelude.{All}
use simple_http_serv.Pool.Child.{Fds, Child, leave}
use simple_http_serv.Pool.Child as Ch
use simple_http_serv.Pool.Child.Sweep.{Closing}
use simple_http_serv.Pool.Program.{Kernel, main, run_role}
use simple_http_serv.Pool.Program.Stop.{main-stops}
use simple_http_serv.Pool.Turn.{select_from}
use simple_http_serv.Pool.Process.{setup_epoll, setup_sig_pipe, add_sigaction, add_sigactions}
use simple_http_serv.Pool.Create.{create, run, fork_loop, forked, find_child}
use simple_http_serv.Pool.Parent.{setup_parent, has_new_conn}
use simple_http_serv.Sys.{
  waiting, set_nonblocking, epoll_add_lt, epoll_add_et, sigaction, sigint, sigchld, send, kill,
}
use simple_http_serv.Pool.Child.Requests.{requests}
use simple_http_serv.Pool.Child.{accept_loop, on_notified}
use simple_http_serv.Pool.Program.ChildStop.{fds_of, new_child, main-child_stops}
use simple_http_serv.Pool.Tests.{
  pairs, pids, in_child-Forked, in_parent, event, child_event_of, kernel,
}
use simple_http_serv.ReqStatMach.State.{init, is_init, fresh}

-- The parent: a connection first, then SIGTERM.
abbrev parent_kernel : Kernel
parent_kernel = record kernel {
  forks = in_parent;
  waits = ready (event (pos 5) ∷ []) ∷ ready (event (pos 30) ∷ []) ∷ [];
}

abbrev so_far : List Action
so_far =
    set_nonblocking (pos 21)
    ∷ close (pos 11)
    ∷ set_nonblocking (pos 22)
    ∷ close (pos 12)
    ∷ epoll_add_lt (pos 4) (pos 5)
    ∷ sigaction sigterm
    ∷ sigaction sigint
    ∷ sigaction sigchld
    ∷ epoll_add_et (pos 4) (pos 30)
    ∷ send (pos 21) has_new_conn
    ∷ []

still_waits :
    main (record parent_kernel { waits = ready (event (pos 5) ∷ []) ∷ [] }) ≡ ok (waiting, so_far)
unfolding main create fork_loop forked run find_child run_role setup_parent setup_epoll
    setup_sig_pipe add_sigactions add_sigaction P.run_parent parent_events P.parent_event
    P.on_connection select_child select_from
still_waits = refl

main-stops_example :
    (more : List Action) × (main parent_kernel
      ≡ ok (left, so_far ++ (more ++ close (pos 4) ∷ close (pos 5) ∷ [])))
    × ((k : ℕ) → 1 ≤ k → k ≤ 2 → Any (λ a. a ≡ kill (pos (suc (pids k))) sigterm) more)
main-stops_example =
    main-stops parent_kernel 5 4 (pos 30) (pos 31) pairs pids (ready (event (pos 5) ∷ []) ∷ []) []
      so_far (event (pos 30)) sigterm [] refl refl refl
      (record { paired = λ j. refl; forks = λ j l. refl }) refl refl (λ signum. refl) refl
      still_waits refl refl refl refl

-- The second child: a connection first, then SIGTERM.
abbrev notified : Wait
notified = ready (child_event_of 12 ∷ [])

abbrev child_kernel : Kernel
child_kernel = record kernel { waits = notified ∷ ready (event (pos 30) ∷ []) ∷ [] }

abbrev child_so_far : List Action
child_so_far =
    set_nonblocking (pos 21)
    ∷ close (pos 11)
    ∷ set_nonblocking (pos 12)
    ∷ close (pos 22)
    ∷ set_nonblocking (pos 5)
    ∷ epoll_add_et (pos 4) (pos 12)
    ∷ sigaction sigterm
    ∷ sigaction sigint
    ∷ sigaction sigchld
    ∷ epoll_add_et (pos 4) (pos 30)
    ∷ epoll_add_et (pos 4) (pos 9)
    ∷ set_nonblocking (pos 9)
    ∷ []

child_still_waits :
    main (record child_kernel { waits = notified ∷ [] }) ≡ ok (waiting, child_so_far)
unfolding main create fork_loop forked run find_child run_role Ch.setup_child setup_epoll
    setup_sig_pipe add_sigactions add_sigaction Ch.run_child Ch.child_events Ch.child_event
    Ch.on_notified Ch.accept_loop Ch.on_accepted init is_init fresh
child_still_waits = refl

main-child_stops_example :
    (ch : Child requests (fds_of (pos 4) (pos 12) (pos 30))) × (before closing : List Action)
    × (Ch.run_child requests (fds_of (pos 4) (pos 12) (pos 30)) (new_child _) (notified ∷ [])
        ≡ ok (waiting, ch, before))
    × (main child_kernel ≡ ok (left, child_so_far ++ (closing ++ close (pos 5) ∷ [])))
    × All (Closing requests (fds_of (pos 4) (pos 12) (pos 30)) ch.clients) closing
    × Any (λ a. a ≡ close (pos 4)) closing
    × ((fd : ℕ)
        → fd < Ch.max_clientfd
        → requests.is_init (ch.clients fd) (pos fd) ≡ true
        → Any (λ a. a ≡ close (pos fd)) closing)
main-child_stops_example =
    main-child_stops child_kernel 5 2 4 (pos 30) (pos 31) pairs pids (notified ∷ []) [] child_so_far
      (event (pos 30)) (sigterm ∷ []) refl refl refl in_child-Forked refl (omega arith)
      (omega arith) refl refl (λ signum. refl) refl child_still_waits refl refl refl refl
