-- ===== src/Examples/EarlierPool/Tests.antt =====
-- The theorems on the earlier pool at concrete inputs.
use simple_http_serv.Prelude.{suc, ◌+◌, ◌≡◌, refl, ap, true, false, inr, some, List, [], ◌∷◌, arith}
use simple_http_serv.Prelude.Int.{ℤ, pos}
use simple_http_serv.Sys.{Event, Wait, ready, wait_failed, eintr, bytes, refused, eagain, sigterm}
use simple_http_serv.Pool.Create.{ProcessPool, forked_process}
use simple_http_serv.Pool.Parent as P
use simple_http_serv.Pool.Program as M
use simple_http_serv.Pool.Program.{Kernel}
use simple_http_serv.Examples.EarlierPool.{Processpool}
use simple_http_serv.Examples.EarlierPool.Parent.{run_parent}
use simple_http_serv.Examples.EarlierPool.Parent.Same.{SameRun, run_parent-same}
use simple_http_serv.Examples.EarlierPool.Program.{main}
use simple_http_serv.Examples.EarlierPool.Program.Same.{earlier, main-same}

abbrev event : ℤ → Event
event fd = record {
  fd = fd;
  is_in = true;
  recv = λ round fd len. bytes (sigterm ∷ []);
  accept = λ round. refused eagain;
}

-- Two connections and SIGTERM.
abbrev waits : List Wait
waits = wait_failed eintr ∷ ready (event (pos 5) ∷ event (pos 5) ∷ event (pos 7) ∷ []) ∷ []

abbrev pool : Processpool
pool = record {
  listenfd = pos 5;
  epollfd = pos 8;
  num_process = 2;
  sub_idx = pos 0;
  sub_process = λ j. record {
    pid = pos (suc (100 + j));
    child_rfd = pos (10 + j);
    parent_wfd = pos (20 + j);
  };
  stop = false;
}

abbrev later_pool : ProcessPool
later_pool = record {
  num_proc = 2;
  proc = λ j. forked_process (pos (100 + j)) (pos (9 + j), pos (19 + j));
  stop = false;
}

run_parent-same_example :
    SameRun
      (pos 5)
      (pos 7)
      (pos 8)
      (run_parent (pos 7) (record { pool = pool; sub_process_idx = 0 }) waits)
      (P.run_parent
        (pos 5)
        (pos 7)
        (pos 8)
        (record { pool = later_pool; sub_process_idx = 0 })
        waits)
run_parent-same_example =
    run_parent-same (pos 5) (pos 7) (pos 8) (record { pool = pool; sub_process_idx = 0 })
      (record { pool = later_pool; sub_process_idx = 0 }) waits
      (
        refl,
        refl,
        (refl, λ j l. (ap pos (omega arith), ap pos (omega arith))),
        refl,
        omega arith,
        inr (refl, refl),
        (0, omega arith, refl),
      )

-- The parent of two children, and the second of them.
abbrev in_parent : Kernel
in_parent = record {
  socket = pos 5;
  bind = true;
  listen = true;
  forks = record {
    socketpair = λ j. some (pos (10 + j), pos (20 + j));
    fork = λ j. pos (suc (100 + j));
    getpid = pos 99;
  };
  epollfd = pos 8;
  sig_answers = record { pair = some (pos 7, pos 9); sigaction_ret = λ signum. pos 0 };
  waits = waits;
}

main-same_example : main (earlier in_parent) ≡ M.main in_parent
main-same_example = main-same in_parent
