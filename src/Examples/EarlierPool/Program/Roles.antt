-- ===== src/Examples/EarlierPool/Program/Roles.antt =====
-- What `run` of src/examples/multitasking/processpool.h starts beside what `run` of
-- src/ProcessPool.h does: a parent, or a child.
use simple_http_serv.Prelude.{
  ℕ, suc, ◌<◌, ◌≡◌, refl, inl, inr, false, arith, Run, ok, fault, Bool-cases, Option, none, some,
  List,
}
use simple_http_serv.Prelude.Int.{ℤ, pos, minus_one, eq_ℤ}
use simple_http_serv.Sys.{Action}
use simple_http_serv.Pool.Process as N
use simple_http_serv.Pool.Process.{SigAnswers, add_sigactions}
use simple_http_serv.Pool.Create.{ProcessPool, set_proc, parent_role, child_role}
use simple_http_serv.Pool.Parent as P
use simple_http_serv.Pool.Child as Ch
use simple_http_serv.Pool.Program.{Kernel, run_role}
use simple_http_serv.Examples.EarlierPool.{Processpool, setup_epoll, setup_sig_pipe}
use simple_http_serv.Examples.EarlierPool.Parent.{Parent, setup_parent}
use simple_http_serv.Examples.EarlierPool.Parent.Places.{SameTable, SomeAlive}
use simple_http_serv.Examples.EarlierPool.Parent.Same.{run_parent-same}
use simple_http_serv.Examples.EarlierPool.Child.{run_child}
use simple_http_serv.Examples.EarlierPool.Program as E
use simple_http_serv.Examples.EarlierPool.Program.{run, main}

SameTable-set :
    (o : Processpool) (p : ProcessPool) (q : N.Process)
    → SameTable o p
    → SameTable o (record p { proc = set_proc p.proc 0 q })
SameTable-set o p q (len, entries) = (len, λ j l. ground (arith, entries j l))

parent_loop-same :
    (w : Kernel) (o : Processpool) (p : ProcessPool) (made : eq_ℤ w.epollfd minus_one ≡ false)
    (pair : Option (ℤ × ℤ)) (installed : Run (List Action))
    → w.sig_answers.pair ≡ pair
    → add_sigactions w.sig_answers.sigaction_ret ≡ installed
    → SameTable o p
    → (p.proc 0).listenfd ≡ o.listenfd
    → p.stop ≡ o.stop
    → 0 < o.num_process
    → SomeAlive o
    → E.parent_role w o ≡ run_role w p (parent_role (pos 0))
unfolding E.parent_role run_role setup_parent P.setup_parent setup_epoll N.setup_epoll
    setup_sig_pipe N.setup_sig_pipe
parent_loop-same w o p made none installed e f same le stop some_child alive = rw (made, made, e)
parent_loop-same w o p made (some pair) (fault g) e f same le stop some_child alive =
    rw (made, made, e, f)
parent_loop-same w o p made (some (rfd, wfd)) (ok actions) e f same le stop some_child alive =
    let q = record (p.proc 0) { listenfd = o.listenfd; epollfd = w.epollfd } in
    let o' : Parent = record { pool = record o { epollfd = w.epollfd }; sub_process_idx = 0 } in
    let p' : P.Parent = record {
      pool = record p { proc = set_proc p.proc 0 q };
      sub_process_idx = 0;
    } in
    let (ending, o'', p'', more, r, r', m) =
      run_parent-same o.listenfd rfd w.epollfd o' p' w.waits
        (refl, refl, SameTable-set o p q same, stop, some_child, inr (refl, refl), alive) in
    rw (made, made, e, f, le, r, r')

pub parent_role-same :
    (w : Kernel) (o : Processpool) (p : ProcessPool)
    → SameTable o p
    → (p.proc 0).listenfd ≡ o.listenfd
    → p.stop ≡ o.stop
    → 0 < o.num_process
    → SomeAlive o
    → E.parent_role w o ≡ run_role w p (parent_role (pos 0))
unfolding E.parent_role run_role setup_parent P.setup_parent setup_epoll N.setup_epoll
parent_role-same w o p same le stop some_child alive =
    elim (Bool-cases (eq_ℤ w.epollfd minus_one)) [
      | inl failed ↦ rw failed
      | inr made ↦
          parent_loop-same w o p made w.sig_answers.pair
            (add_sigactions w.sig_answers.sigaction_ret) refl refl same le stop some_child alive
    ]

child_loop-same :
    (w : Kernel) (o : Processpool) (p : ProcessPool) (i : ℕ)
    (made : eq_ℤ w.epollfd minus_one ≡ false) (pair : Option (ℤ × ℤ))
    (installed : Run (List Action))
    → w.sig_answers.pair ≡ pair
    → add_sigactions w.sig_answers.sigaction_ret ≡ installed
    → (p.proc (suc i)).listenfd ≡ o.listenfd
    → (p.proc (suc i)).child_rfd ≡ (o.sub_process i).child_rfd
    → p.stop ≡ o.stop
    → E.child_role w o (pos i) ≡ run_role w p (child_role (pos (suc i)))
unfolding E.child_role run_child run_role Ch.setup_child setup_epoll N.setup_epoll setup_sig_pipe
    N.setup_sig_pipe
child_loop-same w o p i made none installed e f le ipc stop = rw (made, made, e)
child_loop-same w o p i made (some pair) (fault g) e f le ipc stop = rw (made, made, e, f)
child_loop-same w o p i made (some (rfd, wfd)) (ok actions) e f le ipc stop =
    rw (made, made, e, f, le, ipc, stop)

pub child_role-same :
    (w : Kernel) (o : Processpool) (p : ProcessPool) (i : ℕ)
    → (p.proc (suc i)).listenfd ≡ o.listenfd
    → (p.proc (suc i)).child_rfd ≡ (o.sub_process i).child_rfd
    → p.stop ≡ o.stop
    → E.child_role w o (pos i) ≡ run_role w p (child_role (pos (suc i)))
unfolding E.child_role run_child run_role Ch.setup_child setup_epoll N.setup_epoll
child_role-same w o p i le ipc stop = elim (Bool-cases (eq_ℤ w.epollfd minus_one)) [
  | inl failed ↦ rw failed
  | inr made ↦
      child_loop-same w o p i made w.sig_answers.pair (add_sigactions w.sig_answers.sigaction_ret)
        refl refl le ipc stop
]
