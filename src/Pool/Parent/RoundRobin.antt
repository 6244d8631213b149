-- ===== src/Pool/Parent/RoundRobin.antt =====
-- `RunParent` of src/ProcessPool.h, while every child is alive: connections go round the children.
use native.Mathlib.Nat.{mod-add-mod, mod-eq_of_lt, mod_self, mod-lt}
use simple_http_serv.Prelude.{
  ℕ, zero, suc, ◌+◌, ◌%◌, ◌≤◌, ◌<◌, ◌≡◌, refl, sym, ap, ◌∙◌, inl, inr, true, false, arith, ok, ◌==◌,
  Bool-cases, ==_iff, List, [], ◌∷◌, map, length,
}
use simple_http_serv.Prelude.Int.{ℤ, eq_ℤ_iff}
use simple_http_serv.Sys.{Action, send, Event}
use simple_http_serv.Pool.Process.{Process}
use simple_http_serv.Pool.Create.{ProcessPool}
use simple_http_serv.Pool.Parent.{
  Parent, is_child, select_child, has_new_conn, on_connection, parent_event, parent_events,
}
use simple_http_serv.Pool.Turn.{determined, at_start}
use simple_http_serv.Pool.Parent.Select.{select_child-Selected}

-- There is a child, and every entry but the parent's has a process id.
abbrev pub AllAlive : ProcessPool → Type 0
AllAlive pool =
    (1 ≤ pool.num_proc) × ((j : ℕ) → 1 ≤ j → j ≤ pool.num_proc → is_child pool.proc j ≡ true)

-- The index skips the parent.
abbrev served : ℕ → ℕ
served zero = 1
served (suc i) = suc i

served_positive : (i : ℕ) → 1 ≤ i → served i ≡ i
served_positive zero l = absurd (omega arith)
served_positive (suc i) l = refl

served_bound : (n i : ℕ) → 1 ≤ n → i ≤ n → served i ≤ n
served_bound n zero one l = one
served_bound n (suc i) one l = l

is_child-parent : (proc : ℕ → Process) (n e : ℕ) → e ≡ 0 → is_child proc ((0 + e) % (n + 1)) ≡ false
is_child-parent proc n e z =
    let at : (0 + e) % (n + 1) ≡ 0 =
      ap (λ x. (0 + x) % (n + 1)) z ∙ sym (at_start (n + 1) 0 (omega arith)) in
    ap (is_child proc) at ∙ ground arith

select_alive :
    (pool : ProcessPool) (i : ℕ)
    → AllAlive pool
    → i ≤ pool.num_proc
    → select_child pool i ≡ ok (served i)
select_alive pool zero alive l =
    let n = pool.num_proc in
    let one : (0 + 1) % (n + 1) ≡ 1 = mod-eq_of_lt {n = 1} {m = n + 1} (ground (arith, alive.0)) in
    determined (n + 1) (is_child pool.proc) 0 (omega arith) (select_child pool 0) 1
      (select_child-Selected pool 0 l) (ground (arith, alive.0))
      (ap (is_child pool.proc) one ∙ alive.1 1 (omega arith) alive.0)
      (λ e le. is_child-parent pool.proc n e (omega arith))
    ∙ ap ok one
select_alive pool (suc i) alive l =
    let n = pool.num_proc in
    let same = at_start (n + 1) (suc i) (omega arith) in
    determined (n + 1) (is_child pool.proc) (suc i) (omega arith) (select_child pool (suc i)) 0
      (select_child-Selected pool (suc i) l) (omega arith)
      (ap (is_child pool.proc) (sym same) ∙ alive.1 (suc i) (omega arith) l)
      (λ e le. absurd (omega arith))
    ∙ ap ok (sym same)

served_next : (n j s : ℕ) → 1 ≤ n → s ≡ 1 + j % n → served ((s + 1) % (n + 1)) ≡ 1 + (j + 1) % n
served_next n j s l e =
    let around = mod-add-mod j n 1 in
    let below = mod-lt j l in
    elim (Bool-cases (j % n + 1 == n)) [
      | inl last ↦
          let whole : s ≡ n = ground (arith, e, last) in
          let first : (j + 1) % n ≡ 0 =
            sym around ∙ ap (λ x. x % n) ((==_iff (j % n + 1) n).0 last) ∙ mod_self n in
          ap (λ x. served ((x + 1) % (n + 1))) whole
          ∙ ap served (mod_self (n + 1))
          ∙ ap (λ x. 1 + x) (sym first)
      | inr more ↦
          let inside : s + 1 < n + 1 = ground (arith, e, more, below) in
          let later : (j + 1) % n ≡ j % n + 1 =
            sym around ∙ mod-eq_of_lt (ground (arith, more, below)) in
          ap served (mod-eq_of_lt inside) ∙ served_positive (s + 1) (omega arith) ∙ omega arith
    ]

-- The notifications of `count` connections, the first of them the connection number `j`.
abbrev pub turns : ProcessPool → (j count : ℕ) → List Action
turns pool j zero = []
turns pool j (suc count) =
    send (pool.proc (1 + j % pool.num_proc)).parent_wfd has_new_conn ∷ turns pool (j + 1) count

-- Any events, moved to the listening socket.
abbrev pub connections : ℤ → List Event → List Event
connections listenfd evs = map {A = Event} (λ ev. record ev { fd = listenfd }) evs

notify :
    (listenfd sig_rfd : ℤ) (pa : Parent) (ev : Event)
    → AllAlive pa.pool
    → pa.sub_process_idx ≤ pa.pool.num_proc
    → parent_event listenfd sig_rfd pa (record ev { fd = listenfd })
      ≡ ok (
        record pa { sub_process_idx = (served pa.sub_process_idx + 1) % (pa.pool.num_proc + 1) },
        send (pa.pool.proc (served pa.sub_process_idx)).parent_wfd has_new_conn ∷ [],
      )
unfolding parent_event on_connection
notify listenfd sig_rfd pa ev alive l =
    rw ((eq_ℤ_iff listenfd listenfd).1 refl, select_alive pa.pool pa.sub_process_idx alive l)

turns_from :
    (listenfd sig_rfd : ℤ) (evs : List Event) (j : ℕ) (pa : Parent)
    → AllAlive pa.pool
    → pa.sub_process_idx ≤ pa.pool.num_proc
    → served pa.sub_process_idx ≡ 1 + j % pa.pool.num_proc
    → (idx : ℕ) × (parent_events listenfd sig_rfd pa (connections listenfd evs)
        ≡ ok (record pa { sub_process_idx = idx }, turns pa.pool j (length evs)))
unfolding parent_events
turns_from listenfd sig_rfd [] j pa alive l s = (pa.sub_process_idx, refl)
turns_from listenfd sig_rfd (ev ∷ evs) j pa alive l s =
    let n = pa.pool.num_proc in
    let sel = served pa.sub_process_idx in
    let inside : (sel + 1) % (n + 1) ≤ n =
      ground (arith, mod-lt (sel + 1) {m = n + 1} (omega arith)) in
    let (idx, e) =
      turns_from listenfd sig_rfd evs (j + 1) (record pa { sub_process_idx = (sel + 1) % (n + 1) })
        alive inside (served_next n j sel alive.0 s) in
    (idx, rw (notify listenfd sig_rfd pa ev alive l, e, s))

-- Connection number `k` (from 0) goes to child 1 + k % num_process: with every child alive and the
-- index at its first value, the notifications for any number of connections are these.
pub round_robin :
    (listenfd sig_rfd : ℤ) (pa : Parent) (evs : List Event)
    → AllAlive pa.pool
    → pa.sub_process_idx ≡ 0
    → (idx : ℕ) × (parent_events listenfd sig_rfd pa (connections listenfd evs)
        ≡ ok (record pa { sub_process_idx = idx }, turns pa.pool 0 (length evs)))
round_robin listenfd sig_rfd pa evs alive z =
    let n = pa.pool.num_proc in
    turns_from listenfd sig_rfd evs 0 pa alive (omega arith)
      (ap served z ∙ ap (λ x. 1 + x) (sym (mod-eq_of_lt {n = 0} {m = n} alive.0)))
