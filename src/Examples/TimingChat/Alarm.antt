-- ===== src/Examples/TimingChat/Alarm.antt =====
-- AlarmHandler of examples/framework-intro/timing_group_chat_service.cc.
use simple_http_serv.Prelude.{
  ℕ, zero, ◌+◌, ◌-◌, ◌≤◌, ◌<◌, ◌≡◌, refl, sym, ap, ◌∙◌, false, none, List, [], ◌∷◌, ◌++◌, map,
  arith, Run, ok, ◌>>=◌, length, All,
}
use mathlib.Core.Path.{ap₂, fun_ext}
use mathlib.Core.List.{append_assoc, append-nil}
use simple_http_serv.Prelude.Int.{pos}
use simple_http_serv.Sys.{Action, close, alarm}
use simple_http_serv.Examples.Timers.{TimerSortedList}
use simple_http_serv.Examples.Timers.Chain.{Cells, IsTimers}
use simple_http_serv.Examples.Timers.Tick.{
  expired, remaining, expired-All, handle_all, tick_once-Ticks,
}
use simple_http_serv.Examples.Chat.{max_client, max_fd, at}
use simple_http_serv.Examples.Chat.SignalChat.{st_idx_client}
use simple_http_serv.Examples.TimingChat.{
  alrm_slot_sec, Table, TimingChat, remove_client_from_poll, alarm_handler,
}
use simple_http_serv.Examples.TimingChat.Entries.{IsTimed, left_of, remove_client_lem}

-- The clients of these timers have the entries from the last one down, and know it.
abbrev pub FromLast : Table → Cells → Type 0
FromLast t [] = Unit {0}
FromLast t (x ∷ xs) =
    (zero < t.cnt)
    × ((t.fds (st_idx_client + t.cnt - 1)).fd ≡ pos x.client)
    × (x.client < max_fd)
    × ((t.clients x.client).pollfds_idx ≡ st_idx_client + t.cnt - 1)
    × FromLast (record t { cnt = t.cnt - 1 }) xs

abbrev pub closes : Cells → List Action
closes xs = map (λ x. close (pos x.client)) xs

abbrev expire : ℕ → Table × List Action → Run (Table × List Action)
expire n (t, actions) = do (t', more) ← remove_client_from_poll n t; ok (t', actions ++ more)

at_itself : {A : Type 0} (f : ℕ → A) (i : ℕ) → at f i (f i) ≡ f
at_itself f i = fun_ext (λ j. ground arith)

left_last :
    (t : Table) (n : ℕ) → left_of (st_idx_client + t.cnt - 1) n n t ≡ record t { cnt = t.cnt - 1 }
left_last t n =
    ap₂ (λ f g. record t { cnt = t.cnt - 1; fds = f; clients = g })
      (at_itself t.fds (st_idx_client + t.cnt - 1)) (at_itself t.clients n)

handle_all-FromLast :
    (xs : Cells) (t : Table) (actions : List Action)
    → t.cnt ≤ max_client
    → FromLast t xs
    → handle_all expire xs (t, actions)
      ≡ ok (record t { cnt = t.cnt - length xs }, actions ++ closes xs)
handle_all-FromLast [] t actions b h =
    ap₂ (λ n done. ok (record t { cnt = n }, done)) (omega arith) (sym (append-nil actions))
handle_all-FromLast (x ∷ xs) t actions b (some_left, fd, slot, index, h) =
    let last = st_idx_client + t.cnt - 1 in
    let removed : remove_client_from_poll x.client t
        ≡ ok (record t { cnt = t.cnt - 1 }, close (pos x.client) ∷ []) =
      remove_client_lem t x.client last x.client x.client index (omega arith) fd slot fd slot
        some_left b
      ∙ ap (λ t'. ok (t', close (pos x.client) ∷ [])) (left_last t x.client) in
    rw removed (
      handle_all-FromLast xs (record t { cnt = t.cnt - 1 }) (actions ++ close (pos x.client) ∷ [])
        (omega arith) h
      ∙ ap₂ (λ n done. ok (record t { cnt = n }, done)) (omega arith)
          (append_assoc actions (close (pos x.client) ∷ []) (closes xs)))

-- When the silent clients have the last entries, the last of them silent for longest, AlarmHandler
-- closes the socket of each, their entries go, and their timers are deleted; every timer that is left
-- has time; and the alarm is set again. The table and the timers agree before, and the loops' fuel
-- exceeds the seats.
pub alarm_handler_lem :
    (k t_current : ℕ) (c : TimingChat) (xs : Cells)
    → max_client < k
    → IsTimed c xs
    → FromLast c.table (expired t_current xs)
    → (l : TimerSortedList) × (alarm_handler k t_current c
        ≡ ok (
          record c {
            table = record (c.table) { cnt = c.table.cnt - length (expired t_current xs) };
            timers = l;
            timeout = false;
          },
          closes (expired t_current xs) ++ alarm alrm_slot_sec ∷ [],
        ))
      × IsTimers l (remaining t_current xs)
      × All (λ x. t_current ≤ x.expire) (remaining t_current xs)
      × All (λ x. l.heap x.at ≡ none) (expired t_current xs)
unfolding alarm_handler
alarm_handler_lem k t_current c xs fuel v h =
    let (l, e, t, gone, same) =
      tick_once-Ticks expire t_current k c.timers xs v.chain (omega (arith, v.count, v.bounded)) in
    let handled = handle_all-FromLast (expired t_current xs) c.table [] v.bounded h in
    (l, rw (e (c.table, []), handled) refl, t, (expired-All t_current xs v.sorted).1, gone)
