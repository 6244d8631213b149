-- ===== src/Examples/Timers/Tests.antt =====
-- A list of two timers of examples/framework-intro/client_timer_list.h, and a third beside it.
use simple_http_serv.Prelude.{
  ℕ, refl, none, some, List, [], ◌∷◌, arith, Run, ok, ◌==◌, if◌then◌else◌,
}
use simple_http_serv.Examples.Timers.{
  Heap, TimerSortedList, add_timer, del_timer, chg_timer, tick_once,
}
use simple_http_serv.Examples.Timers.Chain.{Cell, Holds, nil, cons, IsTimers}
use simple_http_serv.Examples.Timers.Add.{Adds, add_timer-Adds}
use simple_http_serv.Examples.Timers.Remove.{Deletes, del_timer-Deletes, Changes, chg_timer-Changes}
use simple_http_serv.Examples.Timers.Tick.{Ticks, tick_once-Ticks}

abbrev early : Cell
early = record { at = 10; expire = 5; client = 6 }

abbrev late : Cell
late = record { at = 20; expire = 8; client = 7 }

abbrev third : Cell
third = record { at = 30; expire = 6; client = 8 }

abbrev heap : Heap
heap a =
    if a == 10
    then some (record { prev = 0; next = 20; client_data = 6; t_expire = 5 })
    else if a == 20
    then some (record { prev = 10; next = 0; client_data = 7; t_expire = 8 })
    else if a == 30
    then some (record { prev = 0; next = 0; client_data = 8; t_expire = 6 })
    else none

abbrev list : TimerSortedList
list = record { head = 10; tail = 20; heap = heap }

early-Holds : Holds heap early 0 20
early-Holds = record { not_null = refl; content = refl }

list-IsTimers : IsTimers list (early ∷ late ∷ [])
list-IsTimers = cons early-Holds refl (cons (record { not_null = refl; content = refl }) refl nil)

add_timer-Adds_example : Adds list third (early ∷ late ∷ []) (add_timer 3 list 30)
add_timer-Adds_example =
    add_timer-Adds 3 list third (early ∷ late ∷ []) list-IsTimers
      (record { not_null = refl; content = refl }) refl (omega arith)

del_timer-Deletes_example : Deletes list 10 (early ∷ late ∷ []) (del_timer 3 list 10)
del_timer-Deletes_example =
    del_timer-Deletes 3 list 10 (early ∷ late ∷ []) list-IsTimers refl (omega arith)

chg_timer-Changes_example : Changes list early 9 (early ∷ late ∷ []) (chg_timer 3 list 10 9)
chg_timer-Changes_example =
    chg_timer-Changes 3 list early 9 (early ∷ late ∷ []) list-IsTimers early-Holds refl
      (omega arith)

-- A handler that counts the clients.
abbrev count_client : ℕ → List ℕ → Run (List ℕ)
count_client n seen = ok (n ∷ seen)

tick_once-Ticks_example :
    Ticks count_client 6 list (early ∷ late ∷ []) (tick_once count_client 6 3 list)
tick_once-Ticks_example =
    tick_once-Ticks count_client 6 3 list (early ∷ late ∷ []) list-IsTimers (omega arith)
