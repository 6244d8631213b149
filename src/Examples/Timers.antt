-- ===== src/Examples/Timers.antt =====
-- The timers of examples/framework-intro/client_timer_list.h: a doubly linked list on a heap. Each
-- loop runs on fuel, as the list has no length of its own. A time_t is a number.
pub mod Chain
pub mod Add
pub mod Unlink
pub mod Remove
pub mod Tick
mod Tests
use simple_http_serv.Prelude.{
  ℕ, zero, suc, Bool, true, false, Option, none, some, Run, ok, fault, null_deref, dangling,
  assert_failed, no_fuel, ◌>>=◌, ◌==◌, ltb, if◌then◌else◌,
}

abbrev pub Ptr : Type 0
Ptr = ℕ

abbrev pub null : Ptr
null = 0

-- `client_data` is the index of the client's slot. The expiry handler is a parameter of `tick_once`.
pub record ClientTimer : Type 0 where
  pub prev : Ptr
  pub next : Ptr
  pub client_data : ℕ
  pub t_expire : ℕ

abbrev pub Heap : Type 0
Heap = Ptr → Option ClientTimer

-- The list's object, and the heap that its timers live in.
pub record TimerSortedList : Type 0 where
  pub head : Ptr
  pub tail : Ptr
  pub heap : Heap

abbrev pub write : Heap → Ptr → Option ClientTimer → Heap
write h p c a = if a == p then c else h a

-- `*p`
abbrev pub load : TimerSortedList → Ptr → Run ClientTimer
load l p =
    if p == null
    then fault null_deref
    else elim (l.heap p) [ none ↦ fault dangling | some t ↦ ok t ]

abbrev pub store : TimerSortedList → Ptr → Option ClientTimer → TimerSortedList
store l p c = record l { heap = write l.heap p c }

abbrev pub set_next : TimerSortedList → Ptr → Ptr → Run TimerSortedList
set_next l p q = do t ← load l p; ok (store l p (some (record t { next = q })))

abbrev pub set_prev : TimerSortedList → Ptr → Ptr → Run TimerSortedList
set_prev l p q = do t ← load l p; ok (store l p (some (record t { prev = q })))

-- `delete p`, of a timer that is not null.
abbrev pub free : TimerSortedList → Ptr → Run TimerSortedList
free l p = do t ← load l p; ok (store l p none)

-- Before `cur`, behind `prev` if there is one.
insert_between : TimerSortedList → (new_timer prev cur : Ptr) → Run TimerSortedList
insert_between l new_timer prev cur = do
  l ← if prev == null then ok (record l { head = new_timer }) else set_next l prev new_timer
  l ← set_prev l new_timer prev
  l ← set_next l new_timer cur
  set_prev l cur new_timer

-- Behind the loop, where `cur` is null. The tail is left as it is.
append_after : TimerSortedList → (new_timer prev : Ptr) → Run TimerSortedList
append_after l new_timer prev =
    if prev == null
    then fault assert_failed
    else do l ← set_next l prev new_timer; l ← set_prev l new_timer prev; set_next l new_timer null

add_loop : ℕ → TimerSortedList → (new_timer prev cur : Ptr) → Run TimerSortedList
add_loop zero l new_timer prev cur = fault no_fuel
add_loop (suc k) l new_timer prev cur = if cur == null then append_after l new_timer prev else do
  c ← load l cur
  n ← load l new_timer
  if ltb c.t_expire n.t_expire
      then add_loop k l new_timer cur c.next
      else insert_between l new_timer prev cur

unfoldable pub add_timer : ℕ → TimerSortedList → (new_timer : Ptr) → Run TimerSortedList
unfolding add_loop insert_between append_after
add_timer k l new_timer =
    if l.head == null
    then ok (record l { head = new_timer; tail = new_timer })
    else do c ← load l l.head; add_loop k l new_timer c.prev l.head

-- `while (cur && cur != del_timer)`
pub find_loop : ℕ → TimerSortedList → (del_timer cur : Ptr) → Run Ptr
find_loop zero l del_timer cur = fault no_fuel
find_loop (suc k) l del_timer cur =
    if cur == null
    then ok cur
    else if cur == del_timer
    then ok cur
    else do c ← load l cur; find_loop k l del_timer c.next

pub unlink : TimerSortedList → (cur : Ptr) → Run TimerSortedList
unlink l cur = do
  c ← load l cur
  l ← if c.prev == null then ok (record l { head = c.next }) else set_next l c.prev c.next
  if c.next == null then ok (record l { tail = c.prev }) else set_prev l c.next c.prev

pub soft_del_timer : ℕ → TimerSortedList → (del_timer : Ptr) → Run (Bool × TimerSortedList)
unfolding find_loop
soft_del_timer k l del_timer = do
  cur ← find_loop k l del_timer l.head
  if cur == null then ok (false, l) else do l' ← unlink l cur; ok (true, l')

unfoldable pub del_timer : ℕ → TimerSortedList → (timer : Ptr) → Run TimerSortedList
unfolding soft_del_timer unlink
del_timer k l timer = do
  (found, l') ← soft_del_timer k l timer
  if found then free l' timer else ok l'

unfoldable pub chg_timer :
    ℕ → TimerSortedList → (old_timer : Ptr) → (t_reset : ℕ) → Run TimerSortedList
unfolding soft_del_timer unlink add_timer
chg_timer k l old_timer t_reset = do
  (found, l') ← soft_del_timer k l old_timer
  if found
      then (do
        t ← load l' old_timer
        add_timer k
            (store l' old_timer (some (record t { t_expire = t_reset; prev = null; next = null })))
            old_timer)
      else ok l'

-- `handler` is `poll_expire_handler_`, which changes a state of its own.
module _ {W : Type 0} (handler : ℕ → W → Run W) where
  expire_head : TimerSortedList → ClientTimer → W → Run (TimerSortedList × W)
  expire_head l c w = do
    let l' = record l { head = c.next }
    l' ← if c.next == null then ok l' else set_prev l' c.next null
    w' ← handler c.client_data w
    l' ← free l' l.head
    ok (l', w')

  pub tick_once : (t_current : ℕ) → ℕ → TimerSortedList → W → Run (TimerSortedList × W)
  tick_once t_current zero l w = fault no_fuel
  tick_once t_current (suc k) l w = if l.head == null then ok (l, w) else do
    c ← load l l.head
    let rest = do (l', w') ← expire_head l c w; tick_once t_current k l' w'
    if ltb c.t_expire t_current then rest else ok (l, w)

-- The destructor.
unfoldable pub destroy : ℕ → TimerSortedList → Run TimerSortedList
destroy zero l = fault no_fuel
destroy (suc k) l =
    if l.head == null
    then ok l
    else do c ← load l l.head; l' ← free (record l { head = c.next }) l.head; destroy k l'
