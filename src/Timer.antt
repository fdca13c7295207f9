-- ===== src/Timer.antt =====
-- os/timer.c: the software timers, a list ordered by timeout, and the clock. Each field of `struct
-- timer` is a function of the object's address. `malloc` enters as the address that it returned;
-- `free` does not write the fields modelled.
pub mod Insert
pub mod Delete
pub mod Check
pub mod Alarm
pub mod Clock
pub mod Handler
mod Tests
use xin_os.Base.{
  ℕ, zero, suc, ◌+◌, ◌-◌, ◌*◌, ◌/◌, ◌%◌, ◌^◌, bit_or, Bool, true, false, not, ◌&&◌, ◌||◌, Option,
  none, some, List, [], ◌∷◌, ◌++◌, ltb, leb, ◌==◌, if◌then◌else◌, Ptr, null, u32, u64, update,
}
use xin_os.Chain.{walk}
use xin_os.Hart.{Hart, w_mie, mie_mtie}
use xin_os.Task.{
  TaskState, running, runnable, sleeping, TaskInfo, Sched, Control, returned, is_sleeping, back_os,
  task_yield,
}

-- `struct timer`; the function is its address, NULL if there is none.
pub record TimerInfo : Type 0 where
  pub func : Ptr → ℕ
  pub args : Ptr → ℕ
  pub next : Ptr → Ptr
  pub timeout : Ptr → ℕ
  pub task : Ptr → Ptr

-- The variables of the file; `sched` is the state of os/sched.c, where `cur_task` is.
pub record Timers : Type 0 where
  pub first_timer : Ptr
  pub ticks : ℕ
  pub cur_task_start_tick : ℕ
  pub info : TimerInfo
  pub sched : Sched

-- CLINT_TIMEBASE_FREQ
abbrev pub timer_interval : ℕ
timer_interval = 10000000

-- `interval` is a non-negative `int`.
unfoldable pub timer_load : Hart → ℕ → Hart
timer_load h interval = record h { mtimecmp = u64 (h.mtime + interval) }

abbrev pub with_timer_next : Timers → Ptr → Ptr → Timers
with_timer_next s p q = let t = s.info in record s { info = record t { next = update t.next p q } }

-- The loop of `timer_init`; `none` when the fuel runs out.
pub clear_timers : ℕ → TimerInfo → Ptr → Option TimerInfo
clear_timers zero t it = none
clear_timers (suc k) t it = elim (it == null) [
  | true ↦ some t
  | false ↦
      clear_timers k (record t { func = update t.func it null; args = update t.args it null })
        (t.next it)
]

unfoldable pub timer_init : ℕ → Timers → Option Timers
unfolding clear_timers timer_load w_mie
timer_init fuel s = elim (clear_timers fuel s.info s.first_timer) [
  | none ↦ none
  | some t ↦
      let c = s.sched in
      let h = timer_load c.hart timer_interval in
      some (record s { info = t; sched = record c { hart = w_mie h (bit_or h.mie mie_mtie) } })
]

-- The two characters that `elapsed_time` writes for a number, as `char` values.
unfoldable pub two_digits : ℕ → List ℕ
two_digits n =
    if ltb 9 n
    then (b'0' + n / 10) % 2 ^ 8 ∷ (b'0' + n % 10) % 2 ^ 8 ∷ []
    else b'0' ∷ (b'0' + n) % 2 ^ 8 ∷ []

-- The text that `elapsed_time` prints, before the end of the line.
unfoldable pub elapsed_time : ℕ → List ℕ
unfolding two_digits
elapsed_time ticks =
    let seconds = ticks % 60 in
    let tmp = ticks / 60 in
    let minutes = tmp % 60 in
    let hours = tmp / 60 in
    two_digits hours ++ (b':' ∷ two_digits minutes) ++ (b':' ∷ two_digits seconds)

-- `it->timeout <= t->timeout`
abbrev pub not_later : Timers → Ptr → Ptr → Bool
not_later s t it = leb (s.info.timeout it) (s.info.timeout t)

unfoldable pub insert_timer : ℕ → Timers → Ptr → Option Timers
unfolding walk
insert_timer fuel s t =
    if s.first_timer == null
    then some (record s { first_timer = t })
    else if ltb (s.info.timeout t) (s.info.timeout s.first_timer)
    then some (record (with_timer_next s t s.first_timer) { first_timer = t })
    else elim (walk (not_later s t) s.info.next fuel s.first_timer s.first_timer) [
      | none ↦ none
      | some (prev, it) ↦ some (with_timer_next (with_timer_next s prev t) t it)
    ]

-- What `timer_create` writes into the object that `malloc` returned.
unfoldable pub fill_timer : Timers → (t func args timeout : ℕ) → Timers
fill_timer s t func args timeout =
    let i = s.info in
    record s {
      info = record i {
        func = update i.func t func;
        args = update i.args t args;
        task = update i.task t s.sched.cur_task;
        timeout = update i.timeout t (u64 (s.ticks + timeout));
        next = update i.next t null;
      };
    }

unfoldable pub timer_create : ℕ → Timers → (t func args timeout : ℕ) → Option Timers
unfolding insert_timer fill_timer
timer_create fuel s t func args timeout = insert_timer fuel (fill_timer s t func args timeout) t

-- A timer that is not in the list is a fault: the walk ends at NULL, whose link is then read.
pub data Deleted : Type 0 where
  deleted : Timers → Deleted
  fault : Deleted
  no_fuel : Deleted

unfoldable pub timer_delete : ℕ → Timers → Ptr → Deleted
unfolding walk
timer_delete fuel s t =
    if s.first_timer == null || t == null
    then deleted s
    else if t == s.first_timer
    then deleted (record s { first_timer = s.info.next s.first_timer })
    else elim (walk (λ p. not (p == t)) s.info.next fuel s.first_timer s.first_timer) [
      | none ↦ no_fuel
      | some (prev, it) ↦
          if it == null then fault else deleted (with_timer_next s prev (s.info.next it))
    ]

-- What one walk of `timer_check` does: the calls of timer functions that it makes in order, as
-- function and argument, and the task to wake with the timer that asked for it.
pub data CheckResult : Type 0 where
  wake : (calls : List (ℕ × ℕ)) (task timer : Ptr) → CheckResult
  nobody : (calls : List (ℕ × ℕ)) → CheckResult
  unfinished : CheckResult

abbrev pub called : ℕ × ℕ → CheckResult → CheckResult
called c (wake calls task timer) = wake (c ∷ calls) task timer
called c (nobody calls) = nobody (c ∷ calls)
called c unfinished = unfinished

-- A timer function is assumed to change no timer and no task.
pub check_from : ℕ → Timers → Ptr → CheckResult
check_from zero s it = unfinished
check_from (suc k) s it =
    let t = s.info in
    let rest = check_from k s (t.next it) in
    if it == null
    then nobody []
    else if leb (t.timeout it) s.ticks
    then if is_sleeping (s.sched.tasks.state (t.task it)) && t.func it == null
      then wake [] (t.task it) it
      else called (t.func it, t.args it) rest
    else nobody []

-- What `timer_check` returns: the state, the task that it woke or NULL, and the calls made.
pub data Checked : Type 0 where
  checked : Timers → (task : Ptr) → (calls : List (ℕ × ℕ)) → Checked
  check_fault : Checked
  check_no_fuel : Checked

-- The timer that wakes a task is deleted.
unfoldable pub check_end : ℕ → Timers → CheckResult → Checked
check_end fuel s unfinished = check_no_fuel
check_end fuel s (nobody calls) = checked s null calls
check_end fuel s (wake calls task timer) = elim (timer_delete fuel s timer) [
  | deleted s2 ↦ checked s2 task calls
  | fault ↦ check_fault
  | no_fuel ↦ check_no_fuel
]

unfoldable pub timer_check : ℕ → Timers → Checked
unfolding check_from
timer_check fuel s = check_end fuel s (check_from fuel s s.first_timer)

-- How a timer interrupt ends: the state and what runs next, or a fault, or no fuel left.
pub data Tick : Type 0 where
  ticked : Timers → Control → (calls : List (ℕ × ℕ)) → Tick
  tick_fault : Tick
  tick_no_fuel : Tick

abbrev pub reload : Timers → Timers
reload s =
    let c = s.sched in record s { sched = record c { hart = timer_load c.hart timer_interval } }

abbrev pub to_kernel : Timers → List (ℕ × ℕ) → Tick
to_kernel s calls = let (c, to) = back_os s.sched in ticked (record s { sched = c }) to calls

-- The end of the interrupt when no task wakes.
unfoldable pub preempt : Timers → List (ℕ × ℕ) → Tick
unfolding timer_load back_os
preempt s calls =
    let r = reload s in
    if r.sched.cur_task == null
    then to_kernel r calls
    else if leb (r.sched.tasks.timeslice r.sched.cur_task)
        (u64 (r.ticks + 2 ^ 64 - r.cur_task_start_tick))
    then to_kernel (record r { cur_task_start_tick = r.ticks }) calls
    else ticked r returned calls

-- The task of a timer that ran out becomes runnable and current.
unfoldable pub wake_task : Timers → Ptr → Timers
wake_task s task =
    let c = s.sched in
    let t = c.tasks in
    record s {
      sched = record c {
        cur_task = task;
        tasks = record t { state = update t.state task runnable };
      };
    }

unfoldable pub timer_handler : ℕ → Timers → Tick
unfolding preempt wake_task
timer_handler fuel s =
    let s1 = record s { ticks = u64 (s.ticks + 1) } in
    elim (timer_check fuel s1) [
      | check_fault ↦ tick_fault
      | check_no_fuel ↦ tick_no_fuel
      | checked s2 task calls ↦
          if task == null then preempt s2 calls else to_kernel (reload (wake_task s2 task)) calls
    ]

-- `task_delay` of os/sched.c: the current task sleeps, a timer without function is made for it, and
-- a software interrupt is asked for.
unfoldable pub task_delay : ℕ → Timers → (timer tick : ℕ) → Option Timers
unfolding timer_create task_yield
task_delay fuel s timer tick =
    let c = s.sched in
    let t = c.tasks in
    let s1 = record s {
      sched = record c { tasks = record t { state = update t.state c.cur_task sleeping } };
    } in
    elim (timer_create fuel s1 timer null null tick) [
      | none ↦ none
      | some s2 ↦ some (record s2 { sched = task_yield s2.sched })
    ]
