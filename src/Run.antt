-- ===== src/Run.antt =====
-- The kernel while it runs: os/sched.c and os/timer.c under the interrupts of os/trap.c and the calls of
-- the tasks. An event is one interrupt, or one call of the task that runs with the software interrupt
-- that the call asks for, which comes before the task's next instruction.
pub mod Sleepers
pub mod State
pub mod Switch
pub mod Checks
pub mod Tick
pub mod Timers
pub mod Sleep
pub mod Exit
pub mod Create
pub mod Wake
pub mod Nap
pub mod Reach
pub mod Keep
pub mod Alarm
mod Example
mod Tests
use xin_os.Base.{ℕ, zero, suc, Option, none, some, Ptr, null}
use xin_os.Task.{Control, returned, task_at, kernel, task_create, task_exit}
use xin_os.Timer.{
  timer_create, timer_delete, deleted, fault, no_fuel, timer_handler, ticked, tick_fault,
  tick_no_fuel, task_delay,
}
use xin_os.Trap.{Machine, with_sched, software_interrupt_handler}

-- The arguments of a call; for `sleep`, `create` and `start_timer` first the address that `malloc`
-- returns to it.
pub data Event : Type 0 where
  switch : Event
  tick : Event
  sleep : (timer ticks : ℕ) → Event
  exit : Event
  create : (new_task task param priority timeslice : ℕ) → Event
  start_timer : (timer func args timeout : ℕ) → Event
  stop_timer : (timer : Ptr) → Event

-- What runs behind an interrupt that may return to what it interrupted.
abbrev pub resume : Control → Control → Control
resume running returned = running
resume running (task_at p) = task_at p
resume running kernel = kernel

-- The state and what runs then; `none` on a fault or without fuel.
unfoldable pub happen : ℕ → Event → Machine → (running : Control) → Option (Machine × Control)
unfolding software_interrupt_handler timer_handler task_delay task_exit task_create timer_create
    timer_delete
happen fuel switch m running = software_interrupt_handler fuel m
happen fuel tick m running = elim (timer_handler fuel m.timers) [
  | ticked t to calls ↦ some (record m { timers = t }, resume running to)
  | tick_fault ↦ none
  | tick_no_fuel ↦ none
]
happen fuel (sleep timer ticks) m running = elim (task_delay fuel m.timers timer ticks) [
  | none ↦ none
  | some t ↦ software_interrupt_handler fuel (record m { timers = t })
]
happen fuel exit m running = elim (task_exit fuel m.timers.sched) [
  | none ↦ none
  | some c ↦ software_interrupt_handler fuel (with_sched m c)
]
happen fuel (create new_task task param priority timeslice) m running =
    elim (task_create fuel m.timers.sched new_task task param priority timeslice) [
      | none ↦ none
      | some (result, c) ↦ some (with_sched m c, running)
    ]
happen fuel (start_timer timer func args timeout) m running =
    elim (timer_create fuel m.timers timer func args timeout) [
      | none ↦ none
      | some t ↦ some (record m { timers = t }, running)
    ]
happen fuel (stop_timer timer) m running = elim (timer_delete fuel m.timers timer) [
  | deleted t ↦ some (record m { timers = t }, running)
  | fault ↦ none
  | no_fuel ↦ none
]

-- Timer interrupts one after the other.
pub ticks_on : ℕ → ℕ → Machine → Control → Option (Machine × Control)
unfolding happen
ticks_on zero fuel m running = some (m, running)
ticks_on (suc n) fuel m running = elim (happen fuel tick m running) [
  | none ↦ none
  | some (m', running') ↦ ticks_on n fuel m' running'
]
