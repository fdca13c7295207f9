-- ===== src/Run/State.antt =====
-- What holds of the running kernel between two events, and what an event asks of its surroundings.
use xin_os.Base.{ℕ, ◌-◌, ◌^◌, ◌<◌, ◌≡◌, ◌≢◌, false, List, Ptr, null, length}
use xin_os.Chain.{NotIn}
use xin_os.Chain.Order.{IsSorted}
use xin_os.Chain.Wait.{Among}
use xin_os.Task.{Sched, Control, returned, task_at, kernel}
use xin_os.Task.Insert.{IsQueue}
use xin_os.Task.Pop.{asleep}
use xin_os.Task.Number.{IsNumbered}
use xin_os.Timer.Insert.{IsTimerList}
use xin_os.Trap.{Machine}
use xin_os.Run.{Event, switch, tick, sleep, exit, create, start_timer, stop_timer}
use xin_os.Run.Sleepers.{Sleepers}

-- A task that runs is the current one, in the list, and awake.
abbrev pub Runs : Sched → List Ptr → Control → Type 0
Runs c tasks (task_at p) = (c.cur_task ≡ p) × Among p tasks × (asleep c p ≡ false)
Runs c tasks returned = Unit
Runs c tasks kernel = Unit

-- The two lists are in order, each sleeping task has exactly one timer that will wake it, and all other
-- timers have a function.
pub record IsLive (m : Machine) (running : Control) : Type 0 where
  pub tasks : List Ptr
  pub timers : List Ptr
  pub numbered : IsNumbered m.timers.sched tasks
  pub list : IsTimerList m.timers timers
  pub ordered : IsSorted m.timers.info.timeout timers
  pub sleepers : Sleepers m.timers.info.func m.timers.info.task (asleep m.timers.sched) tasks timers
  pub runs : Runs m.timers.sched tasks running

-- An address that no task, or no timer, of the lists has, as `malloc` returns it.
abbrev pub NewTask : Machine → Ptr → Type 0
NewTask m t = (t ≢ null) × ((xs : List Ptr) → IsQueue m.timers.sched xs → NotIn t xs)

abbrev pub NewTimer : Machine → Ptr → Type 0
NewTimer m t = (t ≢ null) × ((xs : List Ptr) → IsTimerList m.timers xs → NotIn t xs)

-- Some task runs.
abbrev pub IsTask : Control → Type 0
IsTask (task_at p) = Unit
IsTask returned = ⊥
IsTask kernel = ⊥

-- `malloc` returns new objects, and one for a task does not hold the state SLEEPING; the numbers of tasks
-- have not run out; a task that starts a timer gives a function, and stops one of its own.
abbrev pub Allowed : Event → Machine → Control → Type 0
Allowed switch m running = Unit
Allowed tick m running = Unit
Allowed (sleep timer ticks) m running = IsTask running × NewTimer m timer
Allowed exit m running = IsTask running
Allowed (create new_task task param priority timeslice) m running =
    NewTask m new_task
    × (asleep m.timers.sched new_task ≡ false)
    × (m.timers.sched.next_task_id < 2 ^ 32 - 1)
Allowed (start_timer timer func args timeout) m running = NewTimer m timer × (func ≢ null)
Allowed (stop_timer timer) m running =
    ((xs : List Ptr) → IsTimerList m.timers xs → Among timer xs) × (m.timers.info.func timer ≢ null)

-- The fuel is greater than the lengths of both lists.
abbrev pub Enough : ℕ → Machine → Type 0
Enough fuel m =
    ((xs : List Ptr) → IsQueue m.timers.sched xs → length xs < fuel)
    × ((xs : List Ptr) → IsTimerList m.timers xs → length xs < fuel)
