-- ===== src/Timer/Tests.antt =====
-- Two timers of os/timer.c: the theorems at this list.
use xin_os.Base.{◌≡◌, refl, List, [], ◌∷◌, arith, ◌==◌, if◌then◌else◌, Ptr}
use xin_os.Chain.Order.{IsSorted}
use xin_os.Hart.{Hart}
use xin_os.Task.{runnable, sleeping, TaskInfo, Sched, returned}
use xin_os.Timer.{
  Timers, timer_create, timer_delete, timer_check, check_end, timer_delete, timer_handler,
  elapsed_time, two_digits, fault, ticked, Tick, timer_load, preempt,
}
use xin_os.Timer.Insert.{IsTimerList, TimerCreated, timer_create-TimerCreated}
use xin_os.Timer.Delete.{TimerDeleted, timer_delete-TimerDeleted, timer_delete-fault}

abbrev hart : Hart
hart = record {
  hart_id = 0;
  mstatus = 0;
  mie = 0;
  mscratch = 0;
  mtvec = 0;
  msip = 0;
  mtime = 50;
  mtimecmp = 0;
}

-- The task at 100 sleeps, the one at 200 is current.
abbrev tasks : TaskInfo
tasks = record {
  task_id = λ p. p;
  priority = λ _. 100;
  state = λ p. if p == 100 then sleeping else runnable;
  timeslice = λ _. 5;
  next = λ p. if p == 100 then 200 else 0;
  ctx_sp = λ _. 0;
  ctx_pc = λ _. 0;
  ctx_a0 = λ _. 0;
}

abbrev sched : Sched
sched = record {
  tasks_num = 2;
  next_task_id = 3;
  cur_task = 200;
  first_task = 100;
  os_task = 50;
  os_stack = 0x4000;
  task_stack = 0x5200;
  tasks = tasks;
  hart = hart;
}

-- The timer at 10 calls the function at 7 at tick 4, the timer at 20 wakes the first task at tick 6.
abbrev two_timers : Timers
two_timers = record {
  first_timer = 10;
  ticks = 5;
  cur_task_start_tick = 3;
  info = record {
    func = λ p. if p == 10 then 7 else 0;
    args = λ p. if p == 10 then 9 else 0;
    next = λ p. if p == 10 then 20 else 0;
    timeout = λ p. if p == 10 then 4 else if p == 20 then 6 else 0;
    task = λ p. if p == 10 then 200 else 100;
  };
  sched = sched;
}

abbrev two : List Ptr
two = 10 ∷ 20 ∷ []

two-IsTimerList : IsTimerList two_timers two
two-IsTimerList = record { chain = omega arith; distinct = omega arith }

two-IsSorted : IsSorted two_timers.info.timeout two
two-IsSorted = omega arith

timer_create-TimerCreated_example :
    TimerCreated two_timers 30 7 8 1 two (timer_create 5 two_timers 30 7 8 1)
timer_create-TimerCreated_example =
    timer_create-TimerCreated 5 two_timers 30 7 8 1 two (omega arith) two-IsTimerList two-IsSorted
      (omega arith) (omega arith)

timer_delete-TimerDeleted_example :
    TimerDeleted two_timers (10 ∷ []) [] (timer_delete 5 two_timers 20)
timer_delete-TimerDeleted_example =
    timer_delete-TimerDeleted 5 two_timers 20 (10 ∷ []) [] two-IsTimerList (omega arith)

timer_delete-fault_example : timer_delete 5 two_timers 30 ≡ fault
timer_delete-fault_example =
    timer_delete-fault 5 two_timers 30 two two-IsTimerList (λ e. cc) (omega arith) (omega arith)
      (omega arith)

-- One tick earlier the current task goes on.
abbrev earlier : Timers
earlier = record two_timers { ticks = 4 }

abbrev after_tick : Tick → Timers
after_tick (ticked s to calls) = s
after_tick _ = earlier

abbrev went_on : Timers
went_on = after_tick (timer_handler 5 earlier)

went_on_lem : timer_handler 5 earlier ≡ ticked went_on returned ((7, 9) ∷ [])
unfolding timer_handler timer_check check_end preempt timer_load
went_on_lem = refl

hundred_hours : elapsed_time 360000 ≡ b':' ∷ b'0' ∷ b':' ∷ b'0' ∷ b'0' ∷ b':' ∷ b'0' ∷ b'0' ∷ []
unfolding elapsed_time two_digits
hundred_hours = refl
