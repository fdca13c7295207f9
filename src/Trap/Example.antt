-- ===== src/Trap/Example.antt =====
-- Two tasks and two timers of the kernel, the serial line and the controller, at one moment.
use xin_os.Base.{List, [], ◌∷◌, arith, ◌==◌, if◌then◌else◌, Ptr}
use xin_os.Chain.Order.{IsSorted}
use xin_os.Hart.{Hart}
use xin_os.Task.{runnable, sleeping, TaskInfo, Sched}
use xin_os.Timer.{Timers}
use xin_os.Timer.Insert.{IsTimerList}
use xin_os.Uart.{Uart}
use xin_os.Plic.{Plic}
use xin_os.Trap.{Machine}

abbrev pub hart : Hart
hart = record {
  hart_id = 0;
  mstatus = 0;
  mie = 0;
  mscratch = 0;
  mtvec = 0;
  msip = 0;
  mtime = 50;
  mtimecmp = 0;
}

-- The task at 100 sleeps, the one at 200 is current.
abbrev pub tasks : TaskInfo
tasks = record {
  task_id = λ p. p;
  priority = λ _. 100;
  state = λ p. if p == 100 then sleeping else runnable;
  timeslice = λ _. 5;
  next = λ p. if p == 100 then 200 else 0;
  ctx_sp = λ _. 0;
  ctx_pc = λ _. 0;
  ctx_a0 = λ _. 0;
}

abbrev pub sched : Sched
sched = record {
  tasks_num = 2;
  next_task_id = 3;
  cur_task = 200;
  first_task = 100;
  os_task = 50;
  os_stack = 0x4000;
  task_stack = 0x5200;
  tasks = tasks;
  hart = hart;
}

-- The timer at 10 calls the function at 7 at tick 4, the timer at 20 wakes the first task at tick 6.
abbrev pub two_timers : Timers
two_timers = record {
  first_timer = 10;
  ticks = 5;
  cur_task_start_tick = 3;
  info = record {
    func = λ p. if p == 10 then 7 else 0;
    args = λ p. if p == 10 then 9 else 0;
    next = λ p. if p == 10 then 20 else 0;
    timeout = λ p. if p == 10 then 4 else if p == 20 then 6 else 0;
    task = λ p. if p == 10 then 200 else 100;
  };
  sched = sched;
}

abbrev pub two : List Ptr
two = 10 ∷ 20 ∷ []

pub two-IsTimerList : IsTimerList two_timers two
two-IsTimerList = record { chain = omega arith; distinct = omega arith }

pub two-IsSorted : IsSorted two_timers.info.timeout two
two-IsSorted = omega arith

abbrev pub plic : Plic
plic = record { uart_priority = 1; menable = 1024; mthreshold = 0; claim = 10; completed = [] }

-- The line holds the characters a and backspace, and the transmitter is idle at each reading.
abbrev pub uart : Uart
uart = record {
  ier = 1;
  lcr = 3;
  dll = 3;
  dlm = 0;
  status = 33 ∷ 32 ∷ 33 ∷ 32 ∷ 32 ∷ 32 ∷ 32 ∷ [];
  received = 97 ∷ 8 ∷ [];
  sent = [];
}

abbrev pub machine : Machine
machine = record { timers = two_timers; plic = plic; uart = uart }
