-- ===== src/Run/Example.antt =====
-- Three tasks of a running kernel: the first one sleeps until tick 9, the second one runs.
use xin_os.Base.{
  ℕ, ◌<◌, ◌≡◌, refl, ap, ◌∙◌, sym, subst, true, false, List, [], ◌∷◌, arith, ◌==◌, if◌then◌else◌,
  inl, inr, Ptr, null, length,
}
use xin_os.Hart.{Hart}
use xin_os.Chain.Wait.{Among}
use xin_os.Chain.Member.{Chain-same}
use xin_os.Task.{runnable, sleeping, TaskInfo, Sched, task_at}
use xin_os.Task.Insert.{IsQueue}
use xin_os.Task.Cut.{DistinctIds}
use xin_os.Task.Pop.{asleep}
use xin_os.Task.Number.{IsNumbered}
use xin_os.Timer.{TimerInfo}
use xin_os.Timer.Insert.{IsTimerList}
use xin_os.Trap.{Machine}
use xin_os.Run.Sleepers.{Sleepers, Pending}
use xin_os.Run.State.{IsLive, Enough}

abbrev by_task : ℕ → ℕ → ℕ → Ptr → ℕ
by_task a b c p = if p == 100 then a else if p == 200 then b else if p == 300 then c else 0

abbrev pub info : TaskInfo
info = record {
  task_id = by_task 1 2 3;
  priority = by_task 100 105 110;
  state = λ p. if p == 100 then sleeping else runnable;
  timeslice = by_task 5 10 10;
  next = by_task 200 300 0;
  ctx_sp = by_task 0x51ff 0x55ff 0x59ff;
  ctx_pc = λ _. 0;
  ctx_a0 = λ _. 0;
}

abbrev hart : Hart
hart = record {
  hart_id = 0;
  mstatus = 0;
  mie = 0;
  mscratch = 0;
  mtvec = 0;
  msip = 0;
  mtime = 0;
  mtimecmp = 0;
}

abbrev pub sched : Sched
sched = record {
  tasks_num = 3;
  next_task_id = 4;
  cur_task = 200;
  first_task = 100;
  os_task = 50;
  os_stack = 0x4000;
  task_stack = 0x5200;
  tasks = info;
  hart = hart;
}

abbrev timer_info : TimerInfo
timer_info = record {
  func = λ p. if p == 510 then 0x8000 else 0;
  args = λ _. 0;
  next = λ p. if p == 500 then 510 else 0;
  timeout = λ p. if p == 500 then 9 else if p == 510 then 12 else 0;
  task = λ p. if p == 500 then 100 else 200;
}

abbrev pub machine : Machine
machine = record {
  timers = record {
    first_timer = 500;
    ticks = 7;
    cur_task_start_tick = 5;
    info = timer_info;
    sched = sched;
  };
  plic = record { uart_priority = 1; menable = 1024; mthreshold = 0; claim = 0; completed = [] };
  uart = record { ier = 1; lcr = 3; dll = 3; dlm = 0; status = []; received = []; sent = [] };
}

abbrev pub tasks : List Ptr
tasks = 100 ∷ 200 ∷ 300 ∷ []

abbrev pub timers : List Ptr
timers = 500 ∷ 510 ∷ []

queue : IsQueue sched tasks
queue = omega arith

ids : DistinctIds (by_task 1 2 3) tasks
ids = omega arith

pub numbered : IsNumbered sched tasks
numbered = record {
  ready = record { queue = queue; ids = ids; sorted = omega arith };
  fresh = omega arith;
}

pub timer_list : IsTimerList machine.timers timers
timer_list = omega arith

silent_one : (t : Ptr) → Among t timers → timer_info.func t ≡ null → 500 ≡ t
silent_one t (inl e) f = e
silent_one t (inr (inl e)) f = absurd (ground (arith, e, f))
silent_one t (inr (inr m)) f = absurd m

sleeping_one :
    (x : Ptr)
    → Among x tasks
    → asleep sched x ≡ true
    → Pending timer_info.func timer_info.task timers x
sleeping_one x (inl e) s = (500, inl refl, refl, e)
sleeping_one x (inr (inl e)) s =
    let b : true ≡ false = sym s ∙ ap (asleep sched) (sym e) in absurd cc
sleeping_one x (inr (inr (inl e))) s =
    let b : true ≡ false = sym s ∙ ap (asleep sched) (sym e) in absurd cc
sleeping_one x (inr (inr (inr m))) s = absurd m

pub sleepers : Sleepers timer_info.func timer_info.task (asleep sched) tasks timers
sleepers = record {
  owned = λ t i e.
      subst (λ u. Among (timer_info.task u) tasks × (asleep sched (timer_info.task u) ≡ true))
        (silent_one t i e) (inl refl, refl);
  single = λ t u i j e f g. sym (silent_one t i e) ∙ silent_one u j f;
  pending = sleeping_one;
}

abbrev pub live : IsLive machine (task_at 200)
live = record {
  tasks = tasks;
  timers = timers;
  numbered = numbered;
  list = timer_list;
  ordered = omega arith;
  sleepers = sleepers;
  runs = (refl, inr (inl refl), refl);
}

only_tasks : (xs : List Ptr) → IsQueue sched xs → tasks ≡ xs
only_tasks xs q = Chain-same info.next 100 tasks xs queue.chain q.chain

pub only_timers : (xs : List Ptr) → IsTimerList machine.timers xs → timers ≡ xs
only_timers xs q = Chain-same timer_info.next 500 timers xs timer_list.chain q.chain

pub enough : Enough 5 machine
enough = (
  (λ xs q. subst (λ l. length l < 5) (only_tasks xs q) (omega arith)),
  (λ xs q. subst (λ l. length l < 5) (only_timers xs q) (omega arith)),
)
