-- ===== src/Task/Tests.antt =====
-- Three tasks of os/sched.c: runs, and the theorems at this list.
use xin_os.Base.{
  ℕ, ◌≡◌, inl, inr, refl, Option, none, some, List, [], ◌∷◌, arith, ◌==◌, if◌then◌else◌, Ptr,
  update,
}
use xin_os.Hart.{Hart}
use xin_os.Task.{runnable, sleeping, TaskInfo, Sched, insert_task, pop_task, task_exit, task_create}
use xin_os.Task.Insert.{IsQueue, Inserted, insert_task-Inserted}
use xin_os.Task.Cut.{DistinctIds}
use xin_os.Task.Exit.{Exited}
use xin_os.Task.Ready.{IsReady}
use xin_os.Task.Fair.{turns, turns_fair}
use xin_os.Task.Number.{IsNumbered, task_exit-IsNumbered}
use xin_os.Chain.Wait.{Among}

-- Tasks at 100, 200 and 300 with the priorities that `user_init` gives; the first one sleeps.
abbrev by_task : ℕ → ℕ → ℕ → Ptr → ℕ
by_task a b c p = if p == 100 then a else if p == 200 then b else if p == 300 then c else 0

abbrev three_info : TaskInfo
three_info = record {
  task_id = by_task 1 2 3;
  priority = by_task 100 105 110;
  state = λ p. if p == 100 then sleeping else runnable;
  timeslice = by_task 5 10 10;
  next = by_task 200 300 0;
  ctx_sp = by_task 0x51ff 0x55ff 0x59ff;
  ctx_pc = λ _. 0;
  ctx_a0 = λ _. 0;
}

abbrev hart : Hart
hart = record {
  hart_id = 0;
  mstatus = 0;
  mie = 0;
  mscratch = 0;
  mtvec = 0;
  msip = 0;
  mtime = 0;
  mtimecmp = 0;
}

abbrev three_tasks : Sched
three_tasks = record {
  tasks_num = 3;
  next_task_id = 4;
  cur_task = 200;
  first_task = 100;
  os_task = 50;
  os_stack = 0x4000;
  task_stack = 0x5200;
  tasks = three_info;
  hart = hart;
}

abbrev three : List Ptr
three = 100 ∷ 200 ∷ 300 ∷ []

three-IsQueue : IsQueue three_tasks three
three-IsQueue = omega arith

three_ids : DistinctIds (by_task 1 2 3) three
three_ids = omega arith

pop_chooses : Option (Ptr × Sched) → Ptr
pop_chooses none = 0
pop_chooses (some (p, s)) = p

-- The sleeping task is passed over.
passes_sleeper : pop_chooses (pop_task 5 three_tasks) ≡ 200
unfolding pop_chooses pop_task update
passes_sleeper = refl

insert_task-Inserted_example : Inserted three_tasks 400 three (insert_task 5 three_tasks 400)
insert_task-Inserted_example =
    insert_task-Inserted 5 three_tasks 400 three (omega arith) three-IsQueue (omega arith)
      (inl refl) (omega arith) (omega arith)

-- After the exit of the first of three tasks: the last one has the stack with index 2.
abbrev two_tasks : Sched
two_tasks = record three_tasks {
  tasks_num = 2;
  first_task = 200;
  tasks = record three_info { ctx_sp = by_task 0x55ff 0x59ff 0x5dff };
}

two-IsQueue : IsQueue two_tasks (200 ∷ 300 ∷ [])
two-IsQueue = omega arith

after_create : Option (ℕ × Sched) → Sched
after_create none = two_tasks
after_create (some (r, s)) = s

abbrev second_life : Sched
second_life = after_create (task_create 5 two_tasks 400 0x8000 0 107 10)

second_life_result : task_create 5 two_tasks 400 0x8000 0 107 10 ≡ some (0, second_life)
unfolding after_create task_create update
second_life_result = refl

three-IsReady : IsReady three_tasks three
three-IsReady = record { queue = three-IsQueue; ids = three_ids; sorted = omega arith }

turns_fair_example : Among 300 (turns 18 5 three_tasks)
turns_fair_example =
    turns_fair 18 5 three_tasks 300 three three-IsReady (omega arith) (inr (inr (inl refl))) refl
      (omega arith) (omega arith)

-- The last of the three has the priority 300.
abbrev low_tasks : Sched
low_tasks = record three_tasks { tasks = record three_info { priority = by_task 100 105 300 } }

low-IsQueue : IsQueue low_tasks three
low-IsQueue = omega arith

low-IsReady : IsReady low_tasks three
low-IsReady = record { queue = low-IsQueue; ids = three_ids; sorted = omega arith }

three-IsNumbered : IsNumbered three_tasks three
three-IsNumbered = record { ready = three-IsReady; fresh = omega arith }

task_exit-IsNumbered_example :
    (x : Exited three_tasks (100 ∷ []) (300 ∷ []) (task_exit 5 three_tasks)) × IsNumbered x.after
      (100 ∷ 300 ∷ [])
task_exit-IsNumbered_example =
    task_exit-IsNumbered 5 three_tasks (100 ∷ []) (300 ∷ []) three-IsNumbered (omega arith)
