-- ===== src/Task.antt =====
-- os/sched.c: the task list, ordered by priority, and the switch between tasks. Each field of
-- `struct taskInfo` is a function of the object's address. `malloc` enters as the address that it
-- returned, and the memory there as what the fields hold at that address.
pub mod Insert
pub mod Cut
pub mod Pop
pub mod Exit
pub mod Ready
pub mod Next
pub mod Fair
pub mod Number
pub mod Create
mod Tests
use xin_os.Base.{
  ℕ, ◌+◌, ◌-◌, ◌*◌, ◌^◌, bit_or, Bool, true, false, not, Option, none, some, ◌&&◌, ◌==◌,
  if◌then◌else◌, Ptr, null, u32, u64, signed_ltb, update,
}
use xin_os.Chain.{walk}
use xin_os.Hart.{Hart, w_mstatus, w_mie, w_mscratch, mie_msie}

pub data TaskState : Type 0 where
  running runnable sleeping : TaskState

abbrev pub is_sleeping : TaskState → Bool
is_sleeping sleeping = true
is_sleeping _ = false

-- `struct taskInfo`: of the saved registers those that the C code writes.
pub record TaskInfo : Type 0 where
  pub task_id : Ptr → ℕ
  pub priority : Ptr → ℕ
  pub state : Ptr → TaskState
  pub timeslice : Ptr → ℕ
  pub next : Ptr → Ptr
  pub ctx_sp : Ptr → ℕ
  pub ctx_pc : Ptr → ℕ
  pub ctx_a0 : Ptr → ℕ

-- The variables of the file, with the addresses of the kernel's task and of the stacks. `int`
-- values are bit patterns.
pub record Sched : Type 0 where
  pub tasks_num : ℕ
  pub next_task_id : ℕ
  pub cur_task : Ptr
  pub first_task : Ptr
  pub os_task : Ptr
  pub os_stack : ℕ
  pub task_stack : ℕ
  pub tasks : TaskInfo
  pub hart : Hart

-- What the hart runs after a call: the caller, a task whose registers were loaded, or the kernel.
pub data Control : Type 0 where
  returned : Control
  task_at : Ptr → Control
  kernel : Control

abbrev pub max_task_num : ℕ
max_task_num = 10

abbrev pub stack_size : ℕ
stack_size = 1024

-- -1 as an `int`.
abbrev pub minus_one : ℕ
minus_one = 2 ^ 32 - 1

unfoldable pub sched_init : (kernel_pc : ℕ) → Sched → Sched
unfolding w_mscratch w_mie
sched_init kernel_pc s =
    let t = s.tasks in
    let h = w_mscratch s.hart 0 in
    record s {
      tasks = record t {
        task_id = update t.task_id s.os_task 0;
        priority = update t.priority s.os_task 0;
        state = update t.state s.os_task running;
        timeslice = update t.timeslice s.os_task 0xffff_ffff;
        next = update t.next s.os_task null;
        ctx_sp = update t.ctx_sp s.os_task (s.os_stack + stack_size - 1);
        ctx_pc = update t.ctx_pc s.os_task kernel_pc;
      };
      hart = w_mie h (bit_or h.mie mie_msie);
    }

abbrev pub with_next : Sched → Ptr → Ptr → Sched
with_next s p q = let t = s.tasks in record s { tasks = record t { next = update t.next p q } }

-- `new_task->priority >= it->priority`
abbrev pub passes : Sched → Ptr → Ptr → Bool
passes s new_task it = not (signed_ltb (s.tasks.priority new_task) (s.tasks.priority it))

-- The result and the new state; `none` when the fuel runs out before the walk ends.
unfoldable pub insert_task : ℕ → Sched → Ptr → Option (ℕ × Sched)
unfolding walk
insert_task fuel s new_task =
    let t = s.tasks in
    let counted = λ (s' : Sched). record s' { tasks_num = u32 (s'.tasks_num + 1) } in
    if s.first_task == null && s.tasks_num == 0
    then some (0, counted (record s { first_task = new_task }))
    else if s.first_task == null
    then some (minus_one, s)
    else if signed_ltb (t.priority new_task) (t.priority s.first_task)
    then some (0, counted (record (with_next s new_task s.first_task) { first_task = new_task }))
    else elim (walk (passes s new_task) t.next fuel s.first_task s.first_task) [
      | none ↦ none
      | some (prev, it) ↦ some (0, counted (with_next (with_next s prev new_task) new_task it))
    ]

-- The priorities after `if (task->priority < 256) task->priority++`.
abbrev pub aged_priority : Sched → Ptr → Ptr → ℕ
aged_priority s task =
    let priority = s.tasks.priority in
    if signed_ltb (priority task) 256
    then update priority task (u32 (priority task + 1))
    else priority

-- The state in which the task found is taken out of the list and counted off.
unfoldable pub cut_task : Sched → (prev task : Ptr) → Sched
cut_task s prev task =
    let t = s.tasks in
    let aged = record s {
      tasks = record t { priority = aged_priority s task };
      tasks_num = u32 (s.tasks_num + minus_one);
    } in
    if t.task_id task == t.task_id s.first_task
    then record aged { first_task = t.next s.first_task }
    else with_next aged prev (t.next task)

-- The task chosen and the new state; NULL if every task sleeps.
unfoldable pub pop_task : ℕ → Sched → Option (Ptr × Sched)
unfolding insert_task cut_task
pop_task fuel s =
    if s.first_task == null
    then some (null, s)
    else elim (walk (λ p. is_sleeping (s.tasks.state p)) s.tasks.next fuel s.first_task
        s.first_task) [
          | none ↦ none
          | some (prev, task) ↦
              if task == null
              then some (null, s)
              else elim (insert_task fuel (cut_task s prev task) task) [
                | none ↦ none
                | some (_, s') ↦ some (task, s')
              ]
        ]

unfoldable pub back_os : Sched → Sched × Control
unfolding w_mstatus
back_os s = (record s { hart = w_mstatus s.hart (bit_or s.hart.mstatus (3 * 2 ^ 11)) }, kernel)

-- `_tasks_num <= 0` goes back to the kernel, and so does a list in which every task sleeps.
unfoldable pub schedule : ℕ → Sched → Option (Sched × Control)
unfolding pop_task back_os
schedule fuel s =
    if signed_ltb 0 s.tasks_num
    then elim (pop_task fuel s) [
      | none ↦ none
      | some (task, s') ↦
          let s'' = record s' { cur_task = task } in
          if task == null then some (back_os s'') else some (s'', task_at task)
    ]
    else some (back_os s)

unfoldable pub task_yield : Sched → Sched
task_yield s = let h = s.hart in record s { hart = record h { msip = 1 } }

-- The object's memory goes back to `free`, which does not write the fields modelled.
unfoldable pub task_exit : ℕ → Sched → Option Sched
unfolding walk task_yield
task_exit fuel s =
    if s.cur_task == null
    then some s
    else (let t = s.tasks in
        let finish =
          λ (s' : Sched). task_yield (record s' { tasks_num = u32 (s'.tasks_num + minus_one) }) in
        if t.task_id s.cur_task == t.task_id s.first_task
        then some (finish (record s { first_task = t.next s.first_task }))
        else elim (walk (λ p. not (t.task_id p == t.task_id s.cur_task)) t.next fuel s.first_task
            s.first_task) [
              | none ↦ none
              | some (prev, _) ↦ some (finish (with_next s prev (t.next s.cur_task)))
            ])

-- The fields that `task_create` writes into the object that `malloc` returned: `state` is not one.
unfoldable pub fill_task : Sched → (new_task task param priority timeslice : ℕ) → Sched
fill_task s new_task task param priority timeslice =
    let t = s.tasks in
    record s {
      next_task_id = u32 (s.next_task_id + 1);
      tasks = record t {
        task_id = update t.task_id new_task s.next_task_id;
        priority = update t.priority new_task priority;
        timeslice = update t.timeslice new_task timeslice;
        next = update t.next new_task null;
        ctx_sp =
            update t.ctx_sp new_task (s.task_stack + s.tasks_num * stack_size + stack_size - 1);
        ctx_pc = update t.ctx_pc new_task task;
        ctx_a0 = if param == null then t.ctx_a0 else update t.ctx_a0 new_task param;
      };
    }

-- `new_task` is what `malloc` returned.
unfoldable pub task_create :
    ℕ → Sched → (new_task task param priority timeslice : ℕ) → Option (ℕ × Sched)
unfolding insert_task fill_task
task_create fuel s new_task task param priority timeslice =
    if signed_ltb s.tasks_num max_task_num
    then elim (insert_task fuel (fill_task s new_task task param priority timeslice) new_task) [
      | none ↦ none
      | some (result, s') ↦ some (if signed_ltb result 0 then minus_one else 0, s')
    ]
    else some (minus_one, s)
