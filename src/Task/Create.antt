-- ===== src/Task/Create.antt =====
-- `task_create` of os/sched.c: what a new task gets, and what it shares.
use xin_os.Base.{
  ℕ, ◌+◌, ◌*◌, ◌%◌, ◌^◌, ◌≤◌, ◌<◌, ◌≡◌, ◌≢◌, ◌∙◌, ap, true, false, Option, none, some, List, arith,
  ◌==◌, if◌then◌else◌, inl, Ptr, null, u32, signed_ltb, update, update_self, update_ne, length, sym,
}
use xin_os.Chain.{NotIn}
use xin_os.Chain.Edit.{Chain-frame}
use xin_os.Chain.Order.{insert_sorted}
use xin_os.Task.{Sched, minus_one, fill_task, task_create}
use xin_os.Task.Insert.{rank, IsQueue, Inserted, insert_task-Inserted}

-- The order of priorities once the new task has its own.
abbrev pub rank_with : Sched → Ptr → ℕ → Ptr → ℕ
rank_with s t priority a = (update s.tasks.priority t priority a + 2 ^ 31) % 2 ^ 32

pub record Created (s : Sched) (t task priority timeslice : ℕ) (xs : List Ptr)
    (r : Option (ℕ × Sched)) : Type 0 where
  pub after : Sched
  pub result : r ≡ some (0, after)
  pub queue : IsQueue after (insert_sorted (rank_with s t priority) t xs)
  pub id : after.tasks.task_id t ≡ s.next_task_id
  pub next_id : after.next_task_id ≡ u32 (s.next_task_id + 1)
  pub entry : after.tasks.ctx_pc t ≡ task
  pub slice : after.tasks.timeslice t ≡ timeslice
  pub stack : after.tasks.ctx_sp t ≡ s.task_stack + length xs * 1024 + 1023
  pub others : (y : Ptr) → (y == t) ≡ false → after.tasks.ctx_sp y ≡ s.tasks.ctx_sp y
  pub state : after.tasks.state t ≡ s.tasks.state t
  pub ids : after.tasks.task_id ≡ update s.tasks.task_id t s.next_task_id
  pub ranks : rank after ≡ rank_with s t priority
  pub states : after.tasks.state ≡ s.tasks.state
  pub current : after.cur_task ≡ s.cur_task
  pub entries : after.tasks.ctx_pc ≡ update s.tasks.ctx_pc t task
  pub hart : after.hart ≡ s.hart

module _ (fuel : ℕ) (s : Sched) (t task param priority timeslice : ℕ) (xs : List Ptr) where
  fill-IsQueue :
      IsQueue s xs → NotIn t xs → IsQueue (fill_task s t task param priority timeslice) xs
  unfolding fill_task
  fill-IsQueue q out = record {
    chain = Chain-frame s.tasks.next t null s.first_task xs q.chain out;
    distinct = q.distinct;
    count = q.count;
    few = q.few;
  }

  filled : Sched
  filled = fill_task s t task param priority timeslice

  Created-of_Inserted :
      s.tasks_num ≡ length xs
      → (r : Option (ℕ × Sched)) → Inserted filled t xs r
      → Created s t task priority timeslice xs (elim r [
        | none ↦ none
        | some (result, s') ↦ some (if signed_ltb result 0 then minus_one else 0, s')
      ])
  unfolding filled fill_task
  Created-of_Inserted count r i = record {
    after = i.after;
    result = rw i.result;
    queue = i.queue;
    id = ap (λ (c : Sched). c.tasks.task_id t) i.relinked.same ∙ update_self s.tasks.task_id t _;
    next_id = ap (λ (c : Sched). c.next_task_id) i.relinked.same;
    entry = ap (λ (c : Sched). c.tasks.ctx_pc t) i.relinked.same ∙ update_self s.tasks.ctx_pc t _;
    slice =
        ap (λ (c : Sched). c.tasks.timeslice t) i.relinked.same ∙ update_self s.tasks.timeslice t _;
    stack =
        ap (λ (c : Sched). c.tasks.ctx_sp t) i.relinked.same
        ∙ update_self s.tasks.ctx_sp t _
        ∙ omega (arith, count);
    others = λ y ne.
        ap (λ (c : Sched). c.tasks.ctx_sp y) i.relinked.same ∙ update_ne s.tasks.ctx_sp t y _ ne;
    state = ap (λ (c : Sched). c.tasks.state t) i.relinked.same;
    ids = ap (λ (c : Sched). c.tasks.task_id) i.relinked.same;
    ranks = ap (λ (c : Sched). rank c) i.relinked.same;
    current = ap (λ (c : Sched). c.cur_task) i.relinked.same;
    states = ap (λ (c : Sched). c.tasks.state) i.relinked.same;
    entries = ap (λ (c : Sched). c.tasks.ctx_pc) i.relinked.same;
    hart = ap (λ (c : Sched). c.hart) i.relinked.same;
  }

  -- With fewer than ten tasks, `task_create` returns 0; the new task stands behind all tasks whose
  -- priority number is not greater, has the next number, its entry point, time slice, and the stack
  -- that the count of tasks picks. Its state is whatever the memory from `malloc` held.
  pub task_create-Created :
      IsQueue s xs
      → t ≢ null
      → NotIn t xs
      → length xs < 10
      → length xs < fuel
      → Created s t task priority timeslice xs (task_create fuel s t task param priority timeslice)
  unfolding task_create
  task_create-Created q nz out room enough =
      let g : signed_ltb s.tasks_num 10 ≡ true = ground (arith, q.count) in
      rw g (
        Created-of_Inserted q.count _ (
          unfold filled in
          insert_task-Inserted fuel filled t xs nz (fill-IsQueue q out) out
            (unfold filled fill_task in inl (update_self s.tasks.next t null)) enough
            (omega arith)))

  -- With ten tasks or more in the list, `task_create` returns -1 and changes nothing.
  pub task_create-full :
      IsQueue s xs
      → 10 ≤ length xs
      → task_create fuel s t task param priority timeslice ≡ some (minus_one, s)
  unfolding task_create
  task_create-full q full =
      let g : signed_ltb s.tasks_num 10 ≡ false = ground (arith, q.count, q.few) in rw g

  -- A live task whose stack is the one with the index of the current count shares it with the new
  -- task: after an exit the count no longer tells which stacks are unused.
  pub task_create-shares_stack :
      (y : Ptr) (s' : Sched)
      → IsQueue s xs
      → t ≢ null
      → NotIn t xs
      → length xs < 10
      → length xs < fuel
      → (y == t) ≡ false
      → s.tasks.ctx_sp y ≡ s.task_stack + length xs * 1024 + 1023
      → task_create fuel s t task param priority timeslice ≡ some (0, s')
      → s'.tasks.ctx_sp t ≡ s'.tasks.ctx_sp y
  task_create-shares_stack y s' q nz out room enough ne e r =
      let c = task_create-Created q nz out room enough in
      let same : c.after ≡ s' = cc (c.result) in rw (← same) (c.stack ∙ sym e ∙ sym (c.others y ne))
