-- ===== src/Trap/Switch.antt =====
-- A software interrupt of os/trap.c changes the task.
use xin_os.Base.{
  ℕ, ◌+◌, ◌^◌, ◌<◌, ◌≡◌, ◌≢◌, refl, ap, ◌∙◌, true, false, List, [], ◌∷◌, ◌++◌, arith, ◌==◌, Ptr,
  null, length, signed_ltb,
}
use xin_os.Hart.{Hart}
use xin_os.Chain.{take_while, drop_while}
use xin_os.Chain.Order.{insert_sorted}
use xin_os.Task.{Sched, task_at, schedule}
use xin_os.Task.Insert.{IsQueue}
use xin_os.Task.Cut.{DistinctIds}
use xin_os.Task.Pop.{asleep, aged_rank, pop_task-Popped}
use xin_os.Trap.{
  Machine, Context, interrupt, trap_handler, software_interrupt_handler, Trapped, resumed,
  with_sched,
}
use xin_os.Trap.Dispatch.{trap_handler_dispatch}

-- The task `p` runs and is current, the queue holds the same tasks with `p` moved back, and the
-- interrupt is acknowledged.
pub record Switched (epc : ℕ) (ctx : Context) (m : Machine) (p : Ptr) (rest : List Ptr)
    (r : Trapped) : Type 0 where
  pub after : Machine
  pub result : r ≡ resumed epc (task_at p) ctx after
  pub current : after.timers.sched.cur_task ≡ p
  pub queue : IsQueue after.timers.sched (insert_sorted (aged_rank m.timers.sched p) p rest)
  pub states : after.timers.sched.tasks.state ≡ m.timers.sched.tasks.state
  pub acknowledged : after.timers.sched.hart.msip ≡ 0

some_task :
    (s : Sched) (p : Ptr) (xs zs : List Ptr)
    → IsQueue s xs
    → drop_while (asleep s) xs ≡ p ∷ zs
    → signed_ltb 0 s.tasks_num ≡ true
some_task s p [] zs q e = absurd cc
some_task s p (x ∷ xs) zs q e = ground (arith, q.count, q.few)

-- When the queue's tasks have different numbers and some task is awake, a software interrupt is
-- acknowledged and switches to the first awake task, which becomes current and goes back into the
-- queue by its aged priority; no task's state changes.
pub trap_handler_switch :
    (fuel : ℕ) (timer : Ptr) (epc : ℕ) (ctx : Context) (m : Machine) (p : Ptr) (xs zs : List Ptr)
    → IsQueue m.timers.sched xs
    → DistinctIds m.timers.sched.tasks.task_id xs
    → length xs < fuel
    → p ≢ null
    → drop_while (asleep m.timers.sched) xs ≡ p ∷ zs
    → Switched epc ctx m p
        (take_while (asleep m.timers.sched) xs ++ zs)
        (trap_handler fuel timer epc (2 ^ 63 + 3) ctx m)
unfolding interrupt software_interrupt_handler schedule
trap_handler_switch fuel timer epc ctx m p xs zs q ids enough nz e =
    let c = m.timers.sched in
    let h = c.hart in
    let s1 : Sched = record c { hart = record h { msip = 0 } } in
    let q1 : IsQueue s1 xs = record {
      chain = q.chain;
      distinct = q.distinct;
      count = q.count;
      few = q.few;
    } in
    let k = pop_task-Popped fuel s1 p xs zs q1 ids enough e in
    let k_after = k.after in
    let g = some_task s1 p xs zs q1 e in
    let g' : (p == null) ≡ false = ground (arith, nz) in
    let d = (trap_handler_dispatch fuel timer epc 3 ctx m (omega arith)).0 in
    record {
      after = with_sched m (record k_after { cur_task = p });
      result = d ∙ rw (interrupt, software_interrupt_handler, schedule, g, k.result, g') refl;
      current = refl;
      queue = record {
        chain = k.queue.chain;
        distinct = k.queue.distinct;
        count = k.queue.count;
        few = k.queue.few;
      };
      states = k.states;
      acknowledged = ap (λ (z : Hart). z.msip) k.hart;
    }
