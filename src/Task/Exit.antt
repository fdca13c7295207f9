-- ===== src/Task/Exit.antt =====
-- `task_exit` of os/sched.c takes the current task, and no other, out of the list.
use xin_os.Base.{
  ℕ, ◌+◌, ◌<◌, ◌≡◌, ◌≢◌, refl, ap, Bool, true, false, not, Option, some, List, [], ◌∷◌, ◌++◌, arith,
  ◌==◌, Ptr, null, u32, length, length-append,
}
use xin_os.Chain.{Chain, walk, walk_lem, take_while, drop_while, last_or}
use xin_os.Chain.Edit.{Chain-unlink}
use xin_os.Chain.Order.{Distinct-remove}
use xin_os.Task.{Sched, minus_one, task_exit, task_yield, with_next}
use xin_os.Task.Insert.{IsQueue}
use xin_os.Task.Cut.{DistinctIds}

-- The list without the task, the request for a software interrupt, and the tasks' other fields.
pub record Exited (s : Sched) (ys zs : List Ptr) (r : Option Sched) : Type 0 where
  pub after : Sched
  pub result : r ≡ some after
  pub queue : IsQueue after (ys ++ zs)
  pub asks : after.hart.msip ≡ 1
  pub priorities : after.tasks.priority ≡ s.tasks.priority
  pub states : after.tasks.state ≡ s.tasks.state
  pub ids : after.tasks.task_id ≡ s.tasks.task_id
  pub numbers : after.next_task_id ≡ s.next_task_id

abbrev other_id : Sched → Ptr → Ptr → Bool
other_id s c p = not (s.tasks.task_id p == s.tasks.task_id c)

module _ (s : Sched) (c : Ptr) (zs : List Ptr) where
  id_ne :
      (x : Ptr) (ys : List Ptr)
      → DistinctIds s.tasks.task_id (x ∷ ys ++ c ∷ zs)
      → s.tasks.task_id c ≢ s.tasks.task_id x
  id_ne x [] d = d.0.0
  id_ne x (y ∷ ys) d = id_ne x ys (d.0.1, d.1.1)

  before :
      (ys : List Ptr)
      → DistinctIds s.tasks.task_id (ys ++ c ∷ zs)
      → (take_while (other_id s c) (ys ++ c ∷ zs) ≡ ys)
        × (drop_while (other_id s c) (ys ++ c ∷ zs) ≡ c ∷ zs)
  before [] d =
      let e : (s.tasks.task_id c == s.tasks.task_id c) ≡ true = ground arith in rw e (refl, refl)
  before (y ∷ ys) d =
      let e : (s.tasks.task_id y == s.tasks.task_id c) ≡ false = ground (arith, id_ne y ys d) in
      let r = before ys d.1 in rw e (ap (λ l. y ∷ l) r.0, r.1)

  Chain-middle :
      (next : Ptr → Ptr) (a : Ptr) (ys : List Ptr) → Chain next a (ys ++ c ∷ zs) → c ≢ null
  Chain-middle next a [] h = h.1
  Chain-middle next a (y ∷ ys) h = Chain-middle next (next y) ys h.2

-- `task_exit` with the current task anywhere in the list unlinks that task, counts it off and asks
-- for a software interrupt; the other tasks keep their order.
pub task_exit-Exited :
    (fuel : ℕ) (s : Sched) (ys zs : List Ptr)
    → IsQueue s (ys ++ s.cur_task ∷ zs)
    → DistinctIds s.tasks.task_id (ys ++ s.cur_task ∷ zs)
    → length (ys ++ s.cur_task ∷ zs) < fuel
    → Exited s ys zs (task_exit fuel s)
unfolding task_exit task_yield
task_exit-Exited fuel s [] zs q ids enough =
    let g : (s.cur_task == null) ≡ false = ground (arith, q.chain.1) in
    let i : (s.tasks.task_id s.cur_task == s.tasks.task_id s.first_task) ≡ true =
      rw q.chain.0 (ground arith) in
    let h = s.hart in
    record {
      after = record s {
        first_task = s.tasks.next s.first_task;
        tasks_num = u32 (s.tasks_num + minus_one);
        hart = record h { msip = 1 };
      };
      result = rw (g, i);
      queue = record {
        chain = rw q.chain.0 q.chain.2;
        distinct = q.distinct.1;
        count = omega (arith, q.count, q.few);
        few = omega (arith, q.few);
      };
      asks = refl;
      priorities = refl;
      states = refl;
      ids = refl;
      numbers = refl;
    }
task_exit-Exited fuel s (x ∷ ys) zs q ids enough =
    let c = s.cur_task in
    let g : (c == null) ≡ false =
      ground (arith, Chain-middle s c zs s.tasks.next s.first_task (x ∷ ys) q.chain) in
    let i : (s.tasks.task_id c == s.tasks.task_id s.first_task) ≡ false =
      rw q.chain.0 (ground (arith, id_ne s c zs x ys ids)) in
    let r = before s c zs (x ∷ ys) ids in
    let w : walk (other_id s c) s.tasks.next fuel s.first_task s.first_task
        ≡ some (last_or x ys, c) =
      rw (r.0, r.1) at
        (walk_lem (other_id s c) s.tasks.next fuel s.first_task s.first_task (x ∷ ys ++ c ∷ zs)
          q.chain enough) in
    let l1 = length-append ys (c ∷ zs) in
    let l2 = length-append ys zs in
    let h = s.hart in
    let s1 = with_next s (last_or x ys) (s.tasks.next c) in
    record {
      after = record s1 { tasks_num = u32 (s.tasks_num + minus_one); hart = record h { msip = 1 } };
      result = rw (g, i, w);
      queue = record {
        chain = Chain-unlink s.tasks.next c s.first_task x ys zs q.chain q.distinct;
        distinct = (Distinct-remove c (x ∷ ys) zs q.distinct).0;
        count = omega (arith, q.count, q.few, l1, l2);
        few = omega (arith, q.few, l1, l2);
      };
      asks = refl;
      priorities = refl;
      states = refl;
      ids = refl;
      numbers = refl;
    }
