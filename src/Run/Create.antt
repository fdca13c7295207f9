-- ===== src/Run/Create.antt =====
-- A new task keeps the running kernel in order.
use xin_os.Base.{
  ℕ, ◌^◌, ◌-◌, ◌<◌, ◌≡◌, refl, ap, sym, ◌∙◌, subst, true, false, List, arith, ltb, Bool-cases, ◌⊎◌,
  inl, inr, Ptr, length,
}
use xin_os.Chain.Order.{insert_sorted}
use xin_os.Chain.Wait.{Among}
use xin_os.Chain.Member.{Among-turn, Among-insert_sorted}
use xin_os.Task.{Sched, Control, returned, task_at, kernel, is_sleeping, TaskState}
use xin_os.Task.Create.{rank_with, task_create-full}
use xin_os.Task.Pop.{asleep}
use xin_os.Task.Number.{task_create-IsNumbered}
use xin_os.Trap.{Machine, with_sched}
use xin_os.Run.{happen, create}
use xin_os.Run.Sleepers.{Sleepers, Sleepers-lists}
use xin_os.Run.State.{Runs, IsLive, NewTask}
use xin_os.Run.Switch.{Lives}

Runs-with :
    (c c' : Sched) (xs xs' : List Ptr) (running : Control)
    → c'.cur_task ≡ c.cur_task
    → c'.tasks.state ≡ c.tasks.state
    → ((x : Ptr) → Among x xs → Among x xs')
    → Runs c xs running
    → Runs c' xs' running
Runs-with c c' xs xs' (task_at p) e f i h =
    (e ∙ h.0, i p h.1, ap (λ (st : Ptr → TaskState). is_sleeping (st p)) f ∙ h.2)
Runs-with c c' xs xs' returned e f i h = tt
Runs-with c c' xs xs' kernel e f i h = tt

-- A new task, and a timer more or less, whatever runs.
module _ (fuel : ℕ) (m : Machine) (running : Control) (h : IsLive m running) where
  was_there :
      (key : Ptr → ℕ) (t x : Ptr)
      → asleep m.timers.sched t ≡ false
      → asleep m.timers.sched x ≡ true
      → (t ≡ x) ⊎ Among x h.tasks
      → Among x h.tasks
  was_there key t x awake s (inl e) =
      let b : true ≡ false = sym s ∙ ap (asleep m.timers.sched) (sym e) ∙ awake in absurd cc
  was_there key t x awake s (inr i) = i

  create_room :
      (t task param priority timeslice : ℕ)
      → NewTask m t
      → asleep m.timers.sched t ≡ false
      → m.timers.sched.next_task_id < 2 ^ 32 - 1
      → length h.tasks < 10
      → length h.tasks < fuel
      → Lives
          (create t task param priority timeslice)
          m
          running
          h
          (happen fuel (create t task param priority timeslice) m running)
  unfolding happen
  create_room t task param priority timeslice new awake more room few =
      let old = m.timers.sched in
      let out = new.1 h.tasks h.numbered.ready.queue in
      let (k, n) =
        task_create-IsNumbered fuel old t task param priority timeslice h.tasks h.numbered new.0 out
          room few more in
      let key = rank_with old t priority in
      let tasks = insert_sorted key t h.tasks in
      record {
        after = with_sched m k.after;
        running = running;
        result = rw (happen, k.result) refl;
        live = record {
          tasks = tasks;
          timers = h.timers;
          numbered = n;
          list = record { chain = h.list.chain; distinct = h.list.distinct };
          ordered = h.ordered;
          sleepers =
              subst
                (λ (st : Ptr → TaskState).
                  Sleepers m.timers.info.func m.timers.info.task (λ x. is_sleeping (st x)) tasks
                    h.timers)
                (sym k.states)
                (Sleepers-lists m.timers.info.func m.timers.info.task (asleep old) h.tasks h.timers
                  h.sleepers tasks h.timers (λ x s i. Among-turn key x t h.tasks i)
                  (λ x s i. was_there key t x awake s (Among-insert_sorted key x t h.tasks i))
                  (λ x s i. i) (λ x s i. i));
          runs =
              Runs-with old k.after h.tasks tasks running k.current k.states
                (λ x i. Among-turn key x t h.tasks i) h.runs;
        };
        funcs = λ u i. refl;
        kept = λ u i real. inr i;
      }

  pub create-Lives :
      (t task param priority timeslice : ℕ)
      → NewTask m t
      → asleep m.timers.sched t ≡ false
      → m.timers.sched.next_task_id < 2 ^ 32 - 1
      → length h.tasks < fuel
      → Lives
          (create t task param priority timeslice)
          m
          running
          h
          (happen fuel (create t task param priority timeslice) m running)
  unfolding happen
  create-Lives t task param priority timeslice new awake more few =
      elim (Bool-cases (ltb (length h.tasks) 10)) [
        | inl room ↦ create_room t task param priority timeslice new awake more (ground arith) few
        | inr full ↦
            (let e =
                task_create-full fuel m.timers.sched t task param priority timeslice h.tasks
                  h.numbered.ready.queue (ground arith) in
              record {
                after = m;
                running = running;
                result = rw (happen, e) refl;
                live = h;
                funcs = λ u i. refl;
                kept = λ u i real. inr i;
              })
      ]
