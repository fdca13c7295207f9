-- ===== src/Run/Switch.antt =====
-- A software interrupt keeps the running kernel in order.
use xin_os.Base.{
  ℕ, ◌<◌, ◌≡◌, ◌≢◌, ◌⊎◌, refl, ap, sym, ◌∙◌, subst, Option, some, List, [], ◌∷◌, ◌++◌, Bool-cases,
  inl, inr, Ptr, null, length, signed_ltb, All,
}
use xin_os.Hart.{Hart}
use xin_os.Chain.{take_while, drop_while, take-append-drop}
use xin_os.Chain.Order.{insert_sorted}
use xin_os.Chain.Wait.{Among}
use xin_os.Chain.Member.{Among-turned, Among-back, Among-new, All-Among, All-of_Among}
use xin_os.Task.{Sched, Control, task_at, kernel, schedule, back_os, is_sleeping, TaskState}
use xin_os.Task.Insert.{IsQueue}
use xin_os.Task.Pop.{asleep, aged_rank, pop_task-asleep}
use xin_os.Task.Ready.{schedule-Turn}
use xin_os.Task.Number.{IsNumbered}
use xin_os.Trap.{Machine, with_sched, software_interrupt_handler}
use xin_os.Run.Sleepers.{Sleepers, Sleepers-lists}
use xin_os.Run.{Event, switch, tick, sleep, exit, create, start_timer, stop_timer}
use xin_os.Run.State.{IsLive}

-- The timer that an event takes away on its own account.
abbrev pub Stops : Event → Ptr → Type 0
Stops (stop_timer timer) u = timer ≡ u
Stops switch u = ⊥
Stops tick u = ⊥
Stops (sleep timer ticks) u = ⊥
Stops exit u = ⊥
Stops (create new_task task param priority timeslice) u = ⊥
Stops (start_timer timer func args timeout) u = ⊥

-- What comes of an event, in order again. The timers of the list have the functions that they had, and
-- those with a function stay, but for one that is stopped.
pub record Lives (e : Event) (m : Machine) (before : Control) (h : IsLive m before)
    (r : Option (Machine × Control)) : Type 0 where
  pub after : Machine
  pub running : Control
  pub result : r ≡ some (after, running)
  pub live : IsLive after running
  pub funcs : (u : Ptr) → Among u h.timers → after.timers.info.func u ≡ m.timers.info.func u
  pub kept :
      (u : Ptr) → Among u h.timers → m.timers.info.func u ≢ null → Stops e u ⊎ Among u live.timers

-- The numbers do not depend on the current task, the states and the hart.
pub IsNumbered-states :
    (s : Sched) (cur : Ptr) (state : Ptr → TaskState) (hart : Hart) (xs : List Ptr)
    → IsNumbered s xs
    → (let t = s.tasks in
        IsNumbered
          (record s { cur_task = cur; tasks = record t { state = state }; hart = hart })
          xs)
IsNumbered-states s cur state hart xs h =
    let q = h.ready.queue in
    record {
      ready = record {
        queue = record { chain = q.chain; distinct = q.distinct; count = q.count; few = q.few };
        ids = h.ready.ids;
        sorted = h.ready.sorted;
      };
      fresh = h.fresh;
    }

pub IsNumbered-frame :
    (s : Sched) (cur : Ptr) (hart : Hart) (xs : List Ptr)
    → IsNumbered s xs
    → IsNumbered (record s { cur_task = cur; hart = hart }) xs
IsNumbered-frame s cur = IsNumbered-states s cur s.tasks.state

-- With no task awake the kernel runs, and nothing but the current task and the hart changes.
schedule_idle :
    (fuel : ℕ) (s : Sched) (xs : List Ptr)
    → IsQueue s xs
    → length xs < fuel
    → drop_while (asleep s) xs ≡ []
    → (cur : Ptr) × (hart : Hart) × (schedule fuel s
        ≡ some (record s { cur_task = cur; hart = hart }, kernel))
unfolding schedule back_os
schedule_idle fuel s xs q enough none_awake = elim (Bool-cases (signed_ltb 0 s.tasks_num)) [
  | inl g ↦ (
    null,
    (back_os s).0.hart,
    rw (schedule, g, pop_task-asleep fuel s xs q enough none_awake) refl,
  )
  | inr g ↦ (s.cur_task, (back_os s).0.hart, rw (schedule, g) refl)
]

module _ (fuel : ℕ) (m : Machine) (running : Control) (h : IsLive m running)
    (enough : length h.tasks < fuel) where
  abbrev old : Sched
  old = m.timers.sched

  abbrev acknowledged : Sched
  acknowledged = let hart = old.hart in record old { hart = record hart { msip = 0 } }

  abbrev IsOld : Ptr → Type 0
  IsOld y = old.tasks.task_id y < old.next_task_id

  numbered1 : IsNumbered acknowledged h.tasks
  numbered1 =
      let hart = old.hart in
      IsNumbered-frame old old.cur_task (record hart { msip = 0 }) h.tasks h.numbered

  switch_idle :
      drop_while (asleep old) h.tasks ≡ []
      → Lives switch m running h (software_interrupt_handler fuel m)
  unfolding software_interrupt_handler
  switch_idle e =
      let (cur, hart, r) = schedule_idle fuel acknowledged h.tasks numbered1.ready.queue enough e in
      record {
        after = with_sched m (record acknowledged { cur_task = cur; hart = hart });
        running = kernel;
        result = rw (software_interrupt_handler, r) refl;
        live = record {
          tasks = h.tasks;
          timers = h.timers;
          numbered = IsNumbered-frame acknowledged cur hart h.tasks numbered1;
          list = record { chain = h.list.chain; distinct = h.list.distinct };
          ordered = h.ordered;
          sleepers = h.sleepers;
          runs = tt;
        };
        funcs = λ u i. refl;
        kept = λ u i real. inr i;
      }

  switch_task :
      (p : Ptr) (zs : List Ptr)
      → drop_while (asleep old) h.tasks ≡ p ∷ zs
      → Lives switch m running h (software_interrupt_handler fuel m)
  unfolding software_interrupt_handler
  switch_task p zs e =
      let t = schedule-Turn fuel acknowledged p h.tasks zs numbered1.ready enough e in
      let ys = take_while (asleep old) h.tasks in
      let key = aged_rank acknowledged p in
      let new = insert_sorted key p (ys ++ zs) in
      let split : h.tasks ≡ ys ++ p ∷ zs =
        sym (take-append-drop (asleep old) h.tasks) ∙ ap (λ l. ys ++ l) e in
      record {
        after = with_sched m t.after;
        running = task_at p;
        result = rw (software_interrupt_handler, t.result) refl;
        live = record {
          tasks = new;
          timers = h.timers;
          numbered = record {
            ready = t.ready;
            fresh =
                subst (λ (id : Ptr → ℕ). All (λ y. id y < t.after.next_task_id) new) (sym t.ids)
                  (subst (λ n. All (λ y. old.tasks.task_id y < n) new) (sym t.numbers)
                    (All-of_Among IsOld new (λ q i.
                      All-Among IsOld q (ys ++ p ∷ zs) (subst (All IsOld) split h.numbered.fresh)
                        (Among-back key q p ys zs i))));
          };
          list = record { chain = h.list.chain; distinct = h.list.distinct };
          ordered = h.ordered;
          sleepers =
              subst
                (λ (st : Ptr → TaskState).
                  Sleepers m.timers.info.func m.timers.info.task (λ x. is_sleeping (st x)) new
                    h.timers)
                (sym t.states)
                (Sleepers-lists m.timers.info.func m.timers.info.task (asleep old) h.tasks h.timers
                  h.sleepers new h.timers
                  (λ x s i. Among-turned key x p ys zs (subst (Among x) split i))
                  (λ x s i. subst (Among x) (sym split) (Among-back key x p ys zs i)) (λ x s i. i)
                  (λ x s i. i));
          runs = (
            t.current,
            Among-new key p (ys ++ zs),
            ap (λ (st : Ptr → TaskState). is_sleeping (st p)) t.states ∙ t.awake,
          );
        };
        funcs = λ u i. refl;
        kept = λ u i real. inr i;
      }

  -- A software interrupt succeeds.
  pub software-Lives : Lives switch m running h (software_interrupt_handler fuel m)
  software-Lives = go (drop_while (asleep old) h.tasks) refl
    where
      go :
          (l : List Ptr)
          → drop_while (asleep old) h.tasks ≡ l
          → Lives switch m running h (software_interrupt_handler fuel m)
      go [] e = switch_idle e
      go (p ∷ zs) e = switch_task p zs e
