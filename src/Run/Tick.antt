-- ===== src/Run/Tick.antt =====
-- A timer interrupt keeps the running kernel in order, and calls no function through NULL.
use xin_os.Base.{
  ℕ, ◌+◌, ◌^◌, ◌-◌, ◌≤◌, ◌<◌, ◌≡◌, ◌≢◌, refl, ap, sym, ◌∙◌, subst, true, List, ◌∷◌, ◌++◌, arith,
  ◌==◌, leb, Bool-cases, ◌⊎◌, inl, inr, Ptr, null, length, length-append, u64, update, update_self,
  update_ne, All,
}
use xin_os.Hart.{Hart}
use xin_os.Chain.{Distinct}
use xin_os.Chain.Order.{IsSorted, IsSorted-remove, Distinct-remove}
use xin_os.Chain.Wait.{Among}
use xin_os.Chain.Member.{Among-split, Among-middle, Among-Chain}
use xin_os.Task.{
  Sched, Control, returned, task_at, kernel, back_os, is_sleeping, TaskState, runnable,
}
use xin_os.Task.Pop.{asleep}
use xin_os.Task.Number.{IsNumbered}
use xin_os.Timer.{
  Timers, CheckResult, wake, nobody, unfinished, check_end, timer_handler, ticked, preempt, reload,
  timer_load, Tick,
}
use xin_os.Timer.Insert.{IsTimerList}
use xin_os.Timer.Check.{is_due, is_sleep, check_all, timer_check-check_all}
use xin_os.Timer.Handler.{next_tick, Woke, timer_handler-Woke}
use xin_os.Trap.{Machine}
use xin_os.Run.{resume}
use xin_os.Run.Sleepers.{Sleepers, Sleepers-wake}
use xin_os.Run.State.{Runs, IsLive}
use xin_os.Run.Switch.{IsNumbered-states, IsNumbered-frame}
use xin_os.Run.Checks.{Calls, Calls-due, IsReal, Sound, check_all-Sound, finds_sleeper}

-- A timer interrupt that comes through, with real calls only, and the kernel in order behind it. The
-- clock goes on, no timer is added, and one goes when a timer of a sleeping task has run out.
pub record TickLives (m : Machine) (running : Control) (h : IsLive m running) (r : Tick)
    : Type 0 where
  pub after : Timers
  pub to : Control
  pub calls : List (ℕ × ℕ)
  pub result : r ≡ ticked after to calls
  pub real : All IsReal calls
  pub live : IsLive (record m { timers = after }) (resume running to)
  pub clock : after.ticks ≡ u64 (m.timers.ticks + 1)
  pub timeouts : after.info.timeout ≡ m.timers.info.timeout
  pub funcs : after.info.func ≡ m.timers.info.func
  pub owners : after.info.task ≡ m.timers.info.task
  pub same_tasks : live.tasks ≡ h.tasks
  pub fewer : (u : Ptr) → Among u live.timers → Among u h.timers
  pub stays : (u : Ptr) → Among u h.timers → m.timers.info.func u ≢ null → Among u live.timers
  pub shorter : length live.timers ≤ length h.timers
  pub rang :
      (t : Ptr)
      → Among t h.timers
      → is_due (next_tick m.timers) t ≡ true
      → m.timers.info.func t ≢ null
      → Calls (m.timers.info.func t, m.timers.info.args t) calls
        ⊎ (length live.timers < length h.timers)
  pub served :
      (t : Ptr)
      → Among t h.timers
      → is_due (next_tick m.timers) t ≡ true
      → m.timers.info.func t ≡ null
      → length live.timers < length h.timers

-- The end of the interrupt changes the hart and the start of the time slice.
preempt_cases :
    (s : Timers) (calls : List (ℕ × ℕ))
    → (start : ℕ) × (hart : Hart) × (to : Control) × (preempt s calls
        ≡ ticked
            (let c = s.sched in
              record s { cur_task_start_tick = start; sched = record c { hart = hart } })
            to
            calls)
      × ((to ≡ kernel) ⊎ (to ≡ returned))
unfolding preempt timer_load back_os
preempt_cases s calls =
    let r = reload s in
    elim (Bool-cases (s.sched.cur_task == null)) [
      | inl e ↦
          (s.cur_task_start_tick, (back_os r.sched).0.hart, kernel, rw (preempt, e) refl, inl refl)
      | inr e ↦
          elim (Bool-cases (
            leb (s.sched.tasks.timeslice s.sched.cur_task)
              (u64 (s.ticks + 2 ^ 64 - s.cur_task_start_tick)))) [
                | inl g ↦
                    (s.ticks, (back_os r.sched).0.hart, kernel, rw (preempt, e, g) refl, inl refl)
                | inr g ↦ (
                  s.cur_task_start_tick,
                  r.sched.hart,
                  returned,
                  rw (preempt, e, g) refl,
                  inr refl,
                )
              ]
    ]

Runs-hart :
    (c : Sched) (hart : Hart) (tasks : List Ptr) (running : Control)
    → Runs c tasks running
    → Runs (record c { hart = hart }) tasks running
Runs-hart c hart tasks (task_at p) h = h
Runs-hart c hart tasks returned h = tt
Runs-hart c hart tasks kernel h = tt

Runs-resume :
    (c : Sched) (tasks : List Ptr) (running to : Control)
    → (to ≡ kernel) ⊎ (to ≡ returned)
    → Runs c tasks running
    → Runs c tasks (resume running to)
Runs-resume c tasks running to (inl e) h =
    subst (λ (r : Control). Runs c tasks (resume running r)) (sym e) tt
Runs-resume c tasks running to (inr e) h =
    subst (λ (r : Control). Runs c tasks (resume running r)) (sym e) h

module _ (fuel : ℕ) (m : Machine) (running : Control) (h : IsLive m running)
    (enough : length h.timers < fuel) where
  abbrev now : Timers
  now = next_tick m.timers

  checks : Sound now h.timers (check_all now h.timers)
  checks = check_all-Sound now h.timers (λ t i e. (h.sleepers.owned t i e).1)

  sleeps_now : (t : Ptr) → Among t h.timers → m.timers.info.func t ≡ null → is_sleep now t ≡ true
  sleeps_now t i silent = let o = h.sleepers.owned t i silent in ground (arith, o.1, silent)

  tick_nobody :
      (calls : List (ℕ × ℕ))
      → check_all now h.timers ≡ nobody calls
      → All IsReal calls
      → TickLives m running h (timer_handler fuel m.timers)
  unfolding timer_handler check_end
  tick_nobody calls e real =
      let q1 : IsTimerList now h.timers = record {
        chain = h.list.chain;
        distinct = h.list.distinct;
      } in
      let c =
        timer_check-check_all fuel now h.timers q1 h.ordered enough ∙ ap (check_end fuel now) e in
      let s = m.timers.sched in
      let (start, hart, to, r, cases) = preempt_cases now calls in
      record {
        after = record now { cur_task_start_tick = start; sched = record s { hart = hart } };
        to = to;
        calls = calls;
        result = rw (timer_handler, c, r) refl;
        real = real;
        live = record {
          tasks = h.tasks;
          timers = h.timers;
          numbered = IsNumbered-frame s s.cur_task hart h.tasks h.numbered;
          list = record { chain = h.list.chain; distinct = h.list.distinct };
          ordered = h.ordered;
          sleepers = h.sleepers;
          runs =
              Runs-resume (record s { hart = hart }) h.tasks running to cases
                (Runs-hart s hart h.tasks running h.runs);
        };
        clock = refl;
        timeouts = refl;
        funcs = refl;
        owners = refl;
        same_tasks = refl;
        fewer = λ u i. i;
        stays = λ u i loud. i;
        shorter = omega arith;
        rang = λ t i due loud. inl (Calls-due now h.timers t calls i due (ground (arith, loud)) e);
        served = λ t i due silent.
            absurd (finds_sleeper now h.timers t calls i due (sleeps_now t i silent) e);
      }

  module _ (calls : List (ℕ × ℕ)) (task timer : Ptr)
      (e : check_all now h.timers ≡ wake calls task timer) (real : All IsReal calls)
      (here : Among timer h.timers) (whose : task ≡ m.timers.info.task timer)
      (silent : m.timers.info.func timer ≡ null) where
    abbrev state : Ptr → TaskState
    state = update m.timers.sched.tasks.state task runnable

    task_ne : task ≢ null
    task_ne = λ z.
        Among-Chain m.timers.sched.tasks.next m.timers.sched.first_task (m.timers.info.task timer)
          h.tasks h.numbered.ready.queue.chain (h.sleepers.owned timer here silent).0
          (sym whose ∙ z)

    woke : Woke m.timers calls task timer h.timers (timer_handler fuel m.timers)
    woke =
        timer_handler-Woke fuel m.timers calls task timer h.timers h.list h.ordered enough e task_ne

    Sleepers-awake :
        (ys zs : List Ptr)
        → h.timers ≡ ys ++ timer ∷ zs
        → Sleepers m.timers.info.func m.timers.info.task
            (λ x. is_sleeping (state x))
            h.tasks
            (ys ++ zs)
    Sleepers-awake ys zs split =
        let st = m.timers.sched.tasks.state in
        Sleepers-wake m.timers.info.func m.timers.info.task (asleep m.timers.sched) h.tasks h.timers
          h.sleepers timer (ys ++ zs) (λ x. is_sleeping (state x)) here silent
          (ap (λ p. is_sleeping (state p)) (sym whose)
            ∙ ap is_sleeping (update_self st task runnable))
          (λ x ne. ap is_sleeping (update_ne st task x runnable (ap (λ p. x == p) whose ∙ ne)))
          (Distinct-remove timer ys zs (subst Distinct split h.list.distinct)).1
          (λ u i. subst (Among u) (sym split) (Among-middle u timer ys zs i))
          (λ u i. Among-split u timer ys zs (subst (Among u) split i))

    shrinks :
        (w : Woke m.timers calls task timer h.timers (timer_handler fuel m.timers))
        → length (w.before_it ++ w.behind_it) < length h.timers
    shrinks w = omega (
      arith,
      ap length w.split,
      length-append w.before_it w.behind_it,
      length-append w.before_it (timer ∷ w.behind_it),
    )

    tick_wake : TickLives m running h (timer_handler fuel m.timers)
    tick_wake =
        let w = woke in
        let a = w.after in
        let l = w.before_it ++ w.behind_it in
        record {
          after = a;
          to = kernel;
          calls = calls;
          result = w.result;
          real = real;
          live = record {
            tasks = h.tasks;
            timers = l;
            numbered =
                subst (λ (c : Sched). IsNumbered c h.tasks) (sym w.keeps)
                  (IsNumbered-states m.timers.sched task state w.hart h.tasks h.numbered);
            list = w.timers;
            ordered =
                subst (λ (key : Ptr → ℕ). IsSorted key l) (sym w.timeouts)
                  (IsSorted-remove m.timers.info.timeout timer w.before_it w.behind_it
                    (subst (IsSorted m.timers.info.timeout) w.split h.ordered));
            sleepers =
                subst (λ (f : Ptr → ℕ). Sleepers f a.info.task (asleep a.sched) h.tasks l)
                  (sym w.funcs)
                  (subst (λ (o : Ptr → ℕ). Sleepers m.timers.info.func o (asleep a.sched) h.tasks l)
                    (sym w.owners)
                    (subst
                      (λ (c : Sched).
                        Sleepers m.timers.info.func m.timers.info.task (asleep c) h.tasks l)
                      (sym w.keeps) (Sleepers-awake w.before_it w.behind_it w.split)));
            runs = tt;
          };
          clock = w.clock;
          timeouts = w.timeouts;
          funcs = w.funcs;
          owners = w.owners;
          same_tasks = refl;
          fewer =
              λ u i. subst (Among u) (sym w.split) (Among-middle u timer w.before_it w.behind_it i);
          stays = λ u i loud.
              elim (Among-split u timer w.before_it w.behind_it (subst (Among u) w.split i)) [
                | inl e ↦ absurd (loud (ap m.timers.info.func (sym e) ∙ silent))
                | inr i' ↦ i'
              ];
          shorter = omega (arith, shrinks w);
          rang = λ t i due loud. inr (shrinks w);
          served = λ t i due quiet. shrinks w;
        }

  -- When the kernel is in order, a timer interrupt comes through: it reads through no NULL, each
  -- function that it calls is a real one, and the kernel is in order again.
  pub timer_handler-TickLives : TickLives m running h (timer_handler fuel m.timers)
  timer_handler-TickLives = go (check_all now h.timers) refl checks
    where
      go :
          (r : CheckResult)
          → check_all now h.timers ≡ r
          → Sound now h.timers r
          → TickLives m running h (timer_handler fuel m.timers)
      go (wake calls task timer) e s = tick_wake calls task timer e s.0 s.1 s.2 s.3
      go (nobody calls) e s = tick_nobody calls e s
      go unfinished e s = absurd s
