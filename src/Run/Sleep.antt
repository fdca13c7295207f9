-- ===== src/Run/Sleep.antt =====
-- A task that sleeps leaves the running kernel in order.
use xin_os.Base.{
  ℕ, ◌<◌, ◌≡◌, ap, sym, ◌∙◌, subst, Ptr, null, length, update, update_self, update_ne,
}
use xin_os.Chain.Member.{NotIn-other}
use xin_os.Chain.{NotIn}
use xin_os.Chain.Wait.{Among}
use xin_os.Task.{Sched, task_at, kernel, is_sleeping, TaskState, sleeping, task_yield}
use xin_os.Task.Pop.{asleep}
use xin_os.Task.Number.{IsNumbered}
use xin_os.Timer.{Timers, timer_create, task_delay}
use xin_os.Timer.Insert.{TimerCreated, timer_create-TimerCreated}
use xin_os.Trap.{Machine}
use xin_os.Run.{happen, sleep}
use xin_os.Run.Sleepers.{Sleepers, Sleepers-sleep}
use xin_os.Run.State.{IsLive, NewTimer}
use xin_os.Run.Switch.{Lives, IsNumbered-states, software-Lives}
use xin_os.Run.Timers.{created_members}

module _ (fuel : ℕ) (m : Machine) (p : Ptr) (h : IsLive m (task_at p)) where
  abbrev pub c : Sched
  c = m.timers.sched

  -- The task sleeps, and its timer is in the list.
  abbrev pub state : Ptr → TaskState
  state = update c.tasks.state c.cur_task sleeping

  abbrev pub laid_down : Timers
  laid_down =
      let t = c.tasks in
      let s = m.timers in record s { sched = record c { tasks = record t { state = state } } }

  abbrev rests : Sched
  rests =
      let t = c.tasks in
      let hart = c.hart in
      record c { tasks = record t { state = state }; hart = record hart { msip = 1 } }

  module _ (timer ticks : ℕ) (new : NewTimer m timer) (enough : length h.timers < fuel) where
    out : NotIn timer h.timers
    out = new.1 h.timers h.list

    pub made :
        TimerCreated laid_down timer null null ticks h.timers
          (timer_create fuel laid_down timer null null ticks)
    made =
        timer_create-TimerCreated fuel laid_down timer null null ticks h.timers new.0
          (record { chain = h.list.chain; distinct = h.list.distinct }) h.ordered out enough

    abbrev pub after_delay : Timers
    after_delay = let k = made.after in record k { sched = task_yield made.after.sched }

    yielded : task_yield made.after.sched ≡ rests
    unfolding task_yield
    yielded = ap task_yield made.sched

    Sleepers-delay :
        Sleepers made.after.info.func made.after.info.task
          (asleep (task_yield made.after.sched))
          h.tasks
          made.list
    Sleepers-delay =
        let f = m.timers.info.func in
        let o = m.timers.info.task in
        let cur = c.cur_task in
        let st = c.tasks.state in
        let (here, from, back) = created_members laid_down timer null null ticks h.timers _ made in
        subst
          (λ (g : Ptr → ℕ).
            Sleepers g made.after.info.task (asleep (task_yield made.after.sched)) h.tasks
              made.list)
          (sym made.funcs)
          (subst
            (λ (g : Ptr → ℕ).
              Sleepers (update f timer null) g (asleep (task_yield made.after.sched)) h.tasks
                made.list)
            (sym made.tasks)
            (subst
              (λ (z : Sched).
                Sleepers (update f timer null) (update o timer cur) (asleep z) h.tasks made.list)
              (sym yielded)
              (Sleepers-sleep f o (asleep c) h.tasks h.timers h.sleepers timer cur out made.list
                here from back (λ x. is_sleeping (state x))
                (subst (λ z. Among z h.tasks) (sym h.runs.0) h.runs.1)
                (ap (asleep c) h.runs.0 ∙ h.runs.2) (ap is_sleeping (update_self st cur sleeping))
                (λ x ne. ap is_sleeping (update_ne st cur x sleeping ne)))))

    IsLive-delay : IsLive (record m { timers = after_delay }) kernel
    IsLive-delay = record {
      tasks = h.tasks;
      timers = made.list;
      numbered =
          subst (λ (z : Sched). IsNumbered z h.tasks) (sym yielded)
            (let hart = c.hart in
              IsNumbered-states c c.cur_task state (record hart { msip = 1 }) h.tasks h.numbered);
      list = record { chain = made.timers.chain; distinct = made.timers.distinct };
      ordered = made.ordered;
      sleepers = Sleepers-delay;
      runs = tt;
    }

    pub sleep-Lives :
        length h.tasks < fuel
        → Lives (sleep timer ticks) m (task_at p) h (happen fuel (sleep timer ticks) m (task_at p))
    unfolding happen task_delay IsLive-delay
    sleep-Lives few =
        let (here, from, back) = created_members laid_down timer null null ticks h.timers _ made in
        let l = software-Lives fuel (record m { timers = after_delay }) kernel IsLive-delay few in
        record {
          after = l.after;
          running = l.running;
          result = rw (happen, task_delay, made.result) l.result;
          live = l.live;
          funcs = λ u i.
              l.funcs u (from u i)
              ∙ ap (λ (f : Ptr → ℕ). f u) made.funcs
              ∙ update_ne m.timers.info.func timer u null (NotIn-other timer u h.timers out i);
          kept = λ u i real. l.kept u (from u i) (λ z. real (
              sym (update_ne m.timers.info.func timer u null (NotIn-other timer u h.timers out i))
              ∙ ap (λ (f : Ptr → ℕ). f u) (sym made.funcs)
              ∙ z));
        }
