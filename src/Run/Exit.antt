-- ===== src/Run/Exit.antt =====
-- A task that exits leaves the running kernel in order.
use xin_os.Base.{
  ℕ, ◌<◌, ◌≡◌, ap, sym, ◌∙◌, subst, true, false, List, ◌∷◌, ◌++◌, arith, inl, inr, Ptr, length,
  length-append,
}
use xin_os.Chain.Wait.{Among}
use xin_os.Chain.Member.{Among-split, Among-middle, Among-place}
use xin_os.Task.{Sched, task_at, kernel, is_sleeping, TaskState, task_exit}
use xin_os.Task.Exit.{Exited}
use xin_os.Task.Pop.{asleep}
use xin_os.Task.Number.{IsNumbered, task_exit-IsNumbered}
use xin_os.Trap.{Machine, with_sched}
use xin_os.Run.{happen, exit}
use xin_os.Run.Sleepers.{Sleepers, Sleepers-lists}
use xin_os.Run.State.{IsLive}
use xin_os.Run.Switch.{Lives, software-Lives}

module _ (fuel : ℕ) (m : Machine) (p : Ptr) (h : IsLive m (task_at p)) where
  abbrev c : Sched
  c = m.timers.sched

  -- The task is gone, and its end asks for a software interrupt.
  module _ (ys zs : List Ptr) (split : h.tasks ≡ ys ++ c.cur_task ∷ zs)
      (few : length h.tasks < fuel) where
    gone : (x : Exited c ys zs (task_exit fuel c)) × IsNumbered x.after (ys ++ zs)
    gone =
        task_exit-IsNumbered fuel c ys zs (subst (IsNumbered c) split h.numbered)
          (subst (λ l. length l < fuel) split few)

    abbrev left : Exited c ys zs (task_exit fuel c)
    left = gone.0

    stays : (x : Ptr) → asleep c x ≡ true → Among x (ys ++ c.cur_task ∷ zs) → Among x (ys ++ zs)
    stays x s i = elim (Among-split x c.cur_task ys zs i) [
      | inl e ↦
          (let b : true ≡ false = sym s ∙ ap (asleep c) (sym e ∙ h.runs.0) ∙ h.runs.2 in absurd cc)
      | inr i' ↦ i'
    ]

    IsLive-exit : IsLive (with_sched m left.after) kernel
    IsLive-exit = record {
      tasks = ys ++ zs;
      timers = h.timers;
      numbered = gone.1;
      list = record { chain = h.list.chain; distinct = h.list.distinct };
      ordered = h.ordered;
      sleepers =
          subst
            (λ (st : Ptr → TaskState).
              Sleepers m.timers.info.func m.timers.info.task (λ x. is_sleeping (st x)) (ys ++ zs)
                h.timers)
            (sym left.states)
            (Sleepers-lists m.timers.info.func m.timers.info.task (asleep c) h.tasks h.timers
              h.sleepers (ys ++ zs) h.timers (λ x s i. stays x s (subst (Among x) split i))
              (λ x s i. subst (Among x) (sym split) (Among-middle x c.cur_task ys zs i))
              (λ x s i. i) (λ x s i. i));
      runs = tt;
    }

    exit_at : Lives exit m (task_at p) h (happen fuel exit m (task_at p))
    unfolding happen IsLive-exit
    exit_at =
        let l = software-Lives fuel (with_sched m left.after) kernel IsLive-exit (
          omega (
            arith,
            few,
            ap length split,
            length-append ys (c.cur_task ∷ zs),
            length-append ys zs,
          )) in
        record {
          after = l.after;
          running = l.running;
          result = rw (happen, left.result) l.result;
          live = l.live;
          funcs = l.funcs;
          kept = l.kept;
        }

  pub exit-Lives :
      length h.tasks < fuel → Lives exit m (task_at p) h (happen fuel exit m (task_at p))
  exit-Lives few =
      let (ys, zs, split) =
        Among-place c.cur_task h.tasks (subst (λ z. Among z h.tasks) (sym h.runs.0) h.runs.1) in
      exit_at ys zs split few
