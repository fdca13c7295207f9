-- ===== src/Run/Timers.antt =====
-- A task that starts or stops a timer keeps the running kernel in order.
use xin_os.Base.{
  ℕ, ◌+◌, ◌<◌, ◌≡◌, ◌≢◌, refl, ap, sym, ◌∙◌, subst, Option, List, ◌∷◌, ◌++◌, ◌⊎◌, inl, inr, Ptr,
  null, length, u64, update, update_ne, update_self,
}
use xin_os.Chain.Order.{Distinct-remove, IsSorted, IsSorted-remove}
use xin_os.Chain.{Distinct, NotIn}
use xin_os.Chain.Wait.{Among}
use xin_os.Chain.Member.{
  NotIn-other, Among-split, Among-middle, Among-new, Among-turn, Among-insert_sorted, Among-place,
}
use xin_os.Task.{Sched, Control}
use xin_os.Task.Pop.{asleep}
use xin_os.Task.Number.{IsNumbered}
use xin_os.Timer.{Timers}
use xin_os.Timer.Insert.{IsTimerList, TimerCreated, timer_create-TimerCreated}
use xin_os.Timer.Delete.{timer_delete-TimerDeleted}
use xin_os.Trap.{Machine}
use xin_os.Run.{happen, start_timer, stop_timer}
use xin_os.Run.Sleepers.{Sleepers, Sleepers-lists, Sleepers-start}
use xin_os.Run.State.{Runs, IsLive, NewTimer}
use xin_os.Run.Switch.{Lives}

-- What stands in the list of timers with a new one.
pub created_members :
    (s : Timers) (t func args timeout : ℕ) (ts : List Ptr) (r : Option Timers)
    (k : TimerCreated s t func args timeout ts r)
    → Among t k.list
      × ((u : Ptr) → Among u ts → Among u k.list)
      × ((u : Ptr) → Among u k.list → (t ≡ u) ⊎ Among u ts)
created_members s t func args timeout ts r k =
    let key = update s.info.timeout t (u64 (s.ticks + timeout)) in
    (
      subst (Among t) (sym k.place) (Among-new key t ts),
      (λ u i. subst (Among u) (sym k.place) (Among-turn key u t ts i)),
      (λ u i. Among-insert_sorted key u t ts (subst (Among u) k.place i)),
    )

module _ (fuel : ℕ) (m : Machine) (running : Control) (h : IsLive m running) where
  -- The new timer is in the list, with its function.
  pub start_timer-HasTimer :
      (t func args timeout : ℕ)
      → NewTimer m t
      → func ≢ null
      → length h.timers < fuel
      → (l : Lives
          (start_timer t func args timeout)
          m
          running
          h
          (happen fuel (start_timer t func args timeout) m running))
        × Among t l.live.timers
        × (l.after.timers.info.func t ≡ func)
  unfolding happen
  start_timer-HasTimer t func args timeout new real few =
      let s = m.timers in
      let out = new.1 h.timers h.list in
      let k =
        timer_create-TimerCreated fuel s t func args timeout h.timers new.0 h.list h.ordered out
          few in
      let (here, from, back) = created_members s t func args timeout h.timers _ k in
      (
        record {
          after = record m { timers = k.after };
          running = running;
          result = rw (happen, k.result) refl;
          live = record {
            tasks = h.tasks;
            timers = k.list;
            numbered = subst (λ (z : Sched). IsNumbered z h.tasks) (sym k.sched) h.numbered;
            list = k.timers;
            ordered = k.ordered;
            sleepers =
                subst
                  (λ (g : Ptr → ℕ).
                    Sleepers g k.after.info.task (asleep k.after.sched) h.tasks k.list)
                  (sym k.funcs)
                  (subst
                    (λ (g : Ptr → ℕ).
                      Sleepers (update s.info.func t func) g (asleep k.after.sched) h.tasks k.list)
                    (sym k.tasks)
                    (subst
                      (λ (z : Sched).
                        Sleepers (update s.info.func t func) (update s.info.task t s.sched.cur_task)
                          (asleep z) h.tasks k.list)
                      (sym k.sched)
                      (Sleepers-start s.info.func s.info.task (asleep s.sched) h.tasks h.timers
                        h.sleepers t s.sched.cur_task out k.list here from back func real)));
            runs = subst (λ (z : Sched). Runs z h.tasks running) (sym k.sched) h.runs;
          };
          funcs = λ u i.
              ap (λ (f : Ptr → ℕ). f u) k.funcs
              ∙ update_ne s.info.func t u func (NotIn-other t u h.timers out i);
          kept = λ u i silent. inr (from u i);
        },
        here,
        ap (λ (f : Ptr → ℕ). f t) k.funcs ∙ update_self s.info.func t func,
      )

  pub start_timer-Lives :
      (t func args timeout : ℕ)
      → NewTimer m t
      → func ≢ null
      → length h.timers < fuel
      → Lives
          (start_timer t func args timeout)
          m
          running
          h
          (happen fuel (start_timer t func args timeout) m running)
  start_timer-Lives t func args timeout new real few =
      (start_timer-HasTimer t func args timeout new real few).0

  -- The timer is not in the list any more.
  abbrev Gone : Ptr → Type 0
  Gone t =
      (l : Lives (stop_timer t) m running h (happen fuel (stop_timer t) m running)) × NotIn t
        l.live.timers

  stop_at :
      (t : Ptr) (ys zs : List Ptr)
      → h.timers ≡ ys ++ t ∷ zs
      → m.timers.info.func t ≢ null
      → length h.timers < fuel
      → Gone t
  unfolding happen
  stop_at t ys zs split real few =
      let s = m.timers in
      let k =
        timer_delete-TimerDeleted fuel s t ys zs (subst (IsTimerList s) split h.list)
          (subst (λ l. length l < fuel) split few) in
      let l = ys ++ zs in
      let funcs : k.after.info.func ≡ s.info.func = ap (λ (z : Timers). z.info.func) k.same in
      let tasks : k.after.info.task ≡ s.info.task = ap (λ (z : Timers). z.info.task) k.same in
      let timeouts : k.after.info.timeout ≡ s.info.timeout =
        ap (λ (z : Timers). z.info.timeout) k.same in
      let sched : k.after.sched ≡ s.sched = ap (λ (z : Timers). z.sched) k.same in
      (
        record {
          after = record m { timers = k.after };
          running = running;
          result = rw (happen, k.result) refl;
          live = record {
            tasks = h.tasks;
            timers = l;
            numbered = subst (λ (z : Sched). IsNumbered z h.tasks) (sym sched) h.numbered;
            list = k.timers;
            ordered =
                subst (λ (key : Ptr → ℕ). IsSorted key l) (sym timeouts)
                  (IsSorted-remove s.info.timeout t ys zs
                    (subst (IsSorted s.info.timeout) split h.ordered));
            sleepers =
                subst
                  (λ (g : Ptr → ℕ). Sleepers g k.after.info.task (asleep k.after.sched) h.tasks l)
                  (sym funcs)
                  (subst (λ (g : Ptr → ℕ). Sleepers s.info.func g (asleep k.after.sched) h.tasks l)
                    (sym tasks)
                    (subst (λ (z : Sched). Sleepers s.info.func s.info.task (asleep z) h.tasks l)
                      (sym sched)
                      (Sleepers-lists s.info.func s.info.task (asleep s.sched) h.tasks h.timers
                        h.sleepers h.tasks l (λ x a i. i) (λ x a i. i)
                        (λ x e i. other x e (Among-split x t ys zs (subst (Among x) split i)))
                        (λ x e i. subst (Among x) (sym split) (Among-middle x t ys zs i)))));
            runs = subst (λ (z : Sched). Runs z h.tasks running) (sym sched) h.runs;
          };
          funcs = λ u i. ap (λ (f : Ptr → ℕ). f u) funcs;
          kept = λ u i silent. Among-split u t ys zs (subst (Among u) split i);
        },
        (Distinct-remove t ys zs (subst Distinct split h.list.distinct)).1,
      )
    where
      other :
          (x : Ptr)
          → m.timers.info.func x ≡ null
          → (t ≡ x) ⊎ Among x (ys ++ zs)
          → Among x (ys ++ zs)
      other x e (inl a) = absurd (real (ap m.timers.info.func a ∙ e))
      other x e (inr i) = i

  pub stop_timer-NotIn :
      (t : Ptr) → Among t h.timers → m.timers.info.func t ≢ null → length h.timers < fuel → Gone t
  stop_timer-NotIn t here real few =
      let (ys, zs, split) = Among-place t h.timers here in stop_at t ys zs split real few

  pub stop_timer-Lives :
      (t : Ptr)
      → Among t h.timers
      → m.timers.info.func t ≢ null
      → length h.timers < fuel
      → Lives (stop_timer t) m running h (happen fuel (stop_timer t) m running)
  stop_timer-Lives t here real few = (stop_timer-NotIn t here real few).0
