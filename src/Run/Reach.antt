-- ===== src/Run/Reach.antt =====
-- Every run of the kernel: interrupts and calls in any order.
use xin_os.Base.{ℕ, ◌≡◌, inr, ap, refl, sym, ◌∙◌, subst, true, Option, some, List, Ptr}
use xin_os.Chain.Wait.{Among}
use xin_os.Task.{Control, returned, task_at, kernel}
use xin_os.Task.Pop.{asleep}
use xin_os.Task.Insert.{IsQueue}
use xin_os.Timer.Insert.{IsTimerList}
use xin_os.Trap.{Machine}
use xin_os.Chain.Member.{Chain-same}
use xin_os.Run.{Event, switch, tick, sleep, exit, create, start_timer, stop_timer, happen}
use xin_os.Run.Sleepers.{Pending}
use xin_os.Run.State.{IsLive, Allowed, Enough}
use xin_os.Run.Switch.{Lives, software-Lives}
use xin_os.Run.Tick.{timer_handler-TickLives}
use xin_os.Run.Sleep.{sleep-Lives}
use xin_os.Run.Exit.{exit-Lives}
use xin_os.Run.Create.{create-Lives}
use xin_os.Run.Timers.{start_timer-Lives, stop_timer-Lives}

-- When the kernel is in order, each event that is allowed comes through, without a fault and with fuel
-- greater than the lengths of the lists, and the kernel is in order again: the tasks are queued by
-- priority, the timers by timeout, each sleeping task has exactly one timer that will wake it, and the
-- task that runs is the current one and awake.
pub happen-Lives :
    (fuel : ℕ) (e : Event) (m : Machine) (running : Control) (h : IsLive m running)
    → Allowed e m running
    → Enough fuel m
    → Lives e m running h (happen fuel e m running)
unfolding happen
happen-Lives fuel switch m running h ok enough =
    software-Lives fuel m running h (enough.0 h.tasks h.numbered.ready.queue)
happen-Lives fuel tick m running h ok enough =
    let t = timer_handler-TickLives fuel m running h (enough.1 h.timers h.list) in
    record {
      after = record m { timers = t.after };
      running = _;
      result = rw (happen, t.result) refl;
      live = t.live;
      funcs = λ u i. ap (λ (f : Ptr → ℕ). f u) t.funcs;
      kept = λ u i loud. inr (t.stays u i loud);
    }
happen-Lives fuel (sleep timer ticks) m (task_at p) h ok enough =
    sleep-Lives fuel m p h timer ticks ok.1 (enough.1 h.timers h.list)
      (enough.0 h.tasks h.numbered.ready.queue)
happen-Lives fuel (sleep timer ticks) m returned h ok enough = absurd ok.0
happen-Lives fuel (sleep timer ticks) m kernel h ok enough = absurd ok.0
happen-Lives fuel exit m (task_at p) h ok enough =
    exit-Lives fuel m p h (enough.0 h.tasks h.numbered.ready.queue)
happen-Lives fuel exit m returned h ok enough = absurd ok
happen-Lives fuel exit m kernel h ok enough = absurd ok
happen-Lives fuel (create new_task task param priority timeslice) m running h ok enough =
    create-Lives fuel m running h new_task task param priority timeslice ok.0 ok.1 ok.2
      (enough.0 h.tasks h.numbered.ready.queue)
happen-Lives fuel (start_timer timer func args timeout) m running h ok enough =
    start_timer-Lives fuel m running h timer func args timeout ok.0 ok.1 (enough.1 h.timers h.list)
happen-Lives fuel (stop_timer timer) m running h ok enough =
    stop_timer-Lives fuel m running h timer (ok.0 h.timers h.list) ok.1 (enough.1 h.timers h.list)

-- The states that allowed events lead to.
pub data Reach (fuel : ℕ) (m : Machine) (running : Control) : Machine → Control → Type 0 where
  here : Reach fuel m running m running
  next :
      {m1 m2 : Machine} {r1 r2 : Control}
      → (e : Event) → Reach fuel m running m1 r1
      → Allowed e m1 r1
      → Enough fuel m1
      → happen fuel e m1 r1 ≡ some (m2, r2)
      → Reach fuel m running m2 r2

some_pair :
    {e : Event} {m : Machine} {running : Control} {h : IsLive m running}
    (r : Option (Machine × Control)) (m2 : Machine) (r2 : Control) (l : Lives e m running h r)
    → r ≡ some (m2, r2)
    → IsLive m2 r2
some_pair r m2 r2 l e =
    let both : (l.after, l.running) ≡ (m2, r2) = pair_eq (sym l.result ∙ e) in
    subst (λ (q : Machine × Control). IsLive q.0 q.1) both l.live
  where
    pair_eq : {a b : Machine × Control} → some a ≡ some b → a ≡ b
    pair_eq e = cc

-- Every state that is reached from one in order is in order.
pub Reach-IsLive :
    (fuel : ℕ) (m : Machine) (running : Control) (m' : Machine) (running' : Control)
    → IsLive m running
    → Reach fuel m running m' running'
    → IsLive m' running'
Reach-IsLive fuel m running _ _ h here = h
Reach-IsLive fuel m running m' running' h (next {m1} {m2} {r1} {r2} e r ok enough eq) =
    some_pair (happen fuel e m1 r1) m2 r2
      (happen-Lives fuel e m1 r1 (Reach-IsLive fuel m running m1 r1 h r) ok enough) eq

-- No wake-up is lost: in every state that is reached from one in order, a sleeping task of the list has a
-- timer in the list, without a function, that belongs to it.
pub Reach-Pending :
    (fuel : ℕ) (m : Machine) (running : Control) (m' : Machine) (running' : Control)
    (xs ts : List Ptr) (x : Ptr)
    → IsLive m running
    → Reach fuel m running m' running'
    → IsQueue m'.timers.sched xs
    → IsTimerList m'.timers ts
    → Among x xs
    → asleep m'.timers.sched x ≡ true
    → Pending m'.timers.info.func m'.timers.info.task ts x
Reach-Pending fuel m running m' running' xs ts x h r q l i s =
    let h' = Reach-IsLive fuel m running m' running' h r in
    let c = m'.timers.sched in
    let same_xs =
      Chain-same c.tasks.next c.first_task xs h'.tasks q.chain h'.numbered.ready.queue.chain in
    let same_ts =
      Chain-same m'.timers.info.next m'.timers.first_timer ts h'.timers l.chain h'.list.chain in
    subst (λ l. Pending m'.timers.info.func m'.timers.info.task l x) (sym same_ts)
      (h'.sleepers.pending x (subst (Among x) same_xs i) s)
