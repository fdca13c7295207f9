-- ===== src/Run/Nap.antt =====
-- How long a task of the running kernel sleeps.
use xin_os.Base.{
  ℕ, suc, ◌+◌, ◌^◌, ◌≤◌, ◌<◌, ◌≡◌, refl, ap, sym, ◌∙◌, subst, true, Option, none, some, arith, Ptr,
  null, length, u64, update,
}
use xin_os.Chain.{Chain}
use xin_os.Chain.Order.{length-insert_sorted}
use xin_os.Chain.Wait.{Among}
use xin_os.Chain.Member.{Chain-same}
use xin_os.Task.{Sched, Control, task_at, schedule}
use xin_os.Task.Pop.{asleep}
use xin_os.Timer.{Timers, TimerInfo, task_delay}
use xin_os.Trap.{Machine, with_sched, software_interrupt_handler}
use xin_os.Run.{sleep, happen}
use xin_os.Run.State.{IsLive, NewTimer, Enough}
use xin_os.Run.Switch.{Lives}
use xin_os.Run.Timers.{created_members}
use xin_os.Run.Sleep.{made, after_delay, laid_down, sleep-Lives}
use xin_os.Run.Wake.{Wakes, sleeper-Wakes}

-- A software interrupt leaves the timers and the clock alone.
abbrev SameTimers : Timers → Timers → Type 0
SameTimers s t = (t.info ≡ s.info) × (t.first_timer ≡ s.first_timer) × (t.ticks ≡ s.ticks)

switched :
    (m m' : Machine) (to : Control) (r : Option (Sched × Control))
    → (let o : Option (Machine × Control) = elim r [
      | none ↦ none
      | some (s, to') ↦ some (with_sched m s, to')
    ] in
        o ≡ some (m', to))
    → SameTimers m.timers m'.timers
switched m m' to none e = absurd cc
switched m m' to (some (s, to')) e =
    let both : (with_sched m s, to') ≡ (m', to) = cc in
    (
      ap (λ (q : Machine × Control). q.0.timers.info) (sym both),
      ap (λ (q : Machine × Control). q.0.timers.first_timer) (sym both),
      ap (λ (q : Machine × Control). q.0.timers.ticks) (sym both),
    )

software-SameTimers :
    (fuel : ℕ) (m m' : Machine) (to : Control)
    → software_interrupt_handler fuel m ≡ some (m', to)
    → SameTimers m.timers m'.timers
unfolding software_interrupt_handler
software-SameTimers fuel m m' to e =
    let c = m.timers.sched in
    let h = c.hart in switched m m' to (schedule fuel (record c { hart = record h { msip = 0 } })) e

-- The call comes through, the task sleeps then, and after at most `n` timer interrupts it is awake.
pub record Naps (n fuel : ℕ) (p : Ptr) (r : Option (Machine × Control)) : Type 0 where
  pub after : Machine
  pub running : Control
  pub result : r ≡ some (after, running)
  pub sleeps : asleep after.timers.sched p ≡ true
  pub wakes : Wakes n fuel after running p

module _ (fuel : ℕ) (m : Machine) (p : Ptr) (h : IsLive m (task_at p)) (timer ticks : ℕ)
    (new : NewTimer m timer) (some_fuel : Enough fuel m) where
  few : length h.timers < fuel
  few = some_fuel.1 h.timers h.list

  -- The state behind `task_delay`.
  abbrev delayed : Machine
  delayed = record m { timers = after_delay fuel m p h timer ticks new few }

  slept : Lives (sleep timer ticks) m (task_at p) h (happen fuel (sleep timer ticks) m (task_at p))
  slept = sleep-Lives fuel m p h timer ticks new few (some_fuel.0 h.tasks h.numbered.ready.queue)

  frame : SameTimers delayed.timers slept.after.timers
  unfolding happen task_delay
  frame =
      let k = made fuel m p h timer ticks new few in
      let e : happen fuel (sleep timer ticks) m (task_at p)
          ≡ software_interrupt_handler fuel delayed =
        rw (happen, task_delay, k.result) refl in
      software-SameTimers fuel delayed slept.after slept.running (sym e ∙ slept.result)

  list_after : (made fuel m p h timer ticks new few).list ≡ slept.live.timers
  list_after =
      let k = made fuel m p h timer ticks new few in
      let i = k.after.info in
      let l = slept.live in
      let c1 : Chain slept.after.timers.info.next k.after.first_timer l.timers =
        subst (λ a. Chain slept.after.timers.info.next a l.timers) frame.1 l.list.chain in
      let c2 : Chain i.next k.after.first_timer l.timers =
        subst (λ (z : TimerInfo). Chain z.next k.after.first_timer l.timers) frame.0 c1 in
      Chain-same i.next k.after.first_timer k.list l.timers k.timers.chain c2

  -- A task that runs in a kernel in order and calls `task_delay` for some ticks sleeps behind the call, and
  -- is awake again after at most as many timer interrupts as the ticks and one more than there were
  -- timers, when nobody makes a call meanwhile and the clock does not reach 2 ^ 64.
  pub sleep-Naps :
      (n : ℕ)
      → ticks + length h.timers + 1 ≤ n
      → m.timers.ticks + n < 2 ^ 64
      → length h.timers + 1 < fuel
      → Naps n fuel p (happen fuel (sleep timer ticks) m (task_at p))
  sleep-Naps n long early room =
      let k = made fuel m p h timer ticks new few in
      let l = slept.live in
      let here = (created_members (laid_down fuel m p h) timer null null ticks h.timers _ k).0 in
      let it = subst (Among timer) list_after here in
      let silent = ap (λ (z : TimerInfo). z.func timer) frame.0 ∙ k.what.0 in
      let whose : slept.after.timers.info.task timer ≡ p =
        ap (λ (z : TimerInfo). z.task timer) frame.0 ∙ k.whose ∙ h.runs.0 in
      let own = l.sleepers.owned timer it silent in
      let due : slept.after.timers.info.timeout timer ≡ m.timers.ticks + ticks =
        ap (λ (z : TimerInfo). z.timeout timer) frame.0 ∙ k.due ∙ omega (arith, long, early) in
      let now : slept.after.timers.ticks ≡ m.timers.ticks = frame.2 ∙ k.clock in
      let count : length l.timers ≡ suc (length h.timers) =
        ap length (sym list_after ∙ k.place)
        ∙ length-insert_sorted (update m.timers.info.timeout timer (u64 (m.timers.ticks + ticks)))
            timer h.timers in
      record {
        after = slept.after;
        running = slept.running;
        result = slept.result;
        sleeps = subst (λ x. asleep slept.after.timers.sched x ≡ true) whose own.1;
        wakes =
            sleeper-Wakes n fuel slept.after slept.running l p timer
              (subst (λ x. Among x l.tasks) whose own.0) it silent whose
              (omega (arith, due, now, count, long)) (omega (arith, now, early))
              (omega (arith, count, room));
      }
