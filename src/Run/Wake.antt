-- ===== src/Run/Wake.antt =====
-- How long a sleeping task waits, when interrupts of the clock come and no task makes a call.
use xin_os.Base.{
  ℕ, zero, suc, ◌+◌, ◌-◌, ◌^◌, ◌≤◌, ◌<◌, ◌≡◌, ◌⊎◌, refl, ap, sym, ◌∙◌, subst, false, some, arith,
  Bool-cases, inl, inr, Ptr, null, length,
}
use xin_os.Chain.Wait.{Among}
use xin_os.Chain.Member.{Among-some}
use xin_os.Task.{Control}
use xin_os.Task.Pop.{asleep}
use xin_os.Timer.{Timers, timer_handler}
use xin_os.Timer.Check.{is_due}
use xin_os.Timer.Handler.{next_tick}
use xin_os.Trap.{Machine}
use xin_os.Run.{tick, resume, happen, ticks_on}
use xin_os.Run.State.{IsLive}
use xin_os.Run.Tick.{TickLives, timer_handler-TickLives}

-- After at most `n` interrupts the task is awake.
pub record Wakes (n fuel : ℕ) (m : Machine) (running : Control) (x : Ptr) : Type 0 where
  pub count : ℕ
  pub soon : count ≤ n
  pub after : Machine
  pub running' : Control
  pub result : ticks_on count fuel m running ≡ some (after, running')
  pub awake : asleep after.timers.sched x ≡ false

Wakes-later :
    (n fuel : ℕ) (m : Machine) (running : Control) (x : Ptr) (t : Timers) (running1 : Control)
    → happen fuel tick m running ≡ some (record m { timers = t }, running1)
    → Wakes n fuel (record m { timers = t }) running1 x
    → Wakes (suc n) fuel m running x
unfolding ticks_on
Wakes-later n fuel m running x t running1 e w = record {
  count = suc w.count;
  soon = omega (arith, w.soon);
  after = w.after;
  running' = w.running';
  result = rw (ticks_on, e) w.result;
  awake = w.awake;
}

Wakes-now :
    (n fuel : ℕ) (m : Machine) (running : Control) (x : Ptr)
    → asleep m.timers.sched x ≡ false
    → Wakes n fuel m running x
unfolding ticks_on
Wakes-now n fuel m running x a = record {
  count = zero;
  soon = omega arith;
  after = m;
  running' = running;
  result = refl;
  awake = a;
}

pub tick_happens :
    (fuel : ℕ) (m : Machine) (running : Control) (h : IsLive m running)
    (t : TickLives m running h (timer_handler fuel m.timers))
    → happen fuel tick m running ≡ some (record m { timers = t.after }, resume running t.to)
unfolding happen
tick_happens fuel m running h t = rw (happen, t.result) refl

-- A timer that is not due at a tick, or after which the list is shorter, is nearer to its turn.
pub nearer :
    (n fuel : ℕ) (m : Machine) (running : Control) (h : IsLive m running) (t : Ptr)
    (k : TickLives m running h (timer_handler fuel m.timers))
    → (is_due (next_tick m.timers) t ≡ false) ⊎ (length k.live.timers < length h.timers)
    → m.timers.info.timeout t - m.timers.ticks + length h.timers ≤ suc n
    → m.timers.ticks + suc n < 2 ^ 64
    → k.after.info.timeout t - k.after.ticks + length k.live.timers ≤ n
nearer n fuel m running h t k (inl late) near wraps =
    let e : k.after.info.timeout t ≡ m.timers.info.timeout t =
      ap (λ (f : Ptr → ℕ). f t) k.timeouts in
    let left : m.timers.ticks + 1 < m.timers.info.timeout t = ground (arith, late, wraps) in
    omega (arith, e, k.clock, near, left, k.shorter)
nearer n fuel m running h t k (inr shorter) near wraps =
    let e : k.after.info.timeout t ≡ m.timers.info.timeout t =
      ap (λ (f : Ptr → ℕ). f t) k.timeouts in
    omega (arith, e, k.clock, near, shorter)

-- A sleeping task whose timer is due at `T` is awake after at most as many timer interrupts as ticks are
-- left to `T` and timers are in the list, when the kernel is in order and no task makes a call meanwhile.
pub sleeper-Wakes :
    (n fuel : ℕ) (m : Machine) (running : Control) (h : IsLive m running) (x timer : Ptr)
    → Among x h.tasks
    → Among timer h.timers
    → m.timers.info.func timer ≡ null
    → m.timers.info.task timer ≡ x
    → m.timers.info.timeout timer - m.timers.ticks + length h.timers ≤ n
    → m.timers.ticks + n < 2 ^ 64
    → length h.timers < fuel
    → Wakes n fuel m running x
sleeper-Wakes zero fuel m running h x timer ix it silent whose near wraps few =
    absurd (omega (arith, near, Among-some timer h.timers it))
sleeper-Wakes (suc n) fuel m running h x timer ix it silent whose near wraps few =
    let t = timer_handler-TickLives fuel m running h few in
    let gone : (is_due (next_tick m.timers) timer ≡ false)
        ⊎ (length t.live.timers < length h.timers) =
      elim (Bool-cases (is_due (next_tick m.timers) timer)) [
        | inl due ↦ inr (t.served timer it due silent)
        | inr late ↦ inl late
      ] in
    let m1 : Machine = record m { timers = t.after } in
    Wakes-later n fuel m running x t.after (resume running t.to) (tick_happens fuel m running h t)
      (elim (Bool-cases (asleep t.after.sched x)) [
        | inr awake ↦ Wakes-now n fuel m1 (resume running t.to) x awake
        | inl sleeps ↦
            (let ix' = subst (Among x) (sym t.same_tasks) ix in
              let (timer', it', silent', whose') = t.live.sleepers.pending x ix' sleeps in
              let same : timer' ≡ timer =
                h.sleepers.single timer' timer (t.fewer timer' it') it
                  (sym (ap (λ (f : Ptr → ℕ). f timer') t.funcs) ∙ silent') silent
                  (sym (ap (λ (f : Ptr → ℕ). f timer') t.owners) ∙ whose' ∙ sym whose) in
              let it1 = subst (λ z. Among z t.live.timers) same it' in
              sleeper-Wakes n fuel m1 (resume running t.to) t.live x timer ix' it1
                (ap (λ (f : Ptr → ℕ). f timer) t.funcs ∙ silent)
                (ap (λ (f : Ptr → ℕ). f timer) t.owners ∙ whose)
                (nearer n fuel m running h timer t gone near wraps) (omega (arith, t.clock))
                (omega (arith, t.shorter)))
      ])
