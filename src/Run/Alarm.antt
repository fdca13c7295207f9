-- ===== src/Run/Alarm.antt =====
-- How long a timer with a function waits until the function is called.
use xin_os.Base.{
  ℕ, zero, suc, ◌+◌, ◌-◌, ◌^◌, ◌≤◌, ◌<◌, ◌≡◌, false, ◌≢◌, refl, ap, sym, ◌∙◌, subst, some, List,
  arith, Bool-cases, ◌⊎◌, inl, inr, Ptr, null, length,
}
use xin_os.Chain.Wait.{Among}
use xin_os.Chain.Member.{Among-some}
use xin_os.Task.{Control}
use xin_os.Timer.{Timers, timer_handler, ticked}
use xin_os.Timer.Check.{is_due}
use xin_os.Timer.Handler.{next_tick}
use xin_os.Trap.{Machine}
use xin_os.Run.{tick, resume, happen, ticks_on}
use xin_os.Run.Checks.{Calls}
use xin_os.Run.State.{IsLive}
use xin_os.Run.Tick.{TickLives, timer_handler-TickLives}
use xin_os.Run.Wake.{tick_happens, nearer}

-- After less than `n` interrupts, the next one calls the timer's function.
pub record Rings (n fuel : ℕ) (m : Machine) (running : Control) (t : Ptr) (func : ℕ) : Type 0 where
  pub count : ℕ
  pub soon : count < n
  pub before : Machine
  pub running' : Control
  pub result : ticks_on count fuel m running ≡ some (before, running')
  pub after : Timers
  pub to : Control
  pub calls : List (ℕ × ℕ)
  pub interrupt : timer_handler fuel before.timers ≡ ticked after to calls
  pub rings : Calls (func, before.timers.info.args t) calls

Rings-later :
    (n fuel : ℕ) (m : Machine) (running : Control) (t : Ptr) (func : ℕ) (s : Timers)
    (running1 : Control)
    → happen fuel tick m running ≡ some (record m { timers = s }, running1)
    → Rings n fuel (record m { timers = s }) running1 t func
    → Rings (suc n) fuel m running t func
unfolding ticks_on
Rings-later n fuel m running t func s running1 e r = record {
  count = suc r.count;
  soon = omega (arith, r.soon);
  before = r.before;
  running' = r.running';
  result = rw (ticks_on, e) r.result;
  after = r.after;
  to = r.to;
  calls = r.calls;
  interrupt = r.interrupt;
  rings = r.rings;
}

Rings-now :
    (n fuel : ℕ) (m : Machine) (running : Control) (h : IsLive m running) (t : Ptr)
    (k : TickLives m running h (timer_handler fuel m.timers))
    → Calls (m.timers.info.func t, m.timers.info.args t) k.calls
    → Rings (suc n) fuel m running t (m.timers.info.func t)
unfolding ticks_on
Rings-now n fuel m running h t k c = record {
  count = zero;
  soon = omega arith;
  before = m;
  running' = running;
  result = refl;
  after = k.after;
  to = k.to;
  calls = k.calls;
  interrupt = k.result;
  rings = c;
}

-- The function of a timer that is due at `T` is called by one of the next timer interrupts, of which as
-- many are enough as ticks are left to `T` and timers are in the list, when the kernel is in order and no
-- task makes a call meanwhile.
pub timer-Rings :
    (n fuel : ℕ) (m : Machine) (running : Control) (h : IsLive m running) (t : Ptr)
    → Among t h.timers
    → m.timers.info.func t ≢ null
    → m.timers.info.timeout t - m.timers.ticks + length h.timers ≤ n
    → m.timers.ticks + n < 2 ^ 64
    → length h.timers < fuel
    → Rings n fuel m running t (m.timers.info.func t)
timer-Rings zero fuel m running h t i real near wraps few =
    absurd (omega (arith, near, Among-some t h.timers i))
timer-Rings (suc n) fuel m running h t i real near wraps few =
    let k = timer_handler-TickLives fuel m running h few in
    let same : k.after.info.func t ≡ m.timers.info.func t = ap (λ (f : Ptr → ℕ). f t) k.funcs in
    let later =
      λ (c : (is_due (next_tick m.timers) t ≡ false) ⊎ (length k.live.timers < length h.timers)).
        Rings-later n fuel m running t (m.timers.info.func t) k.after (resume running k.to)
          (tick_happens fuel m running h k)
          (subst (Rings n fuel (record m { timers = k.after }) (resume running k.to) t) same (
            timer-Rings n fuel (record m { timers = k.after }) (resume running k.to) k.live t
              (k.stays t i real) (λ z. real (sym same ∙ z))
              (nearer n fuel m running h t k c near wraps) (omega (arith, k.clock, wraps))
              (omega (arith, k.shorter, few)))) in
    elim (Bool-cases (is_due (next_tick m.timers) t)) [
      | inr late ↦ later (inl late)
      | inl due ↦ elim (k.rang t i due real) [
        | inl c ↦ Rings-now n fuel m running h t k c
        | inr shorter ↦ later (inr shorter)
      ]
    ]
