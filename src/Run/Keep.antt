-- ===== src/Run/Keep.antt =====
-- How long a timer with a function stays in the list, while the kernel runs.
use xin_os.Base.{ℕ, ◌≡◌, ◌≢◌, sym, ◌∙◌, subst, Option, some, ◌⊎◌, inl, inr, Ptr, null}
use xin_os.Chain.{NotIn}
use xin_os.Chain.Wait.{Among}
use xin_os.Task.{Control}
use xin_os.Trap.{Machine}
use xin_os.Run.{Event, start_timer, stop_timer, happen}
use xin_os.Run.State.{IsLive, Allowed, Enough}
use xin_os.Run.Switch.{Lives, Stops}
use xin_os.Run.Timers.{start_timer-HasTimer, stop_timer-NotIn}
use xin_os.Run.Reach.{Reach, here, next, happen-Lives}

-- No event of the run stops the timer.
abbrev pub NeverStopped :
    {fuel : ℕ} {m : Machine} {running : Control} {m' : Machine} {running' : Control}
    → Ptr
    → Reach fuel m running m' running'
    → Type 0
NeverStopped t here = Unit
NeverStopped t (next e r ok enough eq) = ¬ Stops e t × NeverStopped t r

-- The kernel is in order and has the timer with the function.
abbrev HasTimer : Ptr → ℕ → Machine × Control → Type 0
HasTimer t f q = (h : IsLive q.0 q.1) × Among t h.timers × (q.0.timers.info.func t ≡ f)

some_eq : {a b : Machine × Control} → some a ≡ some b → a ≡ b
some_eq e = cc

unless_stopped : {A B : Type 0} → A ⊎ B → ¬ A → B
unless_stopped (inl a) n = absurd (n a)
unless_stopped (inr b) n = b

HasTimer-Lives :
    (e : Event) (t : Ptr) (f : ℕ) (m1 : Machine) (r1 : Control) (q : Machine × Control)
    (h : IsLive m1 r1) (r : Option (Machine × Control))
    → Among t h.timers
    → m1.timers.info.func t ≡ f
    → f ≢ null
    → ¬ Stops e t
    → Lives e m1 r1 h r
    → r ≡ some q
    → HasTimer t f q
HasTimer-Lives e t f m1 r1 q h r i same real goes_on l eq =
    let both : (l.after, l.running) ≡ q = some_eq (sym l.result ∙ eq) in
    subst (HasTimer t f) both
      (l.live, unless_stopped (l.kept t i (λ z. real (sym same ∙ z))) goes_on, l.funcs t i ∙ same)

Reach-HasTimer :
    (fuel : ℕ) (m : Machine) (running : Control) (m' : Machine) (running' : Control) (t : Ptr)
    (f : ℕ)
    → f ≢ null
    → HasTimer t f (m, running)
    → (r : Reach fuel m running m' running') → NeverStopped t r
    → HasTimer t f (m', running')
Reach-HasTimer fuel m running _ _ t f real h here never = h
Reach-HasTimer fuel m running m' running' t f real h (next {m1} {m2} {r1} {r2} e r ok enough eq)
      never =
    let h1 = Reach-HasTimer fuel m running m1 r1 t f real h r never.1 in
    HasTimer-Lives e t f m1 r1 (m2, r2) h1.0 (happen fuel e m1 r1) h1.1 h1.2 real never.0
      (happen-Lives fuel e m1 r1 h1.0 ok enough) eq

-- A timer that is started with a function, by an allowed call, in a kernel in order can be stopped after
-- every run of allowed events that does not stop it: the call finds the timer in the list, which it is
-- not in any more behind it, and the kernel is in order again.
pub stop_timer-start_timer :
    (fuel : ℕ) (m : Machine) (running : Control) (t func args timeout : ℕ) (m1 : Machine)
    (r1 : Control) (m2 : Machine) (r2 : Control)
    → IsLive m running
    → Allowed (start_timer t func args timeout) m running
    → Enough fuel m
    → happen fuel (start_timer t func args timeout) m running ≡ some (m1, r1)
    → (run : Reach fuel m1 r1 m2 r2) → NeverStopped t run
    → Enough fuel m2
    → (h : IsLive m2 r2) × Among t h.timers
      × (m2.timers.info.func t ≡ func)
      × (l : Lives (stop_timer t) m2 r2 h (happen fuel (stop_timer t) m2 r2)) × NotIn t
          l.live.timers
stop_timer-start_timer fuel m running t func args timeout m1 r1 m2 r2 h ok enough eq run never
      left =
    let (l, i, e) =
      start_timer-HasTimer fuel m running h t func args timeout ok.0 ok.1
        (enough.1 h.timers h.list) in
    let both : (l.after, l.running) ≡ (m1, r1) = some_eq (sym l.result ∙ eq) in
    let (h2, i2, e2) =
      Reach-HasTimer fuel m1 r1 m2 r2 t func ok.1 (subst (HasTimer t func) both (l.live, i, e)) run
        never in
    let gone =
      stop_timer-NotIn fuel m2 r2 h2 t i2 (λ z. ok.1 (sym e2 ∙ z)) (left.1 h2.timers h2.list) in
    (h2, i2, e2, gone.0, gone.1)
