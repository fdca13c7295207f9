-- ===== src/Timer/Check.antt =====
-- `timer_check` of os/timer.c: on a list ordered by timeout, to stop at the first timer that is not
-- due misses nothing.
use xin_os.Base.{
  ℕ, zero, suc, ◌≤◌, ◌<◌, ◌≡◌, refl, ap, Bool, true, false, ◌&&◌, List, [], ◌∷◌, arith, leb, ◌==◌,
  if◌then◌else◌, Bool-cases, inl, inr, Ptr, null, length, All, sym,
}
use xin_os.Chain.{Chain}
use xin_os.Chain.Order.{IsSorted}
use xin_os.Task.{is_sleeping}
use xin_os.Timer.{Timers, CheckResult, wake, nobody, called, check_from, timer_check, check_end}
use xin_os.Timer.Insert.{IsTimerList}

-- Whether a timer has run out, and whether it was made by `task_delay` for a task that sleeps.
abbrev pub is_due : Timers → Ptr → Bool
is_due s x = leb (s.info.timeout x) s.ticks

abbrev pub is_sleep : Timers → Ptr → Bool
is_sleep s x = is_sleeping (s.sched.tasks.state (s.info.task x)) && s.info.func x == null

-- The timers of the whole list in order: the functions of those that have run out are called, up to
-- the first one that wakes a task.
unfoldable pub check_all : Timers → List Ptr → CheckResult
check_all s [] = nobody []
check_all s (x ∷ xs) =
    if is_due s x
    then if is_sleep s x
      then wake [] (s.info.task x) x
      else called (s.info.func x, s.info.args x) (check_all s xs)
    else check_all s xs

none_due :
    (s : Timers) (a : ℕ) (xs : List Ptr)
    → All (λ y. a ≤ s.info.timeout y) xs
    → s.ticks < a
    → check_all s xs ≡ nobody []
unfolding check_all
none_due s a [] h l = refl
none_due s a (x ∷ xs) h l =
    let e : is_due s x ≡ false = ground (arith, h.0) in rw e (none_due s a xs h.1 l)

check_from-check_all :
    (k : ℕ) (s : Timers) (it : Ptr) (xs : List Ptr)
    → Chain s.info.next it xs
    → IsSorted s.info.timeout xs
    → length xs < k
    → check_from k s it ≡ check_all s xs
unfolding check_from check_all
check_from-check_all zero s it xs c sorted enough = absurd (omega arith)
check_from-check_all (suc k) s it [] c sorted enough =
    let e : (it == null) ≡ true = ground (arith, c) in rw e
check_from-check_all (suc k) s it (x ∷ xs) c sorted enough =
    let e : (x == null) ≡ false = ground (arith, c.1) in
    let ih = check_from-check_all k s (s.info.next x) xs c.2 sorted.1 (omega arith) in
    rw c.0 (
      rw e (elim (Bool-cases (is_due s x)) [
        | inr late ↦ rw late (sym (none_due s (s.info.timeout x) xs sorted.0 (ground arith)))
        | inl due ↦ rw due (elim (Bool-cases (is_sleep s x)) [
          | inl yep ↦ rw yep
          | inr nope ↦ rw nope (ap (called (s.info.func x, s.info.args x)) ih)
        ])
      ]))

-- On a list ordered by timeout, `timer_check`, which stops at the first timer that is not due,
-- gives what a look at every timer of the list gives: the functions of all timers that have run
-- out are called in order, up to the first one that wakes a sleeping task, which is then deleted.
pub timer_check-check_all :
    (fuel : ℕ) (s : Timers) (xs : List Ptr)
    → IsTimerList s xs
    → IsSorted s.info.timeout xs
    → length xs < fuel
    → timer_check fuel s ≡ check_end fuel s (check_all s xs)
unfolding timer_check
timer_check-check_all fuel s xs q sorted enough =
    ap (check_end fuel s) (check_from-check_all fuel s s.first_timer xs q.chain sorted enough)
