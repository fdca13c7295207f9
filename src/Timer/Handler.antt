-- ===== src/Timer/Handler.antt =====
-- `timer_handler` of os/timer.c: waking a task, and the end of a time slice.
use xin_os.Base.{
  ℕ, ◌+◌, ◌-◌, ◌^◌, ◌<◌, ◌≡◌, ◌≢◌, refl, ◌∙◌, sym, ap, false, Option, none, some, List, [], ◌∷◌,
  ◌++◌, arith, ◌==◌, Bool-cases, inl, inr, Ptr, null, length, u64, update, update_self, subst,
}
use xin_os.Hart.{Hart}
use xin_os.Chain.Order.{IsSorted}
use xin_os.Task.{runnable, kernel, returned, back_os}
use xin_os.Timer.{
  Timers, CheckResult, wake, nobody, unfinished, called, check_end, Tick, ticked, timer_handler,
  preempt, wake_task, reload, timer_load,
}
use xin_os.Timer.Insert.{IsTimerList}
use xin_os.Timer.Delete.{timer_delete-TimerDeleted}
use xin_os.Timer.Check.{is_due, is_sleep, check_all, timer_check-check_all}

abbrev woken : CheckResult → Option Ptr
woken (wake calls task timer) = some timer
woken (nobody calls) = none
woken unfinished = none

woken-called : (c : ℕ × ℕ) (r : CheckResult) → woken (called c r) ≡ woken r
woken-called c (wake calls task timer) = refl
woken-called c (nobody calls) = refl
woken-called c unfinished = refl

-- The timer that wakes a task is one of the list.
check_all_split :
    (s : Timers) (it : Ptr) (xs : List Ptr)
    → woken (check_all s xs) ≡ some it
    → (ys : List Ptr) × (zs : List Ptr) × (xs ≡ ys ++ it ∷ zs)
unfolding check_all
check_all_split s it [] e = cc
check_all_split s it (x ∷ xs) e = elim (Bool-cases (is_due s x)) [
  | inr late ↦ split_later (check_all_split s it xs (rw late at e))
  | inl due ↦ elim (Bool-cases (is_sleep s x)) [
    | inl yep ↦ let same : x ≡ it = some_eq (rw (due, yep) at e) in ([], xs, ap (λ y. y ∷ xs) same)
    | inr nope ↦ split_later (
        check_all_split s it xs (
          sym (woken-called (s.info.func x, s.info.args x) (check_all s xs)) ∙ rw (due, nope) at e))
  ]
]
  where
    some_eq : some x ≡ some it → x ≡ it
    some_eq h = cc

    split_later :
        (ys : List Ptr) × (zs : List Ptr) × (xs ≡ ys ++ it ∷ zs)
        → (ys : List Ptr) × (zs : List Ptr) × (x ∷ xs ≡ ys ++ it ∷ zs)
    split_later (ys, zs, split) = (x ∷ ys, zs, ap (λ l. x ∷ l) split)

-- The state in which the timers are checked: one tick later.
abbrev pub next_tick : Timers → Timers
next_tick s = record s { ticks = u64 (s.ticks + 1) }

-- The interrupt gives the hart to the kernel with the task runnable and current, its timer out of
-- the list, and the next interrupt one interval ahead.
pub record Woke (s : Timers) (calls : List (ℕ × ℕ)) (task timer : Ptr) (xs : List Ptr) (r : Tick)
    : Type 0 where
  pub after : Timers
  pub result : r ≡ ticked after kernel calls
  pub before_it : List Ptr
  pub behind_it : List Ptr
  pub split : xs ≡ before_it ++ timer ∷ behind_it
  pub timers : IsTimerList after (before_it ++ behind_it)
  pub state : after.sched.tasks.state task ≡ runnable
  pub current : after.sched.cur_task ≡ task
  pub again : after.sched.hart.mtimecmp ≡ u64 (s.sched.hart.mtime + 10000000)
  pub clock : after.ticks ≡ u64 (s.ticks + 1)
  pub funcs : after.info.func ≡ s.info.func
  pub owners : after.info.task ≡ s.info.task
  pub timeouts : after.info.timeout ≡ s.info.timeout
  pub hart : Hart
  pub keeps : after.sched ≡ (
      let c = s.sched in
      let t = c.tasks in
      record c {
        cur_task = task;
        tasks = record t { state = update t.state task runnable };
        hart = hart;
      })

pub timer_handler-Woke :
    (fuel : ℕ) (s : Timers) (calls : List (ℕ × ℕ)) (task timer : Ptr) (xs : List Ptr)
    → IsTimerList s xs
    → IsSorted s.info.timeout xs
    → length xs < fuel
    → check_all (next_tick s) xs ≡ wake calls task timer
    → task ≢ null
    → Woke s calls task timer xs (timer_handler fuel s)
unfolding timer_handler check_end wake_task back_os timer_load
timer_handler-Woke fuel s calls task timer xs q sorted enough e nz =
    let s1 = next_tick s in
    let q1 : IsTimerList s1 xs = record { chain = q.chain; distinct = q.distinct } in
    let (ys, zs, split) = check_all_split s1 timer xs (ap woken e) in
    let d =
      timer_delete-TimerDeleted fuel s1 timer ys zs (subst (λ l. IsTimerList s1 l) split q1)
        (subst (λ l. length l < fuel) split enough) in
    let g : (task == null) ≡ false = ground (arith, nz) in
    let c = timer_check-check_all fuel s1 xs q1 sorted enough ∙ ap (check_end fuel s1) e in
    let (s', to) = back_os (reload (wake_task d.after task)).sched in
    record {
      after = record (reload (wake_task d.after task)) { sched = s' };
      result = rw (c, timer_handler, d.result, g);
      before_it = ys;
      behind_it = zs;
      split = split;
      timers = record { chain = d.timers.chain; distinct = d.timers.distinct };
      state = update_self d.after.sched.tasks.state task runnable;
      current = refl;
      again = ap (λ (t : Timers). u64 (t.sched.hart.mtime + 10000000)) d.same;
      clock = ap (λ (t : Timers). t.ticks) d.same;
      funcs = ap (λ (t : Timers). t.info.func) d.same;
      owners = ap (λ (t : Timers). t.info.task) d.same;
      timeouts = ap (λ (t : Timers). t.info.timeout) d.same;
      hart = (back_os (reload (wake_task s1 task)).sched).0.hart;
      keeps = ap (λ (t : Timers). (back_os (reload (wake_task t task)).sched).0) d.same;
    }

-- If a timer interrupt returns to the interrupted task, then there is a current task and it has
-- not yet used up its time slice.
pub timer_handler_slice :
    (fuel : ℕ) (s s' : Timers) (calls : List (ℕ × ℕ))
    → timer_handler fuel s ≡ ticked s' returned calls
    → (s'.sched.cur_task ≢ null)
      × (u64 (s'.ticks + 2 ^ 64 - s'.cur_task_start_tick)
          < s'.sched.tasks.timeslice s'.sched.cur_task)
unfolding timer_handler preempt back_os timer_load
timer_handler_slice fuel s s' calls e = ground arith
