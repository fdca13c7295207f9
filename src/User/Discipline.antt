-- ===== src/User/Discipline.antt =====
-- What the task bodies of os/user.c keep to: the timers they stop are their own, and they hold no lock
-- when they sleep or exit.
use xin_os.Base.{
  ◌≡◌, ◌≢◌, refl, Bool, true, false, List, [], ◌∷◌, ◌==◌, if◌then◌else◌, Ptr, null, arith, inl, inr,
}
use xin_os.Chain.Wait.{Among}
use xin_os.Run.{switch, tick, sleep, exit, create, start_timer, stop_timer}
use xin_os.User.{
  Act, prints, calls, acquires, releases, user_task1, user_task2, user_task3, task2_rounds,
  task3_rounds,
}

abbrev pub without : Ptr → List Ptr → List Ptr
without t [] = []
without t (x ∷ xs) = let rest = without t xs in if t == x then rest else x ∷ rest

-- With the timers `own` started and not stopped yet, and the lock held or not: each timer is started with
-- a function, only own timers are stopped, the lock is taken and given back in turn, a task that sleeps
-- or exits does not hold it, and one that exits has stopped all its timers and does nothing more.
abbrev pub Keeps : List Ptr → Bool → List Act → Type 0
Keeps own held [] = held ≡ false
Keeps own held (prints message ∷ acts) = Keeps own held acts
Keeps own held (acquires ∷ acts) = (held ≡ false) × Keeps own true acts
Keeps own held (releases ∷ acts) = (held ≡ true) × Keeps own false acts
Keeps own held (calls switch ∷ acts) = Keeps own held acts
Keeps own held (calls tick ∷ acts) = Keeps own held acts
Keeps own held (calls (create new_task task param priority timeslice) ∷ acts) = Keeps own held acts
Keeps own held (calls (sleep timer ticks) ∷ acts) = (held ≡ false) × Keeps own held acts
Keeps own held (calls exit ∷ acts) = (held ≡ false) × (own ≡ []) × (acts ≡ [])
Keeps own held (calls (start_timer timer func args timeout) ∷ acts) =
    (func ≢ null) × Keeps (timer ∷ own) held acts
Keeps own held (calls (stop_timer timer) ∷ acts) =
    Among timer own × Keeps (without timer own) held acts

task2_rounds-Keeps : (timers : List Ptr) → Keeps [] false (task2_rounds timers)
unfolding task2_rounds
task2_rounds-Keeps [] = refl
task2_rounds-Keeps (timer ∷ timers) = (refl, (refl, (refl, task2_rounds-Keeps timers)))

task3_rounds-Keeps : (timers : List Ptr) → Keeps [] false (task3_rounds timers)
unfolding task3_rounds
task3_rounds-Keeps [] = refl
task3_rounds-Keeps (timer ∷ timers) = (refl, (refl, (refl, task3_rounds-Keeps timers)))

user_task1-Keeps :
    (func person t1 t2 t3 timer : Ptr)
    → func ≢ null
    → t1 ≢ null
    → t2 ≢ null
    → t3 ≢ null
    → t1 ≢ t2
    → t1 ≢ t3
    → t2 ≢ t3
    → Keeps [] false (user_task1 func person t1 t2 t3 timer)
unfolding user_task1
user_task1-Keeps func person t1 t2 t3 timer real n1 n2 n3 d12 d13 d23 =
    let e1 : (t1 == null) ≡ false = ground (arith, n1) in
    let e2 : (t2 == null) ≡ false = ground (arith, n2) in
    let e3 : (t3 == null) ≡ false = ground (arith, n3) in
    let a : (t1 == t3) ≡ false = ground (arith, d13) in
    let b : (t1 == t2) ≡ false = ground (arith, d12) in
    let c : (t2 == t3) ≡ false = ground (arith, d23) in
    let s1 : (t1 == t1) ≡ true = ground arith in
    let s2 : (t2 == t2) ≡ true = ground arith in
    let s3 : (t3 == t3) ≡ true = ground arith in
    rw (e1, e2, e3, a, b, s1, c, s2, s3)
      (
        real,
        (
          real,
          (real, (refl, (inr (inr (inl refl)), (inr (inl refl), (inl refl, (refl, refl, refl)))))),
        ),
      )

-- The bodies of all three tasks keep to the rules: a timer is started with a function, and stopped only
-- by the task that started it and has not stopped it yet; no task takes a lock that it holds, gives back
-- one that it does not hold, or sleeps or exits with the lock; the first task has stopped its timers when
-- it exits. This is for a function that is not NULL, when `malloc` returns three different objects to the
-- first task, and for any number of rounds of the other two.
pub user_tasks-Keeps :
    (func person t1 t2 t3 timer : Ptr) (timers2 timers3 : List Ptr)
    → func ≢ null
    → t1 ≢ null
    → t2 ≢ null
    → t3 ≢ null
    → t1 ≢ t2
    → t1 ≢ t3
    → t2 ≢ t3
    → Keeps [] false (user_task1 func person t1 t2 t3 timer)
      × Keeps [] false (user_task2 timers2)
      × Keeps [] false (user_task3 timers3)
unfolding user_task2 user_task3
user_tasks-Keeps func person t1 t2 t3 timer timers2 timers3 real n1 n2 n3 d12 d13 d23 = (
  user_task1-Keeps func person t1 t2 t3 timer real n1 n2 n3 d12 d13 d23,
  task2_rounds-Keeps timers2,
  task3_rounds-Keeps timers3,
)
