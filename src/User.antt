-- ===== src/User.antt =====
-- os/user.c: the function of the timers, and the bodies of the three tasks that `user_init` creates. A
-- body is what it does one after the other: messages, calls of the kernel, and the use of the lock. The
-- addresses that `malloc` returns to its calls are arguments; of an endless loop the rounds are given.
pub mod Discipline
pub mod Timeout
mod Tests
use xin_os.Base.{
  ℕ, ◌+◌, Option, none, some, List, [], ◌∷◌, ◌++◌, ◌==◌, if◌then◌else◌, Ptr, null, u32,
}
use xin_os.Uart.{Uart}
use xin_os.Printf.{number, text, Shown, shown, printf}
use xin_os.Programs.{say, bytes}
use xin_os.Run.{Event, sleep, exit, start_timer, stop_timer}
use xin_os.Kernel.{Message}

-- `counter` is the bit pattern of an `int`.
pub record UserData : Type 0 where
  pub counter : ℕ
  pub str : List ℕ

-- What the argument points to, `none` for NULL; the object afterwards, and how the call ends.
unfoldable pub timer_function : Uart → (ℕ → ℕ) → Option UserData → Option UserData × Shown
unfolding printf
timer_function u out_buf none = (none, shown 0 out_buf u)
timer_function u out_buf (some param) =
    let counter = u32 (param.counter + 1) in
    (
      some (record param { counter = counter }),
      printf u out_buf (bytes "======> TIMEOUT: %s: %d\n") (text param.str ∷ number counter ∷ []),
    )

pub data Act : Type 0 where
  prints : Message → Act
  calls : Event → Act
  acquires : Act
  releases : Act

-- `if (NULL == t) { printf("timer_create() failed!\n"); }`, and what follows.
abbrev pub check_timer : Ptr → List Act → List Act
check_timer t rest = if t == null then prints (say "timer_create() failed!\n" []) ∷ rest else rest

-- The timers `t1`, `t2` and `t3`, and the one of `sleep`.
pub user_task1 : (timer_function person : ℕ) → (t1 t2 t3 timer : Ptr) → List Act
user_task1 timer_function person t1 t2 t3 timer =
    prints (say "Task 1: Created & Started!\n" [])
    ∷ calls (start_timer t1 timer_function person 3)
    ∷ check_timer t1 (
        calls (start_timer t2 timer_function person 5)
        ∷ check_timer t2 (
            calls (start_timer t3 timer_function person 7)
            ∷ check_timer t3 (
                prints (say "Task 1: Running...\n" [])
                ∷ calls (sleep timer 1)
                ∷ calls (stop_timer t1)
                ∷ calls (stop_timer t2)
                ∷ calls (stop_timer t3)
                ∷ prints (say "Task 1: Deleting...\n" [])
                ∷ calls exit
                ∷ [])))

-- One round of the loop for each timer that `sleep` makes.
pub task2_rounds : List Ptr → List Act
task2_rounds [] = []
task2_rounds (timer ∷ timers) =
    prints (say "Task 2: Running...\n" [])
    ∷ acquires
    ∷ prints (say "Task 2 got lock\n" [])
    ∷ releases
    ∷ calls (sleep timer 13)
    ∷ task2_rounds timers

pub user_task2 : List Ptr → List Act
unfolding task2_rounds
user_task2 timers = prints (say "Task 2: Created & Started!\n" []) ∷ task2_rounds timers

pub task3_rounds : List Ptr → List Act
task3_rounds [] = []
task3_rounds (timer ∷ timers) =
    prints (say "Task 3: Running...\n" [])
    ∷ acquires
    ∷ prints (say "Task 3 got lock\n" [])
    ∷ releases
    ∷ calls (sleep timer 17)
    ∷ task3_rounds timers

pub user_task3 : List Ptr → List Act
unfolding task3_rounds
user_task3 timers = prints (say "Task 3: Created & Started!\n" []) ∷ task3_rounds timers
