-- ===== src/User/Tests.antt =====
-- Runs of os/user.c, and its theorems there.
use xin_os.Base.{ℕ, zero, suc, ◌≡◌, refl, false, some, List, [], ◌∷◌, arith}
use xin_os.Uart.{Uart}
use xin_os.Uart.Send.{Idles, ended, idle}
use xin_os.Printf.{shown}
use xin_os.Programs.{bytes}
use xin_os.User.{UserData, timer_function, user_task1, user_task2, user_task3}
use xin_os.User.Timeout.{timeout_text, timer_function-sends}
use xin_os.User.Discipline.{Keeps, user_tasks-Keeps}

abbrev ready : ℕ → List ℕ
ready zero = []
ready (suc n) = 32 ∷ ready n

ready-Idles : (n : ℕ) → Idles n (ready n) []
ready-Idles zero = ended _
ready-Idles (suc n) = idle 32 refl (ready-Idles n)

abbrev line : Uart
line = record { ier = 1; lcr = 3; dll = 3; dlm = 0; status = ready 26; received = []; sent = [] }

-- `person`, when its first timer runs out.
abbrev person : UserData
person = record { counter = 11; str = bytes "Jack" }

the_line : timeout_text person.str 12 ≡ bytes "======> TIMEOUT: Jack: 12\n"
the_line = refl

timer_function-sends_example :
    (buf : ℕ → ℕ) × (timer_function line (λ _. 0) (some person) ≡ (
      some (record person { counter = 12 }),
      shown 26 buf (record line { status = []; sent = bytes "======> TIMEOUT: Jack: 12\n" }),
    ))
timer_function-sends_example =
    timer_function-sends line (λ _. 0) person [] (omega arith) (omega arith) (omega arith) refl
      (ready-Idles 26)

user_tasks-Keeps_example :
    Keeps [] false (user_task1 0x8000 0x9000 500 510 520 530)
    × Keeps [] false (user_task2 (540 ∷ 550 ∷ []))
    × Keeps [] false (user_task3 (560 ∷ []))
user_tasks-Keeps_example =
    user_tasks-Keeps 0x8000 0x9000 500 510 520 530 (540 ∷ 550 ∷ []) (560 ∷ []) (omega arith)
      (omega arith) (omega arith) (omega arith) (omega arith) (omega arith) (omega arith)
