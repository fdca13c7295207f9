-- ===== src/Trap/Tests.antt =====
-- Two tasks and two timers of the kernel: traps, and the theorems at this state.
use xin_os.Base.{ℕ, zero, suc, ◌+◌, ◌^◌, ◌≡◌, refl, List, [], ◌∷◌, ◌++◌, arith, Ptr}
use xin_os.Chain.{take_while}
use xin_os.Task.Insert.{IsQueue}
use xin_os.Task.Pop.{asleep}
use xin_os.Uart.Send.{ended, idle}
use xin_os.Uart.Echo.{Serves, arrived, drained}
use xin_os.Trap.{Machine, Context, trap_handler}
use xin_os.Trap.Example.{sched, uart, machine}
use xin_os.Timer.{elapsed_time}
use xin_os.Programs.{bytes}
use xin_os.Trap.Spoken.{text_of}
use xin_os.Trap.Says.{interrupt_text, exception_text}
use xin_os.Trap.Switch.{Switched, trap_handler_switch}

abbrev sleep_call : Context
sleep_call = record { a0 = 13; a7 = 1 }

abbrev machine_Serves : Serves uart.status uart.received []
machine_Serves =
    arrived 33 97 refl (idle 32 refl (ended _))
      (arrived 33 8 refl (idle 32 refl (idle 32 refl (idle 32 refl (ended _)))) (drained 32 refl))

abbrev two_tasks : List Ptr
two_tasks = 100 ∷ 200 ∷ []

two_tasks-IsQueue : IsQueue sched two_tasks
two_tasks-IsQueue = omega arith

trap_handler_switch_example :
    Switched 0x8000 sleep_call machine 200
      (take_while (asleep sched) two_tasks ++ [])
      (trap_handler 5 30 0x8000 (2 ^ 63 + 3) sleep_call machine)
trap_handler_switch_example =
    trap_handler_switch 5 30 0x8000 sleep_call machine 200 two_tasks [] two_tasks-IsQueue
      (omega arith) (omega arith) (omega arith) refl

abbrev ready : ℕ → List ℕ
ready zero = []
ready (suc n) = 32 ∷ ready n

-- The machine with a transmitter that takes `n` characters.
abbrev idle_machine : ℕ → Machine
idle_machine n = record machine { uart = record uart { status = ready n } }

the_clock : interrupt_text 7 machine ≡ bytes "00:00:06\n"
unfolding elapsed_time
the_clock = refl

the_panic :
    text_of (exception_text 2 sleep_call)
    ≡ bytes "Sync exceptions!, code = 2\npanic: OOPS! What can I do!\n"
the_panic = refl

-- A system call that the kernel does not know, from machine mode.
abbrev unknown_call : Context
unknown_call = record { a0 = 13; a7 = 5 }

the_number :
    text_of (exception_text 11 unknown_call)
    ≡ bytes "Sync exceptions!, code = 11\nSystem call from user mode\nUnknown syscall no: 5\n"
the_number = refl
