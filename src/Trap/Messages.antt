-- ===== src/Trap/Messages.antt =====
-- What the handlers of os/trap.c, `do_syscall` of os/syscall.c and `elapsed_time` of os/timer.c print
-- during a trap, and the trap with its output. A handler prints before it changes anything but the count
-- of ticks, so the output comes first here and then `trap_handler`.
use xin_os.Base.{
  ℕ, ◌+◌, ◌-◌, ◌^◌, bit_and, ◌||◌, none, some, List, [], ◌∷◌, ◌==◌, if◌then◌else◌, Ptr, u64,
}
use xin_os.Uart.{Uart, uart_puts}
use xin_os.Plic.{uart0_irq, plic_claim}
use xin_os.Printf.{
  number, text, Shown, shown, stopped, waiting, meaningless, and_then, printf, panic,
}
use xin_os.Timer.{elapsed_time}
use xin_os.Trap.{Machine, Context, Trapped, interrupt_bit, trap_handler}
use xin_os.Kernel.{Message}
use xin_os.Programs.{say, bytes}

-- A call of `printf`, of `uart_puts`, or of `panic`.
pub data Output : Type 0 where
  prints : Message → Output
  puts : List ℕ → Output
  panics : List ℕ → Output

abbrev pub external_output : (irq : ℕ) → List Output
external_output irq =
    if irq == uart0_irq
    then []
    else if irq == 0
    then []
    else prints (say "unexpected interrupt irq = %d\n" (number irq ∷ [])) ∷ []

unfoldable pub interrupt_output : (cause_code : ℕ) → Machine → List Output
interrupt_output cause_code m =
    if cause_code == 3
    then []
    else if cause_code == 7
    then prints (say "%s\n" (text (elapsed_time (u64 (m.timers.ticks + 1))) ∷ [])) ∷ []
    else if cause_code == 11
    then external_output (plic_claim m.plic)
    else prints (say "unknown async exception!\n" []) ∷ []

abbrev pub syscall_output : Context → List Output
syscall_output ctx =
    if ctx.a7 == 1 then [] else prints (say "Unknown syscall no: %d\n" (number ctx.a7 ∷ [])) ∷ []

unfoldable pub exception_output : (cause_code : ℕ) → Context → List Output
exception_output cause_code ctx =
    prints (say "Sync exceptions!, code = %d\n" (number cause_code ∷ []))
    ∷ (if cause_code == 8 || cause_code == 9 || cause_code == 11
        then puts (bytes "System call from user mode\n") ∷ syscall_output ctx
        else panics (bytes "OOPS! What can I do!") ∷ [])

unfoldable pub trap_output : (cause : ℕ) → Context → Machine → List Output
unfolding interrupt_output exception_output
trap_output cause ctx m =
    let cause_code = bit_and cause (2 ^ 64 - 1 - interrupt_bit) in
    if bit_and cause interrupt_bit == 0
    then exception_output cause_code ctx
    else interrupt_output cause_code m

unfoldable pub show : Uart → (ℕ → ℕ) → Output → Shown
unfolding printf panic
show u out_buf (prints m) = printf u out_buf m.0 m.1
show u out_buf (puts s) = elim (uart_puts u s) [ none ↦ waiting | some u' ↦ shown 0 out_buf u' ]
show u out_buf (panics s) = panic u out_buf s

unfoldable pub show_all : Uart → (ℕ → ℕ) → List Output → Shown
unfolding show
show_all u out_buf [] = shown 0 out_buf u
show_all u out_buf (o ∷ os) = and_then (show u out_buf o) (λ u' buf'. show_all u' buf' os)

-- How a trap with its output ends: like the trap, with the buffer of `printf`; in a panic; in a wait for
-- the serial line; or in a call that C leaves undefined.
pub data Told : Type 0 where
  told : Trapped → (out_buf : ℕ → ℕ) → Told
  halted : Uart → Told
  untold : Shown → Told

abbrev pub with_uart : Machine → Uart → Machine
with_uart m u = record m { uart = u }

unfoldable pub trap_told : ℕ → Ptr → (epc cause : ℕ) → Context → Machine → (out_buf : ℕ → ℕ) → Told
unfolding trap_output show_all trap_handler
trap_told fuel timer epc cause ctx m out_buf =
    elim (show_all m.uart out_buf (trap_output cause ctx m)) [
      | shown res buf u ↦ told (trap_handler fuel timer epc cause ctx (with_uart m u)) buf
      | stopped u ↦ halted u
      | waiting ↦ untold waiting
      | meaningless ↦ untold meaningless
    ]
