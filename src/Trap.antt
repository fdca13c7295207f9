-- ===== src/Trap.antt =====
-- os/trap.c and os/syscall.c: the dispatch of interrupts and exceptions to the timers, the scheduler,
-- the serial line and the system calls. The messages that the handlers print are in Trap/Messages.
pub mod Dispatch
pub mod Switch
pub mod Input
pub mod Messages
pub mod Spoken
pub mod Says
pub mod Told
pub mod Example
mod Tests
use xin_os.Base.{
  ℕ, ◌+◌, ◌-◌, ◌%◌, ◌^◌, bit_and, bit_or, Bool, true, false, ◌||◌, Option, none, some, List, [],
  ◌∷◌, ◌++◌, ◌==◌, if◌then◌else◌, Ptr, u64,
}
use xin_os.Hart.{Hart, w_mie, w_mstatus, w_mtvec, mie_meie, mstatus_mie}
use xin_os.Uart.{Uart, uart_ier}
use xin_os.Plic.{Plic, uart0_irq, plic_claim, plic_complete}
use xin_os.Task.{Sched, Control, returned, schedule}
use xin_os.Timer.{Timers, Tick, ticked, tick_fault, tick_no_fuel, timer_handler, task_delay}

pub record Machine : Type 0 where
  pub timers : Timers
  pub plic : Plic
  pub uart : Uart

-- The saved registers that a system call reads and writes.
pub record Context : Type 0 where
  pub a0 : ℕ
  pub a7 : ℕ

abbrev pub with_sched : Machine → Sched → Machine
with_sched m c = let t = m.timers in record m { timers = record t { sched = c } }

unfoldable pub trap_init : (trap_vector : ℕ) → Hart → Hart
unfolding w_mtvec
trap_init trap_vector h = w_mtvec h trap_vector

abbrev pub complete : Machine → ℕ → Machine
complete m irq = record m { plic = plic_complete m.plic irq }

-- An interrupt of the serial line is served by `uart_ier`; every other source is only completed.
unfoldable pub external_interrupt_handler : ℕ → Machine → Option Machine
unfolding uart_ier
external_interrupt_handler fuel m =
    let irq = plic_claim m.plic in
    if irq == uart0_irq
    then elim (uart_ier fuel m.uart) [
      | none ↦ none
      | some u ↦ some (complete (record m { uart = u }) irq)
    ]
    else if irq == 0
    then some m
    else some (complete m irq)

-- The interrupt is acknowledged, then the next task runs.
unfoldable pub software_interrupt_handler : ℕ → Machine → Option (Machine × Control)
unfolding schedule
software_interrupt_handler fuel m =
    let c = m.timers.sched in
    let h = c.hart in
    elim (schedule fuel (record c { hart = record h { msip = 0 } })) [
      | none ↦ none
      | some (s, to) ↦ some (with_sched m s, to)
    ]

-- `timer` is the address that `malloc` returns to `timer_create`.
unfoldable pub do_syscall : ℕ → Ptr → Context → Machine → Option (Context × Machine)
unfolding task_delay
do_syscall fuel timer ctx m =
    if ctx.a7 == 1
    then elim (task_delay fuel m.timers timer ctx.a0) [
      | none ↦ none
      | some t ↦ some (record ctx { a0 = 0 }, record m { timers = t })
    ]
    else some (record ctx { a0 = 2 ^ 64 - 1 }, m)

-- How a trap ends: the address to go on at, unless another task or the kernel runs now; a panic; a
-- read through NULL; or no fuel.
pub data Trapped : Type 0 where
  resumed : (return_epc : ℕ) → Control → Context → Machine → Trapped
  panicked : Trapped
  faulted : Trapped
  exhausted : Trapped

unfoldable pub interrupt : ℕ → ℕ → ℕ → Context → Machine → Trapped
unfolding software_interrupt_handler timer_handler external_interrupt_handler
interrupt fuel epc cause_code ctx m =
    if cause_code == 3
    then elim (software_interrupt_handler fuel m) [
      | none ↦ exhausted
      | some (m', to) ↦ resumed epc to ctx m'
    ]
    else if cause_code == 7
    then elim (timer_handler fuel m.timers) [
      | ticked t to calls ↦ resumed epc to ctx (record m { timers = t })
      | tick_fault ↦ faulted
      | tick_no_fuel ↦ exhausted
    ]
    else if cause_code == 11
    then elim (external_interrupt_handler fuel m) [
      | none ↦ exhausted
      | some m' ↦ resumed epc returned ctx m'
    ]
    else resumed epc returned ctx m

unfoldable pub exception : ℕ → Ptr → ℕ → ℕ → Context → Machine → Trapped
unfolding do_syscall
exception fuel timer epc cause_code ctx m =
    if cause_code == 8 || cause_code == 9 || cause_code == 11
    then elim (do_syscall fuel timer ctx m) [
      | none ↦ exhausted
      | some (ctx', m') ↦ resumed (u64 (epc + 4)) returned ctx' m'
    ]
    else panicked

-- MXLEN is 32 in both builds: `1 << (MXLEN - 1)` is the smallest int, whose sign fills the upper half
-- of a 64-bit word.
abbrev pub interrupt_bit : ℕ
interrupt_bit = 2 ^ 64 - 2 ^ 31

unfoldable pub trap_handler : ℕ → Ptr → (epc cause : ℕ) → Context → Machine → Trapped
unfolding interrupt exception
trap_handler fuel timer epc cause ctx m =
    let cause_code = bit_and cause (2 ^ 64 - 1 - interrupt_bit) in
    if bit_and cause interrupt_bit == 0
    then exception fuel timer epc cause_code ctx m
    else interrupt fuel epc cause_code ctx m
