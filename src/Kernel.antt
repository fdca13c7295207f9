-- ===== src/Kernel.antt =====
-- os/kernel.c: `start_kernel` starts the serial line, the heap, the traps, the interrupt controller, the
-- clock and the scheduler, and then runs `kernel`, which creates the tasks of os/user.c. The addresses
-- of functions and the linker's symbols are the fields of a record.
pub mod Boot
pub mod Users
mod Tests
use xin_os.Base.{ℕ, ◌≡◌, Option, none, some, List, [], ◌∷◌, null, Ptr}
use xin_os.Hart.{Hart}
use xin_os.Page.{Heap, page_init}
use xin_os.Task.{Sched, Control, kernel, sched_init, back_os, task_create, task_yield}
use xin_os.Timer.{Timers, timer_init}
use xin_os.Uart.{Uart, uart_init}
use xin_os.Plic.{Plic, plic_init}
use xin_os.Printf.{Arg, number, Shown, shown, stopped, waiting, meaningless, printf, and_then}
use xin_os.Trap.{Machine, trap_init, with_sched}

pub record Image : Type 0 where
  pub text_start : ℕ
  pub text_end : ℕ
  pub rodata_start : ℕ
  pub rodata_end : ℕ
  pub data_start : ℕ
  pub data_end : ℕ
  pub bss_start : ℕ
  pub bss_end : ℕ
  pub trap_vector : ℕ
  pub kernel_pc : ℕ
  pub user_task1 : ℕ
  pub user_task2 : ℕ
  pub user_task3 : ℕ

pub record System : Type 0 where
  pub machine : Machine
  pub heap : Heap
  pub out_buf : ℕ → ℕ

-- "Hello XinOS\n"
abbrev pub hello : List ℕ
hello = b'H' ∷ b'e' ∷ b'l' ∷ b'l' ∷ b'o' ∷ b' ' ∷ b'X' ∷ b'i' ∷ b'n' ∷ b'O' ∷ b'S' ∷ 10 ∷ []

-- "HEAP_START = %x, HEAP_SIZE = %x, num of pages = %d\n"
abbrev pub heap_format : List ℕ
heap_format =
    b'H' ∷ b'E' ∷ b'A' ∷ b'P' ∷ b'_' ∷ b'S' ∷ b'T' ∷ b'A' ∷ b'R' ∷ b'T' ∷ b' ' ∷ b'=' ∷ b' ' ∷ b'%'
    ∷ b'x' ∷ b',' ∷ b' ' ∷ b'H' ∷ b'E' ∷ b'A' ∷ b'P' ∷ b'_' ∷ b'S' ∷ b'I' ∷ b'Z' ∷ b'E' ∷ b' '
    ∷ b'=' ∷ b' ' ∷ b'%' ∷ b'x' ∷ b',' ∷ b' ' ∷ b'n' ∷ b'u' ∷ b'm' ∷ b' ' ∷ b'o' ∷ b'f' ∷ b' '
    ∷ b'p' ∷ b'a' ∷ b'g' ∷ b'e' ∷ b's' ∷ b' ' ∷ b'=' ∷ b' ' ∷ b'%' ∷ b'd' ∷ 10 ∷ []

-- "TEXT:   0x%x -> 0x%x\n"
abbrev pub text_format : List ℕ
text_format =
    b'T' ∷ b'E' ∷ b'X' ∷ b'T' ∷ b':' ∷ b' ' ∷ b' ' ∷ b' ' ∷ b'0' ∷ b'x' ∷ b'%' ∷ b'x' ∷ b' ' ∷ b'-'
    ∷ b'>' ∷ b' ' ∷ b'0' ∷ b'x' ∷ b'%' ∷ b'x' ∷ 10 ∷ []

-- "RODATA: 0x%x -> 0x%x\n"
abbrev pub rodata_format : List ℕ
rodata_format =
    b'R' ∷ b'O' ∷ b'D' ∷ b'A' ∷ b'T' ∷ b'A' ∷ b':' ∷ b' ' ∷ b'0' ∷ b'x' ∷ b'%' ∷ b'x' ∷ b' ' ∷ b'-'
    ∷ b'>' ∷ b' ' ∷ b'0' ∷ b'x' ∷ b'%' ∷ b'x' ∷ 10 ∷ []

-- "DATA:   0x%x -> 0x%x\n"
abbrev pub data_format : List ℕ
data_format =
    b'D' ∷ b'A' ∷ b'T' ∷ b'A' ∷ b':' ∷ b' ' ∷ b' ' ∷ b' ' ∷ b'0' ∷ b'x' ∷ b'%' ∷ b'x' ∷ b' ' ∷ b'-'
    ∷ b'>' ∷ b' ' ∷ b'0' ∷ b'x' ∷ b'%' ∷ b'x' ∷ 10 ∷ []

-- "BSS:    0x%x -> 0x%x\n"
abbrev pub bss_format : List ℕ
bss_format =
    b'B' ∷ b'S' ∷ b'S' ∷ b':' ∷ b' ' ∷ b' ' ∷ b' ' ∷ b' ' ∷ b'0' ∷ b'x' ∷ b'%' ∷ b'x' ∷ b' ' ∷ b'-'
    ∷ b'>' ∷ b' ' ∷ b'0' ∷ b'x' ∷ b'%' ∷ b'x' ∷ 10 ∷ []

-- "HEAP:   0x%x -> 0x%x\n"
abbrev pub pages_format : List ℕ
pages_format =
    b'H' ∷ b'E' ∷ b'A' ∷ b'P' ∷ b':' ∷ b' ' ∷ b' ' ∷ b' ' ∷ b'0' ∷ b'x' ∷ b'%' ∷ b'x' ∷ b' ' ∷ b'-'
    ∷ b'>' ∷ b' ' ∷ b'0' ∷ b'x' ∷ b'%' ∷ b'x' ∷ 10 ∷ []

-- A call of `printf`: the format and the arguments.
abbrev pub Message : Type 0
Message = List ℕ × List Arg

abbrev two : List ℕ → ℕ → ℕ → Message
two format a b = (format, number a ∷ number b ∷ [])

-- What `page_init` prints; the heap is the one that it has set up.
abbrev pub page_report : Image → Heap → List Message
page_report i h =
    (heap_format, number h.heap_start ∷ number h.heap_size ∷ number h.num_pages ∷ [])
    ∷ two text_format i.text_start i.text_end
    ∷ two rodata_format i.rodata_start i.rodata_end
    ∷ two data_format i.data_start i.data_end
    ∷ two bss_format i.bss_start i.bss_end
    ∷ two pages_format h.alloc_start h.alloc_end
    ∷ []

-- Calls of `printf` one after the other.
pub printf_all : Uart → (ℕ → ℕ) → List Message → Shown
unfolding printf
printf_all u buf [] = shown 0 buf u
printf_all u buf ((s, args) ∷ ms) =
    and_then (printf u buf s args) (λ u' buf'. printf_all u' buf' ms)

abbrev on_hart : Timers → (Hart → Hart) → Timers
on_hart t f = let c = t.sched in record t { sched = record c { hart = f c.hart } }

abbrev pub plic_start : Machine → Machine
plic_start m =
    let t = m.timers in
    let c = t.sched in
    let (plic, hart) = plic_init m.plic c.hart in
    record m { plic = plic; timers = record t { sched = record c { hart = hart } } }

-- The calls of `start_kernel` from `trap_init` on; `none` when the fuel runs out before the list of
-- timers ends.
unfoldable pub start_parts : ℕ → Image → Machine → Option (Machine × Control)
unfolding trap_init plic_init timer_init sched_init back_os
start_parts fuel i m =
    let m1 = record m { timers = on_hart m.timers (trap_init i.trap_vector) } in
    let m2 = plic_start m1 in
    elim (timer_init fuel m2.timers) [
      | none ↦ none
      | some t ↦
          let (s, to) = back_os (sched_init i.kernel_pc t.sched) in
          some (with_sched (record m2 { timers = t }) s, to)
    ]

-- How `start_kernel` ends: something runs, or a message cannot be shown.
pub data Booted : Type 0 where
  booted : System → Control → Booted
  unshown : Shown → Booted
  no_fuel : Booted

abbrev pub boot_parts : ℕ → Image → System → Heap → Uart → (ℕ → ℕ) → Booted
boot_parts fuel i s h u buf =
    let m = s.machine in
    elim (start_parts fuel i (record m { uart = u })) [
      | none ↦ no_fuel
      | some (m', to) ↦ booted (record { machine = m'; heap = h; out_buf = buf }) to
    ]

-- `page_init` prints between its writes; a message changes nothing in the heap, so here all messages
-- are printed behind the writes.
unfoldable pub start_kernel : ℕ → Image → System → Booted
unfolding uart_init page_init printf_all start_parts
start_kernel fuel i s =
    let h = page_init s.heap in
    elim (printf_all (uart_init s.machine.uart) s.out_buf ((hello, []) ∷ page_report i h)) [
      | shown res buf u ↦ boot_parts fuel i s h u buf
      | stopped u ↦ unshown (stopped u)
      | waiting ↦ unshown waiting
      | meaningless ↦ unshown meaningless
    ]

abbrev then_task : Option (ℕ × Sched) → (Sched → Option Sched) → Option Sched
then_task none f = none
then_task (some (result, s)) f = f s

-- `t1`, `t2` and `t3` are what `malloc` returns.
unfoldable pub user_init : ℕ → Image → (t1 t2 t3 : Ptr) → Sched → Option Sched
unfolding task_create
user_init fuel i t1 t2 t3 s = then_task (task_create fuel s t1 i.user_task1 null 100 5) (λ s1.
    then_task (task_create fuel s1 t2 i.user_task2 null 105 10)
      (λ s2. then_task (task_create fuel s2 t3 i.user_task3 null 110 10) (λ s3. some s3)))

-- `kernel` up to its first `task_yield`; every further round of its loop is `task_yield` again.
unfoldable pub kernel_task : ℕ → Image → (t1 t2 t3 : Ptr) → Sched → Option Sched
unfolding user_init task_yield
kernel_task fuel i t1 t2 t3 s = elim (user_init fuel i t1 t2 t3 s) [
  | none ↦ none
  | some s' ↦ some (task_yield s')
]
