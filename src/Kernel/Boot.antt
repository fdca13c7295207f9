-- ===== src/Kernel/Boot.antt =====
-- What `start_kernel` of os/kernel.c leaves behind.
use mathlib.Core.List.{append-nil, append_assoc}
use xin_os.Base.{
  ℕ, suc, ◌+◌, ◌-◌, ◌*◌, ◌/◌, ◌%◌, ◌^◌, ◌≤◌, ◌<◌, ◌≡◌, refl, ap, sym, ◌∙◌, true, false, some, List,
  [], ◌∷◌, ◌++◌, arith, null, length, bit_or, bit_or-mask, update, update_self, u64,
}
use xin_os.Hart.{
  Hart, w_mie, w_mstatus, w_mtvec, w_mscratch, mie_meie, mie_mtie, mie_msie, mstatus_mie,
}
use xin_os.Page.{page_init}
use xin_os.Page.Layout.{IsLayout, page_init-IsLayout}
use xin_os.Task.{kernel, running, sched_init, back_os}
use xin_os.Timer.{Timers, timer_interval}
use xin_os.Timer.Alarm.{timer_init_none}
use xin_os.Uart.{Uart, is_line, uart_init}
use xin_os.Uart.Send.{Idles, Idles-none, Idles-append}
use xin_os.Uart.Setup.{uart_init_lem}
use xin_os.Plic.{uart0_irq, plic_init}
use xin_os.Plic.Setup.{bit_or-sets_ten}
use xin_os.Printf.{shown}
use xin_os.Printf.Text.{render}
use xin_os.Printf.Line.{NoZero, printf-sends}
use xin_os.Trap.{Machine, trap_init}
use xin_os.Kernel.{
  Image, System, Message, hello, page_report, printf_all, start_parts, Booted, booted, boot_parts,
  start_kernel,
}

-- The messages stand for the texts that make up `xs`, each of them short and without a 0.
pub data Texts : List Message → List ℕ → Type 0 where
  no_text : Texts [] []
  text_then :
      {ms : List Message} {ys : List ℕ}
      → (m : Message) (xs : List ℕ) → render m.0 false false m.1 ≡ some xs
      → length xs < 1023
      → NoZero xs
      → Texts ms ys
      → Texts (m ∷ ms) (xs ++ ys)

-- Calls of `printf` one after the other send the texts one after the other.
pub printf_all-sends :
    (u : Uart) (b : ℕ → ℕ) (ms : List Message) (xs rest : List ℕ)
    → Texts ms xs
    → is_line u ≡ true
    → Idles (length xs) u.status rest
    → (res : ℕ) × (buf : ℕ → ℕ) × (printf_all u b ms
        ≡ shown res buf (record u { status = rest; sent = u.sent ++ xs }))
unfolding printf_all
printf_all-sends u b [] _ rest no_text line i = (
  0,
  b,
  ap (λ (l : List ℕ). shown 0 b (record u { status = l })) (Idles-none i)
      ∙ ap (λ (l : List ℕ). shown 0 b (record u { status = rest; sent = l }))
          (sym (append-nil u.sent)),
)
printf_all-sends u b (m ∷ ms) _ rest (text_then {ys} _ xs e short nz more) line i =
    let (mid, i1, i2) = Idles-append xs ys i in
    let p = printf-sends u b m.0 m.1 xs mid e short nz line i1 in
    let u' : Uart = record u { status = mid; sent = u.sent ++ xs } in
    let (res, buf, q) = printf_all-sends u' p.0 ms ys rest more line i2 in
    (
      res,
      buf,
      rw (printf_all, p.1, q)
          (ap (λ (l : List ℕ). shown res buf (record u { status = rest; sent = l }))
            (append_assoc u.sent xs ys)),
    )

-- All three sources of interrupts are enabled.
enables_all :
    (a : ℕ)
    → (let v = bit_or (bit_or (bit_or a mie_meie) mie_mtie) mie_msie in
        (v / 2 ^ 11 % 2 ≡ 1) × (v / 2 ^ 7 % 2 ≡ 1) × (v / 2 ^ 3 % 2 ≡ 1))
enables_all a =
    let b = bit_or a mie_meie in
    let c = bit_or b mie_mtie in
    let eb = bit_or-mask 11 1 a in
    let ec = bit_or-mask 7 1 b in let ed = bit_or-mask 3 1 c in omega (arith, eb, ec, ed)

-- What the serial line, the heap, the hart, the interrupt controller and the kernel's task are then.
pub record Started (i : Image) (s : System) (xs : List ℕ) (r : Booted) : Type 0 where
  pub after : System
  pub result : r ≡ booted after kernel
  pub layout : IsLayout after.heap
  pub heap_end : after.heap.alloc_end ≡ s.heap.heap_start + s.heap.heap_size
  pub shown_all : after.machine.uart.sent ≡ s.machine.uart.sent ++ xs
  pub line : (after.machine.uart.ier ≡ 1) × (after.machine.uart.lcr ≡ 3)
  pub controller :
      (after.machine.plic.uart_priority ≡ 1)
      × (after.machine.plic.mthreshold ≡ 0)
      × (after.machine.plic.menable / 2 ^ 10 % 2 ≡ 1)
  pub enabled :
      (let v = after.machine.timers.sched.hart.mie in
        (v / 2 ^ 11 % 2 ≡ 1) × (v / 2 ^ 7 % 2 ≡ 1) × (v / 2 ^ 3 % 2 ≡ 1))
  pub interrupts : after.machine.timers.sched.hart.mstatus / 2 ^ 3 % 2 ≡ 1
  pub mode : after.machine.timers.sched.hart.mstatus / 2 ^ 11 % 4 ≡ 3
  pub vector : after.machine.timers.sched.hart.mtvec ≡ i.trap_vector
  pub alarm :
      after.machine.timers.sched.hart.mtimecmp ≡ u64 (s.machine.timers.sched.hart.mtime + 10000000)
  pub entry : (let c = after.machine.timers.sched in c.tasks.ctx_pc c.os_task ≡ i.kernel_pc)

-- The hart and the scheduler behind the calls from `trap_init` on.
abbrev hart_end : Image → Hart → Hart
hart_end i h = record h {
  mtvec = i.trap_vector;
  mstatus = bit_or (bit_or h.mstatus mstatus_mie) (3 * 2 ^ 11);
  mie = bit_or (bit_or (bit_or h.mie mie_meie) mie_mtie) mie_msie;
  mtimecmp = u64 (h.mtime + timer_interval);
  mscratch = 0;
}

abbrev parts_end : Image → Machine → Machine
parts_end i m =
    let c = m.timers.sched in
    let t = c.tasks in
    let p = m.plic in
    record m {
      plic = record p {
        uart_priority = 1;
        menable = bit_or p.menable (2 ^ uart0_irq);
        mthreshold = 0;
      };
      timers = record m.timers {
        sched = record c {
          tasks = record t {
            task_id = update t.task_id c.os_task 0;
            priority = update t.priority c.os_task 0;
            state = update t.state c.os_task running;
            timeslice = update t.timeslice c.os_task 0xffff_ffff;
            next = update t.next c.os_task null;
            ctx_sp = update t.ctx_sp c.os_task (c.os_stack + 1024 - 1);
            ctx_pc = update t.ctx_pc c.os_task i.kernel_pc;
          };
          hart = hart_end i c.hart;
        };
      };
    }

start_parts_lem :
    (fuel : ℕ) (i : Image) (m : Machine)
    → m.timers.first_timer ≡ null
    → start_parts (suc fuel) i m ≡ some (parts_end i m, kernel)
unfolding start_parts trap_init plic_init sched_init back_os w_mie w_mstatus w_mtvec w_mscratch
start_parts_lem fuel i m e =
    let c = m.timers.sched in
    let h = c.hart in
    let h1 : Hart = record h {
      mtvec = i.trap_vector;
      mie = bit_or h.mie mie_meie;
      mstatus = bit_or h.mstatus mstatus_mie;
    } in
    let t1 : Timers = record m.timers { sched = record c { hart = h1 } } in
    rw (start_parts, timer_init_none fuel t1 e) refl

enabled_mode :
    (a : ℕ)
    → (let v = bit_or (bit_or a mstatus_mie) (3 * 2 ^ 11) in
        (v / 2 ^ 3 % 2 ≡ 1) × (v / 2 ^ 11 % 4 ≡ 3))
enabled_mode a =
    let b = bit_or a mstatus_mie in
    let eb = bit_or-mask 3 1 a in let ec = bit_or-mask 11 2 b in omega (arith, eb, ec)

-- If the serial line shows its registers, no timer exists, the heap has 9 pages to 128 MB and ends at a
-- page boundary, the messages stand for `xs`, and the transmitter becomes idle often enough, then
-- `start_kernel` reaches the kernel's task: all messages are sent in order, the heap is laid out, the
-- interrupts of the timer, of software and of the serial line are enabled and lead to `trap_vector`, and
-- the first alarm is one interval away.
pub start_kernel-Started :
    (fuel : ℕ) (i : Image) (s : System) (xs rest : List ℕ)
    → is_line s.machine.uart ≡ true
    → s.machine.timers.first_timer ≡ null
    → (0 < s.heap.heap_start) × (s.heap.heap_start + s.heap.heap_size < 2 ^ 62)
    → (9 * 4096 ≤ s.heap.heap_size) × (s.heap.heap_size ≤ 2 ^ 27)
    → (s.heap.heap_start + s.heap.heap_size) % 4096 ≡ 0
    → Texts ((hello, []) ∷ page_report i (page_init s.heap)) xs
    → Idles (length xs) s.machine.uart.status rest
    → Started i s xs (start_kernel (suc fuel) i s)
unfolding start_kernel
start_kernel-Started fuel i s xs rest line none_yet placed sized ends texts idles =
    let m = s.machine in
    let u = m.uart in
    let u0 : Uart = record u { ier = 1; lcr = 3; dll = 3; dlm = 0 } in
    let e0 : uart_init u ≡ u0 = uart_init_lem u line in
    let h = page_init s.heap in
    let (lay, end, _, _) = page_init-IsLayout s.heap placed.0 placed.1 sized.0 sized.1 ends in
    let (res, buf, sends) =
      printf_all-sends u0 s.out_buf ((hello, []) ∷ page_report i h) xs rest texts refl idles in
    let m1 : Machine = record m { uart = record u0 { status = rest; sent = u.sent ++ xs } } in
    let parts = start_parts_lem fuel i m1 none_yet in
    let c = m.timers.sched in
    let (on, mode) = enabled_mode c.hart.mstatus in
    record {
      after = record { machine = parts_end i m1; heap = h; out_buf = buf };
      result = rw (start_kernel, e0, sends, boot_parts, parts) refl;
      layout = lay;
      heap_end = end;
      shown_all = refl;
      line = (refl, refl);
      controller = (refl, refl, bit_or-sets_ten m.plic.menable);
      enabled = enables_all c.hart.mie;
      interrupts = on;
      mode = mode;
      vector = refl;
      alarm = refl;
      entry = update_self c.tasks.ctx_pc c.os_task i.kernel_pc;
    }
