-- ===== src/Entry/SleepCall.antt =====
-- The system call `sleep` of a task, from os/usys.S through the trap of os/entry.S to `trap_handler` of
-- os/trap.c and back, in the 64-bit build.
use xin_os.Base.{
  ℕ, ◌+◌, ◌*◌, ◌-◌, ◌^◌, ◌<◌, ◌≡◌, ◌≢◌, refl, ap, ◌∙◌, sym, subst, true, Option, some, List, arith,
  ◌==◌, Ptr, null, u64, length, Memory, update, update_ne, ne→==,
}
use xin_os.Chain.{NotIn}
use xin_os.Chain.Order.{IsSorted}
use xin_os.Task.{returned, task_at, kernel}
use xin_os.Timer.Insert.{IsTimerList}
use xin_os.Trap.{Machine, Context, Trapped, resumed, panicked, faulted, exhausted, trap_handler}
use xin_os.Trap.Dispatch.{IsCall, Slept, trap_handler_sleep}
use xin_os.Entry.{
  rv64, Cpu, ra, a0, a1, a2, a7, t6, run, load_bytes, trap_entry, trap_exit, trap_vector,
  sleep_call, sleep, Mode, u_mode, s_mode, m_mode, ecall_cause,
}
use xin_os.Entry.Enter.{Fits, Saved, trap_entry-Saved}
use xin_os.Entry.Resume.{Restored, trap_exit-Restored}

-- The registers of the context that `do_syscall` reads.
abbrev pub context_at : Memory → (ctx : Ptr) → Context
context_at m ctx = record { a0 = load_bytes 8 m (ctx + 9 * 8); a7 = load_bytes 8 m (ctx + 16 * 8) }

-- How the compiled `trap_handler` returns from `e` to `r`: with the address in a0, the current context
-- as before, and in the context only a0 written. Where it does not return nothing is asked of `r`.
abbrev pub Answers : Cpu → Cpu → Trapped → Type 0
Answers e r (resumed epc returned ctx m) =
    (r.x a0 ≡ epc)
    × (r.mscratch ≡ e.mscratch)
    × (load_bytes 8 r.mem (e.mscratch + 9 * 8) ≡ ctx.a0)
    × ((i : ℕ)
        → i < 31
        → i ≢ 9
        → load_bytes 8 r.mem (e.mscratch + i * 8) ≡ load_bytes 8 e.mem (e.mscratch + i * 8))
Answers e r (resumed epc (task_at p) ctx m) = Unit
Answers e r (resumed epc kernel ctx m) = Unit
Answers e r panicked = Unit
Answers e r faulted = Unit
Answers e r exhausted = Unit

-- What `trap_handler` does when it is entered with the registers of `e`.
abbrev pub handled : ℕ → Ptr → Machine → Cpu → Trapped
handled fuel timer m e = trap_handler fuel timer (e.x a0) (e.x a1) (context_at e.mem (e.x a2)) m

-- `sleep` returns 0 to its caller, whose other registers are as before, but for a7 and t6.
pub record SleepReturns (s : Cpu) (r : Option Cpu) : Type 0 where
  pub cpu : Cpu
  pub result : r ≡ some cpu
  pub success : cpu.x a0 ≡ 0
  pub goes_on : cpu.pc ≡ s.x ra
  pub number : cpu.x a7 ≡ 1
  pub last : cpu.x t6 ≡ s.mscratch
  pub context : cpu.mscratch ≡ s.mscratch
  pub regs : (j : ℕ) → 0 < j → j < t6 → j ≢ a0 → j ≢ a7 → cpu.x j ≡ s.x j

-- The context that `trap_handler` is given: the ticks in a0, and the number of the call in a7.
abbrev pub asks : Cpu → Context
asks s = record { a0 = s.x a0; a7 = 1 }

abbrev pub entered : Mode → ℕ → Cpu → Cpu
entered mode ecall_pc s = run rv64 (trap_entry rv64) (sleep_call rv64 mode ecall_pc s)

ecall_cause-IsCall : (mode : Mode) → IsCall (ecall_cause mode)
ecall_cause-IsCall u_mode = (omega arith, refl)
ecall_cause-IsCall s_mode = (omega arith, refl)
ecall_cause-IsCall m_mode = (omega arith, refl)

called-Fits :
    (mode : Mode) (s : Cpu) (ecall_pc : ℕ)
    → ((j : ℕ) → s.x j < 2 ^ 64)
    → ecall_pc + 4 < 2 ^ 64
    → Fits rv64 (sleep_call rv64 mode ecall_pc s)
unfolding sleep_call run update
called-Fits u_mode s ecall_pc fits small = ((λ j. ground (arith, fits j)), omega arith)
called-Fits s_mode s ecall_pc fits small = ((λ j. ground (arith, fits j)), omega arith)
called-Fits m_mode s ecall_pc fits small = ((λ j. ground (arith, fits j)), omega arith)

module _ (mode : Mode) (s : Cpu) (ecall_pc : ℕ) (fits : (j : ℕ) → s.x j < 2 ^ 64)
    (small : ecall_pc + 4 < 2 ^ 64) where
  called_reg : (j : ℕ) → j ≢ a7 → (sleep_call rv64 mode ecall_pc s).x j ≡ s.x j
  unfolding sleep_call run
  called_reg j ne = update_ne s.x a7 j 1 (ne→== j a7 ne)

  pub saved : Saved rv64 (sleep_call rv64 mode ecall_pc s) (entered mode ecall_pc s)
  saved =
      trap_entry-Saved rv64 (sleep_call rv64 mode ecall_pc s)
        (called-Fits mode s ecall_pc fits small)

  context : (entered mode ecall_pc s).mscratch ≡ s.mscratch
  unfolding sleep_call run
  context = saved.context

  -- A register's slot, by the number of the register.
  slot :
      (j : ℕ)
      → 0 < j
      → j < 32
      → load_bytes 8 (entered mode ecall_pc s).mem (s.mscratch + (j - 1) * 8)
        ≡ (sleep_call rv64 mode ecall_pc s).x j
  unfolding sleep_call run
  slot j low high =
      saved.slots (j - 1) (omega arith) ∙ ap (sleep_call rv64 mode ecall_pc s).x (omega arith)

  pub handled-asks :
      (fuel : ℕ) (timer : Ptr) (m : Machine)
      → handled fuel timer m (entered mode ecall_pc s)
        ≡ trap_handler fuel timer ecall_pc (ecall_cause mode) (asks s) m
  unfolding sleep_call run update
  handled-asks fuel timer m =
      let e = entered mode ecall_pc s in
      let ticks : load_bytes 8 e.mem (s.mscratch + 9 * 8) ≡ s.x a0 =
        slot a0 (omega arith) (omega arith) in
      let number : load_bytes 8 e.mem (s.mscratch + 16 * 8) ≡ 1 =
        slot a7 (omega arith) (omega arith) in
      rw (saved.epc, saved.cause, saved.ctx, ticks, number) refl

  module _ (trap_handler : Cpu → Cpu) (ctx : Context) (m : Machine)
      (h : Answers
        (entered mode ecall_pc s)
        (trap_handler (entered mode ecall_pc s))
        (resumed (u64 (ecall_pc + 4)) returned ctx m)) where
    behind : Cpu
    behind = trap_vector rv64 trap_handler (sleep_call rv64 mode ecall_pc s)

    back :
        Restored rv64
          (trap_handler (entered mode ecall_pc s)).mem
          s.mscratch
          (u64 (ecall_pc + 4))
          behind
    unfolding trap_vector behind
    back =
        let later = trap_handler (entered mode ecall_pc s) in
        let r = run rv64 (trap_exit rv64) later in
        subst (λ a. Restored rv64 later.mem s.mscratch a r) h.0
          (subst (λ p. Restored rv64 later.mem p (later.x a0) r) (h.1 ∙ context)
            (trap_exit-Restored rv64 later))

    -- A register other than a0 is what it was at `ecall`.
    behind_reg :
        (j : ℕ) → 0 < j → j < t6 → j ≢ a0 → behind.x j ≡ (sleep_call rv64 mode ecall_pc s).x j
    behind_reg j low high ne =
        let e = entered mode ecall_pc s in
        let later = trap_handler e in
        let which : 1 + (j - 1) ≡ j = omega arith in
        ap behind.x (sym which)
        ∙ back.regs (j - 1) (omega arith)
        ∙ ap (λ p. load_bytes 8 later.mem (p + (j - 1) * 8)) (sym context)
        ∙ h.3 (j - 1) (omega arith) (omega (arith, ne))
        ∙ ap (λ p. load_bytes 8 e.mem (p + (j - 1) * 8)) context
        ∙ slot j low (omega arith)

    sleep-SleepReturns : ctx.a0 ≡ 0 → SleepReturns s (sleep rv64 mode trap_handler ecall_pc s)
    unfolding sleep behind sleep_call
    sleep-SleepReturns zero =
        let later = trap_handler (entered mode ecall_pc s) in
        let pc : (behind.pc == ecall_pc + 4) ≡ true = ground (arith, back.goes_on) in
        record {
          cpu = record behind { pc = behind.x ra };
          result = rw pc refl;
          success =
              back.regs 9 (omega arith)
              ∙ ap (λ p. load_bytes 8 later.mem (p + 9 * 8)) (sym context)
              ∙ h.2
              ∙ zero;
          goes_on =
              behind_reg ra (omega arith) (omega arith) (omega arith) ∙ called_reg ra (omega arith);
          number = behind_reg a7 (omega arith) (omega arith) (omega arith);
          last = back.last;
          context = back.context;
          regs = λ j low high other number. behind_reg j low high other ∙ called_reg j number;
        }

-- A task calls `sleep` in the 64-bit build, from the machine mode in which the kernel runs its tasks or
-- from another one, with the timers in a list ordered by timeout and an object for the new timer
-- outside it, and the compiled `trap_handler` writes in the context only what the C code writes. Then
-- the current task sleeps, with a timer due in the ticks that the call's argument asks for, and a
-- software interrupt is asked for; and when the task goes on, the call returns 0 to its caller, with
-- the other registers as before, but 1 in a7 and the address of the context in t6.
pub sleep-Slept :
    (fuel : ℕ) (timer : Ptr) (m : Machine) (xs : List Ptr) (mode : Mode) (s : Cpu) (ecall_pc : ℕ)
    (trap_handler' : Cpu → Cpu)
    → timer ≢ null
    → IsTimerList m.timers xs
    → IsSorted m.timers.info.timeout xs
    → NotIn timer xs
    → length xs < fuel
    → ((j : ℕ) → s.x j < 2 ^ 64)
    → ecall_pc + 4 < 2 ^ 64
    → Answers
        (entered mode ecall_pc s)
        (trap_handler' (entered mode ecall_pc s))
        (handled fuel timer m (entered mode ecall_pc s))
    → Slept ecall_pc (asks s) m timer xs (handled fuel timer m (entered mode ecall_pc s))
      × SleepReturns s (sleep rv64 mode trap_handler' ecall_pc s)
sleep-Slept fuel timer m xs mode s ecall_pc trap_handler' nz q sorted out enough fits small
      answers =
    let same = handled-asks mode s ecall_pc fits small fuel timer m in
    let k =
      trap_handler_sleep fuel timer ecall_pc (ecall_cause mode) (asks s) m xs
        (ecall_cause-IsCall mode) refl nz q sorted out enough in
    let e = entered mode ecall_pc s in
    let h = subst (Answers e (trap_handler' e)) (same ∙ k.result) answers in
    (
      subst (Slept ecall_pc (asks s) m timer xs) (sym same) k,
      sleep-SleepReturns mode s ecall_pc fits small trap_handler' (record (asks s) { a0 = 0 })
          k.after h refl,
    )
