-- ===== src/Trap/Dispatch.antt =====
-- Which handler os/trap.c runs for a cause, and the system call `sleep`.
use xin_os.Base.{
  ℕ, ◌+◌, ◌-◌, ◌*◌, ◌/◌, ◌%◌, ◌^◌, ◌<◌, ◌≡◌, ◌≢◌, refl, ap, ◌∙◌, true, false, List, arith, ◌==◌,
  ◌||◌, Ptr, null, u64, length, bit_and, bit_and-sign, bit_and-low, update, update_self,
}
use xin_os.Chain.Order.{IsSorted}
use xin_os.Chain.{NotIn}
use xin_os.Task.{Sched, TaskInfo, sleeping, returned, task_yield}
use xin_os.Timer.{Timers, task_delay}
use xin_os.Timer.Insert.{IsTimerList, timer_create-TimerCreated}
use xin_os.Trap.{
  Machine, Context, interrupt, exception, interrupt_bit, trap_handler, do_syscall, Trapped, resumed,
}

sign_of : (a : ℕ) → a < 2 ^ 64 → bit_and a interrupt_bit ≡ a / 2 ^ 31 * 2 ^ 31
sign_of a fits =
    let e : bit_and a interrupt_bit ≡ a / 2 ^ 31 % 2 ^ 33 * 2 ^ 31 = bit_and-sign 33 a in
    omega (arith, e)

code_of : (a : ℕ) → bit_and a (2 ^ 64 - 1 - interrupt_bit) ≡ a % 2 ^ 31
code_of a = bit_and-low 31 a

-- The parts of a cause with the top bit of the 64-bit register set, and of one without it.
pub cause_parts :
    (code : ℕ)
    → code < 2 ^ 31
    → ((bit_and (2 ^ 63 + code) interrupt_bit == 0) ≡ false)
      × (bit_and (2 ^ 63 + code) (2 ^ 64 - 1 - interrupt_bit) ≡ code)
      × ((bit_and code interrupt_bit == 0) ≡ true)
      × (bit_and code (2 ^ 64 - 1 - interrupt_bit) ≡ code)
cause_parts code small =
    let a = 2 ^ 63 + code in
    let set = sign_of a (omega arith) in
    let unset = sign_of code (omega arith) in
    (
      ground (arith, set),
      omega (arith, code_of a),
      ground (arith, unset),
      omega (arith, code_of code),
    )

-- A cause with the top bit of the 64-bit register set is an interrupt, one without it an exception,
-- each with its code, for the codes below 2 ^ 31.
pub trap_handler_dispatch :
    (fuel : ℕ) (timer : Ptr) (epc code : ℕ) (ctx : Context) (m : Machine)
    → code < 2 ^ 31
    → (trap_handler fuel timer epc (2 ^ 63 + code) ctx m ≡ interrupt fuel epc code ctx m)
      × (trap_handler fuel timer epc code ctx m ≡ exception fuel timer epc code ctx m)
unfolding trap_handler
trap_handler_dispatch fuel timer epc code ctx m small =
    let p = cause_parts code small in
    (rw (trap_handler, p.0, p.1) refl, rw (trap_handler, p.2, p.3) refl)

-- The code of an exception that is a system call: an `ecall` from user, supervisor or machine mode.
abbrev pub IsCall : ℕ → Type 0
IsCall code = (code < 2 ^ 31) × ((code == 8 || code == 9 || code == 11) ≡ true)

-- The current task sleeps, its timer is in the ordered list, and a software interrupt is pending.
pub record Slept (epc : ℕ) (ctx : Context) (m : Machine) (timer : Ptr) (xs : List Ptr) (r : Trapped)
    : Type 0 where
  pub after : Machine
  pub result : r ≡ resumed (u64 (epc + 4)) returned (record ctx { a0 = 0 }) after
  pub list : List Ptr
  pub timers : IsTimerList after.timers list
  pub ordered : IsSorted after.timers.info.timeout list
  pub due : after.timers.info.timeout timer ≡ u64 (m.timers.ticks + ctx.a0)
  pub whose : after.timers.info.task timer ≡ m.timers.sched.cur_task
  pub silent : after.timers.info.func timer ≡ null
  pub asleep : after.timers.sched.tasks.state m.timers.sched.cur_task ≡ sleeping
  pub asked : after.timers.sched.hart.msip ≡ 1

-- With the timers in a list ordered by timeout and an object for the new timer outside it, the
-- system call `sleep`, from any mode, makes the current task SLEEPING, puts a timer without function for it, due
-- in the ticks it asks for, into the ordered list, asks for a software interrupt, sets a0 to 0,
-- and goes on at the instruction behind the call.
pub trap_handler_sleep :
    (fuel : ℕ) (timer : Ptr) (epc code : ℕ) (ctx : Context) (m : Machine) (xs : List Ptr)
    → IsCall code
    → ctx.a7 ≡ 1
    → timer ≢ null
    → IsTimerList m.timers xs
    → IsSorted m.timers.info.timeout xs
    → NotIn timer xs
    → length xs < fuel
    → Slept epc ctx m timer xs (trap_handler fuel timer epc code ctx m)
unfolding exception do_syscall task_delay task_yield
trap_handler_sleep fuel timer epc code ctx m xs (small, is_call) call nz q sorted out enough =
    let c = m.timers.sched in
    let t = c.tasks in
    let tasks : TaskInfo = record t { state = update t.state c.cur_task sleeping } in
    let s0 = m.timers in
    let s1 : Timers = record s0 { sched = record c { tasks = tasks } } in
    let q1 : IsTimerList s1 xs = record { chain = q.chain; distinct = q.distinct } in
    let k = timer_create-TimerCreated fuel s1 timer null null ctx.a0 xs nz q1 sorted out enough in
    let k_after = k.after in
    let g : (ctx.a7 == 1) ≡ true = ground arith in
    let d = (trap_handler_dispatch fuel timer epc code ctx m small).1 in
    record {
      after = record m { timers = record k_after { sched = task_yield k_after.sched } };
      result = d ∙ rw (exception, is_call, do_syscall, g, task_delay, k.result) refl;
      list = k.list;
      timers = record { chain = k.timers.chain; distinct = k.timers.distinct };
      ordered = k.ordered;
      due = k.due;
      whose = k.whose;
      silent = k.what.0;
      asleep =
          ap (λ (z : Sched). z.tasks.state c.cur_task) k.sched
          ∙ update_self t.state c.cur_task sleeping;
      asked = refl;
    }

-- A system call with a number other than 1 changes nothing but a0, which gets -1, and goes on
-- behind the call.
pub trap_handler_unknown :
    (fuel : ℕ) (timer : Ptr) (epc code : ℕ) (ctx : Context) (m : Machine)
    → IsCall code
    → ctx.a7 ≢ 1
    → trap_handler fuel timer epc code ctx m
      ≡ resumed (u64 (epc + 4)) returned (record ctx { a0 = 2 ^ 64 - 1 }) m
unfolding exception do_syscall
trap_handler_unknown fuel timer epc code ctx m (small, is_call) other =
    let g : (ctx.a7 == 1) ≡ false = ground arith in
    (trap_handler_dispatch fuel timer epc code ctx m small).1
    ∙ rw (exception, is_call, do_syscall, g) refl
