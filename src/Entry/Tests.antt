-- ===== src/Entry/Tests.antt =====
-- Runs of os/entry.S, and the theorems about it at concrete registers.
use xin_os.Base.{
  ℕ, ◌+◌, ◌*◌, ◌^◌, ◌<◌, ◌≡◌, refl, ◌∙◌, sym, subst, inr, arith, ◌==◌, if◌then◌else◌, update,
}
use xin_os.Trap.{Machine, Context, resumed}
use xin_os.Task.{returned}
use xin_os.Trap.Example.{machine, two, two-IsTimerList, two-IsSorted}
use xin_os.Trap.Dispatch.{Slept, trap_handler_sleep}
use xin_os.Entry.{
  rv32, m_mode, rv64, Cpu, run, trap_entry, switch_to, sleep, sleep_call, store_bytes, a0,
}
use xin_os.Entry.Bytes.{load_bytes_same, load_bytes-store_bytes, store_bytes_other}
use xin_os.Entry.RoundTrip.{Meanwhile, start, works, traps, switches, GoesOn, switch_to-trap_entry}
use xin_os.Entry.SleepCall.{
  SleepReturns, Answers, handled, asks, entered, handled-asks, saved, sleep-Slept,
}

-- A task with its context at 1000.
abbrev small_task : Cpu
small_task = record {
  x = λ j. if j == 2 then 0x5000 else if j == 31 then 77 else 5;
  pc = 0;
  mepc = 0x8000;
  mcause = 7;
  mscratch = 1000;
  mem = λ _. 0;
}

-- The task with its context at 2000 is switched to, and interrupted; then the first one is chosen again.
other : Cpu
other = run rv64 (switch_to rv64) (record (run rv64 (trap_entry rv64) small_task) { x = λ _. 2000 })

later : Cpu
later = record (run rv64 (trap_entry rv64) other) { x = λ _. 1000 }

other_context : other.mscratch ≡ 2000
unfolding other run switch_to
other_context = refl

between : Meanwhile rv64 1000 (run rv64 (trap_entry rv64) small_task) later
unfolding later other
between =
    works (traps (switches (works start (λ i _. refl))) (inr (omega (arith, other_context))))
      (λ i _. refl)

switch_to-trap_entry_example : GoesOn rv64 small_task 0x8000 (run rv64 (switch_to rv64) later)
unfolding later
switch_to-trap_entry_example =
    switch_to-trap_entry rv64 small_task later ((λ j. ground arith), omega arith) between refl

-- In the 32-bit build t6 comes back.
resumed_t6 :
    (run rv32 (switch_to rv32) (record (run rv32 (trap_entry rv32) small_task) { x = λ _. 1000 })).x
      31
    ≡ 77
unfolding run switch_to trap_entry
resumed_t6 = refl

-- A compiled `trap_handler`, as far as `sleep` sees it.
answer : Cpu → Cpu
answer e = record e {
  x = update e.x a0 (e.x a0 + 4);
  mem = store_bytes 8 e.mem (e.mscratch + 9 * 8) 0;
}

answer-Answers :
    (e : Cpu) (epc : ℕ) (ctx : Context) (m : Machine)
    → e.x a0 + 4 ≡ epc
    → ctx.a0 ≡ 0
    → Answers e (answer e) (resumed epc returned ctx m)
unfolding answer update
answer-Answers e epc ctx m pc success = (
  pc,
  refl,
  load_bytes-store_bytes 8 e.mem (e.mscratch + 9 * 8) 0 (omega arith) ∙ sym success,
  (λ i small ne. load_bytes_same 8 (answer e).mem e.mem (e.mscratch + i * 8) (λ k inside.
      store_bytes_other 8 e.mem (e.mscratch + 9 * 8) 0 (e.mscratch + i * 8 + k)
        (ground (arith, ne)))),
)

-- The caller of `sleep(13)`.
abbrev caller : Cpu
caller = record {
  x = λ j. if j == 1 then 0x8100 else if j == 10 then 13 else 5;
  pc = 0;
  mepc = 0;
  mcause = 0;
  mscratch = 1000;
  mem = λ _. 0;
}

caller-Fits : (j : ℕ) → caller.x j < 2 ^ 64
caller-Fits j = ground arith

entered-epc : (entered m_mode 0x9000 caller).x a0 ≡ 0x9000
unfolding sleep_call run
entered-epc = (saved m_mode caller 0x9000 caller-Fits (omega arith)).epc

answered :
    Answers
      (entered m_mode 0x9000 caller)
      (answer (entered m_mode 0x9000 caller))
      (handled 5 30 machine (entered m_mode 0x9000 caller))
answered =
    let e = entered m_mode 0x9000 caller in
    let k =
      trap_handler_sleep 5 30 0x9000 11 (asks caller) machine two (omega arith, refl) refl
        (omega arith) two-IsTimerList two-IsSorted (omega arith) (omega arith) in
    let same = handled-asks m_mode caller 0x9000 caller-Fits (omega arith) 5 30 machine in
    subst (Answers e (answer e)) (sym (same ∙ k.result)) (
      answer-Answers e 0x9004 (record (asks caller) { a0 = 0 }) k.after (omega (arith, entered-epc))
        refl)

sleep-Slept_example :
    Slept 0x9000 (asks caller) machine 30 two (handled 5 30 machine (entered m_mode 0x9000 caller))
    × SleepReturns caller (sleep rv64 m_mode answer 0x9000 caller)
sleep-Slept_example =
    sleep-Slept 5 30 machine two m_mode caller 0x9000 answer (omega arith) two-IsTimerList
      two-IsSorted (omega arith) (omega arith) caller-Fits (omega arith) answered
