-- ===== src/Trap/Told.antt =====
-- A trap of os/trap.c with its output: what is sent, and what the trap does then.
use xin_os.Base.{
  ℕ, ◌+◌, ◌-◌, ◌^◌, ◌≡◌, Bool, true, false, ◌||◌, ◌==◌, if◌then◌else◌, List, Ptr, u64,
}
use xin_os.Task.{returned}
use xin_os.Trap.{Machine, Context, Trapped, resumed, interrupt, exception}
use xin_os.Trap.Messages.{Told, told, halted, with_uart}
use xin_os.Trap.Spoken.{Spoken, goes_on, dies, sent_on}
use xin_os.Trap.Says.{interrupt_text, exception_text}

-- An interrupt or an exception with its code.
abbrev pub cause_of : (is_interrupt : Bool) → (code : ℕ) → ℕ
cause_of true code = 2 ^ 63 + code
cause_of false code = code

abbrev pub trap_text : (is_interrupt : Bool) → (code : ℕ) → Context → Machine → Spoken
trap_text true code ctx m = goes_on (interrupt_text code m)
trap_text false code ctx m = exception_text code ctx

-- What the trap does behind its text: the handler of an interrupt that the kernel knows, or nothing; the
-- system call `sleep`, or -1 in a0 for another number.
abbrev pub then_does :
    ℕ → Ptr → (epc : ℕ) → (is_interrupt : Bool) → (code : ℕ) → Context → Machine → Trapped
then_does fuel timer epc true code ctx m =
    if code == 3 || code == 7 || code == 11
    then interrupt fuel epc code ctx m
    else resumed epc returned ctx m
then_does fuel timer epc false code ctx m =
    if ctx.a7 == 1
    then exception fuel timer epc code ctx m
    else resumed (u64 (epc + 4)) returned (record ctx { a0 = 2 ^ 64 - 1 }) m

-- The text is on the line; the trap has gone on from there, or the kernel has stopped.
abbrev pub Tells : (Machine → Trapped) → Machine → (rest : List ℕ) → Spoken → Told → Type 0
Tells does m rest (goes_on xs) r =
    (out_buf : ℕ → ℕ) × (r ≡ told (does (with_uart m (sent_on m.uart rest xs))) out_buf)
Tells does m rest (dies xs) r = r ≡ halted (sent_on m.uart rest xs)

lives : Spoken → Bool
lives (goes_on xs) = true
lives (dies xs) = false
