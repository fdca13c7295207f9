-- ===== src/Entry/RoundTrip.antt =====
-- From a trap back to the code that it interrupted.
use xin_os.Base.{ℕ, ◌+◌, ◌*◌, ◌-◌, ◌≤◌, ◌<◌, ◌≡◌, refl, ap, ◌∙◌, subst, arith, ◌⊎◌, Memory}
use xin_os.Entry.{
  Build, rv32, rv64, reg_size, Cpu, a0, t6, run, load_bytes, trap_entry, switch_to, trap_exit,
}
use xin_os.Entry.Bytes.{load_bytes_same, slot_before}
use xin_os.Entry.Enter.{Fits, Saved, trap_entry-Saved, trap_entry_others}
use xin_os.Entry.Resume.{Restored, t6_behind, switch_to-Restored, switch_to_mem, trap_exit_mem}

-- What is in t6 when the interrupted code goes on: its own value in the 32-bit build; the address of its
-- context in the 64-bit build, where t6 is not loaded.
abbrev pub t6_after : Build → Cpu → ℕ
t6_after rv32 s = s.x t6
t6_after rv64 s = s.mscratch

-- The code goes on at `epc` with its registers ra to t5.
pub record GoesOn (b : Build) (s : Cpu) (epc : ℕ) (r : Cpu) : Type 0 where
  pub regs : (j : ℕ) → 0 < j → j < t6 → r.x j ≡ s.x j
  pub last : r.x t6 ≡ t6_after b s
  pub goes_on : r.pc ≡ epc
  pub context : r.mscratch ≡ s.mscratch

-- The 32 slots of the context hold the same.
abbrev pub SameContext : Build → (p : ℕ) → Cpu → Cpu → Type 0
SameContext b p s r = (i : ℕ) → i < 32 * reg_size b → r.mem (p + i) ≡ s.mem (p + i)

same_slot :
    (b : Build) (p : ℕ) (s r : Cpu) (i : ℕ)
    → SameContext b p s r
    → i < 32
    → load_bytes (reg_size b) r.mem (p + i * reg_size b)
      ≡ load_bytes (reg_size b) s.mem (p + i * reg_size b)
same_slot b p s r i same small =
    let w = reg_size b in
    load_bytes_same w r.mem s.mem (p + i * w) (λ k inside.
      let e : p + (i * w + k) ≡ p + i * w + k = omega arith in
      subst (λ z. r.mem z ≡ s.mem z) e (same (i * w + k) (omega (arith, slot_before w i 32 small))))

same_t6 :
    (b : Build) (s e later : Cpu)
    → Saved b s e
    → SameContext b s.mscratch e later
    → t6_behind b later.mem s.mscratch ≡ t6_after b s
same_t6 rv32 s e later h same =
    same_slot rv32 s.mscratch e later 30 same (omega arith) ∙ h.slots 30 (omega arith)
same_t6 rv64 s e later h same = refl

Restored-GoesOn :
    (b : Build) (s e later : Cpu) (epc : ℕ) (r : Cpu)
    → Saved b s e
    → SameContext b s.mscratch e later
    → Restored b later.mem s.mscratch epc r
    → GoesOn b s epc r
Restored-GoesOn b s e later epc r h same back = record {
  regs = λ j some_reg small.
      let which : 1 + (j - 1) ≡ j = omega arith in
      subst (λ z. r.x z ≡ s.x z) which
        (back.regs (j - 1) (omega arith)
          ∙ same_slot b s.mscratch e later (j - 1) same (omega arith)
          ∙ h.slots (j - 1) (omega arith));
  last = back.last ∙ same_t6 b s e later h same;
  goes_on = back.goes_on;
  context = back.context;
}

-- What the hart does from `e` on, as far as the context at `p` goes: code that writes nothing there, traps
-- whose context does not overlap it, and the two ways back from a trap, in any order.
pub data Meanwhile (b : Build) (p : ℕ) (e : Cpu) : Cpu → Type 0 where
  start : Meanwhile b p e e
  works : {s r : Cpu} → Meanwhile b p e s → SameContext b p s r → Meanwhile b p e r
  traps :
      {s : Cpu}
      → Meanwhile b p e s
      → (s.mscratch + 32 * reg_size b ≤ p) ⊎ (p + 32 * reg_size b ≤ s.mscratch)
      → Meanwhile b p e (run b (trap_entry b) s)
  switches : {s : Cpu} → Meanwhile b p e s → Meanwhile b p e (run b (switch_to b) s)
  returns : {s : Cpu} → Meanwhile b p e s → Meanwhile b p e (run b (trap_exit b) s)

Meanwhile-SameContext : (b : Build) (p : ℕ) (e s : Cpu) → Meanwhile b p e s → SameContext b p e s
Meanwhile-SameContext b p e _ start i small = refl
Meanwhile-SameContext b p e _ (works {s} {r} h same) i small =
    same i small ∙ Meanwhile-SameContext b p e s h i small
Meanwhile-SameContext b p e _ (traps {s} h apart) i small =
    trap_entry_others b s (p + i) (ground (arith, apart)) ∙ Meanwhile-SameContext b p e s h i small
Meanwhile-SameContext b p e _ (switches {s} h) i small =
    ap (λ (m : Memory). m (p + i)) (switch_to_mem b s) ∙ Meanwhile-SameContext b p e s h i small
Meanwhile-SameContext b p e _ (returns {s} h) i small =
    ap (λ (m : Memory). m (p + i)) (trap_exit_mem b s) ∙ Meanwhile-SameContext b p e s h i small

-- A task that a trap interrupts goes on where it was interrupted when its context is switched to,
-- whatever traps of other contexts, switches and returns came between, as long as the other code wrote
-- nothing into the context: at its next instruction, with its context current and its registers ra to
-- t5. t6 is its own in the 32-bit build, and the address of the context in the 64-bit build.
pub switch_to-trap_entry :
    (b : Build) (s later : Cpu)
    → Fits b s
    → Meanwhile b s.mscratch (run b (trap_entry b) s) later
    → later.x a0 ≡ s.mscratch
    → GoesOn b s s.mepc (run b (switch_to b) later)
switch_to-trap_entry b s later fits between arg =
    let e = run b (trap_entry b) s in
    let same = Meanwhile-SameContext b s.mscratch e later between in
    let h = trap_entry-Saved b s fits in
    let w = reg_size b in
    let r = run b (switch_to b) later in
    let pc : load_bytes w later.mem (s.mscratch + 31 * w) ≡ s.mepc =
      same_slot b s.mscratch e later 31 same (omega arith) ∙ h.pc_slot in
    let back : Restored b later.mem s.mscratch (load_bytes w later.mem (s.mscratch + 31 * w)) r =
      subst (λ p. Restored b later.mem p (load_bytes w later.mem (p + 31 * w)) r) arg
        (switch_to-Restored b later) in
    Restored-GoesOn b s e later s.mepc r h same
      (subst (λ z. Restored b later.mem s.mscratch z r) pc back)
