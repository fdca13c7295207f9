-- ===== src/Entry/Restore.antt =====
-- What the loads of `reg_restore` leave in the registers: each one from its slot.
use xin_os.Base.{
  ℕ, zero, suc, ◌+◌, ◌*◌, ◌≤◌, ◌<◌, ◌≡◌, refl, ap, ◌∙◌, ◌⊎◌, inl, arith, Memory, List, ◌++◌, update,
  update_self, update_ne,
}
use xin_os.Entry.{Build, reg_size, Cpu, Instr, run, loads, load_bytes}
use xin_os.Entry.Bytes.{slots_more}

-- The registers behind the loads of `n` registers from `a` on, of `w` bytes each.
pub load_regs : (w : ℕ) → Memory → (a first n : ℕ) → (ℕ → ℕ) → ℕ → ℕ
load_regs w m a first zero x = x
load_regs w m a first (suc n) x =
    load_regs w m (a + w) (first + 1) n (update x first (load_bytes w m a))

-- The base is not one of the registers loaded.
pub run-loads :
    (b : Build) (rest : List Instr) (s : Cpu) (base offset first n : ℕ)
    → (base < first) ⊎ (first + n ≤ base)
    → run b (loads b base offset first n ++ rest) s
      ≡ run b rest (record s { x = load_regs (reg_size b) s.mem (s.x base + offset) first n s.x })
unfolding run load_regs
run-loads b rest s base offset first zero out = refl
run-loads b rest s base offset first (suc n) out =
    let w = reg_size b in
    let x = update s.x first (load_bytes w s.mem (s.x base + offset)) in
    let keep : x base ≡ s.x base =
      update_ne s.x first base (load_bytes w s.mem (s.x base + offset)) (ground (arith, out)) in
    let e : x base + (offset + w) ≡ s.x base + offset + w = omega (arith, keep) in
    run-loads b rest (record s { x = x }) base (offset + w) (first + 1) n (ground (arith, out))
    ∙ ap (λ z. run b rest (record s { x = load_regs w s.mem z (first + 1) n x })) e

pub load_regs_other :
    (w : ℕ) (m : Memory) (a first n : ℕ) (x : ℕ → ℕ) (j : ℕ)
    → (j < first) ⊎ (first + n ≤ j)
    → load_regs w m a first n x j ≡ x j
unfolding load_regs
load_regs_other w m a first zero x j out = refl
load_regs_other w m a first (suc n) x j out =
    load_regs_other w m (a + w) (first + 1) n (update x first (load_bytes w m a)) j
      (ground (arith, out))
    ∙ update_ne x first j (load_bytes w m a) (ground (arith, out))

pub load_regs_slot :
    (w : ℕ) (m : Memory) (a first n : ℕ) (x : ℕ → ℕ) (i : ℕ)
    → i < n
    → load_regs w m a first n x (first + i) ≡ load_bytes w m (a + i * w)
unfolding load_regs
load_regs_slot w m a first zero x i small = elim small [ ]
load_regs_slot w m a first (suc n) x zero small =
    let at : a + 0 * w ≡ a = omega arith in
    let which : first + 0 ≡ first = omega arith in
    let x1 = update x first (load_bytes w m a) in
    rw (at, which)
      (load_regs_other w m (a + w) (first + 1) n x1 first (inl (omega arith))
        ∙ update_self x first (load_bytes w m a))
load_regs_slot w m a first (suc n) x (suc i) small =
    let at : a + suc i * w ≡ a + w + i * w = omega (arith, slots_more w i) in
    let which : first + suc i ≡ first + 1 + i = omega arith in
    let x1 = update x first (load_bytes w m a) in
    rw (at, which) (load_regs_slot w m (a + w) (first + 1) n x1 i (omega arith))
