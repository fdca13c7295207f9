-- ===== src/Entry/Enter.antt =====
-- What `trap_vector` of os/entry.S saves before it calls `trap_handler`.
use xin_os.Base.{
  ℕ, ◌+◌, ◌*◌, ◌^◌, ◌≤◌, ◌<◌, ◌≡◌, ap, ◌∙◌, sym, subst, ◌⊎◌, inl, inr, arith, Memory, List, [], ◌∷◌,
  update, update_ne,
}
use xin_os.Entry.{
  Build, reg_size, Cpu, a0, a1, a2, t5, t6, run, mv, csrr, csrw, store, Instr, store_bytes,
  load_bytes, trap_entry, mscratch, mepc, mcause,
}
use xin_os.Entry.Bytes.{store_bytes_other, load_bytes_same, load_bytes-store_bytes, slot_before}
use xin_os.Entry.Save.{save_regs, run-stores, save_regs_other, save_regs_slot}

saved_mem : Build → Cpu → Memory
saved_mem b s =
    let w = reg_size b in
    let p = s.mscratch in
    store_bytes w
      (store_bytes w (save_regs w (update s.x t6 p) s.mem (p + 0) 1 30) (p + 30 * w) (s.x t6))
      (p + 31 * w) s.mepc

behind_saves : Build → List Instr
behind_saves b =
    mv t5 t6
    ∷ csrr t6 mscratch
    ∷ store t6 (30 * reg_size b) t5
    ∷ csrr a0 mepc
    ∷ store a0 (31 * reg_size b) t5
    ∷ csrw mscratch t5
    ∷ csrr a0 mepc
    ∷ csrr a1 mcause
    ∷ csrr a2 mscratch
    ∷ []

entered :
    (b : Build) (s : Cpu)
    → run b (trap_entry b) s
      ≡ run b (behind_saves b) (record s {
        x = update s.x t6 s.mscratch;
        mscratch = s.x t6;
        mem = save_regs (reg_size b) (update s.x t6 s.mscratch) s.mem (s.mscratch + 0) 1 30;
      })
unfolding trap_entry behind_saves run update
entered b s =
    run-stores b (behind_saves b) (record s { x = update s.x t6 s.mscratch; mscratch = s.x t6 }) t6
      0 1 30

entered_mem : (b : Build) (s : Cpu) → (run b (trap_entry b) s).mem ≡ saved_mem b s
unfolding saved_mem behind_saves run update
entered_mem b s = ap (λ (z : Cpu). z.mem) (entered b s)

-- Every register and the address to go on at fit a slot.
abbrev pub Fits : Build → Cpu → Type 0
Fits b s = ((j : ℕ) → s.x j < 256 ^ reg_size b) × (s.mepc < 256 ^ reg_size b)

-- The context holds the registers and the address, the arguments of `trap_handler` are set, and it runs
-- on the stack of what was interrupted.
pub record Saved (b : Build) (s e : Cpu) : Type 0 where
  pub context : e.mscratch ≡ s.mscratch
  pub epc : e.x a0 ≡ s.mepc
  pub cause : e.x a1 ≡ s.mcause
  pub ctx : e.x a2 ≡ s.mscratch
  pub stack : e.x 2 ≡ s.x 2
  pub slots :
      (i : ℕ) → i < 31 → load_bytes (reg_size b) e.mem (s.mscratch + i * reg_size b) ≡ s.x (1 + i)
  pub pc_slot : load_bytes (reg_size b) e.mem (s.mscratch + 31 * reg_size b) ≡ s.mepc
  pub others : (c : ℕ) → (c < s.mscratch) ⊎ (s.mscratch + 32 * reg_size b ≤ c) → e.mem c ≡ s.mem c

lt_or_eq : (i : ℕ) → i < 31 → (i < 30) ⊎ (i ≡ 30)
lt_or_eq i small = ground arith

-- A load below a store does not see it.
load_before :
    (w : ℕ) (m : Memory) (c a v : ℕ)
    → c + w ≤ a
    → load_bytes w (store_bytes w m a v) c ≡ load_bytes w m c
load_before w m c a v low =
    load_bytes_same w (store_bytes w m a v) m c
      (λ i inside. store_bytes_other w m a v (c + i) (inl (omega arith)))

saved_slot :
    (b : Build) (s : Cpu) (i : ℕ)
    → Fits b s
    → i < 31
    → load_bytes (reg_size b) (saved_mem b s) (s.mscratch + i * reg_size b) ≡ s.x (1 + i)
unfolding saved_mem
saved_slot b s i fits small =
    let w = reg_size b in
    let p = s.mscratch in
    let x = update s.x t6 p in
    let m1 = save_regs w x s.mem (p + 0) 1 30 in
    let m2 = store_bytes w m1 (p + 30 * w) (s.x t6) in
    let pc =
      load_before w m2 (p + i * w) (p + 31 * w) s.mepc (omega (arith, slot_before w i 31 small)) in
    elim (lt_or_eq i small) [
      | inl less ↦
          let same : x (1 + i) ≡ s.x (1 + i) = update_ne s.x t6 (1 + i) p (ground (arith, less)) in
          let z : p + 0 ≡ p = omega arith in
          pc
          ∙ load_before w m1 (p + i * w) (p + 30 * w) (s.x t6)
              (omega (arith, slot_before w i 30 less))
          ∙ ap (λ a. load_bytes w m1 (a + i * w)) (sym z)
          ∙ save_regs_slot w x s.mem (p + 0) 1 30 i less
              (subst (λ v. v < 256 ^ w) (sym same) (fits.0 (1 + i)))
          ∙ same
      | inr last ↦
          rw last (rw last at pc ∙ load_bytes-store_bytes w m1 (p + 30 * w) (s.x t6) (fits.0 t6))
    ]

saved_pc :
    (b : Build) (s : Cpu)
    → Fits b s
    → load_bytes (reg_size b) (saved_mem b s) (s.mscratch + 31 * reg_size b) ≡ s.mepc
unfolding saved_mem
saved_pc b s fits =
    let w = reg_size b in
    let p = s.mscratch in
    let m1 = save_regs w (update s.x t6 p) s.mem (p + 0) 1 30 in
    load_bytes-store_bytes w (store_bytes w m1 (p + 30 * w) (s.x t6)) (p + 31 * w) s.mepc fits.1

-- The context and nothing else is written.
saved_others :
    (b : Build) (s : Cpu) (c : ℕ)
    → (c < s.mscratch) ⊎ (s.mscratch + 32 * reg_size b ≤ c)
    → saved_mem b s c ≡ s.mem c
unfolding saved_mem
saved_others b s c out =
    let w = reg_size b in
    let p = s.mscratch in
    let x = update s.x t6 p in
    let m1 = save_regs w x s.mem (p + 0) 1 30 in
    let m2 = store_bytes w m1 (p + 30 * w) (s.x t6) in
    store_bytes_other w m2 (p + 31 * w) s.mepc c (ground (arith, out))
    ∙ store_bytes_other w m1 (p + 30 * w) (s.x t6) c (ground (arith, out))
    ∙ save_regs_other w x s.mem (p + 0) 1 30 c (ground (arith, out))

pub trap_entry_others :
    (b : Build) (s : Cpu) (c : ℕ)
    → (c < s.mscratch) ⊎ (s.mscratch + 32 * reg_size b ≤ c)
    → (run b (trap_entry b) s).mem c ≡ s.mem c
trap_entry_others b s c out = ap (λ (z : Memory). z c) (entered_mem b s) ∙ saved_others b s c out

pub trap_entry-Saved : (b : Build) (s : Cpu) → Fits b s → Saved b s (run b (trap_entry b) s)
unfolding behind_saves run update
trap_entry-Saved b s fits =
    let w = reg_size b in
    let e = entered b s in
    let m = entered_mem b s in
    record {
      context = ap (λ (z : Cpu). z.mscratch) e;
      epc = ap (λ (z : Cpu). z.x a0) e;
      cause = ap (λ (z : Cpu). z.x a1) e;
      ctx = ap (λ (z : Cpu). z.x a2) e;
      stack = ap (λ (z : Cpu). z.x 2) e;
      slots = λ i small.
          ap (λ (z : Memory). load_bytes w z (s.mscratch + i * w)) m ∙ saved_slot b s i fits small;
      pc_slot = ap (λ (z : Memory). load_bytes w z (s.mscratch + 31 * w)) m ∙ saved_pc b s fits;
      others = trap_entry_others b s;
    }
