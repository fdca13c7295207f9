-- ===== src/Entry/Save.antt =====
-- What the stores of `reg_save` leave in memory: each register in its slot.
use xin_os.Base.{
  ℕ, zero, suc, ◌+◌, ◌*◌, ◌^◌, ◌≤◌, ◌<◌, ◌≡◌, refl, ap, ◌∙◌, subst, ◌⊎◌, inl, arith, Memory, List,
  ◌++◌,
}
use xin_os.Entry.{Build, reg_size, Cpu, Instr, run, stores, store_bytes, load_bytes}
use xin_os.Entry.Bytes.{store_bytes_other, load_bytes_same, load_bytes-store_bytes, slots_more}

-- The memory behind the stores of `n` registers from `a` on, of `w` bytes each.
pub save_regs : (w : ℕ) → (x : ℕ → ℕ) → Memory → (a first n : ℕ) → Memory
save_regs w x m a first zero = m
save_regs w x m a first (suc n) = save_regs w x (store_bytes w m a (x first)) (a + w) (first + 1) n

pub run-stores :
    (b : Build) (rest : List Instr) (s : Cpu) (base offset first n : ℕ)
    → run b (stores b base offset first n ++ rest) s
      ≡ run b rest (record s { mem = save_regs (reg_size b) s.x s.mem (s.x base + offset) first n })
unfolding run save_regs
run-stores b rest s base offset first zero = refl
run-stores b rest s base offset first (suc n) =
    let w = reg_size b in
    let m = store_bytes w s.mem (s.x base + offset) (s.x first) in
    let e : s.x base + (offset + w) ≡ s.x base + offset + w = omega arith in
    run-stores b rest (record s { mem = m }) base (offset + w) (first + 1) n
    ∙ ap (λ z. run b rest (record s { mem = save_regs w s.x m z (first + 1) n })) e

pub save_regs_other :
    (w : ℕ) (x : ℕ → ℕ) (m : Memory) (a first n c : ℕ)
    → (c < a) ⊎ (a + n * w ≤ c)
    → save_regs w x m a first n c ≡ m c
unfolding save_regs
save_regs_other w x m a first zero c out = refl
save_regs_other w x m a first (suc n) c out =
    save_regs_other w x (store_bytes w m a (x first)) (a + w) (first + 1) n c
      (ground (arith, out, slots_more w n))
    ∙ store_bytes_other w m a (x first) c (ground (arith, out, slots_more w n))

-- A register in the range is read from its slot.
pub save_regs_slot :
    (w : ℕ) (x : ℕ → ℕ) (m : Memory) (a first n i : ℕ)
    → i < n
    → x (first + i) < 256 ^ w
    → load_bytes w (save_regs w x m a first n) (a + i * w) ≡ x (first + i)
unfolding save_regs
save_regs_slot w x m a first zero i small fits = elim small [ ]
save_regs_slot w x m a first (suc n) zero small fits =
    let m1 = store_bytes w m a (x first) in
    let at : a + 0 * w ≡ a = omega arith in
    let which : first + 0 ≡ first = omega arith in
    let fits1 : x first < 256 ^ w = subst (λ z. x z < 256 ^ w) which fits in
    rw (at, which)
      (load_bytes_same w (save_regs w x m1 (a + w) (first + 1) n) m1 a
          (λ i inside. save_regs_other w x m1 (a + w) (first + 1) n (a + i) (inl (omega arith)))
        ∙ load_bytes-store_bytes w m a (x first) fits1)
save_regs_slot w x m a first (suc n) (suc i) small fits =
    let m1 = store_bytes w m a (x first) in
    let at : a + suc i * w ≡ a + w + i * w = omega (arith, slots_more w i) in
    let which : first + suc i ≡ first + 1 + i = omega arith in
    let fits1 : x (first + 1 + i) < 256 ^ w = subst (λ z. x z < 256 ^ w) which fits in
    rw (at, which) (save_regs_slot w x m1 (a + w) (first + 1) n i (omega arith) fits1)
