-- ===== src/Entry/Resume.antt =====
-- The ways back from a trap in os/entry.S: the end of `trap_vector`, and `switch_to`.
use xin_os.Base.{
  ℕ, ◌+◌, ◌*◌, ◌<◌, ◌≡◌, refl, ap, ◌∙◌, inr, arith, Memory, ◌++◌, [], ◌∷◌, update, update_self,
  update_ne,
}
use xin_os.Entry.{
  Build, rv32, rv64, reg_size, Cpu, a0, a1, t6, run, reg_restore, load_bytes, mret, trap_exit,
  switch_to, last_load,
}
use xin_os.Entry.Restore.{load_regs, run-loads, load_regs_other, load_regs_slot}

-- t6 behind `reg_restore`: its slot in the 32-bit build, the address of the context in the 64-bit build.
abbrev pub t6_behind : Build → Memory → (context : ℕ) → ℕ
t6_behind rv32 m p = load_bytes 4 m (p + 120)
t6_behind rv64 m p = p

-- The registers from the context at `p`, and the address to go on at.
pub record Restored (b : Build) (m : Memory) (p epc : ℕ) (r : Cpu) : Type 0 where
  pub regs : (i : ℕ) → i < 30 → r.x (1 + i) ≡ load_bytes (reg_size b) m (p + i * reg_size b)
  pub last : r.x t6 ≡ t6_behind b m p
  pub goes_on : r.pc ≡ epc
  pub context : r.mscratch ≡ p

behind_loads : Build → Cpu → Cpu
behind_loads b s = record s { x = load_regs (reg_size b) s.mem (s.x t6 + 0) 1 30 s.x }

after_loads :
    (b : Build) (s : Cpu)
    → run b (reg_restore b t6 ++ (mret ∷ [])) s
      ≡ run b (last_load b t6 ++ (mret ∷ [])) (behind_loads b s)
unfolding behind_loads
after_loads b s = run-loads b (last_load b t6 ++ (mret ∷ [])) s t6 0 1 30 (inr (omega arith))

-- The last load keeps the other registers.
last_regs :
    (b : Build) (s : Cpu) (j : ℕ) → j < t6 → (run b (last_load b t6 ++ (mret ∷ [])) s).x j ≡ s.x j
unfolding run
last_regs rv32 s j small =
    update_ne s.x t6 j (load_bytes 4 s.mem (s.x t6 + 120)) (ground (arith, small))
last_regs rv64 s j small = refl

last_t6 :
    (b : Build) (s : Cpu)
    → (run b (last_load b t6 ++ (mret ∷ [])) s).x t6 ≡ t6_behind b s.mem (s.x t6)
unfolding run
last_t6 rv32 s = update_self s.x t6 (load_bytes 4 s.mem (s.x t6 + 120))
last_t6 rv64 s = refl

last_pc : (b : Build) (s : Cpu) → (run b (last_load b t6 ++ (mret ∷ [])) s).pc ≡ s.mepc
unfolding run
last_pc rv32 s = refl
last_pc rv64 s = refl

last_context :
    (b : Build) (s : Cpu) → (run b (last_load b t6 ++ (mret ∷ [])) s).mscratch ≡ s.mscratch
unfolding run
last_context rv32 s = refl
last_context rv64 s = refl

last_mem : (b : Build) (s : Cpu) → (run b (last_load b t6 ++ (mret ∷ [])) s).mem ≡ s.mem
unfolding run
last_mem rv32 s = refl
last_mem rv64 s = refl

restored_mem : (b : Build) (s : Cpu) → (run b (reg_restore b t6 ++ (mret ∷ [])) s).mem ≡ s.mem
unfolding behind_loads
restored_mem b s = ap (λ (c : Cpu). c.mem) (after_loads b s) ∙ last_mem b (behind_loads b s)

pub restored :
    (b : Build) (s : Cpu) (p : ℕ)
    → s.x t6 ≡ p
    → s.mscratch ≡ p
    → Restored b s.mem p s.mepc (run b (reg_restore b t6 ++ (mret ∷ [])) s)
unfolding behind_loads
restored b s p base context =
    let w = reg_size b in
    let x = load_regs w s.mem (s.x t6 + 0) 1 30 s.x in
    let e = after_loads b s in
    let z : s.x t6 + 0 ≡ p = omega (arith, base) in
    record {
      regs = λ i small.
          ap (λ (c : Cpu). c.x (1 + i)) e
          ∙ last_regs b (behind_loads b s) (1 + i) (omega arith)
          ∙ load_regs_slot w s.mem (s.x t6 + 0) 1 30 s.x i small
          ∙ ap (λ a. load_bytes w s.mem (a + i * w)) z;
      last =
          ap (λ (c : Cpu). c.x t6) e
          ∙ last_t6 b (behind_loads b s)
          ∙ ap (t6_behind b s.mem)
              (load_regs_other w s.mem (s.x t6 + 0) 1 30 s.x t6 (inr (omega arith)) ∙ base);
      goes_on = ap (λ (c : Cpu). c.pc) e ∙ last_pc b (behind_loads b s);
      context = ap (λ (c : Cpu). c.mscratch) e ∙ last_context b (behind_loads b s) ∙ context;
    }

-- `switch_to` of a context.
pub switch_to-Restored :
    (b : Build) (s : Cpu)
    → Restored b s.mem
        (s.x a0)
        (load_bytes (reg_size b) s.mem (s.x a0 + 31 * reg_size b))
        (run b (switch_to b) s)
unfolding run switch_to update
switch_to-Restored b s =
    let p = s.x a0 in
    let pc = load_bytes (reg_size b) s.mem (p + 31 * reg_size b) in
    restored b (record s { x = update (update s.x a1 pc) t6 p; mscratch = p; mepc = pc }) p refl
      refl

-- The end of `trap_vector`, when the handler has returned an address.
pub trap_exit-Restored :
    (b : Build) (s : Cpu) → Restored b s.mem s.mscratch (s.x a0) (run b (trap_exit b) s)
unfolding run trap_exit update
trap_exit-Restored b s =
    restored b (record s { x = update s.x t6 s.mscratch; mepc = s.x a0 }) s.mscratch refl refl

-- Neither way writes to the memory.
pub switch_to_mem : (b : Build) (s : Cpu) → (run b (switch_to b) s).mem ≡ s.mem
unfolding run switch_to update
switch_to_mem b s =
    let p = s.x a0 in
    let pc = load_bytes (reg_size b) s.mem (p + 31 * reg_size b) in
    restored_mem b (record s { x = update (update s.x a1 pc) t6 p; mscratch = p; mepc = pc })

pub trap_exit_mem : (b : Build) (s : Cpu) → (run b (trap_exit b) s).mem ≡ s.mem
unfolding run trap_exit update
trap_exit_mem b s = restored_mem b (record s { x = update s.x t6 s.mscratch; mepc = s.x a0 })
