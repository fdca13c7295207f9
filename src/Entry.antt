-- ===== src/Entry.antt =====
-- os/entry.S and os/usys.S: how a trap saves the registers in a `struct context` and how they come back,
-- by the end of the trap or by `switch_to`, and the system call `sleep` around it. A macro of the file is
-- the list of its instructions, for both builds. `atomic_swap` is the one of os/lock.c. Register k of the hart is the number k.
pub mod Bytes
pub mod Save
pub mod Restore
pub mod Enter
pub mod Resume
pub mod RoundTrip
pub mod SleepCall
pub mod Swap
mod Tests
use xin_os.Base.{
  ℕ, zero, suc, ◌+◌, ◌*◌, ◌/◌, ◌%◌, ltb, ◌-◌, ◌^◌, Option, none, some, ◌==◌, if◌then◌else◌, List,
  [], ◌∷◌, ◌++◌, Ptr, Memory, update,
}

pub data Build : Type 0 where
  rv32 rv64 : Build

-- The bytes of a register.
abbrev pub reg_size : Build → ℕ
reg_size rv32 = 4
reg_size rv64 = 8

abbrev pub ra : ℕ
ra = 1

abbrev pub a0 : ℕ
a0 = 10

abbrev pub a1 : ℕ
a1 = 11

abbrev pub a2 : ℕ
a2 = 12

abbrev pub a5 : ℕ
a5 = 15

abbrev pub a7 : ℕ
a7 = 17

abbrev pub t5 : ℕ
t5 = 30

abbrev pub t6 : ℕ
t6 = 31

pub record Cpu : Type 0 where
  pub x : ℕ → ℕ
  pub pc : ℕ
  pub mepc : ℕ
  pub mcause : ℕ
  pub mscratch : ℕ
  pub mem : Memory

-- `sw` or `sd`, and `lw` or `ld`, of `k` bytes, the lowest byte first.
unfoldable pub store_bytes : (k : ℕ) → Memory → Ptr → (v : ℕ) → Memory
unfolding update
store_bytes zero m a v = m
store_bytes (suc k) m a v = store_bytes k (update m a (v % 256)) (a + 1) (v / 256)

pub load_bytes : (k : ℕ) → Memory → Ptr → ℕ
load_bytes zero m a = 0
load_bytes (suc k) m a = m a + 256 * load_bytes k m (a + 1)

pub data Csr : Type 0 where
  mepc mcause mscratch : Csr

abbrev pub read_csr : Csr → Cpu → ℕ
read_csr mepc s = s.mepc
read_csr mcause s = s.mcause
read_csr mscratch s = s.mscratch

abbrev pub write_csr : Csr → ℕ → Cpu → Cpu
write_csr mepc v s = record s { mepc = v }
write_csr mcause v s = record s { mcause = v }
write_csr mscratch v s = record s { mscratch = v }

-- `swap_mscratch r` is `csrrw r, mscratch, r`; `amoswap rd rs base` is `amoswap.w.aq`.
pub data Instr : Type 0 where
  store load : (reg offset base : ℕ) → Instr
  mv : (rd rs : ℕ) → Instr
  li : (rd value : ℕ) → Instr
  swap_mscratch : (r : ℕ) → Instr
  amoswap : (rd rs base : ℕ) → Instr
  csrr : (rd : ℕ) → Csr → Instr
  csrw : Csr → (rs : ℕ) → Instr
  mret : Instr
  ret : Instr

-- A word that is loaded into a register: the 64-bit hart fills the upper half with its sign.
abbrev pub signed_word : Build → ℕ → ℕ
signed_word rv32 v = v
signed_word rv64 v = if ltb v (2 ^ 31) then v else v + 2 ^ 64 - 2 ^ 32

unfoldable pub step : Build → Instr → Cpu → Cpu
unfolding update store_bytes load_bytes
step b (store reg offset base) s = record s {
  mem = store_bytes (reg_size b) s.mem (s.x base + offset) (s.x reg);
}
step b (load reg offset base) s = record s {
  x = update s.x reg (load_bytes (reg_size b) s.mem (s.x base + offset));
}
step b (mv rd rs) s = record s { x = update s.x rd (s.x rs) }
step b (li rd value) s = record s { x = update s.x rd value }
step b (swap_mscratch r) s = record s { x = update s.x r s.mscratch; mscratch = s.x r }
step b (amoswap rd rs base) s = record s {
  x = update s.x rd (signed_word b (load_bytes 4 s.mem (s.x base)));
  mem = store_bytes 4 s.mem (s.x base) (s.x rs);
}
step b (csrr rd c) s = record s { x = update s.x rd (read_csr c s) }
step b (csrw c rs) s = write_csr c (s.x rs) s
step b mret s = record s { pc = s.mepc }
step b ret s = record s { pc = s.x ra }

unfoldable pub run : Build → List Instr → Cpu → Cpu
unfolding step
run b [] s = s
run b (i ∷ is) s = run b is (step b i s)

-- The registers `first` to `first + n - 1`, one behind the other from `base + offset` on.
abbrev pub stores : Build → (base offset first n : ℕ) → List Instr
stores b base offset first zero = []
stores b base offset first (suc n) =
    store first offset base ∷ stores b base (offset + reg_size b) (first + 1) n

abbrev pub loads : Build → (base offset first n : ℕ) → List Instr
loads b base offset first zero = []
loads b base offset first (suc n) =
    load first offset base ∷ loads b base (offset + reg_size b) (first + 1) n

-- ra, the first, to t5.
abbrev pub reg_save : Build → (base : ℕ) → List Instr
reg_save b base = stores b base 0 ra 30

-- The macro for 32 bits loads t6, the one for 64 bits does not.
abbrev pub last_load : Build → (base : ℕ) → List Instr
last_load rv32 base = load t6 120 base ∷ []
last_load rv64 base = []

abbrev pub reg_restore : Build → (base : ℕ) → List Instr
reg_restore b base = loads b base 0 ra 30 ++ last_load b base

-- `atomic_swap` of a lock whose address is in a0.
unfoldable pub atomic_swap : List Instr
atomic_swap = li a5 1 ∷ amoswap a5 a5 a0 ∷ mv a0 a5 ∷ ret ∷ []

-- `trap_vector` up to the call of `trap_handler`.
pub trap_entry : Build → List Instr
trap_entry b =
    swap_mscratch t6
    ∷ (reg_save b t6
        ++ (mv t5 t6
            ∷ csrr t6 mscratch
            ∷ store t6 (30 * reg_size b) t5
            ∷ csrr a0 mepc
            ∷ store a0 (31 * reg_size b) t5
            ∷ csrw mscratch t5
            ∷ csrr a0 mepc
            ∷ csrr a1 mcause
            ∷ csrr a2 mscratch
            ∷ []))

-- `trap_vector` from the return of `trap_handler` on.
pub trap_exit : Build → List Instr
trap_exit b = csrw mepc a0 ∷ csrr t6 mscratch ∷ (reg_restore b t6 ++ (mret ∷ []))

-- `trap_handler` is the compiled function of os/trap.c, in the case that it returns.
pub trap_vector : Build → (trap_handler : Cpu → Cpu) → Cpu → Cpu
unfolding run trap_entry trap_exit
trap_vector b trap_handler s = run b (trap_exit b) (trap_handler (run b (trap_entry b) s))

pub switch_to : Build → List Instr
switch_to b =
    csrw mscratch a0
    ∷ load a1 (31 * reg_size b) a0
    ∷ csrw mepc a1
    ∷ mv t6 a0
    ∷ (reg_restore b t6 ++ (mret ∷ []))

-- The mode in which a hart executes. `back_os` lets the first `mret` go to machine mode, so that the tasks
-- of this kernel run there too.
pub data Mode : Type 0 where
  u_mode s_mode m_mode : Mode

-- The cause of an `ecall`.
abbrev pub ecall_cause : Mode → ℕ
ecall_cause u_mode = 8
ecall_cause s_mode = 9
ecall_cause m_mode = 11

-- `sleep` of os/usys.S up to `ecall` at the address `ecall_pc`, which traps with the cause of the mode.
pub sleep_call : Build → Mode → (ecall_pc : ℕ) → Cpu → Cpu
unfolding run
sleep_call b mode ecall_pc s = record (run b (li a7 1 ∷ []) s) {
  mepc = ecall_pc;
  mcause = ecall_cause mode;
}

-- The whole of `sleep`: the trap goes on at the instruction behind `ecall`, which is `ret`.
pub sleep : Build → Mode → (trap_handler : Cpu → Cpu) → (ecall_pc : ℕ) → Cpu → Option Cpu
unfolding run
sleep b mode trap_handler ecall_pc s =
    let r = trap_vector b trap_handler (sleep_call b mode ecall_pc s) in
    if r.pc == ecall_pc + 4 then some (run b (ret ∷ []) r) else none
