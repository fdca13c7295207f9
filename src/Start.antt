-- ===== src/Start.antt =====
-- os/start.S: what the hart does from the reset to `start_kernel`. The linker's symbols and the place of
-- the stacks are the fields of a record; addresses do not wrap around.
pub mod Bss
mod Tests
use xin_os.Base.{
  ℕ, zero, suc, ◌+◌, ◌*◌, ◌^◌, bit_or, Bool, true, false, Option, none, some, ◌==◌, if◌then◌else◌,
  leb, ltb, Ptr, Memory,
}
use xin_os.Entry.{Build, rv32, rv64, store_bytes}

pub record Symbols : Type 0 where
  pub bss_start : ℕ
  pub bss_end : ℕ
  pub stacks : ℕ

-- The registers that the code writes, beside those that it only computes with.
pub record Reset : Type 0 where
  pub mhartid : ℕ
  pub tp : ℕ
  pub sp : ℕ
  pub mstatus : ℕ
  pub pmpaddr0 : ℕ
  pub pmpcfg0 : ℕ
  pub mem : Memory

-- The hart sleeps for good, or it runs `start_kernel`.
pub data Booting : Type 0 where
  parked : Reset → Booting
  at_start_kernel : Reset → Booting
  no_fuel : Booting

-- `sw zero, 0(a0)`, `addi a0, a0, 4`, and again while a0 is below a1.
unfoldable pub clear_bss : ℕ → Memory → (a0 a1 : ℕ) → Option Memory
unfolding store_bytes
clear_bss zero m a0 a1 = none
clear_bss (suc k) m a0 a1 =
    let m' = store_bytes 4 m a0 0 in
    let rest = clear_bss k m' (a0 + 4) a1 in if ltb (a0 + 4) a1 then rest else some m'

abbrev pub stack_bytes : Build → ℕ
stack_bytes rv32 = 1024
stack_bytes rv64 = 4096

-- `slli t0, t0, 10` or `slli t0, t0, 11`
abbrev pub stack_shift : Build → ℕ
stack_shift rv32 = 2 ^ 10
stack_shift rv64 = 2 ^ 11

-- The registers behind the loop, by whether CONFIG_SYSCALL is set: a1 still is the end of the section.
abbrev pub set_up : Build → (config_syscall : Bool) → Symbols → Reset → Memory → Reset
set_up b true y r m = record r {
  tp = r.mhartid;
  sp = y.stacks + stack_bytes b + r.mhartid * stack_shift b;
  pmpaddr0 = 0xffff_ffff;
  pmpcfg0 = 0xf;
  mstatus = bit_or y.bss_end (2 ^ 7);
  mem = m;
}
set_up b false y r m = record r {
  tp = r.mhartid;
  sp = y.stacks + stack_bytes b + r.mhartid * stack_shift b;
  mstatus = bit_or y.bss_end (3 * 2 ^ 11 + 2 ^ 7);
  mem = m;
}

-- `_start`, with fuel for the loop.
unfoldable pub start : ℕ → Build → (config_syscall : Bool) → Symbols → Reset → Booting
unfolding clear_bss
start fuel b config_syscall y r =
    if r.mhartid == 0
    then if leb y.bss_end y.bss_start
      then at_start_kernel (set_up b config_syscall y r r.mem)
      else elim (clear_bss fuel r.mem y.bss_start y.bss_end) [
        | none ↦ no_fuel
        | some m ↦ at_start_kernel (set_up b config_syscall y r m)
      ]
    else parked (record r { tp = r.mhartid })
