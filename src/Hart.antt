-- ===== src/Hart.antt =====
-- The registers of the hart that os/riscv.h, os/lock.c, os/timer.c and os/plic.c read and write. The
-- control registers are the fields that `r_mstatus`, `w_mstatus` and their kin access; `msip` and
-- `mtimecmp` are this hart's registers of the interruptor at CLIENT_BASE, `mtime` is its clock.
use xin_os.Base.{ℕ, ◌^◌}

pub record Hart : Type 0 where
  pub hart_id : ℕ
  pub mstatus : ℕ
  pub mie : ℕ
  pub mscratch : ℕ
  pub mtvec : ℕ
  pub msip : ℕ
  pub mtime : ℕ
  pub mtimecmp : ℕ

abbrev pub mie_meie : ℕ
mie_meie = 2 ^ 11

abbrev pub mie_mtie : ℕ
mie_mtie = 2 ^ 7

abbrev pub mie_msie : ℕ
mie_msie = 2 ^ 3

abbrev pub mstatus_mie : ℕ
mstatus_mie = 2 ^ 3

unfoldable pub w_mstatus : Hart → ℕ → Hart
w_mstatus t v = record t { mstatus = v }

unfoldable pub w_mie : Hart → ℕ → Hart
w_mie t v = record t { mie = v }

unfoldable pub w_mtvec : Hart → ℕ → Hart
w_mtvec t v = record t { mtvec = v }

unfoldable pub w_mscratch : Hart → ℕ → Hart
w_mscratch t v = record t { mscratch = v }
