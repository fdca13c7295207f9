-- ===== src/Plic/Setup.antt =====
-- The bit that `plic_init` of os/plic.c sets for the serial line.
use xin_os.Base.{ℕ, ◌/◌, ◌%◌, ◌^◌, ◌≡◌, arith, bit_or, bit_or-mask}

pub bit_or-sets_ten : (a : ℕ) → bit_or a (2 ^ 10) / 2 ^ 10 % 2 ≡ 1
bit_or-sets_ten a = omega (arith, bit_or-mask 10 1 a)
