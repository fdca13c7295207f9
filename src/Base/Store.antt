-- ===== src/Base/Store.antt =====
-- Machine words, pointers, and memory as a function from addresses.
use Prim.Native.Nat.{ℕ, ◌+◌, ◌%◌, ◌^◌}
use mathlib.Core.Path.{◌≡◌, refl, fun_ext}
use mathlib.Core.Bool.{Bool, false}
use native.Mathlib.Omega.{arith}
use xin_os.Base.Tests.{ltb, ◌==◌, if◌then◌else◌}

abbrev pub Ptr : Type 0
Ptr = ℕ

abbrev pub null : Ptr
null = 0

-- Conversions to `uint8_t`, `int` (a bit pattern of 32 bits) and `uint64_t`.
abbrev pub u8 : ℕ → ℕ
u8 n = n % 2 ^ 8

abbrev pub u32 : ℕ → ℕ
u32 n = n % 2 ^ 32

abbrev pub u64 : ℕ → ℕ
u64 n = n % 2 ^ 64

-- `a < b` for two values of type `int`, given as bit patterns.
abbrev pub signed_ltb : ℕ → ℕ → Bool
signed_ltb a b = ltb ((a + 2 ^ 31) % 2 ^ 32) ((b + 2 ^ 31) % 2 ^ 32)

-- A write at one address or to one object's field.
unfoldable pub update {ℓ} : {A : Type ℓ} → (Ptr → A) → Ptr → A → Ptr → A
update m p v a = if a == p then v else m a

-- The bytes of the memory.
abbrev pub Memory : Type 0
Memory = ℕ → ℕ

module _ {ℓ} {A : Type ℓ} (m : Ptr → A) where
  pub update_lem : (p : Ptr) (v : A) (a : Ptr) → update m p v a ≡ (if a == p then v else m a)
  unfolding update
  update_lem p v a = refl

  pub update_self : (p : Ptr) (v : A) → update m p v p ≡ v
  unfolding update
  update_self p v = ground arith

  pub update_ne : (p a : Ptr) (v : A) → (a == p) ≡ false → update m p v a ≡ m a
  unfolding update
  update_ne p a v ne = ground arith

  pub update-update : (p : Ptr) (v w : A) → update (update m p v) p w ≡ update m p w
  unfolding update
  update-update p v w = fun_ext λ a. ground arith
