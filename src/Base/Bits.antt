-- ===== src/Base/Bits.antt =====
-- `&` and `|` with a mask whose set bits are neighbours, as halving and doubling.
use Prim.Native.Nat.{
  ℕ, zero, suc, ◌+◌, ◌-◌, ◌*◌, ◌/◌, ◌%◌, ◌^◌, ◌≤◌, ◌<◌, min, max, bit_and, bit_or, digits,
  bit_and-bitwise, bit_or-bitwise,
}
use native.Mathlib.Nat.{le_refl, pow-suc, one-le-pow}
use mathlib.Core.Path.{◌≡◌, refl, ap, ◌∙◌}
use native.Mathlib.Omega.{arith}

-- The mask of `width` ones above `shift` zeros.
abbrev pub mask : (shift width : ℕ) → ℕ
mask zero zero = 0
mask zero (suc k) = mask zero k * 2 + 1
mask (suc j) k = mask j k * 2

-- What is left of a number under the mask, and what the mask makes of it when it is set.
abbrev pub kept : (shift width : ℕ) → ℕ → ℕ
kept zero zero a = 0
kept zero (suc k) a = kept zero k (a / 2) * 2 + a % 2
kept (suc j) k a = kept j k (a / 2) * 2

abbrev pub filled : (shift width : ℕ) → ℕ → ℕ
filled zero zero a = a
filled zero (suc k) a = filled zero k (a / 2) * 2 + 1
filled (suc j) k a = filled j k (a / 2) * 2 + a % 2

kept_none : (j k : ℕ) → kept j k 0 ≡ 0
kept_none zero zero = refl
kept_none zero (suc k) = rw (kept_none zero k) refl
kept_none (suc j) k = rw (kept_none j k) refl

filled_none : (j k : ℕ) → filled j k 0 ≡ mask j k
filled_none zero zero = refl
filled_none zero (suc k) = rw (filled_none zero k) refl
filled_none (suc j) k = rw (filled_none j k) (omega arith)

twice : (w : ℕ) → w * 2 / 2 ≡ w
twice w = omega arith

twice_more : (w : ℕ) → (w * 2 + 1) / 2 ≡ w
twice_more w = omega arith

-- The rest of a number under `&`, with the digits that are left to read.
and_rest : (left j k a : ℕ) → a ≤ left → digits (λ _. zero) min left a (mask j k) ≡ kept j k a
and_rest zero j k zero fits = rw (kept_none j k) refl
and_rest zero j k (suc a) fits = absurd (omega arith)
and_rest (suc left) j k zero fits = rw (kept_none j k) refl
and_rest (suc left) zero zero (suc a) fits =
    omega (arith, and_rest left zero zero (suc a / 2) (omega arith))
and_rest (suc left) zero (suc k) (suc a) fits =
    rw (twice_more (mask zero k), and_rest left zero k (suc a / 2) (omega arith)) (omega arith)
and_rest (suc left) (suc j) k (suc a) fits =
    rw (twice (mask j k), and_rest left j k (suc a / 2) (omega arith)) (omega arith)

or_rest : (left j k a : ℕ) → a ≤ left → digits (λ b. b) max left a (mask j k) ≡ filled j k a
or_rest zero j k zero fits = rw (filled_none j k) refl
or_rest zero j k (suc a) fits = absurd (omega arith)
or_rest (suc left) j k zero fits = rw (filled_none j k) refl
or_rest (suc left) zero zero (suc a) fits =
    omega (arith, or_rest left zero zero (suc a / 2) (omega arith))
or_rest (suc left) zero (suc k) (suc a) fits =
    rw (twice_more (mask zero k), or_rest left zero k (suc a / 2) (omega arith)) (omega arith)
or_rest (suc left) (suc j) k (suc a) fits =
    rw (twice (mask j k), or_rest left j k (suc a / 2) (omega arith)) (omega arith)

pub bit_and-mask : (j k a : ℕ) → bit_and a (mask j k) ≡ kept j k a
bit_and-mask j k a = rw bit_and-bitwise (and_rest a j k a (le_refl a))

pub bit_or-mask : (j k a : ℕ) → bit_or a (mask j k) ≡ filled j k a
bit_or-mask j k a = rw bit_or-bitwise (or_rest a j k a (le_refl a))

-- The three flags.
pub bit_and-one : (a : ℕ) → bit_and a 1 ≡ a % 2
bit_and-one a = omega (arith, bit_and-mask 0 1 a)

pub bit_and-two : (a : ℕ) → bit_and a 2 ≡ 2 * (a / 2 % 2)
bit_and-two a = omega (arith, bit_and-mask 1 1 a)

pub bit_and-four : (a : ℕ) → bit_and a 4 ≡ 4 * (a / 4 % 2)
bit_and-four a = omega (arith, bit_and-mask 2 1 a)

pub bit_or-one : (a : ℕ) → bit_or a 1 ≡ a + 1 - a % 2
bit_or-one a = omega (arith, bit_or-mask 0 1 a)

pub bit_or-two : (a : ℕ) → bit_or a 2 ≡ a + 2 - 2 * (a / 2 % 2)
bit_or-two a = omega (arith, bit_or-mask 1 1 a)

pub bit_or-four : (a : ℕ) → bit_or a 4 ≡ a + 4 - 4 * (a / 4 % 2)
bit_or-four a = omega (arith, bit_or-mask 2 1 a)

-- A mask of low bits takes the remainder.
kept_fields : (k q r : ℕ) → r < 2 ^ k → kept zero k (q * 2 ^ k + r) ≡ r
kept_fields zero q r fits = omega arith
kept_fields (suc k) q r fits =
    let p : q * 2 ^ suc k ≡ 2 * (q * 2 ^ k) = omega (arith, ap (λ (t : ℕ). q * t) (pow-suc 2 k)) in
    let h : (q * 2 ^ suc k + r) / 2 ≡ q * 2 ^ k + r / 2 = omega arith in
    rw (h, kept_fields k q (r / 2) (omega (arith, pow-suc 2 k))) (omega arith)

kept_low : (k a : ℕ) → kept zero k a ≡ a % 2 ^ k
kept_low k a = ground (arith, one-le-pow k 2, kept_fields k (a / 2 ^ k) (a % 2 ^ k))

-- A mask of high bits over twelve zeros keeps the pages, and drops the place in the page.
pub bit_and-above : (k a : ℕ) → bit_and a (mask 12 k) ≡ a / 4096 % 2 ^ k * 4096
bit_and-above k a =
    let page = a / 2 / 2 / 2 / 2 / 2 / 2 / 2 / 2 / 2 / 2 / 2 / 2 in
    let e : page ≡ a / 4096 = omega arith in
    omega (arith, bit_and-mask 12 k a, kept_low k page, ap (λ (t : ℕ). t % 2 ^ k) e)

-- The sign bit of an int, extended to a longer word, and the bits below it.
pub bit_and-sign : (k a : ℕ) → bit_and a (mask 31 k) ≡ a / 2 ^ 31 % 2 ^ k * 2 ^ 31
bit_and-sign k a =
    let b = a / 2 / 2 / 2 / 2 / 2 / 2 / 2 / 2 / 2 / 2 / 2 / 2 / 2 / 2 / 2 / 2 in
    let c = b / 2 / 2 / 2 / 2 / 2 / 2 / 2 / 2 / 2 / 2 / 2 / 2 / 2 / 2 / 2 in
    let e : b ≡ a / 2 ^ 16 = omega arith in
    let f : c ≡ b / 2 ^ 15 = omega arith in
    let g : c ≡ a / 2 ^ 31 = omega arith in
    omega (arith, bit_and-mask 31 k a, kept_low k c, ap (λ (t : ℕ). t % 2 ^ k) g)

pub bit_and-low : (k a : ℕ) → bit_and a (mask 0 k) ≡ a % 2 ^ k
bit_and-low k a = bit_and-mask 0 k a ∙ kept_low k a

-- A mask that lacks one bit, with `k` ones above it.
abbrev pub hole : (place k : ℕ) → ℕ
hole zero k = mask zero k * 2
hole (suc j) k = hole j k * 2 + 1

abbrev pub without : (place k : ℕ) → ℕ → ℕ
without zero k a = kept zero k (a / 2) * 2
without (suc j) k a = without j k (a / 2) * 2 + a % 2

without_none : (j k : ℕ) → without j k 0 ≡ 0
without_none zero k = rw (kept_none zero k) refl
without_none (suc j) k = rw (without_none j k) refl

hole_rest : (left j k a : ℕ) → a ≤ left → digits (λ _. zero) min left a (hole j k) ≡ without j k a
hole_rest zero j k zero fits = rw (without_none j k) refl
hole_rest zero j k (suc a) fits = absurd (omega arith)
hole_rest (suc left) j k zero fits = rw (without_none j k) refl
hole_rest (suc left) zero k (suc a) fits =
    rw (twice (mask zero k), and_rest left zero k (suc a / 2) (omega arith)) (omega arith)
hole_rest (suc left) (suc j) k (suc a) fits =
    rw (twice_more (hole j k), hole_rest left j k (suc a / 2) (omega arith)) (omega arith)

-- The fourth bit cleared, and set.
pub bit_and-not_eight : (k a : ℕ) → bit_and a (hole 3 k) ≡ a / 16 % 2 ^ k * 16 + a % 8
bit_and-not_eight k a =
    let e : bit_and a (hole 3 k) ≡ without 3 k a =
      rw bit_and-bitwise (hole_rest a 3 k a (le_refl a)) in
    let p = a / 2 / 2 / 2 / 2 in
    let f : p ≡ a / 16 = omega arith in omega (arith, e, kept_low k p, ap (λ (t : ℕ). t % 2 ^ k) f)

pub bit_or-eight : (a : ℕ) → bit_or a 8 ≡ a + 8 - 8 * (a / 8 % 2)
bit_or-eight a = omega (arith, bit_or-mask 3 1 a)
