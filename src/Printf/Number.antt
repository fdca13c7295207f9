-- ===== src/Printf/Number.antt =====
-- Numbers printed by os/printf.c, read back.
use native.Mathlib.Nat.{pow-suc}
use mathlib.Core.List.{append-nil}
use xin_os.Base.{
  ℕ, zero, suc, ◌+◌, ◌-◌, ◌*◌, ◌/◌, ◌%◌, ◌^◌, ◌≤◌, ◌<◌, ◌≡◌, refl, ap, ◌∙◌, true, false, some, List,
  [], ◌∷◌, ◌++◌, arith, ltb, ◌==◌, Bool-cases, inl, inr, length, length-append,
}
use xin_os.Printf.{Arg, number, vprintf}
use xin_os.Printf.Text.{decimal, render}
use xin_os.Printf.Scan.{decimal_more}
use xin_os.Printf.Output.{PrintsText, vprintf-PrintsText}

-- The number that decimal digits stand for, behind the digits read so far.
unfoldable pub read_decimal : ℕ → List ℕ → ℕ
read_decimal before [] = before
read_decimal before (c ∷ cs) = read_decimal (before * 10 + (c - b'0')) cs

read_decimal-append :
    (before : ℕ) (xs : List ℕ) (c : ℕ)
    → read_decimal before (xs ++ (c ∷ [])) ≡ read_decimal before xs * 10 + (c - b'0')
unfolding read_decimal
read_decimal-append before [] c = refl
read_decimal-append before (x ∷ xs) c = read_decimal-append (before * 10 + (x - b'0')) xs c

read_decimal-decimal : (k n : ℕ) → n ≤ k → read_decimal 0 (decimal k n) ≡ n
unfolding read_decimal
read_decimal-decimal zero n fits = omega arith
read_decimal-decimal (suc k) n fits = elim (Bool-cases (n == 0)) [
  | inl e ↦ rw (decimal, e) (ground arith)
  | inr e ↦
      let ih = read_decimal-decimal k (n / 10) (ground arith) in
      ap (read_decimal 0) (decimal_more k n e)
      ∙ read_decimal-append 0 (decimal k (n / 10)) (b'0' + n % 10)
      ∙ omega (arith, ih)
]

pub decimal_short : (j k n : ℕ) → n < 10 ^ j → length (decimal k n) ≤ j
decimal_short j zero n small = omega arith
decimal_short zero (suc k) n small =
    let e : (n == 0) ≡ true = ground arith in rw (decimal, e) (omega arith)
decimal_short (suc j) (suc k) n small = elim (Bool-cases (n == 0)) [
  | inl e ↦ rw (decimal, e) (omega arith)
  | inr e ↦ omega (
    arith,
    decimal_short j k (n / 10) (omega (arith, pow-suc 10 j)),
    ap length (decimal_more k n e),
    length-append (decimal k (n / 10)) ((b'0' + n % 10) ∷ []),
  )
]

-- A non-negative int printed with `%d` comes out as its decimal digits, from which the number is
-- read back; for 0 there is no digit.
pub vprintf_number :
    (b : ℕ → ℕ) (v : ℕ)
    → v < 2 ^ 31
    → PrintsText (decimal v v) (vprintf b (b'%' ∷ b'd' ∷ []) (number v ∷ []))
      × (read_decimal 0 (decimal v v) ≡ v)
unfolding render
vprintf_number b v small =
    let whole : v % 2 ^ 32 ≡ v = omega arith in
    let l : ltb v (2 ^ 31) ≡ true = ground arith in
    let e : render (b'%' ∷ b'd' ∷ []) false false (number v ∷ []) ≡ some (decimal v v ++ []) =
      rw (render, whole, l) refl in
    (
      vprintf-PrintsText b (b'%' ∷ b'd' ∷ []) (number v ∷ []) (decimal v v)
          (e ∙ ap some (append-nil (decimal v v)))
          (omega (arith, decimal_short 10 v v (omega arith))),
      read_decimal-decimal v v (omega arith),
    )

-- The format `%d` prints nothing for 0.
pub vprintf_zero : (b : ℕ → ℕ) → PrintsText [] (vprintf b (b'%' ∷ b'd' ∷ []) (number 0 ∷ []))
unfolding render
vprintf_zero b = vprintf-PrintsText b (b'%' ∷ b'd' ∷ []) (number 0 ∷ []) [] refl (omega arith)

-- For the format `%c%d` and two ints of which the first is not negative, the letter c is printed
-- and behind it the first int, in decimal.
pub vprintf_char :
    (b : ℕ → ℕ) (c v : ℕ)
    → c < 2 ^ 31
    → PrintsText
        (b'c' ∷ decimal c c)
        (vprintf b (b'%' ∷ b'c' ∷ b'%' ∷ b'd' ∷ []) (number c ∷ number v ∷ []))
unfolding render
vprintf_char b c v small =
    let whole : c % 2 ^ 32 ≡ c = omega arith in
    let l : ltb c (2 ^ 31) ≡ true = ground arith in
    let s : List ℕ = b'%' ∷ b'c' ∷ b'%' ∷ b'd' ∷ [] in
    let args : List Arg = number c ∷ number v ∷ [] in
    let e : render s false false args ≡ some (b'c' ∷ (decimal c c ++ [])) =
      rw (render, whole, l) refl in
    vprintf-PrintsText b s args (b'c' ∷ decimal c c)
      (e ∙ ap (λ l. some (b'c' ∷ l)) (append-nil (decimal c c)))
      (omega (arith, decimal_short 10 c c (omega arith)))
