-- ===== src/Printf/Scan.antt =====
-- The scan of `_vsnprintf` in os/printf.c writes the text that the format stands for.
use xin_os.Base.{
  ℕ, zero, suc, ◌+◌, ◌-◌, ◌/◌, ◌%◌, ◌^◌, ◌≡◌, refl, sym, ap, ◌∙◌, fun_ext, Bool, true, false,
  Option, none, some, List, [], ◌∷◌, ◌++◌, arith, ltb, ◌==◌, if◌then◌else◌, Bool-cases, inl, inr,
  length, length-append, update,
}
use xin_os.Printf.{
  Arg, number, text, Out, store, advance, put, count_digits, put_digits, put_number, hex_digit,
  put_hex, put_text, convert_d, convert_x, convert_s, values, Step, go, undefined, convert,
  scan_char, scan,
}
use xin_os.Printf.Text.{
  decimal, hexadecimal, Piece, piece, no_piece, piece_d, piece_x, piece_s, piece_of, render,
}

pub decimal_more :
    (k n : ℕ) → (n == 0) ≡ false → decimal (suc k) n ≡ decimal k (n / 10) ++ ((b'0' + n % 10) ∷ [])
decimal_more k n e = rw (decimal, e) refl

decimal_end : (k n : ℕ) → (n == 0) ≡ true → decimal (suc k) n ≡ []
decimal_end k n e = rw (decimal, e) refl

count_digits_more :
    (k n : ℕ) → (n == 0) ≡ false → count_digits (suc k) n ≡ suc (count_digits k (n / 10))
unfolding count_digits
count_digits_more k n e = rw (count_digits, e) refl

count_digits_end : (k n : ℕ) → (n == 0) ≡ true → count_digits (suc k) n ≡ 0
unfolding count_digits
count_digits_end k n e = rw (count_digits, e) refl

pub decimal-length : (k n : ℕ) → length (decimal k n) ≡ count_digits k n
unfolding count_digits
decimal-length zero n = refl
decimal-length (suc k) n = elim (Bool-cases (n == 0)) [
  | inl e ↦ ap length (decimal_end k n e) ∙ sym (count_digits_end k n e)
  | inr e ↦
      ap length (decimal_more k n e)
      ∙ length-append (decimal k (n / 10)) ((b'0' + n % 10) ∷ [])
      ∙ omega (arith, decimal-length k (n / 10), count_digits_more k n e)
]

out_eq :
    (o : Out) (p q : ℕ) (b c : ℕ → ℕ)
    → p ≡ q
    → b ≡ c
    → (record o { pos = p; buffer = b }) ≡ (record o { pos = q; buffer = c })
out_eq o p q b c e f = rw (e, f) refl

advance-suc : (o : Out) (k : ℕ) → advance o (suc k) ≡ advance (advance o k) 1
advance-suc o k = out_eq o _ _ _ _ (omega arith) refl

-- A character stored ahead and one put here: the order does not matter.
put-store : (o : Out) (i c d : ℕ) → put (store o (suc i) d) c ≡ store (put o c) i d
unfolding update
put-store o i c d = out_eq o _ _ _ _ refl (fun_ext λ a. ground arith)

put_text-store :
    (o : Out) (xs : List ℕ) (d : ℕ)
    → advance (put_text (store o (length xs) d) xs) 1 ≡ put_text o (xs ++ (d ∷ []))
unfolding put_text
put_text-store o [] d = refl
put_text-store o (x ∷ xs) d =
    ap (λ u. advance (put_text u xs) 1) (put-store o (length xs) x d)
    ∙ put_text-store (put o x) xs d

-- The digits written from the last one are the decimal digits in order.
put_digits-decimal :
    (k : ℕ) (o : Out) (n : ℕ)
    → advance (put_digits (count_digits k n) o n) (count_digits k n) ≡ put_text o (decimal k n)
unfolding count_digits put_digits put_text
put_digits-decimal zero o n = out_eq o _ _ _ _ (omega arith) refl
put_digits-decimal (suc k) o n = elim (Bool-cases (n == 0)) [
  | inl e ↦
      ap (λ d. advance (put_digits d o n) d) (count_digits_end k n e)
      ∙ out_eq o _ _ _ _ (omega arith) refl
      ∙ ap (put_text o) (sym (decimal_end k n e))
  | inr e ↦
      let d = b'0' + n % 10 in
      let c = count_digits k (n / 10) in
      let at_end : c ≡ length (decimal k (n / 10)) = sym (decimal-length k (n / 10)) in
      ap (λ t. advance (put_digits t o n) t) (count_digits_more k n e)
      ∙ advance-suc (put_digits c (store o c d) (n / 10)) c
      ∙ ap (λ u. advance u 1) (put_digits-decimal k (store o c d) (n / 10))
      ∙ ap (λ t. advance (put_text (store o t d) (decimal k (n / 10))) 1) at_end
      ∙ put_text-store o (decimal k (n / 10)) d
      ∙ ap (put_text o) (sym (decimal_more k n e))
]

put_hex-hexadecimal : (k : ℕ) (o : Out) (n : ℕ) → put_hex k o n ≡ put_text o (hexadecimal k n)
unfolding put_hex put_text
put_hex-hexadecimal zero o n = refl
put_hex-hexadecimal (suc k) o n = put_hex-hexadecimal k (put o (hex_digit (n / 16 ^ k % 16))) n

put_text-append : (o : Out) (xs ys : List ℕ) → put_text (put_text o xs) ys ≡ put_text o (xs ++ ys)
unfolding put_text
put_text-append o [] ys = refl
put_text-append o (x ∷ xs) ys = put_text-append (put o x) xs ys

abbrev put_piece : Out → Piece → Step
put_piece o (piece format longarg args xs) = go format longarg args (put_text o xs)
put_piece o no_piece = undefined

put_number-decimal : (o : Out) (n : ℕ) → put_number o n ≡ put_text o (decimal n n)
unfolding put_number
put_number-decimal o n = put_digits-decimal n o n

convert_d-piece :
    (longarg : Bool) (args : List Arg) (o : Out)
    → convert_d longarg args o ≡ put_piece o (piece_d longarg args)
unfolding put_text
convert_d-piece longarg (number v ∷ args) o =
    let num = v % values longarg in
    elim (Bool-cases (ltb num (values longarg / 2))) [
      | inl e ↦ rw e (ap (go false false args) (put_number-decimal o num))
      | inr e ↦ elim (Bool-cases (num == 2 ^ 63)) [
        | inl f ↦ rw (e, f) refl
        | inr f ↦
            rw (e, f)
              (ap (go false false args) (put_number-decimal (put o b'-') (values longarg - num)))
      ]
    ]
convert_d-piece longarg (text t ∷ args) o = refl
convert_d-piece longarg [] o = refl

convert_x-piece :
    (longarg : Bool) (before : List ℕ) (args : List Arg) (o : Out)
    → convert_x longarg args (put_text o before) ≡ put_piece o (piece_x longarg before args)
convert_x-piece longarg before (number v ∷ args) o =
    let k = if longarg then 16 else 8 in
    let n = v % values longarg in
    ap (go false false args)
      (put_hex-hexadecimal k (put_text o before) n ∙ put_text-append o before (hexadecimal k n))
convert_x-piece longarg before (text t ∷ args) o = refl
convert_x-piece longarg before [] o = refl

convert_s-piece : (args : List Arg) (o : Out) → convert_s args o ≡ put_piece o (piece_s args)
convert_s-piece (text t ∷ args) o = refl
convert_s-piece (number v ∷ args) o = refl
convert_s-piece [] o = refl

scan_char-piece :
    (format longarg : Bool) (args : List Arg) (o : Out) (c : ℕ)
    → scan_char format longarg args o c ≡ put_piece o (piece_of format longarg args c)
unfolding convert put_text
scan_char-piece false longarg args o c = elim (Bool-cases (c == b'%')) [
  | inl e ↦ rw e refl
  | inr e ↦ rw e refl
]
scan_char-piece true longarg args o c = elim (Bool-cases (c == b'd')) [
  | inl e ↦ rw e (convert_d-piece longarg args o)
  | inr e ↦ rw e (elim (Bool-cases (c == b'l')) [
    | inl e ↦ rw e refl
    | inr e ↦ rw e (elim (Bool-cases (c == b'p')) [
      | inl e ↦ rw e (convert_x-piece true (b'0' ∷ b'x' ∷ []) args o)
      | inr e ↦ rw e (elim (Bool-cases (c == b'x')) [
        | inl e ↦ rw e (convert_x-piece longarg [] args o)
        | inr e ↦ rw e (elim (Bool-cases (c == b's')) [
          | inl e ↦ rw e (convert_s-piece args o)
          | inr e ↦ rw e (elim (Bool-cases (c == b'c')) [ inl e ↦ rw e refl | inr e ↦ rw e refl ])
        ])
      ])
    ])
  ])
]

-- What a run does with the text that the format stands for.
abbrev pub put_rendered : Out → Option (List ℕ) → Option Out
put_rendered o none = none
put_rendered o (some xs) = some (put_text o xs)

abbrev scan_on : List ℕ → Step → Option Out
scan_on s (go format longarg args o) = scan s format longarg args o
scan_on s undefined = none

scan_next :
    (o : Out) (s : List ℕ) (p : Piece)
    → ((q : Out) (format longarg : Bool) (args : List Arg)
        → scan s format longarg args q ≡ put_rendered q (render s format longarg args))
    → scan_on s (put_piece o p)
      ≡ put_rendered o (elim p as (λ _. Option (List ℕ)) [
        | no_piece ↦ none
        | piece format' longarg' args' xs ↦ elim (render s format' longarg' args') [
          | none ↦ none
          | some ys ↦ some (xs ++ ys)
        ]
      ])
scan_next o s no_piece ih = refl
scan_next o s (piece format longarg args xs) ih =
    ih (put_text o xs) format longarg args ∙ joined (render s format longarg args)
  where
    joined :
        (r : Option (List ℕ))
        → put_rendered (put_text o xs) r
          ≡ put_rendered o
              (elim r as (λ _. Option (List ℕ)) [ none ↦ none | some ys ↦ some (xs ++ ys) ])
    joined none = refl
    joined (some ys) = ap some (put_text-append o xs ys)

scan_step :
    (s : List ℕ) (c : ℕ) (o : Out) (format longarg : Bool) (args : List Arg) (x : Step)
    → scan_char format longarg args o c ≡ x
    → scan (c ∷ s) format longarg args o ≡ scan_on s x
unfolding scan
scan_step s c o format longarg args (go f l a q) e = rw (scan, e) refl
scan_step s c o format longarg args undefined e = rw (scan, e) refl

-- From any state of the scan, the characters of a format are written to the output one by one as
-- the text that the format stands for, or the run is undefined exactly where the text is.
pub scan-render :
    (s : List ℕ) (o : Out) (format longarg : Bool) (args : List Arg)
    → scan s format longarg args o ≡ put_rendered o (render s format longarg args)
unfolding scan render put_text
scan-render [] o format longarg args = refl
scan-render (c ∷ s) o format longarg args =
    scan_step s c o format longarg args (put_piece o (piece_of format longarg args c))
      (scan_char-piece format longarg args o c)
    ∙ scan_next o s (piece_of format longarg args c) (λ q f l a. scan-render s q f l a)
