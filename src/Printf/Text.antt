-- ===== src/Printf/Text.antt =====
-- The text that a format of os/printf.c stands for, as a list of characters.
use xin_os.Base.{
  ℕ, zero, suc, ◌+◌, ◌-◌, ◌/◌, ◌%◌, ◌^◌, Bool, true, false, Option, none, some, List, [], ◌∷◌, ◌++◌,
  ltb, ◌==◌, if◌then◌else◌,
}
use xin_os.Printf.{Arg, number, text, hex_digit, values}

-- The decimal digits of a number, the first one first; none for 0.
abbrev pub decimal : ℕ → ℕ → List ℕ
decimal zero n = []
decimal (suc k) n = elim (n == 0) [
  | true ↦ []
  | false ↦ decimal k (n / 10) ++ ((b'0' + n % 10) ∷ [])
]

abbrev pub hexadecimal : ℕ → ℕ → List ℕ
hexadecimal zero n = []
hexadecimal (suc i) n = hex_digit (n / 16 ^ i % 16) ∷ hexadecimal i n

-- What one character of the format does to the text.
pub data Piece : Type 0 where
  piece : (format longarg : Bool) → List Arg → List ℕ → Piece
  no_piece : Piece

-- An int or a long in decimal; 0 has no digits.
abbrev pub piece_d : Bool → List Arg → Piece
piece_d longarg (number v ∷ args) =
    let num = v % values longarg in
    let minus = values longarg - num in
    if ltb num (values longarg / 2)
    then piece false false args (decimal num num)
    else if num == 2 ^ 63
    then no_piece
    else piece false false args (b'-' ∷ decimal minus minus)
piece_d longarg (text t ∷ args) = no_piece
piece_d longarg [] = no_piece

abbrev pub piece_x : Bool → List ℕ → List Arg → Piece
piece_x longarg before (number v ∷ args) =
    piece false false args (before ++ hexadecimal (if longarg then 16 else 8) (v % values longarg))
piece_x longarg before (text t ∷ args) = no_piece
piece_x longarg before [] = no_piece

abbrev pub piece_s : List Arg → Piece
piece_s (text t ∷ args) = piece false false args t
piece_s (number v ∷ args) = no_piece
piece_s [] = no_piece

abbrev pub piece_of : (format longarg : Bool) → List Arg → ℕ → Piece
piece_of false longarg args c =
    if c == b'%' then piece true longarg args [] else piece false longarg args (c ∷ [])
piece_of true longarg args c =
    if c == b'd'
    then piece_d longarg args
    else if c == b'l'
    then piece true true args []
    else if c == b'p'
    then piece_x true (b'0' ∷ b'x' ∷ []) args
    else if c == b'x'
    then piece_x longarg [] args
    else if c == b's'
    then piece_s args
    else if c == b'c'
    then piece false false args (c ∷ [])
    else piece true longarg args []

-- The text that is printed for a format; `none` where C leaves it undefined.
unfoldable pub render : List ℕ → (format longarg : Bool) → List Arg → Option (List ℕ)
render [] format longarg args = some []
render (c ∷ s) format longarg args = elim (piece_of format longarg args c) [
  | no_piece ↦ none
  | piece format' longarg' args' xs ↦ elim (render s format' longarg' args') [
    | none ↦ none
    | some ys ↦ some (xs ++ ys)
  ]
]
