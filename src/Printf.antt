-- ===== src/Printf.antt =====
-- os/printf.c: `_vsnprintf` scans a format twice, first to count the characters and then to write
-- them into `out_buf`. A C string is the list of its bytes, without the terminator; the variable
-- arguments are a list. What the C standard leaves undefined (an argument missing or of another kind,
-- the negation of the smallest long) ends the run.
pub mod Text
pub mod Scan
pub mod Output
pub mod Number
pub mod Line
pub mod Bounds
mod Tests
use xin_os.Base.{
  ℕ, zero, suc, ◌+◌, ◌-◌, ◌*◌, ◌/◌, ◌%◌, ◌^◌, Bool, true, false, ◌&&◌, Option, none, some, List, [],
  ◌∷◌, ltb, leb, ◌==◌, if◌then◌else◌, u32, update,
}
use xin_os.Uart.{Uart, uart_puts}

pub data Arg : Type 0 where
  number : ℕ → Arg
  text : List ℕ → Arg

-- The parameters `out` (whether it is not NULL, and what it points to) and `n`, and `pos`.
pub record Out : Type 0 where
  pub present : Bool
  pub size : ℕ
  pub pos : ℕ
  pub buffer : ℕ → ℕ

-- `if (out && pos + i < n) out[pos + i] = c;`
abbrev pub store : Out → ℕ → ℕ → Out
store o i c = record o {
  buffer = if o.present && ltb (o.pos + i) o.size then update o.buffer (o.pos + i) c else o.buffer;
}

abbrev pub advance : Out → ℕ → Out
advance o k = record o { pos = o.pos + k }

-- `if (out && pos < n) out[pos] = c; ++pos;`
abbrev pub put : Out → ℕ → Out
put o c = advance (store o 0 c) 1

-- The number of decimal digits; the number itself is fuel enough.
pub count_digits : ℕ → ℕ → ℕ
count_digits zero i = 0
count_digits (suc k) i = elim (i == 0) [ true ↦ 0 | false ↦ suc (count_digits k (i / 10)) ]

-- The digits from the last one to the first.
pub put_digits : ℕ → Out → ℕ → Out
put_digits zero o num = o
put_digits (suc i) o num = put_digits i (store o i (b'0' + num % 10)) (num / 10)

unfoldable pub put_number : Out → ℕ → Out
unfolding count_digits put_digits
put_number o num = let digits = count_digits num num in advance (put_digits digits o num) digits

abbrev pub hex_digit : ℕ → ℕ
hex_digit d = if ltb d 10 then b'0' + d else b'a' + d - 10

pub put_hex : ℕ → Out → ℕ → Out
put_hex zero o num = o
put_hex (suc i) o num = put_hex i (put o (hex_digit (num / 16 ^ i % 16))) num

-- The characters of a string argument.
pub put_text : Out → List ℕ → Out
put_text o [] = o
put_text o (c ∷ str) = put_text (put o c) str

-- The number of values of a long or an int.
abbrev pub values : Bool → ℕ
values longarg = if longarg then 2 ^ 64 else 2 ^ 32

-- What one character does: `format`, `longarg`, the arguments left, and the output.
pub data Step : Type 0 where
  go : (format longarg : Bool) → List Arg → Out → Step
  undefined : Step

abbrev pub convert_d : Bool → List Arg → Out → Step
convert_d longarg (number v ∷ args) o =
    let num = v % values longarg in
    if ltb num (values longarg / 2)
    then go false false args (put_number o num)
    else if num == 2 ^ 63
    then undefined
    else go false false args (put_number (put o b'-') (values longarg - num))
convert_d longarg (text t ∷ args) o = undefined
convert_d longarg [] o = undefined

abbrev pub convert_x : Bool → List Arg → Out → Step
convert_x longarg (number v ∷ args) o =
    go false false args (put_hex (if longarg then 16 else 8) o (v % values longarg))
convert_x longarg (text t ∷ args) o = undefined
convert_x longarg [] o = undefined

abbrev pub convert_s : List Arg → Out → Step
convert_s (text t ∷ args) o = go false false args (put_text o t)
convert_s (number v ∷ args) o = undefined
convert_s [] o = undefined

-- The `switch` on a character behind `%`.
unfoldable pub convert : Bool → List Arg → Out → ℕ → Step
unfolding put_number put_hex put_text
convert longarg args o c =
    if c == b'd'
    then convert_d longarg args o
    else if c == b'l'
    then go true true args o
    else if c == b'p'
    then convert_x true args (put (put o b'0') b'x')
    else if c == b'x'
    then convert_x longarg args o
    else if c == b's'
    then convert_s args o
    else if c == b'c'
    then go false false args (put o c)
    else go true longarg args o

abbrev pub scan_char : (format longarg : Bool) → List Arg → Out → ℕ → Step
scan_char true longarg args o c = convert longarg args o c
scan_char false longarg args o c =
    if c == b'%' then go true longarg args o else go false longarg args (put o c)

-- The loop over the format.
pub scan : List ℕ → (format longarg : Bool) → List Arg → Out → Option Out
unfolding convert
scan [] format longarg args o = some o
scan (c ∷ s) format longarg args o = elim (scan_char format longarg args o c) [
  | undefined ↦ none
  | go format' longarg' args' o' ↦ scan s format' longarg' args' o'
]

-- The terminator, and the count returned with the buffer.
abbrev pub terminate : Out → ℕ → ℕ
terminate o =
    if o.present && ltb o.pos o.size
    then update o.buffer o.pos 0
    else if o.present && ltb 0 o.size
    then update o.buffer (o.size - 1) 0
    else o.buffer

unfoldable pub vsnprintf : Bool → (ℕ → ℕ) → ℕ → List ℕ → List Arg → Option (ℕ × (ℕ → ℕ))
unfolding scan
vsnprintf present buffer size s args =
    let start : Out = record { present = present; size = size; pos = 0; buffer = buffer } in
    elim (scan s false false args start) [ none ↦ none | some o ↦ some (u32 o.pos, terminate o) ]

-- What `_vprintf` does with `out_buf`: it hands it to `uart_puts` and returns the count, or it says
-- that the text is too long and stops.
pub data Printed : Type 0 where
  printed : (res : ℕ) (out_buf : ℕ → ℕ) → Printed
  overflow : Printed
  no_meaning : Printed

unfoldable pub vprintf : (ℕ → ℕ) → List ℕ → List Arg → Printed
unfolding vsnprintf
vprintf out_buf s args = elim (vsnprintf false out_buf (2 ^ 64 - 1) s args) [
  | none ↦ no_meaning
  | some (res, _) ↦
      if leb 1024 (u32 (res + 1))
      then overflow
      else elim (vsnprintf true out_buf (u32 (res + 1)) s args) [
        | none ↦ no_meaning
        | some (_, buf) ↦ printed res buf
      ]
]

-- The bytes from an index on, up to the first 0.
pub c_string : ℕ → (ℕ → ℕ) → ℕ → List ℕ
c_string zero buf i = []
c_string (suc k) buf i = elim (buf i == 0) [ true ↦ [] | false ↦ buf i ∷ c_string k buf (i + 1) ]

-- How a call of `printf` ends: it returns the count, with `out_buf` and the serial line as they are
-- then; the kernel stops; the line gives no reading any more; or C leaves the call undefined.
pub data Shown : Type 0 where
  shown : (res : ℕ) (out_buf : ℕ → ℕ) → Uart → Shown
  stopped : Uart → Shown
  waiting : Shown
  meaningless : Shown

-- "error: output string size overflow\n"
abbrev pub overflow_message : List ℕ
overflow_message =
    b'e' ∷ b'r' ∷ b'r' ∷ b'o' ∷ b'r' ∷ b':' ∷ b' ' ∷ b'o' ∷ b'u' ∷ b't' ∷ b'p' ∷ b'u' ∷ b't' ∷ b' '
    ∷ b's' ∷ b't' ∷ b'r' ∷ b'i' ∷ b'n' ∷ b'g' ∷ b' ' ∷ b's' ∷ b'i' ∷ b'z' ∷ b'e' ∷ b' ' ∷ b'o'
    ∷ b'v' ∷ b'e' ∷ b'r' ∷ b'f' ∷ b'l' ∷ b'o' ∷ b'w' ∷ 10 ∷ []

unfoldable pub printf : Uart → (ℕ → ℕ) → List ℕ → List Arg → Shown
unfolding vprintf c_string
printf u out_buf s args = elim (vprintf out_buf s args) [
  | no_meaning ↦ meaningless
  | overflow ↦ elim (uart_puts u overflow_message) [ none ↦ waiting | some u' ↦ stopped u' ]
  | printed res buf ↦ elim (uart_puts u (c_string 1024 buf 0)) [
    | none ↦ waiting
    | some u' ↦ shown res buf u'
  ]
]

-- A call that follows another one.
abbrev pub and_then : Shown → (Uart → (ℕ → ℕ) → Shown) → Shown
and_then (shown res buf u) f = f u buf
and_then (stopped u) f = stopped u
and_then waiting f = waiting
and_then meaningless f = meaningless

unfoldable pub panic : Uart → (ℕ → ℕ) → List ℕ → Shown
unfolding printf
panic u out_buf s =
    and_then (printf u out_buf (b'p' ∷ b'a' ∷ b'n' ∷ b'i' ∷ b'c' ∷ b':' ∷ b' ' ∷ []) []) (λ u1 buf1.
      and_then (printf u1 buf1 s [])
        (λ u2 buf2. and_then (printf u2 buf2 (10 ∷ []) []) (λ u3 buf3. stopped u3)))
