-- ===== src/Printf/Line.antt =====
-- What `printf` and `panic` of os/printf.c send to the serial line.
use mathlib.Core.List.{append_assoc}
use xin_os.Base.{
  ℕ, zero, suc, ◌+◌, ◌<◌, ◌≡◌, ◌≢◌, refl, ap, ◌∙◌, true, false, some, List, [], ◌∷◌, ◌++◌, arith,
  ◌==◌, length, get_or, All,
}
use xin_os.Uart.{Uart, is_line}
use xin_os.Uart.Send.{Idles, Idles-append, uart_puts-Idles}
use xin_os.Printf.{Arg, c_string, shown, stopped, printf, panic}
use xin_os.Printf.Text.{render}
use xin_os.Printf.Output.{vprintf-PrintsText}

abbrev pub NoZero : List ℕ → Type 0
NoZero = All (λ c. c ≢ 0)

plus_zero : (i : ℕ) → i ≡ i + 0
plus_zero i = omega arith

zero_plus : (i : ℕ) → 0 + i ≡ i
zero_plus i = omega arith

one_on : (i j : ℕ) → i + 1 + j ≡ i + suc j
one_on i j = omega arith

c_string_lem :
    (xs : List ℕ) (k i : ℕ) (buf : ℕ → ℕ)
    → NoZero xs
    → length xs < k
    → ((j : ℕ) → j < length xs → buf (i + j) ≡ get_or xs j 0)
    → buf (i + length xs) ≡ 0
    → c_string k buf i ≡ xs
unfolding c_string
c_string_lem xs zero i buf nz enough eq ended = absurd (omega arith)
c_string_lem [] (suc k) i buf nz enough eq ended =
    let e : buf i ≡ 0 = ap buf (plus_zero i) ∙ ended in
    let g : (buf i == 0) ≡ true = ground (arith, e) in rw (c_string, g) refl
c_string_lem (x ∷ xs) (suc k) i buf nz enough eq ended =
    let e : buf i ≡ x = ap buf (plus_zero i) ∙ eq 0 (omega arith) in
    let g : (buf i == 0) ≡ false = ground (arith, e, nz.0) in
    let rest =
      c_string_lem xs k (i + 1) buf nz.1 (omega arith)
        (λ j low. ap buf (one_on i j) ∙ eq (suc j) (omega arith))
        (ap buf (one_on i (length xs)) ∙ ended) in
    rw (c_string, g) (ap (λ c. c ∷ c_string k buf (i + 1)) e ∙ ap (λ l. x ∷ l) rest)

-- A format that stands for a text of less than 1023 characters, none of them 0, is sent to the
-- serial line as that text, if the line shows its registers and its transmitter becomes idle often
-- enough; the text's length is returned.
pub printf-sends :
    (u : Uart) (b : ℕ → ℕ) (s : List ℕ) (args : List Arg) (xs rest : List ℕ)
    → render s false false args ≡ some xs
    → length xs < 1023
    → NoZero xs
    → is_line u ≡ true
    → Idles (length xs) u.status rest
    → (buf : ℕ → ℕ) × (printf u b s args
        ≡ shown (length xs) buf (record u { status = rest; sent = u.sent ++ xs }))
unfolding printf
printf-sends u b s args xs rest e short nz line i =
    let p = vprintf-PrintsText b s args xs e short in
    let c : c_string 1024 p.out_buf 0 ≡ xs =
      c_string_lem xs 1024 0 p.out_buf nz (omega arith)
        (λ j low. ap p.out_buf (zero_plus j) ∙ p.shown j low)
        (ap p.out_buf (zero_plus (length xs)) ∙ p.ended) in
    (p.out_buf, rw (printf, p.result, c, uart_puts-Idles u xs rest line i) refl)

-- A text without conversions stands for itself.
abbrev pub NoPercent : List ℕ → Type 0
NoPercent = All (λ c. c ≢ b'%')

render_plain : (xs : List ℕ) → NoPercent xs → render xs false false [] ≡ some xs
unfolding render
render_plain [] n = refl
render_plain (x ∷ xs) n =
    let g : (x == b'%') ≡ false = ground (arith, n.0) in rw (render, g, render_plain xs n.1) refl

abbrev title : List ℕ
title = b'p' ∷ b'a' ∷ b'n' ∷ b'i' ∷ b'c' ∷ b':' ∷ b' ' ∷ []

abbrev new_line : List ℕ
new_line = 10 ∷ []

abbrev pub panic_text : List ℕ → List ℕ
panic_text s = title ++ (s ++ new_line)

title_sound : NoPercent title × NoZero title
title_sound = omega arith

new_line_sound : NoPercent new_line × NoZero new_line
new_line_sound = omega arith

-- `panic` of a text of less than 1023 characters, without conversions and without a 0, on a line
-- that shows its registers and becomes idle often enough, sends that text behind "panic: " and with
-- a new line, and the kernel stops.
pub panic-sends :
    (u : Uart) (b : ℕ → ℕ) (s rest : List ℕ)
    → NoPercent s
    → NoZero s
    → length s < 1023
    → is_line u ≡ true
    → Idles (length (panic_text s)) u.status rest
    → panic u b s ≡ stopped (record u { status = rest; sent = u.sent ++ panic_text s })
unfolding panic
panic-sends u b s rest plain nz short line i =
    let (r1, i1, j) = Idles-append title (s ++ new_line) i in
    let (r2, i2, i3) = Idles-append s new_line j in
    let u1 : Uart = record u { status = r1; sent = u.sent ++ title } in
    let u2 : Uart = record u1 { status = r2; sent = u1.sent ++ s } in
    let p1 =
      printf-sends u b title [] title r1 (render_plain title title_sound.0) few title_sound.1 line
        i1 in
    let p2 = printf-sends u1 p1.0 s [] s r2 (render_plain s plain) short nz line i2 in
    let p3 =
      printf-sends u2 p2.0 new_line [] new_line rest (render_plain new_line new_line_sound.0) one
        new_line_sound.1 line i3 in
    rw (panic, p1.1, p2.1, p3.1)
      (ap (λ (l : List ℕ). stopped (record u { status = rest; sent = l }))
        (append_assoc (u.sent ++ title) s new_line ∙ append_assoc u.sent title (s ++ new_line)))
  where
    few : length title < 1023
    few = omega arith

    one : length new_line < 1023
    one = omega arith
