-- ===== src/Trap/Says.antt =====
-- The texts that a trap of os/trap.c sends, for each cause.
use mathlib.Core.List.{append-nil}
use xin_os.Base.{
  ℕ, zero, suc, ◌+◌, ◌/◌, ◌%◌, ◌^◌, ◌<◌, ◌≡◌, refl, sym, subst, true, false, some, List, [], ◌∷◌,
  ◌++◌, arith, length, length-append, ltb, ◌==◌, ◌||◌, if◌then◌else◌, u64, Bool-cases, inl, inr,
}
use xin_os.Plic.{uart0_irq}
use xin_os.Printf.{number, text}
use xin_os.Printf.Text.{decimal, render}
use xin_os.Printf.Scan.{decimal_more}
use xin_os.Printf.Line.{NoZero, NoPercent, panic_text}
use xin_os.Printf.Number.{decimal_short}
use xin_os.Timer.{elapsed_time}
use xin_os.Timer.Clock.{two_digits_lem}
use xin_os.Programs.{say, bytes}
use xin_os.Trap.{Machine, Context}
use xin_os.Trap.Messages.{
  Output, prints, external_output, interrupt_output, exception_output, syscall_output,
}
use xin_os.Trap.Spoken.{
  Spoken, goes_on, dies, behind, Speaks, silent, prints_then, puts_then, panics_last,
}

-- A line of a text, a number in decimal, and the end.
abbrev pub number_line : List ℕ → ℕ → List ℕ
number_line title n = title ++ (decimal n n ++ bytes "\n")

abbrev pub clock_text : ℕ → List ℕ
clock_text ticks = elapsed_time ticks ++ bytes "\n"

abbrev pub external_text : (irq : ℕ) → List ℕ
external_text irq =
    if irq == uart0_irq
    then []
    else if irq == 0
    then []
    else number_line (bytes "unexpected interrupt irq = ") irq

abbrev pub interrupt_text : (cause_code : ℕ) → Machine → List ℕ
interrupt_text cause_code m =
    if cause_code == 3
    then []
    else if cause_code == 7
    then clock_text (m.timers.ticks + 1)
    else if cause_code == 11
    then external_text m.plic.claim
    else bytes "unknown async exception!\n"

abbrev pub syscall_text : (a7 : ℕ) → List ℕ
syscall_text a7 = if a7 == 1 then [] else number_line (bytes "Unknown syscall no: ") a7

abbrev pub exception_text : (cause_code : ℕ) → Context → Spoken
exception_text cause_code ctx =
    behind (number_line (bytes "Sync exceptions!, code = ") cause_code) (
      if cause_code == 8 || cause_code == 9 || cause_code == 11
      then goes_on (bytes "System call from user mode\n" ++ syscall_text ctx.a7)
      else dies (panic_text (bytes "OOPS! What can I do!")))

NoZero-append : (xs ys : List ℕ) → NoZero xs → NoZero ys → NoZero (xs ++ ys)
NoZero-append [] ys h k = k
NoZero-append (x ∷ xs) ys h k = (h.0, NoZero-append xs ys h.1 k)

decimal-NoZero : (k n : ℕ) → NoZero (decimal k n)
decimal-NoZero zero n = tt
decimal-NoZero (suc k) n = elim (Bool-cases (n == 0)) [
  | inl e ↦ rw (decimal, e) tt
  | inr e ↦ subst NoZero (sym (decimal_more k n e)) (
      NoZero-append (decimal k (n / 10)) ((b'0' + n % 10) ∷ []) (decimal-NoZero k (n / 10))
        (omega arith))
]

number_line_short :
    (title : List ℕ) (n : ℕ) → length title < 100 → n < 2 ^ 31 → length (number_line title n) < 1023
number_line_short title n few small = omega (
  arith,
  length-append title (decimal n n ++ bytes "\n"),
  length-append (decimal n n) (bytes "\n"),
  decimal_short 10 n n (omega arith),
)

number_line-NoZero : (title : List ℕ) (n : ℕ) → NoZero title → NoZero (number_line title n)
number_line-NoZero title n h =
    NoZero-append title (decimal n n ++ bytes "\n") h
      (NoZero-append (decimal n n) (bytes "\n") (decimal-NoZero n n) (omega arith))

-- `%d` at the end of a line.
render_number :
    (n : ℕ)
    → n < 2 ^ 31
    → render (bytes "%d\n") false false (number n ∷ []) ≡ some (decimal n n ++ bytes "\n")
unfolding render
render_number n small =
    let whole : n % 2 ^ 32 ≡ n = omega arith in
    let l : ltb n (2 ^ 31) ≡ true = ground arith in rw (render, whole, l) refl

-- A title without conversions in front of it.
render_line :
    (title : List ℕ) (n : ℕ)
    → NoPercent title
    → n < 2 ^ 31
    → render (title ++ bytes "%d\n") false false (number n ∷ []) ≡ some (number_line title n)
unfolding render
render_line [] n plain small = render_number n small
render_line (c ∷ title) n plain small =
    let g : (c == b'%') ≡ false = ground (arith, plain.0) in
    rw (render, g, render_line title n plain.1 small) refl

line_then :
    (title : List ℕ) (n : ℕ) {os : List Output} {s : Spoken}
    → NoPercent title
    → NoZero title
    → length title < 100
    → n < 2 ^ 31
    → Speaks os s
    → Speaks (prints (title ++ bytes "%d\n", number n ∷ []) ∷ os) (behind (number_line title n) s)
line_then title n plain nz few small more =
    prints_then (title ++ bytes "%d\n", number n ∷ []) (number_line title n)
      (render_line title n plain small) (number_line_short title n few small)
      (number_line-NoZero title n nz) more

line_last :
    (title : List ℕ) (n : ℕ)
    → NoPercent title
    → NoZero title
    → length title < 100
    → n < 2 ^ 31
    → Speaks (prints (title ++ bytes "%d\n", number n ∷ []) ∷ []) (goes_on (number_line title n))
line_last title n plain nz few small =
    subst (λ l. Speaks (prints (title ++ bytes "%d\n", number n ∷ []) ∷ []) (goes_on l))
      (append-nil (number_line title n)) (line_then title n plain nz few small silent)

syscall-Speaks :
    (ctx : Context) → ctx.a7 < 2 ^ 31 → Speaks (syscall_output ctx) (goes_on (syscall_text ctx.a7))
syscall-Speaks ctx small = elim (Bool-cases (ctx.a7 == 1)) [
  | inl e ↦ rw e silent
  | inr e ↦ rw e (
      line_last (bytes "Unknown syscall no: ") ctx.a7 (omega arith) (omega arith) (omega arith)
        small)
]

pub exception-Speaks :
    (cause_code : ℕ) (ctx : Context)
    → cause_code < 2 ^ 31
    → ctx.a7 < 2 ^ 31
    → Speaks (exception_output cause_code ctx) (exception_text cause_code ctx)
unfolding exception_output
exception-Speaks cause_code ctx small known =
    let start = λ (os : List Output) (s : Spoken) (h : Speaks os s).
      line_then (bytes "Sync exceptions!, code = ") cause_code {os = os} {s = s} (omega arith)
        (omega arith) (omega arith) small h in
    elim (Bool-cases (cause_code == 8 || cause_code == 9 || cause_code == 11)) [
      | inl e ↦ rw e (
          start _ (goes_on (bytes "System call from user mode\n" ++ syscall_text ctx.a7))
            (puts_then (bytes "System call from user mode\n") (syscall-Speaks ctx known)))
      | inr e ↦ rw e (
          start _ (dies (panic_text (bytes "OOPS! What can I do!")))
            (panics_last (bytes "OOPS! What can I do!") (omega arith) (omega arith) (omega arith)))
    ]

external-Speaks :
    (irq : ℕ) → irq < 2 ^ 31 → Speaks (external_output irq) (goes_on (external_text irq))
external-Speaks irq small = elim (Bool-cases (irq == uart0_irq)) [
  | inl e ↦ rw e silent
  | inr e ↦ elim (Bool-cases (irq == 0)) [
    | inl z ↦ rw (e, z) silent
    | inr z ↦
        rw (e, z)
          (line_last (bytes "unexpected interrupt irq = ") irq (omega arith) (omega arith)
            (omega arith) small)
  ]
]

-- The clock has eight characters below 100 hours.
clock_sound :
    (ticks : ℕ) → ticks < 360000 → (length (elapsed_time ticks) ≡ 8) × NoZero (elapsed_time ticks)
unfolding elapsed_time
clock_sound ticks small =
    rw
      (
        two_digits_lem (ticks / 60 / 60) (omega arith),
        two_digits_lem (ticks / 60 % 60) (omega arith),
        two_digits_lem (ticks % 60) (omega arith),
      )
      (omega arith)

clock-Speaks :
    (ticks : ℕ)
    → ticks < 360000
    → Speaks
        (prints (say "%s\n" (text (elapsed_time ticks) ∷ [])) ∷ [])
        (goes_on (clock_text ticks))
unfolding render
clock-Speaks ticks small =
    let c = clock_sound ticks small in
    subst (λ l. Speaks (prints (say "%s\n" (text (elapsed_time ticks) ∷ [])) ∷ []) (goes_on l))
      (append-nil (clock_text ticks))
      (prints_then (say "%s\n" (text (elapsed_time ticks) ∷ [])) (clock_text ticks) refl
        (omega (arith, c.0, length-append (elapsed_time ticks) (bytes "\n")))
        (NoZero-append (elapsed_time ticks) (bytes "\n") c.1 (omega arith)) silent)

pub interrupt-Speaks :
    (cause_code : ℕ) (m : Machine)
    → m.timers.ticks + 1 < 360000
    → m.plic.claim < 2 ^ 31
    → Speaks (interrupt_output cause_code m) (goes_on (interrupt_text cause_code m))
unfolding interrupt_output render
interrupt-Speaks cause_code m early known =
    let one_more : u64 (m.timers.ticks + 1) ≡ m.timers.ticks + 1 = omega (arith, early) in
    elim (Bool-cases (cause_code == 3)) [
      | inl e ↦ rw e silent
      | inr e ↦ elim (Bool-cases (cause_code == 7)) [
        | inl f ↦ rw (e, f, one_more) (clock-Speaks (m.timers.ticks + 1) early)
        | inr f ↦ elim (Bool-cases (cause_code == 11)) [
          | inl g ↦ rw (e, f, g) (external-Speaks m.plic.claim known)
          | inr g ↦
              rw (e, f, g)
                (prints_then (say "unknown async exception!\n" [])
                  (bytes "unknown async exception!\n") refl (omega arith) (omega arith) silent)
        ]
      ]
    ]
