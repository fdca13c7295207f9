-- ===== src/Trap/Spoken.antt =====
-- What the serial line is sent during a trap of os/trap.c.
use mathlib.Core.List.{append-nil, append_assoc}
use xin_os.Base.{
  ℕ, ◌<◌, ◌≡◌, refl, ap, sym, ◌∙◌, subst, true, false, some, List, [], ◌∷◌, ◌++◌, length,
}
use xin_os.Uart.{Uart, is_line}
use xin_os.Uart.Send.{Idles, Idles-none, Idles-append, uart_puts-Idles}
use xin_os.Printf.{Shown, shown, stopped}
use xin_os.Printf.Text.{render}
use xin_os.Printf.Line.{NoZero, NoPercent, printf-sends, panic_text, panic-sends}
use xin_os.Kernel.{Message}
use xin_os.Trap.Messages.{Output, prints, puts, panics, show, show_all}

-- A text, and whether the kernel goes on behind it.
pub data Spoken : Type 0 where
  goes_on : List ℕ → Spoken
  dies : List ℕ → Spoken

abbrev pub text_of : Spoken → List ℕ
text_of (goes_on xs) = xs
text_of (dies xs) = xs

abbrev pub behind : List ℕ → Spoken → Spoken
behind xs (goes_on ys) = goes_on (xs ++ ys)
behind xs (dies ys) = dies (xs ++ ys)

-- The line when the text is sent.
abbrev pub sent_on : Uart → (rest xs : List ℕ) → Uart
sent_on u rest xs = record u { status = rest; sent = u.sent ++ xs }

-- The outputs stand for texts that are short enough for the buffer and have no 0.
pub data Speaks : List Output → Spoken → Type 0 where
  silent : Speaks [] (goes_on [])
  prints_then :
      {os : List Output} {s : Spoken}
      → (m : Message) (xs : List ℕ) → render m.0 false false m.1 ≡ some xs
      → length xs < 1023
      → NoZero xs
      → Speaks os s
      → Speaks (prints m ∷ os) (behind xs s)
  puts_then :
      {os : List Output} {s : Spoken}
      → (xs : List ℕ) → Speaks os s
      → Speaks (puts xs ∷ os) (behind xs s)
  panics_last :
      (xs : List ℕ)
      → NoPercent xs
      → NoZero xs
      → length xs < 1023
      → Speaks (panics xs ∷ []) (dies (panic_text xs))

abbrev pub Shows : Uart → List ℕ → Spoken → Shown → Type 0
Shows u rest (goes_on xs) r = (res : ℕ) × (buf : ℕ → ℕ) × (r ≡ shown res buf (sent_on u rest xs))
Shows u rest (dies xs) r = r ≡ stopped (sent_on u rest xs)

text_of-behind : (xs : List ℕ) (s : Spoken) → text_of (behind xs s) ≡ xs ++ text_of s
text_of-behind xs (goes_on ys) = refl
text_of-behind xs (dies ys) = refl

Shows-behind :
    (u : Uart) (mid rest xs : List ℕ) (s : Spoken) (r : Shown)
    → Shows (sent_on u mid xs) rest s r
    → Shows u rest (behind xs s) r
Shows-behind u mid rest xs (goes_on ys) r (res, buf, e) = (
  res,
  buf,
  e ∙ ap (λ l. shown res buf (record u { status = rest; sent = l })) (append_assoc u.sent xs ys),
)
Shows-behind u mid rest xs (dies ys) r e =
    e
    ∙ ap (λ (l : List ℕ). stopped (record u { status = rest; sent = l }))
        (append_assoc u.sent xs ys)

split_idles :
    (xs : List ℕ) (s : Spoken) {vs rest : List ℕ}
    → Idles (length (text_of (behind xs s))) vs rest
    → (us : List ℕ) × Idles (length xs) vs us × Idles (length (text_of s)) us rest
split_idles xs s {vs} {rest} i =
    Idles-append xs (text_of s) (subst (λ l. Idles (length l) vs rest) (text_of-behind xs s) i)

pub show_all-Shows :
    (u : Uart) (b : ℕ → ℕ) (os : List Output) (s : Spoken) (rest : List ℕ)
    → Speaks os s
    → is_line u ≡ true
    → Idles (length (text_of s)) u.status rest
    → Shows u rest s (show_all u b os)
unfolding show_all show
show_all-Shows u b [] _ rest silent line i = (
  0,
  b,
  ap (λ (l : List ℕ). shown 0 b (record u { status = l })) (Idles-none i)
      ∙ ap (λ (l : List ℕ). shown 0 b (record u { status = rest; sent = l }))
          (sym (append-nil u.sent)),
)
show_all-Shows u b (prints _ ∷ os) _ rest (prints_then {s} m xs e short nz more) line i =
    let (mid, i1, i2) = split_idles xs s i in
    let p = printf-sends u b m.0 m.1 xs mid e short nz line i1 in
    Shows-behind u mid rest xs s (show_all u b (prints m ∷ os))
      (rw (show_all, show, p.1) (show_all-Shows (sent_on u mid xs) p.0 os s rest more line i2))
show_all-Shows u b (puts _ ∷ os) _ rest (puts_then {s} xs more) line i =
    let (mid, i1, i2) = split_idles xs s i in
    let e = uart_puts-Idles u xs mid line i1 in
    Shows-behind u mid rest xs s (show_all u b (puts xs ∷ os))
      (rw (show_all, show, e) (show_all-Shows (sent_on u mid xs) b os s rest more line i2))
show_all-Shows u b (panics _ ∷ _) _ rest (panics_last xs plain nz short) line i =
    rw (show_all, show, panic-sends u b xs rest plain nz short line i) refl
