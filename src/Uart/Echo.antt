-- ===== src/Uart/Echo.antt =====
-- The input interrupt of os/uart.c answers every character that the line holds.
use mathlib.Core.List.{append_assoc, append-nil}
use xin_os.Base.{
  ℕ, zero, suc, ◌<◌, ◌≡◌, refl, sym, ap, ◌∙◌, true, false, some, List, [], ◌∷◌, ◌++◌, arith, ◌==◌,
  length, bit_and,
}
use xin_os.Uart.{Uart, lsr_rx_ready, is_line, uart_getc, echo, uart_ier}
use xin_os.Uart.Send.{Idles, uart_puts-Idles}

-- The answers to the characters, one after the other.
unfoldable pub echoes : List ℕ → List ℕ
echoes [] = []
echoes (c ∷ cs) = echo c ++ echoes cs

-- The readings of the status while the line holds the characters: each is announced, and the
-- transmitter takes its answer; then the line is empty.
pub data Serves : List ℕ → List ℕ → List ℕ → Type 0 where
  drained : {vs : List ℕ} → (v : ℕ) → (bit_and v lsr_rx_ready == 0) ≡ true → Serves (v ∷ vs) [] vs
  arrived :
      {vs us cs rest : List ℕ}
      → (v c : ℕ) → (bit_and v lsr_rx_ready == 0) ≡ false
      → Idles (length (echo c)) vs us
      → Serves us cs rest
      → Serves (v ∷ vs) (c ∷ cs) rest

Serves-ier :
    {vs cs rest : List ℕ} (k : ℕ) (u : Uart)
    → length cs < k
    → is_line u ≡ true
    → Serves vs cs rest
    → u.status ≡ vs
    → u.received ≡ cs
    → uart_ier k u ≡ some (record u { status = rest; received = []; sent = u.sent ++ echoes cs })
unfolding uart_ier uart_getc echoes
Serves-ier zero u enough line s ev ec = absurd (omega arith)
Serves-ier (suc k) u enough line (drained {vs} v e) ev ec =
    rw (uart_ier, uart_getc, ev, e)
      (ap (λ (l : List ℕ). some (record u { status = vs; received = l })) ec
        ∙ ap (λ (l : List ℕ). some (record u { status = vs; received = []; sent = l }))
            (sym (append-nil u.sent)))
Serves-ier (suc k) u enough line (arrived {vs} {us} {cs} {rest} v c e i s) ev ec =
    let u1 : Uart = record u { status = vs; received = cs } in
    let u2 : Uart = record u1 { status = us; sent = u.sent ++ echo c } in
    let p = uart_puts-Idles u1 (echo c) us line i in
    rw (uart_ier, uart_getc, ev, e, ec, p)
      (Serves-ier k u2 (omega arith) line s refl refl
        ∙ ap (λ (l : List ℕ). some (record u { status = rest; received = []; sent = l }))
            (append_assoc u.sent (echo c) (echoes cs)))

-- While the line holds `cs` and the transmitter takes each answer, the interrupt empties the line and
-- sends the answers to all characters in order; it ends within one round more than there are characters.
pub uart_ier-echoes :
    (k : ℕ) (u : Uart) (rest : List ℕ)
    → length u.received < k
    → is_line u ≡ true
    → Serves u.status u.received rest
    → uart_ier k u
      ≡ some (record u { status = rest; received = []; sent = u.sent ++ echoes u.received })
uart_ier-echoes k u rest enough line s = Serves-ier k u enough line s refl refl
