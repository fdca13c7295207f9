-- ===== src/Uart/Send.antt =====
-- `uart_puts` of os/uart.c sends a string in order, once the transmitter is idle often enough.
use mathlib.Core.List.{append_assoc, append-nil}
use xin_os.Base.{
  ℕ, zero, suc, ◌≡◌, refl, sym, ap, ◌∙◌, true, false, some, List, [], ◌∷◌, ◌++◌, arith, ◌==◌,
  length, bit_and,
}
use xin_os.Uart.{Uart, lsr_tx_idle, is_line, wait_idle, uart_putc, uart_puts}

-- The first readings of the status tell `n` times that the transmitter is idle, the last time just
-- before the rest.
pub data Idles : ℕ → List ℕ → List ℕ → Type 0 where
  ended : (vs : List ℕ) → Idles zero vs vs
  busy :
      {n : ℕ} {vs rest : List ℕ}
      → (v : ℕ) → (bit_and v lsr_tx_idle == 0) ≡ true
      → Idles (suc n) vs rest
      → Idles (suc n) (v ∷ vs) rest
  idle :
      {n : ℕ} {vs rest : List ℕ}
      → (v : ℕ) → (bit_and v lsr_tx_idle == 0) ≡ false
      → Idles n vs rest
      → Idles (suc n) (v ∷ vs) rest

-- The wait for one character.
wait_idle-Idles :
    {n : ℕ} {vs rest : List ℕ}
    → Idles (suc n) vs rest
    → (us : List ℕ) × (wait_idle vs ≡ some us) × Idles n us rest
unfolding wait_idle
wait_idle-Idles (busy v e i) = let (us, r, j) = wait_idle-Idles i in (us, rw (wait_idle, e) r, j)
wait_idle-Idles (idle v e i) = (_, rw (wait_idle, e) refl, i)

pub Idles-none : {vs rest : List ℕ} → Idles zero vs rest → vs ≡ rest
Idles-none (ended vs) = refl

-- With enough idle readings every character is sent, in order, and nothing else changes.
pub uart_puts-Idles :
    (u : Uart) (cs rest : List ℕ)
    → is_line u ≡ true
    → Idles (length cs) u.status rest
    → uart_puts u cs ≡ some (record u { status = rest; sent = u.sent ++ cs })
unfolding uart_puts uart_putc
uart_puts-Idles u [] rest line i =
    ap (λ (l : List ℕ). some (record u { status = l })) (Idles-none i)
    ∙ ap (λ (l : List ℕ). some (record u { status = rest; sent = l })) (sym (append-nil u.sent))
uart_puts-Idles u (c ∷ cs) rest line i =
    let (us, e, j) = wait_idle-Idles i in
    let u' : Uart = record u { status = us; sent = u.sent ++ (c ∷ []) } in
    rw (uart_puts, uart_putc, e, line)
      (uart_puts-Idles u' cs rest line j
        ∙ ap (λ (l : List ℕ). some (record u { status = rest; sent = l }))
            (append_assoc u.sent (c ∷ []) cs))

Idles-first :
    {n : ℕ} {vs rest : List ℕ}
    → Idles (suc n) vs rest
    → (us : List ℕ) × Idles 1 vs us × Idles n us rest
Idles-first (busy v e i) = let (us, j, k) = Idles-first i in (us, busy v e j, k)
Idles-first (idle {n} {vs} v e i) = (vs, idle v e (ended vs), i)

Idles-join :
    {m n : ℕ} {vs us rest : List ℕ}
    → Idles m vs us
    → m ≡ 1
    → Idles n us rest
    → Idles (suc n) vs rest
Idles-join (ended vs) e j = absurd (omega (arith, e))
Idles-join (busy v b i) e j = busy v b (Idles-join i e j)
Idles-join (idle v b (ended vs)) e j = idle v b j
Idles-join (idle v b (busy w c i)) e j = absurd (omega (arith, e))
Idles-join (idle v b (idle w c i)) e j = absurd (omega (arith, e))

-- The readings for two strings, one after the other.
pub Idles-append :
    (xs ys : List ℕ) {vs rest : List ℕ}
    → Idles (length (xs ++ ys)) vs rest
    → (us : List ℕ) × Idles (length xs) vs us × Idles (length ys) us rest
Idles-append [] ys {vs} i = (vs, ended vs, i)
Idles-append (x ∷ xs) ys i =
    let (us, j, k) = Idles-first i in
    let (ws, j', k') = Idles-append xs ys k in (ws, Idles-join j refl j', k')
