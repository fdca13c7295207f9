-- ===== src/Uart.antt =====
-- os/uart.c: the serial line. The registers are a record: what the line status register and the
-- receive register will read is given, one value for each read, and the bytes written to the transmit
-- register are kept in order. Bit 7 of the line control register turns the registers 0 and 1 into the
-- divisor. A C string is the list of its bytes.
pub mod Send
pub mod Echo
pub mod Setup
use xin_os.Base.{
  ℕ, zero, suc, ◌+◌, ◌%◌, ◌^◌, bit_and, bit_or, Bool, true, false, ◌||◌, Option, none, some, List,
  [], ◌∷◌, ◌++◌, ◌==◌, if◌then◌else◌, u8,
}

pub record Uart : Type 0 where
  pub ier : ℕ
  pub lcr : ℕ
  pub dll : ℕ
  pub dlm : ℕ
  pub status : List ℕ
  pub received : List ℕ
  pub sent : List ℕ

abbrev pub lsr_tx_idle : ℕ
lsr_tx_idle = 32

abbrev pub lsr_rx_ready : ℕ
lsr_rx_ready = 1

-- Whether the registers 0 and 1 are the transmit and the interrupt register.
abbrev pub is_line : Uart → Bool
is_line u = bit_and u.lcr 128 == 0

-- Writes to the registers 0, 1 and 3.
abbrev pub write_thr : Uart → ℕ → Uart
write_thr u v = if is_line u then record u { sent = u.sent ++ (v ∷ []) } else record u { dll = v }

abbrev pub write_ier : Uart → ℕ → Uart
write_ier u v = if is_line u then record u { ier = v } else record u { dlm = v }

abbrev pub read_ier : Uart → ℕ
read_ier u = if is_line u then u.ier else u.dlm

abbrev pub write_lcr : Uart → ℕ → Uart
write_lcr u v = record u { lcr = v }

unfoldable pub uart_init : Uart → Uart
uart_init u =
    let u1 = write_ier u 0 in
    let u2 = write_lcr u1 (u8 (bit_or u1.lcr 128)) in
    let u3 = write_thr u2 3 in
    let u4 = write_ier u3 0 in let u5 = write_lcr u4 3 in write_ier u5 (u8 (bit_or (read_ier u5) 1))

-- The loop of `uart_putc`: the readings left when the transmitter is idle.
pub wait_idle : List ℕ → Option (List ℕ)
wait_idle [] = none
wait_idle (v ∷ vs) = elim (bit_and v lsr_tx_idle == 0) [ true ↦ wait_idle vs | false ↦ some vs ]

unfoldable pub uart_putc : Uart → ℕ → Option Uart
unfolding wait_idle
uart_putc u c = elim (wait_idle u.status) [
  | none ↦ none
  | some vs ↦ some (write_thr (record u { status = vs }) c)
]

pub uart_puts : Uart → List ℕ → Option Uart
unfolding uart_putc
uart_puts u [] = some u
uart_puts u (c ∷ cs) = elim (uart_putc u c) [ none ↦ none | some u' ↦ uart_puts u' cs ]

-- A character, or that there is none; no result when a reading is missing.
pub data Got : Type 0 where
  got : ℕ → Uart → Got
  empty : Uart → Got
  no_reading : Got

abbrev pub got_char : List ℕ → Uart → Got
got_char [] u = no_reading
got_char (c ∷ cs) u = got c (record u { received = cs })

abbrev pub read_status : List ℕ → Uart → Got
read_status [] u = no_reading
read_status (v ∷ vs) u =
    if bit_and v lsr_rx_ready == 0
    then empty (record u { status = vs })
    else got_char u.received (record u { status = vs })

unfoldable pub uart_getc : Uart → Got
uart_getc u = read_status u.status u

-- What is sent back for a character.
abbrev pub echo : ℕ → List ℕ
echo c =
    if c == 13 || c == 10
    then 13 ∷ 10 ∷ []
    else if c == 127 || c == 8
    then 8 ∷ 32 ∷ 8 ∷ []
    else c ∷ []

unfoldable pub uart_ier : ℕ → Uart → Option Uart
unfolding uart_getc uart_puts
uart_ier zero u = none
uart_ier (suc k) u = elim (uart_getc u) [
  | no_reading ↦ none
  | empty u' ↦ some u'
  | got c u' ↦ elim (uart_puts u' (echo c)) [ none ↦ none | some u'' ↦ uart_ier k u'' ]
]

-- The inner loop of `uart_gets`, and its outer one, which ends at the escape character.
pub wait_ready : List ℕ → Option (List ℕ)
wait_ready [] = none
wait_ready (v ∷ vs) = elim (bit_and v lsr_rx_ready == 0) [ true ↦ wait_ready vs | false ↦ some vs ]

abbrev pub next_char : Option (List ℕ) → Uart → Got
next_char none u = no_reading
next_char (some vs) u = got_char u.received (record u { status = vs })

-- "Goodbye\n"
abbrev pub goodbye : List ℕ
goodbye = b'G' ∷ b'o' ∷ b'o' ∷ b'd' ∷ b'b' ∷ b'y' ∷ b'e' ∷ 10 ∷ []

pub uart_gets : ℕ → Uart → Option Uart
unfolding wait_ready uart_puts
uart_gets zero u = none
uart_gets (suc k) u = elim (next_char (wait_ready u.status) u) [
  | no_reading ↦ none
  | empty u' ↦ none
  | got c u' ↦ elim (c == 27) [
    | true ↦ uart_puts u' goodbye
    | false ↦ elim (uart_puts u' (echo c)) [ none ↦ none | some u'' ↦ uart_gets k u'' ]
  ]
]
