-- ===== src/Uart/Setup.antt =====
-- What `uart_init` of os/uart.c sets up.
use xin_os.Base.{
  ℕ, ◌≡◌, refl, ap, ◌∙◌, true, false, arith, ◌==◌, bit_and, bit_or, bit_and-mask, bit_or-mask, u8,
}
use xin_os.Uart.{Uart, is_line, write_thr, write_ier, read_ier, write_lcr, uart_init}

divisor_on : (a : ℕ) → (bit_and (u8 (bit_or a 128)) 128 == 0) ≡ false
divisor_on a = let b = u8 (bit_or a 128) in ground (arith, bit_and-mask 7 1 b, bit_or-mask 7 1 a)

-- The end of `uart_init`, behind the divisor, and the part from the divisor on.
abbrev formatted : Uart → Uart
formatted u4 = let u5 = write_lcr u4 3 in write_ier u5 (u8 (bit_or (read_ier u5) 1))

abbrev divided : Uart → Uart
divided u1 =
    let u2 = write_lcr u1 (u8 (bit_or u1.lcr 128)) in formatted (write_ier (write_thr u2 3) 0)

-- On a line that does not show the divisor, `uart_init` sets the divisor to 3, the format to 8 bits,
-- no parity and one stop bit with the divisor hidden again, enables only the interrupt for received
-- characters, and sends nothing.
pub uart_init_lem :
    (u : Uart) → is_line u ≡ true → uart_init u ≡ (record u { ier = 1; lcr = 3; dll = 3; dlm = 0 })
unfolding uart_init
uart_init_lem u line =
    let on = divisor_on u.lcr in
    let u1 : Uart = record u { ier = 0 } in
    let u2 : Uart = record u1 { lcr = u8 (bit_or u.lcr 128) } in
    let u3 : Uart = record u2 { dll = 3 } in
    let e1 : write_ier u 0 ≡ u1 = rw line refl in
    let e3 : write_thr u2 3 ≡ u3 = rw on refl in
    let e4 : write_ier u3 0 ≡ record u3 { dlm = 0 } = rw on refl in
    ap divided e1 ∙ ap (λ (v : Uart). formatted (write_ier v 0)) e3 ∙ ap formatted e4
