-- ===== src/Trap/Input.antt =====
-- An interrupt of the serial line, from os/trap.c to the answers of os/uart.c.
use xin_os.Base.{ℕ, List, [], ◌++◌}
use xin_os.Plic.{uart0_irq}
use xin_os.Uart.Echo.{echoes}
use xin_os.Trap.{Machine, complete}

-- The line is empty, the answers are sent, and the interrupt is completed.
abbrev pub answered : Machine → List ℕ → Machine
answered m rest =
    let u = m.uart in
    complete
      (record m {
        uart = record u { status = rest; received = []; sent = u.sent ++ echoes u.received };
      })
      uart0_irq
