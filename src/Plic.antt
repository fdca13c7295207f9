-- ===== src/Plic.antt =====
-- os/plic.c: the registers of the interrupt controller for this hart, with the priority of the serial
-- line's source. The claim register reads the source with the greatest priority, 0 for none; what is
-- written to the completion register is kept, the last one first.
pub mod Setup
use xin_os.Base.{ℕ, ◌*◌, ◌^◌, bit_or, List, ◌∷◌}
use xin_os.Hart.{Hart, w_mie, w_mstatus, mie_meie, mstatus_mie}

pub record Plic : Type 0 where
  pub uart_priority : ℕ
  pub menable : ℕ
  pub mthreshold : ℕ
  pub claim : ℕ
  pub completed : List ℕ

abbrev pub uart0_irq : ℕ
uart0_irq = 10

unfoldable pub plic_init : Plic → Hart → Plic × Hart
unfolding w_mie w_mstatus
plic_init c h =
    let h1 = w_mie h (bit_or h.mie mie_meie) in
    (
      record c { uart_priority = 1; menable = bit_or c.menable (2 ^ uart0_irq); mthreshold = 0 },
      w_mstatus h1 (bit_or h1.mstatus mstatus_mie),
    )

abbrev pub plic_claim : Plic → ℕ
plic_claim c = c.claim

abbrev pub plic_complete : Plic → ℕ → Plic
plic_complete c irq = record c { completed = irq ∷ c.completed }
