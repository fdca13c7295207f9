-- ===== src/Lock/Interrupts.antt =====
-- `basic_lock` and `basic_unlock` of os/lock.c switch the interrupts of the hart off and on.
use xin_os.Base.{
  ℕ, ◌+◌, ◌-◌, ◌*◌, ◌/◌, ◌%◌, ◌^◌, ◌<◌, ◌≡◌, ap, arith, bit_and, bit_and-not_eight, bit_or-eight,
}
use xin_os.Hart.{Hart, mstatus_mie}
use xin_os.Lock.{basic_lock, basic_unlock}

-- `basic_lock` clears the MIE bit and no other bit of mstatus; `basic_unlock` after it gives back an
-- mstatus in which the bit was set.
pub basic_unlock-basic_lock :
    (h : Hart)
    → h.mstatus < 2 ^ 64
    → ((basic_lock h).mstatus ≡ h.mstatus - 8 * (h.mstatus / 8 % 2))
      × (h.mstatus / 8 % 2 ≡ 1 → basic_unlock (basic_lock h) ≡ h)
unfolding basic_lock basic_unlock
basic_unlock-basic_lock h fits =
    let e : bit_and h.mstatus (2 ^ 64 - 1 - mstatus_mie)
        ≡ h.mstatus / 16 % 2 ^ 60 * 16 + h.mstatus % 8 =
      bit_and-not_eight 60 h.mstatus in
    let cleared = bit_and h.mstatus (2 ^ 64 - 1 - mstatus_mie) in
    (
      omega (arith, e),
      λ on. ap (λ (v : ℕ). record h { mstatus = v }) (omega (arith, e, bit_or-eight cleared)),
    )
