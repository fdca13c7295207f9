-- ===== src/Start/Bss.antt =====
-- The start of the first hart, and of the others.
use xin_os.Base.{
  ℕ, zero, suc, ◌+◌, ◌*◌, ◌^◌, ◌≤◌, ◌<◌, ◌≡◌, refl, ◌∙◌, bit_or-mask, ◌/◌, ◌%◌, true, some, arith,
  ltb, leb, ◌==◌, ◌⊎◌, inl, inr, Bool-cases, Memory, update,
}
use xin_os.Entry.{Build, store_bytes}
use xin_os.Entry.Bytes.{store_bytes_other}
use xin_os.Start.{
  Symbols, Reset, Booting, at_start_kernel, clear_bss, stack_bytes, stack_shift, set_up, start,
}

-- The bytes from `a` to `end` are 0, and those before `a` and from `end + 3` on are as before.
pub record Cleared (m : Memory) (a end : ℕ) (m' : Memory) : Type 0 where
  pub zeros : (c : ℕ) → a ≤ c → c < end → m' c ≡ 0
  pub others : (c : ℕ) → (c < a) ⊎ (end + 3 ≤ c) → m' c ≡ m c

store_zero : (m : Memory) (a c : ℕ) → a ≤ c → c < a + 4 → store_bytes 4 m a 0 c ≡ 0
unfolding store_bytes update
store_zero m a c low high = ground arith

clear_bss-Cleared :
    (k : ℕ) (m : Memory) (a end : ℕ)
    → a < end
    → end ≤ a + 4 * k
    → (m' : Memory) × (clear_bss k m a end ≡ some m') × Cleared m a end m'
unfolding clear_bss
clear_bss-Cleared zero m a end some_byte enough = absurd (omega arith)
clear_bss-Cleared (suc k) m a end some_byte enough = elim (Bool-cases (ltb (a + 4) end)) [
  | inl more ↦
      let (m', e, h) =
        clear_bss-Cleared k (store_bytes 4 m a 0) (a + 4) end (ground arith) (omega arith) in
      (
        m',
        rw (clear_bss, more) e,
        record {
          zeros = λ c low high. elim (Bool-cases (ltb c (a + 4))) [
            | inl first ↦ h.others c (inl (ground arith)) ∙ store_zero m a c low (ground arith)
            | inr later ↦ h.zeros c (ground arith) high
          ];
          others = λ c out.
              h.others c (ground (arith, out))
              ∙ store_bytes_other 4 m a 0 c (ground (arith, out, more));
        },
      )
  | inr last ↦ (
    store_bytes 4 m a 0,
    rw (clear_bss, last) refl,
    record {
      zeros = λ c low high. store_zero m a c low (ground arith);
      others = λ c out. store_bytes_other 4 m a 0 c (ground (arith, out));
    },
  )
]

-- The first hart at `start_kernel`: the section is cleared, the stack and the number of the hart are set,
-- and the old value of mstatus has no part in the new one.
pub record Ready (b : Build) (y : Symbols) (r : Reset) (s : Booting) : Type 0 where
  pub after : Reset
  pub result : s ≡ at_start_kernel after
  pub zeros : (c : ℕ) → y.bss_start ≤ c → c < y.bss_end → after.mem c ≡ 0
  pub others : (c : ℕ) → (c < y.bss_start) ⊎ (y.bss_end + 3 ≤ c) → after.mem c ≡ r.mem c
  pub sp : after.sp ≡ y.stacks + stack_bytes b
  pub tp : after.tp ≡ 0
  pub interrupts : after.mstatus / 2 ^ 7 % 2 ≡ 1
  pub mode : after.mstatus / 2 ^ 11 % 4 ≡ y.bss_end / 2 ^ 11 % 4
  pub memory_open : (after.pmpaddr0 ≡ 0xffff_ffff) × (after.pmpcfg0 ≡ 0xf)

no_shift :
    (b : Build) (y : Symbols) (r : Reset)
    → r.mhartid ≡ 0
    → y.stacks + stack_bytes b + r.mhartid * stack_shift b ≡ y.stacks + stack_bytes b
no_shift b y r first = rw first (grind arith)

set_up-Ready :
    (b : Build) (y : Symbols) (r : Reset) (m : Memory) (s : Booting)
    → r.mhartid ≡ 0
    → s ≡ at_start_kernel (set_up b true y r m)
    → ((c : ℕ) → y.bss_start ≤ c → c < y.bss_end → m c ≡ 0)
    → ((c : ℕ) → (c < y.bss_start) ⊎ (y.bss_end + 3 ≤ c) → m c ≡ r.mem c)
    → Ready b y r s
set_up-Ready b y r m s first e zeros others = record {
  after = set_up b true y r m;
  result = e;
  zeros = zeros;
  others = others;
  sp = no_shift b y r first;
  tp = first;
  interrupts = omega (arith, bit_or-mask 7 1 y.bss_end);
  mode = omega (arith, bit_or-mask 7 1 y.bss_end);
  memory_open = (refl, refl);
}

-- In the build with system calls, hart 0 comes to `start_kernel` from every reset, with fuel for each
-- four bytes of the section: its bytes are 0, and no others are changed but up to three behind it; the
-- stack pointer is at the end of the first stack and tp is 0; pmpaddr0 is 0xffffffff and pmpcfg0 0xf;
-- and of mstatus at this point bit 7 is set and bits 11 and 12 are those of the address where the
-- section ends.
pub start-Ready :
    (fuel : ℕ) (b : Build) (y : Symbols) (r : Reset)
    → r.mhartid ≡ 0
    → y.bss_end ≤ y.bss_start + 4 * fuel
    → Ready b y r (start fuel b true y r)
unfolding start
start-Ready fuel b y r first enough =
    let g : (r.mhartid == 0) ≡ true = ground (arith, first) in
    elim (Bool-cases (leb y.bss_end y.bss_start)) [
      | inl none_there ↦
          set_up-Ready b y r r.mem (start fuel b true y r) first (rw (start, g, none_there) refl)
            (λ c low high. absurd (ground (arith, none_there))) (λ c out. refl)
      | inr some_byte ↦
          let (m, e, h) =
            clear_bss-Cleared fuel r.mem y.bss_start y.bss_end (ground arith) enough in
          set_up-Ready b y r m (start fuel b true y r) first (rw (start, g, some_byte, e) refl)
            h.zeros h.others
    ]
