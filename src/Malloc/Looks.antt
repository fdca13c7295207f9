-- ===== src/Malloc/Looks.antt =====
-- A block table of os/page.c seen from a memory of before: how many blocks more are counted, and what
-- the six flag bits of each byte are. Taking blocks and releasing them are steps on this view.
use xin_os.Base.{
  ℕ, ◌+◌, ◌/◌, ◌%◌, ◌<◌, ◌≡◌, ◌≢◌, refl, ap, sym, ◌∙◌, inl, inr, arith, ◌==◌, if◌then◌else◌,
  Bool-cases, Ptr, Memory,
}
use xin_os.Malloc.{
  low_block, high_block, increase_block_usage_of_malloc, decrease_block_usage_of_malloc,
  get_memory_usage_of_malloc,
}
use xin_os.Malloc.Usage.{CountBytes, increase_lem, decrease_lem}

abbrev pub IsBytes : Memory → Type 0
IsBytes m = (a : Ptr) → m a < 256

-- The memory `m` has `d` blocks more than `m0` in the table at `b`, and the flags `f`.
pub record Looks (m0 : Memory) (b : Ptr) (d : ℕ) (f : Ptr → ℕ) (m : Memory) : Type 0 where
  pub bytes : IsBytes m
  pub count : get_memory_usage_of_malloc m b ≡ (get_memory_usage_of_malloc m0 b + d) % 1024
  pub flags : (a : Ptr) → a ≢ low_block b → m a % 64 ≡ f a
  pub upper : (a : Ptr) → a ≢ low_block b → a ≢ high_block b → m a / 64 ≡ m0 a / 64

pub Looks-same : (m0 : Memory) (b : Ptr) → IsBytes m0 → Looks m0 b 0 (λ a. m0 a % 64) m0
unfolding get_memory_usage_of_malloc
Looks-same m0 b ok = record {
  bytes = ok;
  count = omega (arith, ok (low_block b), ok (high_block b));
  flags = λ a n. refl;
  upper = λ a n n'. refl;
}

-- The same count and flags are the same memory.
pub Looks-back :
    (m0 : Memory) (b : Ptr) (m : Memory)
    → IsBytes m0
    → Looks m0 b 0 (λ a. m0 a % 64) m
    → (a : Ptr) → m a ≡ m0 a
unfolding get_memory_usage_of_malloc
Looks-back m0 b m ok k a =
    let l0 = ok (low_block b) in
    let h0 = ok (high_block b) in
    let l1 = k.bytes (low_block b) in
    let h1 = k.bytes (high_block b) in
    let c = k.count in
    let f = k.flags (high_block b) (omega arith) in
    elim (Bool-cases (a == low_block b)) [
      | inl e ↦
          let same : a ≡ low_block b = ground (arith, e) in
          ap m same ∙ omega (arith, l0, h0, l1, h1, c) ∙ ap m0 (sym same)
      | inr e ↦ elim (Bool-cases (a == high_block b)) [
        | inl e' ↦
            let same : a ≡ high_block b = ground (arith, e') in
            ap m same ∙ omega (arith, l0, h0, l1, h1, c, f) ∙ ap m0 (sym same)
        | inr e' ↦ ground (arith, e, e', k.flags a, k.upper a)
      ]
    ]

pub Looks-ext :
    (m0 : Memory) (b : Ptr) (d : ℕ) (f g : Ptr → ℕ) (m : Memory)
    → ((a : Ptr) → a ≢ low_block b → f a ≡ g a)
    → Looks m0 b d f m
    → Looks m0 b d g m
Looks-ext m0 b d f g m e k = record {
  bytes = k.bytes;
  count = k.count;
  flags = λ a n. k.flags a n ∙ e a n;
  upper = k.upper;
}

pub Looks-count :
    {m0 : Memory} {b : Ptr} {d : ℕ} {f : Ptr → ℕ} {m : Memory} (e : ℕ)
    → d ≡ e
    → Looks m0 b d f m
    → Looks m0 b e f m
Looks-count e same k = record {
  bytes = k.bytes;
  count = omega (arith, k.count, same);
  flags = k.flags;
  upper = k.upper;
}

module _ (m0 : Memory) (b : Ptr) (d : ℕ) (f : Ptr → ℕ) (m : Memory) (k : Looks m0 b d f m) where
  looks-CountBytes : CountBytes m b
  looks-CountBytes = record { low = k.bytes (low_block b); high = k.bytes (high_block b) }

  -- A step that writes the count alone.
  counted :
      (e : ℕ) (m' : Memory)
      → get_memory_usage_of_malloc m' b ≡ (get_memory_usage_of_malloc m0 b + e) % 1024
      → m' (high_block b) % 64 ≡ m (high_block b) % 64
      → ((a : Ptr) → a ≢ low_block b → a ≢ high_block b → m' a ≡ m a)
      → CountBytes m' b
      → Looks m0 b e f m'
  counted e m' c high same ok = record {
    bytes = λ a. elim (Bool-cases (a == low_block b)) [
      | inl g ↦ ground (arith, g, ok.low)
      | inr g ↦ elim (Bool-cases (a == high_block b)) [
        | inl h ↦ ground (arith, h, ok.high)
        | inr h ↦ ground (arith, g, h, same a, k.bytes a)
      ]
    ];
    count = c;
    flags = λ a n. elim (Bool-cases (a == high_block b)) [
      | inl h ↦
          let e : a ≡ high_block b = ground (arith, h) in
          ap (λ (x : Ptr). m' x % 64) e ∙ high ∙ ap (λ (x : Ptr). m x % 64) (sym e) ∙ k.flags a n
      | inr h ↦ ground (arith, h, n, same a, k.flags a)
    ];
    upper = λ a n n'. ap (λ (v : ℕ). v / 64) (same a n n') ∙ k.upper a n n';
  }

  pub Looks-increase : Looks m0 b (d + 1) f (increase_block_usage_of_malloc m b)
  Looks-increase =
      let i = increase_lem m b looks-CountBytes in
      counted (d + 1) _ (omega (arith, i.0, k.count)) i.1 i.2 i.3

  pub Looks-decrease : (e : ℕ) → d ≡ e + 1 → Looks m0 b e f (decrease_block_usage_of_malloc m b)
  Looks-decrease e one =
      let i = decrease_lem m b looks-CountBytes in
      counted e _ (omega (arith, i.0, k.count, one)) i.1 i.2 i.3

  -- A step that writes the flags of one block.
  pub Looks-write :
      (p v : ℕ) (m' : Memory)
      → p ≢ low_block b
      → v < 256
      → v / 64 ≡ m p / 64
      → ((a : Ptr) → m' a ≡ (if a == p then v else m a))
      → Looks m0 b d (λ a. if a == p then v % 64 else f a) m'
  unfolding get_memory_usage_of_malloc
  Looks-write p v m' out small up e = record {
    bytes = λ a. ground (arith, e a, k.bytes a);
    count =
        let l : m' (low_block b) ≡ m (low_block b) = ground (arith, e (low_block b), out) in
        let h : m' (high_block b) / 64 ≡ m (high_block b) / 64 =
          ground (arith, e (high_block b), up) in
        omega (arith, l, h, k.count);
    flags = λ a n. elim (Bool-cases (a == p)) [
      | inl g ↦ rw g (ground (arith, g, e a))
      | inr g ↦ rw g (ground (arith, g, n, e a, k.flags a))
    ];
    upper = λ a n n'. elim (Bool-cases (a == p)) [
      | inl g ↦ let same : a ≡ p = ground (arith, g) in ground (arith, g, n, n', e a, up, k.upper a)
      | inr g ↦ ground (arith, g, n, n', e a, k.upper a)
    ];
  }
