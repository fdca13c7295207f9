-- ===== src/Malloc/Return.antt =====
-- Blocks of os/page.c that are taken and then released: the table is as it was.
use xin_os.Base.{
  ℕ, zero, suc, ◌+◌, ◌-◌, ◌*◌, ◌/◌, ◌%◌, ◌^◌, ◌≤◌, ◌<◌, ◌≡◌, ◌≢◌, refl, ap, ◌∙◌, inl, inr, true,
  false, some, arith, ◌==◌, if◌then◌else◌, Bool-cases, Ptr, Memory, update, update_lem, fun_ext,
}
use xin_os.Page.Run.{in_run}
use xin_os.Malloc.{
  is_block_free, is_block_last, set_block_flags, low_block, decrease_block_usage_of_malloc,
  take_blocks, take_block_run, block_taken, block_first, block_last, release_blocks,
}
use xin_os.Malloc.Take.{
  block_free_eq, block_last_eq, take_one_eq, first_one_eq, last_one_eq, take_blocks_end,
}
use xin_os.Malloc.Looks.{
  IsBytes, Looks, Looks-same, Looks-back, Looks-ext, Looks-count, Looks-write, Looks-increase,
  Looks-decrease,
}

-- The flags of the blocks of an allocation.
abbrev pub mark : Ptr → ℕ → Ptr → ℕ
mark t n a = 1 + (if a == t then 4 else 0) + (if a + 1 == t + n then 2 else 0)

module _ (m0 : Memory) (b : Ptr) where
  take_blocks-Looks :
      (k : ℕ) (m : Memory) (t : Ptr) (d : ℕ) (f : Ptr → ℕ)
      → t + k ≤ low_block b
      → Looks m0 b d f m
      → Looks m0 b
          (d + k)
          (λ a. if in_run t k a then f a + 1 - f a % 2 else f a)
          (take_blocks k m b t).0
  unfolding take_blocks
  take_blocks-Looks zero m t d f room k =
      Looks-count (d + 0) (omega arith) (Looks-ext m0 b d f _ m (λ a n. ground arith) k)
  take_blocks-Looks (suc j) m t d f room k =
      let m1 = set_block_flags m t block_taken in
      let v = (m t + 1 - m t % 2) % 256 in
      let ok = k.bytes t in
      let ft = k.flags t (omega arith) in
      let vf : v % 64 ≡ f t + 1 - f t % 2 = omega (arith, ok, ft) in
      let one =
        Looks-write m0 b d f m k t v m1 (omega arith) (omega arith) (omega (arith, ok))
          (take_one_eq m t) in
      let inc = Looks-increase m0 b d _ m1 one in
      let rest = take_blocks-Looks j _ (t + 1) (d + 1) _ (omega arith) inc in
      Looks-count (d + suc j) (omega arith) (
        Looks-ext m0 b (d + 1 + j) _ (λ a. if in_run t (suc j) a then f a + 1 - f a % 2 else f a) _
          (λ a n. elim (Bool-cases (a == t)) [
            | inl g ↦
                let same : a ≡ t = ground (arith, g) in
                let fa = ap f same in ground (arith, g, vf, fa)
            | inr g ↦ ground (arith, g)
          ])
          rest)

  -- The blocks handed out bear the marks of an allocation and are counted; nothing else changes.
  pub take_block_run-Looks :
      (m : Memory) (t n d : ℕ) (f : Ptr → ℕ)
      → 0 < n
      → t + n ≤ low_block b
      → ((a : Ptr) → in_run t n a ≡ true → f a ≡ 0)
      → Looks m0 b d f m
      → Looks m0 b (d + n) (λ a. if in_run t n a then mark t n a else f a) (take_block_run m b t n)
  unfolding take_block_run
  take_block_run-Looks m t n d f pos room clean k =
      let m1 = set_block_flags m t block_first in
      let v1 = (m t + 4 - 4 * (m t / 4 % 2)) % 256 in
      let ok = k.bytes t in
      let ft = k.flags t (omega arith) in
      let f0 = clean t (ground arith) in
      let first =
        Looks-write m0 b d f m k t v1 m1 (omega arith) (omega arith) (omega (arith, ok))
          (first_one_eq m t) in
      let m2 = (take_blocks n m1 b t).0 in
      let mid = take_blocks-Looks n m1 t d _ room first in
      let e = t + n - 1 in
      let v2 = (m2 e + 2 - 2 * (m2 e / 2 % 2)) % 256 in
      let ok2 = mid.bytes e in
      let fin =
        Looks-write m0 b (d + n) _ m2 mid e v2 (set_block_flags m2 e block_last) (omega arith)
          (omega arith) (omega (arith, ok2)) (last_one_eq m2 e) in
      let end : (take_blocks n m1 b t).1 ≡ t + n = take_blocks_end n m1 b t in
      let x1 : v1 % 64 ≡ 4 = omega (arith, ok, ft, f0) in
      let me = mid.flags e (omega arith) in
      let x2 : v2 % 64 ≡ (if e == t then 7 else 3) = ground (arith, me, x1, clean e, ok2) in
      let marks : (a : Ptr)
          → a ≢ low_block b
          → (if a == e
              then v2 % 64
              else if in_run t n a
              then (if a == t then v1 % 64 else f a) + 1 - (if a == t then v1 % 64 else f a) % 2
              else (if a == t then v1 % 64 else f a))
            ≡ (if in_run t n a then mark t n a else f a) =
        λ a out. ground (arith, x1, x2, clean a) in
      rw end (Looks-ext m0 b (d + n) _ (λ a. if in_run t n a then mark t n a else f a) _ marks fin)

  -- One round of the loop of `free`.
  release_one :
      (m : Memory) (t d : ℕ) (f : Ptr → ℕ)
      → t < low_block b
      → Looks m0 b (d + 1) f m
      → Looks m0 b d
          (λ a. if a == t then 0 else f a)
          (decrease_block_usage_of_malloc (update m t (m t / 2 ^ 6 * 2 ^ 6)) b)
  release_one m t d f room k =
      let v = m t / 2 ^ 6 * 2 ^ 6 in
      let ok = k.bytes t in
      let m1 = update m t v in
      let one =
        Looks-write m0 b (d + 1) f m k t v m1 (omega arith) (omega (arith, ok)) (omega arith)
          (update_lem m t v) in
      let z : v % 64 ≡ 0 = omega arith in
      Looks-ext m0 b d _ (λ a. if a == t then 0 else f a) _ (λ a out. ground (arith, z))
        (Looks-decrease m0 b (d + 1) _ m1 one d refl)

  -- The loop stops behind the last block of the allocation, with its flags cleared and uncounted.
  pub release-Looks :
      (n fuel : ℕ) (m : Memory) (t d : ℕ) (f : Ptr → ℕ)
      → 0 < n
      → n ≤ fuel
      → t + n ≤ low_block b
      → ((a : Ptr)
          → in_run t n a ≡ true
          → (f a % 2 ≡ 1) × (f a / 2 % 2 ≡ (if a + 1 == t + n then 1 else 0)))
      → Looks m0 b (d + n) f m
      → (m' : Memory) × (release_blocks fuel m b t ≡ some m')
        × Looks m0 b d (λ a. if in_run t n a then 0 else f a) m'
  unfolding release_blocks
  release-Looks zero fuel m t d f pos enough room marked k = absurd (omega arith)
  release-Looks (suc j) zero m t d f pos enough room marked k = absurd (omega arith)
  release-Looks (suc zero) (suc fuel) m t d f pos enough room marked k =
      let ok = k.bytes t in
      let ft = k.flags t (omega arith) in
      let (odd, end) = marked t (ground arith) in
      let taken : is_block_free m t ≡ false = ground (arith, block_free_eq m t, ft, odd) in
      let last : is_block_last m t ≡ true = ground (arith, block_last_eq m t, ft, end) in
      (
        _,
        rw (release_blocks, taken, last) refl,
        Looks-ext m0 b d _ (λ a. if in_run t 1 a then 0 else f a) _ (λ a out. ground arith)
            (release_one m t d f (omega arith) k),
      )
  release-Looks (suc (suc j)) (suc fuel) m t d f pos enough room marked k =
      let ok = k.bytes t in
      let ft = k.flags t (omega arith) in
      let (odd, end) = marked t (ground arith) in
      let taken : is_block_free m t ≡ false = ground (arith, block_free_eq m t, ft, odd) in
      let more : is_block_last m t ≡ false = ground (arith, block_last_eq m t, ft, end) in
      let k' =
        release_one m t (d + suc j) f (omega arith) (Looks-count (d + suc j + 1) (omega arith) k) in
      let (m', e, r) =
        release-Looks (suc j) fuel _ (t + 1) d (λ a. if a == t then 0 else f a) (omega arith)
          (omega arith) (omega arith) (λ a i. ground (arith, i, marked a)) k' in
      (
        m',
        rw (release_blocks, taken, more) e,
        Looks-ext m0 b d _ (λ a. if in_run t (suc (suc j)) a then 0 else f a) _
            (λ a out. ground arith) r,
      )

-- Taking a run of clean blocks and then releasing it gives every byte back.
pub release-take :
    (fuel : ℕ) (m : Memory) (b t : Ptr) (n : ℕ)
    → 0 < n
    → n ≤ fuel
    → t + n ≤ low_block b
    → IsBytes m
    → ((a : Ptr) → in_run t n a ≡ true → m a % 64 ≡ 0)
    → release_blocks fuel (take_block_run m b t n) b t ≡ some m
release-take fuel m b t n pos enough room ok clean =
    let taken = take_block_run-Looks m b m t n 0 _ pos room clean (Looks-same m b ok) in
    let marks : (a : Ptr)
        → in_run t n a ≡ true
        → (mark t n a % 2 ≡ 1) × (mark t n a / 2 % 2 ≡ (if a + 1 == t + n then 1 else 0)) =
      λ a i. ground (arith, i) in
    let (m', e, r) =
      release-Looks m b n fuel _ t 0 _ pos enough room (λ a i. rw i (marks a i)) taken in
    let back =
      Looks-back m b m' ok
        (Looks-ext m b 0 _ (λ a. m a % 64) m' (λ a out. ground (arith, clean a)) r) in
    e ∙ ap some (fun_ext back)
