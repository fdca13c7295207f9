-- ===== src/Malloc/Fit.antt =====
-- What `_try_malloc` of os/page.c searches for in a block table.
use xin_os.Base.{
  ℕ, zero, suc, ◌+◌, ◌-◌, ◌*◌, ◌^◌, ◌≤◌, ◌<◌, ◌≡◌, refl, inl, inr, true, ◌&&◌, arith, ◌==◌,
  if◌then◌else◌, Bool-cases, Ptr, null, Memory,
}
use xin_os.Malloc.{
  is_block_free, blocks_free, find_blocks, take_block_run, block_rounds, block_total,
}

-- The `n` table entries from `b` on are free.
abbrev pub FreeBlocks : Memory → Ptr → ℕ → Type 0
FreeBlocks m b n = (j : ℕ) → j < n → is_block_free m (b + j) ≡ true

-- How many blocks of a candidate the search looks at: all but the last one.
abbrev pub checked : ℕ → ℕ
checked total = if total == 1 then 1 else total - 1

blocks_free-true : (k : ℕ) (m : Memory) (b : Ptr) → blocks_free k m b ≡ true → FreeBlocks m b k
unfolding blocks_free
blocks_free-true zero m b r j h = absurd (omega arith)
blocks_free-true (suc k) m b r j h = elim (Bool-cases (is_block_free m b)) [
  | inr t ↦ absurd (ground (arith, t))
  | inl t ↦ at j h t (blocks_free-true k m (b + 1) (rw (t, blocks_free) at r))
]
  where
    at :
        (j : ℕ)
        → j < suc k
        → is_block_free m b ≡ true
        → FreeBlocks m (b + 1) k
        → is_block_free m (b + j) ≡ true
    at zero h t f = let e : b + 0 ≡ b = omega arith in rw e t
    at (suc j) h t f = let e : b + suc j ≡ b + 1 + j = omega arith in rw e (f j (omega arith))

blocks_free-run : (k : ℕ) (m : Memory) (b : Ptr) → FreeBlocks m b k → blocks_free k m b ≡ true
unfolding blocks_free
blocks_free-run zero m b f = refl
blocks_free-run (suc k) m b f =
    let e : b + 0 ≡ b = omega arith in
    let g : is_block_free m b ≡ true = rw e at (f 0 (omega arith)) in
    rw (g, blocks_free)
      (blocks_free-run k m (b + 1)
        λ j h. let e : b + 1 + j ≡ b + suc j = omega arith in rw e (f (suc j) (omega arith)))

-- The test of the search, exactly.
pub block_test :
    (m : Memory) (b : Ptr) (total : ℕ)
    → 0 < total
    → ((is_block_free m b && blocks_free (total - 1) m b) ≡ true → FreeBlocks m b (checked total))
      × (FreeBlocks m b (checked total) → (is_block_free m b && blocks_free (total - 1) m b) ≡ true)
block_test m b total pos = (
  (λ t.
      let f = blocks_free-true (total - 1) m b (ground arith) in
      let g : is_block_free m b ≡ true = ground arith in
      λ j h. elim (Bool-cases (j == 0)) [
        | inl z ↦ let e : b + j ≡ b = ground arith in rw e g
        | inr nz ↦ f j (ground arith)
      ]),
  λ f.
      let e : b + 0 ≡ b = omega arith in
      let g : is_block_free m b ≡ true = rw e at (f 0 (ground arith)) in
      ground (arith, blocks_free-run (total - 1) m b (λ j h. f j (ground arith))),
)

-- The first candidate that passes, or none; `i` is the candidate where the search starts.
pub data Fit (m : Memory) (p start : Ptr) (total i k : ℕ) (r : Ptr × Memory) : Type 0 where
  missed :
      ((j : ℕ) → j < k → ¬ FreeBlocks m (start + (i + j)) (checked total))
      → r ≡ (null, m)
      → Fit m p start total i k r
  found :
      (j : ℕ)
      → j < k
      → FreeBlocks m (start + (i + j)) (checked total)
      → ((l : ℕ) → l < j → ¬ FreeBlocks m (start + (i + l)) (checked total))
      → r ≡ (p + (i + j) * 4, take_block_run m start (start + (i + j)) total)
      → Fit m p start total i k r

module _ (m : Memory) (p start : Ptr) (total : ℕ) where
  shift_none :
      (i k : ℕ)
      → ¬ FreeBlocks m (start + i) (checked total)
      → ((j : ℕ) → j < k → ¬ FreeBlocks m (start + (i + 1 + j)) (checked total))
      → (j : ℕ) → j < suc k
      → ¬ FreeBlocks m (start + (i + j)) (checked total)
  shift_none i k here later zero l = let e : i + 0 ≡ i = omega arith in rw e here
  shift_none i k here later (suc j) l =
      let e : i + suc j ≡ i + 1 + j = omega arith in rw e (later j (omega arith))

  shift-Fit :
      (i k : ℕ) (r : Ptr × Memory)
      → ¬ FreeBlocks m (start + i) (checked total)
      → Fit m p start total (i + 1) k r
      → Fit m p start total i (suc k) r
  shift-Fit i k r here (missed none e) = missed (shift_none i k here none) e
  shift-Fit i k r here (found j l run none e) =
      let s : i + suc j ≡ i + 1 + j = omega arith in
      found (suc j) (omega arith) (rw s run) (shift_none i j here none) (rw s e)

  pub find_blocks-Fit :
      (k i : ℕ) (block : Ptr)
      → 0 < total
      → block ≡ start + i
      → Fit m p start total i k (find_blocks k m p start total i block)
  unfolding find_blocks
  find_blocks-Fit zero i block pos e = missed (λ j l. absurd (omega arith)) refl
  find_blocks-Fit (suc k) i block pos e =
      let t = block_test m block total pos in
      let e' : block ≡ start + (i + 0) = omega arith in
      let z : i + 0 ≡ i = omega arith in
      elim (Bool-cases (is_block_free m block && blocks_free (total - 1) m block)) [
        | inl yep ↦
            rw (yep, find_blocks)
              (found 0 (omega arith) (rw e' at (t.0 yep)) (λ l x. absurd (omega arith)) (rw (z, e)))
        | inr nope ↦
            rw (nope, find_blocks)
              (shift-Fit i k _ (λ f. absurd (ground (arith, t.1 (rw e f))))
                (find_blocks-Fit k (i + 1) (block + 1) pos (omega arith)))
      ]

-- The rounds of the search, and the number of blocks of a small request.
pub block_rounds_lem : (total : ℕ) → total < 2 ^ 31 → block_rounds total ≡ 820 - total
unfolding block_rounds
block_rounds_lem total small = ground arith

pub block_total_lem :
    (size : ℕ)
    → 0 < size
    → size ≤ 3276
    → (0 < block_total size)
      × (block_total size ≤ 819)
      × (size ≤ 4 * block_total size)
      × (4 * block_total size < size + 4)
unfolding block_total
block_total_lem size pos small = ground arith
