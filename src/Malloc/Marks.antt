-- ===== src/Malloc/Marks.antt =====
-- The flags that `_try_malloc` of os/page.c leaves in a block table.
use xin_os.Base.{
  ℕ, zero, suc, ◌+◌, ◌-◌, ◌*◌, ◌/◌, ◌%◌, ◌≤◌, ◌<◌, ◌≡◌, ◌≢◌, refl, false, true, arith, ◌==◌,
  if◌then◌else◌, Ptr, Memory, update,
}
use xin_os.Page.Run.{in_run}
use xin_os.Malloc.{
  is_block_free, is_block_last, is_block_first, set_block_flags, low_block, block_taken,
  block_first, block_last, increase_block_usage_of_malloc, take_blocks, take_block_run,
}
use xin_os.Malloc.Take.{
  block_free_eq, block_last_eq, block_first_eq, take_one_eq, first_one_eq, last_one_eq,
  take_blocks_end,
}

-- From `m` to `m'` the `n` entries from `t` on become taken, the first of them marked as first and the last
-- one as last; the others of them keep these two flags, the three bits behind the flags stay, and no entry
-- outside changes one of these six bits, but the byte that holds the low part of the count.
pub record MarkedBlocks (m : Memory) (b t : Ptr) (n : ℕ) (m' : Memory) : Type 0 where
  pub taken : (j : ℕ) → j < n → is_block_free m' (t + j) ≡ false
  pub start : is_block_first m' t ≡ true
  pub end : is_block_last m' (t + n - 1) ≡ true
  pub inner_start : (j : ℕ) → 0 < j → j < n → is_block_first m' (t + j) ≡ is_block_first m (t + j)
  pub inner_end : (j : ℕ) → j + 1 < n → is_block_last m' (t + j) ≡ is_block_last m (t + j)
  pub spare : (a : Ptr) → a ≢ low_block b → m' a / 8 % 8 ≡ m a / 8 % 8
  pub others : (a : Ptr) → in_run t n a ≡ false → a ≢ low_block b → m' a % 64 ≡ m a % 64

increase_flags :
    (m : Memory) (b a : Ptr)
    → a ≢ low_block b
    → increase_block_usage_of_malloc m b a % 64 ≡ m a % 64
unfolding increase_block_usage_of_malloc update
increase_flags m b a other = ground arith

abbrev with_taken : ℕ → ℕ
with_taken f = f + 1 - f % 2

abbrev with_last : ℕ → ℕ
with_last f = f + 2 - 2 * (f / 2 % 2)

abbrev with_first : ℕ → ℕ
with_first f = f + 4 - 4 * (f / 4 % 2)

first_flags :
    (m : Memory) (t a : Ptr)
    → set_block_flags m t block_first a % 64 ≡ (if a == t then with_first (m a % 64) else m a % 64)
first_flags m t a = ground (arith, first_one_eq m t a)

last_flags :
    (m : Memory) (t a : Ptr)
    → set_block_flags m t block_last a % 64 ≡ (if a == t then with_last (m a % 64) else m a % 64)
last_flags m t a = ground (arith, last_one_eq m t a)

take_blocks_flags :
    (k : ℕ) (m : Memory) (b t a : Ptr)
    → a ≢ low_block b
    → (take_blocks k m b t).0 a % 64 ≡ (if in_run t k a then with_taken (m a % 64) else m a % 64)
unfolding take_blocks
take_blocks_flags zero m b t a other = ground arith
take_blocks_flags (suc k) m b t a other =
    let one = set_block_flags m t block_taken in
    ground (
      arith,
      take_blocks_flags k (increase_block_usage_of_malloc one b) b (t + 1) a other,
      increase_flags one b a other,
      take_one_eq m t a,
    )

module _ (m : Memory) (b t : Ptr) (n : ℕ) (pos : 0 < n) (room : t + n ≤ low_block b) where
  run_flags :
      (a : Ptr)
      → a ≢ low_block b
      → take_block_run m b t n a % 64 ≡ (
          let f = if a == t then with_first (m a % 64) else m a % 64 in
          let g = if in_run t n a then with_taken f else f in
          if a == t + n - 1 then with_last g else g)
  unfolding take_block_run
  run_flags a other =
      let first = set_block_flags m t block_first in
      let taken = (take_blocks n first b t).0 in
      rw
        (
          take_block_run,
          take_blocks_end n first b t,
          last_flags taken (t + n - 1) a,
          take_blocks_flags n first b t a other,
          first_flags m t a,
        )
        refl

  pub take_block_run-MarkedBlocks : MarkedBlocks m b t n (take_block_run m b t n)
  take_block_run-MarkedBlocks =
      let m' = take_block_run m b t n in
      record {
        taken = λ j l. ground (arith, block_free_eq m' (t + j), run_flags (t + j) (omega arith));
        start = ground (arith, block_first_eq m' t, run_flags t (omega arith));
        end = ground (arith, block_last_eq m' (t + n - 1), run_flags (t + n - 1) (omega arith));
        inner_start = λ j low l. ground (
          arith,
          block_first_eq m' (t + j),
          block_first_eq m (t + j),
          run_flags (t + j) (omega arith),
        );
        inner_end = λ j l. ground (
          arith,
          block_last_eq m' (t + j),
          block_last_eq m (t + j),
          run_flags (t + j) (omega arith),
        );
        spare = λ a other. ground (arith, run_flags a other);
        others = λ a out other. ground (arith, run_flags a other);
      }
