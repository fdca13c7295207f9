-- ===== src/Malloc/Init.antt =====
-- `_malloc_init` of os/page.c, and the block table when one allocation has been made behind it.
use xin_os.Base.{
  ℕ, zero, suc, ◌+◌, ◌-◌, ◌/◌, ◌%◌, ◌≤◌, ◌<◌, ◌≡◌, inl, inr, arith, ltb, ◌==◌, if◌then◌else◌,
  Bool-cases, Ptr, Memory, update, update_lem,
}
use xin_os.Page.Run.{in_run}
use xin_os.Malloc.{clear_blocks, malloc_init, get_start_block_by_addr, get_memory_usage_of_malloc}
use xin_os.Malloc.Usage.{CountBytes}
use xin_os.Malloc.Fit.{FreeBlocks}
use xin_os.Malloc.Marks.{MarkedBlocks}
use xin_os.Malloc.Take.{block_free_eq, block_first_eq, block_last_eq}

clear_blocks_at :
    (n : ℕ) (m : Memory) (t a : Ptr) → clear_blocks n m t a ≡ (if in_run t n a then 0 else m a)
unfolding clear_blocks
clear_blocks_at zero m t a = ground arith
clear_blocks_at (suc n) m t a =
    ground (arith, clear_blocks_at n (update m t 0) (t + 1) a, update_lem m t 0 a)

pub malloc_init_at :
    (m : Memory) (p a : Ptr) → malloc_init m p a ≡ (if in_run (p + 3275) 820 a then 0 else m a)
unfolding malloc_init get_start_block_by_addr
malloc_init_at m p a =
    let b : p + 3276 - 1 ≡ p + 3275 = omega arith in rw b (clear_blocks_at 820 m (p + 3275) a)

module _ (m : Memory) (p : Ptr) where
  pub fresh-CountBytes : CountBytes (malloc_init m p) (p + 3275)
  fresh-CountBytes = record {
    low = ground (arith, malloc_init_at m p (p + 3275 + 820 - 1));
    high = ground (arith, malloc_init_at m p (p + 3275 + 820 - 2));
  }

  pub fresh_usage : get_memory_usage_of_malloc (malloc_init m p) (p + 3275) ≡ 0
  unfolding get_memory_usage_of_malloc
  fresh_usage =
      ground
        (arith, malloc_init_at m p (p + 3275 + 820 - 1), malloc_init_at m p (p + 3275 + 820 - 2))

  pub fresh_free : (n : ℕ) → n ≤ 820 → FreeBlocks (malloc_init m p) (p + 3275) n
  fresh_free n le j l =
      ground
        (arith, block_free_eq (malloc_init m p) (p + 3275 + j), malloc_init_at m p (p + 3275 + j))

-- The six low bits of entry `j` of a table in which only the first `n` blocks are taken, as one allocation.
abbrev pub table_entry : (n j : ℕ) → ℕ
table_entry n j =
    if ltb j n then 1 + (if j == 0 then 4 else 0) + (if j + 1 == n then 2 else 0) else 0

module _ (m : Memory) (p : Ptr) (n : ℕ) (m' : Memory) (pos : 0 < n) (few : n ≤ 819)
    (marks : MarkedBlocks (malloc_init m p) (p + 3275) (p + 3275) n m') where
  abbrev cleared : Memory
  cleared = malloc_init m p

  cleared_zero : (j : ℕ) → j < 820 → cleared (p + 3275 + j) ≡ 0
  cleared_zero j small = ground (arith, malloc_init_at m p (p + 3275 + j))

  first_bit : (j : ℕ) → j < n → m' (p + 3275 + j) / 4 % 2 ≡ (if j == 0 then 1 else 0)
  first_bit j l =
      let a = p + 3275 + j in
      elim (Bool-cases (j == 0)) [
        | inl e ↦
            let at_start : p + 3275 ≡ a = ground (arith, e) in
            ground (arith, e, rw at_start at marks.start, block_first_eq m' a)
        | inr e ↦
            let same = marks.inner_start j (ground (arith, e)) l in
            ground (arith, e, same, cleared_zero j, block_first_eq cleared a, block_first_eq m' a)
      ]

  last_bit : (j : ℕ) → j < n → m' (p + 3275 + j) / 2 % 2 ≡ (if j + 1 == n then 1 else 0)
  last_bit j l =
      let a = p + 3275 + j in
      elim (Bool-cases (j + 1 == n)) [
        | inl e ↦
            let at_end : p + 3275 + n - 1 ≡ a = ground (arith, e) in
            ground (arith, e, rw at_end at marks.end, block_last_eq m' a)
        | inr e ↦
            let same = marks.inner_end j (ground (arith, e)) in
            ground (arith, e, same, cleared_zero j, block_last_eq cleared a, block_last_eq m' a)
      ]

  pub marked_entry : (j : ℕ) → j < 819 → m' (p + 3275 + j) % 64 ≡ table_entry n j
  marked_entry j small =
      let a = p + 3275 + j in
      let zero_there = cleared_zero j (omega arith) in
      elim (Bool-cases (ltb j n)) [
        | inr out ↦
            let e = marks.others a (ground (arith, out)) (omega arith) in
            ground (arith, e, zero_there, out)
        | inl inside ↦
            let l : j < n = ground (arith, inside) in
            let bit : m' a % 2 ≡ 1 = ground (arith, marks.taken j l, block_free_eq m' a) in
            let spare = marks.spare a (omega arith) in
            ground (arith, inside, bit, first_bit j l, last_bit j l, spare, zero_there)
      ]
