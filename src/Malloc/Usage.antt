-- ===== src/Malloc/Usage.antt =====
-- The ten-bit count of used blocks in a block table of os/page.c.
use xin_os.Base.{◌+◌, ◌%◌, ◌<◌, ◌≡◌, ◌≢◌, arith, Ptr, Memory, update}
use xin_os.Malloc.{
  low_block, high_block, increase_block_usage_of_malloc, decrease_block_usage_of_malloc,
  get_memory_usage_of_malloc,
}

-- The two bytes that hold the count.
pub record CountBytes (m : Memory) (b : Ptr) : Type 0 where
  pub low : m (low_block b) < 256
  pub high : m (high_block b) < 256

module _ (m : Memory) (b : Ptr) (c : CountBytes m b) where
  -- One more block in use: the count goes up by one modulo 1024, the flags of the block whose
  -- entry holds the high bits stay, no other byte changes, and both bytes stay bytes.
  pub increase_lem :
      (get_memory_usage_of_malloc (increase_block_usage_of_malloc m b) b
        ≡ (get_memory_usage_of_malloc m b + 1) % 1024)
      × (increase_block_usage_of_malloc m b (high_block b) % 64 ≡ m (high_block b) % 64)
      × ((a : Ptr)
          → a ≢ low_block b
          → a ≢ high_block b
          → increase_block_usage_of_malloc m b a ≡ m a)
      × CountBytes (increase_block_usage_of_malloc m b) b
  unfolding increase_block_usage_of_malloc get_memory_usage_of_malloc update
  increase_lem = (
    ground arith,
    ground arith,
    λ a p q. ground arith,
    record { low = ground arith; high = ground arith },
  )

  -- One block less in use: the count goes down by one modulo 1024, the flags of the block whose
  -- entry holds the high bits stay, no other byte changes, and both bytes stay bytes.
  pub decrease_lem :
      (get_memory_usage_of_malloc (decrease_block_usage_of_malloc m b) b
        ≡ (get_memory_usage_of_malloc m b + 1023) % 1024)
      × (decrease_block_usage_of_malloc m b (high_block b) % 64 ≡ m (high_block b) % 64)
      × ((a : Ptr)
          → a ≢ low_block b
          → a ≢ high_block b
          → decrease_block_usage_of_malloc m b a ≡ m a)
      × CountBytes (decrease_block_usage_of_malloc m b) b
  unfolding decrease_block_usage_of_malloc get_memory_usage_of_malloc update
  decrease_lem = (
    ground arith,
    ground arith,
    λ a p q. ground arith,
    record { low = ground arith; high = ground arith },
  )

  -- Counting a block and uncounting it restores every byte of the memory.
  pub decrease-increase :
      (a : Ptr) → decrease_block_usage_of_malloc (increase_block_usage_of_malloc m b) b a ≡ m a
  unfolding decrease_block_usage_of_malloc increase_block_usage_of_malloc update
  decrease-increase a = ground arith
