-- ===== src/Malloc/Tests.antt =====
-- Runs of the block allocator of os/page.c, and its theorems at a heap of two pages.
use xin_os.Base.{
  ℕ, ◌+◌, ◌-◌, ◌*◌, ◌%◌, ◌≡◌, refl, arith, true, false, ◌==◌, if◌then◌else◌, Ptr, Memory, update,
  update_lem,
}
use xin_os.Page.{Heap, get_start_mem_by_addr, is_malloced}
use xin_os.Page.Layout.{IsLayout}
use xin_os.Malloc.{
  done, is_block_free, block_total, increase_block_usage_of_malloc, get_memory_usage_of_malloc,
  try_malloc, malloc, memcpy, free,
}
use xin_os.Malloc.Usage.{CountBytes}
use xin_os.Malloc.Inside.{InHeap, malloc-InHeap}
use xin_os.Malloc.Copy.{copied, memcpy-copied}
use xin_os.Malloc.Fit.{FreeBlocks}
use xin_os.Malloc.Take.{block_free_eq}
use xin_os.Malloc.Fresh.{Served, try_malloc-Served}
use xin_os.Malloc.First.{FirstServed, malloc-FirstServed}
use xin_os.Malloc.Fresh.{page_at, table_at}
use xin_os.Malloc.Looks.{IsBytes}
use xin_os.Page.Run.{in_run}
use xin_os.Malloc.Release.{last_out, free-try_malloc}
use xin_os.Malloc.Overlap.{try_malloc-overlap}

abbrev empty_heap : Heap
empty_heap = record {
  heap_start = 0x1000;
  heap_size = 10 * 4096;
  alloc_start = 0x9000;
  alloc_end = 0xb000;
  num_pages = 2;
  mem = λ _. 0;
}

empty_heap-IsLayout : IsLayout empty_heap
empty_heap-IsLayout = omega arith

-- The second block of the first page is in use, and counted.
abbrev one_taken : Memory
one_taken a = if a == 0x9000 + 3276 then 7 else if a == 0x9000 + 4094 then 1 else 0

abbrev taken_heap : Heap
taken_heap = record empty_heap { mem = one_taken }

taken_heap-CountBytes : CountBytes one_taken (0x9000 + 3275)
taken_heap-CountBytes = omega arith

-- One block does not fit before the block in use if two are wanted, and yet they are handed out.
overlaps : (try_malloc taken_heap 0x9000 8).0 ≡ 0x9000
unfolding try_malloc update get_start_mem_by_addr
overlaps = refl

-- The full count of 255 carries into the high bits.
carries :
    get_memory_usage_of_malloc
      (increase_block_usage_of_malloc (λ a. if a == 819 then 255 else if a == 818 then 5 else 0) 0)
      0
    ≡ 256
unfolding increase_block_usage_of_malloc get_memory_usage_of_malloc update
carries = refl

memcpy-copied_example :
    (m : Memory) × (memcpy empty_heap 0x9004 0x9000 8 ≡ done (record empty_heap { mem = m }))
    × ((a : Ptr) → m a ≡ copied (λ _. 0) 0x9004 0x9000 8 a)
memcpy-copied_example =
    memcpy-copied empty_heap 0x9004 0x9000 8 (omega arith) (omega arith) (omega arith)

try_malloc-Served_example : Served taken_heap 0 (block_total 4) (try_malloc taken_heap 0x9000 4)
try_malloc-Served_example =
    try_malloc-Served taken_heap 0 4 (omega arith) (omega arith) taken_heap-CountBytes (omega arith)
      (omega arith)

first_free : FreeBlocks one_taken (0x9000 + 3275) (block_total 8 - 1)
unfolding block_total
first_free j l = ground (arith, block_free_eq one_taken (0x9000 + 3275 + j))

second_used : is_block_free one_taken (0x9000 + 3275 + (block_total 8 - 1)) ≡ false
unfolding block_total is_block_free
second_used = refl

try_malloc-overlap_example :
    ((try_malloc taken_heap 0x9000 8).0 ≡ 0x9000)
    × ¬ FreeBlocks one_taken (0x9000 + 3275) (block_total 8)
try_malloc-overlap_example =
    try_malloc-overlap taken_heap 0 8 (omega arith) (omega arith) taken_heap-CountBytes
      (omega arith) (omega arith) first_free second_used

malloc-InHeap_example : InHeap taken_heap 5000 (malloc taken_heap 5000).0
malloc-InHeap_example = malloc-InHeap taken_heap 5000 (omega arith) (omega arith)

malloc-FirstServed_example : FirstServed empty_heap 100 (malloc empty_heap 100)
malloc-FirstServed_example =
    malloc-FirstServed empty_heap empty_heap-IsLayout (omega arith) refl 100 (omega arith)
      (omega arith)

-- The same page, marked as one that `malloc` manages.
abbrev shared_heap : Heap
shared_heap = record empty_heap { mem = update one_taken 0x1000 15 }

shared_heap-IsLayout : IsLayout shared_heap
shared_heap-IsLayout = omega arith

first_try : try_malloc shared_heap 0x9000 4 ≡ (0x9000, (try_malloc shared_heap 0x9000 4).1)
unfolding try_malloc update get_start_mem_by_addr
first_try = refl

shared_heap-IsBytes : IsBytes shared_heap.mem
shared_heap-IsBytes a = ground (arith, update_lem one_taken 0x1000 15 a)

shared_managed : is_malloced shared_heap.mem (shared_heap.heap_start + 0) ≡ true
unfolding is_malloced update
shared_managed = refl

first_clean :
    (j : ℕ)
    → 0x9000 ≡ page_at shared_heap 0 + j * 4
    → (a : Ptr) → in_run (table_at shared_heap 0 + j) (block_total 4) a ≡ true
    → shared_heap.mem a % 64 ≡ 0
unfolding block_total
first_clean j e a i = ground (arith, update_lem one_taken 0x1000 15 a)

free-try_malloc_example :
    free 819 (try_malloc shared_heap 0x9000 4).1 0x9000 ≡ last_out shared_heap 0
free-try_malloc_example =
    free-try_malloc 819 shared_heap 0 4 0x9000 (try_malloc shared_heap 0x9000 4).1
      shared_heap-IsLayout (omega arith) shared_heap-IsBytes (omega arith) (omega arith)
      shared_managed first_try (omega arith) first_clean (omega arith)
