-- ===== src/Malloc/First.antt =====
-- `malloc` of os/page.c on a heap whose first page is free.
use xin_os.Base.{
  ℕ, zero, suc, ◌+◌, ◌*◌, ◌%◌, ◌≤◌, ◌<◌, ◌≡◌, true, false, arith, leb, ◌==◌, if◌then◌else◌, Ptr,
  null, update_lem, bit_or, u8,
}
use xin_os.Page.{Heap, get_start_mem_by_page, is_malloced, is_page_free, set_page_flags}
use xin_os.Page.Layout.{IsLayout}
use xin_os.Malloc.{
  get_memory_usage_of_malloc, block_total, try_malloc, open_page, malloc_small, malloc, malloc_init,
}
use xin_os.Malloc.Take.{TakenBlocks}
use xin_os.Malloc.Init.{table_entry}
use xin_os.Malloc.Fresh.{page_at, start_of_entry, FreshServed, try_malloc-fresh}

-- The heap after the first request: its address, its table entry, and its block table.
pub record FirstServed (h : Heap) (size : ℕ) (r : Ptr × Heap) : Type 0 where
  pub address : r.0 ≡ h.alloc_start
  pub page_flags : r.1.mem h.heap_start ≡ 15
  pub counted : get_memory_usage_of_malloc r.1.mem (h.alloc_start + 3275) ≡ block_total size
  pub taken : TakenBlocks r.1.mem (h.alloc_start + 3275) (block_total size)
  pub entries :
      (j : ℕ) → j < 819 → r.1.mem (h.alloc_start + 3275 + j) % 64 ≡ table_entry (block_total size) j
  pub others :
      (a : Ptr) → a < h.alloc_start + 3275 → (a == h.heap_start) ≡ false → r.1.mem a ≡ h.mem a

module _ (h : Heap) (lay : IsLayout h) (some_page : 0 < h.num_pages)
    (unused : h.mem h.heap_start ≡ 0) where
  not_malloced : is_malloced h.mem h.heap_start ≡ false
  unfolding is_malloced
  not_malloced = rw unused

  is_free : is_page_free h.mem h.heap_start ≡ true
  unfolding is_page_free
  is_free = rw unused

  abbrev marked_heap : Heap
  marked_heap = record h { mem = set_page_flags h.mem h.heap_start 15 }

  marked-IsLayout : IsLayout marked_heap
  marked-IsLayout = record {
    table_pos = lay.table_pos;
    table_below = lay.table_below;
    aligned = lay.aligned;
    pages_end = lay.pages_end;
    pages_few = lay.pages_few;
    fits = lay.fits;
  }

  entry_start : get_start_mem_by_page h h.heap_start ≡ page_at h 0
  entry_start =
      let z : h.heap_start + 0 ≡ h.heap_start = omega arith in
      rw z at (start_of_entry h lay 0 some_page)

  opened :
      open_page h h.heap_start
      ≡ record marked_heap { mem = malloc_init marked_heap.mem (page_at marked_heap 0) }
  unfolding open_page
  opened = rw entry_start

  set_all : (a : Ptr) → marked_heap.mem a ≡ (if a == h.heap_start then 15 else h.mem a)
  unfolding set_page_flags
  set_all a = rw (update_lem h.mem h.heap_start (u8 (bit_or (h.mem h.heap_start) 15)) a, unused)

  first_of_fresh :
      (size : ℕ) (r : Ptr × Heap) → FreshServed marked_heap 0 size r → FirstServed h size r
  first_of_fresh size r f =
      let z : h.alloc_start + 0 * 4096 ≡ h.alloc_start = omega arith in
      record {
        address = omega (arith, f.address);
        page_flags = ground (arith, f.same h.heap_start, set_all h.heap_start);
        counted = rw z at f.counted;
        taken = rw z at f.taken;
        entries = rw z at f.entries;
        others = λ a l ne. ground (arith, f.same a, set_all a);
      }

  malloc_small_first :
      (k size : ℕ)
      → 0 < size
      → size ≤ 3276
      → FirstServed h size (malloc_small (suc k) h h.heap_start size)
  unfolding malloc_small
  malloc_small_first k size pos small =
      let f = try_malloc-fresh marked_heap 0 size pos small marked-IsLayout some_page in
      let got : ((try_malloc (open_page h h.heap_start) (page_at h 0) size).0 == null) ≡ false =
        rw opened (ground (arith, f.address)) in
      rw (not_malloced, is_free, entry_start, got, opened) (first_of_fresh size _ f)

  malloc_small_pos :
      (k size : ℕ)
      → 0 < k
      → 0 < size
      → size ≤ 3276
      → FirstServed h size (malloc_small k h h.heap_start size)
  malloc_small_pos zero size room pos small = absurd (omega arith)
  malloc_small_pos (suc k) size room pos small = malloc_small_first k size pos small

  -- When the first page is unused, `malloc` serves 1 to 3276 bytes from it: it returns the page's
  -- start, marks the page as taken, first, last and managed by `malloc`, and its block table says that
  -- exactly the blocks needed are taken, from the first on, with the marks of the first and the last
  -- one, all other entries but the last, which is a byte of the count, being free and without flags,
  -- and that so many are in use; below the block table it changes no byte but that page's entry.
  pub malloc-FirstServed : (size : ℕ) → 0 < size → size ≤ 3276 → FirstServed h size (malloc h size)
  unfolding malloc
  malloc-FirstServed size pos small =
      let z : (size == 0) ≡ false = ground arith in
      let l : leb size 3276 ≡ true = ground arith in
      rw (z, l) (malloc_small_pos h.num_pages size some_page pos small)
