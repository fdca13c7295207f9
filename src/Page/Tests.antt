-- ===== src/Page/Tests.antt =====
-- A heap of sixteen pages: runs of os/page.c's page allocator, and its theorems at this heap.
use mathlib.Core.Bool.{false≢true}
use xin_os.Base.{
  ℕ, ◌+◌, ◌*◌, ◌≡◌, refl, sym, Option, some, none, arith, null, Memory, update, ◌==◌, if◌then◌else◌,
  Ptr,
}
use xin_os.Page.{Heap, is_page_free, page_init, page_alloc, page_free}
use xin_os.Page.Flags.{free_eq, last_eq, first_eq}
use xin_os.Page.Layout.{IsLayout, page_init-IsLayout}
use xin_os.Page.Run.{in_run}
use xin_os.Page.Tidy.{IsTidy, page_alloc-IsTidy}
use xin_os.Page.Free.{Freed, page_free-Freed, page_free-total, page_free-page_alloc}

abbrev small_heap : Heap
small_heap = record {
  heap_start = 0x8000_3000;
  heap_size = 24 * 4096;
  alloc_start = 0x8000_b000;
  alloc_end = 0x8001_b000;
  num_pages = 16;
  mem = λ _. 0;
}

small_heap-IsLayout : IsLayout small_heap
small_heap-IsLayout = omega arith

small_heap-IsTidy : IsTidy small_heap
unfolding is_page_free
small_heap-IsTidy = record {
  clean = λ a l u f. refl;
  closed = λ a l u f g. absurd (false≢true (sym f));
}

-- A run of three pages from the first one on.
abbrev busy : Memory
busy a =
    if a == 0x8000_3000
    then 5
    else if a == 0x8000_3001
    then 1
    else if a == 0x8000_3002
    then 3
    else 0

abbrev busy_heap : Heap
busy_heap = record small_heap { mem = busy }

busy_heap-IsLayout : IsLayout busy_heap
busy_heap-IsLayout = omega arith

busy_heap-IsTidy : IsTidy busy_heap
busy_heap-IsTidy = record {
  clean = λ a l u f. ground (arith, free_eq busy a);
  closed = λ a l u f g.
      ground (arith, free_eq busy a, last_eq busy a, free_eq busy (a + 1), first_eq busy (a + 1));
}

-- Freeing the second page ends the run after the first one.
three_entries : Option Heap → ℕ
three_entries none = 0
three_entries (some h) = h.mem 0x8000_3000 * 100 + h.mem 0x8000_3001 * 10 + h.mem 0x8000_3002

free_inside : three_entries (page_free busy_heap 0x8000_c000) ≡ 700
unfolding three_entries page_free update
free_inside = refl

-- Two pages, then three: the second run follows the first.
two_runs : (page_alloc (page_alloc small_heap 2).1 3).0 ≡ 0x8000_d000
unfolding page_alloc update
two_runs = refl

no_room : page_alloc small_heap 17 ≡ (null, small_heap)
unfolding page_alloc
no_room = refl

negative_size : page_alloc small_heap 0xffff_ffff ≡ (null, small_heap)
unfolding page_alloc
negative_size = refl

page_init-IsLayout_example :
    IsLayout (page_init small_heap)
    × ((page_init small_heap).alloc_end ≡ 0x8001_b000)
    × ((page_init small_heap).num_pages + 8 ≡ 24)
    × ((a : Ptr)
        → (page_init small_heap).mem a
          ≡ (if in_run 0x8000_3000 (page_init small_heap).num_pages a then 0 else 0))
page_init-IsLayout_example =
    page_init-IsLayout small_heap (omega arith) (omega arith) (omega arith) (omega arith)
      (omega arith)

page_alloc-IsTidy_example : IsTidy (page_alloc small_heap 3).1
page_alloc-IsTidy_example =
    page_alloc-IsTidy small_heap 3 small_heap-IsLayout small_heap-IsTidy (omega arith)

page_free-Freed_example :
    (h : Heap) × (page_free busy_heap 0x8000_c000 ≡ some h)
    × Freed busy_heap 0x8000_c000 h
    × IsTidy h
page_free-Freed_example =
    page_free-Freed busy_heap 0x8000_c000 busy_heap-IsLayout busy_heap-IsTidy (omega arith)
      (omega arith)

page_free-total_example : (h : Heap) × (page_free busy_heap 0x8000_c004 ≡ some h) × IsTidy h
page_free-total_example = page_free-total busy_heap 0x8000_c004 busy_heap-IsLayout busy_heap-IsTidy

page_free-page_alloc_example :
    page_free (page_alloc busy_heap 3).1 (page_alloc busy_heap 3).0 ≡ some busy_heap
page_free-page_alloc_example =
    page_free-page_alloc busy_heap 3 busy_heap-IsLayout busy_heap-IsTidy (omega arith) (omega arith)
