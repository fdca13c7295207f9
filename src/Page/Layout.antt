-- ===== src/Page/Layout.antt =====
-- Where the heap lies after `page_init` of os/page.c.
use native.Mathlib.Nat.{mod-eq_of_lt}
use xin_os.Base.{
  ℕ, zero, suc, ◌+◌, ◌-◌, ◌*◌, ◌/◌, ◌%◌, ◌^◌, ◌≤◌, ◌<◌, bit_and, ◌≡◌, arith, if◌then◌else◌, Ptr,
  Memory, u64, bit_and-above,
}
use xin_os.Page.{Heap, align_page, clear_page, clear_pages, page_init}
use xin_os.Page.Flags.{clear_eq}
use xin_os.Page.Run.{in_run}

-- The table stands below the pages, and every address fits a word.
pub record IsLayout (h : Heap) : Type 0 where
  pub table_pos : 0 < h.heap_start
  pub table_below : h.heap_start + h.num_pages ≤ h.alloc_start
  pub aligned : h.alloc_start % 4096 ≡ 0
  pub pages_end : h.alloc_end ≡ h.alloc_start + h.num_pages * 4096
  pub pages_few : h.num_pages < 2 ^ 19
  pub fits : h.alloc_end < 2 ^ 63

-- The mask of `_align_page` drops the twelve lowest bits.
bit_and_page : (a : ℕ) → a < 2 ^ 64 → bit_and a (2 ^ 64 - 4096) ≡ a / 4096 * 4096
bit_and_page a h =
    let e : bit_and a (2 ^ 64 - 4096) ≡ a / 4096 % 2 ^ 52 * 4096 = bit_and-above 52 a in
    omega (arith, e)

-- `_align_page` rounds an address up to the next multiple of 4096, and leaves a multiple alone.
pub align_page_lem :
    (addr : ℕ)
    → addr + 4095 < 2 ^ 64
    → (align_page addr % 4096 ≡ 0) × (addr ≤ align_page addr) × (align_page addr < addr + 4096)
unfolding align_page
align_page_lem addr h =
    let e : bit_and (u64 (addr + 4095)) (2 ^ 64 - 4096) ≡ (addr + 4095) / 4096 * 4096 =
      rw (mod-eq_of_lt h) (bit_and_page (addr + 4095) h) in
    omega (arith, e)

clear_pages_at :
    (k : ℕ) (m : Memory) (t a : Ptr) → clear_pages k m t a ≡ (if in_run t k a then 0 else m a)
unfolding clear_pages
clear_pages_at zero m t a = ground arith
clear_pages_at (suc k) m t a =
    ground (arith, clear_pages_at k (clear_page m t) (t + 1) a, clear_eq m t a)

-- `page_init` on a heap of 9 pages to 128 MB that ends at a page boundary: the table and the pages
-- lie inside the heap without overlap, there are eight pages less than the heap has, and exactly
-- the table's bytes are cleared.
pub page_init-IsLayout :
    (h : Heap)
    → 0 < h.heap_start
    → h.heap_start + h.heap_size < 2 ^ 62
    → 9 * 4096 ≤ h.heap_size
    → h.heap_size ≤ 2 ^ 27
    → (h.heap_start + h.heap_size) % 4096 ≡ 0
    → IsLayout (page_init h)
      × ((page_init h).alloc_end ≡ h.heap_start + h.heap_size)
      × ((page_init h).num_pages + 8 ≡ h.heap_size / 4096)
      × ((a : Ptr)
          → (page_init h).mem a
            ≡ (if in_run h.heap_start (page_init h).num_pages a then 0 else h.mem a))
unfolding page_init
page_init-IsLayout h pos fits many few ends =
    let e : u64 (h.heap_start + 8 * 4096) ≡ h.heap_start + 8 * 4096 = omega arith in
    let al = align_page_lem (h.heap_start + 8 * 4096) (omega arith) in
    rw e (
      record {
        table_pos = pos;
        table_below = omega arith;
        aligned = omega arith;
        pages_end = omega arith;
        pages_few = omega arith;
        fits = omega arith;
      },
      omega arith,
      omega arith,
      clear_pages_at _ h.mem h.heap_start,
    )
