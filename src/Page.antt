-- ===== src/Page.antt =====
-- os/page.c, the page allocator: `page_init`, `page_alloc` and `page_free` over the table of flag
-- bytes that starts at HEAP_START. The 64-bit build is modelled: addresses are numbers below 2 ^ 64,
-- and arithmetic on `uint64_t` wraps. Pointers are not wrapped when they are stepped.
pub mod Flags
pub mod Layout
pub mod Run
pub mod Search
pub mod Tidy
pub mod Release
pub mod Free
mod Tests
use xin_os.Base.{
  ℕ, zero, suc, ◌+◌, ◌-◌, ◌*◌, ◌/◌, ◌^◌, bit_and, bit_or, Bool, true, false, ◌&&◌, ◌||◌, Option,
  none, some, ltb, leb, ◌==◌, if◌then◌else◌, Ptr, null, u8, u32, u64, signed_ltb, update, Memory,
}

abbrev pub page_size : ℕ
page_size = 4096

abbrev pub page_order : ℕ
page_order = 12

abbrev pub page_taken : ℕ
page_taken = 1

abbrev pub page_last : ℕ
page_last = 2

abbrev pub page_first : ℕ
page_first = 4

abbrev pub page_malloc : ℕ
page_malloc = 8

-- The linker's symbols HEAP_START and HEAP_SIZE, the variables of the file, and the memory.
pub record Heap : Type 0 where
  pub heap_start : ℕ
  pub heap_size : ℕ
  pub alloc_start : ℕ
  pub alloc_end : ℕ
  pub num_pages : ℕ
  pub mem : Memory

unfoldable pub clear_page : Memory → Ptr → Memory
clear_page m page = update m page 0

-- `order` is 4095, and `~order` the 64-bit complement.
unfoldable pub align_page : ℕ → ℕ
align_page addr =
    let order = 2 ^ page_order - 1 in bit_and (u64 (addr + order)) (2 ^ 64 - 1 - order)

unfoldable pub is_page_free : Memory → Ptr → Bool
is_page_free m page = bit_and (m page) page_taken == 0

unfoldable pub set_page_flags : Memory → Ptr → ℕ → Memory
set_page_flags m page flags = update m page (u8 (bit_or (m page) flags))

unfoldable pub is_page_last : Memory → Ptr → Bool
is_page_last m page = if bit_and (m page) page_last == 0 then false else true

unfoldable pub is_malloced : Memory → Ptr → Bool
is_malloced m page = if bit_and (m page) page_malloc == 0 then false else true

unfoldable pub is_page_first : Memory → Ptr → Bool
is_page_first m page = if bit_and (m page) page_first == 0 then false else true

-- The difference of the pointers may be negative: it is taken modulo 2 ^ 64.
unfoldable pub get_start_mem_by_page : Heap → Ptr → Ptr
get_start_mem_by_page h page = u64 (h.alloc_start + u64 (page + 2 ^ 64 - h.heap_start) * page_size)

unfoldable pub get_start_mem_by_addr : Heap → Ptr → Ptr
get_start_mem_by_addr h p =
    let page_count = u64 (p + 2 ^ 64 - h.alloc_start) / page_size in
    u64 (h.alloc_start + page_count * page_size)

unfoldable pub get_page_by_addr : Heap → Ptr → Ptr
unfolding get_start_mem_by_addr
get_page_by_addr h p =
    let p' = get_start_mem_by_addr h p in
    h.heap_start + u64 (p' + 2 ^ 64 - h.alloc_start) / page_size

-- The loop of `page_init`, by the rounds left.
pub clear_pages : ℕ → Memory → Ptr → Memory
clear_pages zero m page = m
clear_pages (suc k) m page = clear_pages k (clear_page m page) (page + 1)

unfoldable pub page_init : Heap → Heap
unfolding clear_pages clear_page align_page
page_init h =
    let num_pages = u64 (h.heap_size / page_size + 2 ^ 64 - 8) in
    let alloc_start = align_page (u64 (h.heap_start + 8 * page_size)) in
    record h {
      num_pages = num_pages;
      mem = clear_pages num_pages h.mem h.heap_start;
      alloc_start = alloc_start;
      alloc_end = u64 (alloc_start + num_pages * page_size);
    }

-- `for (j = 1; j < npages; ++j) if (!_is_page_free(++tmp)) ...`, by the rounds left.
pub rest_free : ℕ → Memory → Ptr → Bool
rest_free zero m tmp = true
rest_free (suc k) m tmp = elim (is_page_free m (tmp + 1)) [
  | true ↦ rest_free k m (tmp + 1)
  | false ↦ false
]

-- `for (j = 0; j < npages; ++j) _set_page_flags(tmp++, PAGE_TAKEN)`: the memory and `tmp` at the end.
pub take_pages : ℕ → Memory → Ptr → Memory × Ptr
take_pages zero m tmp = (m, tmp)
take_pages (suc k) m tmp = take_pages k (set_page_flags m tmp page_taken) (tmp + 1)

-- What is done with the run of pages that was found.
pub take_run : Memory → Ptr → ℕ → Memory
unfolding take_pages
take_run m page npages =
    let (m', tmp) = take_pages npages (set_page_flags m page page_first) page in
    set_page_flags m' (tmp - 1) page_last

-- The search, by the rounds left: the address returned, and the memory.
pub find_pages : ℕ → Heap → ℕ → ℕ → Ptr → Ptr × Memory
find_pages zero h npages i page = (null, h.mem)
find_pages (suc k) h npages i page =
    elim (is_page_free h.mem page && rest_free (npages - 1) h.mem page) [
      | true ↦ (u64 (h.alloc_start + i * page_size), take_run h.mem page npages)
      | false ↦ find_pages k h npages (i + 1) (page + 1)
    ]

-- How often `for (i = 0; i <= end_page; ++i)` goes round; `end_page` is an `int`.
pub search_rounds : Heap → ℕ → ℕ
search_rounds h npages =
    let end_page = u32 (h.num_pages + 2 ^ 32 - npages) in
    if signed_ltb end_page 0 then 0 else end_page + 1

-- `npages` is the bit pattern of an `int`.
unfoldable pub page_alloc : Heap → ℕ → Ptr × Heap
unfolding find_pages search_rounds rest_free take_run is_page_free set_page_flags
page_alloc h npages =
    if signed_ltb npages 1
    then (null, h)
    else let (p, m) = find_pages (search_rounds h npages) h npages 0 h.heap_start in
      (p, record h { mem = m })

-- The loop of `page_free`: `none` when the fuel runs out.
pub release : ℕ → Memory → Ptr → Option Memory
release zero m page = none
release (suc k) m page = elim (is_page_free m page) [
  | true ↦ some m
  | false ↦ elim (is_page_last m page) [
    | true ↦ some (clear_page m page)
    | false ↦ release k (clear_page m page) (page + 1)
  ]
]

-- Freeing inside a run ends the part before it.
pub end_previous : Heap → Ptr → Memory
unfolding get_start_mem_by_page
end_previous h page =
    if is_page_first h.mem page
    then h.mem
    else let prev_page = u64 (page + 2 ^ 64 - 1) in
      let prev = get_start_mem_by_page h prev_page in
      if leb h.alloc_start prev && (if is_page_free h.mem prev_page then false else true)
      then set_page_flags h.mem prev_page page_last
      else h.mem

-- `none` when the walk does not end within the rounds that the table allows.
unfoldable pub page_free : Heap → Ptr → Option Heap
unfolding release end_previous is_page_free is_page_last is_page_first set_page_flags clear_page
page_free h p =
    if p == null || leb h.alloc_end p || ltb p h.alloc_start
    then some h
    else let page = h.heap_start + (p - h.alloc_start) / page_size in
      elim (release (h.num_pages + 1) (end_previous h page) page) [
        | none ↦ none
        | some m ↦ some (record h { mem = m })
      ]
