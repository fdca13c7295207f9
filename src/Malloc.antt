-- ===== src/Malloc.antt =====
-- os/page.c, the block allocator on top of the pages: `malloc`, `free` and `memcpy`. A page that
-- `malloc` manages has a table of 820 flag bytes from its byte 3275 on; the last table byte and the
-- two high bits of the one before it count the blocks in use.
pub mod Usage
pub mod Inside
pub mod Copy
pub mod Fit
pub mod Take
pub mod Marks
pub mod Init
pub mod Fresh
pub mod First
pub mod Overlap
pub mod Looks
pub mod Return
pub mod Release
mod Tests
use xin_os.Base.{
  ℕ, zero, suc, ◌+◌, ◌-◌, ◌*◌, ◌/◌, ◌%◌, ◌^◌, bit_and, bit_or, bit_xor, Bool, true, false, ◌&&◌,
  ◌||◌, Option, none, some, ltb, leb, ◌==◌, if◌then◌else◌, Ptr, null, u8, u32, u64, signed_ltb,
  update, Memory,
}
use xin_os.Page.{
  Heap, page_size, page_malloc, page_last, is_page_free, is_page_last, is_malloced, set_page_flags,
  get_start_mem_by_page, get_start_mem_by_addr, get_page_by_addr, page_alloc, page_free,
}

abbrev pub malloc_size : ℕ
malloc_size = 4

abbrev pub allocable_size : ℕ
allocable_size = 3276

abbrev pub malloc_table_size : ℕ
malloc_table_size = 820

abbrev pub block_taken : ℕ
block_taken = 1

abbrev pub block_last : ℕ
block_last = 2

abbrev pub block_first : ℕ
block_first = 4

unfoldable pub get_start_block_by_addr : Ptr → Ptr
get_start_block_by_addr p = p + allocable_size - 1

unfoldable pub get_block_by_addr : Heap → Ptr → Ptr
unfolding get_start_block_by_addr
get_block_by_addr h p =
    let page_mem = get_start_mem_by_addr h p in
    get_start_block_by_addr page_mem + (p - page_mem) / malloc_size

unfoldable pub is_block_free : Memory → Ptr → Bool
is_block_free m block = bit_and (m block) block_taken == 0

unfoldable pub set_block_flags : Memory → Ptr → ℕ → Memory
set_block_flags m block flags = update m block (u8 (bit_or (m block) flags))

unfoldable pub is_block_last : Memory → Ptr → Bool
is_block_last m block = if bit_and (m block) block_last == 0 then false else true

unfoldable pub is_block_first : Memory → Ptr → Bool
is_block_first m block = if bit_and (m block) block_first == 0 then false else true

-- The loop of `_malloc_init`, by the rounds left.
unfoldable pub clear_blocks : ℕ → Memory → Ptr → Memory
clear_blocks zero m tmp = m
clear_blocks (suc k) m tmp = clear_blocks k (update m tmp 0) (tmp + 1)

unfoldable pub malloc_init : Memory → Ptr → Memory
unfolding clear_blocks get_start_block_by_addr
malloc_init m p = clear_blocks malloc_table_size m (get_start_block_by_addr p)

-- `low_block` and `high_block` of the table that starts at `block`.
abbrev pub low_block : Ptr → Ptr
low_block block = block + malloc_table_size - 1

abbrev pub high_block : Ptr → Ptr
high_block block = block + malloc_table_size - 2

unfoldable pub increase_block_usage_of_malloc : Memory → Ptr → Memory
increase_block_usage_of_malloc m block =
    let m' =
      if m (low_block block) == 255
      then update m (high_block block) (u8 (m (high_block block) + 2 ^ 6))
      else m in
    update m' (low_block block) (u8 (m' (low_block block) + 1))

unfoldable pub decrease_block_usage_of_malloc : Memory → Ptr → Memory
decrease_block_usage_of_malloc m block =
    if m (low_block block) == 0
    then (let m' = update m (low_block block) 255 in
        update m' (high_block block) (u8 (m' (high_block block) + 2 ^ 8 - 2 ^ 6)))
    else update m (low_block block) (u8 (m (low_block block) + 2 ^ 8 - 1))

unfoldable pub get_memory_usage_of_malloc : Memory → Ptr → ℕ
get_memory_usage_of_malloc m block = m (high_block block) / 2 ^ 6 * 2 ^ 8 + m (low_block block)

-- `for (j = 1; j < block_total; ++j, ++tmp) if (!_is_block_free(tmp)) ...`, by the rounds left.
pub blocks_free : ℕ → Memory → Ptr → Bool
blocks_free zero m tmp = true
blocks_free (suc k) m tmp = elim (is_block_free m tmp) [
  | true ↦ blocks_free k m (tmp + 1)
  | false ↦ false
]

-- `for (j = 0; j < block_total; ++j, ++tmp) ...`: the memory and `tmp` at the end.
pub take_blocks : ℕ → Memory → Ptr → Ptr → Memory × Ptr
take_blocks zero m block_start tmp = (m, tmp)
take_blocks (suc k) m block_start tmp =
    take_blocks k (increase_block_usage_of_malloc (set_block_flags m tmp block_taken) block_start)
      block_start (tmp + 1)

-- What is done with the blocks that were found.
pub take_block_run : Memory → Ptr → Ptr → ℕ → Memory
unfolding take_blocks
take_block_run m block_start block block_total =
    let (m', tmp) =
      take_blocks block_total (set_block_flags m block block_first) block_start block in
    set_block_flags m' (tmp - 1) block_last

-- The search of `_try_malloc` in the page at `p`, by the rounds left.
pub find_blocks : ℕ → Memory → Ptr → Ptr → ℕ → ℕ → Ptr → Ptr × Memory
find_blocks zero m p block_start block_total i block = (null, m)
find_blocks (suc k) m p block_start block_total i block =
    elim (is_block_free m block && blocks_free (block_total - 1) m block) [
      | true ↦ (p + i * malloc_size, take_block_run m block_start block block_total)
      | false ↦ find_blocks k m p block_start block_total (i + 1) (block + 1)
    ]

-- `block_total`, an `int`.
unfoldable pub block_total : ℕ → ℕ
block_total size =
    let whole = u32 (size / malloc_size) in
    if size % malloc_size == 0 then whole else u32 (whole + 1)

-- The rounds of `for (i = 0; i < end_index; ++i)`.
unfoldable pub block_rounds : ℕ → ℕ
block_rounds total =
    let end_index = u32 (malloc_table_size + 2 ^ 32 - total) in
    if signed_ltb 0 end_index then end_index else 0

unfoldable pub try_malloc : Heap → Ptr → ℕ → Ptr × Heap
unfolding find_blocks block_total block_rounds blocks_free take_block_run is_block_free
    set_block_flags increase_block_usage_of_malloc get_start_block_by_addr
try_malloc h p size =
    let p' = get_start_mem_by_addr h p in
    let block_start = get_start_block_by_addr p' in
    let total = block_total size in
    if total == 0
    then (null, h)
    else let (q, m) = find_blocks (block_rounds total) h.mem p' block_start total 0 block_start in
      (q, record h { mem = m })

-- `_set_page_flags(page, PAGE_TAKEN | PAGE_LAST | PAGE_FIRST | PAGE_MALLOC)` and `_malloc_init`.
pub open_page : Heap → Ptr → Heap
open_page h page =
    let m = set_page_flags h.mem page 15 in
    record h { mem = malloc_init m (get_start_mem_by_page h page) }

-- The loop of `malloc` for requests of at most ALLOCABLE_SIZE bytes, by the rounds left.
pub malloc_small : ℕ → Heap → Ptr → ℕ → Ptr × Heap
malloc_small zero h page size = (null, h)
malloc_small (suc k) h page size =
    let retry = λ (r : Ptr × Heap).
      let rest = malloc_small k r.1 (page + 1) size in if r.0 == null then rest else r in
    let next = malloc_small k h (page + 1) size in
    if is_malloced h.mem page
    then retry (try_malloc h (get_start_mem_by_page h page) size)
    else if is_page_free h.mem page
    then retry (try_malloc (open_page h page) (get_start_mem_by_page h page) size)
    else next

-- The loop of `malloc` for requests that take one page, by the rounds left.
pub malloc_page : ℕ → Heap → Ptr → Ptr × Heap
malloc_page zero h page = (null, h)
malloc_page (suc k) h page =
    let r = page_alloc h 1 in
    let failed = malloc_page k r.1 (page + 1) in
    let taken = malloc_page k h (page + 1) in
    if is_page_free h.mem page then if r.0 == null then failed else r else taken

-- The last branch of `malloc`: whole pages, the last of them managed by blocks if the rest is small.
pub malloc_large : Heap → ℕ → Ptr × Heap
malloc_large h size =
    let rest = size % page_size in
    let page_count = u32 (size / page_size + (if rest == 0 then 0 else 1)) in
    let r = page_alloc h page_count in
    let p = u64 (r.0 + (page_count - 1) * page_size) in
    let g = record r.1 { mem = malloc_init r.1.mem p } in
    let g' = record g { mem = set_page_flags g.mem (get_page_by_addr g p) page_malloc } in
    if ltb 0 rest && leb rest allocable_size && (if r.0 == null then false else true)
    then (r.0, (try_malloc g' p rest).1)
    else r

unfoldable pub malloc : Heap → ℕ → Ptr × Heap
unfolding malloc_small malloc_page malloc_large open_page
malloc h size =
    if size == 0
    then (null, h)
    else if leb size allocable_size
    then malloc_small h.num_pages h h.heap_start size
    else if leb size page_size
    then malloc_page h.num_pages h h.heap_start
    else malloc_large h size

-- How a call of `free` or `memcpy` ends; `panic` prints and then loops for ever.
pub data Outcome {ℓ} (A : Type ℓ) : Type ℓ where
  done : A → Outcome A
  panicked : Outcome A
  out_of_fuel : Outcome A

-- `while (!_is_page_last(page)) ++page`
pub last_page : ℕ → Memory → Ptr → Option Ptr
last_page zero m page = none
last_page (suc k) m page = elim (is_page_last m page) [
  | true ↦ some page
  | false ↦ last_page k m (page + 1)
]

-- The loop of `free` over the blocks.
pub release_blocks : ℕ → Memory → Ptr → Ptr → Option Memory
release_blocks zero m block_start block = none
release_blocks (suc k) m block_start block = elim (is_block_free m block) [
  | true ↦ some m
  | false ↦
      let m' =
        decrease_block_usage_of_malloc (update m block (m block / 2 ^ 6 * 2 ^ 6)) block_start in
      elim (is_block_last m block) [
        | true ↦ some m'
        | false ↦ release_blocks k m' block_start (block + 1)
      ]
]

pub end_previous_block : Memory → Ptr → Ptr → Memory
end_previous_block m block_start block =
    if is_block_first m block
    then m
    else let prev_block = block - 1 in
      if leb block_start prev_block && (if is_block_free m prev_block then false else true)
      then set_block_flags m prev_block block_last
      else m

-- `page_free`, as an outcome.
pub page_freed : Heap → Ptr → Outcome Heap
page_freed h p = elim (page_free h p) [ none ↦ out_of_fuel | some h' ↦ done h' ]

-- The part of `free` for a page that `malloc` manages.
pub free_blocks : ℕ → Heap → Ptr → Ptr → Outcome Heap
unfolding release_blocks end_previous_block page_freed
free_blocks fuel h page p =
    let block = get_block_by_addr h p in
    let block_start = get_start_block_by_addr (get_start_mem_by_addr h p) in
    elim (release_blocks fuel (end_previous_block h.mem block_start block) block_start block) [
      | none ↦ out_of_fuel
      | some m ↦
          if get_memory_usage_of_malloc m block_start == 0
          then (let g = record h { mem = update m page (u8 (bit_xor (m page) page_malloc)) } in
              page_freed g (get_start_mem_by_page g page))
          else done (record h { mem = m })
    ]

-- The end of `free`, for the page reached and the pointer it has then.
pub free_tail : ℕ → Heap → Ptr → Ptr → Outcome Heap
unfolding free_blocks
free_tail fuel h page p = if is_malloced h.mem page then free_blocks fuel h page p else done h

-- `p` is taken back to the start of its own page before the blocks are released.
unfoldable pub free : ℕ → Heap → Ptr → Outcome Heap
unfolding free_tail last_page
free fuel h p =
    let page = get_page_by_addr h p in
    if p == null || ltb p h.alloc_start || ltb h.alloc_end p
    then panicked
    else if is_malloced h.mem page
    then free_tail fuel h page p
    else elim (last_page fuel h.mem page) [
      | none ↦ out_of_fuel
      | some last ↦
          if is_malloced h.mem last
          then (let g = record h { mem = set_page_flags h.mem (last - 1) page_last } in
              elim (page_freed g p) [
                | done g' ↦ free_tail fuel g' last (get_start_mem_by_addr g' p)
                | panicked ↦ panicked
                | out_of_fuel ↦ out_of_fuel
              ])
          else page_freed h p
    ]

-- The two loops of `memcpy`, by the bytes left.
pub copy_up : ℕ → Memory → Ptr → Ptr → Memory
copy_up zero m dp sp = m
copy_up (suc n) m dp sp = copy_up n (update m dp (m sp)) (dp + 1) (sp + 1)

pub copy_down : ℕ → Memory → Ptr → Ptr → Memory
copy_down zero m dp sp = m
copy_down (suc n) m dp sp = copy_down n (update m (dp - 1) (m (sp - 1))) (dp - 1) (sp - 1)

unfoldable pub memcpy : Heap → Ptr → Ptr → ℕ → Outcome Heap
unfolding copy_up copy_down
memcpy h dest src n =
    if ltb dest h.alloc_start || ltb h.alloc_end (u64 (dest + n))
    then panicked
    else if dest == src
    then done h
    else if ltb dest src
    then done (record h { mem = copy_up n h.mem dest src })
    else done (record h { mem = copy_down n h.mem (dest + n) (src + n) })
