-- ===== src/Malloc/Release.antt =====
-- `free` of os/page.c for blocks that `_try_malloc` has just handed out.
use xin_os.Base.{
  ℕ, ◌+◌, ◌-◌, ◌*◌, ◌%◌, ◌≤◌, ◌<◌, ◌≡◌, ◌≢◌, refl, ap, sym, ◌∙◌, ◌⊎◌, inl, inr, true, false, ◌||◌,
  arith, ltb, ◌==◌, if◌then◌else◌, Ptr, null, Memory, update, bit_xor, u8,
}
use xin_os.Page.{
  Heap, page_malloc, is_malloced, get_page_by_addr, get_start_mem_by_addr, get_start_mem_by_page,
}
use xin_os.Page.Layout.{IsLayout}
use xin_os.Page.Run.{in_run}
use xin_os.Malloc.{
  get_memory_usage_of_malloc, take_block_run, block_total, try_malloc, free, free_tail, free_blocks,
  end_previous_block, page_freed, is_block_first, get_block_by_addr, get_start_block_by_addr,
  Outcome, done, low_block, high_block,
}
use xin_os.Malloc.Take.{block_first_eq, take_block_run-Took}
use xin_os.Malloc.Fresh.{page_at, table_at, start_of_page}
use xin_os.Malloc.Fit.{Fit, missed, found, find_blocks-Fit, block_rounds_lem, block_total_lem}
use xin_os.Malloc.Looks.{IsBytes, Looks-same}
use xin_os.Malloc.Return.{mark, take_block_run-Looks, release-take}

-- The blocks `j` to `j + n` of page `k` are taken.
abbrev pub with_blocks : Heap → (k j n : ℕ) → Heap
with_blocks h k j n = record h { mem = take_block_run h.mem (table_at h k) (table_at h k + j) n }

-- The end of `free`: a page without blocks in use goes back.
abbrev pub last_out : Heap → ℕ → Outcome Heap
last_out h k =
    if get_memory_usage_of_malloc h.mem (table_at h k) == 0
    then (let page = h.heap_start + k in
        let g = record h { mem = update h.mem page (u8 (bit_xor (h.mem page) page_malloc)) } in
        page_freed g (get_start_mem_by_page g page))
    else done h

module _ (h : Heap) (lay : IsLayout h) (k : ℕ) (room : k < h.num_pages) (j n : ℕ) (pos : 0 < n)
    (fits : j + n < 820) (ok : IsBytes h.mem)
    (clean : (a : Ptr) → in_run (table_at h k + j) n a ≡ true → h.mem a % 64 ≡ 0) where
  abbrev address : Ptr
  address = page_at h k + j * 4

  abbrev page : Ptr
  page = h.heap_start + k

  abbrev taken : Heap
  taken = with_blocks h k j n

  start_of : get_start_mem_by_addr taken address ≡ page_at h k
  unfolding get_start_mem_by_addr
  start_of = omega (arith, lay.fits, lay.pages_end, lay.pages_few)

  page_of : get_page_by_addr taken address ≡ page
  unfolding get_page_by_addr
  page_of = rw start_of (omega (arith, lay.fits, lay.pages_end, lay.pages_few))

  block_of : get_block_by_addr taken address ≡ table_at h k + j
  unfolding get_block_by_addr get_start_block_by_addr
  block_of = rw start_of (omega arith)

  is_first : is_block_first taken.mem (table_at h k + j) ≡ true
  is_first =
      let b = table_at h k in
      let t = b + j in
      let run = in_run t n t in
      let l =
        take_block_run-Looks h.mem b h.mem t n 0 _ pos (omega arith) clean
          (Looks-same h.mem b ok) in
      let i : in_run t n t ≡ true = ground arith in
      let f : taken.mem t % 64 ≡ mark t n t = l.flags t (omega arith) ∙ rw i refl in
      ground (arith, block_first_eq taken.mem t, f)

  same_page : is_malloced taken.mem page ≡ is_malloced h.mem page
  unfolding is_malloced
  same_page =
      let b = table_at h k in
      let t =
        take_block_run-Took h.mem b (b + j) n
          (record { low = ok (low_block b); high = ok (high_block b) }) pos (omega arith) in
      let same =
        t.0.frame page (inl (omega (arith, lay.table_below))) (omega (arith, lay.table_below))
          (omega (arith, lay.table_below)) in
      rw (is_malloced, same) refl

  -- Freeing the blocks leaves the heap from before they were taken, or frees the page if no other
  -- block of it was in use.
  pub free-taken :
      (fuel : ℕ) → n ≤ fuel → is_malloced h.mem page ≡ true → free fuel taken address ≡ last_out h k
  unfolding free free_tail free_blocks end_previous_block get_start_block_by_addr
  free-taken fuel enough managed =
      let b = table_at h k in
      let in_heap : (address == null || ltb address h.alloc_start || ltb h.alloc_end address)
          ≡ false =
        ground (arith, lay.table_pos, lay.table_below, lay.pages_end) in
      let start : page_at h k + 3276 - 1 ≡ b = omega arith in
      let table_of : get_start_block_by_addr (get_start_mem_by_addr taken address) ≡ b =
        rw start_of (omega arith) in
      let back = release-take fuel h.mem b (b + j) n pos enough (omega arith) ok clean in
      rw (free, page_of, in_heap, same_page, managed)
        (rw (free_blocks, block_of, start_of, start, is_first, back) (rw table_of refl))

-- What `_try_malloc` returns: nothing, or the first blocks of a run and the heap in which it is taken.
abbrev pub Found : Heap → (k total : ℕ) → Ptr × Heap → Type 0
Found h k total r =
    (r ≡ (null, h))
    ⊎ ((j : ℕ) × (j + total < 820) × (r ≡ (page_at h k + j * 4, with_blocks h k j total)))

Found-of_Fit :
    (h : Heap) (k total : ℕ) (r : Ptr × Memory)
    → Fit h.mem (page_at h k) (table_at h k) total 0 (820 - total) r
    → Found h k total (r.0, record h { mem = r.1 })
Found-of_Fit h k total r (missed no_place e) =
    inl (ap (λ (q : Ptr × Memory). (q.0, record h { mem = q.1 })) e)
Found-of_Fit h k total r (found j l run earlier e) =
    let z : 0 + j ≡ j = omega arith in
    let e' : r
        ≡ (page_at h k + j * 4, take_block_run h.mem (table_at h k) (table_at h k + j) total) =
      rw z at e in
    inr (j, omega arith, ap (λ (q : Ptr × Memory). (q.0, record h { mem = q.1 })) e')

pub try_malloc-Found :
    (h : Heap) (k size : ℕ)
    → IsLayout h
    → k < h.num_pages
    → 0 < size
    → size ≤ 3276
    → Found h k (block_total size) (try_malloc h (page_at h k) size)
unfolding try_malloc get_start_block_by_addr
try_malloc-Found h k size lay room pos small =
    let (some_block, few, _, _) = block_total_lem size pos small in
    let nz : (block_total size == 0) ≡ false = ground arith in
    let b : page_at h k + 3276 - 1 ≡ table_at h k = omega arith in
    rw (start_of_page h lay k room, nz, block_rounds_lem (block_total size) (omega arith), b)
      (Found-of_Fit h k (block_total size) _ (
        find_blocks-Fit h.mem (page_at h k) (table_at h k) (block_total size)
          (820 - block_total size) 0 (table_at h k) some_block (omega arith)))

-- On a laid-out heap of bytes, `free` of what `_try_malloc` has just returned for 1 to 3276 bytes,
-- from blocks without flags in a page that `malloc` manages, gives the heap back byte for byte as
-- it was before; if no block of the page was in use then, the page itself is freed.
pub free-try_malloc :
    (fuel : ℕ) (h : Heap) (k size : ℕ) (p : Ptr) (h' : Heap)
    → IsLayout h
    → k < h.num_pages
    → IsBytes h.mem
    → 0 < size
    → size ≤ 3276
    → is_malloced h.mem (h.heap_start + k) ≡ true
    → try_malloc h (page_at h k) size ≡ (p, h')
    → p ≢ null
    → ((j : ℕ)
        → p ≡ page_at h k + j * 4
        → (a : Ptr) → in_run (table_at h k + j) (block_total size) a ≡ true
        → h.mem a % 64 ≡ 0)
    → 819 ≤ fuel
    → free fuel h' p ≡ last_out h k
free-try_malloc fuel h k size p h' lay room ok pos small managed e nz clean enough =
    let (some_block, few, _, _) = block_total_lem size pos small in
    elim (try_malloc-Found h k size lay room pos small) [
      | inl refused ↦ absurd (nz (ap (λ (r : Ptr × Heap). r.0) (sym e ∙ refused)))
      | inr (j, fits, got) ↦
          let r = sym e ∙ got in
          let ep : p ≡ page_at h k + j * 4 = ap (λ (q : Ptr × Heap). q.0) r in
          let eh : h' ≡ with_blocks h k j (block_total size) = ap (λ (q : Ptr × Heap). q.1) r in
          ap (λ (q : Ptr). free fuel h' q) ep
          ∙ ap (λ (g : Heap). free fuel g (page_at h k + j * 4)) eh
          ∙ free-taken h lay k room j (block_total size) some_block fits ok (clean j ep) fuel
              (omega (arith, few, enough)) managed
    ]
