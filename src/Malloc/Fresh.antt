-- ===== src/Malloc/Fresh.antt =====
-- `_try_malloc` and `malloc` of os/page.c: what a request gets, and that a fresh page serves every
-- small request.
use xin_os.Base.{
  ℕ, ◌+◌, ◌-◌, ◌*◌, ◌≤◌, ◌<◌, ◌≡◌, refl, ◌⊎◌, inl, inr, true, false, ◌%◌, ◌∙◌, arith, ◌==◌,
  Bool-cases, Ptr, null, Memory, ap,
}
use xin_os.Page.{Heap, get_start_mem_by_addr, get_start_mem_by_page}
use xin_os.Page.Layout.{IsLayout}
use xin_os.Malloc.{
  malloc_init, get_start_block_by_addr, get_memory_usage_of_malloc, block_total, take_block_run,
  try_malloc,
}
use xin_os.Malloc.Usage.{CountBytes}
use xin_os.Malloc.Fit.{
  FreeBlocks, checked, Fit, missed, found, find_blocks-Fit, block_rounds_lem, block_total_lem,
}
use xin_os.Malloc.Init.{
  malloc_init_at, fresh-CountBytes, fresh_usage, fresh_free, table_entry, marked_entry,
}
use xin_os.Malloc.Marks.{MarkedBlocks, take_block_run-MarkedBlocks}
use xin_os.Malloc.Take.{Took, TakenBlocks, take_block_run-Took}

-- The address and the block table of page `k`.
abbrev pub page_at : Heap → ℕ → Ptr
page_at h k = h.alloc_start + k * 4096

abbrev pub table_at : Heap → ℕ → Ptr
table_at h k = page_at h k + 3275

module _ (h : Heap) (lay : IsLayout h) (k : ℕ) (room : k < h.num_pages) where
  pub start_of_page : get_start_mem_by_addr h (page_at h k) ≡ page_at h k
  unfolding get_start_mem_by_addr
  start_of_page = omega arith

  pub start_of_entry : get_start_mem_by_page h (h.heap_start + k) ≡ page_at h k
  unfolding get_start_mem_by_page
  start_of_entry = omega arith

-- The outcome of `_try_malloc` in page `k` for a request of `total` blocks: NULL and nothing
-- written, if no candidate passes; or the address of the first candidate whose entries pass, all of
-- its blocks taken and counted, the first and the last one marked, no taken block freed, and nothing
-- else written.
pub data Served (h : Heap) (k total : ℕ) (r : Ptr × Heap) : Type 0 where
  refused :
      ((j : ℕ) → j + total < 820 → ¬ FreeBlocks h.mem (table_at h k + j) (checked total))
      → r ≡ (null, h)
      → Served h k total r
  served :
      (j : ℕ)
      → j + total < 820
      → FreeBlocks h.mem (table_at h k + j) (checked total)
      → ((l : ℕ) → l < j → ¬ FreeBlocks h.mem (table_at h k + l) (checked total))
      → r.0 ≡ page_at h k + j * 4
      → r.1 ≡ record h { mem = r.1.mem }
      → Took h.mem (table_at h k) (table_at h k + j) total total r.1.mem
      → TakenBlocks r.1.mem (table_at h k + j) total
      → MarkedBlocks h.mem (table_at h k) (table_at h k + j) total r.1.mem
      → Served h k total r

Served-of_Fit :
    (h : Heap) (k total : ℕ) (r : Ptr × Memory)
    → CountBytes h.mem (table_at h k)
    → 0 < total
    → Fit h.mem (page_at h k) (table_at h k) total 0 (820 - total) r
    → Served h k total (r.0, record h { mem = r.1 })
Served-of_Fit h k total r c pos (missed none e) =
    refused (λ j l. let z : 0 + j ≡ j = omega arith in rw z at (none j (omega arith)))
      (ap (λ (q : Ptr × Memory). (q.0, record h { mem = q.1 })) e)
Served-of_Fit h k total r c pos (found j l run none e) =
    let z : 0 + j ≡ j = omega arith in
    let e' : r
        ≡ (page_at h k + j * 4, take_block_run h.mem (table_at h k) (table_at h k + j) total) =
      rw z at e in
    let m = take_block_run h.mem (table_at h k) (table_at h k + j) total in
    let (took, taken) =
      take_block_run-Took h.mem (table_at h k) (table_at h k + j) total c pos (omega arith) in
    let s : r.1 ≡ m = ap (λ (q : Ptr × Memory). q.1) e' in
    served j (omega arith) (rw z at run)
      (λ i b. let y : 0 + i ≡ i = omega arith in rw y at (none i b))
      (ap (λ (q : Ptr × Memory). q.0) e') refl (rw s took) (rw s taken)
      (rw s (
        take_block_run-MarkedBlocks h.mem (table_at h k) (table_at h k + j) total pos
          (omega arith)))

-- `_try_malloc` for 1 to 3276 bytes, at the start of a page of a laid-out heap whose block count is two
-- bytes, is first fit by the blocks that it tests, which are all but the last one of a request of
-- several: at the first place where these are free it returns that place's address, marks all blocks of
-- the request as taken, the first one as first and the last one as last, and counts them, with no other
-- flag changed; without such a place it returns NULL and changes nothing.
pub try_malloc-Served :
    (h : Heap) (k size : ℕ)
    → IsLayout h
    → k < h.num_pages
    → CountBytes h.mem (table_at h k)
    → 0 < size
    → size ≤ 3276
    → Served h k (block_total size) (try_malloc h (page_at h k) size)
unfolding try_malloc get_start_block_by_addr
try_malloc-Served h k size lay room c pos small =
    let (some_block, few, _, _) = block_total_lem size pos small in
    let nz : (block_total size == 0) ≡ false = ground arith in
    let b : page_at h k + 3276 - 1 ≡ table_at h k = omega arith in
    rw (start_of_page h lay k room, nz, block_rounds_lem (block_total size) (omega arith), b)
      (Served-of_Fit h k (block_total size) _ c some_block (
        find_blocks-Fit h.mem (page_at h k) (table_at h k) (block_total size)
          (820 - block_total size) 0 (table_at h k) some_block (omega arith)))

-- A small request in a page whose table has just been cleared: it gets the start of the page, and
-- its blocks are the ones counted and the only ones taken. The last entry is the count.
pub record FreshServed (h : Heap) (k size : ℕ) (r : Ptr × Heap) : Type 0 where
  pub address : r.0 ≡ page_at h k
  pub counted : get_memory_usage_of_malloc r.1.mem (table_at h k) ≡ block_total size
  pub taken : TakenBlocks r.1.mem (table_at h k) (block_total size)
  pub entries :
      (j : ℕ) → j < 819 → r.1.mem (table_at h k + j) % 64 ≡ table_entry (block_total size) j
  pub same : (a : Ptr) → a < table_at h k → r.1.mem a ≡ h.mem a
  pub frame : r.1 ≡ record h { mem = r.1.mem }

module _ (h : Heap) (k size : ℕ) (pos : 0 < size) (small : size ≤ 3276) where
  abbrev fresh : Heap
  fresh = record h { mem = malloc_init h.mem (page_at h k) }

  fresh_of_Served : (r : Ptr × Heap) → Served fresh k (block_total size) r → FreshServed h k size r
  fresh_of_Served r (refused none e) =
      let (some_block, few, _, _) = block_total_lem size pos small in
      absurd (
        none 0 (omega arith) (
          let z : table_at h k + 0 ≡ table_at h k = omega arith in
          rw z (fresh_free h.mem (page_at h k) (checked (block_total size)) (ground arith))))
  fresh_of_Served r (served j fits run none e f took taken marks) = go (Bool-cases (j == 0))
    where
      bounds : (0 < block_total size) × (block_total size ≤ 819)
      bounds = ((block_total_lem size pos small).0, (block_total_lem size pos small).1)

      go : ((j == 0) ≡ true) ⊎ ((j == 0) ≡ false) → FreshServed h k size r
      go (inr nz) = absurd (
          none 0 (ground arith) (
            let z : table_at h k + 0 ≡ table_at h k = omega arith in
            rw z (
              fresh_free h.mem (page_at h k) (checked (block_total size))
                (ground (arith, bounds)))))
      go (inl z) =
          let e0 : table_at h k + j ≡ table_at h k = ground arith in
          record {
            address = ground (arith, e);
            counted = omega (arith, took.count, fresh_usage h.mem (page_at h k), bounds);
            taken = rw e0 at taken;
            entries = λ i l.
                marked_entry h.mem (page_at h k) (block_total size) r.1.mem bounds.0 bounds.1
                  (rw e0 at marks) i l;
            same = λ a l.
                took.frame a (inl (omega arith)) (omega arith) (omega arith)
                ∙ ground (arith, malloc_init_at h.mem (page_at h k) a);
            frame = f;
          }

  pub try_malloc-fresh :
      IsLayout h → k < h.num_pages → FreshServed h k size (try_malloc fresh (page_at h k) size)
  try_malloc-fresh lay room = fresh_of_Served _ (
      try_malloc-Served fresh k size
        (record {
          table_pos = lay.table_pos;
          table_below = lay.table_below;
          aligned = lay.aligned;
          pages_end = lay.pages_end;
          pages_few = lay.pages_few;
          fits = lay.fits;
        })
        room (fresh-CountBytes h.mem (page_at h k)) pos small)
