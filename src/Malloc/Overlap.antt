-- ===== src/Malloc/Overlap.antt =====
-- `_try_malloc` of os/page.c does not look at the last block of a candidate.
use xin_os.Base.{
  ℕ, ◌+◌, ◌-◌, ◌≤◌, ◌<◌, ◌≡◌, false, arith, ◌==◌, Bool-cases, inl, inr, sym, ◌∙◌, Ptr,
}
use mathlib.Core.Bool.{false≢true}
use xin_os.Page.{Heap}
use xin_os.Page.Layout.{IsLayout}
use xin_os.Malloc.{is_block_free, block_total, try_malloc}
use xin_os.Malloc.Usage.{CountBytes}
use xin_os.Malloc.Fit.{FreeBlocks, checked, block_total_lem}
use xin_os.Malloc.Fresh.{page_at, table_at, Served, refused, served, try_malloc-Served}

first_fits :
    (h : Heap) (k total : ℕ) (r : Ptr × Heap)
    → Served h k total r
    → total < 820
    → FreeBlocks h.mem (table_at h k) (checked total)
    → r.0 ≡ page_at h k
first_fits h k total r (refused none e) few f =
    absurd (none 0 (omega arith) (let z : table_at h k + 0 ≡ table_at h k = omega arith in rw z f))
first_fits h k total r (served j fits run none e _ _ _ _) few f = elim (Bool-cases (j == 0)) [
  | inl z ↦ ground (arith, e)
  | inr nz ↦
      absurd
        (none 0 (ground arith) (let z : table_at h k + 0 ≡ table_at h k = omega arith in rw z f))
]

-- A request of two blocks or more that finds all blocks but its last one free at the start of a
-- page is given the start of the page, although its blocks are not all free: the last is in use.
pub try_malloc-overlap :
    (h : Heap) (k size : ℕ)
    → IsLayout h
    → k < h.num_pages
    → CountBytes h.mem (table_at h k)
    → 4 < size
    → size ≤ 3276
    → FreeBlocks h.mem (table_at h k) (block_total size - 1)
    → is_block_free h.mem (table_at h k + (block_total size - 1)) ≡ false
    → ((try_malloc h (page_at h k) size).0 ≡ page_at h k)
      × ¬ FreeBlocks h.mem (table_at h k) (block_total size)
try_malloc-overlap h k size lay room c big small f used =
    let b = block_total_lem size (omega arith) small in
    (
      first_fits h k (block_total size) _
          (try_malloc-Served h k size lay room c (omega arith) small) (omega (arith, b.1))
          (λ j l. f j (ground (arith, b))),
      λ all. false≢true (sym used ∙ all (block_total size - 1) (omega (arith, b.0))),
    )
