-- ===== src/Malloc/Inside.antt =====
-- Where the memory lies that `malloc` of os/page.c returns, for every size and any heap.
use xin_os.Base.{
  ℕ, zero, suc, ◌+◌, ◌-◌, ◌*◌, ◌/◌, ◌%◌, ◌^◌, ◌≤◌, ◌<◌, ◌≡◌, refl, ap, sym, subst, ◌⊎◌, inl, inr,
  true, false, ◌&&◌, Bool-cases, arith, ltb, leb, ◌==◌, if◌then◌else◌, Ptr, null, Memory, u32,
}
use xin_os.Page.{Heap, page_size, get_start_mem_by_page, is_malloced, is_page_free, page_alloc}
use xin_os.Page.Layout.{IsLayout}
use xin_os.Page.Search.{FirstFit, nothing, first, page_alloc-FirstFit}
use xin_os.Malloc.{
  allocable_size, try_malloc, open_page, malloc_small, malloc_page, malloc_large, malloc,
  block_total,
}
use xin_os.Malloc.Fit.{block_total_lem}
use xin_os.Malloc.Fresh.{page_at, start_of_entry}
use xin_os.Malloc.Release.{Found, with_blocks, try_malloc-Found}

-- NULL, or `size` bytes from the pages of the heap.
abbrev pub InHeap : Heap → ℕ → Ptr → Type 0
InHeap h size p = (p ≡ null) ⊎ ((h.alloc_start ≤ p) × (p + size ≤ h.alloc_end))

IsLayout-mem : (h : Heap) (m : Memory) → IsLayout h → IsLayout (record h { mem = m })
IsLayout-mem h m lay = record {
  table_pos = lay.table_pos;
  table_below = lay.table_below;
  aligned = lay.aligned;
  pages_end = lay.pages_end;
  pages_few = lay.pages_few;
  fits = lay.fits;
}

Found-InHeap :
    (h : Heap) (k size : ℕ) (r : Ptr × Heap)
    → IsLayout h
    → k < h.num_pages
    → 0 < size
    → size ≤ 3276
    → Found h k (block_total size) r
    → InHeap h size r.0
Found-InHeap h k size r lay room pos small (inl e) = inl (ap (λ (q : Ptr × Heap). q.0) e)
Found-InHeap h k size r lay room pos small (inr (j, fits, e)) =
    let (_, _, enough, _) = block_total_lem size pos small in
    let p : r.0 ≡ page_at h k + j * 4 = ap (λ (q : Ptr × Heap). q.0) e in
    inr (omega (arith, p), omega (arith, p, enough, fits, room, lay.pages_end))

-- One page of the search: what it found, or what the rest of the search finds on the heap as it is.
retry-InHeap :
    (h : Heap) (k size : ℕ) (r rest : Ptr × Heap)
    → IsLayout h
    → k < h.num_pages
    → 0 < size
    → size ≤ 3276
    → Found h k (block_total size) r
    → InHeap h size rest.0
    → InHeap h size (if r.0 == null then rest else r).0
retry-InHeap h k size r rest lay room pos small f h' = elim (Bool-cases (r.0 == null)) [
  | inl e ↦ rw e h'
  | inr e ↦ rw e (Found-InHeap h k size r lay room pos small f)
]

-- Only the memory differs behind it.
Found-heap :
    (h : Heap) (k total : ℕ) (r : Ptr × Heap)
    → Found h k total r
    → (m : Memory) × (r.1 ≡ record h { mem = m })
Found-heap h k total r (inl e) = (h.mem, ap (λ (q : Ptr × Heap). q.1) e)
Found-heap h k total r (inr (j, fits, e)) =
    ((with_blocks h k j total).mem, ap (λ (q : Ptr × Heap). q.1) e)

-- `malloc_small` on a heap that differs in the memory only, as the rest of a search finds it.
abbrev RestInHeap : ℕ → Heap → Ptr → ℕ → Type 0
RestInHeap k h page size =
    (m : Memory) → InHeap h size (malloc_small k (record h { mem = m }) page size).0

module _ (k : ℕ) (h : Heap) (j size : ℕ) (lay : IsLayout h) (room : j < h.num_pages)
    (pos : 0 < size) (small : size ≤ 3276) (rest : RestInHeap k h (h.heap_start + j + 1) size) where
  abbrev page : Ptr
  page = h.heap_start + j

  -- The page is managed by `malloc`, in the heap with the memory `m`.
  tried :
      (m : Memory)
      → (let g : Heap = record h { mem = m } in
          let r = try_malloc g (get_start_mem_by_page h page) size in
          InHeap h size (if r.0 == null then malloc_small k r.1 (page + 1) size else r).0)
  tried m =
      let g : Heap = record h { mem = m } in
      let layg = IsLayout-mem h m lay in
      let r = try_malloc g (get_start_mem_by_page h page) size in
      let f : Found g j (block_total size) r =
        subst (λ p. Found g j (block_total size) (try_malloc g p size))
          (sym (start_of_entry h lay j room)) (try_malloc-Found g j size layg room pos small) in
      let (m', e) = Found-heap g j (block_total size) r f in
      retry-InHeap g j size r (malloc_small k r.1 (page + 1) size) layg room pos small f (
        subst (λ (g' : Heap). InHeap h size (malloc_small k g' (page + 1) size).0) (sym e)
          (rest m'))

  small_step : InHeap h size (malloc_small (suc k) h page size).0
  unfolding malloc_small open_page
  small_step = elim (Bool-cases (is_malloced h.mem page)) [
    | inl yep ↦ rw yep (tried h.mem)
    | inr nope ↦ elim (Bool-cases (is_page_free h.mem page)) [
      | inl yep ↦ rw (nope, yep) (tried (open_page h page).mem)
      | inr taken ↦ rw (nope, taken) (rest h.mem)
    ]
  ]

malloc_small-InHeap :
    (k : ℕ) (h : Heap) (j size : ℕ)
    → IsLayout h
    → j + k ≤ h.num_pages
    → 0 < size
    → size ≤ 3276
    → InHeap h size (malloc_small k h (h.heap_start + j) size).0
unfolding malloc_small
malloc_small-InHeap zero h j size lay room pos small = inl refl
malloc_small-InHeap (suc k) h j size lay room pos small =
    let e : h.heap_start + (j + 1) ≡ h.heap_start + j + 1 = omega arith in
    small_step k h j size lay (omega (arith, room)) pos small (λ m.
      subst (λ p. InHeap h size (malloc_small k (record h { mem = m }) p size).0) e
        (malloc_small-InHeap k (record h { mem = m }) (j + 1) size (IsLayout-mem h m lay)
          (omega (arith, room)) pos small))

-- Whole pages.
FirstFit-InHeap :
    (h : Heap) (n size : ℕ) (r : Ptr × Heap)
    → IsLayout h
    → size ≤ n * 4096
    → FirstFit h n r
    → InHeap h size r.0
FirstFit-InHeap h n size r lay few (nothing no_run e) = inl (ap (λ (q : Ptr × Heap). q.0) e)
FirstFit-InHeap h n size r lay few (first i room run earlier p e _) =
    inr (omega (arith, p), omega (arith, p, room, few, lay.pages_end))

FirstFit-same :
    (h : Heap) (n : ℕ) (r : Ptr × Heap)
    → IsLayout h
    → FirstFit h n r
    → (r.0 == null) ≡ true
    → r.1 ≡ h
FirstFit-same h n r lay (nothing no_run e) z = ap (λ (q : Ptr × Heap). q.1) e
FirstFit-same h n r lay (first i room run earlier p e _) z =
    absurd (ground (arith, p, z, lay.table_pos, lay.table_below))

malloc_page-InHeap :
    (k : ℕ) (h : Heap) (page : Ptr) (size : ℕ)
    → IsLayout h
    → size ≤ 4096
    → InHeap h size (malloc_page k h page).0
unfolding malloc_page
malloc_page-InHeap zero h page size lay small = inl refl
malloc_page-InHeap (suc k) h page size lay small =
    let f = page_alloc-FirstFit h 1 lay (omega arith) (omega arith) in
    let on = malloc_page-InHeap k h (page + 1) size lay small in
    elim (Bool-cases (is_page_free h.mem page)) [
      | inr taken ↦ rw taken on
      | inl yep ↦ elim (Bool-cases ((page_alloc h 1).0 == null)) [
        | inl failed ↦
            rw (yep, failed)
              (subst (λ (g : Heap). InHeap h size (malloc_page k g (page + 1)).0)
                (sym (FirstFit-same h 1 (page_alloc h 1) lay f failed)) on)
        | inr got ↦
            rw (yep, got) (FirstFit-InHeap h 1 size (page_alloc h 1) lay (omega (arith, small)) f)
      ]
    ]

malloc_large-InHeap :
    (h : Heap) (size : ℕ)
    → IsLayout h
    → 0 < size
    → size < 2 ^ 43 - 4096
    → InHeap h size (malloc_large h size).0
unfolding malloc_large
malloc_large-InHeap h size lay pos small =
    let rest = size % page_size in
    let n = u32 (size / page_size + (if rest == 0 then 0 else 1)) in
    let bounds : (0 < n) × (n < 2 ^ 31) × (size ≤ n * 4096) = ground arith in
    let r = page_alloc h n in
    let f =
      FirstFit-InHeap h n size r lay bounds.2 (page_alloc-FirstFit h n lay bounds.0 bounds.1) in
    elim (Bool-cases
      (ltb 0 rest && leb rest allocable_size && (if r.0 == null then false else true))) [
        | inl yep ↦ rw yep f
        | inr nope ↦ rw nope f
      ]

-- Whatever the pages hold, `malloc` returns NULL, or the address of `size` bytes that all lie in the
-- pages of the heap. The size is below 2 ^ 43 - 4096.
pub malloc-InHeap :
    (h : Heap) (size : ℕ) → IsLayout h → size < 2 ^ 43 - 4096 → InHeap h size (malloc h size).0
unfolding malloc
malloc-InHeap h size lay small = elim (Bool-cases (size == 0)) [
  | inl e ↦ rw e (inl refl)
  | inr pos ↦ elim (Bool-cases (leb size allocable_size)) [
    | inl few ↦
        (let e : h.heap_start + 0 ≡ h.heap_start = omega arith in
          rw (pos, few)
            (subst (λ p. InHeap h size (malloc_small h.num_pages h p size).0) e
              (malloc_small-InHeap h.num_pages h 0 size lay (omega arith) (ground arith)
                (ground arith))))
    | inr many ↦ elim (Bool-cases (leb size page_size)) [
      | inl one ↦
          rw (pos, many, one)
            (malloc_page-InHeap h.num_pages h h.heap_start size lay (ground (arith, one)))
      | inr large ↦
          rw (pos, many, large) (malloc_large-InHeap h size lay (ground (arith, pos)) small)
    ]
  ]
]

-- For 2 ^ 44 bytes more than `n` pages, `malloc` takes only `n` pages: the number of pages does not fit
-- the `int` that holds it. Here 0 < n < 2 ^ 31.
pub malloc-page_alloc :
    (h : Heap) (n : ℕ) → 0 < n → n < 2 ^ 31 → malloc h (2 ^ 44 + n * 4096) ≡ page_alloc h n
unfolding malloc malloc_large
malloc-page_alloc h n pos small =
    let size = 2 ^ 44 + n * 4096 in
    let z : (size == 0) ≡ false = ground arith in
    let many : leb size allocable_size ≡ false = ground arith in
    let large : leb size page_size ≡ false = ground arith in
    let whole : size % page_size ≡ 0 = omega arith in
    let count : u32 (size / page_size + 0) ≡ n = omega (arith, small) in
    rw (z, many, large, whole, count) refl
