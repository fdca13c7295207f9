-- ===== src/Page/Tidy.antt =====
-- The invariant of the page table of os/page.c, and that `page_init` and `page_alloc` keep it.
use xin_os.Base.{
  ℕ, ◌+◌, ◌-◌, ◌*◌, ◌^◌, ◌≤◌, ◌<◌, ◌≡◌, ◌⊎◌, inl, inr, true, false, arith, Bool-cases,
  if◌then◌else◌, Ptr, null, Memory, ap, signed_ltb,
}
use xin_os.Page.{Heap, is_page_free, is_page_last, is_page_first, take_run, page_alloc}
use xin_os.Page.Flags.{free_eq, last_eq, first_eq}
use xin_os.Page.Layout.{IsLayout}
use xin_os.Page.Run.{in_run, marked, take_run-marked}
use xin_os.Page.Search.{FreeRun, FirstFit, nothing, first, page_alloc-FirstFit}

-- A free entry has no flags, and a taken entry that is not the last of its run is followed, inside
-- the table, by a taken entry that starts no run.
pub record Tidy (m : Memory) (lo hi : Ptr) : Type 0 where
  pub clean : (a : Ptr) → lo ≤ a → a < hi → is_page_free m a ≡ true → m a ≡ 0
  pub closed :
      (a : Ptr)
      → lo ≤ a
      → a < hi
      → is_page_free m a ≡ false
      → is_page_last m a ≡ false
      → (a + 1 < hi) × (is_page_free m (a + 1) ≡ false) × (is_page_first m (a + 1) ≡ false)

abbrev pub IsTidy : Heap → Type 0
IsTidy h = Tidy h.mem h.heap_start (h.heap_start + h.num_pages)

pub in_run_free :
    (m : Memory) (p : Ptr) (n : ℕ)
    → FreeRun m p n
    → (a : Ptr) → in_run p n a ≡ true
    → is_page_free m a ≡ true
in_run_free m p n f a e =
    let k : p + (a - p) ≡ a = ground arith in rw k at (f (a - p) (ground arith))

module _ (m m' : Memory) (lo hi p : Ptr) (n : ℕ) (t : Tidy m lo hi) (low : lo ≤ p)
    (high : p + n ≤ hi) (run : FreeRun m p n)
    (eq : (a : Ptr) → m' a ≡ (if in_run p n a then marked p n a else m a)) where
  mark-clean : (a : Ptr) → lo ≤ a → a < hi → is_page_free m' a ≡ true → m' a ≡ 0
  unfolding marked
  mark-clean a l u f = ground (arith, free_eq m' a, free_eq m a, eq a, t.clean a l u)

  mark-closed :
      (a : Ptr)
      → lo ≤ a
      → a < hi
      → is_page_free m' a ≡ false
      → is_page_last m' a ≡ false
      → (a + 1 < hi) × (is_page_free m' (a + 1) ≡ false) × (is_page_first m' (a + 1) ≡ false)
  unfolding marked
  mark-closed a l u f g = ground (
    arith,
    eq a,
    eq (a + 1),
    free_eq m' a,
    last_eq m' a,
    free_eq m a,
    last_eq m a,
    free_eq m' (a + 1),
    first_eq m' (a + 1),
    free_eq m (a + 1),
    first_eq m (a + 1),
    t.closed a l u,
    in_run_free m p n run (a + 1),
  )

  mark-Tidy : Tidy m' lo hi
  mark-Tidy = record { clean = mark-clean; closed = mark-closed }

take_run-eq :
    (h : Heap) (p : Ptr) (n : ℕ)
    → IsTidy h
    → 0 < n
    → h.heap_start ≤ p
    → p + n ≤ h.heap_start + h.num_pages
    → FreeRun h.mem p n
    → (a : Ptr) → take_run h.mem p n a ≡ (if in_run p n a then marked p n a else h.mem a)
take_run-eq h p n t pos low high run =
    take_run-marked h.mem p n pos
      λ a e. t.clean a (ground arith) (ground arith) (in_run_free h.mem p n run a e)

-- What a successful `page_alloc` writes.
pub data Allocated (h : Heap) (n : ℕ) (r : Ptr × Heap) : Type 0 where
  allocated :
      (i : ℕ)
      → i + n ≤ h.num_pages
      → FreeRun h.mem (h.heap_start + i) n
      → r.0 ≡ h.alloc_start + i * 4096
      → (m : Memory)
      → ((a : Ptr)
          → m a
            ≡ (if in_run (h.heap_start + i) n a then marked (h.heap_start + i) n a else h.mem a))
      → r.1 ≡ record h { mem = m }
      → Allocated h n r

-- `page_alloc` of a positive number of pages either returns NULL and changes nothing, or returns
-- the address of a run of pages that were free, whose entries become taken with the first and the
-- last one marked; no other byte of the memory changes.
pub page_alloc-Allocated :
    (h : Heap) (n : ℕ)
    → IsLayout h
    → IsTidy h
    → 0 < n
    → n < 2 ^ 31
    → (page_alloc h n ≡ (null, h)) ⊎ Allocated h n (page_alloc h n)
page_alloc-Allocated h n lay t pos small = go (page_alloc-FirstFit h n lay pos small)
  where
    go :
        FirstFit h n (page_alloc h n)
        → (page_alloc h n ≡ (null, h)) ⊎ Allocated h n (page_alloc h n)
    go (nothing _ e) = inl e
    go (first i room run _ e s _) = inr (
        allocated i room run e _
          (take_run-eq h (h.heap_start + i) n t pos (omega arith) (omega arith) run) s)

Allocated-IsTidy : (h : Heap) (n : ℕ) (r : Ptr × Heap) → IsTidy h → Allocated h n r → IsTidy r.1
Allocated-IsTidy h n r t (allocated i room run e m eq s) =
    rw s (mark-Tidy h.mem m _ _ (h.heap_start + i) n t (omega arith) (omega arith) run eq)

-- On a heap as `page_init` lays it out, `page_alloc` keeps the table tidy, whatever `npages` is.
pub page_alloc-IsTidy :
    (h : Heap) (n : ℕ) → IsLayout h → IsTidy h → n < 2 ^ 32 → IsTidy (page_alloc h n).1
unfolding page_alloc
page_alloc-IsTidy h n lay t small = elim (Bool-cases (signed_ltb n 1)) [
  | inl neg ↦ rw neg t
  | inr pos ↦ elim (page_alloc-Allocated h n lay t (ground arith) (ground arith)) [
    | inl e ↦ rw (ap (λ (q : Ptr × Heap). q.1) e) t
    | inr a ↦ Allocated-IsTidy h n _ t a
  ]
]
