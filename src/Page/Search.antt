-- ===== src/Page/Search.antt =====
-- The search of `page_alloc` in os/page.c: first fit, and NULL only if nothing fits.
use xin_os.Base.{
  ℕ, zero, suc, ◌+◌, ◌-◌, ◌*◌, ◌^◌, ◌≤◌, ◌<◌, ◌≡◌, refl, inl, inr, true, false, ◌&&◌, arith,
  Bool-cases, Ptr, null, Memory, u64, signed_ltb, ap, ◌∙◌, sym, subst,
}
use xin_os.Page.{Heap, is_page_free, rest_free, take_run, find_pages, search_rounds, page_alloc}
use xin_os.Page.Layout.{IsLayout}
use xin_os.Page.Run.{MarkedRun, take_run-MarkedRun}

-- The `n` table entries from `p` on are free.
abbrev pub FreeRun : Memory → Ptr → ℕ → Type 0
FreeRun m p n = (j : ℕ) → j < n → is_page_free m (p + j) ≡ true

rest_free-true :
    (k : ℕ) (m : Memory) (p : Ptr)
    → is_page_free m p ≡ true
    → rest_free k m p ≡ true
    → FreeRun m p (suc k)
unfolding rest_free
rest_free-true zero m p f r zero h = let e : p + 0 ≡ p = omega arith in rw e f
rest_free-true zero m p f r (suc j) h = absurd (omega arith)
rest_free-true (suc k) m p f r zero h = let e : p + 0 ≡ p = omega arith in rw e f
rest_free-true (suc k) m p f r (suc j) h =
    let e : p + suc j ≡ p + 1 + j = omega arith in
    elim (Bool-cases (is_page_free m (p + 1))) [
      | inl t ↦ rw e (rest_free-true k m (p + 1) t (rw (t, rest_free) at r) j (omega arith))
      | inr t ↦ absurd (ground (arith, t))
    ]

rest_free-run : (k : ℕ) (m : Memory) (p : Ptr) → FreeRun m p (suc k) → rest_free k m p ≡ true
unfolding rest_free
rest_free-run zero m p f = refl
rest_free-run (suc k) m p f =
    rw (f 1 (omega arith), rest_free)
      (rest_free-run k m (p + 1)
        λ j h. let e : p + 1 + j ≡ p + suc j = omega arith in rw e (f (suc j) (omega arith)))

-- The test of the search is exact.
pub run_test :
    (m : Memory) (p : Ptr) (n : ℕ)
    → 0 < n
    → ((is_page_free m p && rest_free (n - 1) m p) ≡ true → FreeRun m p n)
      × (FreeRun m p n → (is_page_free m p && rest_free (n - 1) m p) ≡ true)
run_test m p zero h = absurd (omega arith)
run_test m p (suc n) h =
    let e : suc n - 1 ≡ n = omega arith in
    rw e (
      (λ t. elim (Bool-cases (is_page_free m p)) [
        | inl f ↦ rest_free-true n m p f (rw f at t)
        | inr f ↦ absurd (ground (arith, f))
      ]),
      λ f.
          let e' : p + 0 ≡ p = omega arith in
          let g : is_page_free m p ≡ true = rw e' at (f 0 (omega arith)) in
          rw (g, rest_free-run n m p f),
    )

-- What the search finds, started at entry `i`: the first run of `n` free entries, or none.
data Search (h : Heap) (n i k : ℕ) (r : Ptr × Memory) : Type 0 where
  missed :
      ((j : ℕ) → j < k → ¬ FreeRun h.mem (h.heap_start + (i + j)) n)
      → r ≡ (null, h.mem)
      → Search h n i k r
  found :
      (j : ℕ)
      → j < k
      → FreeRun h.mem (h.heap_start + (i + j)) n
      → ((l : ℕ) → l < j → ¬ FreeRun h.mem (h.heap_start + (i + l)) n)
      → r ≡ (u64 (h.alloc_start + (i + j) * 4096), take_run h.mem (h.heap_start + (i + j)) n)
      → Search h n i k r

shift_none :
    (h : Heap) (n i k : ℕ)
    → ¬ FreeRun h.mem (h.heap_start + i) n
    → ((j : ℕ) → j < k → ¬ FreeRun h.mem (h.heap_start + (i + 1 + j)) n)
    → (j : ℕ) → j < suc k
    → ¬ FreeRun h.mem (h.heap_start + (i + j)) n
shift_none h n i k here later zero l = let e : i + 0 ≡ i = omega arith in rw e here
shift_none h n i k here later (suc j) l =
    let e : i + suc j ≡ i + 1 + j = omega arith in rw e (later j (omega arith))

shift-Search :
    (h : Heap) (n i k : ℕ) (r : Ptr × Memory)
    → ¬ FreeRun h.mem (h.heap_start + i) n
    → Search h n (i + 1) k r
    → Search h n i (suc k) r
shift-Search h n i k r here (missed none e) = missed (shift_none h n i k here none) e
shift-Search h n i k r here (found j l run none e) =
    let s : i + suc j ≡ i + 1 + j = omega arith in
    found (suc j) (omega arith) (rw s run) (shift_none h n i j here none) (rw s e)

find_pages-Search :
    (k : ℕ) (h : Heap) (n i : ℕ) (page : Ptr)
    → 0 < n
    → page ≡ h.heap_start + i
    → Search h n i k (find_pages k h n i page)
unfolding find_pages
find_pages-Search zero h n i page pos e = missed (λ j l. absurd (omega arith)) refl
find_pages-Search (suc k) h n i page pos e =
    let t = run_test h.mem page n pos in
    let e' : page ≡ h.heap_start + (i + 0) = omega arith in
    let z : i + 0 ≡ i = omega arith in
    elim (Bool-cases (is_page_free h.mem page && rest_free (n - 1) h.mem page)) [
      | inl yep ↦
          rw (yep, find_pages)
            (found 0 (omega arith) (rw e' at (t.0 yep)) (λ l x. absurd (omega arith)) (rw (z, e)))
      | inr nope ↦
          rw (nope, find_pages)
            (shift-Search h n i k _ (λ f. absurd (ground (arith, t.1 (rw e f))))
              (find_pages-Search k h n (i + 1) (page + 1) pos (omega arith)))
    ]

-- The rounds of the search, for a positive `npages`: one for each start that leaves room.
pub search_rounds_lem :
    (h : Heap) (n : ℕ) → h.num_pages < 2 ^ 19 → n < 2 ^ 31 → search_rounds h n ≡ h.num_pages + 1 - n
unfolding search_rounds
search_rounds_lem h n few small = ground arith

-- The outcome of `page_alloc`: no run of `n` free pages in the table, NULL, and nothing written; or
-- the first run of `n` free pages, its address, and its entries marked, as `take_run` writes them.
pub data FirstFit (h : Heap) (n : ℕ) (r : Ptr × Heap) : Type 0 where
  nothing :
      ((i : ℕ) → i + n ≤ h.num_pages → ¬ FreeRun h.mem (h.heap_start + i) n)
      → r ≡ (null, h)
      → FirstFit h n r
  first :
      (i : ℕ)
      → i + n ≤ h.num_pages
      → FreeRun h.mem (h.heap_start + i) n
      → ((l : ℕ) → l < i → ¬ FreeRun h.mem (h.heap_start + l) n)
      → r.0 ≡ h.alloc_start + i * 4096
      → r.1 ≡ record h { mem = take_run h.mem (h.heap_start + i) n }
      → MarkedRun h.mem (h.heap_start + i) n r.1.mem
      → FirstFit h n r

FirstFit-of_Search :
    (h : Heap) (n : ℕ) (r : Ptr × Memory)
    → IsLayout h
    → 0 < n
    → Search h n 0 (h.num_pages + 1 - n) r
    → FirstFit h n (r.0, record h { mem = r.1 })
FirstFit-of_Search h n r lay pos (missed none e) =
    nothing (λ i room. let z : 0 + i ≡ i = omega arith in rw z at (none i (omega arith)))
      (ap (λ (q : Ptr × Memory). (q.0, record h { mem = q.1 })) e)
FirstFit-of_Search h n r lay pos (found j l run none e) =
    let z : 0 + j ≡ j = omega arith in
    let small : u64 (h.alloc_start + j * 4096) ≡ h.alloc_start + j * 4096 = omega arith in
    first j (omega arith) (rw z at run)
      (λ k b. let y : 0 + k ≡ k = omega arith in rw y at (none k b))
      (ap (λ (q : Ptr × Memory). q.0) e ∙ rw z small)
      (ap (λ (q : Ptr × Memory). record h { mem = q.1 }) e ∙ rw z)
      (subst (MarkedRun h.mem (h.heap_start + j) n) (sym (ap (λ (q : Ptr × Memory). q.1) e ∙ rw z))
        (take_run-MarkedRun h.mem (h.heap_start + j) n pos))

pub page_alloc-FirstFit :
    (h : Heap) (n : ℕ) → IsLayout h → 0 < n → n < 2 ^ 31 → FirstFit h n (page_alloc h n)
unfolding page_alloc
page_alloc-FirstFit h n lay pos small =
    let s : signed_ltb n 1 ≡ false = ground arith in
    let r : search_rounds h n ≡ h.num_pages + 1 - n = search_rounds_lem h n lay.pages_few small in
    rw (s, r)
      (FirstFit-of_Search h n _ lay pos (find_pages-Search _ h n 0 h.heap_start pos (omega arith)))
