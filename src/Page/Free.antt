-- ===== src/Page/Free.antt =====
-- `page_free` of os/page.c: it always returns, keeps the table tidy, and undoes `page_alloc`.
use xin_os.Base.{
  ℕ, ◌+◌, ◌-◌, ◌*◌, ◌/◌, ◌^◌, ◌≤◌, ◌<◌, ◌≡◌, refl, ◌⊎◌, inl, inr, true, false, ◌&&◌, ◌||◌, arith,
  ltb, leb, ◌==◌, Bool-cases, if◌then◌else◌, Ptr, null, Memory, ap, some, fun_ext, u64, ◌∙◌,
}
use xin_os.Page.{
  Heap, is_page_free, is_page_last, is_page_first, set_page_flags, page_last, get_start_mem_by_page,
  end_previous, page_free, page_alloc,
}
use xin_os.Page.Flags.{free_eq, last_eq, first_eq, set_last_eq}
use xin_os.Page.Layout.{IsLayout}
use xin_os.Page.Run.{in_run, marked}
use xin_os.Page.Search.{FreeRun}
use xin_os.Page.Tidy.{
  Tidy, IsTidy, in_run_free, Allocated, allocated, page_alloc-Allocated, page_alloc-IsTidy,
}
use xin_os.Page.Release.{Released, release-Released}

-- What freeing from `page` on does to the run before it.
pub data Previous (m : Memory) (lo page : Ptr) (m' : Memory) : Type 0 where
  kept :
      (lo < page → is_page_free m (page - 1) ≡ false → is_page_first m page ≡ true)
      → m' ≡ m
      → Previous m lo page m'
  ended :
      (q : Ptr)
      → q + 1 ≡ page
      → lo ≤ q
      → is_page_free m q ≡ false
      → is_page_first m page ≡ false
      → m' ≡ set_page_flags m q page_last
      → Previous m lo page m'

-- The address of the entry before `page` is below the pages only for the table's first entry.
previous_mem :
    (h : Heap) (page : Ptr)
    → IsLayout h
    → h.heap_start ≤ page
    → page < h.heap_start + h.num_pages
    → leb h.alloc_start (get_start_mem_by_page h (u64 (page + 2 ^ 64 - 1))) ≡ ltb h.heap_start page
unfolding get_start_mem_by_page
previous_mem h page lay low high = elim (Bool-cases (ltb h.heap_start page)) [
  | inl more ↦
      let e : u64 (page + 2 ^ 64 - 1) ≡ page - 1 = ground arith in
      let d : u64 (page - 1 + 2 ^ 64 - h.heap_start) ≡ page - 1 - h.heap_start = ground arith in
      let w : u64 (h.alloc_start + (page - 1 - h.heap_start) * 4096)
          ≡ h.alloc_start + (page - 1 - h.heap_start) * 4096 =
        omega arith in
      rw (e, d, w, more) (ground arith)
  | inr less ↦
      let z : page ≡ h.heap_start = ground arith in
      let e : u64 (page + 2 ^ 64 - 1) ≡ page - 1 = omega arith in
      let d : u64 (page - 1 + 2 ^ 64 - h.heap_start) ≡ 2 ^ 64 - 1 = omega arith in
      let w : u64 (h.alloc_start + (2 ^ 64 - 1) * 4096) ≡ h.alloc_start - 4096 = omega arith in
      rw (e, d, w, less) (ground arith)
]

end_previous-Previous :
    (h : Heap) (page : Ptr)
    → IsLayout h
    → h.heap_start ≤ page
    → page < h.heap_start + h.num_pages
    → Previous h.mem h.heap_start page (end_previous h page)
unfolding end_previous
end_previous-Previous h page lay low high = elim (Bool-cases (is_page_first h.mem page)) [
  | inl f ↦ rw f (kept (λ _ _. f) refl)
  | inr f ↦
      let e : u64 (page + 2 ^ 64 - 1) ≡ page - 1 = omega arith in
      rw (f, previous_mem h page lay low high, e)
        (elim (Bool-cases (ltb h.heap_start page)) [
          | inr less ↦ rw less (kept (λ l. absurd (ground arith)) refl)
          | inl more ↦ elim (Bool-cases (is_page_free h.mem (page - 1))) [
            | inl g ↦ rw (more, g) (kept (λ _ t. absurd (ground (arith, t, g))) refl)
            | inr g ↦ rw (more, g) (ended (page - 1) (ground arith) (ground arith) g f refl)
          ]
        ])
]

module _ (m : Memory) (lo hi page : Ptr) (t : Tidy m lo hi) where
  ended-Tidy : (q : Ptr) → is_page_free m q ≡ false → Tidy (set_page_flags m q page_last) lo hi
  ended-Tidy q f =
      let m' = set_page_flags m q page_last in
      record {
        clean =
            λ a l u g. ground (arith, set_last_eq m q a, free_eq m' a, free_eq m a, t.clean a l u);
        closed = λ a l u g i. ground (
          arith,
          set_last_eq m q a,
          set_last_eq m q (a + 1),
          free_eq m' a,
          last_eq m' a,
          free_eq m a,
          last_eq m a,
          free_eq m' (a + 1),
          first_eq m' (a + 1),
          free_eq m (a + 1),
          first_eq m (a + 1),
          t.closed a l u,
        );
      }

  pub Previous-Tidy : (m' : Memory) → Previous m lo page m' → Tidy m' lo hi
  Previous-Tidy m' (kept _ e) = rw e t
  Previous-Tidy m' (ended q _ _ f _ e) = rw e (ended-Tidy q f)

-- After that step the entry before `page` ends its run, unless `page` starts one.
Border : Memory → Ptr → Ptr → Type 0
Border m lo page =
    lo < page
    → is_page_free m (page - 1) ≡ false
    → is_page_first m page ≡ false
    → is_page_last m (page - 1) ≡ true

Previous-Border :
    (m : Memory) (lo page : Ptr) (m' : Memory) → Previous m lo page m' → Border m' lo page
unfolding Border
Previous-Border m lo page m' (kept k e) = rw e (λ l f g. absurd (ground (arith, k l f)))
Previous-Border m lo page m' (ended q s _ f _ e) = rw e (λ l g i.
    let z : page - 1 ≡ q = omega arith in
    rw z (ground (arith, set_last_eq m q q, last_eq (set_page_flags m q page_last) q)))

-- Clearing the rest of a run leaves the table tidy.
Released-Tidy :
    (m : Memory) (lo page hi : Ptr) (m' : Memory)
    → Tidy m lo hi
    → lo ≤ page
    → page < hi
    → Border m lo page
    → Released m page hi m'
    → Tidy m' lo hi
unfolding Border
Released-Tidy m lo page hi m' t low high b r = record {
  clean = λ a l u f. ground (arith, r.bytes a, free_eq m' a, free_eq m a, t.clean a l u);
  closed = λ a l u f g.
      let z : a + 1 - 1 ≡ a = omega arith in
      let bytes = r.bytes a in
      elim (Bool-cases (a + 1 == page)) [
        | inl e ↦
            let y : page - 1 ≡ a = ground arith in
            let same : m' a ≡ m a = ground (arith, bytes) in
            let f' : is_page_free m a ≡ false = ground (arith, free_eq m' a, free_eq m a) in
            let g' : is_page_last m a ≡ false = ground (arith, last_eq m' a, last_eq m a) in
            let c = t.closed a l u f' g' in
            let w : a + 1 ≡ page = ground arith in
            let x : is_page_last m a ≡ true = rw y at (b (ground arith) (rw y f') (rw w at c.2)) in
            absurd (ground (arith, x, g'))
        | inr ne ↦ ground (
          arith,
          bytes,
          r.bytes (a + 1),
          free_eq m' a,
          last_eq m' a,
          free_eq m a,
          last_eq m a,
          free_eq m' (a + 1),
          first_eq m' (a + 1),
          free_eq m (a + 1),
          first_eq m (a + 1),
          t.closed a l u,
        )
      ];
}

-- The table entry of an address.
abbrev pub entry_of : Heap → Ptr → Ptr
entry_of h p = h.heap_start + (p - h.alloc_start) / 4096

-- What `page_free` does with an address inside the pages.
pub record Freed (h : Heap) (p : Ptr) (h' : Heap) : Type 0 where
  pub mid : Memory
  pub before : Previous h.mem h.heap_start (entry_of h p) mid
  pub run : Released mid (entry_of h p) (h.heap_start + h.num_pages) h'.mem
  pub frame : h' ≡ record h { mem = h'.mem }

-- `page_free` of an address inside the pages returns: it ends the run before the page, if the page
-- is not the first of its run, and clears the entries from the page to the end of its run, and
-- nothing else. The table stays tidy.
pub page_free-Freed :
    (h : Heap) (p : Ptr)
    → IsLayout h
    → IsTidy h
    → h.alloc_start ≤ p
    → p < h.alloc_end
    → (h' : Heap) × (page_free h p ≡ some h') × Freed h p h' × IsTidy h'
unfolding page_free
page_free-Freed h p lay t low high =
    let page = entry_of h p in
    let g : (p == null || leb h.alloc_end p || ltb p h.alloc_start) ≡ false = ground arith in
    let prev = end_previous-Previous h page lay (omega arith) (omega arith) in
    let m1 = end_previous h page in
    let t1 = Previous-Tidy h.mem h.heap_start (h.heap_start + h.num_pages) page t m1 prev in
    let t2 : Tidy m1 page (h.heap_start + h.num_pages) = record {
      clean = λ a l u. t1.clean a (omega arith) u;
      closed = λ a l u. t1.closed a (omega arith) u;
    } in
    let (m', e, r) =
      release-Released (h.num_pages + 1) m1 page (h.heap_start + h.num_pages) t2 (omega arith)
        (omega arith) in
    (
      record h { mem = m' },
      rw (g, e),
      record { mid = m1; before = prev; run = r; frame = refl },
      Released-Tidy m1 h.heap_start page _ m' t1 (omega arith) (omega arith)
          (Previous-Border h.mem h.heap_start page m1 prev) r,
    )

-- `page_free` of an address outside the pages changes nothing.
page_free-outside :
    (h : Heap) (p : Ptr) → (p < h.alloc_start) ⊎ (h.alloc_end ≤ p) → page_free h p ≡ some h
unfolding page_free
page_free-outside h p out = ground (arith, out)

-- On a heap as `page_init` lays it out, with a tidy table, `page_free` returns for every address,
-- and keeps the table tidy.
pub page_free-total :
    (h : Heap) (p : Ptr)
    → IsLayout h
    → IsTidy h
    → (h' : Heap) × (page_free h p ≡ some h') × IsTidy h'
page_free-total h p lay t = elim (Bool-cases (leb h.alloc_start p && ltb p h.alloc_end)) [
  | inl b ↦
      let (h', e, _, t') = page_free-Freed h p lay t (ground arith) (ground arith) in (h', e, t')
  | inr b ↦ (h, page_free-outside h p (ground arith), t)
]

Released-marked :
    (m m0 : Memory) (page hi : Ptr) (n : ℕ) (m' : Memory)
    → 0 < n
    → ((a : Ptr) → m a ≡ (if in_run page n a then marked page n a else m0 a))
    → Released m page hi m'
    → (r : ℕ) × (r ≡ page + n) × ((a : Ptr) → m' a ≡ (if leb page a && ltb a r then 0 else m a))
unfolding marked
Released-marked m m0 page hi n m' pos eq r = (
  r.end,
  ground (
    arith,
    r.low,
    r.stop,
    eq page,
    eq (r.end - 1),
    eq (page + n - 1),
    free_eq m page,
    last_eq m (r.end - 1),
    last_eq m (page + n - 1),
    r.inner (page + n - 1),
  ),
  r.bytes,
)

mid_of_first :
    (m : Memory) (lo page : Ptr) (m' : Memory)
    → is_page_first m page ≡ true
    → Previous m lo page m'
    → m' ≡ m
mid_of_first m lo page m' f (kept _ e) = e
mid_of_first m lo page m' f (ended q _ _ _ g _) = absurd (ground (arith, f, g))

with_mem-IsLayout : (h : Heap) (m : Memory) → IsLayout h → IsLayout (record h { mem = m })
with_mem-IsLayout h m lay = record {
  table_pos = lay.table_pos;
  table_below = lay.table_below;
  aligned = lay.aligned;
  pages_end = lay.pages_end;
  pages_few = lay.pages_few;
  fits = lay.fits;
}

module _ (h : Heap) (i n : ℕ) (t : IsTidy h) (pos : 0 < n) (room : i + n ≤ h.num_pages)
    (run : FreeRun h.mem (h.heap_start + i) n) (m : Memory)
    (eq : (a : Ptr)
      → m a
        ≡ (if in_run (h.heap_start + i) n a then marked (h.heap_start + i) n a else h.mem a)) where
  clear_run :
      (m' : Memory) → Released m (h.heap_start + i) (h.heap_start + h.num_pages) m' → m' ≡ h.mem
  clear_run m' r =
      let page = h.heap_start + i in
      let (end, e, bytes) = Released-marked m h.mem page _ n m' pos eq r in
      fun_ext λ a. ground (arith, e, bytes a, eq a, t.clean a, in_run_free h.mem page n run a)

  first_page : is_page_first m (h.heap_start + i) ≡ true
  unfolding marked
  first_page = ground (arith, eq (h.heap_start + i), first_eq m (h.heap_start + i))

  undo : (h' : Heap) → Freed (record h { mem = m }) (h.alloc_start + i * 4096) h' → h' ≡ h
  undo h' f =
      let e : entry_of h (h.alloc_start + i * 4096) ≡ h.heap_start + i = omega arith in
      let same : f.mid ≡ m =
        mid_of_first m h.heap_start (h.heap_start + i) f.mid first_page (rw e at f.before) in
      let r : Released m (h.heap_start + i) (h.heap_start + h.num_pages) h'.mem =
        rw (same, e) at f.run in
      f.frame ∙ ap (λ (q : Memory). record h { mem = q }) (clear_run h'.mem r)

Allocated-free :
    (h : Heap) (n : ℕ) (r : Ptr × Heap)
    → IsLayout h
    → IsTidy h
    → 0 < n
    → Allocated h n r
    → IsTidy r.1
    → page_free r.1 r.0 ≡ some h
Allocated-free h n (p, h1) lay t pos (allocated i room run e m eq s) t1 =
    let g = record h { mem = m } in
    let (h', q, f, _) =
      page_free-Freed g (h.alloc_start + i * 4096) (with_mem-IsLayout h m lay) (rw s at t1)
        (omega arith) (omega arith) in
    rw (s, e) (q ∙ ap some (undo h i n t pos room run m eq h' f))

-- Freeing what `page_alloc` has just returned gives the heap back as it was, byte for byte; and if
-- it returned NULL there is nothing to give back.
pub page_free-page_alloc :
    (h : Heap) (n : ℕ)
    → IsLayout h
    → IsTidy h
    → 0 < n
    → n < 2 ^ 31
    → page_free (page_alloc h n).1 (page_alloc h n).0 ≡ some h
page_free-page_alloc h n lay t pos small = elim (page_alloc-Allocated h n lay t pos small) [
  | inl e ↦ rw e (free_null h)
  | inr a ↦
      Allocated-free h n (page_alloc h n) lay t pos a (page_alloc-IsTidy h n lay t (omega arith))
]
  where
    free_null : (h : Heap) → page_free h null ≡ some h
    free_null h = unfold page_free in refl
