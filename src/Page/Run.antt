-- ===== src/Page/Run.antt =====
-- What `page_alloc` writes into the table for a run of pages.
use xin_os.Base.{
  ℕ, zero, suc, ◌+◌, ◌-◌, ◌%◌, ◌<◌, ◌≡◌, Bool, true, ◌&&◌, false, ◌/◌, ◌*◌, arith, ltb, leb, ◌==◌,
  if◌then◌else◌, Ptr, Memory,
}
use xin_os.Page.{
  set_page_flags, is_page_free, is_page_first, is_page_last, take_pages, take_run, page_taken,
  page_first,
}
use xin_os.Page.Flags.{free_eq, first_eq, last_eq, set_taken_eq, set_last_eq, set_first_eq}

-- Whether the table entry `a` belongs to the run of `n` entries from `p` on.
abbrev pub in_run : Ptr → ℕ → Ptr → Bool
in_run p n a = leb p a && ltb a (p + n)

-- The flags of an allocated run: all taken, the first and the last one marked.
unfoldable pub marked : Ptr → ℕ → Ptr → ℕ
marked p n a = 1 + (if a == p then 4 else 0) + (if a + 1 == p + n then 2 else 0)

abbrev taken_byte : ℕ → ℕ
taken_byte f = (f + 1 - f % 2) % 256

take_pages_end : (k : ℕ) (m : Memory) (t : Ptr) → (take_pages k m t).1 ≡ t + k
unfolding take_pages
take_pages_end zero m t = omega arith
take_pages_end (suc k) m t = omega (arith, take_pages_end k (set_page_flags m t page_taken) (t + 1))

take_pages_at :
    (k : ℕ) (m : Memory) (t a : Ptr)
    → (take_pages k m t).0 a ≡ (if in_run t k a then taken_byte (m a) else m a)
unfolding take_pages
take_pages_at zero m t a = ground arith
take_pages_at (suc k) m t a =
    ground (arith, take_pages_at k (set_page_flags m t page_taken) (t + 1) a, set_taken_eq m t a)

-- From `m` to `m'` the `n` entries from `p` on become taken, the first of them marked as first and the last
-- one as last; the others of them keep these two flags, and no other byte changes.
pub record MarkedRun (m : Memory) (p : Ptr) (n : ℕ) (m' : Memory) : Type 0 where
  pub taken : (j : ℕ) → j < n → is_page_free m' (p + j) ≡ false
  pub start : is_page_first m' p ≡ true
  pub end : is_page_last m' (p + n - 1) ≡ true
  pub inner_start : (j : ℕ) → 0 < j → j < n → is_page_first m' (p + j) ≡ is_page_first m (p + j)
  pub inner_end : (j : ℕ) → j + 1 < n → is_page_last m' (p + j) ≡ is_page_last m (p + j)
  pub others : (a : Ptr) → in_run p n a ≡ false → m' a ≡ m a

module _ (m : Memory) (p : Ptr) (n : ℕ) (pos : 0 < n) where
  run_byte :
      (a : Ptr)
      → take_run m p n a ≡ (
          let f = taken_byte (if a == p then (m a + 4 - 4 * (m a / 4 % 2)) % 256 else m a) in
          if in_run p n a
          then if a == p + n - 1 then (f + 2 - 2 * (f / 2 % 2)) % 256 else f
          else m a)
  unfolding take_run
  run_byte a =
      let first = set_page_flags m p page_first in
      let taken = (take_pages n first p).0 in
      ground (
        arith,
        take_pages_end n first p,
        take_pages_at n first p a,
        take_pages_at n first p (p + n - 1),
        set_first_eq m p a,
        set_first_eq m p (p + n - 1),
        set_last_eq taken (p + n - 1) a,
      )

  pub take_run-MarkedRun : MarkedRun m p n (take_run m p n)
  take_run-MarkedRun =
      let m' = take_run m p n in
      record {
        taken = λ j l. ground (arith, free_eq m' (p + j), run_byte (p + j));
        start = ground (arith, first_eq m' p, run_byte p);
        end = ground (arith, last_eq m' (p + n - 1), run_byte (p + n - 1));
        inner_start =
            λ j low l. ground (arith, first_eq m' (p + j), first_eq m (p + j), run_byte (p + j));
        inner_end = λ j l. ground (arith, last_eq m' (p + j), last_eq m (p + j), run_byte (p + j));
        others = λ a out. ground (arith, run_byte a);
      }

pub take_run-marked :
    (m : Memory) (p : Ptr) (n : ℕ)
    → 0 < n
    → ((a : Ptr) → in_run p n a ≡ true → m a ≡ 0)
    → (a : Ptr) → take_run m p n a ≡ (if in_run p n a then marked p n a else m a)
unfolding take_run marked
take_run-marked m p n pos clean a =
    let first = set_page_flags m p page_first in
    let taken = (take_pages n first p).0 in
    ground (
      arith,
      take_pages_end n first p,
      take_pages_at n first p a,
      set_first_eq m p a,
      set_last_eq taken (p + n - 1) a,
      clean a,
    )
