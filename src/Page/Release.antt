-- ===== src/Page/Release.antt =====
-- The loop of `page_free` in os/page.c: it ends inside the table and clears the rest of one run.
use xin_os.Base.{
  ℕ, zero, suc, ◌+◌, ◌-◌, ◌≤◌, ◌<◌, ◌≡◌, refl, ◌⊎◌, inl, inr, true, false, ◌&&◌, arith, ltb, leb,
  Bool-cases, if◌then◌else◌, Ptr, Memory, some,
}
use xin_os.Page.{is_page_free, is_page_last, clear_page, release}
use xin_os.Page.Flags.{free_eq, last_eq, first_eq, free_cong, last_cong, clear_eq}
use xin_os.Page.Tidy.{Tidy}

-- The entries from `page` up to `end` are taken, only the last of them may carry PAGE_LAST, and
-- `m'` is `m` with these entries cleared.
pub record Released (m : Memory) (page hi : Ptr) (m' : Memory) : Type 0 where
  pub end : Ptr
  pub low : page ≤ end
  pub high : end ≤ hi
  pub taken : (a : Ptr) → page ≤ a → a < end → is_page_free m a ≡ false
  pub inner : (a : Ptr) → page ≤ a → a + 1 < end → is_page_last m a ≡ false
  pub stop :
      ((end ≡ page) × (is_page_free m page ≡ true))
      ⊎ ((page < end) × (is_page_last m (end - 1) ≡ true))
  pub bytes : (a : Ptr) → m' a ≡ (if leb page a && ltb a end then 0 else m a)

Tidy-clear : (m : Memory) (page hi : Ptr) → Tidy m page hi → Tidy (clear_page m page) (page + 1) hi
Tidy-clear m page hi t = record {
  clean = λ a l u f. ground (
    arith,
    clear_eq m page a,
    free_eq (clear_page m page) a,
    free_eq m a,
    t.clean a (omega arith) u,
  );
  closed = λ a l u f g. ground (
    arith,
    clear_eq m page a,
    clear_eq m page (a + 1),
    free_eq (clear_page m page) a,
    last_eq (clear_page m page) a,
    free_eq m a,
    last_eq m a,
    free_eq (clear_page m page) (a + 1),
    first_eq (clear_page m page) (a + 1),
    free_eq m (a + 1),
    first_eq m (a + 1),
    t.closed a (omega arith) u,
  );
}

same_free :
    (m : Memory) (page a : Ptr) → page < a → is_page_free m a ≡ is_page_free (clear_page m page) a
same_free m page a l = free_cong m (clear_page m page) a a (ground (arith, clear_eq m page a))

same_last :
    (m : Memory) (page a : Ptr) → page < a → is_page_last m a ≡ is_page_last (clear_page m page) a
same_last m page a l = last_cong m (clear_page m page) a a (ground (arith, clear_eq m page a))

-- One more entry in front.
Released-cons :
    (m : Memory) (page hi : Ptr) (m' : Memory)
    → is_page_free m page ≡ false
    → is_page_last m page ≡ false
    → is_page_free m (page + 1) ≡ false
    → Released (clear_page m page) (page + 1) hi m'
    → Released m page hi m'
Released-cons m page hi m' f l f' r =
    let c = clear_page m page in
    record {
      end = r.end;
      low = omega (arith, r.low);
      high = r.high;
      taken = λ a p q. ground (arith, r.taken a, same_free m page a);
      inner = λ a p q. ground (arith, r.inner a, same_last m page a);
      stop = inr (
        ground (arith, r.stop, r.low, same_free m page (page + 1)),
        ground (arith, r.stop, r.low, same_free m page (page + 1), same_last m page (r.end - 1)),
      );
      bytes = λ a. ground (arith, r.bytes a, r.low, clear_eq m page a);
    }

Released-last :
    (m : Memory) (page hi : Ptr)
    → page < hi
    → is_page_free m page ≡ false
    → is_page_last m page ≡ true
    → Released m page hi (clear_page m page)
Released-last m page hi u f l = record {
  end = page + 1;
  low = omega arith;
  high = omega arith;
  taken = λ a p q. let e : a ≡ page = omega arith in rw e f;
  inner = λ a p q. absurd (omega arith);
  stop = inr (omega arith, let e : page + 1 - 1 ≡ page = omega arith in rw e l);
  bytes = λ a. ground (arith, clear_eq m page a);
}

Released-none :
    (m : Memory) (page hi : Ptr) → page < hi → is_page_free m page ≡ true → Released m page hi m
Released-none m page hi u f = record {
  end = page;
  low = omega arith;
  high = omega arith;
  taken = λ a p q. absurd (omega arith);
  inner = λ a p q. absurd (omega arith);
  stop = inl (refl, f);
  bytes = λ a. ground arith;
}

-- With more rounds than entries are left, the loop ends.
pub release-Released :
    (k : ℕ) (m : Memory) (page hi : Ptr)
    → Tidy m page hi
    → page < hi
    → hi < k + page
    → (m' : Memory) × (release k m page ≡ some m') × Released m page hi m'
unfolding release
release-Released zero m page hi t u fuel = absurd (omega arith)
release-Released (suc k) m page hi t u fuel = elim (Bool-cases (is_page_free m page)) [
  | inl f ↦ (m, rw (f, release), Released-none m page hi u f)
  | inr f ↦ elim (Bool-cases (is_page_last m page)) [
    | inl l ↦ (clear_page m page, rw (f, l, release), Released-last m page hi u f l)
    | inr l ↦
        let c = t.closed page (omega arith) u f l in
        let (m', e, r) =
          release-Released k (clear_page m page) (page + 1) hi (Tidy-clear m page hi t) c.0
            (omega arith) in
        (m', rw (f, l, release) e, Released-cons m page hi m' f l c.1 r)
  ]
]
