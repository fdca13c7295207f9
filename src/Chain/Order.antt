-- ===== src/Chain/Order.antt =====
-- Insertion by key, behind all objects whose key is not greater: the order of the lists of
-- os/sched.c and os/timer.c.
use mathlib.Core.List.{Perm, perm_middle}
use xin_os.Base.{
  ℕ, suc, ◌≤◌, ◌≡◌, Bool, List, [], ◌∷◌, ◌++◌, arith, leb, Bool-cases, inl, inr, Ptr, update,
  update_lem, length, length-append, All, subst, sym, ap,
}
use xin_os.Chain.{NotIn, Distinct, take_while, drop_while, take-append-drop}
use xin_os.Chain.Edit.{NotIn-append, NotIn-append_of}

-- The objects that `t` is put behind.
abbrev pub not_after : (Ptr → ℕ) → Ptr → Ptr → Bool
not_after key t it = leb (key it) (key t)

abbrev pub insert_sorted : (Ptr → ℕ) → Ptr → List Ptr → List Ptr
insert_sorted key t xs = take_while (not_after key t) xs ++ t ∷ drop_while (not_after key t) xs

abbrev pub IsSorted : (Ptr → ℕ) → List Ptr → Type 0
IsSorted key [] = Unit
IsSorted key (x ∷ xs) = All (λ y. key x ≤ key y) xs × IsSorted key xs

-- Insertion adds exactly the object.
pub insert_sorted-perm :
    (key : Ptr → ℕ) (t : Ptr) (xs : List Ptr) → Perm (insert_sorted key t xs) (t ∷ xs)
insert_sorted-perm key t xs =
    subst (λ l. Perm (insert_sorted key t xs) (t ∷ l)) (take-append-drop (not_after key t) xs)
      (perm_middle (take_while (not_after key t) xs) (drop_while (not_after key t) xs))

All-mono :
    (key : Ptr → ℕ) (a b : ℕ) (xs : List Ptr)
    → a ≤ b
    → All (λ y. b ≤ key y) xs
    → All (λ y. a ≤ key y) xs
All-mono key a b [] le h = tt
All-mono key a b (x ∷ xs) le h = (omega arith, All-mono key a b xs le h.1)

module _ (key : Ptr → ℕ) (t : Ptr) where
  All-insert :
      (a : ℕ) (xs : List Ptr)
      → a ≤ key t
      → All (λ y. a ≤ key y) xs
      → All (λ y. a ≤ key y) (insert_sorted key t xs)
  All-insert a [] le h = (le, tt)
  All-insert a (x ∷ xs) le h = elim (Bool-cases (leb (key x) (key t))) [
    | inl yep ↦ rw yep (h.0, All-insert a xs le h.1)
    | inr nope ↦ rw nope (le, h)
  ]

  -- Insertion keeps the list sorted.
  pub insert_sorted-IsSorted :
      (xs : List Ptr) → IsSorted key xs → IsSorted key (insert_sorted key t xs)
  insert_sorted-IsSorted [] s = (tt, tt)
  insert_sorted-IsSorted (x ∷ xs) s = elim (Bool-cases (leb (key x) (key t))) [
    | inl yep ↦ rw yep (All-insert (key x) xs (ground arith) s.0, insert_sorted-IsSorted xs s.1)
    | inr nope ↦ rw nope ((ground arith, All-mono key (key t) (key x) xs (ground arith) s.0), s)
  ]

  pub length-insert_sorted : (xs : List Ptr) → length (insert_sorted key t xs) ≡ suc (length xs)
  length-insert_sorted xs =
      let ys = take_while (not_after key t) xs in
      let zs = drop_while (not_after key t) xs in
      omega (
        arith,
        length-append ys (t ∷ zs),
        length-append ys zs,
        ap length (take-append-drop (not_after key t) xs),
      )

-- An object in the middle of distinct ones.
pub Distinct-middle :
    (t : Ptr) (ys zs : List Ptr)
    → Distinct (ys ++ zs)
    → NotIn t (ys ++ zs)
    → Distinct (ys ++ t ∷ zs)
Distinct-middle t [] zs d n = (n, d)
Distinct-middle t (y ∷ ys) zs d n = (
  (let r = NotIn-append y ys zs d.0 in NotIn-append_of y ys (t ∷ zs) r.0 ((λ e. n.0 (sym e)), r.1)),
  Distinct-middle t ys zs d.1 n.1,
)

pub Distinct-remove :
    (t : Ptr) (ys zs : List Ptr)
    → Distinct (ys ++ t ∷ zs)
    → Distinct (ys ++ zs) × NotIn t (ys ++ zs)
Distinct-remove t [] zs d = (d.1, d.0)
Distinct-remove t (y ∷ ys) zs d =
    let (d', n') = Distinct-remove t ys zs d.1 in
    let r = NotIn-append y ys (t ∷ zs) d.0 in
    ((NotIn-append_of y ys zs r.0 r.1.1, d'), ((λ e. r.1.0 (sym e)), n'))

pub Distinct-insert :
    (key : Ptr → ℕ) (t : Ptr) (xs : List Ptr)
    → Distinct xs
    → NotIn t xs
    → Distinct (insert_sorted key t xs)
Distinct-insert key t xs d n =
    let e = take-append-drop (not_after key t) xs in
    Distinct-middle t (take_while (not_after key t) xs) (drop_while (not_after key t) xs) (rw e d)
      (rw e n)

-- A key written outside the list does not matter to it.
All-frame :
    (key : Ptr → ℕ) (t : Ptr) (v a : ℕ) (xs : List Ptr)
    → NotIn t xs
    → All (λ y. a ≤ key y) xs
    → All (λ y. a ≤ update key t v y) xs
All-frame key t v a [] n h = tt
All-frame key t v a (x ∷ xs) n h =
    (ground (arith, update_lem key t v x, n.0, h.0), All-frame key t v a xs n.1 h.1)

pub IsSorted-frame :
    (key : Ptr → ℕ) (t : Ptr) (v : ℕ) (xs : List Ptr)
    → NotIn t xs
    → IsSorted key xs
    → IsSorted (update key t v) xs
IsSorted-frame key t v [] n s = tt
IsSorted-frame key t v (x ∷ xs) n s =
    let e : update key t v x ≡ key x = ground (arith, update_lem key t v x, n.0) in
    (rw e (All-frame key t v (key x) xs n.1 s.0), IsSorted-frame key t v xs n.1 s.1)

All-remove :
    (key : Ptr → ℕ) (a : ℕ) (t : Ptr) (ys zs : List Ptr)
    → All (λ y. a ≤ key y) (ys ++ t ∷ zs)
    → All (λ y. a ≤ key y) (ys ++ zs)
All-remove key a t [] zs h = h.1
All-remove key a t (y ∷ ys) zs h = (h.0, All-remove key a t ys zs h.1)

pub IsSorted-remove :
    (key : Ptr → ℕ) (t : Ptr) (ys zs : List Ptr)
    → IsSorted key (ys ++ t ∷ zs)
    → IsSorted key (ys ++ zs)
IsSorted-remove key t [] zs s = s.1
IsSorted-remove key t (y ∷ ys) zs s =
    (All-remove key (key y) t ys zs s.0, IsSorted-remove key t ys zs s.1)
