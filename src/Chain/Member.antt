-- ===== src/Chain/Member.antt =====
-- The objects of a list when one is put in or taken out: what the scheduler and the timers keep.
use xin_os.Base.{
  ℕ, ◌<◌, ◌≡◌, ◌==◌, false, ◌≢◌, refl, ap, sym, ◌∙◌, subst, List, [], ◌∷◌, ◌++◌, ◌⊎◌, inl, inr, Ptr,
  All, null, length, arith,
}
use xin_os.Chain.{Chain, NotIn, take_while, drop_while, take-append-drop}
use xin_os.Chain.Order.{insert_sorted, not_after}
use xin_os.Chain.Wait.{Among}

pub Among-split :
    (q p : Ptr) (ys zs : List Ptr) → Among q (ys ++ p ∷ zs) → (p ≡ q) ⊎ Among q (ys ++ zs)
Among-split q p [] zs m = m
Among-split q p (y ∷ ys) zs (inl e) = inr (inl e)
Among-split q p (y ∷ ys) zs (inr m) = elim (Among-split q p ys zs m) [
  | inl e ↦ inl e
  | inr m' ↦ inr (inr m')
]

pub Among-middle : (q p : Ptr) (ys zs : List Ptr) → Among q (ys ++ zs) → Among q (ys ++ p ∷ zs)
Among-middle q p [] zs m = inr m
Among-middle q p (y ∷ ys) zs (inl e) = inl e
Among-middle q p (y ∷ ys) zs (inr m) = inr (Among-middle q p ys zs m)

pub Among-turn :
    (key : Ptr → ℕ) (q p : Ptr) (ws : List Ptr) → Among q ws → Among q (insert_sorted key p ws)
Among-turn key q p ws m =
    Among-middle q p (take_while (not_after key p) ws) (drop_while (not_after key p) ws)
      (subst (Among q) (sym (take-append-drop (not_after key p) ws)) m)

pub Among-new : (key : Ptr → ℕ) (p : Ptr) (ws : List Ptr) → Among p (insert_sorted key p ws)
Among-new key p ws = go (take_while (not_after key p) ws)
  where
    go : (ys : List Ptr) → Among p (ys ++ p ∷ drop_while (not_after key p) ws)
    go [] = inl refl
    go (y ∷ ys) = inr (go ys)

pub Among-insert_sorted :
    (key : Ptr → ℕ) (q p : Ptr) (ws : List Ptr)
    → Among q (insert_sorted key p ws)
    → (p ≡ q) ⊎ Among q ws
Among-insert_sorted key q p ws m =
    elim (Among-split q p (take_while (not_after key p) ws) (drop_while (not_after key p) ws) m) [
      | inl e ↦ inl e
      | inr m' ↦ inr (subst (Among q) (take-append-drop (not_after key p) ws) m')
    ]

-- The object that is taken out and put back somewhere else is there as before.
pub Among-turned :
    (key : Ptr → ℕ) (q p : Ptr) (ys zs : List Ptr)
    → Among q (ys ++ p ∷ zs)
    → Among q (insert_sorted key p (ys ++ zs))
Among-turned key q p ys zs m = elim (Among-split q p ys zs m) [
  | inl e ↦ subst (λ r. Among r (insert_sorted key p (ys ++ zs))) e (Among-new key p (ys ++ zs))
  | inr m' ↦ Among-turn key q p (ys ++ zs) m'
]

pub Among-append_middle : (p : Ptr) (ys zs : List Ptr) → Among p (ys ++ p ∷ zs)
Among-append_middle p [] zs = inl refl
Among-append_middle p (y ∷ ys) zs = inr (Among-append_middle p ys zs)

pub Among-back :
    (key : Ptr → ℕ) (q p : Ptr) (ys zs : List Ptr)
    → Among q (insert_sorted key p (ys ++ zs))
    → Among q (ys ++ p ∷ zs)
Among-back key q p ys zs m = elim (Among-insert_sorted key q p (ys ++ zs) m) [
  | inl e ↦ subst (λ r. Among r (ys ++ p ∷ zs)) e (Among-append_middle p ys zs)
  | inr m' ↦ Among-middle q p ys zs m'
]

pub NotIn-Among : (q : Ptr) (xs : List Ptr) → NotIn q xs → Among q xs → ⊥
NotIn-Among q [] n m = m
NotIn-Among q (x ∷ xs) n (inl e) = n.0 (sym e)
NotIn-Among q (x ∷ xs) n (inr m) = NotIn-Among q xs n.1 m

pub NotIn-other : (q x : Ptr) (xs : List Ptr) → NotIn q xs → Among x xs → (x == q) ≡ false
NotIn-other q x xs n i =
    let ne : x ≢ q = λ e. NotIn-Among q xs n (subst (λ z. Among z xs) e i) in ground (arith, ne)

pub All-Among : (P : Ptr → Type 0) (q : Ptr) (xs : List Ptr) → All P xs → Among q xs → P q
All-Among P q [] h m = absurd m
All-Among P q (x ∷ xs) h (inl e) = subst P e h.0
All-Among P q (x ∷ xs) h (inr m) = All-Among P q xs h.1 m

pub All-of_Among : (P : Ptr → Type 0) (xs : List Ptr) → ((q : Ptr) → Among q xs → P q) → All P xs
All-of_Among P [] h = tt
All-of_Among P (x ∷ xs) h = (h x (inl refl), All-of_Among P xs (λ q m. h q (inr m)))

pub Among-Chain :
    (next : Ptr → Ptr) (a q : Ptr) (xs : List Ptr) → Chain next a xs → Among q xs → q ≢ null
Among-Chain next a q [] c m = absurd m
Among-Chain next a q (x ∷ xs) c (inl e) = λ n. c.1 (e ∙ n)
Among-Chain next a q (x ∷ xs) c (inr m) = Among-Chain next (next x) q xs c.2 m

-- An object of a list stands somewhere in it.
pub Among-place :
    (q : Ptr) (xs : List Ptr) → Among q xs → (ys : List Ptr) × (zs : List Ptr) × (xs ≡ ys ++ q ∷ zs)
Among-place q [] m = absurd m
Among-place q (x ∷ xs) (inl e) = ([], xs, ap (λ y. y ∷ xs) e)
Among-place q (x ∷ xs) (inr m) =
    let (ys, zs, split) = Among-place q xs m in (x ∷ ys, zs, ap (λ l. x ∷ l) split)

-- The links from an object on determine the list.
pub Chain-same :
    (next : Ptr → Ptr) (a : Ptr) (xs ys : List Ptr) → Chain next a xs → Chain next a ys → xs ≡ ys
Chain-same next a [] [] c d = refl
Chain-same next a [] (y ∷ ys) c d = absurd (d.1 (sym d.0 ∙ c))
Chain-same next a (x ∷ xs) [] c d = absurd (c.1 (sym c.0 ∙ d))
Chain-same next a (x ∷ xs) (y ∷ ys) c d =
    let e : x ≡ y = sym c.0 ∙ d.0 in
    ap (λ z. z ∷ xs) e
    ∙ ap (λ l. y ∷ l)
        (Chain-same next (next y) xs ys (subst (λ z. Chain next (next z) xs) e c.2) d.2)

pub Among-some : (q : Ptr) (xs : List Ptr) → Among q xs → 0 < length xs
Among-some q [] m = absurd m
Among-some q (x ∷ xs) m = omega arith
