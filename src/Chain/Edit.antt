-- ===== src/Chain/Edit.antt =====
-- Linking an object into a list in memory, and taking one out.
use xin_os.Base.{◌≡◌, ◌≢◌, List, [], ◌∷◌, ◌++◌, arith, Ptr, null, update, update_lem}
use xin_os.Chain.{Chain, NotIn, Distinct, last_or, head_or_null}

pub NotIn-append : (a : Ptr) (xs ys : List Ptr) → NotIn a (xs ++ ys) → NotIn a xs × NotIn a ys
NotIn-append a [] ys n = (tt, n)
NotIn-append a (x ∷ xs) ys n = let r = NotIn-append a xs ys n.1 in ((n.0, r.0), r.1)

pub NotIn-append_of : (a : Ptr) (xs ys : List Ptr) → NotIn a xs → NotIn a ys → NotIn a (xs ++ ys)
NotIn-append_of a [] ys n m = m
NotIn-append_of a (x ∷ xs) ys n m = (n.0, NotIn-append_of a xs ys n.1 m)

-- A write to the link of an object outside a list leaves the list alone.
pub Chain-frame :
    (next : Ptr → Ptr) (a v p : Ptr) (xs : List Ptr)
    → Chain next p xs
    → NotIn a xs
    → Chain (update next a v) p xs
Chain-frame next a v p [] c n = c
Chain-frame next a v p (x ∷ xs) c n = (
  c.0,
  c.1,
  let e : update next a v x ≡ next x = ground (arith, update_lem next a v x, n.0) in
      rw e (Chain-frame next a v (next x) xs c.2 n.1),
)

Chain-head : (next : Ptr → Ptr) (p : Ptr) (xs : List Ptr) → Chain next p xs → p ≡ head_or_null xs
Chain-head next p [] c = c
Chain-head next p (x ∷ xs) c = c.0

-- `prev->next = t; t->next = it`, where `x ∷ ys` ends in `prev` and `zs` starts at `it`.
pub Chain-link :
    (next : Ptr → Ptr) (t p x : Ptr) (ys zs : List Ptr)
    → Chain next p (x ∷ ys ++ zs)
    → Distinct (x ∷ ys ++ zs)
    → t ≢ null
    → NotIn t (x ∷ ys ++ zs)
    → Chain (update (update next (last_or x ys) t) t (head_or_null zs)) p (x ∷ ys ++ t ∷ zs)
Chain-link next t p x [] zs c d nz n = (
  c.0,
  c.1,
  (
    ground (arith, update_lem (update next x t) t (head_or_null zs) x, update_lem next x t x, n.0),
    nz,
    (let e : update (update next x t) t (head_or_null zs) t ≡ next x = ground (
      arith,
      update_lem (update next x t) t (head_or_null zs) t,
      Chain-head next (next x) zs c.2,
    ) in
        rw e (
          Chain-frame (update next x t) t (head_or_null zs) (next x) zs
            (Chain-frame next x t (next x) zs c.2 d.0) n.1)),
  ),
)
Chain-link next t p x (y ∷ ys) zs c d nz n = (
  c.0,
  c.1,
  let f = update (update next (last_or y ys) t) t (head_or_null zs) in
      let e : f x ≡ next x = ground (
        arith,
        update_lem (update next (last_or y ys) t) t (head_or_null zs) x,
        update_lem next (last_or y ys) t x,
        n.0,
        last_ne x y ys zs d.0,
      ) in
      rw e (Chain-link next t (next x) y ys zs c.2 d.1 nz n.1),
)
  where
    last_ne : (x y : Ptr) (ys zs : List Ptr) → NotIn x (y ∷ ys ++ zs) → x ≢ last_or y ys
    last_ne x y [] zs n = n.0
    last_ne x y (w ∷ ys) zs n = last_ne x w ys zs n.1

-- `prev->next = t->next`, where `x ∷ ys` ends in `prev`.
pub Chain-unlink :
    (next : Ptr → Ptr) (t p x : Ptr) (ys zs : List Ptr)
    → Chain next p (x ∷ ys ++ t ∷ zs)
    → Distinct (x ∷ ys ++ t ∷ zs)
    → Chain (update next (last_or x ys) (next t)) p (x ∷ ys ++ zs)
Chain-unlink next t p x [] zs c d = (
  c.0,
  c.1,
  let e : update next x (next t) x ≡ next t = ground (arith, update_lem next x (next t) x) in
      rw e (Chain-frame next x (next t) (next t) zs c.2.2 d.0.1),
)
Chain-unlink next t p x (y ∷ ys) zs c d = (
  c.0,
  c.1,
  let e : update next (last_or y ys) (next t) x ≡ next x =
        ground (arith, update_lem next (last_or y ys) (next t) x, last_ne x y ys (t ∷ zs) d.0) in
      rw e (Chain-unlink next t (next x) y ys zs c.2 d.1),
)
  where
    last_ne : (x y : Ptr) (ys zs : List Ptr) → NotIn x (y ∷ ys ++ zs) → x ≢ last_or y ys
    last_ne x y [] zs n = n.0
    last_ne x y (w ∷ ys) zs n = last_ne x w ys zs n.1
