-- ===== src/Chain/Wait.antt =====
-- How long an object of a sorted list can stay behind others, when the one that is taken goes back
-- behind all objects of its new key: the order in which os/sched.c gives the tasks their turns.
use xin_os.Base.{
  ℕ, ◌+◌, ◌-◌, ◌≤◌, ◌<◌, ◌≡◌, ◌≢◌, refl, true, false, List, [], ◌∷◌, ◌++◌, arith, leb, ◌==◌,
  if◌then◌else◌, Bool-cases, ◌⊎◌, inl, inr, Ptr, update, update_lem, update_self, All,
}
use xin_os.Chain.{NotIn}
use xin_os.Chain.Order.{insert_sorted, IsSorted, IsSorted-remove, IsSorted-frame}

abbrev pub Among : Ptr → List Ptr → Type 0
Among q [] = ⊥
Among q (x ∷ xs) = (x ≡ q) ⊎ Among q xs

-- Each object before `q` counts by how far its key is from going behind `q`.
abbrev pub wait : (Ptr → ℕ) → Ptr → List Ptr → ℕ
wait key q [] = 0
wait key q (x ∷ xs) = if x == q then 0 else key q + 1 - key x + wait key q xs

pub Among-le :
    (key : Ptr → ℕ) (a : ℕ) (q : Ptr) (xs : List Ptr)
    → All (λ y. a ≤ key y) xs
    → Among q xs
    → a ≤ key q
Among-le key a q [] h m = absurd m
Among-le key a q (x ∷ xs) h (inl e) = rw (← e) h.0
Among-le key a q (x ∷ xs) h (inr m) = Among-le key a q xs h.1 m

module _ (key : Ptr → ℕ) (p q : Ptr) (ne : p ≢ q) where
  wait-insert_le :
      (ws : List Ptr) → wait key q (insert_sorted key p ws) ≤ wait key q ws + (key q + 1 - key p)
  wait-insert_le [] = ground arith
  wait-insert_le (x ∷ xs) = elim (Bool-cases (leb (key x) (key p))) [
    | inl yep ↦ rw yep (elim (Bool-cases (x == q)) [
      | inl e ↦ rw e (omega arith)
      | inr e ↦ rw e (omega (arith, wait-insert_le xs))
    ])
    | inr nope ↦ let n : (p == q) ≡ false = ground arith in rw (nope, n) (omega arith)
  ]

  -- An object that is put behind `q` does not count.
  wait-insert_behind :
      (ws : List Ptr)
      → IsSorted key ws
      → Among q ws
      → key q ≤ key p
      → wait key q (insert_sorted key p ws) ≡ wait key q ws
  wait-insert_behind [] s m le = absurd m
  wait-insert_behind (x ∷ xs) s (inl here) le =
      let yep : leb (key x) (key p) ≡ true = rw here (ground arith) in
      let e : (x == q) ≡ true = ground arith in rw (yep, e) refl
  wait-insert_behind (x ∷ xs) s (inr m) le =
      let l = Among-le key (key x) q xs s.0 m in
      let yep : leb (key x) (key p) ≡ true = ground arith in
      rw yep (elim (Bool-cases (x == q)) [
        | inl e ↦ rw e refl
        | inr e ↦ rw e (omega (arith, wait-insert_behind xs s.1 m le))
      ])

wait-frame :
    (key : Ptr → ℕ) (p q : Ptr) (v : ℕ) (ws : List Ptr)
    → p ≢ q
    → NotIn p ws
    → wait (update key p v) q ws ≡ wait key q ws
wait-frame key p q v [] ne n = refl
wait-frame key p q v (x ∷ xs) ne n =
    let e : update key p v q ≡ key q = ground (arith, update_lem key p v q) in
    let f : update key p v x ≡ key x = ground (arith, update_lem key p v x, n.0) in
    elim (Bool-cases (x == q)) [
      | inl h ↦ rw h refl
      | inr h ↦ rw h (omega (arith, e, f, wait-frame key p q v xs ne n.1))
    ]

wait-middle :
    (key : Ptr → ℕ) (p q : Ptr) (ys zs : List Ptr)
    → p ≢ q
    → NotIn q ys
    → wait key q (ys ++ p ∷ zs) ≡ key q + 1 - key p + wait key q (ys ++ zs)
wait-middle key p q [] zs ne n = let e : (p == q) ≡ false = ground arith in rw e refl
wait-middle key p q (y ∷ ys) zs ne n =
    let e : (y == q) ≡ false = ground (arith, n.0) in
    rw e (omega (arith, wait-middle key p q ys zs ne n.1))

-- The key after a turn: one more, up to a limit.
abbrev pub aged : ℕ → ℕ → ℕ
aged limit k = if leb limit k then k else k + 1

pub sorted_middle :
    (key : Ptr → ℕ) (p : Ptr) (ys zs : List Ptr)
    → IsSorted key (ys ++ p ∷ zs)
    → All (λ y. key p ≤ key y) zs
sorted_middle key p [] zs s = s.0
sorted_middle key p (y ∷ ys) zs s = sorted_middle key p ys zs s.1

pub Among-append : (q : Ptr) (ys zs : List Ptr) → Among q zs → Among q (ys ++ zs)
Among-append q [] zs m = m
Among-append q (y ∷ ys) zs m = inr (Among-append q ys zs m)

-- A turn of an object before `q` brings `q` nearer to its own.
pub wait-turn :
    (key : Ptr → ℕ) (limit : ℕ) (p q : Ptr) (ys zs : List Ptr)
    → p ≢ q
    → IsSorted key (ys ++ p ∷ zs)
    → NotIn p (ys ++ zs)
    → NotIn q ys
    → Among q zs
    → key q ≤ limit
    → (let key' = update key p (aged limit (key p)) in
        wait key' q (insert_sorted key' p (ys ++ zs)) < wait key q (ys ++ p ∷ zs))
wait-turn key limit p q ys zs ne s out early m low =
    let v = aged limit (key p) in
    let k = update key p v in
    let ws = ys ++ zs in
    let kq : k q ≡ key q = ground (arith, update_lem key p v q) in
    let kp : k p ≡ v = update_self key p v in
    let le = Among-le key (key p) q zs (sorted_middle key p ys zs s) m in
    let same = wait-frame key p q v ws ne out in
    let full = wait-middle key p q ys zs ne early in
    elim (Bool-cases (leb (k q) (k p))) [
      | inl behind ↦
          let sorted = IsSorted-frame key p v ws out (IsSorted-remove key p ys zs s) in
          omega (
            arith,
            same,
            full,
            le,
            wait-insert_behind k p q ne ws sorted (Among-append q ys zs m) (ground arith),
          )
      | inr before ↦
          let grown : key p < v = ground (arith, kq, kp) in
          omega (arith, same, full, le, kq, kp, grown, wait-insert_le k p q ne ws)
    ]
