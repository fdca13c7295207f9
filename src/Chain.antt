-- ===== src/Chain.antt =====
-- Singly linked lists in memory, as the task list of os/sched.c and the timer list of os/timer.c
-- use them: `next` is the link field of every object, and NULL ends a list.
pub mod Edit
pub mod Order
pub mod Wait
pub mod Member
use mathlib.Core.List.{append_assoc}
use xin_os.Base.{
  ℕ, zero, suc, ◌+◌, ◌<◌, ◌≡◌, ◌≢◌, refl, Bool, true, false, Option, none, some, List, [], ◌∷◌,
  ◌++◌, arith, ◌==◌, if◌then◌else◌, Bool-cases, inl, inr, Ptr, null, length, ap,
}

-- From `p` the links lead through the objects `xs` to NULL.
abbrev pub Chain : (Ptr → Ptr) → Ptr → List Ptr → Type 0
Chain next p [] = p ≡ null
Chain next p (x ∷ xs) = (p ≡ x) × (x ≢ null) × Chain next (next x) xs

abbrev pub NotIn : Ptr → List Ptr → Type 0
NotIn a [] = Unit
NotIn a (x ∷ xs) = (a ≢ x) × NotIn a xs

abbrev pub Distinct : List Ptr → Type 0
Distinct [] = Unit
Distinct (x ∷ xs) = NotIn x xs × Distinct xs

-- `while (it && go(it)) { prev = it; it = it->next; }`: `prev` and `it` at the end, or `none` when the
-- fuel runs out.
unfoldable pub walk : (Ptr → Bool) → (Ptr → Ptr) → ℕ → Ptr → Ptr → Option (Ptr × Ptr)
walk go next zero prev it = none
walk go next (suc k) prev it = elim (it == null) [
  | true ↦ some (prev, it)
  | false ↦ elim (go it) [ true ↦ walk go next k it (next it) | false ↦ some (prev, it) ]
]

-- The objects that the loop passes, and those that are left.
abbrev pub take_while : (Ptr → Bool) → List Ptr → List Ptr
take_while go [] = []
take_while go (x ∷ xs) = if go x then x ∷ take_while go xs else []

abbrev pub drop_while : (Ptr → Bool) → List Ptr → List Ptr
drop_while go [] = []
drop_while go (x ∷ xs) = if go x then drop_while go xs else x ∷ xs

abbrev pub last_or : Ptr → List Ptr → Ptr
last_or d [] = d
last_or d (x ∷ xs) = last_or x xs

abbrev pub head_or_null : List Ptr → Ptr
head_or_null [] = null
head_or_null (x ∷ xs) = x

-- With more rounds than objects the loop ends where the first object fails the test.
pub walk_lem :
    (go : Ptr → Bool) (next : Ptr → Ptr) (k : ℕ) (prev it : Ptr) (xs : List Ptr)
    → Chain next it xs
    → length xs < k
    → walk go next k prev it
      ≡ some (last_or prev (take_while go xs), head_or_null (drop_while go xs))
unfolding walk
walk_lem go next zero prev it xs c fuel = absurd (omega arith)
walk_lem go next (suc k) prev it [] c fuel = rw c
walk_lem go next (suc k) prev it (x ∷ xs) c fuel =
    let nz : (x == null) ≡ false = ground (arith, c.1) in
    rw c.0 (
      rw (nz, walk)
        (elim (Bool-cases (go x)) [
          | inl yep ↦ rw (yep, walk) (walk_lem go next k x (next x) xs c.2 (omega arith))
          | inr nope ↦ rw nope
        ]))

pub take-append-drop : (go : Ptr → Bool) (xs : List Ptr) → take_while go xs ++ drop_while go xs ≡ xs
take-append-drop go [] = refl
take-append-drop go (x ∷ xs) = elim (Bool-cases (go x)) [
  | inl yep ↦ rw yep (ap (λ l. x ∷ l) (take-append-drop go xs))
  | inr nope ↦ rw nope
]
