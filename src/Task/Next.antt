-- ===== src/Task/Next.antt =====
-- The task that `schedule` of os/sched.c takes: the first awake one, which stands before any other
-- awake task or is it.
use xin_os.Base.{◌≡◌, refl, ap, true, false, List, [], ◌∷◌, Bool-cases, ◌⊎◌, inl, inr, Ptr}
use xin_os.Chain.{NotIn, take_while, drop_while}
use xin_os.Chain.Wait.{Among}
use xin_os.Task.{Sched}
use xin_os.Task.Pop.{asleep}

-- An awake task of the list: the first one awake is it, or stands before it.
pub record Next (s : Sched) (q : Ptr) (xs : List Ptr) : Type 0 where
  pub task : Ptr
  pub rest : List Ptr
  pub first : drop_while (asleep s) xs ≡ task ∷ rest
  pub awake : asleep s task ≡ false
  pub behind : (task ≡ q) ⊎ (NotIn q (take_while (asleep s) xs) × Among q rest)

first_or : (q x : Ptr) (xs : List Ptr) → Among q (x ∷ xs) → (x ≡ q) ⊎ (NotIn q [] × Among q xs)
first_or q x xs (inl e) = inl e
first_or q x xs (inr m) = inr (tt, m)

later :
    (s : Sched) (q x : Ptr) (xs : List Ptr)
    → asleep s q ≡ false
    → asleep s x ≡ true
    → Among q (x ∷ xs)
    → Among q xs
later s q x xs awake a (inl e) = let f : asleep s x ≡ asleep s q = ap (asleep s) e in absurd cc
later s q x xs awake a (inr m) = m

passed :
    (s : Sched) (q x t : Ptr) (ys zs : List Ptr)
    → asleep s q ≡ false
    → asleep s x ≡ true
    → (t ≡ q) ⊎ (NotIn q ys × Among q zs)
    → (t ≡ q) ⊎ (NotIn q (x ∷ ys) × Among q zs)
passed s q x t ys zs awake a (inl e) = inl e
passed s q x t ys zs awake a (inr (n, m)) =
    inr (((λ e. let f : asleep s q ≡ asleep s x = ap (asleep s) e in cc), n), m)

pub Next-awake :
    (s : Sched) (q : Ptr) (xs : List Ptr) → Among q xs → asleep s q ≡ false → Next s q xs
Next-awake s q [] m awake = absurd m
Next-awake s q (x ∷ xs) m awake = elim (Bool-cases (asleep s x)) [
  | inr a ↦ record {
    task = x;
    rest = xs;
    first = rw a refl;
    awake = a;
    behind = rw a (first_or q x xs m);
  }
  | inl a ↦
      let n = Next-awake s q xs (later s q x xs awake a m) awake in
      record {
        task = n.task;
        rest = n.rest;
        first = rw a n.first;
        awake = n.awake;
        behind = rw a (passed s q x n.task (take_while (asleep s) xs) n.rest awake a n.behind);
      }
]
