-- ===== src/Task/Cut.antt =====
-- The list without the task that `pop_task` of os/sched.c takes out.
use xin_os.Base.{
  ℕ, ◌+◌, ◌%◌, ◌^◌, ◌≡◌, ◌≢◌, refl, true, false, ◌⊎◌, List, [], ◌∷◌, ◌++◌, arith, ◌==◌, inl, inr,
  Ptr, null, update, length-append, sym, subst, All,
}
use xin_os.Chain.{Chain, last_or}
use xin_os.Chain.Edit.{Chain-unlink}
use xin_os.Chain.Order.{Distinct-remove}
use xin_os.Task.{Sched, cut_task, aged_priority}
use xin_os.Task.Insert.{rank, IsQueue}

-- Different tasks have different numbers.
abbrev pub DistinctIds : (Ptr → ℕ) → List Ptr → Type 0
DistinctIds id [] = Unit
DistinctIds id (x ∷ xs) = All (λ y. id y ≢ id x) xs × DistinctIds id xs

pub All-middle :
    (id : Ptr → ℕ) (x p : Ptr) (ys zs : List Ptr)
    → All (λ y. id y ≢ id x) (ys ++ p ∷ zs)
    → id p ≢ id x
All-middle id x p [] zs h = h.0
All-middle id x p (y ∷ ys) zs h = All-middle id x p ys zs h.1

-- The state after the task `p` is taken out: the others are queued.
module _ (s : Sched) (prev p : Ptr) where
  pub cut_front :
      (xs : List Ptr)
      → IsQueue s (p ∷ xs)
      → IsQueue (cut_task s prev p) xs
        × ((cut_task s prev p).tasks.next p ≡ null ⊎ (xs ≢ []))
        × (rank (cut_task s prev p) ≡ λ a. (aged_priority s p a + 2 ^ 31) % 2 ^ 32)
        × ((cut_task s prev p).tasks.state ≡ s.tasks.state)
  unfolding cut_task
  cut_front xs q =
      let g : (s.tasks.task_id p == s.tasks.task_id s.first_task) ≡ true =
        rw q.chain.0 (ground arith) in
      rw g (
        record {
          chain = rw q.chain.0 q.chain.2;
          distinct = q.distinct.1;
          count = omega (arith, q.count, q.few);
          few = omega (arith, q.few);
        },
        links xs q.chain.2,
        refl,
        refl,
      )
    where
      links :
          (xs : List Ptr)
          → Chain s.tasks.next (s.tasks.next p) xs
          → (s.tasks.next p ≡ null) ⊎ (xs ≢ [])
      links [] c = inl c
      links (y ∷ ys) c = inr (λ e. cc)

  pub cut_middle :
      (x : Ptr) (ys zs : List Ptr)
      → IsQueue s (x ∷ ys ++ p ∷ zs)
      → prev ≡ last_or x ys
      → s.tasks.task_id p ≢ s.tasks.task_id x
      → IsQueue (cut_task s prev p) (x ∷ ys ++ zs)
        × ((cut_task s prev p).tasks.next p ≡ null ⊎ (x ∷ ys ++ zs ≢ []))
        × (rank (cut_task s prev p) ≡ λ a. (aged_priority s p a + 2 ^ 31) % 2 ^ 32)
        × ((cut_task s prev p).tasks.state ≡ s.tasks.state)
  unfolding cut_task
  cut_middle x ys zs q e other =
      let g : (s.tasks.task_id p == s.tasks.task_id s.first_task) ≡ false =
        rw q.chain.0 (ground (arith, other)) in
      let l1 = length-append ys (p ∷ zs) in
      let l2 = length-append ys zs in
      rw g (
        record {
          chain =
              subst
                (λ v. Chain (update s.tasks.next v (s.tasks.next p)) s.first_task (x ∷ ys ++ zs))
                (sym e) (Chain-unlink s.tasks.next p s.first_task x ys zs q.chain q.distinct);
          distinct = (Distinct-remove p (x ∷ ys) zs q.distinct).0;
          count = omega (arith, q.count, q.few, l1, l2);
          few = omega (arith, q.few, l1, l2);
        },
        inr (λ e. cc),
        refl,
        refl,
      )
