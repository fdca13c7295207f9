-- ===== src/Task/Ready.antt =====
-- What holds of the task list between two calls of `schedule` of os/sched.c, and that a turn keeps it.
use xin_os.Base.{
  Bool-cases, inl, inr, Bool, ℕ, ◌+◌, ◌^◌, ◌<◌, ◌≡◌, ◌≢◌, refl, ap, ◌∙◌, sym, subst, fun_ext, true,
  false, Option, some, List, [], ◌∷◌, ◌++◌, arith, ◌==◌, Ptr, null, length, length-append,
  signed_ltb, update, All,
}
use xin_os.Chain.{Chain, Distinct, take_while, drop_while, take-append-drop}
use xin_os.Chain.Order.{
  insert_sorted, IsSorted, not_after, insert_sorted-IsSorted, IsSorted-remove, IsSorted-frame,
  Distinct-remove,
}
use xin_os.Chain.Wait.{aged}
use xin_os.Task.{Sched, Control, task_at, schedule}
use xin_os.Task.Insert.{rank, IsQueue}
use xin_os.Task.Cut.{DistinctIds}
use xin_os.Task.Pop.{asleep, aged_rank, pop_task-Popped, Chain-mem-ne}

-- The list is queued, its tasks have different numbers, and it is ordered by priority.
pub record IsReady (s : Sched) (xs : List Ptr) : Type 0 where
  pub queue : IsQueue s xs
  pub ids : DistinctIds s.tasks.task_id xs
  pub sorted : IsSorted (rank s) xs

-- The priority 256, in the order of `int`.
abbrev pub rank_limit : ℕ
rank_limit = 2 ^ 31 + 256

pub aged_rank-aged :
    (s : Sched) (p : Ptr) → aged_rank s p ≡ update (rank s) p (aged rank_limit (rank s p))
unfolding update
aged_rank-aged s p = fun_ext λ a. ground arith

module _ (id : Ptr → ℕ) where
  All-split :
      (x : Ptr) (ys zs : List Ptr)
      → All (λ y. id y ≢ id x) (ys ++ zs)
      → All (λ y. id y ≢ id x) ys × All (λ y. id y ≢ id x) zs
  All-split x [] zs h = (tt, h)
  All-split x (y ∷ ys) zs h = let r = All-split x ys zs h.1 in ((h.0, r.0), r.1)

  All-join :
      (x : Ptr) (ys zs : List Ptr)
      → All (λ y. id y ≢ id x) ys
      → All (λ y. id y ≢ id x) zs
      → All (λ y. id y ≢ id x) (ys ++ zs)
  All-join x [] zs h k = k
  All-join x (y ∷ ys) zs h k = (h.0, All-join x ys zs h.1 k)

  pub DistinctIds-remove :
      (t : Ptr) (ys zs : List Ptr)
      → DistinctIds id (ys ++ t ∷ zs)
      → DistinctIds id (ys ++ zs) × All (λ y. id y ≢ id t) (ys ++ zs)
  DistinctIds-remove t [] zs d = (d.1, d.0)
  DistinctIds-remove t (y ∷ ys) zs d =
      let (d', n') = DistinctIds-remove t ys zs d.1 in
      let r = All-split y ys (t ∷ zs) d.0 in
      ((All-join y ys zs r.0 r.1.1, d'), ((λ e. r.1.0 (sym e)), n'))

  pub DistinctIds-middle :
      (t : Ptr) (ys zs : List Ptr)
      → DistinctIds id (ys ++ zs)
      → All (λ y. id y ≢ id t) (ys ++ zs)
      → DistinctIds id (ys ++ t ∷ zs)
  DistinctIds-middle t [] zs d n = (n, d)
  DistinctIds-middle t (y ∷ ys) zs d n = (
    (let r = All-split y ys zs d.0 in All-join y ys (t ∷ zs) r.0 ((λ e. n.0 (sym e)), r.1)),
    DistinctIds-middle t ys zs d.1 n.1,
  )

  DistinctIds-turn :
      (key : Ptr → ℕ) (t : Ptr) (ys zs : List Ptr)
      → DistinctIds id (ys ++ t ∷ zs)
      → DistinctIds id (insert_sorted key t (ys ++ zs))
  DistinctIds-turn key t ys zs d =
      let ws = ys ++ zs in
      let e = take-append-drop (not_after key t) ws in
      let r = DistinctIds-remove t ys zs d in
      DistinctIds-middle t (take_while (not_after key t) ws) (drop_while (not_after key t) ws)
        (rw e r.0) (rw e r.1)

-- A turn of the task `p`, behind the sleeping `ys` and before `zs`.
pub record Turn (s : Sched) (p : Ptr) (ys zs : List Ptr) (r : Option (Sched × Control))
    : Type 0 where
  pub after : Sched
  pub result : r ≡ some (after, task_at p)
  pub ready : IsReady after (insert_sorted (aged_rank s p) p (ys ++ zs))
  pub ranks : rank after ≡ aged_rank s p
  pub states : after.tasks.state ≡ s.tasks.state
  pub current : after.cur_task ≡ p
  pub hart : after.hart ≡ s.hart
  pub ids : after.tasks.task_id ≡ s.tasks.task_id
  pub numbers : after.next_task_id ≡ s.next_task_id
  pub awake : asleep s p ≡ false

some_task :
    (s : Sched) (p : Ptr) (xs ys zs : List Ptr)
    → IsQueue s xs
    → xs ≡ ys ++ p ∷ zs
    → (signed_ltb 0 s.tasks_num ≡ true) × ((p == null) ≡ false)
some_task s p xs ys zs q e =
    let nz =
      Chain-mem-ne s.tasks.next p s.first_task ys zs
        (subst (λ l. Chain s.tasks.next s.first_task l) e q.chain) in
    let some_left : 0 < length xs = omega (arith, ap length e, length-append ys (p ∷ zs)) in
    (ground (arith, q.count, q.few, some_left), ground (arith, nz))

first_awake :
    (go : Ptr → Bool) (xs : List Ptr) (p : Ptr) (zs : List Ptr)
    → drop_while go xs ≡ p ∷ zs
    → go p ≡ false
first_awake go [] p zs e = cc
first_awake go (x ∷ xs) p zs e = elim (Bool-cases (go x)) [
  | inl b ↦ first_awake go xs p zs (rw b at e)
  | inr b ↦ let same : x ∷ xs ≡ p ∷ zs = rw b at e in cc
]

-- On a list that is ready, when some task is awake, `schedule` runs the first one, puts it back by
-- its aged priority, changes no task's state, and keeps the list ready.
pub schedule-Turn :
    (fuel : ℕ) (s : Sched) (p : Ptr) (xs zs : List Ptr)
    → IsReady s xs
    → length xs < fuel
    → drop_while (asleep s) xs ≡ p ∷ zs
    → Turn s p (take_while (asleep s) xs) zs (schedule fuel s)
unfolding schedule
schedule-Turn fuel s p xs zs h enough e =
    let ys = take_while (asleep s) xs in
    let split : xs ≡ ys ++ p ∷ zs =
      sym (take-append-drop (asleep s) xs) ∙ ap (λ l. take_while (asleep s) xs ++ l) e in
    let k = pop_task-Popped fuel s p xs zs h.queue h.ids enough e in
    let k_after = k.after in
    let (g, g') = some_task s p xs ys zs h.queue split in
    let sorted = subst (λ l. IsSorted (rank s) l) split h.sorted in
    let out = (Distinct-remove p ys zs (subst (λ l. Distinct l) split h.queue.distinct)).1 in
    let ids = subst (λ l. DistinctIds s.tasks.task_id l) split h.ids in
    record {
      after = record k_after { cur_task = p };
      result = rw (schedule, g, k.result, g') refl;
      ready = record {
        queue = record {
          chain = k.queue.chain;
          distinct = k.queue.distinct;
          count = k.queue.count;
          few = k.queue.few;
        };
        ids =
            subst (λ (id : Ptr → ℕ). DistinctIds id (insert_sorted (aged_rank s p) p (ys ++ zs)))
              (sym k.ids) (DistinctIds-turn s.tasks.task_id (aged_rank s p) p ys zs ids);
        sorted =
            subst (λ (key : Ptr → ℕ). IsSorted key (insert_sorted (aged_rank s p) p (ys ++ zs)))
              (sym k.ranks)
              (insert_sorted-IsSorted (aged_rank s p) p (ys ++ zs) (
                subst (λ (key : Ptr → ℕ). IsSorted key (ys ++ zs)) (sym (aged_rank-aged s p))
                  (IsSorted-frame (rank s) p _ (ys ++ zs) out
                    (IsSorted-remove (rank s) p ys zs sorted))));
      };
      ranks = k.ranks;
      states = k.states;
      current = refl;
      hart = k.hart;
      ids = k.ids;
      numbers = k.numbers;
      awake = first_awake (asleep s) xs p zs e;
    }
