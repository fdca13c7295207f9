-- ===== src/Task/Number.antt =====
-- The numbers of the tasks: `task_create` of os/sched.c gives each task a new one, and keeps the list
-- ready for `schedule`.
use xin_os.Base.{
  ℕ, ◌+◌, ◌-◌, ◌%◌, ◌^◌, ◌<◌, ◌≡◌, ◌≢◌, sym, subst, fun_ext, List, [], ◌∷◌, ◌++◌, arith, Ptr, null,
  length, update, update_lem, All,
}
use xin_os.Chain.{NotIn, take_while, drop_while, take-append-drop}
use xin_os.Chain.Order.{
  insert_sorted, IsSorted, not_after, insert_sorted-IsSorted, IsSorted-frame, IsSorted-remove,
}
use xin_os.Task.{Sched, task_create, task_exit}
use xin_os.Task.Insert.{rank}
use xin_os.Task.Cut.{DistinctIds}
use xin_os.Task.Create.{rank_with, Created, task_create-Created}
use xin_os.Task.Exit.{Exited, task_exit-Exited}
use xin_os.Chain.Member.{All-Among, All-of_Among, Among-middle}
use xin_os.Task.Ready.{IsReady, DistinctIds-middle, DistinctIds-remove}

-- The list is ready, and the next number is greater than those given.
pub record IsNumbered (s : Sched) (xs : List Ptr) : Type 0 where
  pub ready : IsReady s xs
  pub fresh : All (λ y. s.tasks.task_id y < s.next_task_id) xs

-- The numbers of the old tasks, and that the new one differs.
module _ (id : Ptr → ℕ) (t : Ptr) (n : ℕ) where
  ids-frame : (xs : List Ptr) → NotIn t xs → DistinctIds id xs → DistinctIds (update id t n) xs
  ids-frame [] out d = tt
  ids-frame (x ∷ xs) out d = (differs x xs out.0 out.1 d.0, ids-frame xs out.1 d.1)
    where
      differs :
          (x : Ptr) (xs : List Ptr)
          → t ≢ x
          → NotIn t xs
          → All (λ y. id y ≢ id x) xs
          → All (λ y. update id t n y ≢ update id t n x) xs
      differs x [] ne out d = tt
      differs x (y ∷ ys) ne out d = (
        ground (arith, update_lem id t n x, update_lem id t n y, ne, out.0, d.0),
        differs x ys ne out.1 d.1,
      )

  ids_differ :
      (xs : List Ptr)
      → NotIn t xs
      → All (λ y. id y < n) xs
      → All (λ y. update id t n y ≢ update id t n t) xs
  ids_differ [] out f = tt
  ids_differ (x ∷ xs) out f = (
    ground (arith, update_lem id t n x, update_lem id t n t, out.0, f.0),
    ids_differ xs out.1 f.1,
  )

  ids_below :
      (xs : List Ptr) → NotIn t xs → All (λ y. id y < n) xs → All (λ y. update id t n y < n + 1) xs
  ids_below [] out f = tt
  ids_below (x ∷ xs) out f =
      (ground (arith, update_lem id t n x, out.0, f.0), ids_below xs out.1 f.1)

All-middle-in :
    (id : Ptr → ℕ) (b : ℕ) (t : Ptr) (ys zs : List Ptr)
    → id t < b
    → All (λ y. id y < b) (ys ++ zs)
    → All (λ y. id y < b) (ys ++ t ∷ zs)
All-middle-in id b t [] zs l h = (l, h)
All-middle-in id b t (y ∷ ys) zs l h = (h.0, All-middle-in id b t ys zs l h.1)

rank_with-update :
    (s : Sched) (t : Ptr) (n : ℕ) → rank_with s t n ≡ update (rank s) t ((n + 2 ^ 31) % 2 ^ 32)
unfolding update
rank_with-update s t n = fun_ext λ a. ground arith

pub task_create-IsNumbered :
    (fuel : ℕ) (s : Sched) (t task param priority timeslice : ℕ) (xs : List Ptr)
    → IsNumbered s xs
    → t ≢ null
    → NotIn t xs
    → length xs < 10
    → length xs < fuel
    → s.next_task_id < 2 ^ 32 - 1
    → (c : Created s t task priority timeslice xs
        (task_create fuel s t task param priority timeslice))
      × IsNumbered c.after (insert_sorted (rank_with s t priority) t xs)
task_create-IsNumbered fuel s t task param priority timeslice xs h nz out room enough more =
    let c =
      task_create-Created fuel s t task param priority timeslice xs h.ready.queue nz out room
        enough in
    let id = s.tasks.task_id in
    let n = s.next_task_id in
    let key = rank_with s t priority in
    let ys = take_while (not_after key t) xs in
    let zs = drop_while (not_after key t) xs in
    let e : xs ≡ ys ++ zs = sym (take-append-drop (not_after key t) xs) in
    let next : c.after.next_task_id ≡ n + 1 = omega (arith, c.next_id) in
    (
      c,
      record {
        ready = record {
          queue = c.queue;
          ids =
              subst (λ (f : Ptr → ℕ). DistinctIds f (insert_sorted key t xs)) (sym c.ids)
                (DistinctIds-middle (update id t n) t ys zs
                  (subst (DistinctIds (update id t n)) e (ids-frame id t n xs out h.ready.ids))
                  (subst (All (λ y. update id t n y ≢ update id t n t)) e
                    (ids_differ id t n xs out h.fresh)));
          sorted =
              subst (λ (f : Ptr → ℕ). IsSorted f (insert_sorted key t xs)) (sym c.ranks)
                (insert_sorted-IsSorted key t xs (
                  subst (λ (f : Ptr → ℕ). IsSorted f xs) (sym (rank_with-update s t priority))
                    (IsSorted-frame (rank s) t _ xs out h.ready.sorted)));
        };
        fresh =
            subst (λ (f : Ptr → ℕ). All (λ y. f y < c.after.next_task_id) (insert_sorted key t xs))
              (sym c.ids)
              (subst (λ b. All (λ y. update id t n y < b) (insert_sorted key t xs)) (sym next)
                (All-middle-in (update id t n) (n + 1) t ys zs (ground (arith, update_lem id t n t))
                  (subst (All (λ y. update id t n y < n + 1)) e
                    (ids_below id t n xs out h.fresh))));
      },
    )

-- `task_exit` of the current task, in a list that is ready and has numbers below the next one, leaves the
-- others so.
pub task_exit-IsNumbered :
    (fuel : ℕ) (s : Sched) (ys zs : List Ptr)
    → IsNumbered s (ys ++ s.cur_task ∷ zs)
    → length (ys ++ s.cur_task ∷ zs) < fuel
    → (x : Exited s ys zs (task_exit fuel s)) × IsNumbered x.after (ys ++ zs)
task_exit-IsNumbered fuel s ys zs h enough =
    let x = task_exit-Exited fuel s ys zs h.ready.queue h.ready.ids enough in
    let id = s.tasks.task_id in
    let IsOld : Ptr → Type 0 = λ y. id y < s.next_task_id in
    (
      x,
      record {
        ready = record {
          queue = x.queue;
          ids =
              subst (λ (f : Ptr → ℕ). DistinctIds f (ys ++ zs)) (sym x.ids)
                (DistinctIds-remove id s.cur_task ys zs h.ready.ids).0;
          sorted =
              subst (λ (f : Ptr → ℕ). IsSorted (λ a. (f a + 2 ^ 31) % 2 ^ 32) (ys ++ zs))
                (sym x.priorities) (IsSorted-remove (rank s) s.cur_task ys zs h.ready.sorted);
        };
        fresh =
            subst (λ (f : Ptr → ℕ). All (λ y. f y < x.after.next_task_id) (ys ++ zs)) (sym x.ids)
              (subst (λ n. All (λ y. id y < n) (ys ++ zs)) (sym x.numbers)
                (All-of_Among IsOld (ys ++ zs) (λ q m.
                  All-Among IsOld q (ys ++ s.cur_task ∷ zs) h.fresh
                    (Among-middle q s.cur_task ys zs m))));
      },
    )
