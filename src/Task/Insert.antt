-- ===== src/Task/Insert.antt =====
-- `insert_task` of os/sched.c: insertion by priority, first in first out among equals.
use xin_os.Base.{
  ℕ, ◌+◌, ◌%◌, ◌^◌, ◌<◌, ◌≡◌, ◌≢◌, refl, ◌∙◌, ap, true, false, ◌&&◌, Option, some, List, [], ◌∷◌,
  ◌++◌, arith, leb, ◌==◌, Bool-cases, inl, inr, Ptr, null, u32, signed_ltb, update, update_lem,
  length, fun_ext, sym, subst, ◌⊎◌,
}
use xin_os.Chain.{
  Chain, NotIn, Distinct, walk, walk_lem, take_while, drop_while, take-append-drop, last_or,
  head_or_null,
}
use xin_os.Chain.Edit.{Chain-link, Chain-frame}
use xin_os.Chain.Order.{not_after, insert_sorted, length-insert_sorted, Distinct-insert}
use xin_os.Task.{Sched, insert_task, passes, with_next}

-- The priority of a task as a number in the order of `int`.
abbrev pub rank : Sched → Ptr → ℕ
rank s p = (s.tasks.priority p + 2 ^ 31) % 2 ^ 32

-- The task list holds the tasks `xs`, and the counter agrees.
pub record IsQueue (s : Sched) (xs : List Ptr) : Type 0 where
  pub chain : Chain s.tasks.next s.first_task xs
  pub distinct : Distinct xs
  pub count : s.tasks_num ≡ length xs
  pub few : length xs < 2 ^ 30

-- Only the links, the head and the counter change.
pub record Relinked (s s' : Sched) : Type 0 where
  pub next : Ptr → Ptr
  pub first : Ptr
  pub num : ℕ
  pub same : s' ≡ (
      let t = s.tasks in
      record s { tasks_num = num; first_task = first; tasks = record t { next = next } })

passes_eq : (s : Sched) (t : Ptr) → passes s t ≡ not_after (rank s) t
passes_eq s t = fun_ext λ it. ground arith

-- What a successful insertion leaves.
pub record Inserted (s : Sched) (t : Ptr) (xs : List Ptr) (r : Option (ℕ × Sched)) : Type 0 where
  pub after : Sched
  pub result : r ≡ some (0, after)
  pub queue : IsQueue after (insert_sorted (rank s) t xs)
  pub relinked : Relinked s after

module _ (fuel : ℕ) (s : Sched) (t : Ptr) (nz : t ≢ null) where
  insert_empty : IsQueue s [] → s.tasks.next t ≡ null → Inserted s t [] (insert_task fuel s t)
  unfolding insert_task
  insert_empty q e =
      let g : (s.first_task == null && s.tasks_num == 0) ≡ true =
        ground (arith, q.chain, q.count) in
      record {
        after = record s { first_task = t; tasks_num = u32 (s.tasks_num + 1) };
        result = rw g;
        queue = record {
          chain = (refl, nz, e);
          distinct = (tt, tt);
          count = omega (arith, q.count);
          few = omega arith;
        };
        relinked = record {
          next = s.tasks.next;
          first = t;
          num = u32 (s.tasks_num + 1);
          same = refl;
        };
      }

  module _ (x : Ptr) (xs : List Ptr) (q : IsQueue s (x ∷ xs)) (out : NotIn t (x ∷ xs))
      (enough : length (x ∷ xs) < fuel) (room : length (x ∷ xs) + 1 < 2 ^ 30) where
    some_task : (s.first_task == null) ≡ false
    some_task = ground (arith, q.chain.0, q.chain.1)

    insert_front : leb (rank s x) (rank s t) ≡ false → Inserted s t (x ∷ xs) (insert_task fuel s t)
    unfolding insert_task
    insert_front lt =
        let n = update s.tasks.next t s.first_task in
        let g : signed_ltb (s.tasks.priority t) (s.tasks.priority s.first_task) ≡ true =
          rw (q.chain.0) (ground arith) in
        let e : n t ≡ s.first_task = ground (arith, update_lem s.tasks.next t s.first_task t) in
        record {
          after = record (with_next s t s.first_task) {
            first_task = t;
            tasks_num = u32 (s.tasks_num + 1);
          };
          result = rw (some_task, g);
          queue = rw lt (record {
            chain = (
              refl,
              nz,
              rw e (Chain-frame s.tasks.next t s.first_task s.first_task (x ∷ xs) q.chain out),
            );
            distinct = (out, q.distinct);
            count = omega (arith, q.count);
            few = omega arith;
          });
          relinked = record { next = n; first = t; num = u32 (s.tasks_num + 1); same = refl };
        }

    insert_behind : leb (rank s x) (rank s t) ≡ true → Inserted s t (x ∷ xs) (insert_task fuel s t)
    unfolding insert_task
    insert_behind le =
        let go = not_after (rank s) t in
        let ys = take_while go xs in
        let zs = drop_while go xs in
        let split : x ∷ ys ++ zs ≡ x ∷ xs = ap (λ l. x ∷ l) (take-append-drop go xs) in
        let n = update (update s.tasks.next (last_or x ys) t) t (head_or_null zs) in
        let g : signed_ltb (s.tasks.priority t) (s.tasks.priority s.first_task) ≡ false =
          rw (q.chain.0) (ground arith) in
        let w : walk (passes s t) s.tasks.next fuel s.first_task s.first_task
            ≡ some (last_or x ys, head_or_null zs) =
          rw (passes_eq s t) (
            walk_lem go s.tasks.next fuel s.first_task s.first_task (x ∷ xs) q.chain enough
            ∙ rw le) in
        record {
          after = record (with_next (with_next s (last_or x ys) t) t (head_or_null zs)) {
            tasks_num = u32 (s.tasks_num + 1);
          };
          result = rw (some_task, g, w);
          queue = rw le (record {
            chain =
                Chain-link s.tasks.next t s.first_task x ys zs
                  (subst (λ l. Chain s.tasks.next s.first_task l) (sym split) q.chain)
                  (subst (λ l. Distinct l) (sym split) q.distinct) nz
                  (subst (λ l. NotIn t l) (sym split) out);
            distinct = rw le at (Distinct-insert (rank s) t (x ∷ xs) q.distinct out);
            count = ground (arith, q.count, le, length-insert_sorted (rank s) t (x ∷ xs));
            few = ground (arith, le, length-insert_sorted (rank s) t (x ∷ xs));
          });
          relinked = record {
            next = n;
            first = s.first_task;
            num = u32 (s.tasks_num + 1);
            same = refl;
          };
        }

-- `insert_task` succeeds: the list holds the task behind all those whose priority number is not
-- greater and before the others, in the old order; the counter goes up, and only links change.
pub insert_task-Inserted :
    (fuel : ℕ) (s : Sched) (t : Ptr) (xs : List Ptr)
    → t ≢ null
    → IsQueue s xs
    → NotIn t xs
    → s.tasks.next t ≡ null ⊎ (xs ≢ [])
    → length xs < fuel
    → length xs + 1 < 2 ^ 30
    → Inserted s t xs (insert_task fuel s t)
insert_task-Inserted fuel s t [] nz q out (inl e) enough room = insert_empty fuel s t nz q e
insert_task-Inserted fuel s t [] nz q out (inr ne) enough room = absurd (ne refl)
insert_task-Inserted fuel s t (x ∷ xs) nz q out links enough room =
    elim (Bool-cases (leb (rank s x) (rank s t))) [
      | inl le ↦ insert_behind fuel s t nz x xs q out enough room le
      | inr lt ↦ insert_front fuel s t nz x xs q out enough room lt
    ]
