-- ===== src/Task/Pop.antt =====
-- `pop_task` of os/sched.c: the first task that does not sleep is chosen, and goes behind all tasks of
-- its new priority.
use xin_os.Base.{
  ℕ, ◌+◌, ◌%◌, ◌^◌, ◌<◌, ◌≡◌, ◌≢◌, refl, ◌∙◌, ap, Bool, false, Option, none, some, List, [], ◌∷◌,
  ◌++◌, arith, ◌==◌, Bool-cases, inl, inr, Ptr, null, length, length-append, sym, subst,
}
use xin_os.Chain.{
  Chain, walk, walk_lem, take_while, drop_while, take-append-drop, last_or, head_or_null,
}
use xin_os.Chain.Order.{insert_sorted, Distinct-remove}
use xin_os.Task.Cut.{DistinctIds, All-middle, cut_front, cut_middle}
use xin_os.Task.{Sched, is_sleeping, insert_task, pop_task, cut_task, aged_priority}
use xin_os.Task.Insert.{rank, IsQueue, Inserted, insert_task-Inserted}

abbrev pub asleep : Sched → Ptr → Bool
asleep s p = is_sleeping (s.tasks.state p)

-- The order of priorities after `pop_task` has chosen `p`.
abbrev pub aged_rank : Sched → Ptr → Ptr → ℕ
aged_rank s p a = (aged_priority s p a + 2 ^ 31) % 2 ^ 32

-- What `pop_task` does when `p` is the first task awake, behind the sleeping `ys` and before `zs`.
pub record Popped (s : Sched) (p : Ptr) (ys zs : List Ptr) (r : Option (Ptr × Sched)) : Type 0 where
  pub after : Sched
  pub result : r ≡ some (p, after)
  pub queue : IsQueue after (insert_sorted (aged_rank s p) p (ys ++ zs))
  pub ranks : rank after ≡ aged_rank s p
  pub states : after.tasks.state ≡ s.tasks.state
  pub hart : after.hart ≡ s.hart
  pub ids : after.tasks.task_id ≡ s.tasks.task_id
  pub numbers : after.next_task_id ≡ s.next_task_id

cut_task-hart :
    (s : Sched) (prev p : Ptr)
    → ((cut_task s prev p).hart ≡ s.hart)
      × ((cut_task s prev p).tasks.task_id ≡ s.tasks.task_id)
      × ((cut_task s prev p).next_task_id ≡ s.next_task_id)
unfolding cut_task
cut_task-hart s prev p = elim (Bool-cases (s.tasks.task_id p == s.tasks.task_id s.first_task)) [
  | inl e ↦ rw (cut_task, e) (refl, refl, refl)
  | inr e ↦ rw (cut_task, e) (refl, refl, refl)
]

Popped-of_Inserted :
    (s cut : Sched) (p : Ptr) (ys zs : List Ptr) (r : Option (ℕ × Sched))
    → rank cut ≡ aged_rank s p
    → cut.tasks.state ≡ s.tasks.state
    → cut.hart ≡ s.hart
    → cut.tasks.task_id ≡ s.tasks.task_id
    → cut.next_task_id ≡ s.next_task_id
    → Inserted cut p (ys ++ zs) r
    → Popped s p ys zs (elim r [ none ↦ none | some (_, s') ↦ some (p, s') ])
Popped-of_Inserted s cut p ys zs r er es eh ei en i = record {
  after = i.after;
  result = rw i.result;
  queue = rw (← er) i.queue;
  ranks = ap (λ (c : Sched). rank c) i.relinked.same ∙ er;
  states = ap (λ (c : Sched). c.tasks.state) i.relinked.same ∙ es;
  hart = ap (λ (c : Sched). c.hart) i.relinked.same ∙ eh;
  ids = ap (λ (c : Sched). c.tasks.task_id) i.relinked.same ∙ ei;
  numbers = ap (λ (c : Sched). c.next_task_id) i.relinked.same ∙ en;
}

module _ (fuel : ℕ) (s : Sched) where
  pop_walk :
      (xs : List Ptr)
      → IsQueue s xs
      → length xs < fuel
      → walk (asleep s) s.tasks.next fuel s.first_task s.first_task
        ≡ some (
          last_or s.first_task (take_while (asleep s) xs),
          head_or_null (drop_while (asleep s) xs),
        )
  pop_walk xs q enough =
      walk_lem (asleep s) s.tasks.next fuel s.first_task s.first_task xs q.chain enough

  -- If every task sleeps, or there is none, `pop_task` returns NULL and changes nothing.
  pub pop_task-asleep :
      (xs : List Ptr)
      → IsQueue s xs
      → length xs < fuel
      → drop_while (asleep s) xs ≡ []
      → pop_task fuel s ≡ some (null, s)
  unfolding pop_task
  pop_task-asleep xs q enough e = elim (Bool-cases (s.first_task == null)) [
    | inl none_left ↦ rw none_left
    | inr some_left ↦ rw (some_left, pop_walk xs q enough, e)
  ]

  pop_reinsert :
      (xs : List Ptr) (prev p : Ptr)
      → xs ≢ []
      → s.first_task ≢ null
      → p ≢ null
      → walk (asleep s) s.tasks.next fuel s.first_task s.first_task ≡ some (prev, p)
      → (ys zs : List Ptr)
      → Popped s p ys zs (elim (insert_task fuel (cut_task s prev p) p) [
        | none ↦ none
        | some (_, s') ↦ some (p, s')
      ])
      → Popped s p ys zs (pop_task fuel s)
  unfolding pop_task
  pop_reinsert xs prev p ne f n w ys zs h =
      let g : (s.first_task == null) ≡ false = ground arith in
      let g' : (p == null) ≡ false = ground arith in rw (g, w, g') h

  pop_first :
      (p : Ptr) (zs : List Ptr)
      → IsQueue s (p ∷ zs)
      → length (p ∷ zs) < fuel
      → asleep s p ≡ false
      → Popped s p [] zs (pop_task fuel s)
  pop_first p zs q enough awake =
      let (cut_q, links, er, es) = cut_front s s.first_task p zs q in
      let w = pop_walk (p ∷ zs) q enough in
      pop_reinsert (p ∷ zs) s.first_task p (λ e. cc) (rw q.chain.0 q.chain.1) q.chain.1
        (rw awake at w) [] zs
        (Popped-of_Inserted s (cut_task s s.first_task p) p [] zs _ er es
          (cut_task-hart s s.first_task p).0 (cut_task-hart s s.first_task p).1
          (cut_task-hart s s.first_task p).2
          (insert_task-Inserted fuel (cut_task s s.first_task p) p zs q.chain.1 cut_q q.distinct.0
            links (omega arith) (omega (arith, q.few))))

  pop_later :
      (x p : Ptr) (ys zs xs : List Ptr)
      → xs ≡ x ∷ ys ++ p ∷ zs
      → IsQueue s xs
      → DistinctIds s.tasks.task_id xs
      → length xs < fuel
      → take_while (asleep s) xs ≡ x ∷ ys
      → drop_while (asleep s) xs ≡ p ∷ zs
      → p ≢ null
      → Popped s p (x ∷ ys) zs (pop_task fuel s)
  pop_later x p ys zs xs e q ids enough et ed pn =
      let q' : IsQueue s (x ∷ ys ++ p ∷ zs) = subst (λ l. IsQueue s l) e q in
      let ids' = subst (λ l. DistinctIds s.tasks.task_id l) e ids in
      let (cut_q, links, er, es) =
        cut_middle s (last_or x ys) p x ys zs q' refl
          (All-middle s.tasks.task_id x p ys zs ids'.0) in
      let (_, out) = Distinct-remove p (x ∷ ys) zs q'.distinct in
      let w : walk (asleep s) s.tasks.next fuel s.first_task s.first_task ≡ some (last_or x ys, p) =
        rw (et, ed) at (pop_walk xs q enough) in
      let l1 = length-append ys (p ∷ zs) in
      let l2 = length-append ys zs in
      let l3 = ap length e in
      pop_reinsert (x ∷ ys ++ p ∷ zs) (last_or x ys) p (λ e. cc) (rw q'.chain.0 q'.chain.1) pn w
        (x ∷ ys) zs
        (Popped-of_Inserted s (cut_task s (last_or x ys) p) p (x ∷ ys) zs _ er es
          (cut_task-hart s (last_or x ys) p).0 (cut_task-hart s (last_or x ys) p).1
          (cut_task-hart s (last_or x ys) p).2
          (insert_task-Inserted fuel (cut_task s (last_or x ys) p) p (x ∷ ys ++ zs) pn cut_q out
            links (omega (arith, l1, l2, l3)) (omega (arith, l1, l2, q'.few))))

pub Chain-mem-ne :
    (next : Ptr → Ptr) (p a : Ptr) (ys zs : List Ptr) → Chain next a (ys ++ p ∷ zs) → p ≢ null
Chain-mem-ne next p a [] zs c = c.1
Chain-mem-ne next p a (y ∷ ys) zs c = Chain-mem-ne next p (next y) ys zs c.2

pub pop_task-Popped :
    (fuel : ℕ) (s : Sched) (p : Ptr) (xs zs : List Ptr)
    → IsQueue s xs
    → DistinctIds s.tasks.task_id xs
    → length xs < fuel
    → drop_while (asleep s) xs ≡ p ∷ zs
    → Popped s p (take_while (asleep s) xs) zs (pop_task fuel s)
pop_task-Popped fuel s p xs zs q ids enough ed = go (take_while (asleep s) xs) refl
  where
    split : xs ≡ take_while (asleep s) xs ++ p ∷ zs
    split = sym (take-append-drop (asleep s) xs) ∙ ap (λ l. take_while (asleep s) xs ++ l) ed

    p_ne : p ≢ null
    p_ne =
        Chain-mem-ne s.tasks.next p s.first_task (take_while (asleep s) xs) zs
          (subst (λ l. Chain s.tasks.next s.first_task l) split q.chain)

    awake :
        (ys xs : List Ptr)
        → drop_while (asleep s) xs ≡ p ∷ zs
        → ys ≡ []
        → take_while (asleep s) xs ≡ ys
        → asleep s p ≡ false
    awake ys [] e e' et = cc
    awake ys (x ∷ xs) e e' et = elim (Bool-cases (asleep s x)) [
      | inl b ↦ absurd (ground (arith, b, e', et))
      | inr b ↦ ground (arith, b, e)
    ]

    go :
        (ys : List Ptr)
        → take_while (asleep s) xs ≡ ys
        → Popped s p (take_while (asleep s) xs) zs (pop_task fuel s)
    go [] et =
        let e : xs ≡ p ∷ zs = split ∙ ap (λ l. l ++ p ∷ zs) et in
        rw et (
          pop_first fuel s p zs (subst (λ l. IsQueue s l) e q) (omega (arith, ap length e))
            (awake [] xs ed refl et))
    go (x ∷ ys) et =
        let e : xs ≡ x ∷ ys ++ p ∷ zs = split ∙ ap (λ l. l ++ p ∷ zs) et in
        rw et (pop_later fuel s x p ys zs xs e q ids enough et ed p_ne)
