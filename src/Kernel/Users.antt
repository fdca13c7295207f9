-- ===== src/Kernel/Users.antt =====
-- The tasks of os/user.c, as `user_init` creates them, and their turns.
use xin_os.Base.{
  ℕ, ◌+◌, ◌-◌, ◌%◌, ◌^◌, ◌≤◌, ◌<◌, ◌≡◌, ◌≢◌, refl, ap, sym, ◌∙◌, subst, true, false, Option, some,
  List, [], ◌∷◌, arith, leb, inl, inr, Ptr, null, update_lem,
}
use xin_os.Chain.Order.{insert_sorted}
use xin_os.Chain.Wait.{Among, wait}
use xin_os.Task.{Sched, TaskState, is_sleeping, task_create}
use xin_os.Task.Insert.{rank}
use xin_os.Task.Create.{rank_with, Created}
use xin_os.Task.Ready.{rank_limit}
use xin_os.Task.Number.{IsNumbered, task_create-IsNumbered}
use xin_os.Task.Fair.{turns, turns_fair}
use xin_os.Kernel.{Image, user_init}

-- The three tasks are queued by priority, each with its entry point.
pub record Users (s : Sched) (i : Image) (t1 t2 t3 : Ptr) (r : Option Sched) : Type 0 where
  pub after : Sched
  pub result : r ≡ some after
  pub numbered : IsNumbered after (t1 ∷ t2 ∷ t3 ∷ [])
  pub ranks :
      (rank after t1 ≡ 2 ^ 31 + 100)
      × (rank after t2 ≡ 2 ^ 31 + 105)
      × (rank after t3 ≡ 2 ^ 31 + 110)
  pub entries :
      (after.tasks.ctx_pc t1 ≡ i.user_task1)
      × (after.tasks.ctx_pc t2 ≡ i.user_task2)
      × (after.tasks.ctx_pc t3 ≡ i.user_task3)
  pub states : after.tasks.state ≡ s.tasks.state

rank_with_self : (s : Sched) (t n : ℕ) → rank_with s t n t ≡ (n + 2 ^ 31) % 2 ^ 32
rank_with_self s t n = ground (arith, update_lem s.tasks.priority t n t)

rank_with_other : (s : Sched) (t n y : ℕ) → t ≢ y → rank_with s t n y ≡ rank s y
rank_with_other s t n y ne = ground (arith, update_lem s.tasks.priority t n y, ne)

-- The rank of a task after another one was created.
rank-Created :
    (s : Sched) (t task n slice y : ℕ) (xs : List Ptr) (r : Option (ℕ × Sched))
    (c : Created s t task n slice xs r)
    → t ≢ y
    → rank c.after y ≡ rank s y
rank-Created s t task n slice y xs r c ne =
    ap (λ (key : Ptr → ℕ). key y) c.ranks ∙ rank_with_other s t n y ne

rank-new :
    (s : Sched) (t task n slice : ℕ) (xs : List Ptr) (r : Option (ℕ × Sched))
    (c : Created s t task n slice xs r)
    → rank c.after t ≡ (n + 2 ^ 31) % 2 ^ 32
rank-new s t task n slice xs r c = ap (λ (key : Ptr → ℕ). key t) c.ranks ∙ rank_with_self s t n

entry-Created :
    (s : Sched) (t task n slice y : ℕ) (xs : List Ptr) (r : Option (ℕ × Sched))
    (c : Created s t task n slice xs r)
    → t ≢ y
    → c.after.tasks.ctx_pc y ≡ s.tasks.ctx_pc y
entry-Created s t task n slice y xs r c ne =
    ap (λ (pc : Ptr → ℕ). pc y) c.entries ∙ ground (arith, update_lem s.tasks.ctx_pc t task y, ne)

behind_one : (key : Ptr → ℕ) (t x : Ptr) → key x ≤ key t → insert_sorted key t (x ∷ []) ≡ x ∷ t ∷ []
behind_one key t x l = let g : leb (key x) (key t) ≡ true = ground (arith, l) in rw g refl

behind_two :
    (key : Ptr → ℕ) (t x y : Ptr)
    → key x ≤ key t
    → key y ≤ key t
    → insert_sorted key t (x ∷ y ∷ []) ≡ x ∷ y ∷ t ∷ []
behind_two key t x y l m =
    let g : leb (key x) (key t) ≡ true = ground (arith, l) in
    let g' : leb (key y) (key t) ≡ true = ground (arith, m) in rw (g, g') refl

three_calls :
    (fuel : ℕ) (i : Image) (t1 t2 t3 : Ptr) (s s1 s2 s3 : Sched)
    → task_create fuel s t1 i.user_task1 null 100 5 ≡ some (0, s1)
    → task_create fuel s1 t2 i.user_task2 null 105 10 ≡ some (0, s2)
    → task_create fuel s2 t3 i.user_task3 null 110 10 ≡ some (0, s3)
    → user_init fuel i t1 t2 t3 s ≡ some s3
unfolding user_init
three_calls fuel i t1 t2 t3 s s1 s2 s3 e1 e2 e3 = rw (user_init, e1, e2, e3) refl

-- On an empty list, for three different objects, `user_init` creates the three tasks in the order of
-- their priorities 100, 105 and 110, with their functions as entry points, and leaves the list ready.
pub user_init-Users :
    (fuel : ℕ) (i : Image) (t1 t2 t3 : Ptr) (s : Sched)
    → IsNumbered s []
    → (t1 ≢ null) × (t2 ≢ null) × (t3 ≢ null)
    → (t1 ≢ t2) × (t1 ≢ t3) × (t2 ≢ t3)
    → 2 < fuel
    → s.next_task_id < 2 ^ 32 - 3
    → Users s i t1 t2 t3 (user_init fuel i t1 t2 t3 s)
user_init-Users fuel i t1 t2 t3 s h nz ne enough more =
    let (c1, h1) =
      task_create-IsNumbered fuel s t1 i.user_task1 null 100 5 [] h nz.0 tt (omega arith)
        (omega arith) (omega arith) in
    let s1 = c1.after in
    let id1 : s1.next_task_id ≡ s.next_task_id + 1 = omega (arith, c1.next_id) in
    let (c2, h2) =
      task_create-IsNumbered fuel s1 t2 i.user_task2 null 105 10 (t1 ∷ []) h1 nz.1
        ((λ e. ne.0 (sym e)), tt) (omega arith) (omega arith) (omega (arith, id1)) in
    let s2 = c2.after in
    let id2 : s2.next_task_id ≡ s.next_task_id + 2 = omega (arith, c2.next_id, id1) in
    let r11 = rank-new s t1 i.user_task1 100 5 [] _ c1 in
    let r12 = rank_with_other s1 t2 105 t1 (λ e. ne.0 (sym e)) in
    let r22 = rank_with_self s1 t2 105 in
    let list2 = behind_one (rank_with s1 t2 105) t2 t1 (omega (arith, r11, r12, r22)) in
    let h2' = subst (IsNumbered s2) list2 h2 in
    let (c3, h3) =
      task_create-IsNumbered fuel s2 t3 i.user_task3 null 110 10 (t1 ∷ t2 ∷ []) h2' nz.2
        ((λ e. ne.1 (sym e)), ((λ e. ne.2 (sym e)), tt)) (omega arith) (omega arith)
        (omega (arith, id2)) in
    let s3 = c3.after in
    let k1 = rank-Created s1 t2 i.user_task2 105 10 t1 (t1 ∷ []) _ c2 (λ e. ne.0 (sym e)) in
    let k2 = rank-new s1 t2 i.user_task2 105 10 (t1 ∷ []) _ c2 in
    let w1 = rank_with_other s2 t3 110 t1 (λ e. ne.1 (sym e)) in
    let w2 = rank_with_other s2 t3 110 t2 (λ e. ne.2 (sym e)) in
    let w3 = rank_with_self s2 t3 110 in
    let list3 =
      behind_two (rank_with s2 t3 110) t3 t1 t2 (omega (arith, r11, k1, w1, w3))
        (omega (arith, k2, w2, w3)) in
    let key = c3.ranks in
    record {
      after = s3;
      result = three_calls fuel i t1 t2 t3 s s1 s2 s3 c1.result c2.result c3.result;
      numbered = subst (IsNumbered s3) list3 h3;
      ranks = (
        omega (arith, ap (λ (f : Ptr → ℕ). f t1) key, w1, k1, r11),
        omega (arith, ap (λ (f : Ptr → ℕ). f t2) key, w2, k2),
        omega (arith, ap (λ (f : Ptr → ℕ). f t3) key, w3),
      );
      entries = (
        entry-Created s2 t3 i.user_task3 110 10 t1 (t1 ∷ t2 ∷ []) _ c3 (λ e. ne.1 (sym e))
            ∙ entry-Created s1 t2 i.user_task2 105 10 t1 (t1 ∷ []) _ c2 (λ e. ne.0 (sym e))
            ∙ c1.entry,
        entry-Created s2 t3 i.user_task3 110 10 t2 (t1 ∷ t2 ∷ []) _ c3 (λ e. ne.2 (sym e))
            ∙ c2.entry,
        c3.entry,
      );
      states = c3.states ∙ c2.states ∙ c1.states;
    }

low_wait :
    (key : Ptr → ℕ) (q t1 t2 t3 : Ptr)
    → key t1 ≡ 2 ^ 31 + 100
    → key t2 ≡ 2 ^ 31 + 105
    → key t3 ≡ 2 ^ 31 + 110
    → Among q (t1 ∷ t2 ∷ t3 ∷ [])
    → (key q ≤ rank_limit) × (wait key q (t1 ∷ t2 ∷ t3 ∷ []) < 18)
low_wait key q t1 t2 t3 a b c (inl e) = let k = ap key e in ground (arith, k, a, b, c)
low_wait key q t1 t2 t3 a b c (inr (inl e)) = let k = ap key e in ground (arith, k, a, b, c)
low_wait key q t1 t2 t3 a b c (inr (inr (inl e))) = let k = ap key e in ground (arith, k, a, b, c)
low_wait key q t1 t2 t3 a b c (inr (inr (inr m))) = absurd m

-- On an empty list and for three different objects, if the memory of none of them holds the state
-- SLEEPING, `user_init` succeeds, and each of the three tasks gets one of the first 18 turns when
-- no task sleeps, ends or begins meanwhile.
pub user_init-turns :
    (fuel : ℕ) (i : Image) (t1 t2 t3 : Ptr) (s : Sched)
    → IsNumbered s []
    → (t1 ≢ null) × (t2 ≢ null) × (t3 ≢ null)
    → (t1 ≢ t2) × (t1 ≢ t3) × (t2 ≢ t3)
    → 3 < fuel
    → s.next_task_id < 2 ^ 32 - 3
    → ((q : Ptr) → Among q (t1 ∷ t2 ∷ t3 ∷ []) → is_sleeping (s.tasks.state q) ≡ false)
    → (s' : Sched) × (user_init fuel i t1 t2 t3 s ≡ some s')
      × ((q : Ptr) → Among q (t1 ∷ t2 ∷ t3 ∷ []) → Among q (turns 18 fuel s'))
user_init-turns fuel i t1 t2 t3 s h nz ne enough more awake =
    let u = user_init-Users fuel i t1 t2 t3 s h nz ne (omega arith) more in
    let s' = u.after in
    (
      s',
      u.result,
      λ q m.
          (let (low, soon) = low_wait (rank s') q t1 t2 t3 u.ranks.0 u.ranks.1 u.ranks.2 m in
            turns_fair 18 fuel s' q (t1 ∷ t2 ∷ t3 ∷ []) u.numbered.ready (omega arith) m
              (ap (λ (st : Ptr → TaskState). is_sleeping (st q)) u.states ∙ awake q m) low soon),
    )
