-- ===== src/Task/Fair.antt =====
-- Who gets a turn when `schedule` of os/sched.c runs again and again: a task with a number up to 256
-- waits a bounded number of turns, one with a greater number can wait for ever.
use xin_os.Base.{
  ℕ, zero, suc, ◌≤◌, ◌<◌, ◌≡◌, refl, ap, ◌∙◌, sym, subst, false, Option, none, some, List, [], ◌∷◌,
  ◌++◌, arith, ◌==◌, Bool-cases, inl, inr, Ptr, length, length-append, update_lem, update_self,
}
use xin_os.Chain.{NotIn, Distinct, take_while, take-append-drop}
use xin_os.Chain.Order.{insert_sorted, IsSorted, not_after, Distinct-remove, length-insert_sorted}
use xin_os.Chain.Wait.{Among, Among-append, Among-le, sorted_middle, wait, wait-turn, aged}
use xin_os.Task.{Sched, TaskState, is_sleeping, Control, returned, task_at, kernel, schedule}
use xin_os.Task.Insert.{rank}
use xin_os.Task.Pop.{asleep, aged_rank}
use xin_os.Chain.Member.{Among-turn}
use xin_os.Task.Next.{Next, Next-awake}
use xin_os.Task.Ready.{IsReady, rank_limit, aged_rank-aged, Turn, schedule-Turn}

-- The tasks that run in the next turns, when no task sleeps, wakes, ends or begins meanwhile.
pub turns : ℕ → ℕ → Sched → List Ptr
unfolding schedule
turns zero fuel s = []
turns (suc n) fuel s = elim (schedule fuel s) [
  | none ↦ []
  | some (s', to) ↦ elim to [ task_at p ↦ p ∷ turns n fuel s' | returned ↦ [] | kernel ↦ [] ]
]

turns_step :
    (n fuel : ℕ) (s : Sched) (p : Ptr) (ys zs : List Ptr) (t : Turn s p ys zs (schedule fuel s))
    → turns (suc n) fuel s ≡ p ∷ turns n fuel t.after
unfolding turns
turns_step n fuel s p ys zs t = rw (turns, t.result) refl

length-turn :
    (key : Ptr → ℕ) (p : Ptr) (ys zs xs : List Ptr)
    → xs ≡ ys ++ p ∷ zs
    → length (insert_sorted key p (ys ++ zs)) ≡ length xs
length-turn key p ys zs xs e = omega (
  arith,
  length-insert_sorted key p (ys ++ zs),
  length-append ys zs,
  ap length e,
  length-append ys (p ∷ zs),
)

rank-Turn :
    (s : Sched) (p q : Ptr) (ys zs : List Ptr) (r : Option (Sched × Control)) (t : Turn s p ys zs r)
    → (p == q) ≡ false
    → rank t.after q ≡ rank s q
rank-Turn s p q ys zs r t ne =
    ap (λ (key : Ptr → ℕ). key q) (t.ranks ∙ aged_rank-aged s p)
    ∙ ground (arith, update_lem (rank s) p (aged rank_limit (rank s p)) q)

wait_less :
    (s : Sched) (p q : Ptr) (xs ys zs : List Ptr) (r : Option (Sched × Control))
    (t : Turn s p ys zs r)
    → IsReady s xs
    → xs ≡ ys ++ p ∷ zs
    → (p == q) ≡ false
    → NotIn q ys
    → Among q zs
    → rank s q ≤ rank_limit
    → wait (rank t.after) q (insert_sorted (aged_rank s p) p (ys ++ zs)) < wait (rank s) q xs
wait_less s p q xs ys zs r t h split ne early m low =
    let ws = ys ++ zs in
    let whole = wait (rank s) q xs in
    let sorted = subst (λ l. IsSorted (rank s) l) split h.sorted in
    let out = (Distinct-remove p ys zs (subst (λ l. Distinct l) split h.queue.distinct)).1 in
    let near = wait-turn (rank s) rank_limit p q ys zs (ground arith) sorted out early m low in
    let near' =
      subst
        (λ (key : Ptr → ℕ). wait key q (insert_sorted key p ws) < wait (rank s) q (ys ++ p ∷ zs))
        (sym (aged_rank-aged s p)) near in
    subst (λ (key : Ptr → ℕ). wait key q (insert_sorted (aged_rank s p) p ws) < whole) (sym t.ranks)
      (subst (λ l. wait (aged_rank s p) q (insert_sorted (aged_rank s p) p ws) < wait (rank s) q l)
        (sym split) near')

-- No awake task starves: on a list that is ready, as long as no task sleeps, wakes, ends or begins,
-- a task that is awake and whose priority number is at most 256 gets a turn among the next ones,
-- within one more than the sum, over the tasks before it, of how far each one's number is from
-- passing its own.
pub turns_fair :
    (n fuel : ℕ) (s : Sched) (q : Ptr) (xs : List Ptr)
    → IsReady s xs
    → length xs < fuel
    → Among q xs
    → asleep s q ≡ false
    → rank s q ≤ rank_limit
    → wait (rank s) q xs < n
    → Among q (turns n fuel s)
turns_fair zero fuel s q xs h enough m awake low soon = absurd (omega arith)
turns_fair (suc n) fuel s q xs h enough m awake low soon =
    let k = Next-awake s q xs m awake in
    let p = k.task in
    let ys = take_while (asleep s) xs in
    let zs = k.rest in
    let t = schedule-Turn fuel s p xs zs h enough k.first in
    let split : xs ≡ ys ++ p ∷ zs =
      sym (take-append-drop (asleep s) xs) ∙ ap (λ l. take_while (asleep s) xs ++ l) k.first in
    subst (Among q) (sym (turns_step n fuel s p ys zs t)) (elim (Bool-cases (p == q)) [
      | inl e ↦ inl (ground arith)
      | inr ne ↦ elim k.behind [
        | inl e ↦ absurd (ground arith)
        | inr (early, m') ↦ inr (
            let near = wait_less s p q xs ys zs _ t h split ne early m' low in
            turns_fair n fuel t.after q _ t.ready
              (omega (arith, length-turn (aged_rank s p) p ys zs xs split))
              (Among-turn (aged_rank s p) q p (ys ++ zs) (Among-append q ys zs m'))
              (ap (λ (st : Ptr → TaskState). is_sleeping (st q)) t.states ∙ awake)
              (omega (arith, rank-Turn s p q ys zs _ t ne)) (omega (arith, near)))
      ]
    ])

Among-here : (key : Ptr → ℕ) (p : Ptr) (ws : List Ptr) → Among p (insert_sorted key p ws)
Among-here key p ws = Among-append p (take_while (not_after key p) ws) _ (inl refl)

Next-low :
    (s : Sched) (x : Ptr) (xs : List Ptr) (k : Next s x xs)
    → IsSorted (rank s) xs
    → rank s k.task ≤ rank s x
Next-low s x xs k sorted =
    let ys = take_while (asleep s) xs in
    let split : xs ≡ ys ++ k.task ∷ k.rest =
      sym (take-append-drop (asleep s) xs) ∙ ap (λ l. take_while (asleep s) xs ++ l) k.first in
    elim k.behind [
      | inl e ↦ let f = ap (rank s) e in omega (arith, f)
      | inr (n, m) ↦
          Among-le (rank s) (rank s k.task) x k.rest
            (sorted_middle (rank s) k.task ys k.rest
              (subst (λ l. IsSorted (rank s) l) split sorted))
            m
    ]

rank_lt_ne : (s : Sched) (p q : Ptr) → rank s p < rank s q → (p == q) ≡ false
rank_lt_ne s p q l = elim (Bool-cases (p == q)) [
  | inr e ↦ e
  | inl e ↦
      let same : p ≡ q = ground (arith, e) in
      let f = ap (rank s) same in absurd (omega (arith, f, l))
]

-- On a list that is ready, as long as no task sleeps, wakes, ends or begins, a task whose priority
-- number is above 256 gets no turn at all if some awake task of the list has a number of at most
-- 256.
pub turns_starve :
    (n fuel : ℕ) (s : Sched) (x q : Ptr) (xs : List Ptr)
    → IsReady s xs
    → length xs < fuel
    → Among x xs
    → asleep s x ≡ false
    → rank s x ≤ rank_limit
    → rank_limit < rank s q
    → NotIn q (turns n fuel s)
unfolding turns
turns_starve zero fuel s x q xs h enough m awake low high = tt
turns_starve (suc n) fuel s x q xs h enough m awake low high =
    let k = Next-awake s x xs m awake in
    let p = k.task in
    let ys = take_while (asleep s) xs in
    let t = schedule-Turn fuel s p xs k.rest h enough k.first in
    let split : xs ≡ ys ++ p ∷ k.rest =
      sym (take-append-drop (asleep s) xs) ∙ ap (λ l. take_while (asleep s) xs ++ l) k.first in
    let first_low = Next-low s x xs k h.sorted in
    let ne : (p == q) ≡ false = rank_lt_ne s p q (omega (arith, first_low)) in
    let own : rank t.after p ≡ aged rank_limit (rank s p) =
      ap (λ (key : Ptr → ℕ). key p) (t.ranks ∙ aged_rank-aged s p)
      ∙ update_self (rank s) p (aged rank_limit (rank s p)) in
    subst (NotIn q) (sym (turns_step n fuel s p ys k.rest t)) (
      (λ e. ground (arith, e)),
      turns_starve n fuel t.after p q _ t.ready
          (omega (arith, length-turn (aged_rank s p) p ys k.rest xs split))
          (Among-here (aged_rank s p) p (ys ++ k.rest))
          (ap (λ (st : Ptr → TaskState). is_sleeping (st p)) t.states ∙ k.awake)
          (ground (arith, own, first_low)) (omega (arith, rank-Turn s p q ys k.rest _ t ne)),
    )
