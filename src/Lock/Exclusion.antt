-- ===== src/Lock/Exclusion.antt =====
-- Mutual exclusion by the spin lock of os/lock.c, in every interleaving.
use xin_os.Base.{
  ℕ, zero, suc, ◌≡◌, ◌≢◌, refl, ap, ◌∙◌, sym, true, false, none, some, ◌⊎◌, inl, inr, ◌==◌,
  Bool-cases, arith, subst,
}
use xin_os.Lock.{
  LockT, lock_acquire, lock_free, Place, acquiring, holding, released, Sharing, move_to, task_step,
  step, Reach, here, next, start,
}

-- Either the lock is free and nobody holds it, or it is taken and exactly one task does.
pub data IsExclusive (s : Sharing) : Type 0 where
  free : s.lock.locked ≡ 0 → ((i : ℕ) → s.place i ≢ holding) → IsExclusive s
  taken :
      (owner : ℕ)
      → s.lock.locked ≡ 1
      → s.place owner ≡ holding
      → ((i : ℕ) → s.place i ≡ holding → i ≡ owner)
      → IsExclusive s

abbrev taken_lock : LockT
taken_lock = record { locked = 1 }

abbrev free_lock : LockT
free_lock = record { locked = 0 }

locked_eq : (l : LockT) → l.locked ≡ 1 → l ≡ taken_lock
locked_eq l f = ap (λ (v : ℕ). record l { locked = v }) f

module _ (i : ℕ) (s : Sharing) where
  step_acquired :
      s.place i ≡ acquiring → s.lock.locked ≡ 0 → task_step i s ≡ move_to s taken_lock i holding
  unfolding task_step
  step_acquired e f = rw (task_step, e, f) refl

  step_spins :
      s.place i ≡ acquiring → s.lock.locked ≡ 1 → task_step i s ≡ move_to s taken_lock i acquiring
  unfolding task_step
  step_spins e f = rw (task_step, e, f) refl

  step_frees : s.place i ≡ holding → task_step i s ≡ move_to s free_lock i released
  unfolding task_step
  step_frees e = rw (task_step, e) refl

  step_again : s.place i ≡ released → task_step i s ≡ move_to s s.lock i acquiring
  unfolding task_step
  step_again e = rw (task_step, e) refl

  -- Who holds the lock after a move: the task that moved, or one that did before.
  moved :
      (l : LockT) (p : Place) (j : ℕ)
      → (move_to s l i p).place j ≡ holding
      → ((j ≡ i) × (p ≡ holding)) ⊎ ((j ≢ i) × (s.place j ≡ holding))
  moved l p j h = elim (Bool-cases (j == i)) [
    | inl e ↦ inl (ground arith, rw e at h)
    | inr e ↦ inr (ground arith, rw e at h)
  ]

  moved_self : (l : LockT) (p : Place) → (move_to s l i p).place i ≡ p
  moved_self l p = let e : (i == i) ≡ true = ground arith in rw e refl

  moved_other : (l : LockT) (p : Place) (j : ℕ) → j ≢ i → (move_to s l i p).place j ≡ s.place j
  moved_other l p j ne = let e : (j == i) ≡ false = ground arith in rw e refl

  -- A move of a task that neither held the lock nor holds it now keeps the owner.
  moved-IsExclusive :
      (p : Place)
      → s.place i ≢ holding
      → p ≢ holding
      → IsExclusive s
      → IsExclusive (move_to s s.lock i p)
  moved-IsExclusive p n m (free f none_holds) =
      free f (λ j h. elim (moved s.lock p j h) [ inl (e, k) ↦ m k | inr (e, k) ↦ none_holds j k ])
  moved-IsExclusive p n m (taken owner f o only) =
      let ne : owner ≢ i = (λ e. n (ap s.place (sym e) ∙ o)) in
      taken owner f (moved_other s.lock p owner ne ∙ o)
        (λ j h. elim (moved s.lock p j h) [ inl (e, k) ↦ absurd (m k) | inr (e, k) ↦ only j k ])

  Step-IsExclusive : IsExclusive s → IsExclusive (task_step i s)
  Step-IsExclusive x = go (s.place i) refl x
    where
      go : (p : Place) → s.place i ≡ p → IsExclusive s → IsExclusive (task_step i s)
      go acquiring e (free f none_holds) = subst IsExclusive (sym (step_acquired e f)) (
          taken i refl (moved_self taken_lock holding) (λ j h. elim (moved taken_lock holding j h) [
            | inl (e, k) ↦ e
            | inr (e, k) ↦ absurd (none_holds j k)
          ]))
      go acquiring e (taken owner f o only) = subst IsExclusive (sym (step_spins e f)) (
          subst (λ l. IsExclusive (move_to s l i acquiring)) (locked_eq s.lock f)
            (moved-IsExclusive acquiring (λ h. cc) (λ h. cc) (taken owner f o only)))
      go holding e (free f none_holds) = absurd (none_holds i e)
      go holding e (taken owner f o only) = subst IsExclusive (sym (step_frees e)) (
          free refl (λ j h. elim (moved free_lock released j h) [
            | inl (e, k) ↦ cc
            | inr (ne, k) ↦ ne (only j k ∙ sym (only i e))
          ]))
      go released e x =
          subst IsExclusive (sym (step_again e)) (moved-IsExclusive acquiring (λ h. cc) (λ h. cc) x)

Reach-IsExclusive : {s t : Sharing} → IsExclusive s → Reach s t → IsExclusive t
Reach-IsExclusive x here = x
Reach-IsExclusive x (next r (step i)) = Step-IsExclusive i _ (Reach-IsExclusive x r)

start-IsExclusive : IsExclusive start
start-IsExclusive = free refl (λ i h. cc)

-- In every interleaving from the start, two tasks that hold the lock are the same one.
pub Reach-exclusion :
    (s : Sharing) (i j : ℕ) → Reach start s → s.place i ≡ holding → s.place j ≡ holding → i ≡ j
Reach-exclusion s i j r hi hj = elim (Reach-IsExclusive start-IsExclusive r) [
  | free f none_holds ↦ absurd (none_holds i hi)
  | taken owner f o only ↦ only i hi ∙ sym (only j hj)
]

-- No interleaving gets stuck: a task that waits for the lock gets it by its own next step, or some
-- other task holds it and frees it by its next step.
pub Reach-progress :
    (s : Sharing) (i : ℕ)
    → Reach start s
    → s.place i ≡ acquiring
    → ((task_step i s).place i ≡ holding)
      ⊎ ((j : ℕ) × (j ≢ i)
          × (s.place j ≡ holding)
          × ((task_step i (task_step j s)).place i ≡ holding))
Reach-progress s i r e = elim (Reach-IsExclusive start-IsExclusive r) [
  | free f none_holds ↦
      inl (
        ap (λ (t : Sharing). t.place i) (step_acquired i s e f) ∙ moved_self i s taken_lock holding)
  | taken owner f o only ↦
      let ne : owner ≢ i = (λ h. let k = ap s.place h in cc) in
      let t = move_to s free_lock owner released in
      let waits : t.place i ≡ acquiring =
        moved_other owner s free_lock released i (λ h. ne (sym h)) ∙ e in
      inr (
        owner,
        ne,
        o,
        subst (λ u. (task_step i u).place i ≡ holding) (sym (step_frees owner s o))
            (ap (λ (u : Sharing). u.place i) (step_acquired i t waits refl)
              ∙ moved_self i t taken_lock holding),
      )
]

-- A caller that nobody interrupts gets a free lock in its first round, leaving it taken, and spins
-- for ever on a taken one, which it leaves taken.
pub lock_acquire_alone :
    (k : ℕ) (lock : LockT)
    → (lock_acquire (suc k) (lock_free lock) ≡ some taken_lock)
      × (lock.locked ≢ 0 → lock_acquire k lock ≡ none)
unfolding lock_acquire
lock_acquire_alone k lock = (refl, spins k lock)
  where
    spins : (k : ℕ) (lock : LockT) → lock.locked ≢ 0 → lock_acquire k lock ≡ none
    spins zero lock n = refl
    spins (suc k) lock n =
        let e : (lock.locked == 0) ≡ false = ground (arith, n) in
        rw (lock_acquire, e) (spins k taken_lock (omega arith))
