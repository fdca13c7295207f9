-- ===== src/Run/Sleepers.antt =====
-- Sleeping tasks and the timers that wake them, over the lists of tasks and timers: a timer without a
-- function belongs to one sleeping task, and each sleeping task has one.
use xin_os.Base.{
  ℕ, ◌≡◌, ◌≢◌, ap, sym, ◌∙◌, subst, Bool, true, false, List, ◌==◌, ◌⊎◌, inl, inr, arith, Bool-cases,
  Ptr, null, update, update_self, update_ne,
}
use xin_os.Chain.{NotIn}
use xin_os.Chain.Wait.{Among}
use xin_os.Chain.Member.{NotIn-Among}

-- A timer of the list that will wake `x`.
abbrev pub Pending : (func task : Ptr → ℕ) → List Ptr → Ptr → Type 0
Pending func task ts x = (t : Ptr) × Among t ts × (func t ≡ null) × (task t ≡ x)

pub record Sleepers (func task : Ptr → ℕ) (sleeps : Ptr → Bool) (xs ts : List Ptr) : Type 0 where
  pub owned : (t : Ptr) → Among t ts → func t ≡ null → Among (task t) xs × (sleeps (task t) ≡ true)
  pub single :
      (t u : Ptr)
      → Among t ts
      → Among u ts
      → func t ≡ null
      → func u ≡ null
      → task t ≡ task u
      → t ≡ u
  pub pending : (x : Ptr) → Among x xs → sleeps x ≡ true → Pending func task ts x

module _ (func task : Ptr → ℕ) (sleeps : Ptr → Bool) (xs ts : List Ptr)
    (h : Sleepers func task sleeps xs ts) where
  -- Awake tasks come and go, and so do timers with a function.
  pub Sleepers-lists :
      (xs' ts' : List Ptr)
      → ((x : Ptr) → sleeps x ≡ true → Among x xs → Among x xs')
      → ((x : Ptr) → sleeps x ≡ true → Among x xs' → Among x xs)
      → ((t : Ptr) → func t ≡ null → Among t ts → Among t ts')
      → ((t : Ptr) → func t ≡ null → Among t ts' → Among t ts)
      → Sleepers func task sleeps xs' ts'
  Sleepers-lists xs' ts' xs_in xs_out ts_in ts_out = record {
    owned = λ t m e. (let o = h.owned t (ts_out t e m) e in (xs_in (task t) o.1 o.0, o.1));
    single = λ t u mt mu et eu. h.single t u (ts_out t et mt) (ts_out u eu mu) et eu;
    pending =
        λ x m s. (let (t, mt, e, w) = h.pending x (xs_out x s m) s in (t, ts_in t e mt, e, w));
  }

  module _ (t c : Ptr) (out : NotIn t ts) (ts' : List Ptr) (new : Among t ts')
      (ts_in : (u : Ptr) → Among u ts → Among u ts')
      (ts_out : (u : Ptr) → Among u ts' → (t ≡ u) ⊎ Among u ts) where
    other : (u : Ptr) → Among u ts → (u == t) ≡ false
    other u m = elim (Bool-cases (u == t)) [
      | inl e ↦
          (let same : u ≡ t = ground (arith, e) in
            absurd (NotIn-Among t ts out (subst (λ z. Among z ts) same m)))
      | inr e ↦ e
    ]

    module _ (f : ℕ) where
      func_old : (u : Ptr) → Among u ts → update func t f u ≡ func u
      func_old u m = update_ne func t u f (other u m)

      task_old : (u : Ptr) → Among u ts → update task t c u ≡ task u
      task_old u m = update_ne task t u c (other u m)

      task_new : (u : Ptr) → t ≡ u → update task t c u ≡ c
      task_new u e = ap (update task t c) (sym e) ∙ update_self task t c

    -- A new timer with a function.
    pub Sleepers-start :
        (f : ℕ) → f ≢ null → Sleepers (update func t f) (update task t c) sleeps xs ts'
    Sleepers-start f nz = record {
      owned = λ u m e.
          (let m' = old u m e in
            let o = h.owned u m' (sym (func_old f u m') ∙ e) in
            let w = task_old f u m' in (subst (λ z. Among z xs) (sym w) o.0, ap sleeps w ∙ o.1));
      single = λ u v mu mv eu ev same.
          (let mu' = old u mu eu in
            let mv' = old v mv ev in
            h.single u v mu' mv' (sym (func_old f u mu') ∙ eu) (sym (func_old f v mv') ∙ ev)
              (sym (task_old f u mu') ∙ same ∙ task_old f v mv'));
      pending = λ x m s.
          (let (u, mu, e, w) = h.pending x m s in
            (u, ts_in u mu, func_old f u mu ∙ e, task_old f u mu ∙ w));
    }
      where
        old : (u : Ptr) → Among u ts' → update func t f u ≡ null → Among u ts
        old u m e = elim (ts_out u m) [
          | inl same ↦ absurd (nz (sym (update_self func t f) ∙ ap (update func t f) same ∙ e))
          | inr m' ↦ m'
        ]

    -- A new timer without one, for a task that goes to sleep.
    pub Sleepers-sleep :
        (sleeps' : Ptr → Bool)
        → Among c xs
        → sleeps c ≡ false
        → sleeps' c ≡ true
        → ((x : Ptr) → (x == c) ≡ false → sleeps' x ≡ sleeps x)
        → Sleepers (update func t null) (update task t c) sleeps' xs ts'
    Sleepers-sleep sleeps' mc awake now same = record {
      owned = λ u m e. (elim (ts_out u m) [
        | inl e' ↦
            (let w = task_new null u e' in (subst (λ z. Among z xs) (sym w) mc, ap sleeps' w ∙ now))
        | inr m' ↦
            (let o = h.owned u m' (sym (func_old null u m') ∙ e) in
              let w = task_old null u m' in
              (
                subst (λ z. Among z xs) (sym w) o.0,
                ap sleeps' w ∙ same (task u) (not_c (task u) o.1) ∙ o.1,
              ))
      ]);
      single = λ u v mu mv eu ev e. (elim (ts_out u mu) [
        | inl a ↦ (elim (ts_out v mv) [
          | inl b ↦ sym a ∙ b
          | inr b ↦ absurd (mixed u v a b (sym (func_old null v b) ∙ ev) e)
        ])
        | inr a ↦ (elim (ts_out v mv) [
          | inl b ↦ absurd (mixed v u b a (sym (func_old null u a) ∙ eu) (sym e))
          | inr b ↦
              h.single u v a b (sym (func_old null u a) ∙ eu) (sym (func_old null v b) ∙ ev)
                (sym (task_old null u a) ∙ e ∙ task_old null v b)
        ])
      ]);
      pending = λ x m s. (elim (Bool-cases (x == c)) [
        | inl e ↦ (t, new, update_self func t null, update_self task t c ∙ ground (arith, e))
        | inr e ↦
            (let (u, mu, e', w) = h.pending x m (sym (same x e) ∙ s) in
              (u, ts_in u mu, func_old null u mu ∙ e', task_old null u mu ∙ w))
      ]);
    }
      where
        not_c : (x : Ptr) → sleeps x ≡ true → (x == c) ≡ false
        not_c x s = elim (Bool-cases (x == c)) [
          | inl e ↦
              (let e' : x ≡ c = ground (arith, e) in
                let b : true ≡ false = sym s ∙ ap sleeps e' ∙ awake in absurd cc)
          | inr e ↦ e
        ]

        mixed :
            (u v : Ptr)
            → t ≡ u
            → Among v ts
            → func v ≡ null
            → update task t c u ≡ update task t c v
            → ⊥
        mixed u v a b ev e =
            let o = h.owned v b ev in
            let w : task v ≡ c = sym (task_old null v b) ∙ sym e ∙ task_new null u a in
            let f : true ≡ false = sym o.1 ∙ ap sleeps w ∙ awake in cc

  -- A timer without a function goes, and its task wakes.
  pub Sleepers-wake :
      (t : Ptr) (ts' : List Ptr) (sleeps' : Ptr → Bool)
      → Among t ts
      → func t ≡ null
      → sleeps' (task t) ≡ false
      → ((x : Ptr) → (x == task t) ≡ false → sleeps' x ≡ sleeps x)
      → NotIn t ts'
      → ((u : Ptr) → Among u ts' → Among u ts)
      → ((u : Ptr) → Among u ts → (t ≡ u) ⊎ Among u ts')
      → Sleepers func task sleeps' xs ts'
  Sleepers-wake t ts' sleeps' m silent woken same out ts_out ts_in = record {
    owned = λ u mu e.
        (let o = h.owned u (ts_out u mu) e in (o.0, same (task u) (elsewhere u mu e) ∙ o.1));
    single = λ u v mu mv. h.single u v (ts_out u mu) (ts_out v mv);
    pending = λ x mx s. (elim (Bool-cases (x == task t)) [
      | inl e ↦
          (let e' : x ≡ task t = ground (arith, e) in
            let b : true ≡ false = sym s ∙ ap sleeps' e' ∙ woken in absurd cc)
      | inr e ↦
          (let (u, mu, e', w) = h.pending x mx (sym (same x e) ∙ s) in
            elim (ts_in u mu) [
              | inl a ↦
                  absurd (let b : x ≡ task t = sym w ∙ ap task (sym a) in ground (arith, b, e))
              | inr mu' ↦ (u, mu', e', w)
            ])
    ]);
  }
    where
      elsewhere : (u : Ptr) → Among u ts' → func u ≡ null → (task u == task t) ≡ false
      elsewhere u mu e = elim (Bool-cases (task u == task t)) [
        | inl b ↦
            (let b' : task u ≡ task t = ground (arith, b) in
              let same_one = h.single u t (ts_out u mu) m e silent b' in
              absurd (NotIn-Among t ts' out (subst (λ z. Among z ts') same_one mu)))
        | inr b ↦ b
      ]
