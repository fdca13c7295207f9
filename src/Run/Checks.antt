-- ===== src/Run/Checks.antt =====
-- What the walk over the timers finds when each timer without a function is for a sleeping task.
use xin_os.Base.{
  ℕ, ◌≡◌, ◌⊎◌, subst, ◌≢◌, refl, ap, sym, ◌∙◌, true, false, List, [], ◌∷◌, arith, Bool-cases, inl,
  inr, Ptr, null, All,
}
use xin_os.Chain.Wait.{Among}
use xin_os.Task.Pop.{asleep}
use xin_os.Timer.{Timers, CheckResult, wake, nobody, unfinished, called}
use xin_os.Timer.Check.{is_due, is_sleep, check_all}

-- A call that is not through NULL.
abbrev pub IsReal : ℕ × ℕ → Type 0
IsReal call = call.0 ≢ null

-- What the walk over the timers finds when each timer without a function is for a sleeping task.
abbrev pub Sound : Timers → List Ptr → CheckResult → Type 0
Sound s xs (wake calls task timer) =
    All IsReal calls × Among timer xs × (task ≡ s.info.task timer) × (s.info.func timer ≡ null)
Sound s xs (nobody calls) = All IsReal calls
Sound s xs unfinished = ⊥

Sound-called :
    (s : Timers) (x : Ptr) (xs : List Ptr) (c : ℕ × ℕ) (r : CheckResult)
    → IsReal c
    → Sound s xs r
    → Sound s (x ∷ xs) (called c r)
Sound-called s x xs c (wake calls task timer) real h = ((real, h.0), inr h.1, h.2, h.3)
Sound-called s x xs c (nobody calls) real h = (real, h)
Sound-called s x xs c unfinished real h = h

Sound-later :
    (s : Timers) (x : Ptr) (xs : List Ptr) (r : CheckResult) → Sound s xs r → Sound s (x ∷ xs) r
Sound-later s x xs (wake calls task timer) h = (h.0, inr h.1, h.2, h.3)
Sound-later s x xs (nobody calls) h = h
Sound-later s x xs unfinished h = h

pub check_all-Sound :
    (s : Timers) (xs : List Ptr)
    → ((t : Ptr) → Among t xs → s.info.func t ≡ null → asleep s.sched (s.info.task t) ≡ true)
    → Sound s xs (check_all s xs)
unfolding check_all
check_all-Sound s [] own = tt
check_all-Sound s (x ∷ xs) own =
    let ih = check_all-Sound s xs (λ t i. own t (inr i)) in
    elim (Bool-cases (is_due s x)) [
      | inr late ↦ rw (check_all, late) (Sound-later s x xs (check_all s xs) ih)
      | inl due ↦ elim (Bool-cases (is_sleep s x)) [
        | inl yep ↦ rw (check_all, due, yep) (tt, inl refl, refl, ground (arith, yep))
        | inr nope ↦
            rw (check_all, due, nope)
              (Sound-called s x xs (s.info.func x, s.info.args x) (check_all s xs)
                (λ e. (let a = own x (inl refl) e in ground (arith, nope, a, e))) ih)
      ]
    ]

not_nobody :
    (c : ℕ × ℕ) (calls : List (ℕ × ℕ)) (r : CheckResult)
    → called c r ≡ nobody calls
    → (rest : List (ℕ × ℕ)) × (r ≡ nobody rest) × (calls ≡ c ∷ rest)
not_nobody c calls (wake others task timer) e = cc
not_nobody c calls (nobody others) e = (others, refl, cc)
not_nobody c calls unfinished e = cc

-- The call is one of them.
abbrev pub Calls : ℕ × ℕ → List (ℕ × ℕ) → Type 0
Calls c [] = ⊥
Calls c (x ∷ xs) = (x ≡ c) ⊎ Calls c xs

-- A timer of a sleeping task that has run out is not passed over.
pub finds_sleeper :
    (s : Timers) (xs : List Ptr) (t : Ptr) (calls : List (ℕ × ℕ))
    → Among t xs
    → is_due s t ≡ true
    → is_sleep s t ≡ true
    → check_all s xs ≡ nobody calls
    → ⊥
unfolding check_all
finds_sleeper s [] t calls i due sleeps e = i
finds_sleeper s (x ∷ xs) t calls i due sleeps e = elim (Bool-cases (is_due s x)) [
  | inr late ↦
      later i (λ i'. finds_sleeper s xs t calls i' due sleeps (rw (check_all, late) at e)) late
  | inl now ↦ elim (Bool-cases (is_sleep s x)) [
    | inl yep ↦
        (let b : wake [] (s.info.task x) x ≡ nobody calls = rw (check_all, now, yep) at e in cc)
    | inr nope ↦
        (let (rest, r, _) =
            not_nobody (s.info.func x, s.info.args x) calls (check_all s xs)
              (rw (check_all, now, nope) at e) in
          awake i (λ i'. finds_sleeper s xs t rest i' due sleeps r) nope)
  ]
]
  where
    later : Among t (x ∷ xs) → (Among t xs → ⊥) → is_due s x ≡ false → ⊥
    later (inl same) k late =
        (let b : true ≡ false = sym due ∙ ap (is_due s) (sym same) ∙ late in cc)
    later (inr i') k late = k i'

    awake : Among t (x ∷ xs) → (Among t xs → ⊥) → is_sleep s x ≡ false → ⊥
    awake (inl same) k nope =
        (let b : true ≡ false = sym sleeps ∙ ap (is_sleep s) (sym same) ∙ nope in cc)
    awake (inr i') k nope = k i'

-- When no task wakes, each function whose timer has run out is called.
pub Calls-due :
    (s : Timers) (xs : List Ptr) (t : Ptr) (calls : List (ℕ × ℕ))
    → Among t xs
    → is_due s t ≡ true
    → is_sleep s t ≡ false
    → check_all s xs ≡ nobody calls
    → Calls (s.info.func t, s.info.args t) calls
unfolding check_all
Calls-due s [] t calls i due loud e = absurd i
Calls-due s (x ∷ xs) t calls i due loud e = elim (Bool-cases (is_due s x)) [
  | inr late ↦
      (let e' : check_all s xs ≡ nobody calls = rw (check_all, late) at e in
        later i (λ i'. Calls-due s xs t calls i' due loud e') late)
  | inl now ↦ elim (Bool-cases (is_sleep s x)) [
    | inl yep ↦
        (let b : wake [] (s.info.task x) x ≡ nobody calls = rw (check_all, now, yep) at e in
          absurd cc)
    | inr nope ↦
        (let (rest, r, q) =
            not_nobody (s.info.func x, s.info.args x) calls (check_all s xs)
              (rw (check_all, now, nope) at e) in
          subst (Calls (s.info.func t, s.info.args t)) (sym q)
            (this rest i (λ i'. Calls-due s xs t rest i' due loud r)))
  ]
]
  where
    later :
        Among t (x ∷ xs)
        → (Among t xs → Calls (s.info.func t, s.info.args t) calls)
        → is_due s x ≡ false
        → Calls (s.info.func t, s.info.args t) calls
    later (inl same) k late =
        (let b : true ≡ false = sym due ∙ ap (is_due s) (sym same) ∙ late in absurd cc)
    later (inr i') k late = k i'

    this :
        (rest : List (ℕ × ℕ))
        → Among t (x ∷ xs)
        → (Among t xs → Calls (s.info.func t, s.info.args t) rest)
        → Calls (s.info.func t, s.info.args t) ((s.info.func x, s.info.args x) ∷ rest)
    this rest (inl same) k = inl (ap (λ z. (s.info.func z, s.info.args z)) same)
    this rest (inr i') k = inr (k i')
