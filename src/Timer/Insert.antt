-- ===== src/Timer/Insert.antt =====
-- `insert_timer` and `timer_create` of os/timer.c keep the timers ordered by timeout.
use xin_os.Base.{
  ℕ, ◌+◌, ◌<◌, ◌≡◌, ◌≢◌, refl, ◌∙◌, ap, true, false, Option, some, ◌⊎◌, List, [], ◌∷◌, ◌++◌, arith,
  ltb, leb, ◌==◌, Bool-cases, inl, inr, Ptr, null, u64, update, update_self, length, sym, subst,
}
use xin_os.Chain.{
  Chain, NotIn, Distinct, walk, walk_lem, take_while, drop_while, take-append-drop, last_or,
  head_or_null,
}
use xin_os.Chain.Edit.{Chain-link, Chain-frame}
use xin_os.Chain.Order.{
  not_after, insert_sorted, IsSorted, Distinct-insert, IsSorted-frame, insert_sorted-IsSorted,
}
use xin_os.Timer.{Timers, insert_timer, timer_create, fill_timer, not_later, with_timer_next}

-- The timer list holds the timers `xs`.
pub record IsTimerList (s : Timers) (xs : List Ptr) : Type 0 where
  pub chain : Chain s.info.next s.first_timer xs
  pub distinct : Distinct xs

-- The list with the timer put in; nothing but links and the head changes.
pub record TimerInserted (s : Timers) (t : Ptr) (xs : List Ptr) (r : Option Timers) : Type 0 where
  pub after : Timers
  pub result : r ≡ some after
  pub timers : IsTimerList after (insert_sorted s.info.timeout t xs)
  pub next : Ptr → Ptr
  pub same : after ≡ (
      let i = s.info in
      record s { first_timer = after.first_timer; info = record i { next = next } })

module _ (fuel : ℕ) (s : Timers) (t : Ptr) (nz : t ≢ null) where
  timer_insert_empty :
      IsTimerList s [] → s.info.next t ≡ null → TimerInserted s t [] (insert_timer fuel s t)
  unfolding insert_timer
  timer_insert_empty q e =
      let g : (s.first_timer == null) ≡ true = ground (arith, q.chain) in
      record {
        after = record s { first_timer = t };
        result = rw g;
        timers = record { chain = (refl, nz, e); distinct = (tt, tt) };
        next = s.info.next;
        same = refl;
      }

  module _ (x : Ptr) (xs : List Ptr) (q : IsTimerList s (x ∷ xs)) (out : NotIn t (x ∷ xs))
      (enough : length (x ∷ xs) < fuel) where
    some_timer : (s.first_timer == null) ≡ false
    some_timer = ground (arith, q.chain.0, q.chain.1)

    timer_insert_front :
        leb (s.info.timeout x) (s.info.timeout t) ≡ false
        → TimerInserted s t (x ∷ xs) (insert_timer fuel s t)
    unfolding insert_timer
    timer_insert_front lt =
        let n = update s.info.next t s.first_timer in
        let g : ltb (s.info.timeout t) (s.info.timeout s.first_timer) ≡ true =
          rw (q.chain.0) (ground arith) in
        let e : n t ≡ s.first_timer = update_self s.info.next t s.first_timer in
        record {
          after = record (with_timer_next s t s.first_timer) { first_timer = t };
          result = rw (some_timer, g);
          timers = rw lt (record {
            chain = (
              refl,
              nz,
              rw e (Chain-frame s.info.next t s.first_timer s.first_timer (x ∷ xs) q.chain out),
            );
            distinct = (out, q.distinct);
          });
          next = n;
          same = refl;
        }

    timer_insert_behind :
        leb (s.info.timeout x) (s.info.timeout t) ≡ true
        → TimerInserted s t (x ∷ xs) (insert_timer fuel s t)
    unfolding insert_timer
    timer_insert_behind le =
        let go = not_after s.info.timeout t in
        let ys = take_while go xs in
        let zs = drop_while go xs in
        let split : x ∷ ys ++ zs ≡ x ∷ xs = ap (λ l. x ∷ l) (take-append-drop go xs) in
        let g : ltb (s.info.timeout t) (s.info.timeout s.first_timer) ≡ false =
          rw (q.chain.0) (ground arith) in
        let w : walk (not_later s t) s.info.next fuel s.first_timer s.first_timer
            ≡ some (last_or x ys, head_or_null zs) =
          walk_lem go s.info.next fuel s.first_timer s.first_timer (x ∷ xs) q.chain enough
          ∙ rw le in
        record {
          after = with_timer_next (with_timer_next s (last_or x ys) t) t (head_or_null zs);
          result = rw (some_timer, g, w);
          timers = rw le (record {
            chain =
                Chain-link s.info.next t s.first_timer x ys zs
                  (subst (λ l. Chain s.info.next s.first_timer l) (sym split) q.chain)
                  (subst (λ l. Distinct l) (sym split) q.distinct) nz
                  (subst (λ l. NotIn t l) (sym split) out);
            distinct = rw le at (Distinct-insert s.info.timeout t (x ∷ xs) q.distinct out);
          });
          next = update (update s.info.next (last_or x ys) t) t (head_or_null zs);
          same = refl;
        }

-- `insert_timer` of a timer outside the list, whose link is NULL if the list is empty, succeeds:
-- the list holds the timer behind all those at its start that are not due later, and before the
-- others, in the old order; only links and the head change.
pub insert_timer-TimerInserted :
    (fuel : ℕ) (s : Timers) (t : Ptr) (xs : List Ptr)
    → t ≢ null
    → IsTimerList s xs
    → NotIn t xs
    → (s.info.next t ≡ null) ⊎ (xs ≢ [])
    → length xs < fuel
    → TimerInserted s t xs (insert_timer fuel s t)
insert_timer-TimerInserted fuel s t [] nz q out (inl e) enough = timer_insert_empty fuel s t nz q e
insert_timer-TimerInserted fuel s t [] nz q out (inr ne) enough = absurd (ne refl)
insert_timer-TimerInserted fuel s t (x ∷ xs) nz q out links enough =
    elim (Bool-cases (leb (s.info.timeout x) (s.info.timeout t))) [
      | inl le ↦ timer_insert_behind fuel s t nz x xs q out enough le
      | inr lt ↦ timer_insert_front fuel s t nz x xs q out enough lt
    ]

-- What `timer_create` leaves: the timer in its place of an ordered list.
pub record TimerCreated (s : Timers) (t func args timeout : ℕ) (xs : List Ptr) (r : Option Timers)
    : Type 0 where
  pub after : Timers
  pub result : r ≡ some after
  pub list : List Ptr
  pub place : list ≡ insert_sorted (update s.info.timeout t (u64 (s.ticks + timeout))) t xs
  pub timers : IsTimerList after list
  pub ordered : IsSorted after.info.timeout list
  pub due : after.info.timeout t ≡ u64 (s.ticks + timeout)
  pub what : (after.info.func t ≡ func) × (after.info.args t ≡ args)
  pub whose : after.info.task t ≡ s.sched.cur_task
  pub funcs : after.info.func ≡ update s.info.func t func
  pub tasks : after.info.task ≡ update s.info.task t s.sched.cur_task
  pub clock : after.ticks ≡ s.ticks
  pub sched : after.sched ≡ s.sched

-- `timer_create` on a list ordered by timeout puts the new timer, due `timeout` ticks from now and
-- bound to the current task, behind all timers that are not due later; the list stays ordered.
pub timer_create-TimerCreated :
    (fuel : ℕ) (s : Timers) (t func args timeout : ℕ) (xs : List Ptr)
    → t ≢ null
    → IsTimerList s xs
    → IsSorted s.info.timeout xs
    → NotIn t xs
    → length xs < fuel
    → TimerCreated s t func args timeout xs (timer_create fuel s t func args timeout)
unfolding timer_create fill_timer
timer_create-TimerCreated fuel s t func args timeout xs nz q sorted out enough =
    let s1 = fill_timer s t func args timeout in
    let key = update s.info.timeout t (u64 (s.ticks + timeout)) in
    let i =
      insert_timer-TimerInserted fuel s1 t xs nz
        (record {
          chain = Chain-frame s.info.next t null s.first_timer xs q.chain out;
          distinct = q.distinct;
        })
        out (inl (update_self s.info.next t null)) enough in
    let keys : i.after.info.timeout ≡ key = ap (λ (c : Timers). c.info.timeout) i.same in
    record {
      after = i.after;
      result = i.result;
      list = insert_sorted key t xs;
      place = refl;
      timers = i.timers;
      ordered =
          rw keys
            (insert_sorted-IsSorted key t xs (IsSorted-frame s.info.timeout t _ xs out sorted));
      due = rw keys (update_self s.info.timeout t _);
      what = (
        ap (λ (c : Timers). c.info.func t) i.same ∙ update_self s.info.func t func,
        ap (λ (c : Timers). c.info.args t) i.same ∙ update_self s.info.args t args,
      );
      whose = ap (λ (c : Timers). c.info.task t) i.same ∙ update_self s.info.task t _;
      funcs = ap (λ (c : Timers). c.info.func) i.same;
      tasks = ap (λ (c : Timers). c.info.task) i.same;
      clock = ap (λ (c : Timers). c.ticks) i.same;
      sched = ap (λ (c : Timers). c.sched) i.same;
    }
