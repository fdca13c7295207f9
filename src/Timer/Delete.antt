-- ===== src/Timer/Delete.antt =====
-- `timer_delete` of os/timer.c.
use xin_os.Base.{
  ℕ, ◌<◌, ◌≡◌, ◌≢◌, refl, ap, Bool, true, false, not, some, ◌||◌, List, [], ◌∷◌, ◌++◌, arith, ◌==◌,
  Ptr, null, update, length,
}
use xin_os.Chain.{Chain, NotIn, Distinct, walk, walk_lem, take_while, drop_while, last_or}
use xin_os.Chain.Edit.{Chain-unlink}
use xin_os.Chain.Order.{Distinct-remove}
use xin_os.Timer.{Timers, Deleted, deleted, fault, timer_delete, with_timer_next}
use xin_os.Timer.Insert.{IsTimerList}

-- The list without the timer; nothing but links and the head changes.
pub record TimerDeleted (s : Timers) (ys zs : List Ptr) (r : Deleted) : Type 0 where
  pub after : Timers
  pub result : r ≡ deleted after
  pub timers : IsTimerList after (ys ++ zs)
  pub next : Ptr → Ptr
  pub same : after ≡ (
      let i = s.info in
      record s { first_timer = after.first_timer; info = record i { next = next } })

abbrev other_timer : Ptr → Ptr → Bool
other_timer t p = not (p == t)

module _ (t : Ptr) where
  timer_before :
      (ys zs : List Ptr)
      → Distinct (ys ++ t ∷ zs)
      → (take_while (other_timer t) (ys ++ t ∷ zs) ≡ ys)
        × (drop_while (other_timer t) (ys ++ t ∷ zs) ≡ t ∷ zs)
  timer_before [] zs d = let e : (t == t) ≡ true = ground arith in rw e (refl, refl)
  timer_before (y ∷ ys) zs d =
      let e : (y == t) ≡ false = ground (arith, ne y ys zs d.0) in
      let r = timer_before ys zs d.1 in rw e (ap (λ l. y ∷ l) r.0, r.1)
    where
      ne : (y : Ptr) (ys zs : List Ptr) → NotIn y (ys ++ t ∷ zs) → y ≢ t
      ne y [] zs n = n.0
      ne y (x ∷ ys) zs n = ne y ys zs n.1

  timer_absent : (xs : List Ptr) → NotIn t xs → drop_while (other_timer t) xs ≡ []
  timer_absent [] n = refl
  timer_absent (x ∷ xs) n =
      let e : (x == t) ≡ false = ground (arith, n.0) in rw e (timer_absent xs n.1)

  timer_ne_null :
      (next : Ptr → Ptr) (a : Ptr) (ys zs : List Ptr) → Chain next a (ys ++ t ∷ zs) → t ≢ null
  timer_ne_null next a [] zs c = c.1
  timer_ne_null next a (y ∷ ys) zs c = timer_ne_null next (next y) ys zs c.2

-- `timer_delete` of a timer in the list takes exactly that timer out of it and keeps the others in
-- their order; only links and the head change.
pub timer_delete-TimerDeleted :
    (fuel : ℕ) (s : Timers) (t : Ptr) (ys zs : List Ptr)
    → IsTimerList s (ys ++ t ∷ zs)
    → length (ys ++ t ∷ zs) < fuel
    → TimerDeleted s ys zs (timer_delete fuel s t)
unfolding timer_delete
timer_delete-TimerDeleted fuel s t [] zs q enough =
    let g : (s.first_timer == null || t == null) ≡ false = ground (arith, q.chain.0, q.chain.1) in
    let i : (t == s.first_timer) ≡ true = ground (arith, q.chain.0) in
    record {
      after = record s { first_timer = s.info.next s.first_timer };
      result = rw (g, i);
      timers = record { chain = rw q.chain.0 q.chain.2; distinct = q.distinct.1 };
      next = s.info.next;
      same = refl;
    }
timer_delete-TimerDeleted fuel s t (x ∷ ys) zs q enough =
    let nz = timer_ne_null t s.info.next s.first_timer (x ∷ ys) zs q.chain in
    let g : (s.first_timer == null || t == null) ≡ false =
      ground (arith, q.chain.0, q.chain.1, nz) in
    let gt : (t == null) ≡ false = ground (arith, nz) in
    let (_, out) = Distinct-remove t (x ∷ ys) zs q.distinct in
    let i : (t == s.first_timer) ≡ false = ground (arith, q.chain.0, out.0) in
    let r = timer_before t (x ∷ ys) zs q.distinct in
    let w : walk (other_timer t) s.info.next fuel s.first_timer s.first_timer
        ≡ some (last_or x ys, t) =
      rw (r.0, r.1) at
        (walk_lem (other_timer t) s.info.next fuel s.first_timer s.first_timer (x ∷ ys ++ t ∷ zs)
          q.chain enough) in
    record {
      after = with_timer_next s (last_or x ys) (s.info.next t);
      result = rw (g, i, w, gt);
      timers = record {
        chain = Chain-unlink s.info.next t s.first_timer x ys zs q.chain q.distinct;
        distinct = (Distinct-remove t (x ∷ ys) zs q.distinct).0;
      };
      next = update s.info.next (last_or x ys) (s.info.next t);
      same = refl;
    }

-- `timer_delete` of a timer that is not in the list, while there are timers in it, reads through
-- NULL.
pub timer_delete-fault :
    (fuel : ℕ) (s : Timers) (t : Ptr) (xs : List Ptr)
    → IsTimerList s xs
    → xs ≢ []
    → t ≢ null
    → NotIn t xs
    → length xs < fuel
    → timer_delete fuel s t ≡ fault
unfolding timer_delete
timer_delete-fault fuel s t [] q ne nz out enough = absurd (ne refl)
timer_delete-fault fuel s t (x ∷ xs) q ne nz out enough =
    let g : (s.first_timer == null || t == null) ≡ false =
      ground (arith, q.chain.0, q.chain.1, nz) in
    let i : (t == s.first_timer) ≡ false = ground (arith, q.chain.0, out.0) in
    let w =
      walk_lem (other_timer t) s.info.next fuel s.first_timer s.first_timer (x ∷ xs) q.chain
        enough in
    rw (g, i, w, timer_absent t (x ∷ xs) out)
