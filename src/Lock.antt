-- ===== src/Lock.antt =====
-- os/lock.c: the interrupt lock, and the spin lock over `atomic_swap` of os/entry.S.
pub mod Exclusion
pub mod Interrupts
mod Tests
use xin_os.Base.{
  ℕ, zero, suc, ◌-◌, ◌^◌, bit_and, bit_or, Bool, true, false, Option, none, some, ◌==◌,
  if◌then◌else◌,
}
use xin_os.Hart.{Hart, w_mstatus, mstatus_mie}

unfoldable pub basic_lock : Hart → Hart
unfolding w_mstatus
basic_lock h = w_mstatus h (bit_and h.mstatus (2 ^ 64 - 1 - mstatus_mie))

unfoldable pub basic_unlock : Hart → Hart
unfolding w_mstatus
basic_unlock h = w_mstatus h (bit_or h.mstatus mstatus_mie)

-- `struct lock`
pub record LockT : Type 0 where
  pub locked : ℕ

abbrev pub lock_init : LockT → LockT
lock_init lock = record lock { locked = 0 }

-- `amoswap.w.aq`: the old value, and 1 in its place.
abbrev pub atomic_swap : LockT → ℕ × LockT
atomic_swap lock = (lock.locked, record lock { locked = 1 })

-- The loop of a caller that nobody interrupts; `none` when the fuel runs out.
pub lock_acquire : ℕ → LockT → Option LockT
lock_acquire zero lock = none
lock_acquire (suc k) lock =
    let (old, lock') = atomic_swap lock in
    elim (old == 0) [ true ↦ some lock' | false ↦ lock_acquire k lock' ]

abbrev pub lock_free : LockT → LockT
lock_free lock = record lock { locked = 0 }

-- Where a task of os/user.c is in its loop around the shared lock.
pub data Place : Type 0 where
  acquiring : Place
  holding : Place
  released : Place

-- The lock and the places of all tasks, which interrupts interleave.
pub record Sharing : Type 0 where
  pub lock : LockT
  pub place : ℕ → Place

abbrev pub move_to : Sharing → LockT → ℕ → Place → Sharing
move_to s lock i p = record s { lock = lock; place = λ j. if j == i then p else s.place j }

-- The next step of a task: one round of the loop of `lock_acquire`, `lock_free`, or the way back to
-- the start of its loop.
unfoldable pub task_step : ℕ → Sharing → Sharing
task_step i s = elim (s.place i) [
  | acquiring ↦
      (let (old, lock') = atomic_swap s.lock in
        if old == 0 then move_to s lock' i holding else move_to s lock' i acquiring)
  | holding ↦ move_to s (lock_free s.lock) i released
  | released ↦ move_to s s.lock i acquiring
]

-- An interleaving: any task may be the next to step.
pub data Step (s : Sharing) : Sharing → Type 0 where
  step : (i : ℕ) → Step s (task_step i s)

pub data Reach (s : Sharing) : Sharing → Type 0 where
  here : Reach s s
  next : {t u : Sharing} → Reach s t → Step t u → Reach s u

-- The lock free and no task holding it, as at the start.
abbrev pub start : Sharing
start = record { lock = record { locked = 0 }; place = λ _. acquiring }
