-- ===== src/Entry/Swap.antt =====
-- `atomic_swap` of os/entry.S does what the locks of os/lock.c take it for.
use xin_os.Base.{ℕ, ◌+◌, ◌^◌, ◌<◌, ◌≤◌, ◌≡◌, refl, ap, ◌⊎◌, arith, Ptr, Memory, u32, update}
use xin_os.Lock
use xin_os.Lock.{LockT}
use xin_os.Entry.{Build, rv32, rv64, Cpu, ra, a0, run, load_bytes, signed_word, atomic_swap}
use xin_os.Entry.Bytes.{load_bytes-store_bytes, store_bytes_other}

-- The lock in memory.
abbrev pub lock_at : Memory → (lock : Ptr) → LockT
lock_at m lock = record { locked = load_bytes 4 m lock }

-- The word comes back from the register.
u32-signed_word : (b : Build) (v : ℕ) → v < 2 ^ 32 → u32 (signed_word b v) ≡ v
u32-signed_word rv32 v small = omega arith
u32-signed_word rv64 v small = ground arith

-- The result, an `int`, and the lock are those of the swap; nothing else in memory changes, and the code
-- goes on at its caller.
pub record Swaps (s r : Cpu) : Type 0 where
  pub result : u32 (r.x a0) ≡ (Lock.atomic_swap (lock_at s.mem (s.x a0))).0
  pub lock : lock_at r.mem (s.x a0) ≡ (Lock.atomic_swap (lock_at s.mem (s.x a0))).1
  pub others : (c : ℕ) → (c < s.x a0) ⊎ (s.x a0 + 4 ≤ c) → r.mem c ≡ s.mem c
  pub goes_on : r.pc ≡ s.x ra

-- The instructions of `atomic_swap` refine the swap that the locks are built on, in both builds: for a lock
-- whose address is in a0, the result is the old value and the lock holds 1, no other byte changes, and the
-- code goes on at its caller.
pub atomic_swap-Swaps :
    (b : Build) (s : Cpu) → load_bytes 4 s.mem (s.x a0) < 2 ^ 32 → Swaps s (run b atomic_swap s)
unfolding run atomic_swap update
atomic_swap-Swaps b s word = record {
  result = u32-signed_word b (load_bytes 4 s.mem (s.x a0)) word;
  lock = ap (λ v. record { locked = v }) (load_bytes-store_bytes 4 s.mem (s.x a0) 1 (omega arith));
  others = λ c out. store_bytes_other 4 s.mem (s.x a0) 1 c out;
  goes_on = refl;
}
