-- ===== src/Entry/Bytes.antt =====
-- Words in memory: what a load reads behind a store.
use xin_os.Base.{
  ℕ, zero, suc, ◌+◌, ◌*◌, ◌/◌, ◌%◌, ◌^◌, ◌≤◌, ◌<◌, ◌≡◌, refl, ◌∙◌, ◌⊎◌, inl, arith, Memory, update,
  update_self, update_ne, subst,
}
use native.Mathlib.Nat.{pow-suc, add-zero}
use xin_os.Entry.{store_bytes, load_bytes}

-- A store changes its own bytes only.
pub store_bytes_other :
    (k : ℕ) (m : Memory) (a v c : ℕ) → (c < a) ⊎ (a + k ≤ c) → store_bytes k m a v c ≡ m c
unfolding store_bytes
store_bytes_other zero m a v c out = refl
store_bytes_other (suc k) m a v c out =
    store_bytes_other k (update m a (v % 256)) (a + 1) (v / 256) c (ground (arith, out))
    ∙ update_ne m a c (v % 256) (ground (arith, out))

pub load_bytes_same :
    (k : ℕ) (m n : Memory) (a : ℕ)
    → ((i : ℕ) → i < k → m (a + i) ≡ n (a + i))
    → load_bytes k m a ≡ load_bytes k n a
unfolding load_bytes
load_bytes_same zero m n a same = refl
load_bytes_same (suc k) m n a same =
    let rest : (i : ℕ) → i < k → m (a + 1 + i) ≡ n (a + 1 + i) = λ i small.
      let e : a + suc i ≡ a + 1 + i = omega arith in
      subst (λ z. m z ≡ n z) e (same (suc i) (omega arith)) in
    let first : m a ≡ n a = subst (λ z. m z ≡ n z) (add-zero a) (same 0 (omega arith)) in
    rw (first, load_bytes_same k m n (a + 1) rest) refl

pub load_bytes-store_bytes :
    (k : ℕ) (m : Memory) (a v : ℕ) → v < 256 ^ k → load_bytes k (store_bytes k m a v) a ≡ v
unfolding load_bytes store_bytes
load_bytes-store_bytes zero m a v fits = omega arith
load_bytes-store_bytes (suc k) m a v fits =
    let m1 = update m a (v % 256) in
    let first : store_bytes k m1 (a + 1) (v / 256) a ≡ v % 256 =
      store_bytes_other k m1 (a + 1) (v / 256) a (inl (omega arith)) ∙ update_self m a (v % 256) in
    let rest : load_bytes k (store_bytes k m1 (a + 1) (v / 256)) (a + 1) ≡ v / 256 =
      load_bytes-store_bytes k m1 (a + 1) (v / 256) (omega (arith, pow-suc 256 k)) in
    omega (arith, first, rest)

pub slots_more : (w n : ℕ) → suc n * w ≡ w + n * w
slots_more w n = grind arith

pub slot_before : (w i n : ℕ) → i < n → i * w + w ≤ n * w
slot_before w i n small = grind arith
