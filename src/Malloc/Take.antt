-- ===== src/Malloc/Take.antt =====
-- What `_try_malloc` of os/page.c writes into a block table for the blocks it hands out.
use xin_os.Base.{
  ℕ, zero, suc, ◌+◌, ◌-◌, ◌*◌, ◌/◌, ◌%◌, ◌≤◌, ◌<◌, ◌≡◌, ◌≢◌, refl, ◌⊎◌, inl, inr, false, arith,
  ◌==◌, if◌then◌else◌, Ptr, Memory, update, ◌∙◌, bit_and-one, bit_and-two, bit_and-four, bit_or-one,
  bit_or-two, bit_or-four,
}
use xin_os.Malloc.{
  is_block_free, is_block_last, is_block_first, set_block_flags, low_block, high_block,
  increase_block_usage_of_malloc, get_memory_usage_of_malloc, take_blocks, take_block_run,
  block_taken, block_first, block_last,
}
use xin_os.Malloc.Usage.{CountBytes, increase_lem}

module _ (m : Memory) (p : Ptr) where
  pub block_free_eq : is_block_free m p ≡ (m p % 2 == 0)
  unfolding is_block_free
  block_free_eq = ground (arith, bit_and-one (m p))

  pub block_last_eq : is_block_last m p ≡ (m p / 2 % 2 == 1)
  unfolding is_block_last
  block_last_eq = ground (arith, bit_and-two (m p))

  pub block_first_eq : is_block_first m p ≡ (m p / 4 % 2 == 1)
  unfolding is_block_first
  block_first_eq = ground (arith, bit_and-four (m p))

  pub take_one_eq :
      (a : Ptr)
      → set_block_flags m p block_taken a ≡ (if a == p then (m p + 1 - m p % 2) % 256 else m a)
  unfolding set_block_flags update
  take_one_eq a = ground (arith, bit_or-one (m p))

  pub last_one_eq :
      (a : Ptr)
      → set_block_flags m p block_last a
        ≡ (if a == p then (m p + 2 - 2 * (m p / 2 % 2)) % 256 else m a)
  unfolding set_block_flags update
  last_one_eq a = ground (arith, bit_or-two (m p))

  pub first_one_eq :
      (a : Ptr)
      → set_block_flags m p block_first a
        ≡ (if a == p then (m p + 4 - 4 * (m p / 4 % 2)) % 256 else m a)
  unfolding set_block_flags update
  first_one_eq a = ground (arith, bit_or-four (m p))

-- From `m` to `m'`: `k` blocks more are counted in the table at `b`, no taken entry becomes free,
-- and only the entries from `t` to `t + k` and the two bytes of the count are written.
pub record Took (m : Memory) (b t : Ptr) (k n : ℕ) (m' : Memory) : Type 0 where
  pub bytes : CountBytes m' b
  pub count : get_memory_usage_of_malloc m' b ≡ (get_memory_usage_of_malloc m b + k) % 1024
  pub keeps : (a : Ptr) → a ≢ low_block b → is_block_free m a ≡ false → is_block_free m' a ≡ false
  pub frame : (a : Ptr) → (a < t) ⊎ (t + n ≤ a) → a ≢ low_block b → a ≢ high_block b → m' a ≡ m a

module _ (m : Memory) (b t : Ptr) (c : CountBytes m b) (in_table : t < low_block b) where
  take_one : Took m b t 0 1 (set_block_flags m t block_taken)
  unfolding get_memory_usage_of_malloc
  take_one =
      let s = take_one_eq m t in
      let m' = set_block_flags m t block_taken in
      record {
        bytes = record {
          low = ground (arith, s (low_block b));
          high = ground (arith, s (high_block b));
        };
        count = ground (arith, s (low_block b), s (high_block b));
        keeps = λ a ne f. ground (arith, s a, block_free_eq m a, block_free_eq m' a);
        frame = λ a out p q. ground (arith, s a, out);
      }

  first_one : Took m b t 0 1 (set_block_flags m t block_first)
  unfolding get_memory_usage_of_malloc
  first_one =
      let s = first_one_eq m t in
      let m' = set_block_flags m t block_first in
      record {
        bytes = record {
          low = ground (arith, s (low_block b));
          high = ground (arith, s (high_block b));
        };
        count = ground (arith, s (low_block b), s (high_block b));
        keeps = λ a ne f. ground (arith, s a, block_free_eq m a, block_free_eq m' a);
        frame = λ a out p q. ground (arith, s a, out);
      }

  last_one : Took m b t 0 1 (set_block_flags m t block_last)
  unfolding get_memory_usage_of_malloc
  last_one =
      let s = last_one_eq m t in
      let m' = set_block_flags m t block_last in
      record {
        bytes = record {
          low = ground (arith, s (low_block b));
          high = ground (arith, s (high_block b));
        };
        count = ground (arith, s (low_block b), s (high_block b));
        keeps = λ a ne f. ground (arith, s a, block_free_eq m a, block_free_eq m' a);
        frame = λ a out p q. ground (arith, s a, out);
      }

  is_taken : is_block_free (set_block_flags m t block_taken) t ≡ false
  is_taken = ground (arith, take_one_eq m t t, block_free_eq (set_block_flags m t block_taken) t)

-- Two steps inside one area.
Took-trans :
    (m m1 m2 : Memory) (b t t' u k k' n n' w : ℕ)
    → u ≤ t
    → t + n ≤ u + w
    → u ≤ t'
    → t' + n' ≤ u + w
    → Took m b t k n m1
    → Took m1 b t' k' n' m2
    → Took m b u (k + k') w m2
Took-trans m m1 m2 b t t' u k k' n n' w l1 h1 l2 h2 r s = record {
  bytes = s.bytes;
  count = omega (arith, r.count, s.count);
  keeps = λ a ne f. s.keeps a ne (r.keeps a ne f);
  frame = λ a out p q.
      s.frame a (outside t' n' a out (omega arith) (omega arith)) p q
      ∙ r.frame a (outside t n a out (omega arith) (omega arith)) p q;
}
  where
    outside : (x y a : ℕ) → (a < u) ⊎ (u + w ≤ a) → u ≤ x → x + y ≤ u + w → (a < x) ⊎ (x + y ≤ a)
    outside x y a (inl l) p q = inl (omega arith)
    outside x y a (inr l) p q = inr (omega arith)

increase-Took :
    (m : Memory) (b t : Ptr) → CountBytes m b → Took m b t 1 0 (increase_block_usage_of_malloc m b)
increase-Took m b t c =
    let i = increase_lem m b c in
    let m' = increase_block_usage_of_malloc m b in
    record {
      bytes = i.3;
      count = i.0;
      keeps = λ a ne f.
          ground
            (arith, i.1, i.2 a, block_free_eq m a, block_free_eq m' a, ne_cases a (high_block b));
      frame = λ a out p q. i.2 a p q;
    }
  where
    ne_cases : (a x : ℕ) → (a ≡ x) ⊎ (a ≢ x)
    ne_cases a x = ground arith

pub take_blocks_end : (k : ℕ) (m : Memory) (b t : Ptr) → (take_blocks k m b t).1 ≡ t + k
unfolding take_blocks
take_blocks_end zero m b t = omega arith
take_blocks_end (suc k) m b t = omega (
  arith,
  take_blocks_end k (increase_block_usage_of_malloc (set_block_flags m t block_taken) b) b (t + 1),
)

-- Every entry from `t` to `t + k` is taken.
abbrev pub TakenBlocks : Memory → Ptr → ℕ → Type 0
TakenBlocks m t k = (j : ℕ) → j < k → is_block_free m (t + j) ≡ false

take_blocks-Took :
    (k : ℕ) (m : Memory) (b t : Ptr)
    → CountBytes m b
    → t + k ≤ low_block b
    → Took m b t k k (take_blocks k m b t).0 × TakenBlocks (take_blocks k m b t).0 t k
unfolding take_blocks
take_blocks-Took zero m b t c room = (
  record { bytes = c; count = small m b c; keeps = λ a ne f. f; frame = λ a out p q. refl },
  λ j l. absurd (omega arith),
)
  where
    small :
        (m : Memory) (b : Ptr)
        → CountBytes m b
        → get_memory_usage_of_malloc m b ≡ (get_memory_usage_of_malloc m b + 0) % 1024
    small m b c = unfold get_memory_usage_of_malloc in omega (arith, c.low, c.high)
take_blocks-Took (suc k) m b t c room =
    let m1 = set_block_flags m t block_taken in
    let one = take_one m b t c (omega arith) in
    let inc = increase-Took m1 b t one.bytes in
    let step =
      Took-trans m m1 _ b t t t 0 1 1 0 1 (omega arith) (omega arith) (omega arith) (omega arith)
        one inc in
    let (rest, later) =
      take_blocks-Took k (increase_block_usage_of_malloc m1 b) b (t + 1) inc.bytes (omega arith) in
    (
      (let e : 1 + k ≡ suc k = omega arith in
          rw e at (
            Took-trans m _ _ b t (t + 1) t 1 k 1 k (suc k) (omega arith) (omega arith) (omega arith)
              (omega arith) step rest)),
      all_taken _ t k
          (rest.keeps t (omega arith) (inc.keeps t (omega arith) (is_taken m b t c (omega arith))))
          later,
    )
  where
    all_taken :
        (m : Memory) (t k : ℕ)
        → is_block_free m t ≡ false
        → TakenBlocks m (t + 1) k
        → TakenBlocks m t (suc k)
    all_taken m t k f later zero l = let e : t + 0 ≡ t = omega arith in rw e f
    all_taken m t k f later (suc j) l =
        let e : t + suc j ≡ t + 1 + j = omega arith in rw e (later j (omega arith))

-- The blocks handed out are taken afterwards, they are counted, no block that was taken becomes
-- free, and outside their entries only the count is written.
pub take_block_run-Took :
    (m : Memory) (b t : Ptr) (total : ℕ)
    → CountBytes m b
    → 0 < total
    → t + total ≤ low_block b
    → Took m b t total total (take_block_run m b t total)
      × TakenBlocks (take_block_run m b t total) t total
unfolding take_block_run
take_block_run-Took m b t total c pos room =
    let m1 = set_block_flags m t block_first in
    let one = first_one m b t c (omega arith) in
    let (mid, taken) = take_blocks-Took total m1 b t one.bytes room in
    let m2 = (take_blocks total m1 b t).0 in
    let end : (take_blocks total m1 b t).1 ≡ t + total = take_blocks_end total m1 b t in
    let e : t + total - 1 < low_block b = omega arith in
    let fin = last_one m2 b (t + total - 1) mid.bytes e in
    let two =
      Took-trans m m1 m2 b t t t 0 total 1 total total (omega arith) (omega arith) (omega arith)
        (omega arith) one mid in
    let three =
      Took-trans m m2 _ b t (t + total - 1) t (0 + total) 0 total 1 total (omega arith)
        (omega arith) (omega arith) (omega arith) two fin in
    let z : 0 + total + 0 ≡ total = omega arith in
    rw end (rw z at three, λ j l. fin.keeps (t + j) (omega arith) (taken j l))
