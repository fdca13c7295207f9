-- ===== src/Malloc/Copy.antt =====
-- `memcpy` of os/page.c copies correctly also where the two areas overlap.
use xin_os.Base.{
  ℕ, zero, suc, ◌+◌, ◌-◌, ◌^◌, ◌≤◌, ◌<◌, ◌≡◌, ◌&&◌, arith, ltb, leb, ◌==◌, if◌then◌else◌, Ptr,
  Memory, update, update_lem, u64, Bool-cases, inl, inr, ◌||◌, ap, true, false,
}
use xin_os.Page.{Heap}
use xin_os.Malloc.{done, copy_up, copy_down, memcpy}

-- The memory with the `n` bytes at `src` read at once and written at `dest`.
abbrev pub copied : Memory → Ptr → Ptr → ℕ → Memory
copied m dest src n a = if leb dest a && ltb a (dest + n) then m (src + (a - dest)) else m a

copy_up-copied :
    (n : ℕ) (m : Memory) (dest src : Ptr)
    → dest ≤ src
    → (a : Ptr) → copy_up n m dest src a ≡ copied m dest src n a
unfolding copy_up
copy_up-copied zero m dest src le a = ground arith
copy_up-copied (suc n) m dest src le a = ground (
  arith,
  copy_up-copied n (update m dest (m src)) (dest + 1) (src + 1) (omega arith) a,
  update_lem m dest (m src) a,
  update_lem m dest (m src) (src + 1 + (a - (dest + 1))),
)

copy_down-copied :
    (n : ℕ) (m : Memory) (dest src : Ptr)
    → src ≤ dest
    → (a : Ptr) → copy_down n m (dest + n) (src + n) a ≡ copied m dest src n a
unfolding copy_down
copy_down-copied zero m dest src le a = ground arith
copy_down-copied (suc n) m dest src le a =
    let d : dest + suc n - 1 ≡ dest + n = omega arith in
    let s : src + suc n - 1 ≡ src + n = omega arith in
    rw (d, s)
      (ground (
        arith,
        copy_down-copied n (update m (dest + n) (m (src + n))) dest src le a,
        update_lem m (dest + n) (m (src + n)) a,
        update_lem m (dest + n) (m (src + n)) (src + (a - dest)),
      ))

in_place :
    (dest src a : ℕ) → (dest == src) ≡ true → (if leb dest a then src + (a - dest) else a) ≡ a
in_place dest src a e = ground arith

-- `memcpy` to an area inside the pages copies as if all bytes were read before any is written,
-- overlapping areas included, and writes nothing else.
pub memcpy-copied :
    (h : Heap) (dest src n : ℕ)
    → dest + n < 2 ^ 64
    → h.alloc_start ≤ dest
    → dest + n ≤ h.alloc_end
    → (m : Memory) × (memcpy h dest src n ≡ done (record h { mem = m }))
      × ((a : Ptr) → m a ≡ copied h.mem dest src n a)
unfolding memcpy
memcpy-copied h dest src n small low high =
    let e : u64 (dest + n) ≡ dest + n = omega arith in
    let g : (ltb dest h.alloc_start || ltb h.alloc_end (dest + n)) ≡ false = ground arith in
    rw (e, g)
      (elim (Bool-cases (dest == src)) [
        | inl same ↦ (h.mem, rw same, λ a. ground (arith, ap h.mem (in_place dest src a same)))
        | inr other ↦ elim (Bool-cases (ltb dest src)) [
          | inl up ↦ (_, rw (other, up), copy_up-copied n h.mem dest src (ground arith))
          | inr down ↦ (_, rw (other, down), copy_down-copied n h.mem dest src (ground arith))
        ]
      ])
