-- ===== src/Printf/Output.antt =====
-- `_vprintf` of os/printf.c: what `out_buf` holds when it is handed to `uart_puts`.
use xin_os.Base.{
  ℕ, zero, suc, ◌+◌, ◌-◌, ◌^◌, ◌≤◌, ◌<◌, ◌≡◌, refl, ap, ◌∙◌, Bool, true, false, some, List, [], ◌∷◌,
  arith, ltb, leb, length, u32, update, update_self, update_ne, get_or,
}
use xin_os.Printf.{
  Arg, Out, put, put_text, scan, terminate, vsnprintf, Printed, printed, overflow, vprintf,
}
use xin_os.Printf.Text.{render}
use xin_os.Printf.Scan.{put_rendered, scan-render}

put_text-pos : (o : Out) (xs : List ℕ) → (put_text o xs).pos ≡ o.pos + length xs
unfolding put_text
put_text-pos o [] = omega arith
put_text-pos o (x ∷ xs) = omega (arith, put_text-pos (put o x) xs)

put_text-present : (o : Out) (xs : List ℕ) → (put_text o xs).present ≡ o.present
unfolding put_text
put_text-present o [] = refl
put_text-present o (x ∷ xs) = put_text-present (put o x) xs

put_text-size : (o : Out) (xs : List ℕ) → (put_text o xs).size ≡ o.size
unfolding put_text
put_text-size o [] = refl
put_text-size o (x ∷ xs) = put_text-size (put o x) xs

put_text-before :
    (o : Out) (xs : List ℕ) (a : ℕ) → a < o.pos → (put_text o xs).buffer a ≡ o.buffer a
unfolding put_text update
put_text-before o [] a before = refl
put_text-before o (x ∷ xs) a before = put_text-before (put o x) xs a (omega arith) ∙ ground arith

put_text-at :
    (o : Out) (xs : List ℕ) (i : ℕ)
    → o.present ≡ true
    → o.pos + length xs ≤ o.size
    → i < length xs
    → (put_text o xs).buffer (o.pos + i) ≡ get_or xs i 0
unfolding put_text update
put_text-at o [] i here fits low = absurd (omega arith)
put_text-at o (x ∷ xs) zero here fits low =
    put_text-before (put o x) xs (o.pos + 0) (omega arith) ∙ rw here (ground arith)
put_text-at o (x ∷ xs) (suc i) here fits low =
    let e : o.pos + suc i ≡ o.pos + 1 + i = omega arith in
    rw e (put_text-at (put o x) xs i here (omega arith) (omega arith))

abbrev start : Bool → (ℕ → ℕ) → ℕ → Out
start present buffer size = record { present = present; size = size; pos = 0; buffer = buffer }

vsnprintf-render :
    (p : Bool) (b : ℕ → ℕ) (n : ℕ) (s : List ℕ) (args : List Arg) (xs : List ℕ)
    → render s false false args ≡ some xs
    → vsnprintf p b n s args ≡ some (u32 (length xs), terminate (put_text (start p b n) xs))
unfolding vsnprintf
vsnprintf-render p b n s args xs e =
    let r : scan s false false args (start p b n) ≡ some (put_text (start p b n) xs) =
      scan-render s (start p b n) false false args ∙ ap (put_rendered (start p b n)) e in
    let at_end : (put_text (start p b n) xs).pos ≡ length xs =
      omega (arith, put_text-pos (start p b n) xs) in
    rw (vsnprintf, r, at_end) refl

-- The text is handed to the device: `out_buf` holds it from the start, with a 0 behind it, and its
-- length is returned.
pub record PrintsText (xs : List ℕ) (r : Printed) : Type 0 where
  pub out_buf : ℕ → ℕ
  pub result : r ≡ printed (length xs) out_buf
  pub shown : (i : ℕ) → i < length xs → out_buf i ≡ get_or xs i 0
  pub ended : out_buf (length xs) ≡ 0

terminate_fits :
    (o : Out) → o.present ≡ true → o.pos < o.size → terminate o ≡ update o.buffer o.pos 0
terminate_fits o here fits = let l : ltb o.pos o.size ≡ true = ground arith in rw (here, l) refl

from_zero : (i : ℕ) → i ≡ 0 + i
from_zero i = omega arith

-- A format that stands for a text of less than 1023 characters leaves in `out_buf` exactly that
-- text from the start with a 0 behind it, and the text's length is returned.
pub vprintf-PrintsText :
    (b : ℕ → ℕ) (s : List ℕ) (args : List Arg) (xs : List ℕ)
    → render s false false args ≡ some xs
    → length xs < 1023
    → PrintsText xs (vprintf b s args)
unfolding vprintf
vprintf-PrintsText b s args xs e short =
    let n = length xs + 1 in
    let o = put_text (start true b n) xs in
    let at_end : o.pos ≡ length xs = omega (arith, put_text-pos (start true b n) xs) in
    let whole : u32 (length xs) ≡ length xs = omega arith in
    let one_more : u32 (length xs + 1) ≡ n = omega arith in
    let l : leb 1024 n ≡ false = ground arith in
    let t : terminate o ≡ update o.buffer o.pos 0 =
      terminate_fits o (put_text-present (start true b n) xs)
        (omega (arith, at_end, put_text-size (start true b n) xs)) in
    record {
      out_buf = terminate o;
      result =
          rw
            (
              vprintf,
              vsnprintf-render false b (2 ^ 64 - 1) s args xs e,
              whole,
              one_more,
              l,
              vsnprintf-render true b n s args xs e,
            )
            (ap (λ (k : ℕ). printed k (terminate o)) whole);
      shown = λ i low.
          ap (λ (m : ℕ → ℕ). m i) t
          ∙ update_ne o.buffer o.pos i 0 (ground (arith, at_end))
          ∙ ap o.buffer (from_zero i)
          ∙ put_text-at (start true b n) xs i refl (omega arith) low;
      ended = ap (λ (m : ℕ → ℕ). m (length xs)) t ∙ rw at_end (update_self o.buffer (length xs) 0);
    }

-- A format that stands for a text of at least 1023 characters, and fewer than 2 ^ 32 - 1, is not
-- printed: the kernel stops with a message.
pub vprintf-overflow :
    (b : ℕ → ℕ) (s : List ℕ) (args : List Arg) (xs : List ℕ)
    → render s false false args ≡ some xs
    → 1023 ≤ length xs
    → length xs < 2 ^ 32 - 1
    → vprintf b s args ≡ overflow
unfolding vprintf
vprintf-overflow b s args xs e long fits =
    let l : leb 1024 (u32 (u32 (length xs) + 1)) ≡ true = ground arith in
    rw (vprintf, vsnprintf-render false b (2 ^ 64 - 1) s args xs e, l) refl
