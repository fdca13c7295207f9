-- ===== src/Printf/Bounds.antt =====
-- `_vsnprintf` of os/printf.c, for every format and all arguments: which bytes of the buffer it writes.
use xin_os.Base.{
  ℕ, zero, suc, ◌+◌, ◌-◌, ◌/◌, ◌%◌, ◌^◌, ◌≤◌, ◌<◌, ◌≡◌, refl, ap, sym, ◌∙◌, Bool, true, false,
  Option, none, some, List, [], ◌∷◌, arith, ltb, leb, ◌==◌, if◌then◌else◌, Bool-cases, ◌⊎◌, inl,
  inr, u32, update, update_self, subst,
}
use xin_os.Printf.{
  Arg, number, text, Out, store, advance, put, put_digits, put_number, hex_digit, put_hex, put_text,
  values, Step, go, undefined, convert_d, convert_x, convert_s, convert, scan_char, scan, terminate,
  vsnprintf, printed, vprintf, count_digits, Printed, overflow, no_meaning,
}

-- The parameters stay, and no byte behind the size is written.
pub record Kept (o o' : Out) : Type 0 where
  pub present : o'.present ≡ o.present
  pub size : o'.size ≡ o.size
  pub outside : (i : ℕ) → o.size ≤ i → o'.buffer i ≡ o.buffer i

Kept-refl : (o : Out) → Kept o o
Kept-refl o = record { present = refl; size = refl; outside = λ i far. refl }

Kept-trans : (o1 o2 o3 : Out) → Kept o1 o2 → Kept o2 o3 → Kept o1 o3
Kept-trans o1 o2 o3 a b = record {
  present = b.present ∙ a.present;
  size = b.size ∙ a.size;
  outside = λ i far. b.outside i (omega (arith, a.size, far)) ∙ a.outside i far;
}

Kept-store : (o : Out) (i c : ℕ) → Kept o (store o i c)
unfolding update
Kept-store o i c = record { present = refl; size = refl; outside = λ j far. ground arith }

Kept-advance : (o o' : Out) (k : ℕ) → Kept o o' → Kept o (advance o' k)
Kept-advance o o' k h = record { present = h.present; size = h.size; outside = h.outside }

Kept-put : (o : Out) (c : ℕ) → Kept o (put o c)
Kept-put o c = Kept-advance o (store o 0 c) 1 (Kept-store o 0 c)

Kept-put_digits : (i : ℕ) (o : Out) (num : ℕ) → Kept o (put_digits i o num)
unfolding put_digits
Kept-put_digits zero o num = Kept-refl o
Kept-put_digits (suc i) o num =
    let o1 = store o i (b'0' + num % 10) in
    Kept-trans o o1 (put_digits i o1 (num / 10)) (Kept-store o i (b'0' + num % 10))
      (Kept-put_digits i o1 (num / 10))

Kept-put_number : (o : Out) (num : ℕ) → Kept o (put_number o num)
unfolding put_number
Kept-put_number o num =
    let k = count_digits num num in Kept-advance o (put_digits k o num) k (Kept-put_digits k o num)

Kept-put_hex : (i : ℕ) (o : Out) (num : ℕ) → Kept o (put_hex i o num)
unfolding put_hex
Kept-put_hex zero o num = Kept-refl o
Kept-put_hex (suc i) o num =
    let d = hex_digit (num / 16 ^ i % 16) in
    Kept-trans o (put o d) (put_hex i (put o d) num) (Kept-put o d) (Kept-put_hex i (put o d) num)

Kept-put_text : (o : Out) (xs : List ℕ) → Kept o (put_text o xs)
unfolding put_text
Kept-put_text o [] = Kept-refl o
Kept-put_text o (x ∷ xs) =
    Kept-trans o (put o x) (put_text (put o x) xs) (Kept-put o x) (Kept-put_text (put o x) xs)

-- The same for a step.
abbrev KeptBy : Out → Step → Type 0
KeptBy o (go format longarg args o') = Kept o o'
KeptBy o undefined = Unit

KeptBy-if :
    (o : Out) (b : Bool) (r r' : Step) → KeptBy o r → KeptBy o r' → KeptBy o (if b then r else r')
KeptBy-if o true r r' h h' = h
KeptBy-if o false r r' h h' = h'

KeptBy-trans : (o o1 : Out) (r : Step) → Kept o o1 → KeptBy o1 r → KeptBy o r
KeptBy-trans o o1 (go format longarg args o') a h = Kept-trans o o1 o' a h
KeptBy-trans o o1 undefined a h = tt

KeptBy-convert_d :
    (longarg : Bool) (args : List Arg) (o : Out) → KeptBy o (convert_d longarg args o)
KeptBy-convert_d longarg (number v ∷ args) o =
    let num = v % values longarg in
    KeptBy-if o (ltb num (values longarg / 2)) _ _ (Kept-put_number o num) (
      KeptBy-if o (num == 2 ^ 63) undefined _ tt (
        Kept-trans o (put o b'-') (put_number (put o b'-') (values longarg - num)) (Kept-put o b'-')
          (Kept-put_number (put o b'-') (values longarg - num))))
KeptBy-convert_d longarg (text t ∷ args) o = tt
KeptBy-convert_d longarg [] o = tt

KeptBy-convert_x :
    (longarg : Bool) (args : List Arg) (o : Out) → KeptBy o (convert_x longarg args o)
KeptBy-convert_x longarg (number v ∷ args) o =
    Kept-put_hex (if longarg then 16 else 8) o (v % values longarg)
KeptBy-convert_x longarg (text t ∷ args) o = tt
KeptBy-convert_x longarg [] o = tt

KeptBy-convert_s : (args : List Arg) (o : Out) → KeptBy o (convert_s args o)
KeptBy-convert_s (text t ∷ args) o = Kept-put_text o t
KeptBy-convert_s (number v ∷ args) o = tt
KeptBy-convert_s [] o = tt

KeptBy-convert :
    (longarg : Bool) (args : List Arg) (o : Out) (c : ℕ) → KeptBy o (convert longarg args o c)
unfolding convert
KeptBy-convert longarg args o c = KeptBy-if o (c == b'd') _ _ (KeptBy-convert_d longarg args o) (
    KeptBy-if o (c == b'l') _ _ (Kept-refl o) (
      KeptBy-if o (c == b'p') _ _
        (KeptBy-trans o (put (put o b'0') b'x') (convert_x true args (put (put o b'0') b'x'))
          (Kept-trans o (put o b'0') (put (put o b'0') b'x') (Kept-put o b'0')
            (Kept-put (put o b'0') b'x'))
          (KeptBy-convert_x true args (put (put o b'0') b'x')))
        (KeptBy-if o (c == b'x') _ _ (KeptBy-convert_x longarg args o) (
          KeptBy-if o (c == b's') _ _ (KeptBy-convert_s args o)
            (KeptBy-if o (c == b'c') _ _ (Kept-put o c) (Kept-refl o))))))

KeptBy-scan_char :
    (format longarg : Bool) (args : List Arg) (o : Out) (c : ℕ)
    → KeptBy o (scan_char format longarg args o c)
KeptBy-scan_char true longarg args o c = KeptBy-convert longarg args o c
KeptBy-scan_char false longarg args o c = KeptBy-if o (c == b'%') _ _ (Kept-refl o) (Kept-put o c)

-- A step that goes on keeps what is written inside, and so does the rest of the loop.
after_step :
    (o o' : Out) (r : Step) (rest : Step → Option Out)
    → KeptBy o r
    → ((format longarg : Bool) (args : List Arg) (o1 : Out)
        → rest (go format longarg args o1) ≡ some o'
        → Kept o1 o')
    → rest undefined ≡ none
    → rest r ≡ some o'
    → Kept o o'
after_step o o' (go format longarg args o1) rest k on stop e =
    Kept-trans o o1 o' k (on format longarg args o1 e)
after_step o o' undefined rest k on stop e = let b : none ≡ some o' = sym stop ∙ e in absurd cc

scan-Kept :
    (s : List ℕ) (format longarg : Bool) (args : List Arg) (o o' : Out)
    → scan s format longarg args o ≡ some o'
    → Kept o o'
unfolding scan
scan-Kept [] format longarg args o o' e =
    let same : o ≡ o' = cc in subst (Kept o) same (Kept-refl o)
scan-Kept (c ∷ s) format longarg args o o' e =
    after_step o o' (scan_char format longarg args o c)
      (λ r. elim r [
        | undefined ↦ none
        | go format' longarg' args' o1 ↦ scan s format' longarg' args' o1
      ])
      (KeptBy-scan_char format longarg args o c)
      (λ format' longarg' args' o1 e1. scan-Kept s format' longarg' args' o1 o' e1) refl e

terminate-outside : (o : Out) (i : ℕ) → o.size ≤ i → terminate o i ≡ o.buffer i
unfolding update
terminate-outside o i far = ground arith

-- With a buffer that is not empty, a 0 stands in it at the end.
terminate-ended :
    (o : Out) → o.present ≡ true → 0 < o.size → (j : ℕ) × (j < o.size) × (terminate o j ≡ 0)
terminate-ended o here room = elim (Bool-cases (ltb o.pos o.size)) [
  | inl fits ↦ (o.pos, ground (arith, fits), rw (here, fits) (update_self o.buffer o.pos 0))
  | inr full ↦
      let l : ltb 0 o.size ≡ true = ground arith in
      (o.size - 1, omega (arith, room), rw (here, full, l) (update_self o.buffer (o.size - 1) 0))
]

-- What a run with the buffer `b` of size `n` leaves: the bytes behind the size as they were, and a 0 in
-- the buffer, unless it is empty.
abbrev IsCut : ℕ → (ℕ → ℕ) → Type 0
IsCut n buf = (n ≡ 0) ⊎ ((j : ℕ) × (j < n) × (buf j ≡ 0))

abbrev pub Bounded : (ℕ → ℕ) → ℕ → Option (ℕ × (ℕ → ℕ)) → Type 0
Bounded b n none = Unit
Bounded b n (some (res, buf)) = (res < 2 ^ 32) × ((i : ℕ) → n ≤ i → buf i ≡ b i) × IsCut n buf

terminate-IsCut : (o : Out) → o.present ≡ true → IsCut o.size (terminate o)
terminate-IsCut o here = elim (Bool-cases (ltb 0 o.size)) [
  | inl room ↦ inr (terminate-ended o here (ground (arith, room)))
  | inr empty ↦ inl (ground (arith, empty))
]

Bounded-scan :
    (b : ℕ → ℕ) (n : ℕ) (o : Out) (r : Option Out)
    → ((o' : Out) → r ≡ some o' → Kept o o')
    → o.present ≡ true
    → o.size ≡ n
    → o.buffer ≡ b
    → Bounded b n (elim r [ none ↦ none | some o' ↦ some (u32 o'.pos, terminate o') ])
Bounded-scan b n o none kept here size buffer = tt
Bounded-scan b n o (some o') kept here size buffer =
    let k = kept o' refl in
    (
      omega arith,
      (λ i far.
          terminate-outside o' i (omega (arith, k.size, size, far))
          ∙ k.outside i (omega (arith, size, far))
          ∙ ap (λ (f : ℕ → ℕ). f i) buffer),
      subst (λ z. IsCut z (terminate o')) (k.size ∙ size) (terminate-IsCut o' (k.present ∙ here)),
    )

-- Whatever the format and the arguments are, no byte behind the buffer's size is written, and a buffer
-- that is not empty holds a 0 at the end.
pub vsnprintf-Bounded :
    (b : ℕ → ℕ) (n : ℕ) (s : List ℕ) (args : List Arg) → Bounded b n (vsnprintf true b n s args)
unfolding vsnprintf
vsnprintf-Bounded b n s args =
    let o : Out = record { present = true; size = n; pos = 0; buffer = b } in
    Bounded-scan b n o (scan s false false args o) (λ o' e. scan-Kept s false false args o o' e)
      refl refl refl

-- The same for `out_buf`, whose size is 1024: a 0 stands before its last byte, unless the text has as
-- many characters as the count can tell.
abbrev pub InBuffer : (ℕ → ℕ) → Printed → Type 0
InBuffer b (printed res buf) =
    ((i : ℕ) → 1023 ≤ i → buf i ≡ b i) × ((res ≡ 2 ^ 32 - 1) ⊎ ((j : ℕ) × (j < 1023) × (buf j ≡ 0)))
InBuffer b overflow = Unit
InBuffer b no_meaning = Unit

second_run :
    (b : ℕ → ℕ) (res : ℕ) (r : Option (ℕ × (ℕ → ℕ)))
    → res < 2 ^ 32
    → leb 1024 (u32 (res + 1)) ≡ false
    → Bounded b (u32 (res + 1)) r
    → InBuffer b (elim r [ none ↦ no_meaning | some (count, buf) ↦ printed res buf ])
second_run b res none word short h = tt
second_run b res (some (count, buf)) word short h =
    let n : u32 (res + 1) < 1024 = ground (arith, short) in
    (
      (λ i far. h.1 i (omega (arith, n, far))),
      elim h.2 [
        | inl empty ↦ inl (omega (arith, empty, word))
        | inr (j, low, stop) ↦ inr (j, omega (arith, low, n), stop)
      ],
    )

-- The count is an int.
abbrev IsWord : Option (ℕ × (ℕ → ℕ)) → Type 0
IsWord none = Unit
IsWord (some (res, buf)) = res < 2 ^ 32

IsWord-of :
    (r : Option Out) → IsWord (elim r [ none ↦ none | some o ↦ some (u32 o.pos, terminate o) ])
IsWord-of none = tt
IsWord-of (some o) = omega arith

vsnprintf-IsWord :
    (p : Bool) (b : ℕ → ℕ) (n : ℕ) (s : List ℕ) (args : List Arg) → IsWord (vsnprintf p b n s args)
unfolding vsnprintf
vsnprintf-IsWord p b n s args =
    IsWord-of (scan s false false args (record { present = p; size = n; pos = 0; buffer = b }))

first_run :
    (b : ℕ → ℕ) (r : Option (ℕ × (ℕ → ℕ))) (second : ℕ → Option (ℕ × (ℕ → ℕ)))
    → IsWord r
    → ((n : ℕ) → Bounded b n (second n))
    → InBuffer b (elim r [
      | none ↦ no_meaning
      | some (res, _) ↦
          if leb 1024 (u32 (res + 1))
          then overflow
          else elim (second (u32 (res + 1))) [ none ↦ no_meaning | some (_, buf) ↦ printed res buf ]
    ])
first_run b none second word h = tt
first_run b (some (res, unused)) second word h = elim (Bool-cases (leb 1024 (u32 (res + 1)))) [
  | inl long ↦ rw long tt
  | inr short ↦ rw short (second_run b res (second (u32 (res + 1))) word short (h (u32 (res + 1))))
]

-- Whatever the format and the arguments are, `_vprintf` leaves all bytes from the 1023rd on of
-- `out_buf` and behind it as they were; when it prints, a 0 stands before that byte, unless the count is
-- 2 ^ 32 - 1.
pub vprintf-InBuffer : (b : ℕ → ℕ) (s : List ℕ) (args : List Arg) → InBuffer b (vprintf b s args)
unfolding vprintf
vprintf-InBuffer b s args =
    first_run b (vsnprintf false b (2 ^ 64 - 1) s args) (λ n. vsnprintf true b n s args)
      (vsnprintf-IsWord false b (2 ^ 64 - 1) s args) (λ n. vsnprintf-Bounded b n s args)
