-- ===== src/Programs/Table.antt =====
-- The tables that `printPageInfo` and `printBlockInfo` of os/page.c print.
use xin_os.Base.{
  ℕ, zero, suc, ◌+◌, ◌/◌, ◌%◌, ◌^◌, ◌≤◌, ◌<◌, ◌≡◌, refl, true, false, some, List, [], ◌∷◌, ◌++◌,
  arith, ltb, ◌==◌, if◌then◌else◌, Bool-cases, inl, inr, Ptr, Memory, length, length-append,
}
use xin_os.Malloc.Looks.{IsBytes}
use xin_os.Uart.{Uart, is_line}
use xin_os.Uart.Send.{Idles}
use xin_os.Printf.{number, shown}
use xin_os.Printf.Text.{decimal, render}
use xin_os.Printf.Line.{NoZero}
use xin_os.Kernel.{Message, printf_all}
use xin_os.Kernel.Boot.{Texts, no_text, text_then, printf_all-sends}
use xin_os.Programs.{say, print_flags, print_page_info}

-- One flag byte, and a table of them from the cell with number `j` on: each eighth cell ends a line.
abbrev pub cell_text : ℕ → List ℕ
cell_text v = b'|' ∷ b' ' ∷ (decimal v v ++ (b' ' ∷ []))

abbrev pub table_text : ℕ → Memory → Ptr → ℕ → List ℕ
table_text zero m p j = 10 ∷ []
table_text (suc k) m p j =
    let rest = table_text k m (p + 1) (j + 1) in
    cell_text (m p) ++ (if (j + 1) % 8 == 0 then 10 ∷ rest else rest)

decimal_short : (k n : ℕ) → length (decimal k n) ≤ k
decimal_short zero n = omega arith
decimal_short (suc k) n = elim (Bool-cases (n == 0)) [
  | inl e ↦ rw (length, decimal, e) (omega arith)
  | inr e ↦
      rw (length, decimal, e)
        (omega (
          arith,
          length-append (decimal k (n / 10)) ((b'0' + n % 10) ∷ []),
          decimal_short k (n / 10),
        ))
]

append-NoZero : (xs ys : List ℕ) → NoZero xs → NoZero ys → NoZero (xs ++ ys)
append-NoZero [] ys h k = k
append-NoZero (x ∷ xs) ys h k = (h.0, append-NoZero xs ys h.1 k)

decimal-NoZero : (k n : ℕ) → NoZero (decimal k n)
decimal-NoZero zero n = tt
decimal-NoZero (suc k) n = elim (Bool-cases (n == 0)) [
  | inl e ↦ rw (decimal, e) tt
  | inr e ↦
      rw (decimal, e)
        (append-NoZero (decimal k (n / 10)) ((b'0' + n % 10) ∷ []) (decimal-NoZero k (n / 10))
          (omega arith))
]

cell_render :
    (v : ℕ) → v < 256 → render (say "| %d " []).0 false false (number v ∷ []) ≡ some (cell_text v)
unfolding render
cell_render v small =
    let e : v % 2 ^ 32 ≡ v = omega arith in
    let g : ltb v (2 ^ 32 / 2) ≡ true = ground arith in rw (render, e, g) refl

cell_sound : (v : ℕ) → v < 256 → (length (cell_text v) < 1023) × NoZero (cell_text v)
cell_sound v small = (
  omega (arith, length-append (decimal v v) (b' ' ∷ []), decimal_short v v),
  (
    omega arith,
    (omega arith, append-NoZero (decimal v v) (b' ' ∷ []) (decimal-NoZero v v) (omega arith)),
  ),
)

line_end : {ms : List Message} {ys : List ℕ} → Texts ms ys → Texts (say "\n" [] ∷ ms) (10 ∷ ys)
unfolding render
line_end ts = text_then (say "\n" []) (10 ∷ []) refl (omega arith) (omega arith) ts

flags_table :
    (k : ℕ) (m : Memory) (p : Ptr) (c j : ℕ)
    → IsBytes m
    → c ≡ j % 8 + 1
    → Texts (print_flags k m p c ++ (say "\n" [] ∷ [])) (table_text k m p j)
unfolding print_flags
flags_table zero m p c j ok e = line_end no_text
flags_table (suc k) m p c j ok e =
    let (short, nz) = cell_sound (m p) (ok p) in
    let rest = flags_table k m (p + 1) (c % 8 + 1) (j + 1) ok (omega (arith, e)) in
    elim (Bool-cases (c == 8)) [
      | inl h ↦
          let g : ((j + 1) % 8 == 0) ≡ true = ground (arith, e, h) in
          rw (h, g)
            (text_then _ (cell_text (m p)) (cell_render (m p) (ok p)) short nz (line_end rest))
      | inr h ↦
          let g : ((j + 1) % 8 == 0) ≡ false = ground (arith, e, h) in
          rw (h, g) (text_then _ (cell_text (m p)) (cell_render (m p) (ok p)) short nz rest)
    ]

-- From flags that are bytes, on a line that shows its registers and becomes idle often enough,
-- `printPageInfo` sends the flags of `n` pages as decimal cells (nothing between the spaces for 0),
-- a line for every eight of them, and one new line at the end.
pub print_page_info-sends :
    (u : Uart) (b : ℕ → ℕ) (m : Memory) (page : Ptr) (n : ℕ) (rest : List ℕ)
    → IsBytes m
    → is_line u ≡ true
    → Idles (length (table_text n m page 0)) u.status rest
    → (res : ℕ) × (buf : ℕ → ℕ) × (printf_all u b (print_page_info m page n)
        ≡ shown res buf (record u { status = rest; sent = u.sent ++ table_text n m page 0 }))
print_page_info-sends u b m page n rest ok line i =
    printf_all-sends u b (print_page_info m page n) (table_text n m page 0) rest
      (flags_table n m page 1 0 ok (omega arith)) line i
