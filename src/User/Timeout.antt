-- ===== src/User/Timeout.antt =====
-- `timer_function` of os/user.c: what it counts and sends.
use xin_os.Base.{
  ℕ, ◌+◌, ◌^◌, ◌<◌, ◌≡◌, refl, ap, some, List, [], ◌∷◌, ◌++◌, ltb, arith, length, true, false, u32,
  ◌%◌,
}
use xin_os.Uart.{Uart, is_line}
use xin_os.Uart.Send.{Idles}
use xin_os.Printf.{number, text, Shown, shown}
use xin_os.Printf.Text.{decimal, render}
use xin_os.Printf.Line.{NoZero, printf-sends}
use xin_os.Programs.{bytes}
use xin_os.User.{UserData, timer_function}

-- `======> TIMEOUT: `, the name, `: `, the number in decimal, and the end of the line.
abbrev pub timeout_text : List ℕ → ℕ → List ℕ
timeout_text str n =
    bytes "======> TIMEOUT: " ++ (str ++ (bytes ": " ++ (decimal n n ++ bytes "\n")))

timeout_renders :
    (str : List ℕ) (n : ℕ)
    → n < 2 ^ 31
    → render (bytes "======> TIMEOUT: %s: %d\n") false false (text str ∷ number n ∷ [])
      ≡ some (timeout_text str n)
unfolding render
timeout_renders str n small =
    let whole : n % 2 ^ 32 ≡ n = omega arith in
    let l : ltb n (2 ^ 31) ≡ true = ground arith in rw (render, whole, l) refl

-- When the argument is not NULL, a timer's function counts one more, and sends the name and the count
-- as one line, if the text is short enough for the buffer, has no 0, and the serial line becomes idle
-- often enough. The count stays below 2 ^ 31.
pub timer_function-sends :
    (u : Uart) (b : ℕ → ℕ) (param : UserData) (rest : List ℕ)
    → param.counter + 1 < 2 ^ 31
    → length (timeout_text param.str (param.counter + 1)) < 1023
    → NoZero (timeout_text param.str (param.counter + 1))
    → is_line u ≡ true
    → Idles (length (timeout_text param.str (param.counter + 1))) u.status rest
    → (buf : ℕ → ℕ) × (timer_function u b (some param) ≡ (
      some (record param { counter = param.counter + 1 }),
      shown
          (length (timeout_text param.str (param.counter + 1)))
          buf
          (record u { status = rest; sent = u.sent ++ timeout_text param.str (param.counter + 1) }),
    ))
unfolding timer_function
timer_function-sends u b param rest small short nz line i =
    let n = param.counter + 1 in
    let whole : u32 n ≡ n = omega (arith, small) in
    let (buf, e) =
      printf-sends u b (bytes "======> TIMEOUT: %s: %d\n") (text param.str ∷ number n ∷ [])
        (timeout_text param.str n) rest (timeout_renders param.str n small) short nz line i in
    (
      buf,
      rw (timer_function, whole) (ap (λ (r : Shown). (some (record param { counter = n }), r)) e),
    )
