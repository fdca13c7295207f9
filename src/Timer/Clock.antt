-- ===== src/Timer/Clock.antt =====
-- `elapsed_time` of os/timer.c prints hours, minutes and seconds.
use xin_os.Base.{ℕ, ◌+◌, ◌-◌, ◌*◌, ◌/◌, ◌%◌, ◌≤◌, ◌<◌, ◌≡◌, List, [], ◌∷◌, arith}
use xin_os.Timer.{two_digits, elapsed_time}

-- Reading the text back: `h1 h2 : m1 m2 : s1 s2`, as a number of seconds.
abbrev pub digit : ℕ → ℕ
digit c = c - b'0'

unfoldable pub read_time : List ℕ → ℕ
read_time (h1 ∷ h2 ∷ _ ∷ m1 ∷ m2 ∷ _ ∷ s1 ∷ s2 ∷ []) =
    (digit h1 * 10 + digit h2) * 3600 + (digit m1 * 10 + digit m2) * 60 + (digit s1 * 10 + digit s2)
read_time _ = 0

-- Two decimal digits for every number below 100.
pub two_digits_lem : (n : ℕ) → n < 100 → two_digits n ≡ (b'0' + n / 10) ∷ (b'0' + n % 10) ∷ []
unfolding two_digits
two_digits_lem n small = ground arith

-- Below 100 hours, reading the printed time gives the count of seconds back.
pub read_time-elapsed_time : (ticks : ℕ) → ticks < 360000 → read_time (elapsed_time ticks) ≡ ticks
unfolding elapsed_time read_time
read_time-elapsed_time ticks small =
    rw
      (
        two_digits_lem (ticks / 60 / 60) (omega arith),
        two_digits_lem (ticks / 60 % 60) (omega arith),
        two_digits_lem (ticks % 60) (omega arith),
      )
      (omega arith)

-- From 100 to 999 hours the first character is no digit.
pub elapsed_time-overflow :
    (ticks : ℕ) (c : ℕ) (rest : List ℕ)
    → 360000 ≤ ticks
    → ticks < 3600000
    → elapsed_time ticks ≡ c ∷ rest
    → b'9' < c
unfolding elapsed_time two_digits
elapsed_time-overflow ticks c rest low high e = ground arith
