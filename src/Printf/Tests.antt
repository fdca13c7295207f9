-- ===== src/Printf/Tests.antt =====
-- Formats of os/printf.c: runs, and the theorems at these formats.
use xin_os.Base.{ℕ, zero, suc, ◌≡◌, refl, true, false, some, List, [], ◌∷◌, ◌++◌, arith}
use xin_os.Uart.{Uart}
use xin_os.Uart.Send.{Idles, ended, idle}
use xin_os.Printf.{shown, printf, Arg, number, text, Out, scan, vprintf, vsnprintf}
use xin_os.Printf.Text.{render}
use xin_os.Printf.Bounds.{Bounded, InBuffer, vsnprintf-Bounded, vprintf-InBuffer}
use xin_os.Printf.Line.{printf-sends}
use xin_os.Printf.Scan.{put_rendered, scan-render}

abbrev no_bytes : ℕ → ℕ
no_bytes i = 0

abbrev buffer : Out
buffer = record { present = true; size = 8; pos = 0; buffer = no_bytes }

-- `%s=%d;`
abbrev format : List ℕ
format = b'%' ∷ b's' ∷ b'=' ∷ b'%' ∷ b'd' ∷ b';' ∷ []

abbrev args : List Arg
args = text (b'a' ∷ b'b' ∷ []) ∷ number 4294967254 ∷ []

abbrev words : List ℕ
words = b'a' ∷ b'b' ∷ b'=' ∷ b'-' ∷ b'4' ∷ b'2' ∷ b';' ∷ []

renders : render format false false args ≡ some words
unfolding render
renders = refl

scan-render_example :
    scan format false false args buffer ≡ put_rendered buffer (render format false false args)
scan-render_example = scan-render format buffer false false args

vsnprintf-Bounded_example : Bounded no_bytes 3 (vsnprintf true no_bytes 3 format args)
vsnprintf-Bounded_example = vsnprintf-Bounded no_bytes 3 format args

vprintf-InBuffer_example : InBuffer no_bytes (vprintf no_bytes format args)
vprintf-InBuffer_example = vprintf-InBuffer no_bytes format args

-- Readings of a line that is always idle.
abbrev ready : ℕ → List ℕ
ready zero = []
ready (suc n) = 32 ∷ ready n

ready-Idles : (n : ℕ) → Idles n (ready n) []
ready-Idles zero = ended _
ready-Idles (suc n) = idle 32 refl (ready-Idles n)

abbrev ready_line : ℕ → Uart
ready_line n = record {
  ier = 1;
  lcr = 3;
  dll = 3;
  dlm = 0;
  status = ready n;
  received = [];
  sent = 62 ∷ [];
}

printf-sends_example :
    (buf : ℕ → ℕ) × (printf (ready_line 7) no_bytes format args
      ≡ shown 7 buf (record (ready_line 7) { status = []; sent = (62 ∷ []) ++ words }))
printf-sends_example =
    printf-sends (ready_line 7) no_bytes format args words [] renders (omega arith) (omega arith)
      refl (ready-Idles 7)

abbrev halt : List ℕ
halt = b'h' ∷ b'a' ∷ b'l' ∷ b't' ∷ []
