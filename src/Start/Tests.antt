-- ===== src/Start/Tests.antt =====
-- The start of the first hart with a section of ten bytes.
use xin_os.Base.{◌≡◌, refl, true, arith}
use xin_os.Entry.{rv64}
use xin_os.Start.{Symbols, Reset, start, parked}
use xin_os.Start.Bss.{Ready, start-Ready}

abbrev symbols : Symbols
symbols = record { bss_start = 0x8000_1000; bss_end = 0x8000_100a; stacks = 0x8000_0100 }

abbrev reset : Reset
reset = record {
  mhartid = 0;
  tp = 9;
  sp = 0;
  mstatus = 0x1800;
  pmpaddr0 = 0;
  pmpcfg0 = 0;
  mem = λ _. 255;
}

start-Ready_example : Ready rv64 symbols reset (start 3 rv64 true symbols reset)
start-Ready_example = start-Ready 3 rv64 symbols reset refl (omega arith)

second_hart :
    start 3 rv64 true symbols (record reset { mhartid = 1 })
    ≡ parked (record reset { mhartid = 1; tp = 1 })
unfolding start
second_hart = refl
