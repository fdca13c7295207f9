-- ===== src/Timer/Alarm.antt =====
-- What `timer_init` of os/timer.c does before any timer exists.
use xin_os.Base.{ℕ, suc, ◌+◌, ◌≡◌, refl, true, some, ◌==◌, null, bit_or, u64}
use xin_os.Hart.{w_mie, mie_mtie}
use xin_os.Timer.{Timers, timer_interval, timer_load, clear_timers, timer_init}

-- With no timer, `timer_init` only sets the alarm and enables the clock's interrupt.
pub timer_init_none :
    (fuel : ℕ) (s : Timers)
    → s.first_timer ≡ null
    → timer_init (suc fuel) s
      ≡ some (
          let c = s.sched in
          let h = c.hart in
          record s {
            sched = record c {
              hart = record h {
                mtimecmp = u64 (h.mtime + timer_interval);
                mie = bit_or h.mie mie_mtie;
              };
            };
          })
unfolding timer_init clear_timers timer_load w_mie
timer_init_none fuel s e =
    let g : (s.first_timer == null) ≡ true = rw e refl in rw (timer_init, clear_timers, g) refl
