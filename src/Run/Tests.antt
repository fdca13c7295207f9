-- ===== src/Run/Tests.antt =====
-- A running kernel: its theorems at three tasks and two timers.
use xin_os.Base.{
  ◌<◌, ◌≡◌, refl, subst, true, Option, none, some, List, [], ◌∷◌, arith, inl, inr, Ptr, length,
  update,
}
use xin_os.Chain.{NotIn}
use xin_os.Chain.Wait.{Among}
use xin_os.Chain.Member.{Chain-same}
use xin_os.Task.{Control, task_at, schedule, pop_task, task_yield}
use xin_os.Task.Insert.{IsQueue}
use xin_os.Task.Pop.{asleep}
use xin_os.Timer.{
  timer_check, check_end, preempt, timer_load, timer_handler, task_delay, timer_create,
}
use xin_os.Timer.Insert.{IsTimerList}
use xin_os.Trap.{Machine, software_interrupt_handler}
use xin_os.Run.{Event, sleep, tick, start_timer, stop_timer, happen}
use xin_os.Run.Sleepers.{Pending}
use xin_os.Run.State.{IsLive, Allowed, Enough}
use xin_os.Run.Switch.{Lives}
use xin_os.Run.Alarm.{Rings, timer-Rings}
use xin_os.Run.Keep.{stop_timer-start_timer}
use xin_os.Run.Reach.{happen-Lives, Reach, here, next, Reach-Pending}
use xin_os.Run.Nap.{Naps, sleep-Naps}
use xin_os.Run.Example.{machine, tasks, live, only_timers, enough}

abbrev nap : Event
nap = sleep 520 3

nap-Allowed : Allowed nap machine (task_at 200)
nap-Allowed = (tt, (omega arith, (λ xs q. subst (NotIn 520) (only_timers xs q) (omega arith))))

happen-Lives_example : Lives nap machine (task_at 200) live (happen 5 nap machine (task_at 200))
happen-Lives_example = happen-Lives 5 nap machine (task_at 200) live nap-Allowed enough

after_event : Option (Machine × Control) → Machine
after_event none = machine
after_event (some (m, to)) = m

abbrev napping : Machine
napping = after_event (happen 5 nap machine (task_at 200))

napped : happen 5 nap machine (task_at 200) ≡ some (napping, task_at 300)
unfolding after_event happen task_delay timer_create software_interrupt_handler schedule pop_task
    update task_yield
napped = refl

nap-Reach : Reach 5 machine (task_at 200) napping (task_at 300)
nap-Reach = next nap here nap-Allowed enough napped

sleep-Naps_example : Naps 6 5 200 (happen 5 nap machine (task_at 200))
sleep-Naps_example =
    sleep-Naps 5 machine 200 live 520 3 nap-Allowed.1 enough 6 (omega arith) (omega arith)
      (omega arith)

-- After the nap: the third task runs, and the new timer is due between the two others.
queue2 : IsQueue napping.timers.sched tasks
unfolding after_event happen task_delay timer_create software_interrupt_handler schedule pop_task
    update task_yield
queue2 = omega arith

timer_list2 : IsTimerList napping.timers (500 ∷ 520 ∷ 510 ∷ [])
unfolding after_event happen task_delay timer_create software_interrupt_handler schedule pop_task
    update task_yield
timer_list2 = omega arith

asleep2 : asleep napping.timers.sched 200 ≡ true
unfolding after_event happen task_delay timer_create software_interrupt_handler schedule pop_task
    update task_yield
asleep2 = refl

Reach-Pending_example :
    Pending napping.timers.info.func napping.timers.info.task (500 ∷ 520 ∷ 510 ∷ []) 200
Reach-Pending_example =
    Reach-Pending 5 machine (task_at 200) napping (task_at 300) tasks (500 ∷ 520 ∷ 510 ∷ []) 200
      live nap-Reach queue2 timer_list2 (inr (inl refl)) asleep2

-- A timer is started, a tick goes by, and the timer is stopped.
abbrev alarm : Event
alarm = start_timer 530 0x9000 7 5

abbrev started : Machine
started = after_event (happen 5 alarm machine (task_at 200))

abbrev ticked_on : Machine
ticked_on = after_event (happen 5 tick started (task_at 200))

started_lem : happen 5 alarm machine (task_at 200) ≡ some (started, task_at 200)
unfolding after_event happen timer_create update
started_lem = refl

ticked_lem : happen 5 tick started (task_at 200) ≡ some (ticked_on, task_at 200)
unfolding after_event happen timer_create timer_handler timer_check check_end preempt timer_load
    update
ticked_lem = refl

abbrev three_timers : List Ptr
three_timers = 500 ∷ 510 ∷ 530 ∷ []

-- The lists of both states: as long as three tasks and three timers.
Enough-for :
    (m : Machine) → IsQueue m.timers.sched tasks → IsTimerList m.timers three_timers → Enough 5 m
Enough-for m q l =
    let c = m.timers.sched in
    let i = m.timers.info in
    (
      (λ xs q'.
          subst (λ l. length l < 5) (Chain-same c.tasks.next c.first_task tasks xs q.chain q'.chain)
            (omega arith)),
      (λ xs l'.
          subst (λ l. length l < 5)
            (Chain-same i.next m.timers.first_timer three_timers xs l.chain l'.chain)
            (omega arith)),
    )

Enough-started : Enough 5 started
unfolding after_event happen timer_create update
Enough-started = Enough-for started (omega arith) (omega arith)

Enough-ticked : Enough 5 ticked_on
unfolding after_event happen timer_create timer_handler timer_check check_end preempt timer_load
    update
Enough-ticked = Enough-for ticked_on (omega arith) (omega arith)

stop_timer-start_timer_example :
    (h : IsLive ticked_on (task_at 200)) × Among 530 h.timers
    × (ticked_on.timers.info.func 530 ≡ 0x9000)
    × (l : Lives
        (stop_timer 530)
        ticked_on
        (task_at 200)
        h
        (happen 5 (stop_timer 530) ticked_on (task_at 200)))
    × NotIn 530 l.live.timers
stop_timer-start_timer_example =
    stop_timer-start_timer 5 machine (task_at 200) 530 0x9000 7 5 started (task_at 200) ticked_on
      (task_at 200) live
      ((omega arith, (λ xs q. subst (NotIn 530) (only_timers xs q) (omega arith))), omega arith)
      enough started_lem (next tick here tt Enough-started ticked_lem) ((λ z. z), tt) Enough-ticked

timer-Rings_example : Rings 7 5 machine (task_at 200) 510 0x8000
timer-Rings_example =
    timer-Rings 7 5 machine (task_at 200) live 510 (inr (inl refl)) (omega arith) (omega arith)
      (omega arith) (omega arith)
