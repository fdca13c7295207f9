-- ===== src/Lock/Tests.antt =====
-- Two tasks of os/user.c at one lock of os/lock.c: the theorems at this interleaving.
use xin_os.Base.{ℕ, ◌≡◌, ◌≢◌, refl, ◌⊎◌}
use xin_os.Lock.{acquiring, holding, Sharing, task_step, step, Reach, here, next, start}
use xin_os.Lock.Exclusion.{Reach-exclusion, Reach-progress}

-- The second task gets the lock, then the first one tries in vain.
abbrev contended : Sharing
contended = task_step 1 (task_step 2 start)

contended-Reach : Reach start contended
contended-Reach = next (next here (step 2)) (step 1)

second_holds : contended.place 2 ≡ holding
unfolding task_step
second_holds = refl

first_waits : contended.place 1 ≡ acquiring
unfolding task_step
first_waits = refl

abbrev second : ℕ
second = 2

Reach-exclusion_example : second ≡ second
Reach-exclusion_example = Reach-exclusion contended 2 2 contended-Reach second_holds second_holds

Reach-progress_example :
    ((task_step 1 contended).place 1 ≡ holding)
    ⊎ ((j : ℕ) × (j ≢ 1)
        × (contended.place j ≡ holding)
        × ((task_step 1 (task_step j contended)).place 1 ≡ holding))
Reach-progress_example = Reach-progress contended 1 contended-Reach first_waits
