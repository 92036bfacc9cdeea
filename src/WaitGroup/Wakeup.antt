-- ===== src/WaitGroup/Wakeup.antt =====
-- What holds in every state that a wait group can reach.
use video_player_core.Base.{suc, ◌<◌, ◌≤◌, ◌≡◌, arith, ◌⊎◌}
use video_player_core.Base.Int.{pos}
use video_player_core.WaitGroup.{add, finish_task}
use video_player_core.WaitGroup.World.{
  parking, waking, World, start, Step, go, finish, lock_to_wake, notify_all, call_wait, spin_return,
  spin_again, spin_end, lock_to_check, check_return, check_again, sleep, wake_spuriously, Steps,
  here, next, Reach, max_int,
}

-- A waiter that sleeps, or that is about to, will be woken: a task is still running, or a
-- notification is under way.
pub record Inv (w : World) : Type 0 where
  pub counted : w.counter ≡ pos w.running
  pub few : w.running ≤ max_int
  pub none_failed : w.failed ≡ 0
  pub heard :
      (w.holder ≡ parking) ⊎ (0 < w.asleep)
      → (0 < w.running) ⊎ ((0 < w.notifying) ⊎ (w.holder ≡ waking))

pub Step-Inv : {w v : World} → Step w v → Inv w → Inv v
unfolding add finish_task
Step-Inv (go few) i = ground arith
Step-Inv (finish _ e) i = ground arith
Step-Inv (lock_to_wake e f) i = ground arith
Step-Inv (notify_all f) i = ground arith
Step-Inv call_wait i = ground arith
Step-Inv (spin_return e z) i = ground arith
Step-Inv (spin_again e z) i = i
Step-Inv (spin_end e) i = ground arith
Step-Inv (lock_to_check e f) i = ground arith
Step-Inv (check_return f z) i = ground arith
Step-Inv (check_again f z) i = ground arith
Step-Inv (sleep f) i = ground arith
Step-Inv (wake_spuriously e) i = ground arith

Steps-Inv : {w v : World} → Inv w → Steps w v → Inv v
Steps-Inv i here = i
Steps-Inv i (next r s) = Step-Inv s (Steps-Inv i r)

start-Inv : Inv start
start-Inv = ground arith

-- As long as at most `INT_MAX` tasks are in flight, the counter is their number, and no `Add`
-- throws.
pub Reach-Inv : {w : World} → Reach w → Inv w
Reach-Inv r = Steps-Inv start-Inv r

-- `Wait` returns only at a moment when every task that was started has ended, on the spin path and
-- on the slow path alike.
pub wait_returns_when_done :
    {w v : World} → Reach w → Step w v → v.released ≡ suc w.released → w.running ≡ 0
wait_returns_when_done r s e = at s e (Reach-Inv r)
  where
    at : {w v : World} → Step w v → v.released ≡ suc w.released → Inv w → w.running ≡ 0
    at (spin_return _ z) e i = ground arith
    at (check_return _ z) e i = ground arith
    at (go _) e i = unfold add in ground arith
    at (finish _ _) e i = unfold add finish_task in ground arith
    at (lock_to_wake _ _) e i = ground arith
    at (notify_all _) e i = ground arith
    at call_wait e i = ground arith
    at (spin_again _ _) e i = ground arith
    at (spin_end _) e i = ground arith
    at (lock_to_check _ _) e i = ground arith
    at (check_again _ _) e i = ground arith
    at (sleep _) e i = ground arith
    at (wake_spuriously _) e i = ground arith
