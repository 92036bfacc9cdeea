-- ===== src/WaitGroup/Examples.antt =====
-- One task and one waiter that goes to sleep, and the theorems at these states.
use video_player_core.Base.{◌≡◌, refl, arith}
use video_player_core.Base.Int.{pos, negsuc}
use video_player_core.WaitGroup.{add, throws, std_exception, finish_task}
use video_player_core.WaitGroup.World.{
  World, start, go, finish, call_wait, spin_end, lock_to_check, check_again, sleep, lock_to_wake,
  notify_all, check_return, Settles, here, next, Reach, checking,
}
use video_player_core.WaitGroup.Wakeup.{wait_returns_when_done}
use video_player_core.WaitGroup.Drain.{all_waiters_return, callers}

-- `Done` once too often: the exception, and the counter stays below zero.
add-below : add (negsuc 0) (pos 0) ≡ (negsuc 0, throws)
unfolding add
add-below = refl

-- A task runs, and a waiter sleeps.
abbrev sleeping : World
sleeping = record start { counter = pos 1; running = 1; asleep = 1 }

-- The task has ended, and is about to notify.
abbrev ended : World
ended = record start { notifying = 1; asleep = 1 }

-- The waiter has been woken, and has the lock.
abbrev woken : World
woken = record start { holder = checking }

start-sleeping : Reach sleeping
unfolding add
start-sleeping =
    next
      (next
        (next (next (next (next here (go (omega arith))) call_wait) (spin_end refl))
          (lock_to_check refl refl))
        (check_again refl refl))
      (sleep refl)

start-ended : Reach ended
unfolding finish_task add
start-ended = next start-sleeping (finish std_exception refl)

start-woken : Reach woken
start-woken =
    next (next (next start-ended (lock_to_wake refl refl)) (notify_all refl))
      (lock_to_check refl refl)

wait_returns_when_done_example : woken.running ≡ 0
wait_returns_when_done_example = wait_returns_when_done start-woken (check_return refl refl) refl

all_waiters_return_example :
    (v : World) × Settles ended v × (v.running ≡ 0) × (v.released ≡ callers ended)
all_waiters_return_example = all_waiters_return start-ended refl
