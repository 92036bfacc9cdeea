-- ===== src/WaitGroup/World.antt =====
-- A wait group among the coroutines that use it, interleaved in any order: `Go`, the end of a task,
-- and `Wait` with its spin loop and its slow path. Coroutines in one place of the code are alike, so a
-- state counts them. An atomic access, and what is done under the lock between two of them, is one
-- step. The mutex admits one holder, and waiting on the condition variable gives it up at once.
use video_player_core.Base.{ℕ, suc, ◌+◌, ◌-◌, ◌^◌, ◌<◌, ◌≡◌, true, false}
use video_player_core.Base.Int.{ℤ, pos}
use video_player_core.WaitGroup.{
  Ending, quiet, notifies, throws, add, finish_task, TaskEnd, is_zero,
}

-- Who holds `mtx_`: nobody, a waiter about to test its predicate, a waiter that has seen the counter
-- above zero, or a coroutine in `Add` about to notify.
pub data Holder : Type 0 where
  free checking parking waking : Holder

pub record World : Type 0 where
  pub counter : ℤ
  pub running : ℕ  -- tasks whose guard has not called `Done`
  pub notifying : ℕ  -- in `Add`, before the lock
  pub spinning : ℕ  -- in the loop of `Wait`
  pub locking : ℕ  -- in `Wait`, before the lock
  pub asleep : ℕ
  pub released : ℕ  -- returned from `Wait`
  pub failed : ℕ  -- left `Add` by its exception
  pub holder : Holder

abbrev pub start : World
start = record {
  counter = pos 0;
  running = 0;
  notifying = 0;
  spinning = 0;
  locking = 0;
  asleep = 0;
  released = 0;
  failed = 0;
  holder = free;
}

-- The state after a call of `Add` has got as far as its lock, if it takes it.
abbrev pub settle : ℤ × Ending → World → World
settle (c, quiet) w = record w { counter = c }
settle (c, notifies) w = record w { counter = c; notifying = suc w.notifying }
settle (c, throws) w = record w { counter = c; failed = suc w.failed }

-- What the end of a task does to the counter.
abbrev pub after_task : TaskEnd → ℤ → ℤ × Ending
after_task e c = let (message, c', ending) = finish_task e c in (c', ending)

abbrev pub max_int : ℕ
max_int = 2 ^ 31 - 1

pub data Step (w : World) : World → Type 0 where
  -- `Go`: the counter first, then the task
  go :
      w.running < max_int
      → Step w (settle (add (pos 1) w.counter) (record w { running = suc w.running }))
  -- a task ends, in any of its ways, and its guard calls `Done`
  finish :
      {n : ℕ} (e : TaskEnd)
      → w.running ≡ suc n
      → Step w (settle (after_task e w.counter) (record w { running = n }))
  lock_to_wake :
      {n : ℕ}
      → w.notifying ≡ suc n
      → w.holder ≡ free
      → Step w (record w { notifying = n; holder = waking })
  notify_all :
      w.holder ≡ waking
      → Step w (record w { locking = w.locking + w.asleep; asleep = 0; holder = free })
  call_wait : Step w (record w { spinning = suc w.spinning })
  spin_return :
      {n : ℕ}
      → w.spinning ≡ suc n
      → is_zero w.counter ≡ true
      → Step w (record w { spinning = n; released = suc w.released })
  spin_again : {n : ℕ} → w.spinning ≡ suc n → is_zero w.counter ≡ false → Step w w
  spin_end :
      {n : ℕ} → w.spinning ≡ suc n → Step w (record w { spinning = n; locking = suc w.locking })
  lock_to_check :
      {n : ℕ}
      → w.locking ≡ suc n
      → w.holder ≡ free
      → Step w (record w { locking = n; holder = checking })
  check_return :
      w.holder ≡ checking
      → is_zero w.counter ≡ true
      → Step w (record w { released = suc w.released; holder = free })
  check_again :
      w.holder ≡ checking → is_zero w.counter ≡ false → Step w (record w { holder = parking })
  sleep : w.holder ≡ parking → Step w (record w { asleep = suc w.asleep; holder = free })
  wake_spuriously :
      {n : ℕ} → w.asleep ≡ suc n → Step w (record w { asleep = n; locking = suc w.locking })

pub data Steps (w : World) : World → Type 0 where
  here : Steps w w
  next : {u v : World} → Steps w u → Step u v → Steps w v

-- Whether a step is one of those that are in `Wait` or in `Add` already: nobody comes, no task starts
-- or ends, and nobody wakes up who was not notified.
abbrev pub GoesOn : {w v : World} → Step w v → Type 0
GoesOn (go _) = ⊥
GoesOn (finish _ _) = ⊥
GoesOn (lock_to_wake _ _) = Unit
GoesOn (notify_all _) = Unit
GoesOn call_wait = ⊥
GoesOn (spin_return _ _) = Unit
GoesOn (spin_again _ _) = Unit
GoesOn (spin_end _) = Unit
GoesOn (lock_to_check _ _) = Unit
GoesOn (check_return _ _) = Unit
GoesOn (check_again _ _) = Unit
GoesOn (sleep _) = Unit
GoesOn (wake_spuriously _) = ⊥

pub data Settles (w : World) : World → Type 0 where
  at_rest : Settles w w
  goes_on : {u v : World} → Settles w u → (s : Step u v) → GoesOn s → Settles w v

abbrev pub Reach : World → Type 0
Reach = Steps start
