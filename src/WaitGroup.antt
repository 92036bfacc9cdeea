-- ===== src/WaitGroup.antt =====
-- include/waitgroup.h and src/waitgroup.cpp: the counter of the tasks in flight. `co_mutex`,
-- `co_condition_variable` and `go` are libgo's; what they do for a group is in `WaitGroup.World`.
use video_player_core.Base.{
  ℕ, zero, suc, ◌+◌, ◌-◌, ◌%◌, ◌^◌, Bool, true, false, not, ◌&&◌, Option, none, some, if◌then◌else◌,
  ltb, leb, ◌==◌, List, [], ◌∷◌,
}
use video_player_core.Base.Int.{ℤ, pos, negsuc, ◌+ℤ◌, ltℤ}
pub mod Counter
pub mod World
pub mod Wakeup
pub mod Drain
mod Examples

-- The `int` with the given bits, and the wrap-around of an atomic `int`.
abbrev pub of_bits : ℕ → ℤ
of_bits w = if ltb w (2 ^ 31) then pos w else negsuc (2 ^ 32 - 1 - w)

abbrev pub wrap_int : ℤ → ℤ
wrap_int (pos n) = of_bits (n % 2 ^ 32)
wrap_int (negsuc n) = of_bits (2 ^ 32 - 1 - n % 2 ^ 32)

abbrev pub is_zero : ℤ → Bool
is_zero (pos n) = n == 0
is_zero (negsuc n) = false

-- How a call of `Add` ends: it returns, it takes the lock and notifies all waiters, or it throws.
pub data Ending : Type 0 where
  quiet notifies throws : Ending

pub add : ℤ → ℤ → ℤ × Ending
add delta old_counter =
    let new_counter = wrap_int (old_counter +ℤ delta) in
    if ltℤ new_counter (pos 0)
    then (new_counter, throws)
    else (if is_zero new_counter then (new_counter, notifies) else (new_counter, quiet))

pub done : ℤ → ℤ × Ending
done = add (negsuc 0)

-- The counters of the new group and of the one that it is moved from.
pub move : ℤ → ℤ × ℤ
move other = (other, pos 0)

abbrev pub max_spin_iterations : ℕ
max_spin_iterations = 64

-- The spin loop, whose load in round `i` sees `loads i`: `true` is a return, `false` the slow path.
pub spin : ℕ → (ℕ → ℤ) → Bool
spin zero loads = false
spin (suc rounds) loads =
    let rest = spin rounds (λ i. loads (suc i)) in if is_zero (loads 0) then true else rest

-- How a task ends, what is then logged, and what its guard does to the counter.
pub data TaskEnd : Type 0 where
  returned std_exception other_exception : TaskEnd

pub data Message : Type 0 where
  task_exception task_threw_unknown : Message

pub finish_task : TaskEnd → ℤ → Option Message × ℤ × Ending
unfolding done
finish_task e counter = (message e, (done counter).0, (done counter).1)
  where
    message : TaskEnd → Option Message
    message returned = none
    message std_exception = some task_exception
    message other_exception = some task_threw_unknown
