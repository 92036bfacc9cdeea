-- ===== src/Fifo.antt =====
-- The contract of a ring buffer that is used one element at a time: a first-in first-out queue of
-- at most `bound` elements, oldest first. A full queue refuses, and an empty one has nothing.
use video_player_core.Base.{
  ℕ, Bool, true, false, Option, none, some, List, [], ◌∷◌, ◌++◌, if◌then◌else◌, ltb, length,
}

-- What a client asks: `write(&x, 1)` or `read(&x, 1)`.
pub data Op {ℓ} (A : Type ℓ) : Type ℓ where
  put : A → Op A
  get : Op A

-- What it sees.
pub data Reply {ℓ} (A : Type ℓ) : Type ℓ where
  accepted : Bool → Reply A
  got : Option A → Reply A

module _ {ℓ} {A : Type ℓ} where
  unfoldable pub push : ℕ → List A → A → Bool × List A
  push bound q x = if ltb (length q) bound then (true, q ++ x ∷ []) else (false, q)

  unfoldable pub pop : List A → Option A × List A
  pop [] = (none, [])
  pop (x ∷ q) = (some x, q)

  unfoldable pub run : ℕ → List A → List (Op A) → List (Reply A)
  run bound q [] = []
  run bound q (put x ∷ ops) = let (ok, q') = push bound q x in accepted ok ∷ run bound q' ops
  run bound q (get ∷ ops) = let (out, q') = pop q in got out ∷ run bound q' ops
