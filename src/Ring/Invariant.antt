-- ===== src/Ring/Invariant.antt =====
-- Every operation of the ring buffer keeps its representation invariant, and the constructor
-- establishes it.
use video_player_core.Base.{ℕ, Option, none, some, List, arith, length, replicate}
use video_player_core.Base.Bits.{pow_pos}
use video_player_core.Base.Segments.{length-splice}
use video_player_core.Ring.{Ring, end_write, end_read, write, read, reset, clear}
use video_player_core.Ring.Bounds.{
  IsValid, begin_write_lem, begin_read_lem, end_write_lem, end_read_lem,
}

module _ {ℓ} {A : Type ℓ} where
  -- Writing keeps the invariant, whether it is accepted or refused.
  pub write-IsValid : {k : ℕ} {q : Ring A} (src : List A) → IsValid k q → IsValid k (write q src).1
  unfolding write end_write
  write-IsValid {k} {q} src v = ground (
    arith,
    begin_write_lem (length src) v,
    end_write_lem (length src) v,
    length-splice q.buf q.write_pos src,
  )

  -- Reading keeps the invariant, whether it finds enough or not.
  pub read-IsValid : {k : ℕ} {q : Ring A} (n : ℕ) → IsValid k q → IsValid k (read q n).1
  unfolding read end_read
  read-IsValid n v = ground (arith, begin_read_lem n v, end_read_lem n v)

  pub reset-IsValid :
      {k : ℕ} {q : Ring A} (zero : Option A) → IsValid k q → IsValid k (reset zero q)
  unfolding reset clear
  reset-IsValid {k} none v = ground (arith, pow_pos k)
  reset-IsValid {q = q} (some z) v = ground (arith, length-splice q.buf 0 (replicate q.cap z))
