-- ===== src/StaticRing/Agree.antt =====
-- The static ring buffer does what the dynamic one of the same capacity does.
use video_player_core.Base.{
  false, ◌+◌, segment, splice, ℕ, ◌-◌, ◌^◌, ◌≤◌, ◌<◌, ◌≡◌, refl, ◌∙◌, Option, none, some, List, [],
  ◌∷◌, arith, length, sub_size, true, Bool,
}
use video_player_core.Base.Bits.{pow_pos}
use video_player_core.Base.Words.{pow-le}
use video_player_core.Base.Segments.{segment-nil}
use video_player_core.Fifo
use video_player_core.Fifo.{Op, put, get, Reply, accepted, got}
use video_player_core.Ring
use video_player_core.Ring.{Ring, head_of}
use video_player_core.Ring.Bounds.{IsValid}
use video_player_core.Ring.Refine.{run_refines}
use video_player_core.StaticRing.{
  StaticRing, init, available_read, available_write, is_empty, is_full, begin_write, end_write,
  begin_read, end_read, write, read, reset, run, clear,
}

module _ {ℓ} {A : Type ℓ} (capacity : ℕ) where
  -- The dynamic ring with `cap_` and `mask_` for the template's constants.
  abbrev pub to_ring : StaticRing A → Ring A
  to_ring q = record {
    write_pos = q.write_pos;
    read_pos = q.read_pos;
    buf = q.buf;
    cap = capacity;
    mask = sub_size capacity 1;
  }

  abbrev lift {κ} : {B : Type κ} → B × StaticRing A → B × Ring A
  lift (b, q) = (b, to_ring q)

  agree-write :
      (q : StaticRing A) (src : List A) → lift (write capacity q src) ≡ Ring.write (to_ring q) src
  unfolding write Ring.write begin_write Ring.begin_write end_write Ring.end_write
  agree-write q src = at (begin_write capacity q (length src))
    where
      at :
          (o : Option ℕ)
          → lift {B = Bool} (elim o [
            | none ↦ (false, q)
            | some p ↦
                (true, end_write capacity (record q { buf = splice q.buf p src }) (length src))
          ])
            ≡ elim o [
              | none ↦ (false, to_ring q)
              | some p ↦ (
                true,
                Ring.end_write (record (to_ring q) { buf = splice q.buf p src }) (length src),
              )
            ]
      at none = refl
      at (some p) = refl

  agree-read : (q : StaticRing A) (n : ℕ) → lift (read capacity q n) ≡ Ring.read (to_ring q) n
  unfolding read Ring.read begin_read Ring.begin_read end_read Ring.end_read
  agree-read q n = at (begin_read capacity q n)
    where
      at :
          (o : Option ℕ)
          → lift {B = Option (List A)} (elim o [
            | none ↦ (none, q)
            | some p ↦ (some (segment q.buf p (p + n)), end_read capacity q n)
          ])
            ≡ elim o [
              | none ↦ (none, to_ring q)
              | some p ↦ (some (segment q.buf p (p + n)), Ring.end_read (to_ring q) n)
            ]
      at none = refl
      at (some p) = refl

  -- Every operation of the static ring has the result of the dynamic ring's, and leaves the same
  -- positions and storage.
  pub agree :
      (q : StaticRing A) (src : List A) (n : ℕ) (zero : Option A)
      → (available_read capacity q ≡ Ring.available_read (to_ring q))
        × (available_write capacity q ≡ Ring.available_write (to_ring q))
        × (is_empty capacity q ≡ Ring.is_empty (to_ring q))
        × (is_full capacity q ≡ Ring.is_full (to_ring q))
        × (begin_write capacity q n ≡ Ring.begin_write (to_ring q) n)
        × (begin_read capacity q n ≡ Ring.begin_read (to_ring q) n)
        × (lift (write capacity q src) ≡ Ring.write (to_ring q) src)
        × (lift (read capacity q n) ≡ Ring.read (to_ring q) n)
        × (to_ring (reset capacity zero q) ≡ Ring.reset zero (to_ring q))
  unfolding available_read available_write is_empty is_full begin_write begin_read reset clear
      Ring.available_read Ring.available_write Ring.is_empty Ring.is_full Ring.begin_write
      Ring.begin_read Ring.reset Ring.clear
  agree q src n zero =
      (refl, refl, refl, refl, refl, refl, agree-write q src, agree-read q n, same zero)
    where
      same : (zero : Option A) → to_ring (reset capacity zero q) ≡ Ring.reset zero (to_ring q)
      same none = refl
      same (some z) = refl

  -- So no client can tell the two apart.
  agree-run : (ops : List (Op A)) (q : StaticRing A) → run capacity q ops ≡ Ring.run (to_ring q) ops
  unfolding run Ring.run
  agree-run [] q = refl
  agree-run (put x ∷ ops) q = rw (agree-run ops _, ← agree-write q (x ∷ []))
  agree-run (get ∷ ops) q = rw (agree-run ops _, ← agree-read q 1)

-- A static ring of `2 ^ k` slots that has just been made answers every sequence of one-element
-- calls as an empty queue of at most `2 ^ k - 1` elements does.
pub run-init_refines :
    {A : Type 0} (k : ℕ) (storage : List A) (ops : List (Op A))
    → k < 64
    → 2 ^ k ≤ length storage
    → run (2 ^ k) (init storage) ops ≡ Fifo.run (2 ^ k - 1) [] ops
unfolding init
run-init_refines k storage ops small room =
    agree-run (2 ^ k) ops (init storage)
    ∙ rw (run_refines ops valid, segment-nil storage 0 0 (omega arith))
  where
    valid : IsValid k (to_ring (2 ^ k) (init storage))
    valid = omega (arith, pow_pos k, pow-le k small)
