-- ===== src/StaticRing.antt =====
-- include/audioringbuffer.h, `StaticAudioRingBuffer`: the ring buffer whose capacity is a template
-- argument. It is what the packet queue (2048 slots) and the frame queues (2 and 8 slots) are.
use video_player_core.Base.{
  ℕ, ◌+◌, Bool, true, false, ◌||◌, ◌&&◌, Option, none, some, List, [], ◌∷◌, if◌then◌else◌, ltb,
  ◌==◌, length, replicate, segment, splice, add_size, sub_size, bit_and,
}
use video_player_core.Fifo.{Op, put, get, Reply, accepted, got}
use video_player_core.Ring.{head_of}
pub mod Agree
mod Examples

pub record StaticRing {ℓ} (A : Type ℓ) : Type ℓ where
  pub write_pos : ℕ
  pub read_pos : ℕ
  pub buf : List A

-- The `static_assert` on the template argument.
pub is_capacity : ℕ → Bool
is_capacity capacity = ltb 0 capacity && (bit_and capacity (sub_size capacity 1) == 0)

-- `MASK`
abbrev pub mask : ℕ → ℕ
mask capacity = sub_size capacity 1

-- What the array holds at first is left open.
pub init {ℓ} : {A : Type ℓ} → List A → StaticRing A
init storage = record { write_pos = 0; read_pos = 0; buf = storage }

module _ {ℓ} {A : Type ℓ} (capacity : ℕ) where
  pub available_read : StaticRing A → ℕ
  available_read q = bit_and (sub_size q.write_pos q.read_pos) (mask capacity)

  pub available_write : StaticRing A → ℕ
  available_write q = bit_and (sub_size (sub_size q.read_pos q.write_pos) 1) (mask capacity)

  pub is_empty : StaticRing A → Bool
  is_empty q = available_read q == 0

  pub is_full : StaticRing A → Bool
  is_full q = available_write q == 0

  pub begin_write : StaticRing A → ℕ → Option ℕ
  begin_write q frames =
      if ltb free_slots frames || ltb (sub_size capacity q.write_pos) frames
      then none
      else some q.write_pos
    where
      free_slots : ℕ
      free_slots = bit_and (sub_size (sub_size q.read_pos q.write_pos) 1) (mask capacity)

  pub end_write : StaticRing A → ℕ → StaticRing A
  end_write q frames = record q {
    write_pos = bit_and (add_size q.write_pos frames) (mask capacity);
  }

  pub begin_read : StaticRing A → ℕ → Option ℕ
  begin_read q frames =
      if ltb used_slots frames || ltb (sub_size capacity q.read_pos) frames
      then none
      else some q.read_pos
    where
      used_slots : ℕ
      used_slots = bit_and (sub_size q.write_pos q.read_pos) (mask capacity)

  pub end_read : StaticRing A → ℕ → StaticRing A
  end_read q frames = record q { read_pos = bit_and (add_size q.read_pos frames) (mask capacity) }

  pub write : StaticRing A → List A → Bool × StaticRing A
  write q src = elim (begin_write q (length src)) [
    | none ↦ (false, q)
    | some dst ↦ (true, end_write (record q { buf = splice q.buf dst src }) (length src))
  ]

  pub read : StaticRing A → ℕ → Option (List A) × StaticRing A
  read q frames = elim (begin_read q frames) [
    | none ↦ (none, q)
    | some src ↦ (some (segment q.buf src (src + frames)), end_read q frames)
  ]

  clear : Option A → List A → List A
  clear none storage = storage
  clear (some zero) storage = splice storage 0 (replicate capacity zero)

  pub reset : Option A → StaticRing A → StaticRing A
  unfolding clear
  reset zero q = record { write_pos = 0; read_pos = 0; buf = clear zero q.buf }

  -- A client that passes one element at a time.
  pub run : StaticRing A → List (Op A) → List (Reply A)
  run q [] = []
  run q (put x ∷ ops) = let (ok, q') = write q (x ∷ []) in accepted ok ∷ run q' ops
  run q (get ∷ ops) = let (out, q') = read q 1 in got (head_of out) ∷ run q' ops
