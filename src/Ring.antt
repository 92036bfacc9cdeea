-- ===== src/Ring.antt =====
-- include/audioringbuffer.h, `DynamicAudioRingBuffer`: a ring over `cap` slots, of which one stays
-- free. Positions are `size_t`, and a pointer into the storage is its index. Every block is laid
-- out without a break, so `begin_write` and `begin_read` refuse one that would pass the end. `Threads`
-- has the two threads that use a ring at the same time.
use video_player_core.Base.{
  ℕ, ◌+◌, ◌-◌, Bool, true, false, not, ◌||◌, Option, none, some, List, [], ◌∷◌, if◌then◌else◌, ltb,
  ◌==◌, length, replicate, segment, splice, add_size, sub_size, mul_size, bit_and,
}
use video_player_core.Alloc.{cache_line, aligned_alloc_safe}
use video_player_core.Fifo.{Op, put, get, Reply, accepted, got}
pub mod Bounds
pub mod Invariant
pub mod Construct
pub mod Refine
pub mod Blocks
pub mod Threads
pub mod Published
pub mod Flow
pub mod Concurrent
pub mod Interleave
mod Examples

pub record Ring {ℓ} (A : Type ℓ) : Type ℓ where
  pub write_pos : ℕ
  pub read_pos : ℕ
  pub buf : List A
  pub cap : ℕ
  pub mask : ℕ

-- The constructor: a ring, or one of its two exceptions.
pub data Made {ℓ} (A : Type ℓ) : Type ℓ where
  made : Ring A → Made A
  invalid_argument : Made A
  bad_alloc : Made A

module _ {ℓ} {A : Type ℓ} where
  -- `size_of` is `sizeof(T)`.
  unfoldable pub init : (ℕ → ℕ → Option (List A)) → ℕ → ℕ → Made A
  init aligned_alloc size_of capacity =
      if capacity == 0 || not (bit_and capacity (sub_size capacity 1) == 0)
      then invalid_argument
      else elim (aligned_alloc_safe aligned_alloc cache_line (mul_size capacity size_of)) [
        | none ↦ bad_alloc
        | some storage ↦ made (record {
          write_pos = 0;
          read_pos = 0;
          buf = storage;
          cap = capacity;
          mask = sub_size capacity 1;
        })
      ]

  unfoldable pub available_read : Ring A → ℕ
  available_read q = bit_and (sub_size q.write_pos q.read_pos) q.mask

  unfoldable pub available_write : Ring A → ℕ
  available_write q = bit_and (sub_size (sub_size q.read_pos q.write_pos) 1) q.mask

  unfoldable pub is_empty : Ring A → Bool
  is_empty q = available_read q == 0

  unfoldable pub is_full : Ring A → Bool
  is_full q = available_write q == 0

  -- `none` is `nullptr`, and `some w` is `buf_ + w`.
  unfoldable pub begin_write : Ring A → ℕ → Option ℕ
  begin_write q frames =
      if ltb free_slots frames || ltb (sub_size q.cap q.write_pos) frames
      then none
      else some q.write_pos
    where
      free_slots : ℕ
      free_slots = bit_and (sub_size (sub_size q.read_pos q.write_pos) 1) q.mask

  unfoldable pub end_write : Ring A → ℕ → Ring A
  end_write q frames = record q { write_pos = bit_and (add_size q.write_pos frames) q.mask }

  unfoldable pub begin_read : Ring A → ℕ → Option ℕ
  begin_read q frames =
      if ltb used_slots frames || ltb (sub_size q.cap q.read_pos) frames
      then none
      else some q.read_pos
    where
      used_slots : ℕ
      used_slots = bit_and (sub_size q.write_pos q.read_pos) q.mask

  unfoldable pub end_read : Ring A → ℕ → Ring A
  end_read q frames = record q { read_pos = bit_and (add_size q.read_pos frames) q.mask }

  -- `write(src, frames)`, with the `frames` elements of `src`.
  unfoldable pub write : Ring A → List A → Bool × Ring A
  write q src = elim (begin_write q (length src)) [
    | none ↦ (false, q)
    | some dst ↦ (true, end_write (record q { buf = splice q.buf dst src }) (length src))
  ]

  -- `read(dst, frames)`, with what goes to `dst`; `none` is `false`.
  unfoldable pub read : Ring A → ℕ → Option (List A) × Ring A
  read q frames = elim (begin_read q frames) [
    | none ↦ (none, q)
    | some src ↦ (some (segment q.buf src (src + frames)), end_read q frames)
  ]

  -- `zero` is the value of zero bytes where `T` is arithmetic, else `none`.
  unfoldable pub clear : Option A → ℕ → List A → List A
  clear none n storage = storage
  clear (some zero) n storage = splice storage 0 (replicate n zero)

  unfoldable pub reset : Option A → Ring A → Ring A
  unfolding clear
  reset zero q = record q { write_pos = 0; read_pos = 0; buf = clear zero q.cap q.buf }

  -- What `read(&x, 1)` leaves in `x`.
  abbrev pub head_of : Option (List A) → Option A
  head_of none = none
  head_of (some []) = none
  head_of (some (x ∷ _)) = some x

  -- A client that passes one element at a time, as the packet and the frame queues do.
  unfoldable pub run : Ring A → List (Op A) → List (Reply A)
  run q [] = []
  run q (put x ∷ ops) = let (ok, q') = write q (x ∷ []) in accepted ok ∷ run q' ops
  run q (get ∷ ops) = let (out, q') = read q 1 in got (head_of out) ∷ run q' ops
