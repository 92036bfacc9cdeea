-- ===== src/Ring/Threads.antt =====
-- include/audioringbuffer.h: one writing and one reading thread on one ring, whose steps interleave in
-- any order. A call of `write` or `read` is its check, which loads the other thread's position, one
-- step for each element that `memcpy` copies, and the store of its own position. That store releases
-- what was copied and the load acquires it, so that the memory of all steps is one.
use video_player_core.Base.{
  ℕ, zero, suc, none, some, List, [], ◌∷◌, ◌++◌, length, splice, get_elem?,
}
use video_player_core.Ring.{Ring, begin_write, end_write, begin_read, end_read}

-- Between its calls, or inside `write` of the block `src`: where the next element goes and what is not
-- yet copied.
pub data Writer (A : Type 0) : Type 0 where
  away : Writer A
  writing : (dst : ℕ) → (todo src : List A) → Writer A

-- Between its calls, or inside `read` of `frames` elements: where the next one is, how many are not
-- yet copied, and what was copied.
pub data Reader (A : Type 0) : Type 0 where
  apart : Reader A
  reading : (src todo frames : ℕ) → (out : List A) → Reader A

-- `sent` are the elements of the calls of `write` that are over, and `taken` what the calls of `read`
-- that are over gave out.
pub record Threads (A : Type 0) : Type 0 where
  pub ring : Ring A
  pub writer : Writer A
  pub reader : Reader A
  pub sent : List A
  pub taken : List A

-- A step of one of the threads.
pub data Move (A : Type 0) : Type 0 where
  write_begins : List A → Move A
  write_copies write_ends : Move A
  read_begins : ℕ → Move A
  read_copies read_ends : Move A

module _ {A : Type 0} where
  -- `begin_write` inside `write`; a call that is refused is over.
  abbrev pub start_write : List A → Threads A → Threads A
  start_write src t = elim t.writer [
    | writing dst todo old ↦ t
    | away ↦ elim (begin_write t.ring (length src)) [
      | none ↦ t
      | some dst ↦ record t { writer = writing dst src src }
    ]
  ]

  abbrev pub copy_in : Threads A → Threads A
  copy_in t = elim t.writer [
    | away ↦ t
    | writing dst todo src ↦ elim todo [
      | [] ↦ t
      | x ∷ xs ↦ record t {
        ring = record (t.ring) { buf = splice t.ring.buf dst (x ∷ []) };
        writer = writing (suc dst) xs src;
      }
    ]
  ]

  abbrev pub finish_write : Threads A → Threads A
  finish_write t = elim t.writer [
    | away ↦ t
    | writing dst todo src ↦ elim todo [
      | x ∷ xs ↦ t
      | [] ↦ record t { ring = end_write t.ring (length src); writer = away; sent = t.sent ++ src }
    ]
  ]

  abbrev pub start_read : ℕ → Threads A → Threads A
  start_read frames t = elim t.reader [
    | reading src todo n out ↦ t
    | apart ↦ elim (begin_read t.ring frames) [
      | none ↦ t
      | some src ↦ record t { reader = reading src frames frames [] }
    ]
  ]

  abbrev pub copy_out : Threads A → Threads A
  copy_out t = elim t.reader [
    | apart ↦ t
    | reading src todo n out ↦ elim todo [
      | zero ↦ t
      | suc k ↦ elim (get_elem? t.ring.buf src) [
        | none ↦ t
        | some x ↦ record t { reader = reading (suc src) k n (out ++ x ∷ []) }
      ]
    ]
  ]

  abbrev pub finish_read : Threads A → Threads A
  finish_read t = elim t.reader [
    | apart ↦ t
    | reading src todo n out ↦ elim todo [
      | suc k ↦ t
      | zero ↦ record t { ring = end_read t.ring n; reader = apart; taken = t.taken ++ out }
    ]
  ]

  unfoldable pub advance : Move A → Threads A → Threads A
  advance (write_begins src) t = start_write src t
  advance write_copies t = copy_in t
  advance write_ends t = finish_write t
  advance (read_begins n) t = start_read n t
  advance read_copies t = copy_out t
  advance read_ends t = finish_read t

  unfoldable pub advance_all : List (Move A) → Threads A → Threads A
  advance_all [] t = t
  advance_all (m ∷ ms) t = advance_all ms (advance m t)
