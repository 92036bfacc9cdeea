-- ===== src/Log/Content.antt =====
-- What the buffer of the log holds after its functions.
use video_player_core.Base.{
  ℕ, zero, suc, ◌+◌, ◌-◌, ◌*◌, ◌≤◌, ◌≡◌, refl, sym, ap, Option, some, List, [], ◌∷◌, ◌++◌, length,
  segment, splice, arith, Option-cases, inl, inr,
}
use video_player_core.Base.Segments.{
  length-splice, segment-append, segment-splice_self, segment-splice_before, segment-nil,
}
use video_player_core.Log.Buffer.{
  Buffer, content, IsValid, write_at, realloc, grown, get_buffer, push,
}

-- A buffer with room for `len` more bytes, which holds what it held.
pub record Extends (b : Buffer) (len : ℕ) (out : ℕ × Buffer) : Type 0 where
  pub at : out.0 ≡ b.size
  pub size : out.1.size ≡ b.size + len
  pub valid : IsValid out.1
  pub kept : segment out.1.bytes 0 b.size ≡ content b

-- A buffer that took the bytes `xs`.
abbrev pub Takes : Buffer → List ℕ → Option Buffer → Type 0
Takes b xs r =
    (b' : Buffer) × (r ≡ some b')
    × IsValid b'
    × (content b' ≡ content b ++ xs)
    × (b'.size ≡ b.size + length xs)

pub split : (xs : List ℕ) (i j : ℕ) → i ≤ j → segment xs 0 j ≡ segment xs 0 i ++ segment xs i j
split xs i j h = sym (segment-append xs 0 i j (omega arith) h)

-- The bytes are written to the room that was made.
pub fill :
    (b : Buffer) (xs : List ℕ) (i : ℕ) (o : Buffer)
    → Extends b (length xs) (i, o)
    → Takes b xs (write_at i xs o)
unfolding write_at
fill b xs i o x = elim (Option-cases (write_at i xs o)) [
  | inl failed ↦ absurd (ground (arith, x.valid.allocated, x.at, x.size, x.valid.fits))
  | inr (b', e) ↦
      let room : i + length xs ≤ length o.bytes = ground (arith, x.valid.allocated, x.valid.fits) in
      (
        b',
        e,
        record {
          fits = ground (arith, x.valid.fits);
          allocated = λ some_room. ground (arith, x.valid.allocated, length-splice o.bytes i xs);
        },
        (ground (
          arith,
          split (splice o.bytes i xs) i o.size (omega arith),
          segment-splice_self o.bytes i o.size xs (omega arith) (omega arith),
          segment-splice_before o.bytes 0 i i xs (omega arith),
        )),
        ground (arith, x.size),
      )
]

module _ (junk : ℕ) where
  pub length-realloc : (n : ℕ) (xs : List ℕ) → length (realloc junk n xs) ≡ n
  unfolding realloc
  length-realloc zero xs = refl
  length-realloc (suc n) [] = ap suc (length-realloc n [])
  length-realloc (suc n) (x ∷ xs) = ap suc (length-realloc n xs)

  segment-realloc :
      (n : ℕ) (xs : List ℕ) (i j : ℕ)
      → j ≤ n
      → j ≤ length xs
      → segment (realloc junk n xs) i j ≡ segment xs i j
  unfolding realloc
  segment-realloc zero xs i j h k = sym (segment-nil xs i j (omega arith))
  segment-realloc (suc n) [] i zero h k = refl
  segment-realloc (suc n) [] i (suc j) h k = absurd (omega arith)
  segment-realloc (suc n) (x ∷ xs) i zero h k = refl
  segment-realloc (suc n) (x ∷ xs) zero (suc j) h k =
      ap (λ ys. x ∷ ys) (segment-realloc n xs zero j (omega arith) (omega arith))
  segment-realloc (suc n) (x ∷ xs) (suc i) (suc j) h k =
      segment-realloc n xs i j (omega arith) (omega arith)

  pub get_buffer-Extends :
      (b : Buffer) (len : ℕ) → IsValid b → Extends b len (get_buffer junk len b)
  unfolding get_buffer grown
  get_buffer-Extends b len v = record {
    at = refl;
    size = refl;
    valid = record {
      fits = ground arith;
      allocated = λ pos. ground (
        arith,
        v.allocated,
        length-realloc (b.capacity + len * 2 - (b.capacity - b.size) + 4) b.bytes,
      );
    };
    kept = ground (
      arith,
      v.allocated,
      segment-realloc (b.capacity + len * 2 - (b.capacity - b.size) + 4) b.bytes 0 b.size,
      segment-nil b.bytes 0 b.size,
    );
  }

  pub push-Takes : (b : Buffer) (xs : List ℕ) → IsValid b → Takes b xs (push junk xs b)
  unfolding push
  push-Takes b xs v =
      let out = get_buffer junk (length xs) b in
      fill b xs out.0 out.1 (get_buffer-Extends b (length xs) v)
