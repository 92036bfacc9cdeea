-- ===== src/Log/Buffer.antt =====
-- src/utils/log.c, `_buffer`, `_bufferSize`, `_bufferCapacity` and their three functions. The bytes
-- that `realloc` adds are unspecified; all of them are `junk` here. A write outside the bytes that
-- are allocated is a fault, `none`. Before the first message no byte is.
use video_player_core.Base.{
  ℕ, zero, suc, ◌+◌, ◌-◌, ◌*◌, ◌≤◌, ◌<◌, ◌≡◌, Option, none, some, List, [], ◌∷◌, if◌then◌else◌, ltb,
  leb, length, segment, splice,
}

infixl 5 ◌>>=◌
abbrev pub ◌>>=◌ : {A B : Type 0} → Option A → (A → Option B) → Option B
m >>= f = elim m [ none ↦ none | some a ↦ f a ]

pub record Buffer : Type 0 where
  pub bytes : List ℕ
  pub size : ℕ
  pub capacity : ℕ

-- What has been collected.
abbrev pub content : Buffer → List ℕ
content b = segment b.bytes 0 b.size

pub record IsValid (b : Buffer) : Type 0 where
  pub fits : b.size ≤ b.capacity
  pub allocated : 0 < b.capacity → length b.bytes ≡ b.capacity + 4

-- `returnBuffer`
unfoldable pub return_buffer : ℕ → Buffer → Buffer
return_buffer len b = record b { size = b.size - len }

-- `memcpy` to an offset of the buffer
unfoldable pub write_at : ℕ → List ℕ → Buffer → Option Buffer
write_at offset src b =
    if leb (offset + length src) (length b.bytes)
    then some (record b { bytes = splice b.bytes offset src })
    else none

module _ (junk : ℕ) where
  unfoldable pub realloc : ℕ → List ℕ → List ℕ
  realloc zero xs = []
  realloc (suc n) [] = junk ∷ realloc n []
  realloc (suc n) (x ∷ xs) = x ∷ realloc n xs

  -- The buffer's capacity when room for `len` bytes is wanted.
  unfoldable pub grown : ℕ → Buffer → ℕ
  grown len b =
      let left_size = b.capacity - b.size in
      if ltb left_size len then b.capacity + len * 2 - left_size else b.capacity

  -- `getBuffer`: the offset and the buffer
  unfoldable pub get_buffer : ℕ → Buffer → ℕ × Buffer
  get_buffer len b =
      let capacity = grown len b in
      (
        b.size,
        record {
          bytes = if ltb (b.capacity - b.size) len then realloc (capacity + 4) b.bytes else b.bytes;
          size = b.size + len;
          capacity = capacity;
        },
      )

  -- `pushToBuffer`
  unfoldable pub push : List ℕ → Buffer → Option Buffer
  push xs b = let (offset, b') = get_buffer (length xs) b in write_at offset xs b'
