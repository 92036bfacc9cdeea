-- ===== src/Audio/Blocks.antt =====
-- src/audio.cpp, the inner loop of `_displayThread` and its end of stream: the samples of the frames
-- are put into blocks of `_spec.samples` samples, each with the time of its first one. `A` is a
-- sample of all channels. The waits for a free block and for the clock are no part of it.
use video_player_core.Base.{
  ℕ, zero, suc, ◌+◌, ◌-◌, List, [], ◌∷◌, ◌++◌, if◌then◌else◌, ◌==◌, length, take, drop, min,
}

pub record Block (A : Type 0) : Type 0 where
  pub pts : ℕ
  pub samples : List A

-- `written` samples are in the block that is being filled, if `written` is not 0; `sent` are the
-- blocks that `end_write` has handed over.
pub record Filling (A : Type 0) : Type 0 where
  pub written : ℕ
  pub block : Block A
  pub sent : List (Block A)

module _ {A : Type 0} where
  -- The block that a round writes to: a new one gets the time.
  abbrev pub current_block : ℕ → Filling A → Block A
  current_block pts f = if f.written == 0 then record { pts = pts; samples = [] } else f.block

  -- One round of the loop
  unfoldable pub fill_block : ℕ → ℕ → ℕ → List A → Filling A → Filling A
  fill_block samples pts fill xs f =
      let written = f.written + fill in
      let old = current_block pts f in
      let block : Block A = record { pts = old.pts; samples = old.samples ++ take fill xs } in
      if written == samples
      then record { written = 0; block = block; sent = f.sent ++ block ∷ [] }
      else record { written = written; block = block; sent = f.sent }

  -- `while (avail)`. Each round takes a sample at least, so as many rounds as samples are enough.
  unfoldable pub put_samples : ℕ → ℕ → ℕ → List A → Filling A → Filling A
  put_samples zero samples pts xs f = f
  put_samples (suc fuel) samples pts xs f =
      let fill = min (samples - f.written) (length xs) in
      let rest =
        put_samples fuel samples (pts + fill) (drop fill xs) (fill_block samples pts fill xs f) in
      if length xs == 0 then f else rest

  -- A frame
  unfoldable pub put_frame : ℕ → ℕ → List A → Filling A → Filling A
  put_frame samples pts xs f = put_samples (length xs) samples pts xs f

  -- The end of the stream: a block that is begun goes out, with what is in it. (The device plays the
  -- whole block, and what the memory held before behind these samples.)
  unfoldable pub end_of_stream : Filling A → Filling A
  end_of_stream f =
      if f.written == 0
      then f
      else record { written = 0; block = f.block; sent = f.sent ++ f.block ∷ [] }

  -- Frames one after the other, each with its time.
  unfoldable pub put_frames : ℕ → List (ℕ × List A) → Filling A → Filling A
  put_frames samples [] f = f
  put_frames samples ((pts, xs) ∷ frames) f = put_frames samples frames (put_frame samples pts xs f)
