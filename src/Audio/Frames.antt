-- ===== src/Audio/Frames.antt =====
-- src/audio.cpp, `_displayThread`: which frames it owns and frees. A frame is a number, and reading or
-- freeing one that is not allocated is a fault, `none`. What the resampler and the allocator answer is
-- given with each frame.
use video_player_core.Base.{
  ℕ, suc, Bool, true, false, Option, none, some, List, [], ◌∷◌, if◌then◌else◌, ◌==◌, ◌&&◌,
}

-- Frames from `fresh` on were never allocated.
pub record Frames : Type 0 where
  pub live : ℕ → Bool
  pub fresh : ℕ

-- A frame from the queue: whether it has the format of the device, and whether there is an
-- initialised resampler, and `av_frame_alloc` succeeds, where these are asked. A failing
-- `av_frame_get_buffer` or `swr_convert` skips the samples and changes nothing here.
pub record Turn : Type 0 where
  pub frame : ℕ
  pub is_direct : Bool
  pub has_context : Bool
  pub allocates : Bool

-- A read or a write of a frame
abbrev pub touch : ℕ → Frames → Option Frames
touch i h = if h.live i then some h else none

-- `av_frame_free` of a pointer that is not null
abbrev pub free : ℕ → Frames → Option Frames
free i h =
    if h.live i then some (record h { live = λ j. if i == j then false else h.live j }) else none

-- `out` and the frames
abbrev pub Own : Type 0
Own = Option ℕ × Frames

abbrev pub alloc_frame : Frames → Own
alloc_frame h = (
  some h.fresh,
  record { live = λ j. if h.fresh == j then true else h.live j; fresh = suc h.fresh },
)

abbrev pub with_out : Option ℕ → Option Frames → Option Own
with_out out none = none
with_out out (some h) = some (out, h)

-- The resampling of a frame: `out` is allocated for the first one.
unfoldable pub resample : Turn → Own → Option Own
resample t (none, h) = if t.has_context && t.allocates then some (alloc_frame h) else some (none, h)
resample t (some out, h) =
    if t.has_context then with_out (some out) (touch out h) else some (some out, h)

-- A turn of the loop with a frame. A frame that needs no resampling becomes `out`; what the loop over
-- the samples reads is then this frame. `frame` is freed at the end.
unfoldable pub take_frame : Turn → Own → Option Own
unfolding resample
take_frame t (out, h) =
    let sampled : Option Own =
      if t.is_direct then some (some t.frame, h) else resample t (out, h) in
    elim sampled [ none ↦ none | some (out', h') ↦ with_out out' (free t.frame h') ]

-- `av_frame_free(&out)` at the end
unfoldable pub free_out : Own → Option Frames
free_out (none, h) = some h
free_out (some out, h) = free out h

-- The thread with the frames that it takes until it is stopped
unfoldable pub display_thread : List Turn → Own → Option Frames
unfolding take_frame free_out
display_thread [] o = free_out o
display_thread (t ∷ ts) o = elim (take_frame t o) [ none ↦ none | some o' ↦ display_thread ts o' ]
