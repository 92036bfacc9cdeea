-- ===== src/Video.antt =====
-- src/video.cpp. `Display` has the wait for a frame's time and is what `Waiting` is about; `Shutdown`
-- has the tasks and the queue between them, and `Closing` is about the end of them. Here is
-- `_present`: a frame in the pixel format that is asked for, by way of a scratch frame that is kept
-- from call to call. `Session` has it among the calls that change what it finds. What the library
-- answers is given; the picture itself is not modelled.
pub mod Present
pub mod Session
pub mod Display
pub mod Waiting
pub mod Shutdown
pub mod Closing
mod Examples
use video_player_core.Base.{
  ℕ, Bool, true, false, not, ◌&&◌, ◌||◌, Option, none, some, if◌then◌else◌, ◌==◌,
}

pub record Frame : Type 0 where
  pub width : ℕ
  pub height : ℕ
  pub format : ℕ
  pub pts : ℕ
  pub duration : ℕ

-- `_swsFrame`; a new one has no format, and `buffered` is false until it has memory for a picture.
pub record Scratch : Type 0 where
  pub width : ℕ
  pub height : ℕ
  pub format : Option ℕ
  pub buffered : Bool

-- `_pixelFormat` without AV_PIX_FMT_NONE, and `_swsFrame`
pub record Video : Type 0 where
  pub pixel_format : Option ℕ
  pub scratch : Option Scratch

-- Whether the calls of the library succeed. `av_frame_make_writable` fails for a frame without memory.
pub record Answers : Type 0 where
  pub context : Bool
  pub alloc : Bool
  pub get_buffer : Bool
  pub make_writable : Bool

abbrev pub new_scratch : Scratch
new_scratch = record { width = 0; height = 0; format = none; buffered = false }

unfoldable pub is_fit : Frame → ℕ → Scratch → Bool
is_fit f p s =
    (s.width == f.width)
    && (s.height == f.height)
    && elim s.format [ none ↦ false | some q ↦ q == p ]

-- The scratch frame with the size and format that are wanted.
unfoldable pub fit : Answers → Frame → ℕ → Scratch → Scratch
fit a f p s =
    if is_fit f p s
    then s
    else record { width = f.width; height = f.height; format = some p; buffered = a.get_buffer }

-- From the scratch frame on
unfoldable pub convert : Answers → Frame → ℕ → Scratch → Option Frame × Scratch
convert a f p s =
    let t = fit a f p s in
    let done : Frame = record {
      width = t.width;
      height = t.height;
      format = p;
      pts = f.pts;
      duration = f.duration;
    } in
    if (is_fit f p s || a.get_buffer) && (t.buffered && a.make_writable)
    then (some done, t)
    else (none, t)

-- `_present`: what `_onFrame` is called with, if it is
unfoldable pub present : Answers → Frame → Video → Option Frame × Video
present a f v = elim v.pixel_format [
  | none ↦ (some f, v)
  | some p ↦
      let keep : Scratch → Option Frame × Video =
        λ s. let r = convert a f p s in (r.0, record v { scratch = some r.1 }) in
      if p == f.format
      then (some f, v)
      else (if not a.context then (none, v) else elim v.scratch [
        | none ↦ if a.alloc then keep new_scratch else (none, v)
        | some s ↦ keep s
      ])
]
