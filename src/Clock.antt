-- ===== src/Clock.antt =====
-- include/clocksync.h and src/clocksync.cpp: the clocks of a session and the delays that the display
-- threads ask them for. The current time is an argument of each call that reads it.
use video_player_core.Base.{Bool, true, false, not, ◌&&◌, if◌then◌else◌, List, [], ◌∷◌}
use video_player_core.Double.{Double}
pub mod Start
pub mod Delay
pub mod Restart
mod Examples

pub data ClockSyncType : Type 0 where
  audio_master video_master absolute_master : ClockSyncType

pub record Clock (d : Double) : Type 0 where
  pub is_disabled : Bool
  pub start_pts : d.Value
  pub current_pts : d.Value

pub record ClockSync (d : Double) : Type 0 where
  pub type : ClockSyncType
  pub audio : Clock d
  pub video : Clock d
  pub absolute : Clock d

module _ {d : Double} where
  open d use {Value, nan, nought, hundredth, is_nan, sub, minus_twice, lt, ge, ne}

  -- A clock as it is declared, and as `{ }` leaves it.
  abbrev pub fresh_clock : Clock d
  fresh_clock = record { is_disabled = false; start_pts = nan; current_pts = nan }

  pub get_time : Clock d → Value
  get_time c = sub c.current_pts c.start_pts

  -- The first time-stamp is the start.
  pub update_pts : Clock d → Value → Clock d
  update_pts c pts =
      if is_nan c.start_pts
      then record c { start_pts = pts; current_pts = pts }
      else record c { current_pts = pts }

  -- The type stays.
  pub reset : ClockSync d → ClockSync d
  reset s = record s { audio = fresh_clock; video = fresh_clock; absolute = fresh_clock }

  pub get_master_clock : ClockSync d → Clock d
  get_master_clock s = elim s.type [
    | audio_master ↦ s.audio
    | video_master ↦ s.video
    | absolute_master ↦ s.absolute
  ]

  -- `updateVideoPts` and `updateAudioPts`
  pub update_video_pts : Value → Value → ClockSync d → ClockSync d
  update_video_pts now pts s = record s {
    absolute = update_pts s.absolute now;
    video = update_pts s.video pts;
  }

  pub update_audio_pts : Value → Value → ClockSync d → ClockSync d
  update_audio_pts now pts s = record s {
    absolute = update_pts s.absolute now;
    audio = update_pts s.audio pts;
  }

  -- The absolute clock is read, and the video clock is started.
  abbrev start_video : Value → Value → ClockSync d → ClockSync d
  start_video now pts s =
      let timed = record s { absolute = update_pts s.absolute now } in
      if is_nan s.video.start_pts then record timed { video = update_pts s.video pts } else timed

  -- `diff`, with the frames that are late by two durations at most taken as due.
  abbrev due : Value → Value → ClockSync d → Value
  due pts duration s =
      let target_time = sub pts s.video.start_pts in
      let current_time = get_time (get_master_clock s) in
      let diff = sub target_time current_time in
      if ge diff (minus_twice duration) && lt diff nought then nought else diff

  pub cal_video_delay : Value → Value → Value → ClockSync d → Value × ClockSync d
  unfolding get_time get_master_clock
  cal_video_delay now pts duration s =
      let s' = start_video now pts s in
      if not s'.audio.is_disabled
      then (if is_nan s'.audio.start_pts
          then (hundredth, s')
          else (if ne s'.audio.start_pts s'.video.start_pts
              then (let s'' = record s' { video = update_pts s'.video s'.audio.start_pts } in
                  (due pts duration s'', s''))
              else (due pts duration s', s')))
      else (due pts duration s', s')

  pub cal_audio_delay : Value → Value → Value → ClockSync d → Value × ClockSync d
  cal_audio_delay now pts duration s =
      let timed = record s { absolute = update_pts s.absolute now } in
      let s' =
        if is_nan s.audio.start_pts
        then record timed { audio = update_pts s.audio pts }
        else timed in
      if not s'.video.is_disabled && is_nan s'.video.start_pts
      then (hundredth, s')
      else (nought, s')

-- The calls that the threads of a session make, with the time and the arguments of each.
pub data Call (d : Double) : Type 0 where
  video_delay : (now pts duration : d.Value) → Call d
  audio_delay : (now pts duration : d.Value) → Call d
  video_pts : (now pts : d.Value) → Call d
  audio_pts : (now pts : d.Value) → Call d

module _ {d : Double} where
  pub step : Call d → ClockSync d → ClockSync d
  step (video_delay now pts duration) s = (cal_video_delay now pts duration s).1
  step (audio_delay now pts duration) s = (cal_audio_delay now pts duration s).1
  step (video_pts now pts) s = update_video_pts now pts s
  step (audio_pts now pts) s = update_audio_pts now pts s

  pub run : List (Call d) → ClockSync d → ClockSync d
  run [] s = s
  run (c ∷ cs) s = run cs (step c s)
