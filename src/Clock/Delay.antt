-- ===== src/Clock/Delay.antt =====
-- What the delay of a video frame says: when the frame waits, is shown, or is dropped.
use video_player_core.Base.{◌≡◌, true, false, not, ◌&&◌, if◌then◌else◌, arith}
use video_player_core.Double.{Double}
use video_player_core.Clock.{ClockSync, get_time, get_master_clock, cal_video_delay}

module _ {d : Double} where
  open d use {Value, is_nan, sub, ne, lt, ge, nought, hundredth, minus_twice, nan}

  -- How far the frame is ahead of the master clock, on the session that the call leaves.
  abbrev pub ahead : Value → ClockSync d → Value
  ahead pts s = sub (sub pts s.video.start_pts) (get_time (get_master_clock s))

  -- The delay is a hundredth while audio is wanted and has not started; otherwise it is how far the
  -- frame is ahead, or nothing for a frame that is late by at most two durations.
  pub cal_video_delay_lem :
      (now pts duration : Value) (s : ClockSync d)
      → let (delay, t) = cal_video_delay now pts duration s in
        delay ≡ (
          if not s.audio.is_disabled && is_nan s.audio.start_pts
          then hundredth
          else (if ge (ahead pts t) (minus_twice duration) && lt (ahead pts t) nought
              then nought
              else ahead pts t))
  unfolding cal_video_delay
  cal_video_delay_lem now pts duration s = ground arith

  -- A frame is dropped only if it is late by more than two durations; so never while the player
  -- waits for audio. (The display thread drops it where the delay is negative.)
  pub drop_only_late :
      (now pts duration : Value) (s : ClockSync d)
      → let (delay, t) = cal_video_delay now pts duration s in
        is_nan (ahead pts t) ≡ false
        → is_nan (minus_twice duration) ≡ false
        → lt delay nought ≡ true
        → (delay ≡ ahead pts t) × (lt delay (minus_twice duration) ≡ true)
  drop_only_late now pts duration s p q e = ground (
    arith,
    cal_video_delay_lem now pts duration s,
    d.not_ge (ahead pts t) (minus_twice duration) p q,
    d.lt_asymm nought nought,
    d.lt_asymm nought hundredth d.wait_is_positive,
  )
    where
      t : ClockSync d
      t = (cal_video_delay now pts duration s).1
