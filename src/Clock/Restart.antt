-- ===== src/Clock/Restart.antt =====
-- What `reset` does to a session that plays on from the start: it forgets which streams are disabled,
-- so a session with one stream waits for the other for ever.
use video_player_core.Base.{◌≡◌, refl, true, false, List, [], ◌∷◌, arith}
use video_player_core.Double.{Double}
use video_player_core.Clock.{
  Clock, ClockSync, Call, video_delay, audio_delay, video_pts, audio_pts, cal_video_delay,
  cal_audio_delay, update_video_pts, update_audio_pts, step, run, reset,
}

module _ {d : Double} where
  open d use {Value, is_nan, sub, ne, hundredth, nan}

  -- The calls of a session with video alone, and of one with audio alone. The device's callback calls
  -- `updateAudioPts` only for a block that the audio thread has written, which it does after
  -- `calAudioDelay` lets it.
  abbrev pub VideoOnly : List (Call d) → Type 0
  VideoOnly [] = Unit
  VideoOnly (video_delay _ _ _ ∷ cs) = VideoOnly cs
  VideoOnly (video_pts _ _ ∷ cs) = VideoOnly cs
  VideoOnly (_ ∷ cs) = ⊥

  abbrev pub IsUnstarted : Clock d → Type 0
  IsUnstarted c = (c.is_disabled ≡ false) × (is_nan c.start_pts ≡ true)

  pub video_calls-IsUnstarted :
      (cs : List (Call d)) (s : ClockSync d)
      → VideoOnly cs
      → IsUnstarted s.audio
      → IsUnstarted (run cs s).audio
  unfolding run step cal_video_delay update_video_pts
  video_calls-IsUnstarted [] s o u = u
  video_calls-IsUnstarted (video_delay now pts dur ∷ cs) s o u =
      video_calls-IsUnstarted cs _ o (ground arith)
  video_calls-IsUnstarted (video_pts now pts ∷ cs) s o u = video_calls-IsUnstarted cs _ o u
  video_calls-IsUnstarted (audio_delay now pts dur ∷ cs) s o u = absurd o
  video_calls-IsUnstarted (audio_pts now pts ∷ cs) s o u = absurd o

  pub reset-IsUnstarted : (s : ClockSync d) → IsUnstarted (reset s).audio
  reset-IsUnstarted s = unfold reset in (refl, d.nan_is_nan)

  -- A video frame waits for audio and does not start it.
  pub unstarted :
      (now pts duration : Value) (s : ClockSync d)
      → IsUnstarted s.audio
      → ((cal_video_delay now pts duration s).0 ≡ hundredth)
        × IsUnstarted (cal_video_delay now pts duration s).1.audio
  unfolding cal_video_delay
  unstarted now pts duration s (enabled, missing) = (ground arith, (ground arith, ground arith))

  -- After `reset`, in a session with video alone, every delay is a hundredth of a second, whatever
  -- was called before and whatever the session was: no frame is ever due.
  pub reset_stalls_video :
      (cs : List (Call d)) (now pts duration : Value) (s : ClockSync d)
      → VideoOnly cs
      → (cal_video_delay now pts duration (run cs (reset s))).0 ≡ hundredth
  unfolding cal_video_delay
  reset_stalls_video cs now pts duration s o =
      ground (arith, video_calls-IsUnstarted cs (reset s) o start)
    where
      start : IsUnstarted (reset s).audio
      start = unfold reset in (refl, d.nan_is_nan)

  abbrev pub AudioOnly : List (Call d) → Type 0
  AudioOnly [] = Unit
  AudioOnly (audio_delay _ _ _ ∷ cs) = AudioOnly cs
  AudioOnly (audio_pts _ _ ∷ cs) = AudioOnly cs
  AudioOnly (_ ∷ cs) = ⊥

  audio_calls-IsUnstarted :
      (cs : List (Call d)) (s : ClockSync d)
      → AudioOnly cs
      → IsUnstarted s.video
      → IsUnstarted (run cs s).video
  unfolding run step cal_audio_delay update_audio_pts
  audio_calls-IsUnstarted [] s o u = u
  audio_calls-IsUnstarted (audio_delay now pts dur ∷ cs) s o u =
      audio_calls-IsUnstarted cs _ o (ground arith)
  audio_calls-IsUnstarted (audio_pts now pts ∷ cs) s o u = audio_calls-IsUnstarted cs _ o u
  audio_calls-IsUnstarted (video_delay now pts dur ∷ cs) s o u = absurd o
  audio_calls-IsUnstarted (video_pts now pts ∷ cs) s o u = absurd o

  -- After `reset`, in a session with audio alone, every delay of a block is a hundredth of a second:
  -- no block is ever written out.
  pub reset_stalls_audio :
      (cs : List (Call d)) (now pts duration : Value) (s : ClockSync d)
      → AudioOnly cs
      → (cal_audio_delay now pts duration (run cs (reset s))).0 ≡ hundredth
  unfolding cal_audio_delay
  reset_stalls_audio cs now pts duration s o =
      ground (arith, audio_calls-IsUnstarted cs (reset s) o start)
    where
      start : IsUnstarted (reset s).video
      start = unfold reset in (refl, d.nan_is_nan)
