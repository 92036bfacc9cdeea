-- ===== src/Clock/Start.antt =====
-- When a clock gets its start, and that it keeps it: also where the audio and the video clock have
-- started apart.
use video_player_core.Base.{◌≡◌, ◌≢◌, refl, ap, sym, ◌∙◌, false, List, [], ◌∷◌, arith}
use video_player_core.Double.{Double}
use video_player_core.Clock.{
  ClockSync, Call, video_delay, audio_delay, video_pts, audio_pts, update_pts, cal_video_delay,
  cal_audio_delay, update_video_pts, update_audio_pts, step, run,
}

module _ {d : Double} where
  open d use {Value, is_nan, sub, ne}

  -- The starts that are known are those that they were.
  pub record Keeps (s t : ClockSync d) : Type 0 where
    pub audio_start : is_nan s.audio.start_pts ≡ false → t.audio.start_pts ≡ s.audio.start_pts
    pub video_start : is_nan s.video.start_pts ≡ false → t.video.start_pts ≡ s.video.start_pts
    pub absolute_start :
        is_nan s.absolute.start_pts ≡ false → t.absolute.start_pts ≡ s.absolute.start_pts

  step-Keeps : (c : Call d) (s : ClockSync d) → Keeps s (step c s)
  unfolding step cal_video_delay cal_audio_delay update_video_pts update_audio_pts update_pts
  step-Keeps (video_delay now pts duration) s = ground arith
  step-Keeps (audio_delay now pts duration) s = ground arith
  step-Keeps (video_pts now pts) s = ground arith
  step-Keeps (audio_pts now pts) s = ground arith

  Keeps-trans : {s t u : ClockSync d} → Keeps s t → Keeps t u → Keeps s u
  Keeps-trans k l = record {
    audio_start = λ h. l.audio_start (ap is_nan (k.audio_start h) ∙ h) ∙ k.audio_start h;
    video_start = λ h. l.video_start (ap is_nan (k.video_start h) ∙ h) ∙ k.video_start h;
    absolute_start =
        λ h. l.absolute_start (ap is_nan (k.absolute_start h) ∙ h) ∙ k.absolute_start h;
  }

  -- Whatever of these the threads call, in any order: a start that is known never changes.
  pub run-Keeps : (cs : List (Call d)) (s : ClockSync d) → Keeps s (run cs s)
  unfolding run
  run-Keeps [] s = record {
    audio_start = λ _. refl;
    video_start = λ _. refl;
    absolute_start = λ _. refl;
  }
  run-Keeps (c ∷ cs) s = Keeps-trans (step-Keeps c s) (run-Keeps cs (step c s))

  -- Audio and video that have started at different points stay apart under every sequence of
  -- `calVideoDelay`, `calAudioDelay`, `updateVideoPts` and `updateAudioPts`, as long as `reset`, which
  -- forgets both starts, is not called: `calVideoDelay` sets no common start, and only moves the
  -- video clock's current time.
  pub starts_stay_apart :
      (cs : List (Call d)) (s : ClockSync d)
      → is_nan s.audio.start_pts ≡ false
      → is_nan s.video.start_pts ≡ false
      → s.audio.start_pts ≢ s.video.start_pts
      → (run cs s).audio.start_pts ≢ (run cs s).video.start_pts
  starts_stay_apart cs s a v apart e =
      let k = run-Keeps cs s in apart (sym (k.audio_start a) ∙ e ∙ k.video_start v)
