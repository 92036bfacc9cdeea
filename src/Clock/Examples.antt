-- ===== src/Clock/Examples.antt =====
-- Sessions over exact time-stamps, in millionths of a second.
use video_player_core.Base.{ℕ, ◌≡◌, ◌≢◌, refl, false, some, List, [], ◌∷◌}
use video_player_core.Base.Int.{pos}
use video_player_core.Double.{Tick, ticks}
use video_player_core.Clock.{
  Clock, ClockSync, audio_master, Call, video_delay, audio_delay, video_pts, audio_pts,
  cal_video_delay, reset, run,
}
use video_player_core.Clock.Start.{starts_stay_apart}
use video_player_core.Clock.Restart.{reset_stalls_video}

abbrev at : ℕ → Tick
at n = some (pos n)

abbrev clock_at : ℕ → ℕ → Clock ticks
clock_at s c = record { is_disabled = false; start_pts = at s; current_pts = at c }

-- Audio has started at 0 and video at 40 000; audio has come to 500 000.
abbrev playing : ClockSync ticks
playing = record {
  type = audio_master;
  audio = clock_at 0 500_000;
  video = clock_at 40_000 440_000;
  absolute = clock_at 0 0;
}

abbrev calls : List (Call ticks)
calls =
    video_delay (at 1) (at 480_000) (at 40_000)
    ∷ video_pts (at 2) (at 480_000)
    ∷ audio_pts (at 3) (at 520_000)
    ∷ []

starts_stay_apart_example :
    (run calls playing).audio.start_pts ≢ (run calls playing).video.start_pts
starts_stay_apart_example = starts_stay_apart calls playing refl refl (λ e. cc)

abbrev video_calls : List (Call ticks)
video_calls = video_delay (at 1) (at 0) (at 40_000) ∷ video_pts (at 2) (at 0) ∷ []

reset_stalls_video_example :
    (cal_video_delay (at 9) (at 40_000) (at 40_000) (run video_calls (reset playing))).0
    ≡ ticks.hundredth
reset_stalls_video_example =
    reset_stalls_video video_calls (at 9) (at 40_000) (at 40_000) playing tt

abbrev audio_calls : List (Call ticks)
audio_calls = audio_delay (at 1) (at 0) (at 0) ∷ []
