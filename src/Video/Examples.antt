-- ===== src/Video/Examples.antt =====
-- Frames of two sizes.
use video_player_core.Video.Shutdown.{
  finished, ended, joins_decoder, closed, Picture, Playback, open_video, decodes, puts, has_put,
  stops, ends, closes, has_joined_decoder, has_joined_display, Reach, here, then_step,
}
use video_player_core.Video.Session.{presents, sets, frees, run_calls, asked_for, run_calls_lem}
use video_player_core.Video.Closing.{close_lem, held_up, close_never_returns}
use video_player_core.Base.{◌≡◌, refl, true, false, none, some, inr, arith}
use video_player_core.Base.{List, [], ◌∷◌, ℕ, Bool}
use video_player_core.Base.Int.{pos}
use video_player_core.Double.{Tick, ticks}
use video_player_core.Clock.{ClockSync, video_master, fresh_clock}
use video_player_core.Video.Display.{Shown, display}
use video_player_core.Video.Waiting.{stopped, Decides, display_lem}
use video_player_core.Video.{Frame, Scratch, Video, Answers}
use video_player_core.Video.Present.{works}

abbrev small : Frame
small = record { width = 640; height = 480; format = 0; pts = 7; duration = 1 }

abbrev kept : Scratch
kept = record { width = 320; height = 200; format = some 2; buffered = true }

abbrev no_memory : Answers
no_memory = record works { get_buffer = false }

abbrev next : Frame
next = record small { pts = 8 }

abbrev fresh : Video
fresh = record { pixel_format = some 2; scratch = none }

abbrev at : ℕ → Tick
at n = some (pos n)

abbrev session : ClockSync ticks
session = record {
  type = video_master;
  audio = fresh_clock;
  video = fresh_clock;
  absolute = fresh_clock;
}

abbrev turns : List (Bool × Tick)
turns = (true, at 20) ∷ (true, at 30) ∷ []

display_example :
    (stopped ticks turns ≡ true
      → (r : Shown ticks) × (display ticks (at 10) turns (at 40) (at 5) session ≡ some r))
    × ((r : Shown ticks)
        → display ticks (at 10) turns (at 40) (at 5) session ≡ some r
        → Decides ticks (at 10) turns (at 40) (at 5) session r)
display_example = display_lem ticks (at 10) turns (at 40) (at 5) session

abbrev first : Picture ticks
first = (at 0, at 5)

-- `close` is called when a picture and the end marker are in the hands of the decoder's task.
abbrev left_over : Playback ticks
left_over = record (open_video ticks session) {
  decoder_alive = false;
  alive = false;
  decoding = finished;
  displaying = ended;
  closing = closed;
  made = 1;
  freed = 1;
}

left_over-Reach : Reach ticks (open_video ticks session) left_over
left_over-Reach =
    then_step
      (then_step
        (then_step
          (then_step
            (then_step
              (then_step
                (then_step (then_step here (decodes (some first ∷ []) refl refl))
                  (puts (some first) [] refl (omega arith)))
                (closes refl))
              (has_put refl))
            (stops refl refl))
          (has_joined_decoder refl refl))
        (ends refl refl))
      (has_joined_display refl refl)

close_example :
    (left_over.decoding ≡ finished)
    × (left_over.displaying ≡ ended)
    × (left_over.frames ≡ [])
    × (left_over.freed ≡ left_over.made)
close_example = close_lem session left_over-Reach refl

close_never_returns_example :
    Reach ticks (open_video ticks session) (held_up session first first first)
    × ((held_up session first first first).closing ≡ joins_decoder)
close_never_returns_example = close_never_returns session first first first here

-- The scratch frame of another size is made anew, kept, and freed by `close`.
run_calls_example :
    run_calls works
      (presents small ∷ presents next ∷ sets none ∷ presents small ∷ frees ∷ presents next ∷ [])
      (record { pixel_format = some 2; scratch = some kept })
    ≡ asked_for
        (presents small ∷ presents next ∷ sets none ∷ presents small ∷ frees ∷ presents next ∷ [])
        (some 2)
run_calls_example =
    run_calls_lem
      (presents small ∷ presents next ∷ sets none ∷ presents small ∷ frees ∷ presents next ∷ [])
      (record { pixel_format = some 2; scratch = some kept }) (inr refl)
