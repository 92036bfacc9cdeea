-- ===== src/Audio/Examples.antt =====
-- The audio output at concrete frames and players.
use video_player_core.Base.{
  ℕ, ◌+◌, ◌≡◌, refl, true, false, none, some, List, [], ◌∷◌, length, arith, if◌then◌else◌, ltb,
  ◌++◌, replicate,
}
use video_player_core.Base.Int.{pos}
use video_player_core.Audio.Blocks.{put_frames, end_of_stream}
use video_player_core.Audio.Cut.{
  Runs, samples_of, collected, data_of, empty_filling, put_frames-Runs,
}
use video_player_core.Audio.Shutdown.{
  hands_on, fills, joins_decoder, closed, Playback, open_audio_threads, fill_round, decodes, puts,
  takes, fills_block, closes, Reach, here, then_step,
}
use video_player_core.Audio.Closing.{close_returns, Starves, Reach-Starves}
use video_player_core.Audio.Device.{s16, Device, no_device, Sdl}
use video_player_core.Audio.Sharing.{Used, Works, opens, closes, run, run-Used}
use video_player_core.Audio.Frames.{Frames, Turn, display_thread}
use video_player_core.Audio.Ownership.{frees, Sound, display_thread_lem, direct_frame_faults}
use video_player_core.Audio.Callback.{
  Channel, Mixer, add_channel, remove_channel, is_in, play_block, audio_callback,
}
use video_player_core.Audio.Active.{Distinct, wanted}
use video_player_core.Audio.Mixing.{audio_callback_lem}
use video_player_core.Double.{Tick, ticks}
use video_player_core.Clock.{audio_master, fresh_clock}
use video_player_core.Ring.Bounds.{IsValid}

abbrev frames : List (ℕ × List ℕ)
frames = (100, 1 ∷ 2 ∷ 3 ∷ []) ∷ (103, []) ∷ (103, 4 ∷ 5 ∷ 6 ∷ 7 ∷ []) ∷ []

put_frames_example :
    Runs 2 100 (100 + length (data_of frames)) (put_frames 2 frames empty_filling)
    × (collected (put_frames 2 frames empty_filling) ≡ data_of frames)
    × (samples_of (end_of_stream (put_frames 2 frames empty_filling)).sent ≡ data_of frames)
put_frames_example = put_frames-Runs 2 100 frames (omega arith) (refl, (refl, (refl, tt)))

abbrev working : Sdl
working = record { was_init = false; init_ok = true; id = 2; format = some s16 }

working-Works : Works working
working-Works = record { ready = refl; device = omega arith; supported = (s16, refl) }

unused-Used : Used 0 no_device
unused-Used = record {
  counted = refl;
  idle = λ e. (refl, refl);
  busy = λ pos. absurd (omega arith);
}

run-Used_example : Used 1 (run (opens working ∷ opens working ∷ closes ∷ []) no_device)
run-Used_example =
    run-Used 0 1 (opens working ∷ opens working ∷ closes ∷ []) no_device unused-Used
      (working-Works, (working-Works, refl))

abbrev one_player : Device
one_player = record { format = some s16; id = 2; count = pos 1 }

one_player-Used : Used 1 one_player
one_player-Used = record {
  counted = refl;
  idle = λ e. absurd (omega arith);
  busy = λ pos. (omega arith, s16, refl);
}

-- Three frames of the queue, of which the first two are resampled.
abbrev three_frames : Frames
three_frames = record { live = λ i. ltb i 3; fresh = 3 }

abbrev resampled : ℕ → Turn
resampled i = record { frame = i; is_direct = false; has_context = true; allocates = true }

two-Sound : Sound (resampled 0 ∷ resampled 1 ∷ []) none three_frames
unfolding frees
two-Sound i = record { once = ground arith; live = λ lt. ground arith; unused = λ le. ground arith }

display_thread_example :
    (h' : Frames) × (display_thread (resampled 0 ∷ resampled 1 ∷ []) (none, three_frames) ≡ some h')
    × ((i : ℕ)
        → h'.live i
          ≡ (if ltb 0 (frees i (resampled 0 ∷ resampled 1 ∷ []) none) then false else ltb i 3))
display_thread_example =
    display_thread_lem (resampled 0 ∷ resampled 1 ∷ []) none three_frames (refl, (refl, tt))
      two-Sound

direct_frame_example :
    display_thread
      (resampled 0 ∷ record (resampled 2) { is_direct = true } ∷ [])
      (none, three_frames)
    ≡ none
direct_frame_example =
    direct_frame_faults (resampled 0 ∷ []) (record (resampled 2) { is_direct = true }) none
      three_frames refl

-- The time of a block is its first byte, and its sound is what remains of the device's two bytes.
abbrev first_byte : List ℕ → Tick
first_byte [] = none
first_byte (x ∷ xs) = some (pos x)

abbrev put_sound : List ℕ → List ℕ → ℕ → List ℕ
put_sound stream sound volume = sound

abbrev sixteen_bytes : List ℕ
sixteen_bytes = replicate 8 7 ++ 1 ∷ 2 ∷ replicate 22 0

abbrev one_block : Channel ticks
one_block = record {
  clock = record {
    type = audio_master;
    audio = fresh_clock;
    video = fresh_clock;
    absolute = fresh_clock;
  };
  frame_queue = record { write_pos = 16; read_pos = 0; buf = sixteen_bytes; cap = 32; mask = 31 };
  volume = 128;
}

one_block-IsValid : IsValid 5 one_block.frame_queue
one_block-IsValid = omega arith

abbrev mixer : Mixer ticks
mixer = record {
  messages = add_channel 4 ∷ remove_channel 1 ∷ [];
  playing = 1 ∷ 2 ∷ [];
  channel = λ i. one_block;
}

audio_callback_example :
    let (stream, m') = audio_callback first_byte put_sound 16 2 (some (pos 1)) mixer in
    (m'.messages ≡ [])
    × Distinct m'.playing
    × ((i : ℕ) → is_in i m'.playing ≡ wanted i mixer.messages (is_in i mixer.playing))
    × ((i : ℕ)
        → m'.channel i ≡ (
            if is_in i m'.playing
            then (play_block first_byte put_sound 16 2 (some (pos 1)) [] one_block).1
            else one_block))
audio_callback_example =
    audio_callback_lem first_byte put_sound 16 2 (some (pos 1)) mixer (refl, (refl, tt))

-- A frame of three samples is begun, with blocks of two.
abbrev begun : Playback
begun = record open_audio_threads { decoding = hands_on []; displaying = fills 3 }

begun-Reach : Reach 2 true true open_audio_threads begun
begun-Reach =
    then_step
      (then_step (then_step here (decodes (some 3 ∷ []) refl refl))
        (puts (some 3) [] refl (omega arith)))
      (takes (some 3) [] refl refl refl)

close_returns_example : (t : Playback) × Reach 2 true true begun t × (t.closing ≡ closed)
close_returns_example = close_returns 2 begun (omega arith) begun-Reach

-- Seven blocks of one sample wait, and one sample is left.
abbrev starving : Playback
starving = record begun { displaying = fills 1; blocks = 7 }

starving-Reach : Reach 1 true true open_audio_threads starving
unfolding fill_round
starving-Reach =
    let eight : Playback = record begun { displaying = fills 8 } in
    let first : Reach 1 true true open_audio_threads eight =
      then_step
        (then_step (then_step here (decodes (some 8 ∷ []) refl refl))
          (puts (some 8) [] refl (omega arith)))
        (takes (some 8) [] refl refl refl) in
    then_step
      (then_step
        (then_step
          (then_step
            (then_step
              (then_step (then_step (first) (fills_block 7 refl (λ e. (omega arith, refl))))
                (fills_block 6 refl (λ e. (omega arith, refl))))
              (fills_block 5 refl (λ e. (omega arith, refl))))
            (fills_block 4 refl (λ e. (omega arith, refl))))
          (fills_block 3 refl (λ e. (omega arith, refl))))
        (fills_block 2 refl (λ e. (omega arith, refl))))
      (fills_block 1 refl (λ e. (omega arith, refl)))

Reach-Starves_example :
    Starves 0 (record starving { closing = joins_decoder; decoder_alive = false })
Reach-Starves_example =
    Reach-Starves {size = 1} {due = true} 0 starving (refl, refl, refl, λ e. absurd (ground arith))
      (then_step here (closes refl))
