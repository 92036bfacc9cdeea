-- ===== src/Audio/Shutdown.antt =====
-- src/audio.cpp, `open`, `close` and `_displayThread` between the decoder's task, the device's callback
-- and `close`. A frame is the number of its samples; `none` in the queue is the end marker.
use video_player_core.Base.{
  ℕ, ◌+◌, suc, ◌<◌, ◌≡◌, Bool, true, false, not, ◌||◌, Option, none, some, List, [], ◌∷◌, ◌++◌,
  length, ltb, min, ◌-◌, ◌==◌, if◌then◌else◌,
}

-- The decoder's task: between two packets, handing on the frames of one, or at its end.
pub data Decoding : Type 0 where
  between : Decoding
  hands_on : List (Option ℕ) → Decoding
  finished : Decoding

-- The display thread: between two frames, with a frame of which so many samples are left, with an end
-- marker whose blocks are still to be played, or at its end.
pub data Displaying : Type 0 where
  idle : Displaying
  fills : ℕ → Displaying
  drains : Displaying
  ended : Displaying

-- `close`: not called, in `_decoder.close()`, in `_wg.Wait()`, or back.
pub data Closing : Type 0 where
  playing joins_decoder joins_display closed : Closing

-- What the queue of 8 frames holds at most, and the channel of 8 blocks
abbrev pub frame_bound : ℕ
frame_bound = 7

abbrev pub block_bound : ℕ
block_bound = 7

-- `written` is `writtenSamples`, and `blocks` are those that `end_write` has handed over.
pub record Playback : Type 0 where
  pub decoder_alive : Bool
  pub alive : Bool
  pub frames : List (Option ℕ)
  pub blocks : ℕ
  pub written : ℕ
  pub decoding : Decoding
  pub displaying : Displaying
  pub closing : Closing

-- After `open`
abbrev pub open_audio_threads : Playback
open_audio_threads = record {
  decoder_alive = true;
  alive = true;
  frames = [];
  blocks = 0;
  written = 0;
  decoding = between;
  displaying = idle;
  closing = playing;
}

abbrev pub take_next : Option ℕ → List (Option ℕ) → Playback → Playback
take_next none fs s = record s {
  frames = fs;
  blocks = if ltb 0 s.written then suc s.blocks else s.blocks;
  written = 0;
  displaying = drains;
}
take_next (some n) fs s = record s { frames = fs; displaying = fills n }

-- A round of `while (avail)`, with blocks of `size` samples and the wait for a block behind it
unfoldable pub fill_round : ℕ → ℕ → Playback → Playback
fill_round size avail s =
    let fill = min (size - s.written) avail in
    let filled = record s { written = s.written + fill; displaying = fills (avail - fill) } in
    if s.written + fill == size
    then record filled { written = 0; blocks = suc s.blocks }
    else filled

-- `device_runs` tells whether the callback is called, and `due` whether `calAudioDelay` comes to give
-- no wait. `_isAlive` is read in the wait for the clock, and in the waits for a block or for the
-- callback it is not.
module _ (size : ℕ) (device_runs due : Bool) where
  pub data Step (s : Playback) : Playback → Type 0 where
    decodes :
        (fs : List (Option ℕ))
        → s.decoding ≡ between
        → s.decoder_alive ≡ true
        → Step s (record s { decoding = hands_on fs })
    puts :
        (f : Option ℕ) (fs : List (Option ℕ))
        → s.decoding ≡ hands_on (f ∷ fs)
        → length s.frames < frame_bound
        → Step s (record s { frames = s.frames ++ f ∷ []; decoding = hands_on fs })
    has_put : s.decoding ≡ hands_on [] → Step s (record s { decoding = between })
    stops :
        s.decoding ≡ between → s.decoder_alive ≡ false → Step s (record s { decoding = finished })
    takes :
        (f : Option ℕ) (fs : List (Option ℕ))
        → s.displaying ≡ idle
        → s.alive ≡ true
        → s.frames ≡ f ∷ fs
        → Step s (take_next f fs s)
    fills_block :
        (n : ℕ)
        → s.displaying ≡ fills (suc n)
        → (s.written ≡ 0 → (s.blocks < block_bound) × ((due || not s.alive) ≡ true))
        → Step s (fill_round size (suc n) s)
    has_filled : s.displaying ≡ fills 0 → Step s (record s { displaying = idle })
    has_drained : s.displaying ≡ drains → s.blocks ≡ 0 → Step s (record s { displaying = idle })
    plays : (n : ℕ) → device_runs ≡ true → s.blocks ≡ suc n → Step s (record s { blocks = n })
    ends : s.displaying ≡ idle → s.alive ≡ false → Step s (record s { displaying = ended })
    closes :
        s.closing ≡ playing → Step s (record s { closing = joins_decoder; decoder_alive = false })
    has_joined_decoder :
        s.closing ≡ joins_decoder
        → s.decoding ≡ finished
        → Step s (record s { closing = joins_display; alive = false })
    has_joined_display :
        s.closing ≡ joins_display
        → s.displaying ≡ ended
        → Step s (record s { frames = []; closing = closed })

  pub data Reach (s : Playback) : Playback → Type 0 where
    here : Reach s s
    then_step : {t u : Playback} → Reach s t → Step t u → Reach s u
