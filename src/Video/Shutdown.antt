-- ===== src/Video/Shutdown.antt =====
-- src/video.cpp, `open`, `close`, and the display thread as it stands between the decoder's task and
-- `close`, which waits for the one task and then for the other. A picture is its time and duration;
-- `none` in the queue is the end marker.
use video_player_core.Base.{
  ℕ, suc, ◌+◌, ◌<◌, ◌≡◌, Bool, true, false, ◌&&◌, Option, none, some, List, [], ◌∷◌, ◌++◌,
  if◌then◌else◌, length,
}
use video_player_core.Double.{Double}
use video_player_core.Clock.{ClockSync, cal_video_delay, reset}
use video_player_core.Video.Display.{finish}

-- The decoder's task: between two packets, handing on the frames of one, or at its end.
pub data Decoding (F : Type 0) : Type 0 where
  between : Decoding F
  hands_on : List (Option F) → Decoding F
  finished : Decoding F

-- The display thread: between two frames, with a frame whose delay is awaited, or at its end.
pub data Displaying (F : Type 0) : Type 0 where
  idle : Displaying F
  holds : F → Displaying F
  ended : Displaying F

-- `close`: not called, in `_decoder.close()`, in `_wg.Wait()`, or back.
pub data Closing : Type 0 where
  playing joins_decoder joins_display closed : Closing

-- The frames that the ring of 2 slots holds at most
abbrev pub frame_bound : ℕ
frame_bound = 1

abbrev pub pictures : {F : Type 0} → List (Option F) → ℕ
pictures [] = 0
pictures (none ∷ fs) = pictures fs
pictures (some f ∷ fs) = suc (pictures fs)

module _ (d : Double) where
  open d use {Value, nought, lt}

  abbrev pub Picture : Type 0
  Picture = Value × Value

  -- `made` and `freed` count the pictures that came from the codec and those that were freed.
  pub record Playback : Type 0 where
    pub sync : ClockSync d
    pub decoder_alive : Bool
    pub alive : Bool
    pub frames : List (Option Picture)
    pub decoding : Decoding Picture
    pub displaying : Displaying Picture
    pub closing : Closing
    pub made : ℕ
    pub freed : ℕ

  -- After `open`
  abbrev pub open_video : ClockSync d → Playback
  open_video sync = record {
    sync = sync;
    decoder_alive = true;
    alive = true;
    frames = [];
    decoding = between;
    displaying = idle;
    closing = playing;
    made = 0;
    freed = 0;
  }

  -- The codec gives the frames of a packet, and the marker after the null packet.
  abbrev pub decode_packet : List (Option Picture) → Playback → Playback
  decode_packet fs s = record s { decoding = hands_on fs; made = s.made + pictures fs }

  -- The display thread with a frame that it has from the queue, at a time: it sleeps again, or it
  -- presents or drops the frame and frees it.
  unfoldable pub show_frame : Value → Picture → Playback → Playback
  show_frame now (pts, duration) s =
      let (delay, sync) = cal_video_delay now pts duration s.sync in
      if lt nought delay && s.alive then record s { sync = sync } else record s {
        sync = (finish d now pts delay sync).sync;
        displaying = idle;
        freed = suc s.freed;
      }

  abbrev pub take_next : Option Picture → List (Option Picture) → Playback → Playback
  take_next none fs s = record s { frames = fs }
  take_next (some f) fs s = record s { frames = fs; displaying = holds f }

  -- The end of `close`
  abbrev pub drain_frames : Playback → Playback
  drain_frames s = record s { frames = []; freed = s.freed + pictures s.frames; closing = closed }

  pub data Step (s : Playback) : Playback → Type 0 where
    decodes :
        (fs : List (Option Picture))
        → s.decoding ≡ between
        → s.decoder_alive ≡ true
        → Step s (decode_packet fs s)
    puts :
        (f : Option Picture) (fs : List (Option Picture))
        → s.decoding ≡ hands_on (f ∷ fs)
        → length s.frames < frame_bound
        → Step s (record s { frames = s.frames ++ f ∷ []; decoding = hands_on fs })
    has_put : s.decoding ≡ hands_on [] → Step s (record s { decoding = between })
    stops :
        s.decoding ≡ between → s.decoder_alive ≡ false → Step s (record s { decoding = finished })
    takes :
        (f : Option Picture) (fs : List (Option Picture))
        → s.displaying ≡ idle
        → s.alive ≡ true
        → s.frames ≡ f ∷ fs
        → Step s (take_next f fs s)
    shows : (now : Value) (f : Picture) → s.displaying ≡ holds f → Step s (show_frame now f s)
    ends : s.displaying ≡ idle → s.alive ≡ false → Step s (record s { displaying = ended })
    resets : s.closing ≡ playing → Step s (record s { sync = reset s.sync })
    closes :
        s.closing ≡ playing → Step s (record s { closing = joins_decoder; decoder_alive = false })
    has_joined_decoder :
        s.closing ≡ joins_decoder
        → s.decoding ≡ finished
        → Step s (record s { closing = joins_display; alive = false })
    has_joined_display : s.closing ≡ joins_display → s.displaying ≡ ended → Step s (drain_frames s)

  pub data Reach (s : Playback) : Playback → Type 0 where
    here : Reach s s
    then_step : {t u : Playback} → Reach s t → Step t u → Reach s u
