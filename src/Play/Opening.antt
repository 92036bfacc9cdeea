-- ===== src/Play/Opening.antt =====
-- src/play.cpp, `_readThread` before its loop and after it: the opening of the file and of its
-- streams, every way to give up, and what is closed in the end; and `_interruptCb`. What the libraries
-- answer is given.
use video_player_core.Base.{
  ℕ, suc, ◌≡◌, refl, ap, ◌∙◌, Bool, true, false, not, ◌&&◌, ◌||◌, Option, none, some, List,
  if◌then◌else◌, ap₂, subst, sym,
}
use video_player_core.Double.{Double}
use video_player_core.Clock.{
  ClockSync, ClockSyncType, audio_master, video_master, get_time, get_master_clock,
}
use video_player_core.Audio.Device.{Device, Sdl, open_audio, close_audio}
use video_player_core.Audio.Sharing.{Used, Works, open-Used, close-Used}
use video_player_core.Play.Streams.{
  Media, Chosen, choose_streams, no_streams, first, is_video, is_audio, choose_streams_lem,
}
use video_player_core.Play.Loop.{is_off}

-- The answers of `avformat_open_input` and `avformat_find_stream_info`, the types of the streams, and
-- whether the decoders of the video and the audio stream open.
pub record File : Type 0 where
  pub opens : Bool
  pub finds_info : Bool
  pub media : List Media
  pub video_opens : Bool
  pub audio_opens : Bool

-- What the loop starts with.
pub record Session : Type 0 where
  pub chosen : Chosen
  pub type : ClockSyncType
  pub video_is_disabled : Bool
  pub audio_is_disabled : Bool

-- The session of the streams that were opened
abbrev pub begin : Chosen → Session
begin c = record {
  chosen = c;
  type = if is_off c.audio then video_master else audio_master;
  video_is_disabled = is_off c.video;
  audio_is_disabled = is_off c.audio;
}

-- The opening of the audio stream, if there is one
abbrev pub try_audio : Sdl → Bool → Option ℕ → Device → Option ℕ × Device
try_audio sdl decoder_opens none d = (none, d)
try_audio sdl decoder_opens (some i) d =
    let (opened, runs, d') = open_audio sdl decoder_opens d in (if opened then some i else none, d')

abbrev pub with_streams : Sdl → File → Device → Chosen → Option Session × Device
with_streams sdl f d c =
    let (audio, d') = try_audio sdl f.audio_opens c.audio d in
    if not f.opens || not f.finds_info || (is_off c.video && is_off c.audio) then (none, d) else (
      some (begin (record { video = if f.video_opens then c.video else none; audio = audio })),
      d',
    )

-- The way to the loop: `none` is `goto end`.
unfoldable pub open_session : Sdl → File → Device → Option Session × Device
open_session sdl f d = with_streams sdl f d (choose_streams 0 f.media no_streams)

-- `_readThread` with nothing but its device: the session that the loop ran with, and the device after
-- `_audio.close()`, which comes at the end of every way.
unfoldable pub play_file : Sdl → File → Device → Option Session × Device
play_file sdl f d = let (session, d') = open_session sdl f d in (session, close_audio d')

-- `_interruptCb`: the cursor time that listeners get, and whether the library is to give up
unfoldable pub interrupt : {d : Double} → Bool → Bool → ClockSync d → Option (d.Value) × Bool
interrupt is_paused is_alive s =
    (if is_paused then none else some (get_time (get_master_clock s)), not is_alive)

-- The first streams of a file
abbrev pub firsts : List Media → Chosen
firsts ms = record { video = first is_video 0 ms; audio = first is_audio 0 ms }

with_firsts :
    (sdl : Sdl) (f : File) (d : Device)
    → open_session sdl f d ≡ with_streams sdl f d (firsts f.media)
unfolding open_session
with_firsts sdl f d =
    let (v, a) = choose_streams_lem f.media in
    ap₂ (λ v a. with_streams sdl f d (record { video = v; audio = a })) v a

-- What the loop runs with: a file that cannot be opened or read, or that has no video and no audio
-- stream, gives up. Otherwise the streams are the first of their kind if their decoders could be
-- opened, the clock follows the audio if there is one and else the video, and the clocks of the
-- streams that are missing are disabled.
pub open_session_lem :
    (sdl : Sdl) (f : File) (d : Device)
    → (open_session sdl f d).0 ≡ (
        if not f.opens
          || not f.finds_info
          || (is_off (firsts f.media).video && is_off (firsts f.media).audio)
        then none
        else some (
            begin (record {
              video = if f.video_opens then (firsts f.media).video else none;
              audio = (try_audio sdl f.audio_opens (firsts f.media).audio d).0;
            })))
open_session_lem sdl f d =
    ap (λ (r : Option Session × Device). r.0) (with_firsts sdl f d)
    ∙ first_of
        (not f.opens
          || not f.finds_info
          || (is_off (firsts f.media).video && is_off (firsts f.media).audio))
        none
        (some (
          begin (record {
            video = if f.video_opens then (firsts f.media).video else none;
            audio = (try_audio sdl f.audio_opens (firsts f.media).audio d).0;
          })))
        d (try_audio sdl f.audio_opens (firsts f.media).audio d).1
  where
    first_of :
        (t : Bool) (x y : Option Session) (e e' : Device)
        → (if◌then◌else◌ {A = Option Session × Device} t (x, e) (y, e')).0 ≡ (if t then x else y)
    first_of true x y e e' = refl
    first_of false x y e e' = refl

-- Whether the player of a file opens the audio device
abbrev pub plays_audio : File → Bool
plays_audio f =
    f.opens && f.finds_info && (not (is_off (first is_audio 0 f.media)) && f.audio_opens)

-- The device after the opening: as it was if the way ends early or no audio stream is opened.
device_left :
    (gives_up : Bool) (s : Option Session) (d e : Device)
    → (if◌then◌else◌ {A = Option Session × Device} gives_up (none, d) (s, e)).1
      ≡ (if gives_up then d else e)
device_left true s d e = refl
device_left false s d e = refl

tests_agree :
    (opens finds off : Bool) (d e : Device)
    → (if not opens || not finds || (off && false) then d else e)
      ≡ (if opens && finds then e else d)
tests_agree true true true d e = refl
tests_agree true true false d e = refl
tests_agree true false off d e = refl
tests_agree false finds off d e = refl

nested :
    (opens finds decoder : Bool) (d e : Device)
    → (if opens && finds then (if decoder then e else d) else d)
      ≡ (if opens && finds && decoder then e else d)
nested true true decoder d e = refl
nested true false decoder d e = refl
nested false finds decoder d e = refl

never : (t : Bool) (d e : Device) → (if t && false then e else d) ≡ d
never true d e = refl
never false d e = refl

same_device : (t : Bool) (d : Device) → (if t then d else d) ≡ d
same_device true d = refl
same_device false d = refl

open_audio-decoder :
    (decoder : Bool) (sdl : Sdl) (d : Device)
    → (open_audio sdl decoder d).2 ≡ (if decoder then (open_audio sdl true d).2 else d)
unfolding open_audio
open_audio-decoder true sdl d = refl
open_audio-decoder false sdl d = refl

device_after :
    (sdl : Sdl) (f : File) (d : Device) (v a : Option ℕ)
    → (with_streams sdl f d (record { video = v; audio = a })).1 ≡ (
        if f.opens && f.finds_info && (not (is_off a) && f.audio_opens)
        then (open_audio sdl true d).2
        else d)
device_after sdl f d v none =
    device_left (not f.opens || not f.finds_info || (is_off v && true)) _ d d
    ∙ same_device (not f.opens || not f.finds_info || (is_off v && true)) d
    ∙ sym (never (f.opens && f.finds_info) d (open_audio sdl true d).2)
device_after sdl f d v (some i) =
    device_left (not f.opens || not f.finds_info || (is_off v && false)) _ d _
    ∙ tests_agree f.opens f.finds_info (is_off v) d (try_audio sdl f.audio_opens (some i) d).1
    ∙ ap (λ e. if f.opens && f.finds_info then e else d) (open_audio-decoder f.audio_opens sdl d)
    ∙ nested f.opens f.finds_info f.audio_opens d (open_audio sdl true d).2

-- While `n + 1` players use the device, a file whose audio stream can be played leaves it to them in
-- the end. Any other file, whose player never opened the device, takes it from one of them: `n`
-- are counted, and the device is closed if there was one.
pub play_file-Used :
    (n : ℕ) (sdl : Sdl) (f : File) (d : Device)
    → Works sdl
    → Used (suc n) d
    → Used (if plays_audio f then suc n else n) (play_file sdl f d).1
unfolding play_file
play_file-Used n sdl f d w u =
    let after =
      ap (λ (r : Option Session × Device). r.1) (with_firsts sdl f d)
      ∙ device_after sdl f d (firsts f.media).video (firsts f.media).audio in
    subst (λ e. Used (if plays_audio f then suc n else n) (close_audio e)) (sym after)
      (split (plays_audio f))
  where
    split :
        (t : Bool)
        → Used (if t then suc n else n) (close_audio (if t then (open_audio sdl true d).2 else d))
    split true = close-Used (suc n) (open_audio sdl true d).2 (open-Used (suc n) sdl d w u)
    split false = close-Used n d u
