-- ===== src/Play/Loop.antt =====
-- src/play.cpp, the `while (_isAlive)` loop of `_readThread`, and what happens beside it. A queue is
-- that of a stream's decoder (include/decoder.h); `none` in it is the end marker. The way of a packet
-- from its queue to the display is one step: the marker's arrival there calls `onEof`.
use video_player_core.Base.{
  ℕ, ◌+◌, ◌<◌, ◌≡◌, Bool, true, false, not, ◌&&◌, ◌||◌, Option, none, some, List, [], ◌∷◌, ◌++◌,
  if◌then◌else◌, ◌==◌, length,
}
use video_player_core.Clock.{ClockSyncType, audio_master, absolute_master}

-- The locals of `_readThread` and the fields that it reads. `broken` is set by `break`.
pub record Player : Type 0 where
  pub is_alive : Bool
  pub is_paused : Bool
  pub step : Bool
  pub is_loop : Bool
  pub eof : Bool
  pub broken : Bool
  pub video : Option ℕ
  pub audio : Option ℕ
  pub video_eof : Bool
  pub audio_eof : Bool
  pub type : ClockSyncType
  pub video_queue : List (Option ℕ)
  pub audio_queue : List (Option ℕ)

-- What `av_read_frame` gives.
pub data Read : Type 0 where
  packet : ℕ → Read
  at_end failed : Read

-- `stream_index == index`, where -1 is `none`
abbrev pub is_stream : ℕ → Option ℕ → Bool
is_stream i none = false
is_stream i (some j) = i == j

abbrev pub is_off : Option ℕ → Bool
is_off none = true
is_off (some i) = false

-- What is read goes to its stream's queue; a packet of another stream is freed.
unfoldable pub handle : Read → Player → Player
handle (packet i) s =
    if is_stream i s.video
    then record s { video_queue = s.video_queue ++ some i ∷ [] }
    else (if is_stream i s.audio
        then record s { audio_queue = s.audio_queue ++ some i ∷ [] }
        else s)
handle at_end s = record s {
  eof = true;
  video_queue = s.video_queue ++ none ∷ [];
  audio_queue = s.audio_queue ++ none ∷ [];
}
handle failed s = record s { broken = true }

unfoldable pub is_over : Player → Bool
is_over s = (is_off s.video || s.video_eof) && (is_off s.audio || s.audio_eof)

-- `!_isPaused || _step`
abbrev pub is_running : Player → Bool
is_running s = not s.is_paused || s.step

-- The file starts again.
abbrev pub restarts : Player → Bool
restarts s = is_running s && s.eof && is_over s && s.is_loop

unfoldable pub restart : Player → Player
restart s = record s { eof = false; video_eof = false; audio_eof = false; type = audio_master }

-- A round; `read` is what `av_read_frame` gives, if it is called.
unfoldable pub round : Read → Player → Player
round read s =
    if is_running s
    then (if not s.eof then handle read s else (if is_over s && s.is_loop then restart s else s))
    else s

-- The slots of a queue less the one that stays empty
abbrev pub queue_size : ℕ
queue_size = 2047

-- `write` returns only if there is room.
unfoldable pub HasRoom : Read → Player → Type 0
HasRoom (packet i) s =
    (is_stream i s.video ≡ true → length s.video_queue < queue_size)
    × (is_stream i s.audio ≡ true → length s.audio_queue < queue_size)
HasRoom at_end s = (length s.video_queue < queue_size) × (length s.audio_queue < queue_size)
HasRoom failed s = Unit {0}

-- What a marker at the display does.
unfoldable pub take_video : Option ℕ → List (Option ℕ) → Player → Player
take_video none xs s = record s { video_queue = xs; video_eof = true }
take_video (some i) xs s = record s { video_queue = xs }

unfoldable pub take_audio : Option ℕ → List (Option ℕ) → Player → Player
take_audio none xs s = record s { audio_queue = xs; audio_eof = true; type = absolute_master }
take_audio (some i) xs s = record s { audio_queue = xs }

-- `Step n s t`: one step, with `n` restarts in it.
pub data Step : ℕ → Player → Player → Type 0 where
  reads :
      {s : Player} (read : Read)
      → s.is_alive ≡ true
      → s.broken ≡ false
      → restarts s ≡ false
      → (is_running s ≡ true → s.eof ≡ false → HasRoom read s)
      → Step 0 s (round read s)
  starts_again :
      {s : Player} (read : Read)
      → s.is_alive ≡ true
      → s.broken ≡ false
      → restarts s ≡ true
      → Step 1 s (round read s)
  shows_video :
      {s : Player} {i : ℕ} {x : Option ℕ} {xs : List (Option ℕ)}
      → s.video ≡ some i
      → s.video_queue ≡ x ∷ xs
      → Step 0 s (take_video x xs s)
  plays_audio :
      {s : Player} {i : ℕ} {x : Option ℕ} {xs : List (Option ℕ)}
      → s.audio ≡ some i
      → s.audio_queue ≡ x ∷ xs
      → Step 0 s (take_audio x xs s)
  pauses : {s : Player} (paused : Bool) → Step 0 s (record s { is_paused = paused })
  stops : {s : Player} → Step 0 s (record s { is_alive = false })

-- Steps with `n` restarts in all.
pub data Reach : ℕ → Player → Player → Type 0 where
  here : {s : Player} → Reach 0 s s
  then_step : {n m : ℕ} {s t u : Player} → Reach n s t → Step m t u → Reach (n + m) s u
