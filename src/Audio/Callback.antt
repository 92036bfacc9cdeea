-- ===== src/Audio/Callback.antt =====
-- src/audio.cpp, `_audioCallback`, and the messages that `open` and `close` send it: the channels that
-- play, and what the device is given. A channel is named by a number, and its queue holds bytes.
use video_player_core.Base.{
  ℕ, ◌+◌, Bool, true, false, none, some, List, [], ◌∷◌, if◌then◌else◌, ◌==◌, replicate, segment,
}
use video_player_core.Double.{Double}
use video_player_core.Clock.{ClockSync, update_audio_pts}
use video_player_core.Ring.{Ring, begin_read, end_read}

-- MESSAGE_TYPE_AUDIO_ADD_CHANNEL and MESSAGE_TYPE_AUDIO_REMOVE_CHANNEL with their channel
pub data ChannelMessage : Type 0 where
  add_channel remove_channel : ℕ → ChannelMessage

pub record Channel (d : Double) : Type 0 where
  pub clock : ClockSync d
  pub frame_queue : Ring ℕ
  pub volume : ℕ

-- `_audioChan`, the oldest message first, `_audioChannels`, and the channels that there are.
pub record Mixer (d : Double) : Type 0 where
  pub messages : List ChannelMessage
  pub playing : List ℕ
  pub channel : ℕ → Channel d

abbrev pub is_in : ℕ → List ℕ → Bool
is_in c [] = false
is_in c (b ∷ bs) = if b == c then true else is_in c bs

-- `insert` and `erase` of a set
abbrev pub insert : ℕ → List ℕ → List ℕ
insert c cs = if is_in c cs then cs else c ∷ cs

unfoldable pub erase : ℕ → List ℕ → List ℕ
erase c [] = []
erase c (b ∷ bs) = let rest = erase c bs in if b == c then bs else b ∷ rest

-- The loop of `try_pop`
unfoldable pub take_messages : List ChannelMessage → List ℕ → List ℕ
take_messages [] cs = cs
take_messages (add_channel c ∷ ms) cs = take_messages ms (insert c cs)
take_messages (remove_channel c ∷ ms) cs = take_messages ms (erase c cs)

-- `time_of` reads eight bytes as a `double`, and `mix` is `SDL_MixAudioFormat` with a volume.
module _ {d : Double} (time_of : List ℕ → d.Value) (mix : List ℕ → List ℕ → ℕ → List ℕ)
    (align len : ℕ) where
  open d use {Value}

  -- One channel: the stream and the channel after its block, if it has one.
  unfoldable pub play_block : Value → List ℕ → Channel d → List ℕ × Channel d
  play_block now stream c = elim (begin_read c.frame_queue align) [
    | none ↦ (stream, c)
    | some p ↦
        let pts = time_of (segment c.frame_queue.buf p (p + 8)) in
        (
          mix stream (segment c.frame_queue.buf (p + 8) (p + 8 + len)) c.volume,
          record c {
            clock = update_audio_pts now pts c.clock;
            frame_queue = end_read c.frame_queue align;
          },
        )
  ]

  abbrev pub put_channel : ℕ → Channel d → (ℕ → Channel d) → ℕ → Channel d
  put_channel i c channel j = if i == j then c else channel j

  -- The loop over the channels
  unfoldable pub play_all : Value → List ℕ → List ℕ → (ℕ → Channel d) → List ℕ × (ℕ → Channel d)
  play_all now [] stream channel = (stream, channel)
  play_all now (i ∷ is) stream channel =
      let (stream', c) = play_block now stream (channel i) in
      play_all now is stream' (put_channel i c channel)

  -- `_audioCallback`: what the device gets, and the mixer after it
  unfoldable pub audio_callback : Value → Mixer d → List ℕ × Mixer d
  audio_callback now m =
      let playing = take_messages m.messages m.playing in
      let (stream, channel) = play_all now playing (replicate len 0) m.channel in
      (stream, record { messages = []; playing = playing; channel = channel })
