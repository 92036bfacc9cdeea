-- ===== src/Play/Streams.antt =====
-- src/play.cpp, `_readThread`: the streams that are played, the first video and the first audio stream
-- of the file.
use video_player_core.Base.{
  ℕ, suc, ◌≡◌, Bool, true, false, Option, none, some, List, [], ◌∷◌, arith,
}

pub data Media : Type 0 where
  video_type audio_type other_type : Media

-- -1 is `none`.
pub record Chosen : Type 0 where
  pub video : Option ℕ
  pub audio : Option ℕ

-- One round of the loop over the streams
unfoldable pub choose : ℕ → Media → Chosen → Chosen
choose i video_type c = elim c.video [ none ↦ record c { video = some i } | some v ↦ c ]
choose i audio_type c = elim c.audio [ none ↦ record c { audio = some i } | some a ↦ c ]
choose i other_type c = c

unfoldable pub choose_streams : ℕ → List Media → Chosen → Chosen
choose_streams i [] c = c
choose_streams i (m ∷ ms) c = choose_streams (suc i) ms (choose i m c)

abbrev pub no_streams : Chosen
no_streams = record { video = none; audio = none }

abbrev pub is_video : Media → Bool
is_video video_type = true
is_video audio_type = false
is_video other_type = false

abbrev pub is_audio : Media → Bool
is_audio video_type = false
is_audio audio_type = true
is_audio other_type = false

-- The first index from `i` on that passes a test.
abbrev pub first : (Media → Bool) → ℕ → List Media → Option ℕ
first test i [] = none
first test i (m ∷ ms) = elim (test m) [ true ↦ some i | false ↦ first test (suc i) ms ]

abbrev or_else : Option ℕ → Option ℕ → Option ℕ
or_else none b = b
or_else (some a) b = some a

keeps_first :
    (i : ℕ) (ms : List Media) (c : Chosen)
    → ((choose_streams i ms c).video ≡ or_else c.video (first is_video i ms))
      × ((choose_streams i ms c).audio ≡ or_else c.audio (first is_audio i ms))
unfolding choose_streams choose
keeps_first i [] c = (ground arith, ground arith)
keeps_first i (video_type ∷ ms) c =
    let (v, a) = keeps_first (suc i) ms (choose i video_type c) in (ground arith, ground arith)
keeps_first i (audio_type ∷ ms) c =
    let (v, a) = keeps_first (suc i) ms (choose i audio_type c) in (ground arith, ground arith)
keeps_first i (other_type ∷ ms) c = keeps_first (suc i) ms c

-- The streams that are played are the first of their kind.
pub choose_streams_lem :
    (ms : List Media)
    → ((choose_streams 0 ms no_streams).video ≡ first is_video 0 ms)
      × ((choose_streams 0 ms no_streams).audio ≡ first is_audio 0 ms)
choose_streams_lem ms = keeps_first 0 ms no_streams
