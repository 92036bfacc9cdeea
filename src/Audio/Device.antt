-- ===== src/Audio/Device.antt =====
-- src/audio.cpp, `Audio::open` and `Audio::close`: the device that all players share, and the number
-- of those that use it. What SDL and the decoder answer is given.
use video_player_core.Base.{
  ℕ, zero, suc, Bool, true, false, not, ◌&&◌, Option, none, some, if◌then◌else◌, ltb, leb,
}
use video_player_core.Base.Int.{ℤ, pos, negsuc, ◌+ℤ◌}

-- `_forceFormat` without AV_SAMPLE_FMT_NONE, which is `none`
pub data Format : Type 0 where
  s16 s32 flt : Format

-- `_forceFormat`, `_audioId` and `_audioChannleCount`
pub record Device : Type 0 where
  pub format : Option Format
  pub id : ℕ
  pub count : ℤ

abbrev pub no_device : Device
no_device = record { format = none; id = 0; count = pos 0 }

-- The answers of SDL; `format` is that of the device, if it is one of three.
pub record Sdl : Type 0 where
  pub was_init : Bool
  pub init_ok : Bool
  pub id : ℕ
  pub format : Option Format

-- The part of `open` that opens the device: `none` if it is open now, else what `open` returns.
-- `return -1` is true.
unfoldable pub open_device : Sdl → Device → Option Bool × Device
open_device sdl d =
    let opened = record d { id = sdl.id } in
    if not sdl.was_init && not sdl.init_ok
    then (some true, d)
    else (if ltb sdl.id 2 then (some false, opened) else elim sdl.format [
      | none ↦ (some false, opened)
      | some format ↦ (none, record opened { format = some format })
    ])

-- `open`: what it returns, whether the player has a channel and its threads run, and the device
unfoldable pub open_audio : Sdl → Bool → Device → Bool × Bool × Device
open_audio sdl decoder_ok d =
    let counted = record d { count = d.count +ℤ pos 1 } in
    let tried : Option Bool × Device = elim d.format [
      | none ↦ open_device sdl counted
      | some format ↦ (none, counted)
    ] in
    if decoder_ok
    then elim tried.0 [ none ↦ (true, true, tried.1) | some result ↦ (result, false, tried.1) ]
    else (false, false, d)

abbrev pub is_zero : ℤ → Bool
is_zero (pos zero) = true
is_zero (pos (suc n)) = false
is_zero (negsuc n) = false

-- `close`, which a player calls whether `open` succeeded or not
unfoldable pub close_audio : Device → Device
close_audio d =
    let left = record d { count = d.count +ℤ negsuc 0 } in
    if is_zero left.count && leb 2 d.id then record left { id = 0; format = none } else left
