-- ===== src/Audio/Sharing.antt =====
-- How players share the audio device.
use video_player_core.Base.{
  ℕ, zero, suc, ◌<◌, ◌≤◌, ◌≡◌, refl, true, false, ◌||◌, none, some, List, [], ◌∷◌, arith, subst,
}
use video_player_core.Base.Int.{pos}
use video_player_core.Audio.Device.{Format, Device, Sdl, open_device, open_audio, close_audio}

-- `n` players use the device, which is open exactly then.
pub record Used (n : ℕ) (d : Device) : Type 0 where
  pub counted : d.count ≡ pos n
  pub idle : n ≡ 0 → (d.id ≡ 0) × (d.format ≡ none)
  pub busy : 0 < n → (2 ≤ d.id) × (f : Format) × (d.format ≡ some f)

-- SDL has a device of a format that is supported.
pub record Works (sdl : Sdl) : Type 0 where
  pub ready : (sdl.was_init || sdl.init_ok) ≡ true
  pub device : 2 ≤ sdl.id
  pub supported : (f : Format) × (sdl.format ≡ some f)

pub open-Used :
    (n : ℕ) (sdl : Sdl) (d : Device) → Works sdl → Used n d → Used (suc n) (open_audio sdl true d).2
unfolding open_audio open_device
open-Used zero sdl d w u =
    let (f, known) = w.supported in
    record {
      counted = ground (arith, u.counted, u.idle refl);
      idle = λ none_left. absurd (omega arith);
      busy = λ some_left. (
        ground (arith, u.idle refl, known, w.ready),
        f,
        ground (arith, u.idle refl, known, w.ready),
      );
    }
open-Used (suc n) sdl d w u =
    let (at_least, f, known) = u.busy (omega arith) in
    record {
      counted = ground (arith, u.counted, known);
      idle = λ none_left. absurd (omega arith);
      busy = λ some_left. (ground (arith, known), f, ground (arith, known));
    }

pub close-Used : (n : ℕ) (d : Device) → Used (suc n) d → Used n (close_audio d)
unfolding close_audio
close-Used n d u =
    let (at_least, f, known) = u.busy (omega arith) in
    record {
      counted = ground (arith, u.counted);
      idle = λ none_left. (ground (arith, u.counted), ground (arith, u.counted));
      busy = λ some_left. (ground (arith, u.counted), f, ground (arith, u.counted, known));
    }

-- Players that open the device and close it again.
pub data Use : Type 0 where
  opens : Sdl → Use
  closes : Use

abbrev pub apply : Use → Device → Device
apply (opens sdl) d = (open_audio sdl true d).2
apply closes d = close_audio d

unfoldable pub run : List Use → Device → Device
run [] d = d
run (u ∷ us) d = run us (apply u d)

-- The players that use the device in the end, when `n` use it at first: each `open` succeeds and no
-- player closes that has not opened.
abbrev pub Balanced : ℕ → List Use → ℕ → Type 0
Balanced n [] m = n ≡ m
Balanced n (opens sdl ∷ us) m = Works sdl × Balanced (suc n) us m
Balanced zero (closes ∷ us) m = ⊥
Balanced (suc n) (closes ∷ us) m = Balanced n us m

-- When SDL has a device and every player opens it before closing it, the device is open exactly
-- while someone uses it, and the count is the number of those.
pub run-Used :
    (n m : ℕ) (us : List Use) (d : Device) → Used n d → Balanced n us m → Used m (run us d)
unfolding run
run-Used n m [] d u b = subst (λ k. Used k d) b u
run-Used n m (opens sdl ∷ us) d u (w, b) =
    run-Used (suc n) m us (open_audio sdl true d).2 (open-Used n sdl d w u) b
run-Used zero m (closes ∷ us) d u b = elim b [ ]
run-Used (suc n) m (closes ∷ us) d u b = run-Used n m us (close_audio d) (close-Used n d u) b

-- A player whose decoder does not open closes the device all the same, which then is gone for the
-- one player that uses it.
pub failed_open_closes_device :
    (sdl : Sdl) (d : Device)
    → Used 1 d
    → ((open_audio sdl false d).0 ≡ false)
      × ((close_audio (open_audio sdl false d).2).id ≡ 0)
      × ((close_audio (open_audio sdl false d).2).format ≡ none)
unfolding open_audio close_audio
failed_open_closes_device sdl d u =
    let (at_least, f, known) = u.busy (omega arith) in
    (refl, ground (arith, u.counted), ground (arith, u.counted))
