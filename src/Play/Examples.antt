-- ===== src/Play/Examples.antt =====
-- A player of a file without audio.
use video_player_core.Base.{
  ℕ, zero, suc, ◌+◌, ◌≤◌, ◌<◌, ◌≡◌, refl, ap, true, false, Option, none, some, [], ◌∷◌, ◌++◌,
  replicate, length-replicate, subst, arith,
}
use video_player_core.Clock.{audio_master}
use video_player_core.Play.Loop.{
  Player, at_end, handle, is_over, restart, round, HasRoom, take_video, reads, starts_again,
  shows_video, Reach, here, then_step,
}
use video_player_core.Play.Markers.{markers}
use video_player_core.Play.Reach.{Begins, restarts_when_drained, no_room_without_audio}
use video_player_core.Base.Int.{pos}
use video_player_core.Audio.Device.{Sdl, s16}
use video_player_core.Audio.Sharing.{Used}
use video_player_core.Play.Streams.{video_type}
use video_player_core.Play.Opening.{File, play_file, play_file-Used}

-- The player after `n` restarts.
abbrev looped : ℕ → Player
looped n = record {
  is_alive = true;
  is_paused = false;
  step = false;
  is_loop = true;
  eof = false;
  broken = false;
  video = some 0;
  audio = none;
  video_eof = false;
  audio_eof = false;
  type = audio_master;
  video_queue = [];
  audio_queue = replicate n none;
}

looped-Begins : Begins (looped 0)
looped-Begins = record { not_at_end = refl; no_arrival = (refl, refl); no_packets = (refl, refl) }

replicate-snoc : (n : ℕ) → replicate {A = Option ℕ} n none ++ none ∷ [] ≡ replicate (suc n) none
replicate-snoc zero = refl
replicate-snoc (suc n) = ap (λ xs. none ∷ xs) (replicate-snoc n)

-- The end of the file is read and shown.
abbrev ended : ℕ → Player
ended n = record (looped n) {
  eof = true;
  video_eof = true;
  audio_queue = replicate n none ++ none ∷ [];
}

to_end :
    {m : ℕ} (n : ℕ)
    → n < 2047
    → Reach m (looped 0) (looped n)
    → Reach (m + 0 + 0) (looped 0) (ended n)
unfolding round handle take_video HasRoom
to_end n small r =
    then_step
      (then_step r (
        reads at_end refl refl refl
          (λ running at. (omega arith, omega (arith, length-replicate {A = Option ℕ} n none)))))
      (shows_video refl refl)

again :
    (n : ℕ)
    → Reach (n + 0 + 0) (looped 0) (ended n)
    → Reach (n + 0 + 0 + 1) (looped 0) (looped (suc n))
unfolding round restart is_over
again n r =
    subst (λ q. Reach (n + 0 + 0 + 1) (looped 0) (record (looped n) { audio_queue = q }))
      (replicate-snoc n) (then_step r (starts_again at_end refl refl refl))

loops : (n : ℕ) → n ≤ 2047 → Reach n (looped 0) (looped n)
loops zero small = here
loops (suc n) small =
    let same : n + 0 + 0 + 1 ≡ suc n = omega arith in
    subst (λ k. Reach k (looped 0) (looped (suc n))) same
      (again n (to_end n (omega arith) (loops n (omega arith))))

restarts_example :
    ((ended 0).video ≡ some 0 → markers (ended 0).video_queue ≡ 0)
    × ((ended 0).audio ≡ some 0 → markers (ended 0).audio_queue ≡ 0)
unfolding is_over
restarts_example = restarts_when_drained 0 looped-Begins (to_end 0 (omega arith) here) refl

no_room_example : ¬ HasRoom at_end (looped 2047)
no_room_example = no_room_without_audio looped-Begins (loops 2047 (omega arith)) refl refl

-- A file without audio beside a player that uses the device
abbrev silent_file : File
silent_file = record {
  opens = true;
  finds_info = true;
  media = video_type ∷ [];
  video_opens = true;
  audio_opens = false;
}

abbrev working : Sdl
working = record { was_init = true; init_ok = true; id = 2; format = some s16 }

play_file_example :
    Used 0 (play_file working silent_file (record { format = some s16; id = 2; count = pos 1 })).1
play_file_example =
    play_file-Used 0 working silent_file (record { format = some s16; id = 2; count = pos 1 })
      (record { ready = refl; device = omega arith; supported = (s16, refl) })
      (record {
        counted = refl;
        idle = λ e. absurd (omega arith);
        busy = λ used. (omega arith, s16, refl);
      })
