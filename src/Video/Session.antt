-- ===== src/Video/Session.antt =====
-- src/video.cpp, `setPixelformat`, `_present` and the end of `close`, one after the other: `_swsContext`
-- and the scratch frame live on from call to call, and `close` frees them.
use video_player_core.Base.{
  ℕ, ◌≡◌, refl, ap, ap₂, ◌∙◌, ◌==◌, arith, inl, inr, Bool-cases, Option-cases, Option, none, some,
  List, [], ◌∷◌,
}
use video_player_core.Video.{Frame, Video, Answers, present}
use video_player_core.Video.Present.{wanted, Sound, works, present_lem}

unfoldable pub set_pixelformat : Option ℕ → Video → Video
set_pixelformat p v = record v { pixel_format = p }

-- `sws_freeContext` and `av_frame_free`
unfoldable pub free_scratch : Video → Video
free_scratch v = record v { scratch = none }

pub data Call : Type 0 where
  presents : Frame → Call
  sets : Option ℕ → Call
  frees : Call

-- What `_onFrame` gets, call by call, when the library's calls have these answers.
unfoldable pub run_calls : Answers → List Call → Video → List (Option Frame)
run_calls a [] v = []
run_calls a (presents f ∷ cs) v = let (shown, v') = present a f v in shown ∷ run_calls a cs v'
run_calls a (sets p ∷ cs) v = run_calls a cs (set_pixelformat p v)
run_calls a (frees ∷ cs) v = run_calls a cs (free_scratch v)

-- The frames as a player without a scratch frame presents them: only the format that was last asked
-- for counts.
abbrev pub asked_for : List Call → Option ℕ → List (Option Frame)
asked_for [] p = []
asked_for (presents f ∷ cs) p = some (wanted p f) ∷ asked_for cs p
asked_for (sets q ∷ cs) p = asked_for cs q
asked_for (frees ∷ cs) p = asked_for cs p

present-pixel_format : (f : Frame) (v : Video) → (present works f v).1.pixel_format ≡ v.pixel_format
unfolding present
present-pixel_format f v =
    elim v.pixel_format as (λ c. v.pixel_format ≡ c → (present works f v).1.pixel_format ≡ c) [
      | none ↦ λ e. ground arith
      | some p ↦ λ e. elim (Bool-cases (p == f.format)) [
        | inl equal ↦ ground arith
        | inr other ↦ elim (Option-cases v.scratch) [
          | inl fresh ↦ ground arith
          | inr (s, kept) ↦ ground arith
        ]
      ]
    ]
      refl

-- When the calls of the library succeed, the scratch frame that is kept from frame to frame cannot be
-- told from outside: every frame is presented once, in order, with its size and times, and in the
-- format that was asked for last.
pub run_calls_lem :
    (cs : List Call) (v : Video)
    → Sound v.scratch
    → run_calls works cs v ≡ asked_for cs v.pixel_format
unfolding run_calls set_pixelformat free_scratch
run_calls_lem [] v sound = refl
run_calls_lem (presents f ∷ cs) v sound =
    let (shown, sound') = present_lem f v.pixel_format v.scratch sound in
    ap₂ (λ (x : Option Frame) (xs : List (Option Frame)). x ∷ xs) shown
      (run_calls_lem cs (present works f v).1 sound'
        ∙ ap (λ p. asked_for cs p) (present-pixel_format f v))
run_calls_lem (sets p ∷ cs) v sound = run_calls_lem cs (set_pixelformat p v) sound
run_calls_lem (frees ∷ cs) v sound = run_calls_lem cs (free_scratch v) tt
