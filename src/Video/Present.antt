-- ===== src/Video/Present.antt =====
-- What is presented.
use video_player_core.Base.{
  List, [], ◌∷◌, ℕ, ◌≡◌, ◌≢◌, refl, sym, subst, true, false, Option, none, some, if◌then◌else◌,
  ◌==◌, arith, inl, inr, ◌⊎◌, Bool-cases,
}
use video_player_core.Video.{
  Frame, Scratch, Video, Answers, new_scratch, is_fit, fit, convert, present,
}

-- The frame in the format that is asked for.
abbrev pub wanted : Option ℕ → Frame → Frame
wanted none f = f
wanted (some p) f = record f { format = p }

-- A scratch frame that was made for a size has its memory.
abbrev pub Sound : Option Scratch → Type 0
Sound none = Unit {0}
Sound (some s) = (s.format ≡ none) ⊎ (s.buffered ≡ true)

abbrev pub works : Answers
works = record { context = true; alloc = true; get_buffer = true; make_writable = true }

convert_lem :
    (f : Frame) (p : ℕ) (s : Scratch)
    → Sound (some s)
    → ((convert works f p s).0 ≡ some (record f { format = p }))
      × ((convert works f p s).1.buffered ≡ true)
unfolding convert fit is_fit
convert_lem f p s (inl no_format) = (ground arith, ground arith)
convert_lem f p s (inr buffered) = (ground arith, ground arith)

-- With a format that is asked for, and a scratch frame or none.
present_with :
    (f : Frame) (p : ℕ) (s : Option Scratch) (t : Scratch)
    → Sound (some t)
    → present works f (record { pixel_format = some p; scratch = s }) ≡ (
        if p == f.format then (some f, record { pixel_format = some p; scratch = s }) else (
          (convert works f p t).0,
          record { pixel_format = some p; scratch = some (convert works f p t).1 },
        ))
    → Sound s
    → ((present works f (record { pixel_format = some p; scratch = s })).0
        ≡ some (record f { format = p }))
      × Sound (present works f (record { pixel_format = some p; scratch = s })).1.scratch
present_with f p s t sound same sound' =
    let (shown, buffered) = convert_lem f p t sound in
    elim (Bool-cases (p == f.format)) [
      | inl equal ↦
          let is : present works f (record { pixel_format = some p; scratch = s })
              ≡ (some f, record { pixel_format = some p; scratch = s }) =
            ground arith in
          subst (λ r. (r.0 ≡ some (record f { format = p })) × Sound r.1.scratch) (sym is)
            (ground arith, sound')
      | inr other ↦
          let is : present works f (record { pixel_format = some p; scratch = s }) ≡ (
            (convert works f p t).0,
            record { pixel_format = some p; scratch = some (convert works f p t).1 },
          ) =
            ground arith in
          subst (λ r. (r.0 ≡ some (record f { format = p })) × Sound r.1.scratch) (sym is)
            (shown, inr buffered)
    ]

-- When the calls of the library succeed, `_onFrame` gets the frame in the format that is asked for,
-- with its size and its times, whatever was presented before; and the scratch frame is as sound as
-- it was.
pub present_lem :
    (f : Frame) (c : Option ℕ) (s : Option Scratch)
    → Sound s
    → ((present works f (record { pixel_format = c; scratch = s })).0 ≡ some (wanted c f))
      × Sound (present works f (record { pixel_format = c; scratch = s })).1.scratch
unfolding present
present_lem f none s sound = (refl, sound)
present_lem f (some p) none sound = present_with f p none new_scratch (inl refl) refl tt
present_lem f (some p) (some s) sound = present_with f p (some s) s sound refl sound

-- The scratch frame has the size and format that are wanted, and no memory.
abbrev Broken : Frame → ℕ → Video → Type 0
Broken f p v =
    (v.pixel_format ≡ some p)
    × ((s : Scratch) × (v.scratch ≡ some s)
        × (s.width ≡ f.width)
        × (s.height ≡ f.height)
        × (s.format ≡ some p)
        × (s.buffered ≡ false))

-- A frame of that size in another format
abbrev pub SameSize : Frame → ℕ → Frame → Type 0
SameSize f p g = (g.width ≡ f.width) × (g.height ≡ f.height) × (p ≢ g.format)

-- The frames that are presented one after the other, each with what the library answers.
unfoldable pub present_all : List (Answers × Frame) → Video → List (Option Frame)
present_all [] v = []
present_all ((a, g) ∷ gs) v = let (shown, v') = present a g v in shown ∷ present_all gs v'

abbrev pub AllSameSize : Frame → ℕ → List (Answers × Frame) → Type 0
AllSameSize f p [] = Unit {0}
AllSameSize f p ((a, g) ∷ gs) = SameSize f p g × AllSameSize f p gs

abbrev pub nothing_shown : List (Answers × Frame) → List (Option Frame)
nothing_shown [] = []
nothing_shown (g ∷ gs) = none ∷ nothing_shown gs
