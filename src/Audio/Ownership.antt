-- ===== src/Audio/Ownership.antt =====
-- The frames that `_displayThread` owns: nothing is freed twice or kept while every frame is
-- resampled, and a frame that needs no resampling is freed twice when the thread ends after it.
use video_player_core.Base.{
  ℕ, ◌+◌, ◌≤◌, ◌<◌, ◌≡◌, refl, ap, ◌∙◌, inl, inr, true, false, ◌&&◌, Option, none, some, List, [],
  ◌∷◌, if◌then◌else◌, ltb, ◌==◌, arith, Option-cases, Bool-cases, ◌++◌,
}
use video_player_core.Audio.Frames.{
  Frames, Turn, Own, resample, take_frame, free_out, display_thread,
}

-- How often the thread will free a frame: once for each time that it takes it, and as `out`.
unfoldable pub frees : ℕ → List Turn → Option ℕ → ℕ
frees i [] none = 0
frees i [] (some out) = if out == i then 1 else 0
frees i (t ∷ ts) out = (if t.frame == i then 1 else 0) + frees i ts out

abbrev pub AllResampled : List Turn → Type 0
AllResampled [] = Unit {0}
AllResampled (t ∷ ts) = (t.is_direct ≡ false) × AllResampled ts

-- The frames that will be freed are allocated and no one twice, and none that was never allocated.
pub record At (ts : List Turn) (out : Option ℕ) (h : Frames) (i : ℕ) : Type 0 where
  pub once : frees i ts out ≤ 1
  pub live : 0 < frees i ts out → h.live i ≡ true
  pub unused : h.fresh ≤ i → h.live i ≡ false

abbrev pub Sound : List Turn → Option ℕ → Frames → Type 0
Sound ts out h = (i : ℕ) → At ts out h i

frees_out :
    (i : ℕ) (ts : List Turn) (out : ℕ)
    → frees i ts (some out) ≡ frees i ts none + (if out == i then 1 else 0)
unfolding frees
frees_out i [] out = omega arith
frees_out i (t ∷ ts) out = omega (arith, frees_out i ts out)

-- A turn that resamples keeps this, for the frame that it took.
abbrev Takes : Turn → List Turn → Own → Option Own → Type 0
Takes t ts o r =
    (o' : Own) × (r ≡ some o')
    × Sound ts o'.0 o'.1
    × ((i : ℕ)
        → (if ltb 0 (frees i ts o'.0) then false else o'.1.live i)
          ≡ (if ltb 0 (frees i (t ∷ ts) o.0) then false else o.1.live i))

take_frame-none :
    (t : Turn) (ts : List Turn) (h : Frames)
    → t.is_direct ≡ false
    → Sound (t ∷ ts) none h
    → Takes t ts (none, h) (take_frame t (none, h))
unfolding take_frame resample frees
take_frame-none t ts h away s = elim (Bool-cases (t.has_context && t.allocates)) [
  | inl allocated ↦ elim (Option-cases (take_frame t (none, h))) [
    | inl failed ↦ absurd (ground (arith, (s t.frame).live, (s t.frame).once, (s h.fresh).unused))
    | inr ((none, h'), took) ↦ absurd (ground (arith, (s t.frame).live))
    | inr ((some out, h'), took) ↦ (
      (some out, h'),
      took,
      λ i. record {
        once =
            ground
              (arith, (s i).once, (s h.fresh).live, (s h.fresh).unused, frees_out i ts h.fresh);
        live = λ lt. ground (
          arith,
          (s i).once,
          (s i).live,
          (s h.fresh).live,
          (s h.fresh).unused,
          frees_out i ts h.fresh,
        );
        unused = λ le. ground (arith, (s i).unused);
      },
      λ i. ground (arith, (s i).once, (s h.fresh).live, (s h.fresh).unused, frees_out i ts h.fresh),
    )
  ]
  | inr not_allocated ↦ elim (Option-cases (take_frame t (none, h))) [
    | inl failed ↦ absurd (ground (arith, (s t.frame).live))
    | inr ((some out, h'), took) ↦ absurd (ground (arith, (s t.frame).live))
    | inr ((none, h'), took) ↦ (
      (none, h'),
      took,
      λ i. record {
        once = ground (arith, (s i).once);
        live = λ lt. ground (arith, (s i).once, (s i).live);
        unused = λ le. ground (arith, (s i).unused);
      },
      λ i. ground (arith, (s i).once),
    )
  ]
]

take_frame-some :
    (t : Turn) (ts : List Turn) (out : ℕ) (h : Frames)
    → t.is_direct ≡ false
    → Sound (t ∷ ts) (some out) h
    → Takes t ts (some out, h) (take_frame t (some out, h))
unfolding take_frame resample frees
take_frame-some t ts out h away s = elim (Option-cases (take_frame t (some out, h))) [
  | inl failed ↦ absurd (ground (arith, (s t.frame).live, (s out).live, frees_out out ts out))
  | inr ((none, h'), took) ↦
      absurd (ground (arith, (s t.frame).live, (s out).live, frees_out out ts out))
  | inr ((some out', h'), took) ↦
      let kept : out' ≡ out =
        ground (arith, (s t.frame).live, (s out).live, frees_out out ts out) in
      (
        (some out', h'),
        took,
        λ i. record {
          once = ground (arith, (s i).once, ap (λ o. frees i ts (some o)) kept);
          live = λ lt. ground (arith, (s i).once, (s i).live, ap (λ o. frees i ts (some o)) kept);
          unused = λ le. ground (arith, (s i).unused);
        },
        λ i. ground (arith, (s i).once, ap (λ o. frees i ts (some o)) kept),
      )
]

-- While every frame that comes needs resampling, whatever the resampler and the allocator answer, no
-- frame is touched or freed when it is not allocated, and after the end the frames that the thread
-- took and the one that it allocated are free and all others as they were.
pub display_thread_lem :
    (ts : List Turn) (out : Option ℕ) (h : Frames)
    → AllResampled ts
    → Sound ts out h
    → (h' : Frames) × (display_thread ts (out, h) ≡ some h')
      × ((i : ℕ) → h'.live i ≡ (if ltb 0 (frees i ts out) then false else h.live i))
unfolding display_thread free_out frees
display_thread_lem [] none h away s = (h, refl, λ i. refl)
display_thread_lem [] (some out) h away s = elim (Option-cases (display_thread [] (some out, h))) [
  | inl failed ↦ absurd (ground (arith, (s out).live))
  | inr (h', ended) ↦ (h', ended, λ i. ground (arith, (s out).live))
]
display_thread_lem (t ∷ ts) none h (direct, away) s =
    let ((out', h'), took, sound, same) = take_frame-none t ts h direct s in
    let (h2, ended, freed) = display_thread_lem ts out' h' away sound in
    (
      h2,
      ap (λ r. elim r [ none ↦ none | some o' ↦ display_thread ts o' ]) took ∙ ended,
      λ i. freed i ∙ same i,
    )
display_thread_lem (t ∷ ts) (some out) h (direct, away) s =
    let ((out', h'), took, sound, same) = take_frame-some t ts out h direct s in
    let (h2, ended, freed) = display_thread_lem ts out' h' away sound in
    (
      h2,
      ap (λ r. elim r [ none ↦ none | some o' ↦ display_thread ts o' ]) took ∙ ended,
      λ i. freed i ∙ same i,
    )

direct_last :
    (t : Turn) (out : Option ℕ) (h : Frames)
    → t.is_direct ≡ true
    → display_thread (t ∷ []) (out, h) ≡ none
unfolding display_thread take_frame free_out
direct_last t out h direct = ground arith

-- If the last frame before the end needs no resampling, the thread faults, whatever came before: that
-- frame is `out` when it is freed, and is freed again at the end.
pub direct_frame_faults :
    (ts : List Turn) (t : Turn) (out : Option ℕ) (h : Frames)
    → t.is_direct ≡ true
    → display_thread (ts ++ t ∷ []) (out, h) ≡ none
unfolding display_thread
direct_frame_faults [] t out h direct = direct_last t out h direct
direct_frame_faults (x ∷ ts) t out h direct = elim (Option-cases (take_frame x (out, h))) [
  | inl failed ↦ ground arith
  | inr ((out', h'), took) ↦
      ap (λ r. elim r [ none ↦ none | some o' ↦ display_thread (ts ++ t ∷ []) o' ]) took
      ∙ direct_frame_faults ts t out' h' direct
]
