-- ===== src/Audio/Work.antt =====
-- What is left to do before `close` can return, and the step that leaves less.
use video_player_core.Base.{
  ℕ, zero, suc, ◌+◌, ◌*◌, ◌<◌, ◌≡◌, refl, true, false, Option, none, some, List, [], ◌∷◌, ◌++◌,
  length, arith, ◌-◌, min, ◌==◌, ◌&&◌, not, inl, inr, Bool-cases, ltb,
}
use video_player_core.Audio.Shutdown.{
  Decoding, between, hands_on, finished, Displaying, idle, fills, drains, ended, Closing, playing,
  joins_decoder, joins_display, closed, frame_bound, block_bound, Playback, take_next, fill_round,
  Step, puts, has_put, stops, takes, fills_block, has_filled, has_drained, plays, ends, closes,
  has_joined_decoder, has_joined_display,
}

-- What is left to do before `close` can return.
abbrev pub frame_work : Option ℕ → ℕ
frame_work none = 3
frame_work (some n) = 2 * n + 2

abbrev pub queue_work : List (Option ℕ) → ℕ
queue_work [] = 0
queue_work (f ∷ fs) = frame_work f + queue_work fs

abbrev pub decoding_work : Decoding → ℕ
decoding_work between = 1
decoding_work (hands_on fs) = 2 + queue_work fs + length fs
decoding_work finished = 0

abbrev pub displaying_work : Displaying → ℕ
displaying_work idle = 1
displaying_work (fills n) = 2 * n + 2
displaying_work drains = 2
displaying_work ended = 0

abbrev pub closing_work : Closing → ℕ
closing_work playing = 3
closing_work joins_decoder = 2
closing_work joins_display = 1
closing_work closed = 0

abbrev pub work : Playback → ℕ
work s =
    queue_work s.frames
    + s.blocks
    + decoding_work s.decoding
    + displaying_work s.displaying
    + closing_work s.closing

queue_work-append :
    (fs : List (Option ℕ)) (f : Option ℕ) → queue_work (fs ++ f ∷ []) ≡ queue_work fs + frame_work f
queue_work-append [] f = omega arith
queue_work-append (g ∷ fs) f = omega (arith, queue_work-append fs f)

-- What the flags of the threads say about `close`.
pub record Agrees (size : ℕ) (s : Playback) : Type 0 where
  pub plays_on : s.closing ≡ playing → s.alive ≡ true
  pub decoder_asked : s.closing ≡ joins_decoder → s.decoder_alive ≡ false
  pub still_alive : s.closing ≡ joins_decoder → s.alive ≡ true
  pub told : s.closing ≡ joins_display → s.alive ≡ false
  pub goes_on : s.displaying ≡ ended → s.alive ≡ false
  pub begun : s.written < size

-- A step that leaves less to do, when the device runs and the clock lets every block pass
abbrev pub Next : ℕ → Playback → Type 0
Next size s = (t : Playback) × Step size true true s t × (work t < work s)

plays_next : (size : ℕ) (s : Playback) → 0 < s.blocks → Next size s
plays_next size s some_left =
    elim s.blocks as (λ n. s.blocks ≡ n → Next size s) [
      | zero ↦ λ e. absurd (omega arith)
      | suc n ↦ λ e. (record s { blocks = n }, plays n refl e, ground arith)
    ]
      refl

-- A round of the loop over a frame leaves less: it writes a sample at least, and ends one block at
-- most.
fill_round-work :
    (size n : ℕ) (s : Playback)
    → s.written < size
    → s.displaying ≡ fills (suc n)
    → work (fill_round size (suc n) s) < work s
unfolding fill_round
fill_round-work size n s begun e =
    elim (Bool-cases (s.written + min (size - s.written) (suc n) == size)) [
      | inl full ↦ ground arith
      | inr part ↦ ground arith
    ]

-- The display thread has a step, or the callback has one for it.
display_next :
    (size : ℕ) (s : Playback)
    → Agrees size s
    → (s.displaying ≡ idle → Next size s)
    → (s.displaying ≡ ended → Next size s)
    → Next size s
display_next size s a at_idle at_end =
    elim s.displaying as (λ x. s.displaying ≡ x → Next size s) [
      | idle ↦ at_idle
      | fills n ↦ fills_next n
      | drains ↦ drains_next
      | ended ↦ at_end
    ]
      refl
  where
    fills_next : (n : ℕ) → s.displaying ≡ fills n → Next size s
    fills_next zero e = (record s { displaying = idle }, has_filled e, ground arith)
    fills_next (suc n) e = elim (Bool-cases (s.written == 0 && not (ltb s.blocks block_bound))) [
      | inl full ↦ plays_next size s (ground arith)
      | inr room ↦ (
        fill_round size (suc n) s,
        fills_block n e (λ at_start. (ground arith, refl)),
        fill_round-work size n s a.begun e,
      )
    ]

    drains_next : s.displaying ≡ drains → Next size s
    drains_next e = elim (Bool-cases (ltb 0 s.blocks)) [
      | inl some_left ↦ plays_next size s (ground arith)
      | inr none_left ↦ (record s { displaying = idle }, has_drained e (ground arith), ground arith)
    ]

-- A frame of the queue is taken.
takes_next :
    (size : ℕ) (s : Playback)
    → s.displaying ≡ idle
    → s.alive ≡ true
    → 0 < length s.frames
    → Next size s
takes_next size s e alive some_left =
    elim s.frames as (λ fs. s.frames ≡ fs → Next size s) [
      | [] ↦ λ q. absurd (ground arith)
      | f ∷ fs ↦ taken f fs
    ]
      refl
  where
    taken : (f : Option ℕ) (fs : List (Option ℕ)) → s.frames ≡ f ∷ fs → Next size s
    taken none fs q = (take_next none fs s, takes none fs e alive q, ground arith)
    taken (some n) fs q = (take_next (some n) fs s, takes (some n) fs e alive q, ground arith)

decoder_next : (size : ℕ) (s : Playback) → Agrees size s → s.closing ≡ joins_decoder → Next size s
decoder_next size s a c =
    elim s.decoding as (λ x. s.decoding ≡ x → Next size s) [
      | between ↦ λ e. (record s { decoding = finished }, stops e (a.decoder_asked c), ground arith)
      | hands_on fs ↦ hands_on_next fs
      | finished ↦ λ e. (
        record s { closing = joins_display; alive = false },
        has_joined_decoder c e,
        ground arith,
      )
    ]
      refl
  where
    hands_on_next : (fs : List (Option ℕ)) → s.decoding ≡ hands_on fs → Next size s
    hands_on_next [] e = (record s { decoding = between }, has_put e, ground arith)
    hands_on_next (f ∷ fs) e = elim (Bool-cases (ltb (length s.frames) frame_bound)) [
      | inl room ↦ (
        record s { frames = s.frames ++ f ∷ []; decoding = hands_on fs },
        puts f fs e (ground arith),
        ground (arith, queue_work-append s.frames f),
      )
      | inr full ↦
          display_next size s a (λ at. takes_next size s at (a.still_alive c) (ground arith))
            (λ at. absurd (ground (arith, a.goes_on at, a.still_alive c)))
    ]

close_next : (size : ℕ) (s : Playback) → Agrees size s → s.closing ≡ joins_display → Next size s
close_next size s a c =
    display_next size s a
      (λ at. (record s { displaying = ended }, ends at (a.told c), ground arith))
      (λ at. (record s { frames = []; closing = closed }, has_joined_display c at, ground arith))

-- A step of a player that is not closed
pub next : (size : ℕ) (s : Playback) → Agrees size s → ¬ (s.closing ≡ closed) → Next size s
next size s a open_still =
    elim s.closing as (λ c. s.closing ≡ c → Next size s) [
      | playing ↦
          λ e. (record s { closing = joins_decoder; decoder_alive = false }, closes e, ground arith)
      | joins_decoder ↦ decoder_next size s a
      | joins_display ↦ close_next size s a
      | closed ↦ λ e. absurd (open_still e)
    ]
      refl
