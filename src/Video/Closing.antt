-- ===== src/Video/Closing.antt =====
-- When `close` returns, and when it never does.
use video_player_core.Base.{
  ℕ, ◌+◌, ◌≡◌, refl, sym, subst, true, ◌&&◌, false, Option, none, some, List, [], ◌∷◌, ◌++◌, length,
  arith, inl, inr, Bool-cases,
}
use video_player_core.Double.{Double}
use video_player_core.Clock.{ClockSync, cal_video_delay, reset}
use video_player_core.Clock.Restart.{IsUnstarted, unstarted, reset-IsUnstarted}
use video_player_core.Video.Shutdown.{
  Decoding, between, hands_on, finished, Displaying, idle, holds, ended, joins_decoder,
  joins_display, closed, frame_bound, pictures, Picture, Playback, open_video, show_frame, Step,
  decodes, puts, has_put, stops, takes, shows, ends, resets, closes, has_joined_decoder,
  has_joined_display, Reach, here, then_step,
}

pictures-append :
    {F : Type 0} (fs gs : List (Option F)) → pictures (fs ++ gs) ≡ pictures fs + pictures gs
pictures-append [] gs = omega arith
pictures-append (none ∷ fs) gs = pictures-append fs gs
pictures-append (some f ∷ fs) gs = omega (arith, pictures-append fs gs)

-- The pictures that a task has in its hands
abbrev pub in_task : {F : Type 0} → Decoding F → ℕ
in_task between = 0
in_task (hands_on fs) = pictures fs
in_task finished = 0

abbrev pub in_display : {F : Type 0} → Displaying F → ℕ
in_display idle = 0
in_display (holds f) = 1
in_display ended = 0

module _ {d : Double} where
  open d use {Value}

  -- Every picture is in one place, and `close` is no further than the tasks let it.
  abbrev pub Kept : Playback d → Type 0
  Kept s =
      (s.made ≡ s.freed + pictures s.frames + in_task s.decoding + in_display s.displaying)
      × (s.closing ≡ joins_display → s.decoding ≡ finished)
      × (s.closing ≡ closed → (s.decoding ≡ finished) × (s.displaying ≡ ended) × (s.frames ≡ []))

  show_frame-Kept :
      (s : Playback d) (now : Value) (f : Picture d)
      → s.displaying ≡ holds f
      → Kept s
      → Kept (show_frame d now f s)
  unfolding show_frame
  show_frame-Kept s now (pts, duration) held (kept, joined, back) =
      let next = cal_video_delay now pts duration s.sync in
      elim (Bool-cases (d.lt d.nought next.0 && s.alive)) [
        | inl waits ↦
            (ground arith, λ e. ground (arith, joined), λ e. absurd (ground (arith, back)))
        | inr due ↦ (ground arith, λ e. ground (arith, joined), λ e. absurd (ground (arith, back)))
      ]

  Step-Kept : (s : Playback d) {t : Playback d} → Step d s t → Kept s → Kept t
  Step-Kept s (decodes fs at alive) (kept, joined, back) = (
    ground arith,
    λ e. absurd (ground (arith, joined e)),
    λ e. absurd (ground (arith, (back e).0)),
  )
  Step-Kept s (puts f fs hands room) (kept, joined, back) = (
    ground (arith, pictures-append s.frames (f ∷ [])),
    λ e. absurd (ground (arith, joined e)),
    λ e. absurd (ground (arith, (back e).0)),
  )
  Step-Kept s (has_put done) (kept, joined, back) = (
    ground arith,
    λ e. absurd (ground (arith, joined e)),
    λ e. absurd (ground (arith, (back e).0)),
  )
  Step-Kept s (stops at alive) (kept, joined, back) =
      (ground arith, λ e. refl, λ e. absurd (ground (arith, (back e).0)))
  Step-Kept s (takes none fs at alive queue) (kept, joined, back) =
      (ground arith, λ e. joined e, λ e. absurd (ground (arith, (back e).1)))
  Step-Kept s (takes (some f) fs at alive queue) (kept, joined, back) =
      (ground arith, λ e. joined e, λ e. absurd (ground (arith, (back e).1)))
  Step-Kept s (shows now f held) (kept, joined, back) =
      show_frame-Kept s now f held (kept, joined, back)
  Step-Kept s (ends at alive) (kept, joined, back) =
      (ground arith, λ e. joined e, λ e. absurd (ground (arith, (back e).1)))
  Step-Kept s (resets at) (kept, joined, back) = (kept, joined, back)
  Step-Kept s (closes at) (kept, joined, back) =
      (kept, λ e. absurd (ground arith), λ e. absurd (ground arith))
  Step-Kept s (has_joined_decoder at done) (kept, joined, back) =
      (kept, λ e. done, λ e. absurd (ground arith))
  Step-Kept s (has_joined_display at done) (kept, joined, back) =
      (ground arith, λ e. absurd (ground arith), λ e. (joined at, done, refl))

  Reach-Kept : (s : Playback d) {t : Playback d} → Reach d s t → Kept s → Kept t
  Reach-Kept s here k = k
  Reach-Kept s (then_step {t = t} r st) k = Step-Kept t st (Reach-Kept s r k)

  -- When `close` has returned, both threads have ended, no frame is left in the queue, and every
  -- picture that the codec gave has been freed once.
  pub close_lem :
      (sync : ClockSync d) {s : Playback d}
      → Reach d (open_video d sync) s
      → s.closing ≡ closed
      → (s.decoding ≡ finished) × (s.displaying ≡ ended) × (s.frames ≡ []) × (s.freed ≡ s.made)
  close_lem sync r e =
      let (kept, joined, back) =
        Reach-Kept (open_video d sync) r
          (refl, λ e. absurd (ground arith), λ e. absurd (ground arith)) in
      let (stopped, over, none_left) = back e in (stopped, over, none_left, ground arith)

  -- The display thread waits for a clock that never starts, the queue is full, and the decoder's task
  -- has one more frame to put into it.
  abbrev pub Blocked : Playback d → Type 0
  Blocked s =
      IsUnstarted s.sync.audio
      × (s.alive ≡ true)
      × ((f : Picture d) × (s.displaying ≡ holds f))
      × ((f : Option (Picture d)) × (fs : List (Option (Picture d))) × (s.decoding
            ≡ hands_on (f ∷ fs)))
      × (length s.frames ≡ frame_bound)
      × (s.closing ≡ joins_decoder)

  show_frame_waits :
      (s : Playback d) (now : Value) (f : Picture d)
      → IsUnstarted s.sync.audio
      → s.alive ≡ true
      → let sync = (cal_video_delay now f.0 f.1 s.sync).1 in
        IsUnstarted sync.audio × (show_frame d now f s ≡ record s { sync = sync })
  unfolding show_frame
  show_frame_waits s now (pts, duration) u going =
      let (delay, u') = unstarted now pts duration s.sync u in
      (u', ground (arith, delay, d.wait_is_positive))

  Step-Blocked : (s : Playback d) {t : Playback d} → Step d s t → Blocked s → Blocked t
  Step-Blocked s (decodes fs at alive) (u, going, (f, shown), (g, gs, waits), full, before) =
      absurd (ground arith)
  Step-Blocked s (puts g' gs' hands room) (u, going, (f, shown), (g, gs, waits), full, before) =
      absurd (ground arith)
  Step-Blocked s (has_put done) (u, going, (f, shown), (g, gs, waits), full, before) =
      absurd (ground arith)
  Step-Blocked s (stops at alive) (u, going, (f, shown), (g, gs, waits), full, before) =
      absurd (ground arith)
  Step-Blocked s (takes f' fs at alive queue) (u, going, (f, shown), (g, gs, waits), full, before) =
      absurd (ground arith)
  Step-Blocked s (shows now f' held) (u, going, (f, shown), (g, gs, waits), full, before) =
      let (u', same) = show_frame_waits s now f' u going in
      subst Blocked (sym same) (u', going, (f, shown), (g, gs, waits), full, before)
  Step-Blocked s (ends at alive) (u, going, (f, shown), (g, gs, waits), full, before) =
      absurd (ground arith)
  Step-Blocked s (resets at) (u, going, shown, waits, full, before) = absurd (ground arith)
  Step-Blocked s (closes at) (u, going, shown, waits, full, before) = absurd (ground arith)
  Step-Blocked s (has_joined_decoder at done) (u, going, (f, shown), (g, gs, waits), full, before) =
      absurd (ground arith)
  Step-Blocked s (has_joined_display at done) (u, going, shown, waits, full, before) =
      absurd (ground arith)

  Reach-Blocked : (s : Playback d) {t : Playback d} → Reach d s t → Blocked s → Blocked t
  Reach-Blocked s here b = b
  Reach-Blocked s (then_step {t = t} r st) b = Step-Blocked t st (Reach-Blocked s r b)

  -- `close` was called when the display thread held the first picture after `reset`, the second was in
  -- the queue, and the decoder's task had the third.
  abbrev pub held_up : ClockSync d → Picture d → Picture d → Picture d → Playback d
  held_up sync f g h = record (open_video d (reset sync)) {
    decoder_alive = false;
    frames = some g ∷ [];
    decoding = hands_on (some h ∷ []);
    displaying = holds f;
    closing = joins_decoder;
    made = 3;
  }

  reaches_held_up :
      (sync : ClockSync d) (f g h : Picture d) → Reach d (open_video d sync) (held_up sync f g h)
  reaches_held_up sync f g h =
      then_step
        (then_step
          (then_step
            (then_step
              (then_step (then_step here (resets refl))
                (decodes (some f ∷ some g ∷ some h ∷ []) refl refl))
              (puts (some f) (some g ∷ some h ∷ []) refl (omega arith)))
            (takes (some f) [] refl refl refl))
          (puts (some g) (some h ∷ []) refl (omega arith)))
        (closes refl)

  -- A video without audio that has started over gets into a state in which `close` waits for the
  -- decoder's task for ever, whatever happens and however often the display thread looks at the
  -- clock: the task waits for room in the queue, and the thread for an audio clock that never starts.
  pub close_never_returns :
      (sync : ClockSync d) (f g h : Picture d) {t : Playback d}
      → Reach d (held_up sync f g h) t
      → Reach d (open_video d sync) (held_up sync f g h) × (t.closing ≡ joins_decoder)
  close_never_returns sync f g h r =
      let (u, going, shown, waits, full, before) =
        Reach-Blocked (held_up sync f g h) r
          (reset-IsUnstarted sync, refl, (f, refl), (some h, [], refl), refl, refl) in
      (reaches_held_up sync f g h, before)
