-- ===== src/Video/Waiting.antt =====
-- How long a frame waits and what becomes of it.
use video_player_core.Base.{
  ◌++◌, if◌then◌else◌, ◌≡◌, refl, ◌∙◌, ap, sym, subst, Bool, true, false, not, ◌&&◌, ◌||◌, none,
  some, List, [], ◌∷◌, arith, Bool-cases, Option-cases, inl, inr,
}
use video_player_core.Double.{Double}
use video_player_core.Clock.{ClockSync, cal_video_delay, update_video_pts}
use video_player_core.Clock.{Call, run, reset}
use video_player_core.Clock.Restart.{
  VideoOnly, IsUnstarted, video_calls-IsUnstarted, reset-IsUnstarted, unstarted,
}
use video_player_core.Video.Display.{Shown, finish, clip, wait, display}

module _ (d : Double) where
  open d use {Value, nought, tenth, lt}

  -- No sleep is longer than a tenth of a second.
  abbrev pub Short : List Value → Type 0
  Short [] = Unit {0}
  Short (x ∷ xs) = (lt tenth x ≡ false) × Short xs

  -- The thread was told to stop at one of the turns.
  abbrev pub stopped : List (Bool × Value) → Bool
  stopped [] = false
  stopped ((alive, now) ∷ turns) = not alive || stopped turns

  -- The clock's answer and the session after it has been asked at `now` and then at each turn, always
  -- the session that the call before left.
  abbrev pub asked : Value → List (Bool × Value) → Value → Value → ClockSync d → Value × ClockSync d
  asked now [] pts duration s = cal_video_delay now pts duration s
  asked now ((alive, now') ∷ turns) pts duration s =
      asked now' turns pts duration (cal_video_delay now pts duration s).1

  -- The answers before the last one, as they are slept
  abbrev pub slept : Value → List (Bool × Value) → Value → Value → ClockSync d → List Value
  slept now [] pts duration s = []
  slept now ((alive, now') ∷ turns) pts duration s =
      let next = cal_video_delay now pts duration s in
      clip d next.0 ∷ slept now' turns pts duration next.1

  -- Each of these answers was positive, and the thread was not told to stop.
  abbrev pub Waits : Value → List (Bool × Value) → Value → Value → ClockSync d → Type 0
  Waits now [] pts duration s = Unit {0}
  Waits now ((alive, now') ∷ turns) pts duration s =
      let next = cal_video_delay now pts duration s in
      ((lt nought next.0 && alive) ≡ true) × Waits now' turns pts duration next.1

  -- The frame waited over some turns and was done with at the next one, by the answer before it.
  abbrev pub Decides : Value → List (Bool × Value) → Value → Value → ClockSync d → Shown d → Type 0
  Decides now turns pts duration s r =
      Short r.sleeps
      × ((before : List (Bool × Value)) × (alive : Bool) × (now' : Value) × (after : List
            (Bool × Value))
          × (turns ≡ before ++ (alive, now') ∷ after)
          × Waits now before pts duration s
          × (r.sleeps ≡ slept now before pts duration s)
          × ((lt nought (asked now before pts duration s).0 && alive) ≡ false)
          × (r.presented ≡ not (lt (asked now before pts duration s).0 nought))
          × (r.sync ≡ (
              if r.presented
              then update_video_pts now' pts (asked now before pts duration s).1
              else (asked now before pts duration s).1)))

  clip_short : (x : Value) → lt tenth (clip d x) ≡ false
  clip_short x = elim (Bool-cases (lt tenth x)) [
    | inl long ↦ ground (arith, d.lt_asymm tenth tenth)
    | inr short ↦ ground arith
  ]

  wait-Decides :
      (turns : List (Bool × Value)) (now pts duration : Value) (s : ClockSync d) (r : Shown d)
      → wait d turns pts duration
          (cal_video_delay now pts duration s).0
          (cal_video_delay now pts duration s).1
        ≡ some r
      → Decides now turns pts duration s r
  unfolding wait finish
  wait-Decides [] now pts duration s r e = absurd (ground arith)
  wait-Decides ((alive, now') ∷ turns) now pts duration s r e =
      let first = cal_video_delay now pts duration s in
      elim (Bool-cases (lt nought first.0 && alive)) [
        | inl sleeps ↦
            let next = cal_video_delay now' pts duration first.1 in
            elim (Option-cases (wait d turns pts duration next.0 next.1)) [
              | inl still ↦ absurd (ground arith)
              | inr (r', e') ↦
                  let (
                    short,
                    (before, alive', at, after, split, waits, sleeps', ends, shown, sync),
                  ) =
                    wait-Decides turns now' pts duration first.1 r' e' in
                  let same : r ≡ record r' { sleeps = clip d first.0 ∷ r'.sleeps } = ground arith in
                  subst (λ q. Decides now ((alive, now') ∷ turns) pts duration s q) (sym same)
                    (
                      (clip_short first.0, short),
                      (
                        (alive, now') ∷ before,
                        alive',
                        at,
                        after,
                        ap (λ ts. (alive, now') ∷ ts) split,
                        (sleeps, waits),
                        ap (λ xs. clip d first.0 ∷ xs) sleeps',
                        ends,
                        shown,
                        sync,
                      ),
                    )
            ]
        | inr over ↦
            let same : r ≡ finish d now' pts first.0 first.1 = ground arith in
            subst (λ q. Decides now ((alive, now') ∷ turns) pts duration s q) (sym same)
              (
                ground arith,
                ([], alive, now', turns, refl, tt, ground arith, over, ground arith, ground arith),
              )
      ]

  wait-ends :
      (turns : List (Bool × Value)) (pts duration delay : Value) (t : ClockSync d)
      → stopped turns ≡ true
      → (r : Shown d) × (wait d turns pts duration delay t ≡ some r)
  unfolding wait
  wait-ends [] pts duration delay t e = absurd (ground arith)
  wait-ends ((alive, now) ∷ turns) pts duration delay t e =
      elim (Bool-cases (lt nought delay && alive)) [
        | inl sleeps ↦
            let next = cal_video_delay now pts duration t in
            let (r, rest) = wait-ends turns pts duration next.0 next.1 (ground arith) in
            (record r { sleeps = clip d delay ∷ r.sleeps }, ground arith)
        | inr over ↦ (finish d now pts delay t, ground arith)
      ]

  -- A frame waits no longer than to the turn at which the thread is told to stop. When it is done
  -- with, the clock was asked first and then once at each turn, on the session as the call before
  -- left it; every answer but the last was positive, with the thread not told to stop, and was slept,
  -- a tenth of a second at most. The last one was not positive, or the thread was told to stop. The
  -- frame is dropped exactly if the last one is negative, and else updates the video clock.
  pub display_lem :
      (now : Value) (turns : List (Bool × Value)) (pts duration : Value) (s : ClockSync d)
      → (stopped turns ≡ true → (r : Shown d) × (display d now turns pts duration s ≡ some r))
        × ((r : Shown d)
            → display d now turns pts duration s ≡ some r
            → Decides now turns pts duration s r)
  unfolding display
  display_lem now turns pts duration s =
      let first = cal_video_delay now pts duration s in
      (
        λ stop. wait-ends turns pts duration first.0 first.1 stop,
        λ r e. wait-Decides turns now pts duration s r e,
      )

  waits_for_ever :
      (turns : List (Bool × Value)) (pts duration : Value) (s : ClockSync d)
      → stopped turns ≡ false
      → IsUnstarted s.audio
      → wait d turns pts duration d.hundredth s ≡ none
  unfolding wait
  waits_for_ever [] pts duration s going u = refl
  waits_for_ever ((alive, now) ∷ turns) pts duration s going u =
      let (delay, u') = unstarted now pts duration s u in
      let rest =
        waits_for_ever turns pts duration (cal_video_delay now pts duration s).1 (ground arith)
          u' in
      ground (arith, d.wait_is_positive, rest, delay)

  -- When a session with video alone has been reset, and whatever was called since, no frame is
  -- presented or dropped before the thread is told to stop.
  pub never_shown :
      (cs : List (Call d)) (now pts duration : Value) (turns : List (Bool × Value))
      (s : ClockSync d)
      → VideoOnly cs
      → stopped turns ≡ false
      → display d now turns pts duration (run cs (reset s)) ≡ none
  unfolding display
  never_shown cs now pts duration turns s only going =
      let u = video_calls-IsUnstarted cs (reset s) only (reset-IsUnstarted s) in
      let (delay, u') = unstarted now pts duration (run cs (reset s)) u in
      let next = cal_video_delay now pts duration (run cs (reset s)) in
      ap (λ x. wait d turns pts duration x next.1) delay
      ∙ waits_for_ever turns pts duration next.1 going u'
