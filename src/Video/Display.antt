-- ===== src/Video/Display.antt =====
-- src/video.cpp, `_displayThread` from the frame on: the wait until it is due, and what becomes of it.
use video_player_core.Base.{
  Bool, true, false, ◌&&◌, Option, none, some, List, [], ◌∷◌, if◌then◌else◌,
}
use video_player_core.Double.{Double}
use video_player_core.Clock.{ClockSync, cal_video_delay, update_video_pts}

module _ (d : Double) where
  open d use {Value, nought, tenth, lt}

  -- `sleeps` are the arguments of `co_sleep`, in seconds.
  pub record Shown : Type 0 where
    pub sleeps : List Value
    pub presented : Bool
    pub sync : ClockSync d

  -- After the wait: a late frame is dropped.
  unfoldable pub finish : Value → Value → Value → ClockSync d → Shown
  finish now pts delay s =
      if lt delay nought
      then record { sleeps = []; presented = false; sync = s }
      else record { sleeps = []; presented = true; sync = update_video_pts now pts s }

  abbrev pub sleep_first : Value → Option Shown → Option Shown
  sleep_first delay none = none
  sleep_first delay (some r) = some (record r { sleeps = delay ∷ r.sleeps })

  abbrev pub clip : Value → Value
  clip delay = if lt tenth delay then tenth else delay

  -- The loop. Each turn reads `_isAlive` and the time; `none` is a wait that still goes on.
  unfoldable pub wait : List (Bool × Value) → Value → Value → Value → ClockSync d → Option Shown
  wait [] pts duration delay s = none
  wait ((alive, now) ∷ turns) pts duration delay s =
      let next = cal_video_delay now pts duration s in
      let rest = wait turns pts duration next.0 next.1 in
      if lt nought delay && alive
      then sleep_first (clip delay) rest
      else some (finish now pts delay s)

  -- A frame from the queue, at the time `now`
  unfoldable pub display : Value → List (Bool × Value) → Value → Value → ClockSync d → Option Shown
  display now turns pts duration s =
      let first = cal_video_delay now pts duration s in wait turns pts duration first.0 first.1
