-- ===== src/WaitGroup/Drain.antt =====
-- Once the tasks have ended, every waiter gets to return by itself.
use video_player_core.Base.{ℕ, zero, suc, ◌+◌, ◌≡◌, true, arith, refl, ◌∙◌}
use video_player_core.WaitGroup.{is_zero}
use video_player_core.WaitGroup.World.{
  Holder, free, checking, parking, waking, World, Step, lock_to_wake, notify_all, spin_return,
  lock_to_check, check_return, sleep, GoesOn, Settles, at_rest, goes_on, Reach,
}
use video_player_core.WaitGroup.Wakeup.{Inv, Step-Inv, Reach-Inv}

-- The callers of `Wait`, those that have returned included.
abbrev held : Holder → ℕ
held free = 0
held checking = 1
held parking = 1
held waking = 0

abbrev pub callers : World → ℕ
callers w = w.released + w.spinning + w.locking + w.asleep + held w.holder

Settles-trans : {w u v : World} → Settles w u → Settles u v → Settles w v
Settles-trans r at_rest = r
Settles-trans r (goes_on s t own) = goes_on (Settles-trans r s) t own

-- Steps among the callers of `Wait` and the notifiers, with no task left.
record Leads (w v : World) : Type 0 where
  steps : Settles w v
  inv : Inv v
  idle : v.running ≡ 0
  same : callers v ≡ callers w

Leads-refl : {w : World} → Inv w → w.running ≡ 0 → Leads w w
Leads-refl i z = record { steps = at_rest; inv = i; idle = z; same = refl }

Leads-trans : {w u v : World} → Leads w u → Leads u v → Leads w v
Leads-trans l m = record {
  steps = Settles-trans l.steps m.steps;
  inv = m.inv;
  idle = m.idle;
  same = m.same ∙ l.same;
}

Leads-Step :
    {w v : World}
    → Inv w
    → (s : Step w v) → GoesOn s
    → v.running ≡ 0
    → callers v ≡ callers w
    → Leads w v
Leads-Step i s own z e = record {
  steps = goes_on at_rest s own;
  inv = Step-Inv s i;
  idle = z;
  same = e;
}

zero_counter : {w : World} → Inv w → w.running ≡ 0 → is_zero w.counter ≡ true
zero_counter i z = ground (arith, i.counted)

-- Whoever holds the lock gives it up.
unlock : (w : World) → Inv w → w.running ≡ 0 → (v : World) × Leads w v × (v.holder ≡ free)
unlock w i z = at w.holder refl
  where
    at : (h : Holder) → w.holder ≡ h → (v : World) × Leads w v × (v.holder ≡ free)
    at free e = (w, Leads-refl i z, e)
    at checking e = (_, Leads-Step i (check_return e (zero_counter i z)) tt z (ground arith), refl)
    at parking e = (_, Leads-Step i (sleep e) tt z (ground arith), refl)
    at waking e = (_, Leads-Step i (notify_all e) tt z (ground arith), refl)

-- A sleeper has a notifier, which gets the lock and wakes all.
rouse :
    (w : World)
    → Inv w
    → w.running ≡ 0
    → w.holder ≡ free
    → (v : World) × Leads w v × (v.holder ≡ free) × (v.asleep ≡ 0)
rouse w i z f = at w.asleep w.notifying refl refl
  where
    at :
        (a n : ℕ)
        → w.asleep ≡ a
        → w.notifying ≡ n
        → (v : World) × Leads w v × (v.holder ≡ free) × (v.asleep ≡ 0)
    at zero n e g = (w, Leads-refl i z, f, e)
    at (suc a) zero e g = absurd (ground (arith, i.heard))
    at (suc a) (suc n) e g =
        let l = Leads-Step i (lock_to_wake g f) tt z (ground arith) in
        (_, Leads-trans l (Leads-Step l.inv (notify_all refl) tt z (ground arith)), refl, refl)

-- With nobody asleep and the lock free, the waiters go through one after the other.
drain :
    (n m : ℕ) (w : World)
    → Inv w
    → w.running ≡ 0
    → w.holder ≡ free
    → w.asleep ≡ 0
    → w.locking ≡ n
    → w.spinning ≡ m
    → (v : World) × Leads w v × (v.released ≡ callers v)
drain zero zero w i z f a l s = (w, Leads-refl i z, ground arith)
drain zero (suc m) w i z f a l s =
    let step = Leads-Step i (spin_return s (zero_counter i z)) tt z (ground arith) in
    let (v, more, done) = drain zero m _ step.inv z f a l refl in (v, Leads-trans step more, done)
drain (suc n) m w i z f a l s =
    let lock = Leads-Step i (lock_to_check l f) tt z (ground arith) in
    let leave = Leads-Step lock.inv (check_return refl (zero_counter i z)) tt z (ground arith) in
    let (v, more, done) = drain n m _ leave.inv z refl a refl s in
    (v, Leads-trans (Leads-trans lock leave) more, done)

-- From every reachable state in which no task is running there is a way on on which all that have
-- called `Wait` return, and which takes only steps of those that are in `Wait` or in `Add`: nobody
-- calls `Wait` anew, no task starts or ends, and no sleeper wakes up without being notified.
pub all_waiters_return :
    {w : World}
    → Reach w
    → w.running ≡ 0
    → (v : World) × Settles w v × (v.running ≡ 0) × (v.released ≡ callers w)
all_waiters_return {w} r z =
    let (u, l, f) = unlock w (Reach-Inv r) z in
    let (t, m, g, a) = rouse u l.inv l.idle f in
    let (v, n, done) = drain t.locking t.spinning t m.inv m.idle g a refl refl in
    let all = Leads-trans (Leads-trans l m) n in (v, all.steps, all.idle, done ∙ all.same)
