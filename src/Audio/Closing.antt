-- ===== src/Audio/Closing.antt =====
-- When `close` can return, and when it never does.
use video_player_core.Base.{
  ℕ, zero, suc, ◌+◌, ◌-◌, ◌<◌, ◌≤◌, ◌≡◌, refl, Bool, true, false, ◌⊎◌, ◌==◌, min, Option, none,
  some, List, [], ◌∷◌, ◌++◌, arith, inl, inr, Bool-cases,
}
use video_player_core.Audio.Shutdown.{
  Decoding, between, hands_on, finished, idle, fills, ended, Closing, playing, joins_decoder,
  joins_display, closed, block_bound, Playback, open_audio_threads, take_next, fill_round, Step,
  decodes, puts, has_put, stops, takes, fills_block, has_filled, has_drained, plays, ends, closes,
  has_joined_decoder, has_joined_display, Reach, here, then_step,
}
use video_player_core.Audio.Work.{work, Agrees, next}

start-Agrees : (size : ℕ) → 0 < size → Agrees size open_audio_threads
start-Agrees size some_size = record {
  plays_on = λ e. refl;
  decoder_asked = λ e. absurd (ground arith);
  still_alive = λ e. refl;
  told = λ e. absurd (ground arith);
  goes_on = λ e. absurd (ground arith);
  begun = some_size;
}

-- What the flags say is kept when the display thread goes on.
going-Agrees :
    (size : ℕ) (s t : Playback)
    → Agrees size s
    → t.decoder_alive ≡ s.decoder_alive
    → t.alive ≡ s.alive
    → t.closing ≡ s.closing
    → (t.displaying ≡ ended → t.alive ≡ false)
    → t.written < size
    → Agrees size t
going-Agrees size s t a told alive closing at_end begun = record {
  plays_on = λ e. ground (arith, a.plays_on);
  decoder_asked = λ e. ground (arith, a.decoder_asked);
  still_alive = λ e. ground (arith, a.still_alive);
  told = λ e. ground (arith, a.told);
  goes_on = at_end;
  begun = begun;
}

fill_round-Agrees : (size n : ℕ) (s : Playback) → Agrees size s → Agrees size (fill_round size n s)
unfolding fill_round
fill_round-Agrees size n s a = elim (Bool-cases (s.written + min (size - s.written) n == size)) [
  | inl full ↦
      going-Agrees size s (fill_round size n s) a (ground arith) (ground arith) (ground arith)
        (λ e. absurd (ground arith)) (ground (arith, a.begun))
  | inr part ↦
      going-Agrees size s (fill_round size n s) a (ground arith) (ground arith) (ground arith)
        (λ e. absurd (ground arith)) (ground (arith, a.begun))
]

task-Agrees :
    (size : ℕ) (s : Playback) (x : Decoding) (fs : List (Option ℕ))
    → Agrees size s
    → Agrees size (record s { decoding = x; frames = fs })
task-Agrees size s x fs a =
    going-Agrees size s (record s { decoding = x; frames = fs }) a refl refl refl a.goes_on a.begun

module _ {size : ℕ} {runs due : Bool} where
  Step-Agrees :
      (s : Playback) {t : Playback} → Step size runs due s t → Agrees size s → Agrees size t
  Step-Agrees s (decodes fs e alive) a = task-Agrees size s (hands_on fs) s.frames a
  Step-Agrees s (puts f fs e room) a = task-Agrees size s (hands_on fs) (s.frames ++ f ∷ []) a
  Step-Agrees s (has_put e) a = task-Agrees size s between s.frames a
  Step-Agrees s (stops e told) a = task-Agrees size s finished s.frames a
  Step-Agrees s (takes none fs e alive q) a =
      going-Agrees size s (take_next none fs s) a refl refl refl (λ e. absurd (ground arith))
        (omega (arith, a.begun))
  Step-Agrees s (takes (some n) fs e alive q) a =
      going-Agrees size s (take_next (some n) fs s) a refl refl refl (λ e. absurd (ground arith))
        a.begun
  Step-Agrees s (fills_block n e lets) a = fill_round-Agrees size (suc n) s a
  Step-Agrees s (has_filled e) a =
      going-Agrees size s (record s { displaying = idle }) a refl refl refl
        (λ e. absurd (ground arith)) a.begun
  Step-Agrees s (has_drained e none_left) a =
      going-Agrees size s (record s { displaying = idle }) a refl refl refl
        (λ e. absurd (ground arith)) a.begun
  Step-Agrees s (plays n on e) a =
      going-Agrees size s (record s { blocks = n }) a refl refl refl a.goes_on a.begun
  Step-Agrees s (ends e told) a =
      going-Agrees size s (record s { displaying = ended }) a refl refl refl (λ e. told) a.begun
  Step-Agrees s (closes e) a = record {
    plays_on = λ e'. absurd (ground arith);
    decoder_asked = λ e'. refl;
    still_alive = λ e'. a.plays_on e;
    told = λ e'. absurd (ground arith);
    goes_on = a.goes_on;
    begun = a.begun;
  }
  Step-Agrees s (has_joined_decoder e done) a = record {
    plays_on = λ e'. absurd (ground arith);
    decoder_asked = λ e'. absurd (ground arith);
    still_alive = λ e'. absurd (ground arith);
    told = λ e'. refl;
    goes_on = λ e'. refl;
    begun = a.begun;
  }
  Step-Agrees s (has_joined_display e done) a = record {
    plays_on = λ e'. absurd (ground arith);
    decoder_asked = λ e'. absurd (ground arith);
    still_alive = λ e'. absurd (ground arith);
    told = λ e'. absurd (ground arith);
    goes_on = a.goes_on;
    begun = a.begun;
  }

  Reach-Agrees :
      (s : Playback) {t : Playback} → Reach size runs due s t → Agrees size s → Agrees size t
  Reach-Agrees s here a = a
  Reach-Agrees s (then_step {t = t} r st) a = Step-Agrees t st (Reach-Agrees s r a)

-- A step at the front
step_first :
    {size : ℕ} (s t : Playback) {u : Playback}
    → Step size true true s t
    → Reach size true true t u
    → Reach size true true s u
step_first s t st here = then_step here st
step_first s t st (then_step r st') = then_step (step_first s t st r) st'

closed_or_not : (c : Closing) → (c ≡ closed) ⊎ ¬ (c ≡ closed)
closed_or_not playing = inr (λ e. absurd (ground arith))
closed_or_not joins_decoder = inr (λ e. absurd (ground arith))
closed_or_not joins_display = inr (λ e. absurd (ground arith))
closed_or_not closed = inl refl

returns :
    (fuel size : ℕ) (s : Playback)
    → Agrees size s
    → work s ≤ fuel
    → (t : Playback) × Reach size true true s t × (t.closing ≡ closed)
returns zero size s a enough = elim (closed_or_not s.closing) [
  | inl is ↦ (s, here, is)
  | inr open_still ↦ let (t, st, less) = next size s a open_still in absurd (omega arith)
]
returns (suc fuel) size s a enough = elim (closed_or_not s.closing) [
  | inl is ↦ (s, here, is)
  | inr open_still ↦
      let (t, st, less) = next size s a open_still in
      let (u, r, is) = returns fuel size t (Step-Agrees s st a) (omega arith) in
      (u, step_first s t st r, is)
]

-- When the device runs and the clock lets the blocks pass, `close` can return from every state that
-- the threads get into: none of their steps locks it out.
pub close_returns :
    (size : ℕ) (s : Playback)
    → 0 < size
    → Reach size true true open_audio_threads s
    → (t : Playback) × Reach size true true s t × (t.closing ≡ closed)
close_returns size s some_size r =
    returns (work s) size s (Reach-Agrees open_audio_threads r (start-Agrees size some_size))
      (omega arith)

-- The display thread waits for a block that is never played.
abbrev pub Starves : ℕ → Playback → Type 0
Starves n s =
    (s.displaying ≡ fills (suc n))
    × (s.blocks ≡ block_bound)
    × (s.written ≡ 0)
    × ¬ (s.closing ≡ closed)

module _ {size : ℕ} {due : Bool} where
  Step-Starves :
      (n : ℕ) (s : Playback) {t : Playback} → Step size false due s t → Starves n s → Starves n t
  Step-Starves n s (decodes fs e alive) k = k
  Step-Starves n s (puts f fs e room) k = k
  Step-Starves n s (has_put e) k = k
  Step-Starves n s (stops e told) k = k
  Step-Starves n s (takes f fs e alive q) (at, full, fresh, still) = absurd (ground arith)
  Step-Starves n s (fills_block m e lets) (at, full, fresh, still) =
      absurd (omega (arith, (lets fresh).0))
  Step-Starves n s (has_filled e) (at, full, fresh, still) = absurd (ground arith)
  Step-Starves n s (has_drained e none_left) (at, full, fresh, still) = absurd (ground arith)
  Step-Starves n s (plays m on e) (at, full, fresh, still) = absurd (ground arith)
  Step-Starves n s (ends e told) (at, full, fresh, still) = absurd (ground arith)
  Step-Starves n s (closes e) (at, full, fresh, still) =
      (at, full, fresh, λ e. absurd (ground arith))
  Step-Starves n s (has_joined_decoder e done) (at, full, fresh, still) =
      (at, full, fresh, λ e. absurd (ground arith))
  Step-Starves n s (has_joined_display e done) (at, full, fresh, still) = absurd (ground arith)

  -- When the device no longer runs, the channel is full and the display thread is to begin a block,
  -- it waits for ever and `close` never returns, whether it has been called or not: the wait for a
  -- block does not end with `_isAlive`.
  pub Reach-Starves :
      (n : ℕ) (s : Playback) {t : Playback} → Starves n s → Reach size false due s t → Starves n t
  Reach-Starves n s k here = k
  Reach-Starves n s k (then_step {t = t} r st) = Step-Starves n t st (Reach-Starves n s k r)
