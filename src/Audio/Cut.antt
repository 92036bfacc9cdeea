-- ===== src/Audio/Cut.antt =====
-- No sample is lost, every block is full and carries the time of its first sample.
use video_player_core.Base.{
  ℕ, zero, suc, ◌+◌, ◌-◌, ◌*◌, ◌≤◌, ◌<◌, ◌≡◌, refl, sym, ap, ◌∙◌, inl, inr, List, [], ◌∷◌, ◌++◌,
  if◌then◌else◌, ◌==◌, length, take, drop, min, length-append, length-take, length-drop,
  take-append-drop, append_assoc, append-nil, arith, Bool-cases, subst,
}
use video_player_core.Audio.Blocks.{
  Block, Filling, current_block, fill_block, put_samples, put_frame, end_of_stream, put_frames,
}

module _ {A : Type 0} where
  -- The samples of a list of blocks.
  abbrev pub samples_of : List (Block A) → List A
  samples_of [] = []
  samples_of (b ∷ bs) = b.samples ++ samples_of bs

  -- Everything that came in, in order.
  abbrev pub collected : Filling A → List A
  collected f = samples_of f.sent ++ (if f.written == 0 then [] else f.block.samples)

  -- Full blocks, whose times follow one another.
  abbrev pub Follow : ℕ → ℕ → List (Block A) → Type 0
  Follow samples start [] = Unit {0}
  Follow samples start (b ∷ bs) =
      (b.pts ≡ start) × (length b.samples ≡ samples) × Follow samples (start + samples) bs

  -- The state between rounds, where `pts` is the time of the next sample.
  pub record Runs (samples start pts : ℕ) (f : Filling A) : Type 0 where
    pub partial : f.written < samples
    pub held :
        0 < f.written → (length f.block.samples ≡ f.written) × (f.block.pts + f.written ≡ pts)
    pub full : Follow samples start f.sent
    pub counted : start + length f.sent * samples + f.written ≡ pts

  samples_of-append :
      (bs : List (Block A)) (b : Block A) → samples_of (bs ++ b ∷ []) ≡ samples_of bs ++ b.samples
  samples_of-append [] b = append-nil b.samples
  samples_of-append (c ∷ bs) b =
      ap (λ xs. c.samples ++ xs) (samples_of-append bs b)
      ∙ sym (append_assoc c.samples (samples_of bs) b.samples)

  Follow-append :
      (samples start : ℕ) (bs : List (Block A)) (b : Block A)
      → Follow samples start bs
      → b.pts ≡ start + length bs * samples
      → length b.samples ≡ samples
      → Follow samples start (bs ++ b ∷ [])
  Follow-append samples start [] b h e n = (omega arith, n, tt)
  Follow-append samples start (c ∷ bs) b (p, n', h) e n =
      (p, n', Follow-append samples (start + samples) bs b h (grind arith) n)

  count-append :
      (samples : ℕ) (bs : List (Block A)) (b : Block A)
      → length (bs ++ b ∷ []) * samples ≡ length bs * samples + samples
  count-append samples bs b =
      let step : (length bs + 1) * samples ≡ length bs * samples + samples = grind arith in
      ap (λ n. n * samples) (length-append bs (b ∷ [])) ∙ step

  -- One round keeps all this.
  fill_block-Runs :
      (samples start pts fill : ℕ) (xs : List A) (f : Filling A)
      → Runs samples start pts f
      → fill ≡ min (samples - f.written) (length xs)
      → 0 < length xs
      → Runs samples start (pts + fill) (fill_block samples pts fill xs f)
        × (collected (fill_block samples pts fill xs f) ≡ collected f ++ take fill xs)
  unfolding fill_block
  fill_block-Runs samples start pts fill xs f r e pos =
      let taken : length (take fill xs) ≡ fill = omega (arith, length-take fill xs) in
      let old = current_block pts f in
      let old_length : length old.samples ≡ f.written = ground (arith, r.held) in
      let old_time : old.pts + f.written ≡ pts = ground (arith, r.held) in
      let block : Block A = record { pts = old.pts; samples = old.samples ++ take fill xs } in
      let new_length : length block.samples ≡ f.written + fill =
        omega (arith, length-append old.samples (take fill xs)) in
      let had : collected f ≡ samples_of f.sent ++ old.samples =
        ground (arith, append-nil (samples_of f.sent)) in
      elim (Bool-cases (f.written + fill == samples)) [
        | inl full ↦
            let g : Filling A = record {
              written = 0;
              block = block;
              sent = f.sent ++ block ∷ [];
            } in
            let same : fill_block samples pts fill xs f ≡ g = ground arith in
            let whole : f.written + fill ≡ samples = ground arith in
            let start_time : old.pts ≡ start + length f.sent * samples = omega (arith, r.counted) in
            subst
              (λ g. Runs samples start (pts + fill) g × (collected g ≡ collected f ++ take fill xs))
              (sym same)
              (
                record {
                  partial = omega (arith, r.partial);
                  held = λ some_held. absurd (omega arith);
                  full = Follow-append samples start f.sent block r.full start_time (omega arith);
                  counted = omega (arith, count-append samples f.sent block, start_time);
                },
                ground (
                  arith,
                  had,
                  samples_of-append f.sent block,
                  append-nil (samples_of (f.sent ++ block ∷ [])),
                  append_assoc (samples_of f.sent) old.samples (take fill xs),
                ),
              )
        | inr part ↦ (
          record {
            partial = ground arith;
            held = λ some_held. ground arith;
            full = ground (arith, r.full);
            counted = ground (arith, r.counted);
          },
          ground (arith, had, append_assoc (samples_of f.sent) old.samples (take fill xs)),
        )
      ]

  put_samples-Runs :
      (fuel samples start pts : ℕ) (xs : List A) (f : Filling A)
      → Runs samples start pts f
      → length xs ≤ fuel
      → Runs samples start (pts + length xs) (put_samples fuel samples pts xs f)
        × (collected (put_samples fuel samples pts xs f) ≡ collected f ++ xs)
  unfolding put_samples
  put_samples-Runs zero samples start pts [] f r enough =
      let same : pts ≡ pts + 0 = omega arith in
      (subst (λ p. Runs samples start p f) same r, sym (append-nil (collected f)))
  put_samples-Runs (suc fuel) samples start pts [] f r enough =
      let same : pts ≡ pts + 0 = omega arith in
      (subst (λ p. Runs samples start p f) same r, sym (append-nil (collected f)))
  put_samples-Runs zero samples start pts (x ∷ xs) f r enough = absurd (omega arith)
  put_samples-Runs (suc fuel) samples start pts (x ∷ xs) f r enough =
      let fill = min (samples - f.written) (length (x ∷ xs)) in
      let (r', has) = fill_block-Runs samples start pts fill (x ∷ xs) f r refl (omega arith) in
      let some_room : 0 < fill = omega (arith, r.partial) in
      let left : length (drop fill (x ∷ xs)) ≡ length (x ∷ xs) - fill = length-drop fill (x ∷ xs) in
      let (r'', has') =
        put_samples-Runs fuel samples start (pts + fill) (drop fill (x ∷ xs))
          (fill_block samples pts fill (x ∷ xs) f) r' (omega arith) in
      let end : pts + fill + length (drop fill (x ∷ xs)) ≡ pts + length (x ∷ xs) = omega arith in
      let rest =
        put_samples fuel samples (pts + fill) (drop fill (x ∷ xs))
          (fill_block samples pts fill (x ∷ xs) f) in
      let same : put_samples (suc fuel) samples pts (x ∷ xs) f ≡ rest = ground arith in
      subst
        (λ g.
          Runs samples start (pts + length (x ∷ xs)) g × (collected g ≡ collected f ++ (x ∷ xs)))
        (sym same)
        (
          subst (λ p. Runs samples start p rest) end r'',
          has'
              ∙ ap (λ ys. ys ++ drop fill (x ∷ xs)) has
              ∙ append_assoc (collected f) (take fill (x ∷ xs)) (drop fill (x ∷ xs))
              ∙ ap (λ ys. collected f ++ ys) (take-append-drop fill (x ∷ xs)),
        )

  -- The samples of a list of frames.
  abbrev pub data_of : List (ℕ × List A) → List A
  data_of [] = []
  data_of ((pts, xs) ∷ frames) = xs ++ data_of frames

  -- Frames without a gap in time.
  abbrev pub Continuous : ℕ → List (ℕ × List A) → Type 0
  Continuous pts [] = Unit {0}
  Continuous pts ((p, xs) ∷ frames) = (p ≡ pts) × Continuous (pts + length xs) frames

  abbrev pub empty_filling : Filling A
  empty_filling = record { written = 0; block = record { pts = 0; samples = [] }; sent = [] }

  frames-Runs :
      (samples start pts : ℕ) (frames : List (ℕ × List A)) (f : Filling A)
      → Runs samples start pts f
      → Continuous pts frames
      → Runs samples start (pts + length (data_of frames)) (put_frames samples frames f)
        × (collected (put_frames samples frames f) ≡ collected f ++ data_of frames)
  unfolding put_frames put_frame
  frames-Runs samples start pts [] f r c =
      let same : pts ≡ pts + 0 = omega arith in
      (subst (λ p. Runs samples start p f) same r, sym (append-nil (collected f)))
  frames-Runs samples start pts ((p, xs) ∷ frames) f r (e, c) =
      let (r', has) =
        put_samples-Runs (length xs) samples start p xs f
          (subst (λ q. Runs samples start q f) (sym e) r) (omega arith) in
      let (r'', has') =
        frames-Runs samples start (pts + length xs) frames (put_frame samples p xs f)
          (subst (λ q. Runs samples start (q + length xs) (put_frame samples p xs f)) e r') c in
      let end : pts + length xs + length (data_of frames)
          ≡ pts + length (data_of ((p, xs) ∷ frames)) =
        omega (arith, length-append xs (data_of frames)) in
      (
        subst (λ q. Runs samples start q (put_frames samples frames (put_frame samples p xs f))) end
            r'',
        has' ∙ ap (λ ys. ys ++ data_of frames) has ∙ append_assoc (collected f) xs (data_of frames),
      )

  end_of_stream_lem : (f : Filling A) → samples_of (end_of_stream f).sent ≡ collected f
  unfolding end_of_stream
  end_of_stream_lem f = elim (Bool-cases (f.written == 0)) [
    | inl none_held ↦ ground (arith, append-nil (samples_of f.sent))
    | inr some_held ↦ ground (arith, samples_of-append f.sent f.block)
  ]

  -- From frames without a gap come full blocks whose times follow one another without a gap; with
  -- the block that is begun they hold every sample, in order, and at the end of the stream that one
  -- goes out too.
  pub put_frames-Runs :
      (samples start : ℕ) (frames : List (ℕ × List A))
      → 0 < samples
      → Continuous start frames
      → Runs samples start
          (start + length (data_of frames))
          (put_frames samples frames empty_filling)
        × (collected (put_frames samples frames empty_filling) ≡ data_of frames)
        × (samples_of (end_of_stream (put_frames samples frames empty_filling)).sent
            ≡ data_of frames)
  put_frames-Runs samples start frames pos c =
      let (r, has) =
        frames-Runs samples start start frames empty_filling
          (record {
            partial = pos;
            held = λ some_held. absurd (omega arith);
            full = tt;
            counted = omega arith;
          })
          c in
      (r, has, end_of_stream_lem (put_frames samples frames empty_filling) ∙ has)
