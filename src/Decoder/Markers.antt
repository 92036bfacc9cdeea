-- ===== src/Decoder/Markers.antt =====
-- The receiving loop ends, the frames that come out are those that the codec gives, and end markers
-- keep their place among them.
use video_player_core.Base.{
  subst, ℕ, zero, suc, ◌≤◌, ◌≡◌, refl, sym, ap, ◌∙◌, inl, inr, Option, none, some, List, [], ◌∷◌,
  ◌++◌, map, append_assoc, Option-cases, arith,
}
use video_player_core.Decoder.{Codec, receive_all, decode, decode_all}

module _ (codec : Codec) where
  -- A round of the loop, by what it receives.
  abbrev received :
      ℕ → codec.State → Option (codec.Frame × codec.State) → List codec.Frame × codec.State
  received fuel c none = ([], c)
  received fuel c (some (f, c')) = let rest = receive_all codec fuel c' in (f ∷ rest.0, rest.1)

  -- The codec gives these frames, one after the other, and has none left then.
  pub data Drained : codec.State → List codec.Frame → codec.State → Type 0 where
    empty : {c : codec.State} → codec.receive c ≡ none → Drained c [] c
    gives :
        {c : codec.State} (f : codec.Frame) (c' : codec.State) {fs : List codec.Frame}
        {e : codec.State}
        → codec.receive c ≡ some (f, c')
        → Drained c' fs e
        → Drained c (f ∷ fs) e

  -- The frames that the codec gives when it is sent packets and then the null packet, each after the
  -- codec was drained of what the one before it gave.
  pub data Yields : codec.State → List codec.Packet → List codec.Frame → codec.State → Type 0 where
    at_end :
        {c : codec.State} {fs : List codec.Frame} {e : codec.State}
        → Drained (codec.send c none) fs e
        → Yields c [] fs e
    sends :
        {c : codec.State} {p : codec.Packet} {ps : List codec.Packet} {fs gs : List codec.Frame}
        {c' e : codec.State}
        → Drained (codec.send c (some p)) fs c'
        → Yields c' ps gs e
        → Yields c (p ∷ ps) (fs ++ gs) e

  -- The loop gives out all frames that the codec has.
  receive_all-Drained :
      (fuel : ℕ) (c : codec.State)
      → codec.pending c ≤ fuel
      → Drained c (receive_all codec fuel c).0 (receive_all codec fuel c).1
  unfolding receive_all
  receive_all-Drained zero c enough = elim (Option-cases (codec.receive c)) [
    | inl none_left ↦ empty none_left
    | inr ((f, c'), e) ↦ absurd (omega (arith, codec.receive_fewer c f c' e))
  ]
  receive_all-Drained (suc fuel) c enough = elim (Option-cases (codec.receive c)) [
    | inl none_left ↦
        subst (λ (r : List codec.Frame × codec.State). Drained c r.0 r.1)
          (ap (λ r. received fuel c r) (sym none_left)) (empty none_left)
    | inr ((f, c'), e) ↦
        subst (λ (r : List codec.Frame × codec.State). Drained c r.0 r.1)
          (ap (λ r. received fuel c r) (sym e))
          (gives f c' e (receive_all-Drained fuel c' (omega (arith, codec.receive_fewer c f c' e))))
  ]

  -- The frames of some packets, then an end marker, then the rest with the codec flushed.
  abbrev pub Ends :
      List codec.Packet
      → List (Option codec.Packet)
      → codec.State
      → List (Option codec.Frame) × codec.State
      → Type 0
  Ends ps qs c r =
      (fs : List codec.Frame) × (d : codec.State) × Yields c ps fs d
      × (r.0 ≡ map some fs ++ (none ∷ (decode_all codec qs (codec.flush d)).0))
      × (r.1 ≡ (decode_all codec qs (codec.flush d)).1)

  map-append : (fs gs : List codec.Frame) → map some (fs ++ gs) ≡ map some fs ++ map some gs
  map-append [] gs = refl
  map-append (f ∷ fs) gs = ap (λ xs. some f ∷ xs) (map-append fs gs)

  -- What comes out up to an end marker are the frames that the codec gives for the packets before it
  -- and for the null packet, all of them and in this order; then comes the marker, and the codec is
  -- flushed and goes on with what follows.
  pub decode_all-Ends :
      (ps : List codec.Packet) (qs : List (Option codec.Packet)) (c : codec.State)
      → Ends ps qs c (decode_all codec (map some ps ++ (none ∷ qs)) c)
  unfolding decode_all decode
  decode_all-Ends [] qs c =
      let sent = codec.send c none in
      let received = receive_all codec (codec.pending sent) sent in
      (
        received.0,
        received.1,
        at_end (receive_all-Drained (codec.pending sent) sent (omega arith)),
        append_assoc (map some received.0) (none ∷ [])
            (decode_all codec qs (codec.flush received.1)).0,
        refl,
      )
  decode_all-Ends (p ∷ ps) qs c =
      let sent = codec.send c (some p) in
      let received = receive_all codec (codec.pending sent) sent in
      let (fs, d, more, outs, state) = decode_all-Ends ps qs received.1 in
      (
        received.0 ++ fs,
        d,
        sends (receive_all-Drained (codec.pending sent) sent (omega arith)) more,
        ap (λ xs. map some received.0 ++ xs) outs
            ∙ sym (
                append_assoc (map some received.0) (map some fs)
                  (none ∷ (decode_all codec qs (codec.flush d)).0))
            ∙ ap (λ xs. xs ++ (none ∷ (decode_all codec qs (codec.flush d)).0))
                (sym (map-append received.0 fs)),
        state,
      )
