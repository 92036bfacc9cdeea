-- ===== src/Audio/Mixing.antt =====
-- What a call of the device takes from the channels.
use video_player_core.Base.{
  ℕ, ◌+◌, ◌≤◌, ◌<◌, ◌≡◌, refl, ap, ap₂, sym, ◌∙◌, ◌⊎◌, inl, inr, true, false, List, [], ◌∷◌, ◌++◌,
  if◌then◌else◌, ◌==◌, length, replicate, segment, arith, Option-cases, Bool-cases, subst,
}
use video_player_core.Base.Segments.{length-segment, segment-segment_at}
use video_player_core.Double.{Double}
use video_player_core.Clock.{update_audio_pts}
use video_player_core.Ring.{begin_read, end_read}
use video_player_core.Ring.Bounds.{IsValid, used, begin_read_lem}
use video_player_core.Ring.Refine.{contents, length-contents, contents-after_read}
use video_player_core.Audio.Callback.{
  Channel, Mixer, is_in, take_messages, play_block, put_channel, play_all, audio_callback,
}
use video_player_core.Audio.Active.{Distinct, Distinct-take_messages, wanted, is_in-take_messages}

module _ {d : Double} (time_of : List ℕ → d.Value) (mix : List ℕ → List ℕ → ℕ → List ℕ)
    (align len : ℕ) where
  open d use {Value}

  -- The stream has no influence on the channel.
  channel-play_block :
      (now : Value) (s s' : List ℕ) (c : Channel d)
      → (play_block time_of mix align len now s c).1 ≡ (play_block time_of mix align len now s' c).1
  unfolding play_block
  channel-play_block now s s' c = elim (Option-cases (begin_read c.frame_queue align)) [
    | inl refused ↦ ground arith
    | inr (p, granted) ↦ ground arith
  ]

  play_all-channel :
      (now : Value) (is : List ℕ) (s : List ℕ) (channel : ℕ → Channel d) (i : ℕ)
      → Distinct is
      → (play_all time_of mix align len now is s channel).1 i ≡ (
          if is_in i is then (play_block time_of mix align len now [] (channel i)).1 else channel i)
  unfolding play_all
  play_all-channel now [] s channel i distinct = refl
  play_all-channel now (j ∷ js) s channel i (new, distinct) =
      let (s', c) = play_block time_of mix align len now s (channel j) in
      let rest =
        play_all-channel now js s' (put_channel time_of mix align len j c channel) i distinct in
      elim (Bool-cases (j == i)) [
        | inl here ↦
            let e : j ≡ i = ground arith in
            let out : is_in i js ≡ false = subst (λ k. is_in k js ≡ false) e new in
            let played =
              channel-play_block now s [] (channel j)
              ∙ ap (λ k. (play_block time_of mix align len now [] (channel k)).1) e in
            let chosen : is_in i (j ∷ js) ≡ true = ground arith in
            let put : put_channel time_of mix align len j c channel i ≡ c = ground arith in
            rest
            ∙ ap
                (λ t.
                  if t
                  then (play_block time_of mix align len now []
                      (put_channel time_of mix align len j c channel i)).1
                  else put_channel time_of mix align len j c channel i)
                out
            ∙ put
            ∙ played
            ∙ ap
                (λ t.
                  if t then (play_block time_of mix align len now [] (channel i)).1 else channel i)
                (sym chosen)
        | inr other ↦
            let put : put_channel time_of mix align len j c channel i ≡ channel i = ground arith in
            let same : is_in i js ≡ is_in i (j ∷ js) = ground arith in
            rest
            ∙ ap₂
                (λ t (k : Channel d).
                  if t then (play_block time_of mix align len now [] k).1 else k)
                same put
      ]

  -- A channel's turn: either its oldest block leaves the queue, the sound in it is mixed in and its
  -- time goes to the clock; or nothing changes, and no whole block is there before the end.
  abbrev pub Plays : Value → List ℕ → Channel d → List ℕ × Channel d → Type 0
  Plays now stream c (stream', c') =
      ((block : List ℕ) × (length block ≡ align)
        × (contents c.frame_queue ≡ block ++ contents c'.frame_queue)
        × (stream' ≡ mix stream (segment block 8 (8 + len)) c.volume)
        × (c'.clock ≡ update_audio_pts now (time_of (segment block 0 8)) c.clock))
      ⊎ ((stream' ≡ stream)
          × (c' ≡ c)
          × ((length (contents c.frame_queue) < align)
              ⊎ (c.frame_queue.cap < c.frame_queue.read_pos + align)))

  -- The turn of a channel with a valid queue, for blocks that hold the time and what the device asks
  -- for.
  pub play_block-Plays :
      (k : ℕ) (now : Value) (stream : List ℕ) (c : Channel d)
      → IsValid k c.frame_queue
      → 8 + len ≤ align
      → Plays now stream c (play_block time_of mix align len now stream c)
  unfolding play_block
  play_block-Plays k now stream c v fits =
      let q = c.frame_queue in
      elim (Option-cases (begin_read q align)) [
        | inl refused ↦
            let same : play_block time_of mix align len now stream c ≡ (stream, c) = ground arith in
            subst (Plays now stream c) (sym same)
              (inr (refl, refl, ground (arith, begin_read_lem align v, length-contents v)))
        | inr (p, granted) ↦
            let at : p ≡ q.read_pos = ground (arith, begin_read_lem align v) in
            let enough : align ≤ used q = ground (arith, begin_read_lem align v) in
            let inside : q.read_pos + align ≤ q.cap = ground (arith, begin_read_lem align v) in
            let block = segment q.buf q.read_pos (q.read_pos + align) in
            let out = contents-after_read align v enough inside in
            let size =
              length-segment q.buf q.read_pos (q.read_pos + align)
                (omega (arith, v.storage, v.cap_eq)) in
            let sound : segment q.buf (p + 8) (p + 8 + len) ≡ segment block 8 (8 + len) = sym (
              segment-segment_at q.buf q.read_pos (q.read_pos + align) 8 (8 + len) (p + 8)
                (p + 8 + len) (omega arith) (omega arith) (omega arith)) in
            let time : segment q.buf p (p + 8) ≡ segment block 0 8 = sym (
              segment-segment_at q.buf q.read_pos (q.read_pos + align) 0 8 p (p + 8) (omega arith)
                (omega arith) (omega arith)) in
            let same : play_block time_of mix align len now stream c ≡ (
              mix stream (segment q.buf (p + 8) (p + 8 + len)) c.volume,
              record c {
                clock = update_audio_pts now (time_of (segment q.buf p (p + 8))) c.clock;
                frame_queue = end_read q align;
              },
            ) =
              ground arith in
            subst (Plays now stream c) (sym same) (
              inl (
                block,
                omega (arith, size),
                sym out,
                ap (λ xs. mix stream xs c.volume) sound,
                ap (λ xs. update_audio_pts now (time_of xs) c.clock) time,
              ))
      ]

  -- After a call of the device no message is left; a channel plays if its last message said so, or if
  -- it had no message and played before; each of these had exactly one turn, and no other channel was
  -- touched.
  pub audio_callback_lem :
      (now : Value) (m : Mixer d)
      → Distinct m.playing
      → let (stream, m') = audio_callback time_of mix align len now m in
        (m'.messages ≡ [])
        × Distinct m'.playing
        × ((i : ℕ) → is_in i m'.playing ≡ wanted i m.messages (is_in i m.playing))
        × ((i : ℕ)
            → m'.channel i ≡ (
                if is_in i m'.playing
                then (play_block time_of mix align len now [] (m.channel i)).1
                else m.channel i))
  unfolding audio_callback
  audio_callback_lem now m distinct =
      let distinct' = Distinct-take_messages m.messages m.playing distinct in
      (
        refl,
        distinct',
        λ i. is_in-take_messages i m.messages m.playing distinct,
        λ i.
            play_all-channel now (take_messages m.messages m.playing) (replicate len 0) m.channel i
              distinct',
      )
