-- ===== src/Play/Reach.antt =====
-- The end markers of a player that runs.
use video_player_core.Base.{
  ℕ, ◌+◌, ◌≡◌, sym, ap, true, false, Option, none, some, List, [], ◌∷◌, ◌++◌, if◌then◌else◌, arith,
  subst, Bool-cases, inl, inr,
}
use video_player_core.Play.Loop.{
  Player, Read, packet, at_end, failed, is_stream, handle, is_over, is_running, restarts, restart,
  round, queue_size, HasRoom, take_video, take_audio, Step, reads, starts_again, shows_video,
  plays_audio, pauses, stops, Reach, here, then_step,
}
use video_player_core.Play.Markers.{
  markers, Balance, Balanced, mark-Balance, packet-Balance, restart-Balance, take-Balance,
  begin-Balance, drained, full,
}

handle-Balanced :
    (n : ℕ) (read : Read) (s : Player) → s.eof ≡ false → Balanced n s → Balanced n (handle read s)
unfolding handle
handle-Balanced n (packet i) s e b = elim (Bool-cases (is_stream i s.video)) [
  | inl to_video ↦
      let t : Player = record s { video_queue = s.video_queue ++ some i ∷ [] } in
      let same : handle (packet i) s ≡ t =
        ap
          (λ v.
            if v
            then t
            else (if is_stream i s.audio
                then record s { audio_queue = s.audio_queue ++ some i ∷ [] }
                else s))
          to_video in
      subst (Balanced n) (sym same) (record {
        video = packet-Balance n i s.video s.video_queue s.video_eof s.eof to_video b.video;
        audio = b.audio;
      })
  | inr no_video ↦ elim (Bool-cases (is_stream i s.audio)) [
    | inl to_audio ↦
        let t : Player = record s { audio_queue = s.audio_queue ++ some i ∷ [] } in
        let same : handle (packet i) s ≡ t = ground arith in
        subst (Balanced n) (sym same) (record {
          video = b.video;
          audio = packet-Balance n i s.audio s.audio_queue s.audio_eof s.eof to_audio b.audio;
        })
    | inr no_audio ↦
        let same : handle (packet i) s ≡ s = ground arith in subst (Balanced n) (sym same) b
  ]
]
handle-Balanced n at_end s e b = record {
  video =
      mark-Balance n s.video s.video_queue s.video_eof
        (subst (Balance n s.video s.video_queue s.video_eof) e b.video);
  audio =
      mark-Balance n s.audio s.audio_queue s.audio_eof
        (subst (Balance n s.audio s.audio_queue s.audio_eof) e b.audio);
}
handle-Balanced n failed s e b = record { video = b.video; audio = b.audio }

restart-Balanced :
    (n : ℕ) (s : Player)
    → s.eof ≡ true
    → is_over s ≡ true
    → Balanced n s
    → Balanced (n + 1) (restart s)
unfolding restart is_over
restart-Balanced n s e over b = record {
  video =
      restart-Balance n s.video s.video_queue s.video_eof (ground arith)
        (subst (Balance n s.video s.video_queue s.video_eof) e b.video);
  audio =
      restart-Balance n s.audio s.audio_queue s.audio_eof (ground arith)
        (subst (Balance n s.audio s.audio_queue s.audio_eof) e b.audio);
}

-- A round that does not start again.
round-Balanced :
    (n : ℕ) (read : Read) (s : Player)
    → restarts s ≡ false
    → Balanced n s
    → Balanced n (round read s)
unfolding round
round-Balanced n read s no_restart b = elim (Bool-cases (is_running s)) [
  | inl running ↦ elim (Bool-cases s.eof) [
    | inl at_eof ↦ let same : round read s ≡ s = ground arith in subst (Balanced n) (sym same) b
    | inr reading ↦
        let same : round read s ≡ handle read s = ground arith in
        subst (Balanced n) (sym same) (handle-Balanced n read s reading b)
  ]
  | inr paused ↦ let same : round read s ≡ s = ground arith in subst (Balanced n) (sym same) b
]

video-Balanced :
    (n i : ℕ) (x : Option ℕ) (xs : List (Option ℕ)) (s : Player)
    → s.video ≡ some i
    → s.video_queue ≡ x ∷ xs
    → Balanced n s
    → Balanced n (take_video x xs s)
unfolding take_video
video-Balanced n i none xs s on at b = record {
  video = take-Balance n i s.video none xs s.video_queue s.video_eof s.eof on at b.video;
  audio = b.audio;
}
video-Balanced n i (some j) xs s on at b = record {
  video = take-Balance n i s.video (some j) xs s.video_queue s.video_eof s.eof on at b.video;
  audio = b.audio;
}

audio-Balanced :
    (n i : ℕ) (x : Option ℕ) (xs : List (Option ℕ)) (s : Player)
    → s.audio ≡ some i
    → s.audio_queue ≡ x ∷ xs
    → Balanced n s
    → Balanced n (take_audio x xs s)
unfolding take_audio
audio-Balanced n i none xs s on at b = record {
  video = b.video;
  audio = take-Balance n i s.audio none xs s.audio_queue s.audio_eof s.eof on at b.audio;
}
audio-Balanced n i (some j) xs s on at b = record {
  video = b.video;
  audio = take-Balance n i s.audio (some j) xs s.audio_queue s.audio_eof s.eof on at b.audio;
}

no_more : (n : ℕ) (s : Player) → Balanced n s → Balanced (n + 0) s
no_more n s b = let same : n ≡ n + 0 = omega arith in subst (λ k. Balanced k s) same b

Step-Balanced : {n m : ℕ} {s t : Player} → Step m s t → Balanced n s → Balanced (n + m) t
unfolding round
Step-Balanced {n = n} {s = s} (reads read alive whole stays room) b =
    no_more n (round read s) (round-Balanced n read s stays b)
Step-Balanced {n = n} {s = s} (starts_again read alive whole again) b =
    let same : round read s ≡ restart s = ground arith in
    subst (Balanced (n + 1)) (sym same) (restart-Balanced n s (ground arith) (ground arith) b)
Step-Balanced {n = n} {s = s} (shows_video {i = i} {x = x} {xs = xs} on at) b =
    no_more n (take_video x xs s) (video-Balanced n i x xs s on at b)
Step-Balanced {n = n} {s = s} (plays_audio {i = i} {x = x} {xs = xs} on at) b =
    no_more n (take_audio x xs s) (audio-Balanced n i x xs s on at b)
Step-Balanced {n = n} {s = s} (pauses paused) b =
    no_more n (record s { is_paused = paused }) (record { video = b.video; audio = b.audio })
Step-Balanced {n = n} {s = s} stops b =
    no_more n (record s { is_alive = false }) (record { video = b.video; audio = b.audio })

-- A player that begins.
pub record Begins (s : Player) : Type 0 where
  pub not_at_end : s.eof ≡ false
  pub no_arrival : (s.video_eof ≡ false) × (s.audio_eof ≡ false)
  pub no_packets : (s.video_queue ≡ []) × (s.audio_queue ≡ [])

Reach-Balanced : {n : ℕ} {s t : Player} → Begins s → Reach n s t → Balanced n t
Reach-Balanced {s = s} b here = record {
  video =
      begin-Balance s.video s.video_queue s.video_eof s.eof b.no_packets.0 b.no_arrival.0
        b.not_at_end;
  audio =
      begin-Balance s.audio s.audio_queue s.audio_eof s.eof b.no_packets.1 b.no_arrival.1
        b.not_at_end;
}
Reach-Balanced b (then_step r step) = Step-Balanced step (Reach-Balanced b r)

-- Whatever is read, shown, played, paused or stopped: the file starts again only when no end marker
-- is on its way in the queue of a stream that plays.
pub restarts_when_drained :
    {n : ℕ} {s t : Player} (i : ℕ)
    → Begins s
    → Reach n s t
    → restarts t ≡ true
    → (t.video ≡ some i → markers t.video_queue ≡ 0)
      × (t.audio ≡ some i → markers t.audio_queue ≡ 0)
unfolding is_over
restarts_when_drained {n = n} {t = t} i b r again =
    let balanced = Reach-Balanced b r in
    let e : t.eof ≡ true = ground arith in
    (
      λ on.
          drained n i t.video t.video_queue t.video_eof on (ground arith)
            (subst (Balance n t.video t.video_queue t.video_eof) e balanced.video),
      λ on.
          drained n i t.audio t.audio_queue t.audio_eof on (ground arith)
            (subst (Balance n t.audio t.audio_queue t.audio_eof) e balanced.audio),
    )

-- When a file without audio has started again 2047 times, the reader cannot handle its next end: the
-- queue of the audio decoder, which nobody empties, is full of end markers.
pub no_room_without_audio :
    {s t : Player}
    → Begins s
    → Reach queue_size s t
    → t.audio ≡ none
    → t.eof ≡ false
    → ¬ HasRoom at_end t
unfolding HasRoom
no_room_without_audio {t = t} b r off e (video_room, audio_room) =
    let balanced = Reach-Balanced b r in
    let size =
      full t.audio t.audio_queue t.audio_eof off
        (subst (Balance queue_size t.audio t.audio_queue t.audio_eof) e balanced.audio) in
    omega arith
