-- ===== src/Decoder/Release.antt =====
-- Every packet is freed exactly once, and `close` leaves nothing behind.
use video_player_core.Base.{
  ◌&&◌, ◌≤◌, ◌≡◌, refl, ap, sym, ◌∙◌, inl, inr, false, Option, none, some, List, [], ◌∷◌, ◌++◌, ltb,
  length, arith, append-nil, append_assoc, Bool-cases,
}
use video_player_core.Decoder.Life.{
  Life, new_decoder, open_decoder, packet_of, write_packet, decode_round, free_packets,
  close_decoder, Happens, opens, writes, decodes, closes, happen, happen_all, Library, Alternates,
  queue_bound,
}

module _ {P : Type 0} where
  -- The packets of a queue
  abbrev pub packets_of : List (Option P) → List P
  packets_of [] = []
  packets_of (p ∷ ps) = packet_of p ++ packets_of ps

  packets_of-append :
      (ps qs : List (Option P)) → packets_of (ps ++ qs) ≡ packets_of ps ++ packets_of qs
  packets_of-append [] qs = refl
  packets_of-append (p ∷ ps) qs =
      ap (λ xs. packet_of p ++ xs) (packets_of-append ps qs)
      ∙ sym (append_assoc (packet_of p) (packets_of ps) (packets_of qs))

  free_packets_lem :
      (ps : List (Option P)) (freed : List P) → free_packets ps freed ≡ freed ++ packets_of ps
  unfolding free_packets
  free_packets_lem [] freed = sym (append-nil freed)
  free_packets_lem (p ∷ ps) freed =
      free_packets_lem ps (freed ++ packet_of p) ∙ append_assoc freed (packet_of p) (packets_of ps)

  -- What was written is what was freed and what waits, in this order.
  abbrev pub Kept : Life P → Type 0
  Kept s = s.written ≡ s.freed ++ packets_of s.packet_queue

  write_packet-Kept : (p : Option P) (s : Life P) → Kept s → Kept (write_packet p s)
  unfolding write_packet
  write_packet-Kept p s k = elim (Bool-cases (ltb (length s.packet_queue) queue_bound)) [
    | inl room ↦
        let more =
          ap (λ xs. xs ++ packet_of p) k
          ∙ append_assoc s.freed (packets_of s.packet_queue) (packet_of p)
          ∙ ap (λ xs. s.freed ++ xs)
              (ap (λ ys. packets_of s.packet_queue ++ ys) (sym (append-nil (packet_of p)))
                ∙ sym (packets_of-append s.packet_queue (p ∷ []))) in
        ground (arith, more)
    | inr full ↦ ground arith
  ]

  decode_round-Kept : (s : Life P) → Kept s → Kept (decode_round s)
  unfolding decode_round
  decode_round-Kept s k =
      elim s.packet_queue as (λ q. s.packet_queue ≡ q → Kept (decode_round s)) [
        | [] ↦ λ e. ground arith
        | p ∷ ps ↦ λ e. taken p ps e
      ]
        refl
    where
      taken :
          (p : Option P) (ps : List (Option P)) → s.packet_queue ≡ p ∷ ps → Kept (decode_round s)
      taken none ps e = ground arith
      taken (some x) ps e = ground (arith, append_assoc s.freed (x ∷ []) (packets_of ps))

  happen-Kept : (e : Happens P) (s : Life P) → Kept s → Kept (happen e s)
  unfolding open_decoder close_decoder
  happen-Kept (opens a) s k = ground arith
  happen-Kept (writes p) s k = write_packet-Kept p s k
  happen-Kept decodes s k = decode_round-Kept s k
  happen-Kept closes s k =
      k
      ∙ sym (free_packets_lem s.packet_queue s.freed)
      ∙ sym (append-nil (free_packets s.packet_queue s.freed))

  happen_all-Kept : (es : List (Happens P)) (s : Life P) → Kept s → Kept (happen_all es s)
  unfolding happen_all
  happen_all-Kept [] s k = k
  happen_all-Kept (e ∷ es) s k = happen_all-Kept es (happen e s) (happen-Kept e s k)

  -- One task at most, none without a context, and no context is lost.
  record Alone (s : Life P) : Type 0 where
    idle : s.context ≡ false → s.tasks ≡ 0
    single : s.tasks ≤ 1
    kept : s.lost ≡ 0

  open_decoder-Alone :
      (a : Library) (s : Life P) → s.context ≡ false → Alone s → Alone (open_decoder a s).1
  unfolding open_decoder
  open_decoder-Alone a s none_there i =
      let no_task = i.idle none_there in
      elim (Bool-cases (a.allocates && a.takes_parameters && a.finds_codec && a.opens)) [
        | inl works ↦ record {
          idle = λ e. absurd (ground arith);
          single = ground arith;
          kept = ground (arith, i.kept);
        }
        | inr fails ↦ record {
          idle = λ e. ground arith;
          single = ground arith;
          kept = ground (arith, i.kept);
        }
      ]

  write_packet-Alone : (p : Option P) (s : Life P) → Alone s → Alone (write_packet p s)
  unfolding write_packet
  write_packet-Alone p s i = record {
    idle = λ e. ground (arith, i.idle);
    single = ground (arith, i.single);
    kept = ground (arith, i.kept);
  }

  decode_round-Alone : (s : Life P) → Alone s → Alone (decode_round s)
  unfolding decode_round
  decode_round-Alone s i = record {
    idle = λ e. ground (arith, i.idle);
    single = ground (arith, i.single);
    kept = ground (arith, i.kept);
  }

  happen_all-Alone :
      (es : List (Happens P)) (s : Life P) → Alternates es s → Alone s → Alone (happen_all es s)
  unfolding happen_all close_decoder
  happen_all-Alone [] s alt i = i
  happen_all-Alone (opens a ∷ es) s (none_there, alt) i =
      happen_all-Alone es (open_decoder a s).1 alt (open_decoder-Alone a s none_there i)
  happen_all-Alone (writes p ∷ es) s alt i =
      happen_all-Alone es (write_packet p s) alt (write_packet-Alone p s i)
  happen_all-Alone (decodes ∷ es) s alt i =
      happen_all-Alone es (decode_round s) alt (decode_round-Alone s i)
  happen_all-Alone (closes ∷ es) s alt i =
      happen_all-Alone es (close_decoder s) alt
        (record { idle = λ e. refl; single = omega arith; kept = i.kept })

  -- However opening, writing, decoding and closing follow one another, with no second `open` before
  -- `close`: one task at most reads the queue, no context is lost, and the packets that were freed
  -- are, in order and each once, those that were written and are no longer in the queue. When `close`
  -- has returned, whether `open` succeeded or not, these are all, no task runs and the context is
  -- freed.
  pub close_decoder_lem :
      (es : List (Happens P))
      → Alternates es new_decoder
      → let s = happen_all es new_decoder in
        let t = close_decoder s in
        (s.tasks ≤ 1)
        × (t.lost ≡ 0)
        × (s.written ≡ s.freed ++ packets_of s.packet_queue)
        × (t.freed ≡ s.written)
        × (t.packet_queue ≡ [])
        × (t.tasks ≡ 0)
        × (t.context ≡ false)
  unfolding close_decoder
  close_decoder_lem es alt =
      let s = happen_all es new_decoder in
      let k = happen_all-Kept es new_decoder refl in
      let alone =
        happen_all-Alone es new_decoder alt
          (record { idle = λ e. refl; single = omega arith; kept = refl }) in
      (
        alone.single,
        alone.kept,
        k,
        free_packets_lem s.packet_queue s.freed ∙ sym k,
        refl,
        refl,
        refl,
      )
