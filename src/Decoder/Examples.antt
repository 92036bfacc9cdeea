-- ===== src/Decoder/Examples.antt =====
-- A codec that holds one packet back.
use video_player_core.Base.{
  ◌≤◌, refl, ℕ, suc, ◌<◌, ◌≡◌, true, false, Option, none, some, List, [], ◌∷◌, ◌++◌, map, arith,
}
use video_player_core.Decoder.{Codec, decode_all}
use video_player_core.Decoder.Markers.{Ends, decode_all-Ends}
use video_player_core.Decoder.Life.{
  new_decoder, close_decoder, Happens, opens, writes, decodes, happen_all,
}
use video_player_core.Decoder.Release.{packets_of, close_decoder_lem}

-- What is held, and the frames that can be received.
abbrev Delayed : Type 0
Delayed = Option ℕ × List ℕ

abbrev send_delayed : Delayed → Option ℕ → Delayed
send_delayed (none, ready) none = (none, ready)
send_delayed (some h, ready) none = (none, ready ++ h ∷ [])
send_delayed (none, ready) (some p) = (some p, ready)
send_delayed (some h, ready) (some p) = (some p, ready ++ h ∷ [])

abbrev receive_delayed : Delayed → Option (ℕ × Delayed)
receive_delayed (held, []) = none
receive_delayed (held, f ∷ ready) = some (f, (held, ready))

abbrev count : List ℕ → ℕ
count [] = 0
count (f ∷ fs) = suc (count fs)

fewer :
    (c : Delayed) (f : ℕ) (c' : Delayed) → receive_delayed c ≡ some (f, c') → count c'.1 < count c.1
fewer (held, []) f c' e = absurd (ground arith)
fewer (held, g ∷ ready) f c' e = ground arith

abbrev delayed : Codec
delayed = record {
  State = Delayed;
  Packet = ℕ;
  Frame = ℕ;
  send = send_delayed;
  receive = receive_delayed;
  flush = λ c. (none, []);
  pending = λ c. count c.1;
  receive_fewer = fewer;
}

decode_all_example :
    Ends delayed
      (5 ∷ 6 ∷ 7 ∷ [])
      (some 8 ∷ none ∷ [])
      (none, [])
      (decode_all delayed (map some (5 ∷ 6 ∷ 7 ∷ []) ++ (none ∷ some 8 ∷ none ∷ [])) (none, []))
decode_all_example = decode_all-Ends delayed (5 ∷ 6 ∷ 7 ∷ []) (some 8 ∷ none ∷ []) (none, [])

-- A codec is opened, two packets and the null packet are written, and one packet is decoded.
abbrev steps : List (Happens ℕ)
steps =
    opens (record { allocates = true; takes_parameters = true; finds_codec = true; opens = true })
    ∷ writes (some 5)
    ∷ writes none
    ∷ writes (some 6)
    ∷ decodes
    ∷ []

close_decoder_example :
    let s = happen_all steps new_decoder in
    let t = close_decoder s in
    (s.tasks ≤ 1)
    × (t.lost ≡ 0)
    × (s.written ≡ s.freed ++ packets_of s.packet_queue)
    × (t.freed ≡ s.written)
    × (t.packet_queue ≡ [])
    × (t.tasks ≡ 0)
    × (t.context ≡ false)
close_decoder_example = close_decoder_lem steps (refl, tt)
