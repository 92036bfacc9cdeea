-- ===== src/Decoder.antt =====
-- src/decoder.cpp: the loop that takes packets from the queue, gives them to the codec and hands on
-- the frames. `none` is the null packet, and the null frame that is handed on for it. `Life` has the
-- rest of a decoder, and `Release` is about what becomes of its packets.
pub mod Life
pub mod Release
pub mod Markers
mod Examples
use video_player_core.Base.{
  ℕ, zero, suc, ◌<◌, ◌≡◌, Bool, true, false, Option, none, some, List, [], ◌∷◌, ◌++◌, map,
}

-- The codec of the library: `avcodec_send_packet`, `avcodec_receive_frame`, which gives a frame or
-- none, and `avcodec_flush_buffers`. After a packet it gives finitely many frames.
pub record Codec : Type 1 where
  pub State : Type 0
  pub Packet : Type 0
  pub Frame : Type 0
  pub send : State → Option Packet → State
  pub receive : State → Option (Frame × State)
  pub flush : State → State
  pub pending : State → ℕ
  pub receive_fewer :
      (c : State) (f : Frame) (c' : State) → receive c ≡ some (f, c') → pending c' < pending c

module _ (codec : Codec) where
  -- `while (avcodec_receive_frame(...) == 0)`
  unfoldable pub receive_all : ℕ → codec.State → List codec.Frame × codec.State
  receive_all zero c = ([], c)
  receive_all (suc fuel) c = elim (codec.receive c) [
    | none ↦ ([], c)
    | some (f, c') ↦ let rest = receive_all fuel c' in (f ∷ rest.0, rest.1)
  ]

  -- One round of the loop: what `_onFrame` is called with, and the codec.
  unfoldable pub decode :
      Option codec.Packet → codec.State → List (Option codec.Frame) × codec.State
  decode packet c =
      let sent = codec.send c packet in
      let received = receive_all (codec.pending sent) sent in
      let frames = map some received.0 in
      elim packet [
        | none ↦ (frames ++ none ∷ [], codec.flush received.1)
        | some p ↦ (frames, received.1)
      ]

  -- The packets of the queue, one after the other.
  unfoldable pub decode_all :
      List (Option codec.Packet) → codec.State → List (Option codec.Frame) × codec.State
  decode_all [] c = ([], c)
  decode_all (p ∷ ps) c =
      let first = decode p c in let rest = decode_all ps first.1 in (first.0 ++ rest.0, rest.1)
