-- ===== src/Decoder/Life.antt =====
-- src/decoder.cpp, `open`, `write` and `close`, and what the decoding task does with the packet queue
-- (include/decoder.h): who owns the packets and the codec's context. `none` in the queue is the null
-- packet. A packet that is freed is noted.
use video_player_core.Base.{
  ◌≡◌, ℕ, suc, Bool, true, false, ◌&&◌, Option, none, some, List, [], ◌∷◌, ◌++◌, if◌then◌else◌, ltb,
  length,
}

-- `context` tells whether `_codecContext` is allocated, `tasks` counts the tasks of `_wg`. `written`
-- are the packets that came in by `write`, and `lost` the contexts that nothing points to any more.
pub record Life (P : Type 0) : Type 0 where
  pub context : Bool
  pub is_alive : Bool
  pub eof : Bool
  pub tasks : ℕ
  pub packet_queue : List (Option P)
  pub written : List P
  pub freed : List P
  pub lost : ℕ

-- What the library answers to `avcodec_alloc_context3`, `avcodec_parameters_to_context`,
-- `avcodec_find_decoder` and `avcodec_open2`.
pub record Library : Type 0 where
  pub allocates : Bool
  pub takes_parameters : Bool
  pub finds_codec : Bool
  pub opens : Bool

-- The ring of 2048 slots, of which one stays free
abbrev pub queue_bound : ℕ
queue_bound = 2047

module _ {P : Type 0} where
  abbrev pub new_decoder : Life P
  new_decoder = record {
    context = false;
    is_alive = false;
    eof = false;
    tasks = 0;
    packet_queue = [];
    written = [];
    freed = [];
    lost = 0;
  }

  -- `open`: what it returns, and the decoder
  unfoldable pub open_decoder : Library → Life P → Bool × Life P
  open_decoder a s =
      let allocated = record s {
        context = a.allocates;
        lost = if s.context then suc s.lost else s.lost;
      } in
      if a.allocates && a.takes_parameters && a.finds_codec && a.opens
      then (true, record allocated { eof = false; is_alive = true; tasks = suc s.tasks })
      else (false, allocated)

  abbrev pub packet_of : Option P → List P
  packet_of none = []
  packet_of (some p) = p ∷ []

  -- A round of `write`: without room it sleeps and tries again.
  unfoldable pub write_packet : Option P → Life P → Life P
  write_packet p s =
      if ltb (length s.packet_queue) queue_bound
      then record s { packet_queue = s.packet_queue ++ p ∷ []; written = s.written ++ packet_of p }
      else s

  -- A round of the decoding task, of which there is one while the decoder is not opened again without
  -- `close`: the frames that come out are another matter.
  unfoldable pub decode_round : Life P → Life P
  decode_round s =
      if s.is_alive && ltb 0 s.tasks
      then elim s.packet_queue [
        | [] ↦ s
        | p ∷ ps ↦ elim p [
          | none ↦ record s { packet_queue = ps; eof = true }
          | some x ↦ record s { packet_queue = ps; eof = false; freed = s.freed ++ x ∷ [] }
        ]
      ]
      else s

  -- `while (_packetQueue.read(&packet, 1)) av_packet_free(&packet)`
  unfoldable pub free_packets : List (Option P) → List P → List P
  free_packets [] freed = freed
  free_packets (p ∷ ps) freed = free_packets ps (freed ++ packet_of p)

  -- `close`, when it returns: the task has ended, which `Wait` waits for. (A task that cannot hand on a
  -- frame does not end; see `Video.Closing`.)
  unfoldable pub close_decoder : Life P → Life P
  close_decoder s = record s {
    is_alive = false;
    tasks = 0;
    packet_queue = [];
    freed = free_packets s.packet_queue s.freed;
    context = false;
  }

-- What is called on a decoder and what its task does, in any order.
pub data Happens (P : Type 0) : Type 0 where
  opens : Library → Happens P
  writes : Option P → Happens P
  decodes closes : Happens P

module _ {P : Type 0} where
  abbrev pub happen : Happens P → Life P → Life P
  happen (opens a) s = (open_decoder a s).1
  happen (writes p) s = write_packet p s
  happen decodes s = decode_round s
  happen closes s = close_decoder s

  unfoldable pub happen_all : List (Happens P) → Life P → Life P
  happen_all [] s = s
  happen_all (e ∷ es) s = happen_all es (happen e s)

  -- `open` comes only where the decoder has no context, before any other or after `close`, as with
  -- the players, which close a stream whether it opened or not.
  abbrev pub Alternates : List (Happens P) → Life P → Type 0
  Alternates [] s = Unit
  Alternates (opens a ∷ es) s = (s.context ≡ false) × Alternates es (happen (opens a) s)
  Alternates (writes p ∷ es) s = Alternates es (happen (writes p) s)
  Alternates (decodes ∷ es) s = Alternates es (happen decodes s)
  Alternates (closes ∷ es) s = Alternates es (happen closes s)
