-- ===== src/Ring/Flow.antt =====
-- What is between a writing and a reading thread of a ring, and how each of them starts.
use video_player_core.Base.{
  ℕ, ◌+◌, ◌-◌, ◌≤◌, ◌<◌, ◌≡◌, sym, inl, inr, List, [], ◌∷◌, ◌++◌, arith, length, segment, splice,
  Option-cases, subst,
}
use video_player_core.Base.Segments.{segment-nil, segment-splice_before, segment-splice_after}
use video_player_core.Ring.{Ring, begin_write, begin_read}
use video_player_core.Ring.Bounds.{IsValid, used, begin_write_lem, begin_read_lem}
use video_player_core.Ring.Refine.{contents}
use video_player_core.Ring.Threads.{
  Writer, away, writing, Reader, apart, reading, Threads, write_begins, read_begins, advance,
}

module _ {A : Type 0} where
  -- The writer inside a call: its block fits, and what is copied stands behind the write position.
  abbrev pub Writes : Ring A → Writer A → Type 0
  Writes q away = Unit {0}
  Writes q (writing dst todo src) =
      (used q + length src < q.cap)
      × (q.write_pos + length src ≤ q.cap)
      × (dst + length todo ≡ q.write_pos + length src)
      × (q.write_pos ≤ dst)
      × (segment q.buf q.write_pos dst ++ todo ≡ src)

  -- The reader inside a call: so many elements are there, and what it copied are the oldest ones.
  abbrev pub ReadsOn : Ring A → Reader A → Type 0
  ReadsOn q apart = Unit {0}
  ReadsOn q (reading src todo n out) =
      (n ≤ used q)
      × (q.read_pos + n ≤ q.cap)
      × (src + todo ≡ q.read_pos + n)
      × (q.read_pos ≤ src)
      × (out ≡ segment q.buf q.read_pos src)

  -- Nothing is lost, doubled or torn.
  pub record Flows (k : ℕ) (t : Threads A) : Type 0 where
    pub valid : IsValid k t.ring
    pub whole : t.taken ++ contents t.ring ≡ t.sent
    pub writes : Writes t.ring t.writer
    pub reads : ReadsOn t.ring t.reader

  abbrev pub threads : Ring A → Writer A → Reader A → List A → List A → Threads A
  threads q w r sent taken = record { ring = q; writer = w; reader = r; sent = sent; taken = taken }

  pub start_write-Flows :
      (k : ℕ) (block : List A) (q : Ring A) (w : Writer A) (r : Reader A) (sent taken : List A)
      → Flows k (threads q w r sent taken)
      → Flows k (advance (write_begins block) (threads q w r sent taken))
  unfolding advance
  start_write-Flows k block q (writing dst todo src) r sent taken f = f
  start_write-Flows k block q away r sent taken f =
      elim (Option-cases (begin_write q (length block))) [
        | inl refused ↦
            let same : advance (write_begins block) (threads q away r sent taken)
                ≡ threads q away r sent taken =
              ground arith in
            subst (Flows k) (sym same) f
        | inr (dst, granted) ↦
            let same : advance (write_begins block) (threads q away r sent taken)
                ≡ threads q (writing dst block block) r sent taken =
              ground arith in
            subst (Flows k) (sym same) (record {
              valid = f.valid;
              whole = f.whole;
              writes = (
                ground (arith, begin_write_lem (length block) f.valid),
                ground (arith, begin_write_lem (length block) f.valid),
                ground (arith, begin_write_lem (length block) f.valid),
                ground (arith, begin_write_lem (length block) f.valid),
                ground (
                  arith,
                  begin_write_lem (length block) f.valid,
                  segment-nil q.buf q.write_pos dst,
                ),
              );
              reads = f.reads;
            })
      ]

  pub start_read-Flows :
      (k n : ℕ) (q : Ring A) (w : Writer A) (r : Reader A) (sent taken : List A)
      → Flows k (threads q w r sent taken)
      → Flows k (advance (read_begins n) (threads q w r sent taken))
  unfolding advance
  start_read-Flows k n q w (reading src todo m out) sent taken f = f
  start_read-Flows k n q w apart sent taken f = elim (Option-cases (begin_read q n)) [
    | inl refused ↦
        let same : advance (read_begins n) (threads q w apart sent taken)
            ≡ threads q w apart sent taken =
          ground arith in
        subst (Flows k) (sym same) f
    | inr (src, granted) ↦
        let same : advance (read_begins n) (threads q w apart sent taken)
            ≡ threads q w (reading src n n []) sent taken =
          ground arith in
        subst (Flows k) (sym same) (record {
          valid = f.valid;
          whole = f.whole;
          writes = f.writes;
          reads = (
            ground (arith, begin_read_lem n f.valid),
            ground (arith, begin_read_lem n f.valid),
            ground (arith, begin_read_lem n f.valid),
            ground (arith, begin_read_lem n f.valid),
            ground (arith, begin_read_lem n f.valid, segment-nil q.buf q.read_pos src),
          );
        })
  ]

  -- A copy into the ring does not touch what is being read.
  pub ReadsOn-copy :
      (k : ℕ) (q : Ring A) (r : Reader A) (dst : ℕ) (x : A)
      → IsValid k q
      → q.write_pos ≤ dst
      → used q + (dst - q.write_pos) + 1 < q.cap
      → ReadsOn q r
      → ReadsOn (record q { buf = splice q.buf dst (x ∷ []) }) r
  ReadsOn-copy k q apart dst x v le room f = tt
  ReadsOn-copy k q (reading src todo n out) dst x v le room (a, b, c, d, e) = (
    a,
    b,
    c,
    d,
    ground (
      arith,
      segment-splice_before q.buf q.read_pos src dst (x ∷ []),
      segment-splice_after q.buf q.read_pos src dst (x ∷ []),
    ),
  )
