-- ===== src/Ring/Published.antt =====
-- The contents of a ring when a copied block is published, and while it is copied.
use video_player_core.Base.{
  ℕ, ◌+◌, ◌-◌, ◌≤◌, ◌<◌, ◌≡◌, ap, [], ◌∷◌, ◌++◌, append-nil, append_assoc, arith, segment, splice,
}
use native.Mathlib.Decide.{dec_le, ℕ_discrete}
use video_player_core.Base.Segments.{
  segment-nil, segment-append, segment-splice_before, segment-splice_after,
}
use video_player_core.Ring.{Ring, end_write, end_read}
use video_player_core.Ring.Bounds.{IsValid, used, end_write_lem, end_read_lem}
use video_player_core.Ring.Refine.{contents}

module _ {A : Type 0} where
  -- What the copies of a block have put behind the write position becomes contents at its end.
  pub contents-end_write :
      {k : ℕ} {q : Ring A} (n : ℕ)
      → IsValid k q
      → used q + n < q.cap
      → q.write_pos + n ≤ q.cap
      → contents (end_write q n) ≡ contents q ++ segment q.buf q.write_pos (q.write_pos + n)
  unfolding end_write
  contents-end_write {k} {q} n v room fits = elim (dec_le q.read_pos q.write_pos) [
    | yes le ↦ elim (ℕ_discrete (q.write_pos + n) q.cap) [
      | yes e ↦ ground (
        arith,
        end_write_lem n v,
        segment-append q.buf q.read_pos q.write_pos (q.write_pos + n),
        segment-nil q.buf 0 0,
        ap (segment q.buf q.write_pos) e,
        ap (segment q.buf q.read_pos) e,
        append-nil (segment q.buf q.read_pos q.cap),
      )
      | no ne ↦
          ground (
            arith,
            end_write_lem n v,
            segment-append q.buf q.read_pos q.write_pos (q.write_pos + n),
          )
    ]
    | no gt ↦ ground (
      arith,
      end_write_lem n v,
      segment-append q.buf 0 q.write_pos (q.write_pos + n),
      append_assoc (segment q.buf q.read_pos q.cap) (segment q.buf 0 q.write_pos)
          (segment q.buf q.write_pos (q.write_pos + n)),
    )
  ]

  -- A copy into the free region.
  pub contents-copy :
      {k : ℕ} {q : Ring A} (dst : ℕ) (x : A)
      → IsValid k q
      → q.write_pos ≤ dst
      → used q + (dst - q.write_pos) + 1 < q.cap
      → dst + 1 ≤ q.cap
      → contents (record q { buf = splice q.buf dst (x ∷ []) }) ≡ contents q
  contents-copy {k} {q} dst x v le room fits = ground (
    arith,
    segment-splice_before q.buf q.read_pos q.write_pos dst (x ∷ []),
    segment-splice_before q.buf 0 q.write_pos dst (x ∷ []),
    segment-splice_after q.buf q.read_pos q.cap dst (x ∷ []),
  )

  pub end_write-IsValid :
      {k : ℕ} {q : Ring A} (n : ℕ)
      → IsValid k q
      → q.write_pos + n ≤ q.cap
      → IsValid k (end_write q n)
  unfolding end_write
  end_write-IsValid {k} {q} n v fits = record {
    small = v.small;
    cap_eq = v.cap_eq;
    mask_eq = v.mask_eq;
    write_in = ground (arith, end_write_lem n v, v.cap_eq);
    read_in = v.read_in;
    storage = v.storage;
  }

  pub end_read-IsValid :
      {k : ℕ} {q : Ring A} (n : ℕ) → IsValid k q → q.read_pos + n ≤ q.cap → IsValid k (end_read q n)
  unfolding end_read
  end_read-IsValid {k} {q} n v fits = record {
    small = v.small;
    cap_eq = v.cap_eq;
    mask_eq = v.mask_eq;
    write_in = v.write_in;
    read_in = ground (arith, end_read_lem n v, v.cap_eq);
    storage = v.storage;
  }
