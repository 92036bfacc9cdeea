-- ===== src/Ring/Refine.antt =====
-- The contents of a valid ring, oldest first, under the operations; and the whole ring, used one
-- element at a time, against the bounded queue.
use video_player_core.Base.{
  false, Bool-cases, ℕ, ◌+◌, ◌-◌, ◌≤◌, ◌<◌, ◌≡◌, refl, ap, ap₂, sym, ◌∙◌, ◌⊎◌, inl, inr, Bool, true,
  ◌&&◌, Option, none, some, List, [], ◌∷◌, ◌++◌, append-nil, append_assoc, arith, if◌then◌else◌,
  ltb, leb, length, length-append, segment, splice,
}
use native.Mathlib.Decide.{dec_le, ℕ_discrete}
use video_player_core.Base.Segments.{
  length-segment, segment-nil, segment-append, segment-splice_self, segment-splice_before,
  segment-splice_after,
}
use video_player_core.Fifo
use video_player_core.Fifo.{Op, put, get, Reply, accepted, got}
use video_player_core.Ring.{Ring, end_write, end_read, write, read, head_of, run}
use video_player_core.Ring.Bounds.{
  IsValid, used, begin_write_lem, begin_read_lem, end_write_lem, end_read_lem,
}
use video_player_core.Ring.Invariant.{write-IsValid, read-IsValid}

module _ {A : Type 0} where
  -- From the read position up to the write position, round the end where that lies behind.
  abbrev pub contents : Ring A → List A
  contents q =
      if leb q.read_pos q.write_pos
      then segment q.buf q.read_pos q.write_pos
      else segment q.buf q.read_pos q.cap ++ segment q.buf 0 q.write_pos

  pub length-contents : {k : ℕ} {q : Ring A} → IsValid k q → length (contents q) ≡ used q
  length-contents {q = q} v = ground (
    arith,
    length-segment q.buf q.read_pos q.write_pos,
    length-segment q.buf q.read_pos q.cap,
    length-segment q.buf 0 q.write_pos,
    length-append (segment q.buf q.read_pos q.cap) (segment q.buf 0 q.write_pos),
  )

  -- A region that ends where a block is copied to grows by that block.
  segment-extend :
      (b : List A) (i w j : ℕ) (src : List A)
      → i ≤ w
      → w + length src ≡ j
      → j ≤ length b
      → segment (splice b w src) i j ≡ segment b i w ++ src
  segment-extend b i w j src le e fits =
      sym (segment-append (splice b w src) i w j le (omega arith))
      ∙ ap₂ ◌++◌ (segment-splice_before b i w w src (omega arith))
          (segment-splice_self b w j src e fits)

  abbrev after_write : Ring A → List A → Ring A
  after_write q src = end_write (record q { buf = splice q.buf q.write_pos src }) (length src)

  contents-after_write :
      {k : ℕ} {q : Ring A} (src : List A)
      → IsValid k q
      → used q + length src < q.cap
      → q.write_pos + length src ≤ q.cap
      → contents (after_write q src) ≡ contents q ++ src
  unfolding end_write
  contents-after_write {k} {q} src v room fits = elim (dec_le r w) [
    | yes le ↦ elim (ℕ_discrete (w + n) c) [
      | yes e ↦ ground (
        arith,
        end_write_lem n v,
        segment-extend b r w c src le e,
        segment-nil (splice b w src) 0 0,
        append-nil (segment b r w ++ src),
      )
      | no ne ↦ ground (arith, end_write_lem n v, segment-extend b r w (w + n) src le refl)
    ]
    | no gt ↦ ground (
      arith,
      end_write_lem n v,
      segment-extend b 0 w (w + n) src,
      segment-splice_after b r c w src,
      append_assoc (segment b r c) (segment b 0 w) src,
    )
  ]
    where
      open q use {buf as b, read_pos as r, write_pos as w, cap as c}

      n : ℕ
      n = length src

  -- `write` takes a block exactly where it leaves a slot free and does not pass the end; then the
  -- block is appended to what the ring holds, and otherwise nothing of the ring changes.
  pub contents-write :
      {k : ℕ} {q : Ring A} (src : List A)
      → IsValid k q
      → ((write q src).0
          ≡ (ltb (length (contents q) + length src) q.cap && leb (q.write_pos + length src) q.cap))
        × (contents (write q src).1 ≡ (if (write q src).0 then contents q ++ src else contents q))
        × ((write q src).0 ≡ false → (write q src).1 ≡ q)
  unfolding write
  contents-write {k} {q} src v = (
    ground (arith, begin_write_lem (length src) v, length-contents v),
    ground (arith, begin_write_lem (length src) v, contents-after_write src v),
    λ refused. ground (arith, begin_write_lem (length src) v),
  )

  -- `read` gives out a block exactly where so many elements are there and do not pass the end; it is
  -- the oldest elements, in order, and the rest stays. Otherwise the ring is as before.
  abbrev after_read : Ring A → ℕ → List A × List A
  after_read q n = (segment q.buf q.read_pos (q.read_pos + n), contents (end_read q n))

  pub contents-after_read :
      {k : ℕ} {q : Ring A} (n : ℕ)
      → IsValid k q
      → n ≤ used q
      → q.read_pos + n ≤ q.cap
      → segment q.buf q.read_pos (q.read_pos + n) ++ contents (end_read q n) ≡ contents q
  unfolding end_read
  contents-after_read {k} {q} n v enough fits = elim (dec_le r w) [
    | yes le ↦ elim (ℕ_discrete (r + n) c) [
      | yes e ↦ absurd (ground arith)
      | no ne ↦ ground (arith, end_read_lem n v, segment-append b r (r + n) w)
    ]
    | no gt ↦ elim (ℕ_discrete (r + n) c) [
      | yes e ↦ ground (arith, end_read_lem n v, ap (segment b r) e)
      | no ne ↦ ground (
        arith,
        end_read_lem n v,
        segment-append b r (r + n) c,
        append_assoc (segment b r (r + n)) (segment b (r + n) c) (segment b 0 w),
      )
    ]
  ]
    where
      open q use {buf as b, read_pos as r, write_pos as w, cap as c}

  -- Either a block comes out: it is the oldest `n` elements in order, and the rest stays; or
  -- nothing changes, and so many are not there or lie across the end.
  abbrev pub Reads : Ring A → ℕ → Option (List A) × Ring A → Type 0
  Reads q n (out, q') =
      ((xs : List A) × (out ≡ some xs) × (length xs ≡ n) × (contents q ≡ xs ++ contents q'))
      ⊎ ((out ≡ none) × (q' ≡ q) × ((length (contents q) < n) ⊎ (q.cap < q.read_pos + n)))

  read_lem :
      {k : ℕ} {q : Ring A} (n : ℕ)
      → IsValid k q
      → read q n ≡ (
          if leb n (used q) && leb (q.read_pos + n) q.cap
          then (some (segment q.buf q.read_pos (q.read_pos + n)), end_read q n)
          else (none, q))
  unfolding read
  read_lem n v = ground (arith, begin_read_lem n v)

  -- Any `read` of a valid ring gives out the oldest `n` elements in order and keeps the rest; or it
  -- gives nothing out and changes nothing of the ring, and then so many elements are not there or
  -- would pass the end.
  pub read-Reads : {k : ℕ} {q : Ring A} (n : ℕ) → IsValid k q → Reads q n (read q n)
  read-Reads {k} {q} n v = elim (Bool-cases fits) [
    | inl y ↦
        rw (read_lem n v, y)
          (inl (
            segment q.buf q.read_pos (q.read_pos + n),
            refl,
            omega (arith, length-segment q.buf q.read_pos (q.read_pos + n), inside y),
            sym (contents-after_read n v (ground arith) (ground arith)),
          ))
    | inr f ↦ rw (read_lem n v, f) (inr (refl, refl, ground (arith, length-contents v)))
  ]
    where
      fits : Bool
      fits = leb n (used q) && leb (q.read_pos + n) q.cap

      inside : fits ≡ true → q.read_pos + n ≤ length q.buf
      inside y = ground arith

  -- One element at a time, `write` is the queue's `push`.
  pub push_refines :
      {k : ℕ} {q : Ring A} (x : A)
      → IsValid k q
      → let (ok, q') = write q (x ∷ []) in (ok, contents q') ≡ Fifo.push (q.cap - 1) (contents q) x
  unfolding Fifo.push
  push_refines x v =
      let (ok, holds, same) = contents-write (x ∷ []) v in
      ground (arith, ok, holds, length-contents v)

  head_of-pop :
      (xs rest all : List A)
      → length xs ≡ 1
      → all ≡ xs ++ rest
      → (head_of (some xs), rest) ≡ Fifo.pop all
  unfolding Fifo.pop
  head_of-pop [] rest all len e = absurd (omega arith)
  head_of-pop (x ∷ []) rest all len e = rw e
  head_of-pop (x ∷ y ∷ ys) rest all len e = absurd (omega arith)

  pop-short : (q : List A) → length q < 1 → Fifo.pop q ≡ (none, q)
  unfolding Fifo.pop
  pop-short [] h = refl
  pop-short (x ∷ q) h = absurd (omega arith)

  -- And `read` is its `pop`.
  pub pop_refines :
      {k : ℕ} {q : Ring A}
      → IsValid k q
      → let (out, q') = read q 1 in (head_of out, contents q') ≡ Fifo.pop (contents q)
  pop_refines {q = q} v = from (read q 1) (read-Reads 1 v)
    where
      from :
          (r : Option (List A) × Ring A)
          → Reads q 1 r
          → (head_of r.0, contents r.1) ≡ Fifo.pop (contents q)
      from r (inl (xs, e, len, split)) = rw e (head_of-pop xs (contents r.1) (contents q) len split)
      from r (inr (e, same, inl few)) = rw (e, same) (sym (pop-short (contents q) few))
      from r (inr (e, same, inr across)) = absurd (omega (arith, v.cap_eq, v.read_in))

  cap-write : (q : Ring A) (src : List A) → (write q src).1.cap ≡ q.cap
  unfolding write end_write
  cap-write q src = ground arith

  cap-read : (q : Ring A) (n : ℕ) → (read q n).1.cap ≡ q.cap
  unfolding read end_read
  cap-read q n = ground arith

  -- No sequence of one-element calls tells a valid ring from the bounded queue of its contents,
  -- whose bound is one less than the capacity.
  pub run_refines :
      (ops : List (Op A)) {k : ℕ} {q : Ring A}
      → IsValid k q
      → run q ops ≡ Fifo.run (q.cap - 1) (contents q) ops
  unfolding run Fifo.run
  run_refines [] v = refl
  run_refines (put x ∷ ops) v =
      rw (run_refines ops (write-IsValid (x ∷ []) v), ← push_refines x v, cap-write)
  run_refines (get ∷ ops) v = rw (run_refines ops (read-IsValid 1 v), ← pop_refines v, cap-read)
