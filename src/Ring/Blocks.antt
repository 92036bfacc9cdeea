-- ===== src/Ring/Blocks.antt =====
-- A ring that is used in blocks of one size, as the byte queue of an audio channel is: no block
-- ever lies across the end, so the contiguity that `begin_write` and `begin_read` ask for costs
-- nothing.
use video_player_core.Base.{
  length-append, ℕ, suc, ◌+◌, ◌-◌, ◌*◌, ◌≤◌, ◌<◌, ◌≡◌, refl, ap, sym, ◌∙◌, ◌⊎◌, ◌↔◌, inl, inr,
  Option, none, List, [], ◌∷◌, arith, ltb, leb, length,
}
use native.Mathlib.Decide.{dec_le, dec_lt}
use native.Mathlib.Nat.{mul-le-mul_left, mul-sub}
use video_player_core.Ring.{Ring, end_write, end_read, write, read}
use video_player_core.Ring.Bounds.{
  IsValid, used, begin_write_lem, begin_read_lem, end_write_lem, end_read_lem,
}
use video_player_core.Ring.Refine.{contents, length-contents, Reads, read-Reads}

-- Positions and capacity are multiples of the block.
pub record IsAligned (b : ℕ) {A : Type 0} (q : Ring A) : Type 0 where
  pub pos : 0 < b
  pub write_block : ℕ
  pub read_block : ℕ
  pub blocks : ℕ
  pub write_eq : q.write_pos ≡ b * write_block
  pub read_eq : q.read_pos ≡ b * read_block
  pub cap_eq : q.cap ≡ b * blocks

-- Comparing multiples is comparing the factors.
lt_of_multiples : (b i j : ℕ) → b * i < b * j → i < j
lt_of_multiples b i j h = elim (dec_lt i j) [
  | yes lt ↦ lt
  | no ge ↦ absurd (omega (arith, mul-le-mul_left {m = j} {n = i} b (omega arith)))
]

next_multiple : (b i j : ℕ) → b * i < b * j → b * i + b ≤ b * j
next_multiple b i j h =
    omega (arith, mul-le-mul_left {m = suc i} {n = j} b (lt_of_multiples b i j h))

nil_of_length : {A : Type 0} (xs : List A) → length xs ≡ 0 → xs ≡ []
nil_of_length [] e = refl
nil_of_length (x ∷ xs) e = absurd (omega arith)

module _ {A : Type 0} {b k : ℕ} {q : Ring A} (a : IsAligned b q) (v : IsValid k q) where
  write_fits : q.write_pos + b ≤ q.cap
  write_fits = omega (
    arith,
    a.write_eq,
    a.cap_eq,
    next_multiple b a.write_block a.blocks (omega (arith, v.cap_eq, a.write_eq, a.cap_eq)),
  )

  read_fits : q.read_pos + b ≤ q.cap
  read_fits = omega (
    arith,
    a.read_eq,
    a.cap_eq,
    next_multiple b a.read_block a.blocks (omega (arith, v.cap_eq, a.read_eq, a.cap_eq)),
  )

  -- The slots in use are whole blocks.
  used_multiple : (u : ℕ) × (used q ≡ b * u)
  used_multiple = elim (dec_le q.read_pos q.write_pos) [
    | yes le ↦ (
      a.write_block - a.read_block,
      ground (arith, a.write_eq, a.read_eq, mul-sub b a.write_block a.read_block),
    )
    | no gt ↦ (
      a.write_block + a.blocks - a.read_block,
      ground (
        arith,
        a.write_eq,
        a.read_eq,
        a.cap_eq,
        mul-sub b (a.write_block + a.blocks) a.read_block,
      ),
    )
  ]

  -- A free slot for the block is a free slot for two.
  room_iff : ltb (used q + b) q.cap ≡ leb (used q + 2 * b) q.cap
  room_iff =
      let (u, e) = used_multiple in
      ground (arith, e, a.pos, a.cap_eq, next_multiple b (suc u) a.blocks)

  -- A block is taken exactly where two blocks are free: one block stays empty.
  pub write-block :
      (src : List A) → length src ≡ b → (write q src).0 ≡ leb (length (contents q) + 2 * b) q.cap
  unfolding write
  write-block src e =
      ground (arith, begin_write_lem (length src) v, length-contents v, write_fits, room_iff)

  -- A block comes out exactly where the ring is not empty.
  pub read-block : ((read q b).0 ≡ none) ↔ (contents q ≡ [])
  read-block = (from (read q b) (read-Reads b v), to (read q b) (read-Reads b v))
    where
      empty : used q < b → length (contents q) ≡ 0
      empty few =
          let (u, e) = used_multiple in
          let none_used : u ≡ 0 = omega (arith, lt_of_multiples b u 1 (omega arith)) in
          omega (arith, length-contents v, e, ap (λ (t : ℕ). b * t) none_used)

      from : (r : Option (List A) × Ring A) → Reads q b r → r.0 ≡ none → contents q ≡ []
      from r (inl (xs, e, len, split)) n = cc
      from r (inr (e, same, inl few)) n =
          nil_of_length (contents q) (empty (omega (arith, length-contents v)))
      from r (inr (e, same, inr across)) n = absurd (omega (arith, read_fits))

      to : (r : Option (List A) × Ring A) → Reads q b r → contents q ≡ [] → r.0 ≡ none
      to r (inl (xs, e, len, split)) n =
          absurd (omega (arith, a.pos, length-append xs (contents r.1), ap length (sym split ∙ n)))
      to r (inr (e, same, few)) n = e

  -- Where a position can go.
  moved : (p p' i : ℕ) → p ≡ b * i → (p' ≡ p) ⊎ ((p' ≡ p + b) ⊎ (p' ≡ 0)) → (j : ℕ) × (p' ≡ b * j)
  moved p p' i e (inl stays) = (i, omega arith)
  moved p p' i e (inr (inl on)) = (suc i, omega arith)
  moved p p' i e (inr (inr back)) = (0, omega arith)

  -- Writing a block keeps the alignment,
  pub write-IsAligned : (src : List A) → length src ≡ b → IsAligned b (write q src).1
  write-IsAligned src e = record {
    pos = a.pos;
    write_block = to.0;
    read_block = a.read_block;
    blocks = a.blocks;
    write_eq = to.1;
    read_eq = unfold write end_write in ground (arith, begin_write_lem (length src) v, a.read_eq);
    cap_eq = unfold write end_write in ground (arith, begin_write_lem (length src) v, a.cap_eq);
  }
    where
      goes :
          let p = (write q src).1.write_pos in (p ≡ q.write_pos) ⊎ ((p ≡ q.write_pos + b) ⊎ (p ≡ 0))
      goes =
          unfold write end_write in
          ground (arith, begin_write_lem (length src) v, end_write_lem (length src) v)

      to : (j : ℕ) × ((write q src).1.write_pos ≡ b * j)
      to = moved q.write_pos (write q src).1.write_pos a.write_block a.write_eq goes

  -- and so does reading one.
  pub read-IsAligned : IsAligned b (read q b).1
  read-IsAligned = record {
    pos = a.pos;
    write_block = a.write_block;
    read_block = to.0;
    blocks = a.blocks;
    write_eq = unfold read end_read in ground (arith, begin_read_lem b v, a.write_eq);
    read_eq = to.1;
    cap_eq = unfold read end_read in ground (arith, begin_read_lem b v, a.cap_eq);
  }
    where
      goes : let p = (read q b).1.read_pos in (p ≡ q.read_pos) ⊎ ((p ≡ q.read_pos + b) ⊎ (p ≡ 0))
      goes = unfold read end_read in ground (arith, begin_read_lem b v, end_read_lem b v)

      to : (j : ℕ) × ((read q b).1.read_pos ≡ b * j)
      to = moved q.read_pos (read q b).1.read_pos a.read_block a.read_eq goes
