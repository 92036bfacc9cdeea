-- ===== src/Ring/Bounds.antt =====
-- The representation invariant of the ring buffer: what the two counts are, that no access leaves
-- the storage, and that every operation keeps it.
use video_player_core.Base.{
  ℕ, ◌+◌, ◌-◌, ◌^◌, ◌≤◌, ◌<◌, ◌≡◌, ◌∙◌, ◌⊎◌, ◌&&◌, none, some, arith, if◌then◌else◌, ltb, leb, ◌==◌,
  length, sub_size, bit_and,
}
use video_player_core.Base.Words.{mask-sub, mask-sub_pred, mask-add, pow-le}
use video_player_core.Ring.{
  Ring, available_read, available_write, begin_write, end_write, begin_read, end_read,
}

module _ {ℓ} {A : Type ℓ} where
  -- The capacity is `2 ^ k`, a `size_t`, and the storage has at least so many slots.
  pub record IsValid (k : ℕ) (q : Ring A) : Type 0 where
    pub small : k < 64
    pub cap_eq : q.cap ≡ 2 ^ k
    pub mask_eq : q.mask ≡ 2 ^ k - 1
    pub write_in : q.write_pos < 2 ^ k
    pub read_in : q.read_pos < 2 ^ k
    pub storage : 2 ^ k ≤ length q.buf

  -- The slots in use, counted without `size_t`.
  abbrev pub used : Ring A → ℕ
  used q =
      if leb q.read_pos q.write_pos
      then q.write_pos - q.read_pos
      else q.write_pos + q.cap - q.read_pos

  pub available_read_lem : {k : ℕ} {q : Ring A} → IsValid k q → available_read q ≡ used q
  unfolding available_read
  available_read_lem {k} {q} v =
      rw (v.mask_eq, v.cap_eq) (mask-sub k v.small q.write_pos q.read_pos v.write_in v.read_in)

  pub available_write_lem :
      {k : ℕ} {q : Ring A} → IsValid k q → available_write q ≡ q.cap - 1 - used q
  unfolding available_write
  available_write_lem {k} {q} v =
      rw (v.mask_eq, v.cap_eq)
        (mask-sub_pred k v.small q.write_pos q.read_pos v.write_in v.read_in ∙ ground arith)

  -- A block is granted exactly where it fits the free slots and does not pass the end.
  pub begin_write_lem :
      {k : ℕ} {q : Ring A} (n : ℕ)
      → IsValid k q
      → begin_write q n
        ≡ (if ltb (used q + n) q.cap && leb (q.write_pos + n) q.cap then some q.write_pos else none)
  unfolding begin_write
  begin_write_lem {k} {q} n v = ground (arith, counted, room, pow-le k v.small)
    where
      counted : bit_and (sub_size (sub_size q.read_pos q.write_pos) 1) q.mask ≡ q.cap - 1 - used q
      counted = unfold available_write in available_write_lem v

      room : sub_size q.cap q.write_pos ≡ q.cap - q.write_pos
      room = omega (arith, v.cap_eq, v.write_in, pow-le k v.small)

  pub begin_read_lem :
      {k : ℕ} {q : Ring A} (n : ℕ)
      → IsValid k q
      → begin_read q n
        ≡ (if leb n (used q) && leb (q.read_pos + n) q.cap then some q.read_pos else none)
  unfolding begin_read
  begin_read_lem {k} {q} n v = ground (arith, counted, room, pow-le k v.small)
    where
      counted : bit_and (sub_size q.write_pos q.read_pos) q.mask ≡ used q
      counted = unfold available_read in available_read_lem v

      room : sub_size q.cap q.read_pos ≡ q.cap - q.read_pos
      room = omega (arith, v.cap_eq, v.read_in, pow-le k v.small)

  -- The pointers that are handed out stay inside the storage, the whole block included.
  pub begin_in_bounds :
      {k : ℕ} {q : Ring A} (n p : ℕ)
      → IsValid k q
      → (begin_write q n ≡ some p) ⊎ (begin_read q n ≡ some p)
      → p + n ≤ length q.buf
  begin_in_bounds n p v h = ground (arith, begin_write_lem n v, begin_read_lem n v)

  -- Where the positions go, below the end and at it.
  pub end_write_lem :
      {k : ℕ} {q : Ring A} (n : ℕ)
      → IsValid k q
      → q.write_pos + n ≤ q.cap
      → (end_write q n).write_pos ≡ (if q.write_pos + n == q.cap then 0 else q.write_pos + n)
  unfolding end_write
  end_write_lem {k} {q} n v h =
      rw (v.mask_eq, v.cap_eq) (mask-add k v.small q.write_pos n (omega (arith, v.cap_eq)))

  pub end_read_lem :
      {k : ℕ} {q : Ring A} (n : ℕ)
      → IsValid k q
      → q.read_pos + n ≤ q.cap
      → (end_read q n).read_pos ≡ (if q.read_pos + n == q.cap then 0 else q.read_pos + n)
  unfolding end_read
  end_read_lem {k} {q} n v h =
      rw (v.mask_eq, v.cap_eq) (mask-add k v.small q.read_pos n (omega (arith, v.cap_eq)))
