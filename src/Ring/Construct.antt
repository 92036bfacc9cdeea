-- ===== src/Ring/Construct.antt =====
-- The constructor of the dynamic ring buffer: which capacities it takes, and what it makes.
use video_player_core.Base.{
  ℕ, ◌+◌, ◌-◌, ◌*◌, ◌^◌, ◌≤◌, ◌<◌, ◌≡◌, ap, ◌∙◌, ◌↔◌, inl, inr, Bool, false, Bool-cases,
  Option-cases, Option, none, some, List, arith, if◌then◌else◌, ◌==◌, length, bit_and, sub_size,
  mul_size, size_mod, not, ◌||◌,
}
use native.Mathlib.Decide.{dec_lt}
use native.Mathlib.Nat.{le-mul_of_pos_right, le_of_mul-le-mul_right, pow-le-pow_right}
use video_player_core.Base.Bits.{pow_of_test, bit_and-pow_pred, pow_pos}
use video_player_core.Alloc.{cache_line, aligned_alloc_safe, round_size}
use video_player_core.Alloc.Rounding.{round_size_bounds}
use video_player_core.Ring.{Ring, made, invalid_argument, bad_alloc, init, available_read}
use video_player_core.Ring.Bounds.{IsValid, available_read_lem, used}

-- A power of two that is a `size_t` has an exponent below 64.
exponent_small : (k : ℕ) → 2 ^ k < size_mod → k < 64
exponent_small k h = elim (dec_lt k 64) [
  | yes lt ↦ lt
  | no ge ↦
      absurd (omega (arith, pow-le-pow_right {n = 2} (omega arith) {i = 64} {j = k} (omega arith)))
]

-- The constructor's test.
abbrev refuses : ℕ → Bool
refuses capacity = capacity == 0 || not (bit_and capacity (sub_size capacity 1) == 0)

test_iff : (c : ℕ) → c < size_mod → (refuses c ≡ false) ↔ ((k : ℕ) × (c ≡ 2 ^ k))
test_iff c h = (forward, backward)
  where
    pred : 0 < c → sub_size c 1 ≡ c - 1
    pred pos = omega arith

    forward : refuses c ≡ false → (k : ℕ) × (c ≡ 2 ^ k)
    forward e = pow_of_test c (ground arith) (ground (arith, ap (bit_and c) (pred (ground arith))))

    backward : (k : ℕ) × (c ≡ 2 ^ k) → refuses c ≡ false
    backward (k, e) =
        ground (arith, pow_pos k, pred (omega (arith, pow_pos k, e)), bit_and-pow_pred k)

module _ {ℓ} {A : Type ℓ} (aligned_alloc : ℕ → ℕ → Option (List A)) (size_of capacity : ℕ) where
  -- What the constructor does once the capacity has passed its test.
  init-accepted :
      refuses capacity ≡ false
      → init aligned_alloc size_of capacity
        ≡ elim (aligned_alloc_safe aligned_alloc cache_line (mul_size capacity size_of)) [
          | none ↦ bad_alloc
          | some storage ↦ made (record {
            write_pos = 0;
            read_pos = 0;
            buf = storage;
            cap = capacity;
            mask = sub_size capacity 1;
          })
        ]
  unfolding init
  init-accepted e = rw (e, if◌then◌else◌)

  -- For a `size_t` capacity, `std::invalid_argument` is thrown exactly where it is no power of two.
  pub init-invalid :
      capacity < size_mod
      → (init aligned_alloc size_of capacity ≡ invalid_argument)
        ↔ (¬ ((k : ℕ) × (capacity ≡ 2 ^ k)))
  init-invalid h = (forward, backward)
    where
      forward :
          init aligned_alloc size_of capacity ≡ invalid_argument → ¬ ((k : ℕ) × (capacity ≡ 2 ^ k))
      forward e p = ground (arith, e, init-accepted ((test_iff capacity h).1 p))

      backward :
          ¬ ((k : ℕ) × (capacity ≡ 2 ^ k)) → init aligned_alloc size_of capacity ≡ invalid_argument
      backward n = elim (Bool-cases (refuses capacity)) [
        | inl bad ↦ unfold init in ground arith
        | inr ok ↦ absurd (n ((test_iff capacity h).0 ok))
      ]

  storage : Option (List A)
  storage = aligned_alloc cache_line (round_size cache_line (mul_size capacity size_of))

  -- The fields of what was made.
  record IsMade (s : List A) (q : Ring A) : Type ℓ where
    allocated : storage ≡ some s
    writes : q.write_pos ≡ 0
    reads : q.read_pos ≡ 0
    holds : q.buf ≡ s
    capped : q.cap ≡ capacity
    masked : q.mask ≡ sub_size capacity 1

  init-IsMade :
      {q : Ring A}
      → refuses capacity ≡ false
      → init aligned_alloc size_of capacity ≡ made q
      → (s : List A) × IsMade s q
  unfolding storage aligned_alloc_safe
  init-IsMade {q} ok e = elim (Option-cases storage) [
    | inl no_memory ↦ absurd (ground (arith, e, init-accepted ok, no_memory))
    | inr (s, got) ↦ (
      s,
      record {
        allocated = got;
        writes = ground (arith, e, init-accepted ok, got);
        reads = ground (arith, e, init-accepted ok, got);
        holds = ground (arith, e, init-accepted ok, got);
        capped = ground (arith, e, init-accepted ok, got);
        masked = ground (arith, e, init-accepted ok, got);
      },
    )
  ]

  -- If an allocation of `n` bytes holds at least `n` bytes, and the size in bytes does not wrap,
  -- then what the constructor makes is valid, has the capacity asked for, and is empty.
  pub init-IsValid :
      {q : Ring A}
      → ((align n : ℕ) (s : List A) → aligned_alloc align n ≡ some s → n ≤ length s * size_of)
      → 0 < size_of
      → capacity * size_of + 63 < size_mod
      → init aligned_alloc size_of capacity ≡ made q
      → (k : ℕ) × IsValid k q × (q.cap ≡ capacity) × (available_read q ≡ 0)
  unfolding storage
  init-IsValid {q} enough pos fits e = elim (Bool-cases (refuses capacity)) [
    | inl bad ↦ absurd (unfold init in ground arith)
    | inr ok ↦
        let (k, pow) = (test_iff capacity in_size).0 ok in
        let (s, m) = init-IsMade ok e in
        let v = valid k pow s m in (k, v, m.capped, available_read_lem v ∙ empty s m)
  ]
    where
      in_size : capacity < size_mod
      in_size = omega (arith, le-mul_of_pos_right capacity pos)

      room : (s : List A) → storage ≡ some s → capacity ≤ length s
      room s got =
          le_of_mul-le-mul_right {k = size_of}
            (omega
              (arith, round_size_bounds (mul_size capacity size_of), enough cache_line _ s got))
            pos

      valid : (k : ℕ) → capacity ≡ 2 ^ k → (s : List A) → IsMade s q → IsValid k q
      valid k pow s m = record {
        small = exponent_small k (omega (arith, in_size));
        cap_eq = m.capped ∙ pow;
        mask_eq = omega (arith, m.masked, pow_pos k, in_size);
        write_in = omega (arith, m.writes, pow_pos k);
        read_in = omega (arith, m.reads, pow_pos k);
        storage = omega (arith, ap length m.holds, room s m.allocated);
      }

      empty : (s : List A) → IsMade s q → used q ≡ 0
      empty s m = ground (arith, m.writes, m.reads)
