-- ===== src/WaitGroup/Counter.antt =====
-- The counter by itself: what `Add` makes of it on each of its three endings, the spin loop, and the
-- guard of a task.
use video_player_core.Base.{
  ℕ, zero, suc, ◌-◌, ◌^◌, ◌<◌, ◌≡◌, ◌↔◌, true, arith, inl, inr, Bool-cases,
}
use video_player_core.Base.Int.{ℤ, pos, negsuc, ◌+ℤ◌, ltℤ, leℤ}
use video_player_core.WaitGroup.{notifies, throws, add, is_zero, spin, wrap_int}

abbrev pub InRange : ℤ → Type 0
InRange z = (leℤ (negsuc (2 ^ 31 - 1)) z ≡ true) × (leℤ z (pos (2 ^ 31 - 1)) ≡ true)

wrap_int-eq : (z : ℤ) → InRange z → wrap_int z ≡ z
wrap_int-eq (pos n) h = ground arith
wrap_int-eq (negsuc n) h = ground arith

-- Where the sum is an `int`, `Add` stores it on every ending, also where it throws; it throws exactly
-- below zero, and notifies exactly at zero.
pub add_lem :
    (delta c : ℤ)
    → InRange (c +ℤ delta)
    → ((add delta c).0 ≡ c +ℤ delta)
      × (((add delta c).1 ≡ throws) ↔ (ltℤ (c +ℤ delta) (pos 0) ≡ true))
      × (((add delta c).1 ≡ notifies) ↔ (c +ℤ delta ≡ pos 0))
unfolding add
add_lem delta c h = (
  ground (arith, wrap_int-eq (c +ℤ delta) h),
  (ground (arith, wrap_int-eq (c +ℤ delta) h), ground (arith, wrap_int-eq (c +ℤ delta) h)),
  (ground (arith, wrap_int-eq (c +ℤ delta) h), ground (arith, wrap_int-eq (c +ℤ delta) h)),
)

-- The spin loop returns exactly where one of its loads sees zero.
pub spin_iff :
    (rounds : ℕ) (loads : ℕ → ℤ)
    → (spin rounds loads ≡ true) ↔ ((i : ℕ) × (i < rounds) × (is_zero (loads i) ≡ true))
unfolding spin
spin_iff zero loads = (λ e. cc, λ h. absurd (omega (arith, h.1)))
spin_iff (suc rounds) loads = go (spin_iff rounds (λ i. loads (suc i)))
  where
    go :
        ((spin rounds (λ i. loads (suc i)) ≡ true)
          ↔ ((i : ℕ) × (i < rounds) × (is_zero (loads (suc i)) ≡ true)))
        → (spin (suc rounds) loads ≡ true)
          ↔ ((i : ℕ) × (i < suc rounds) × (is_zero (loads i) ≡ true))
    go ih = (from, to)
      where
        from :
            spin (suc rounds) loads ≡ true → (i : ℕ) × (i < suc rounds) × (is_zero (loads i) ≡ true)
        from e = elim (Bool-cases (is_zero (loads 0))) [
          | inl z ↦ (0, omega arith, z)
          | inr nz ↦ let (i, lt, h) = ih.0 (rw nz at e) in (suc i, omega (arith, lt), h)
        ]

        to :
            ((i : ℕ) × (i < suc rounds) × (is_zero (loads i) ≡ true))
            → spin (suc rounds) loads ≡ true
        to (zero, lt, h) = rw h
        to (suc i, lt, h) = elim (Bool-cases (is_zero (loads 0))) [
          | inl z ↦ rw z
          | inr nz ↦ rw nz (ih.1 (i, omega (arith, lt), h))
        ]
