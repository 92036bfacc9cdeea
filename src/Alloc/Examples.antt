-- ===== src/Alloc/Examples.antt =====
-- The sizes at a few inputs.
use video_player_core.Base.{◌≤◌, ◌<◌, ◌≡◌, refl, arith, ◌∷◌, [], map, ℕ, ◌^◌}
use video_player_core.Alloc.{next_pow2}
use video_player_core.Alloc.Power.{next_pow2_lem}

next_pow2_values :
    map next_pow2 (0 ∷ 1 ∷ 2 ∷ 3 ∷ 64 ∷ 65 ∷ 8200 ∷ []) ≡ 1 ∷ 1 ∷ 2 ∷ 4 ∷ 64 ∷ 128 ∷ 16384 ∷ []
unfolding next_pow2
next_pow2_values = refl

next_pow2_example :
    (8200 ≤ 2 ^ 63
      → (k : ℕ) × (next_pow2 8200 ≡ 2 ^ k)
        × (8200 ≤ 2 ^ k)
        × ((j : ℕ) → 8200 ≤ 2 ^ j → 2 ^ k ≤ 2 ^ j))
    × (2 ^ 63 < 8200 → next_pow2 8200 ≡ 0)
next_pow2_example = next_pow2_lem 8200 (omega arith)
