-- ===== src/Double.antt =====
-- What the clocks and the display threads ask of `double`: a parameter, with the laws of IEEE 754
-- comparisons that the theorems use. `ticks` is an instance: a NaN, and exact millionths.
use video_player_core.Base.{◌*◌, ◌≡◌, refl, Bool, true, false, not, ◌||◌, Option, none, some, arith}
use video_player_core.Base.Int.{ℤ, pos, ◌-ℤ◌, ltℤ, leℤ, pos_part, neg_part, sub_ℕ}

pub record Double : Type 1 where
  pub Value : Type 0
  pub nan : Value
  pub nought : Value
  pub hundredth : Value  -- 0.01
  pub tenth : Value  -- 0.1
  pub is_nan : Value → Bool
  pub sub : Value → Value → Value
  pub minus_twice : Value → Value  -- -2 * x
  pub lt : Value → Value → Bool
  pub ge : Value → Value → Bool
  pub ne : Value → Value → Bool
  pub nan_is_nan : is_nan nan ≡ true
  pub wait_is_positive : lt nought hundredth ≡ true
  pub not_ge : (a b : Value) → is_nan a ≡ false → is_nan b ≡ false → ge a b ≡ false → lt a b ≡ true
  pub lt_asymm : (a b : Value) → lt a b ≡ true → lt b a ≡ false

abbrev pub Tick : Type 0
Tick = Option ℤ

-- Any comparison with a NaN is false.
abbrev pub both : (ℤ → ℤ → Bool) → Tick → Tick → Bool
both test none b = false
both test (some a) none = false
both test (some a) (some b) = test a b

abbrev pub none_is_nan : Tick → Bool
none_is_nan none = true
none_is_nan (some _) = false

abbrev pub tick_sub : Tick → Tick → Tick
tick_sub none b = none
tick_sub (some a) none = none
tick_sub (some a) (some b) = some (a -ℤ b)

abbrev pub tick_minus_twice : Tick → Tick
tick_minus_twice none = none
tick_minus_twice (some a) = some (sub_ℕ (2 * neg_part a) (2 * pos_part a))

pub tick_not_ge :
    (a b : Tick)
    → none_is_nan a ≡ false
    → none_is_nan b ≡ false
    → both (λ x y. leℤ y x) a b ≡ false
    → both ltℤ a b ≡ true
tick_not_ge none b p q h = cc
tick_not_ge (some a) none p q h = cc
tick_not_ge (some a) (some b) p q h = ground arith

pub tick_asymm : (a b : Tick) → both ltℤ a b ≡ true → both ltℤ b a ≡ false
tick_asymm none b h = cc
tick_asymm (some a) none h = cc
tick_asymm (some a) (some b) h = ground arith

abbrev pub ticks : Double
ticks = record {
  Value = Tick;
  nan = none;
  nought = some (pos 0);
  hundredth = some (pos 10_000);
  tenth = some (pos 100_000);
  is_nan = none_is_nan;
  sub = tick_sub;
  minus_twice = tick_minus_twice;
  lt = both ltℤ;
  ge = both (λ x y. leℤ y x);
  ne = λ a b. not (both (λ x y. not (ltℤ x y || ltℤ y x)) a b);
  nan_is_nan = refl;
  wait_is_positive = refl;
  not_ge = tick_not_ge;
  lt_asymm = tick_asymm;
}
