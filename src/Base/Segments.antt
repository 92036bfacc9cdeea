-- ===== src/Base/Segments.antt =====
-- Regions of an array: `segment buf i j` is `buf[i..j)`, and `splice buf i src` the array after
-- `memcpy(buf + i, src, n)` of the `n` elements of `src`. A copy past the end is cut there.
use Prim.Native.Nat.{ℕ, zero, suc, ◌+◌, ◌-◌, ◌≤◌}
use mathlib.Core.Path.{◌≡◌, refl, sym, ap, ◌∙◌}
use mathlib.Core.List.{List, [], ◌∷◌, ◌++◌}
use mathlib.Core.Option.{some}
use native.Mathlib.Omega.{arith}
use video_player_core.Base.Lists.{length, get_elem?}

module _ {ℓ} {A : Type ℓ} where
  abbrev pub segment : List A → ℕ → ℕ → List A
  segment [] i j = []
  segment (x ∷ xs) i zero = []
  segment (x ∷ xs) zero (suc j) = x ∷ segment xs zero j
  segment (x ∷ xs) (suc i) (suc j) = segment xs i j

  abbrev pub splice : List A → ℕ → List A → List A
  splice [] i src = []
  splice (x ∷ xs) zero [] = x ∷ xs
  splice (x ∷ xs) zero (y ∷ ys) = y ∷ splice xs zero ys
  splice (x ∷ xs) (suc i) src = x ∷ splice xs i src

  pub length-splice : (xs : List A) (i : ℕ) (src : List A) → length (splice xs i src) ≡ length xs
  length-splice [] i src = refl
  length-splice (x ∷ xs) zero [] = refl
  length-splice (x ∷ xs) zero (y ∷ ys) = ap suc (length-splice xs zero ys)
  length-splice (x ∷ xs) (suc i) src = ap suc (length-splice xs i src)

  pub segment-nil : (xs : List A) (i j : ℕ) → j ≤ i → segment xs i j ≡ []
  segment-nil [] i j h = refl
  segment-nil (x ∷ xs) i zero h = refl
  segment-nil (x ∷ xs) zero (suc j) h = absurd (omega arith)
  segment-nil (x ∷ xs) (suc i) (suc j) h = segment-nil xs i j (omega arith)

  pub length-segment : (xs : List A) (i j : ℕ) → j ≤ length xs → length (segment xs i j) ≡ j - i
  length-segment [] i j h = omega arith
  length-segment (x ∷ xs) i zero h = omega arith
  length-segment (x ∷ xs) zero (suc j) h = omega (arith, length-segment xs zero j (omega arith))
  length-segment (x ∷ xs) (suc i) (suc j) h = omega (arith, length-segment xs i j (omega arith))

  pub segment-append :
      (xs : List A) (i j k : ℕ) → i ≤ j → j ≤ k → segment xs i j ++ segment xs j k ≡ segment xs i k
  segment-append [] i j k p q = refl
  segment-append (x ∷ xs) zero zero zero p q = refl
  segment-append (x ∷ xs) zero zero (suc k) p q = refl
  segment-append (x ∷ xs) zero (suc j) zero p q = absurd (omega arith)
  segment-append (x ∷ xs) zero (suc j) (suc k) p q =
      ap (λ ys. x ∷ ys) (segment-append xs zero j k (omega arith) (omega arith))
  segment-append (x ∷ xs) (suc i) zero k p q = absurd (omega arith)
  segment-append (x ∷ xs) (suc i) (suc j) zero p q = absurd (omega arith)
  segment-append (x ∷ xs) (suc i) (suc j) (suc k) p q =
      segment-append xs i j k (omega arith) (omega arith)

  -- The copied region holds the source.
  pub segment-splice_self :
      (xs : List A) (i j : ℕ) (src : List A)
      → i + length src ≡ j
      → j ≤ length xs
      → segment (splice xs i src) i j ≡ src
  segment-splice_self [] i j [] e h = refl
  segment-splice_self [] i j (y ∷ ys) e h = absurd (omega arith)
  segment-splice_self (x ∷ xs) zero zero [] e h = refl
  segment-splice_self (x ∷ xs) zero zero (y ∷ ys) e h = absurd (omega arith)
  segment-splice_self (x ∷ xs) zero (suc j) [] e h = absurd (omega arith)
  segment-splice_self (x ∷ xs) zero (suc j) (y ∷ ys) e h =
      ap (λ zs. y ∷ zs) (segment-splice_self xs zero j ys (omega arith) (omega arith))
  segment-splice_self (x ∷ xs) (suc i) zero src e h = absurd (omega arith)
  segment-splice_self (x ∷ xs) (suc i) (suc j) src e h =
      segment-splice_self xs i j src (omega arith) (omega arith)

  -- What lies before it or behind it stays.
  pub segment-splice_before :
      (xs : List A) (i j p : ℕ) (src : List A)
      → j ≤ p
      → segment (splice xs p src) i j ≡ segment xs i j
  segment-splice_before [] i j p src h = refl
  segment-splice_before (x ∷ xs) i zero zero [] h = refl
  segment-splice_before (x ∷ xs) i zero zero (y ∷ ys) h = refl
  segment-splice_before (x ∷ xs) i zero (suc p) src h = refl
  segment-splice_before (x ∷ xs) i (suc j) zero src h = absurd (omega arith)
  segment-splice_before (x ∷ xs) zero (suc j) (suc p) src h =
      ap (λ zs. x ∷ zs) (segment-splice_before xs zero j p src (omega arith))
  segment-splice_before (x ∷ xs) (suc i) (suc j) (suc p) src h =
      segment-splice_before xs i j p src (omega arith)

  pub segment-splice_after :
      (xs : List A) (i j p : ℕ) (src : List A)
      → p + length src ≤ i
      → segment (splice xs p src) i j ≡ segment xs i j
  segment-splice_after [] i j p src h = refl
  segment-splice_after (x ∷ xs) i zero zero [] h = refl
  segment-splice_after (x ∷ xs) i zero zero (y ∷ ys) h = refl
  segment-splice_after (x ∷ xs) i zero (suc p) src h = refl
  segment-splice_after (x ∷ xs) i (suc j) zero [] h = refl
  segment-splice_after (x ∷ xs) zero (suc j) zero (y ∷ ys) h = absurd (omega arith)
  segment-splice_after (x ∷ xs) (suc i) (suc j) zero (y ∷ ys) h =
      segment-splice_after xs i j zero ys (omega arith)
  segment-splice_after (x ∷ xs) zero (suc j) (suc p) src h = absurd (omega arith)
  segment-splice_after (x ∷ xs) (suc i) (suc j) (suc p) src h =
      segment-splice_after xs i j p src (omega arith)

  pub segment_prefix :
      (xs ys : List A) (n : ℕ) → n ≤ length xs → segment (xs ++ ys) 0 n ≡ segment xs 0 n
  segment_prefix [] ys zero h = segment-nil ys 0 0 (omega arith)
  segment_prefix [] ys (suc n) h = absurd (omega arith)
  segment_prefix (x ∷ xs) ys zero h = refl
  segment_prefix (x ∷ xs) ys (suc n) h = ap (λ zs. x ∷ zs) (segment_prefix xs ys n (omega arith))

  pub segment_whole : (xs : List A) (n : ℕ) → length xs ≡ n → segment xs 0 n ≡ xs
  segment_whole [] n h = refl
  segment_whole (x ∷ xs) zero h = absurd (omega arith)
  segment_whole (x ∷ xs) (suc n) h = ap (λ zs. x ∷ zs) (segment_whole xs n (omega arith))

  pub segment-segment :
      (xs : List A) (i j m k : ℕ)
      → i + m ≡ k
      → k ≤ j
      → segment (segment xs i j) 0 m ≡ segment xs i k
  segment-segment [] i j m k e h = refl
  segment-segment (x ∷ xs) i zero m k e h = sym (segment-nil (x ∷ xs) i k (omega arith))
  segment-segment (x ∷ xs) zero (suc j) zero k e h = sym (segment-nil (x ∷ xs) 0 k (omega arith))
  segment-segment (x ∷ xs) zero (suc j) (suc m) zero e h = absurd (omega arith)
  segment-segment (x ∷ xs) zero (suc j) (suc m) (suc k) e h =
      ap (λ ys. x ∷ ys) (segment-segment xs zero j m k (omega arith) (omega arith))
  segment-segment (x ∷ xs) (suc i) (suc j) m zero e h = absurd (omega arith)
  segment-segment (x ∷ xs) (suc i) (suc j) m (suc k) e h =
      segment-segment xs i j m k (omega arith) (omega arith)

  -- A region with the element behind it.
  pub segment_step :
      (items : List A) (i n : ℕ) (m : A)
      → i ≤ n
      → get_elem? items n ≡ some m
      → segment items i (suc n) ≡ segment items i n ++ m ∷ []
  segment_step [] i n m le e = absurd (cc)
  segment_step (x ∷ xs) zero zero m le e = ground (arith, segment-nil xs 0 0 (omega arith))
  segment_step (x ∷ xs) (suc i) zero m le e = absurd (omega arith)
  segment_step (x ∷ xs) zero (suc n) m le e =
      ap (λ ys. x ∷ ys) (segment_step xs zero n m (omega arith) e)
  segment_step (x ∷ xs) (suc i) (suc n) m le e = segment_step xs i n m (omega arith) e

  -- A region inside a region.
  pub segment-segment_at :
      (xs : List A) (i j m n a b : ℕ)
      → i + m ≡ a
      → i + n ≡ b
      → b ≤ j
      → segment (segment xs i j) m n ≡ segment xs a b
  segment-segment_at [] i j m n a b e f h = refl
  segment-segment_at (x ∷ xs) i zero m n a b e f h = sym (segment-nil (x ∷ xs) a b (omega arith))
  segment-segment_at (x ∷ xs) zero (suc j) m zero a b e f h =
      segment-nil (x ∷ segment xs zero j) m zero (omega arith)
      ∙ sym (segment-nil (x ∷ xs) a b (omega arith))
  segment-segment_at (x ∷ xs) zero (suc j) zero (suc n) zero (suc b) e f h =
      ap (λ ys. x ∷ ys)
        (segment-segment_at xs zero j zero n zero b (omega arith) (omega arith) (omega arith))
  segment-segment_at (x ∷ xs) zero (suc j) zero (suc n) (suc a) b e f h = absurd (omega arith)
  segment-segment_at (x ∷ xs) zero (suc j) m (suc n) a zero e f h = absurd (omega arith)
  segment-segment_at (x ∷ xs) zero (suc j) (suc m) (suc n) zero b e f h = absurd (omega arith)
  segment-segment_at (x ∷ xs) zero (suc j) (suc m) (suc n) (suc a) (suc b) e f h =
      segment-segment_at xs zero j m n a b (omega arith) (omega arith) (omega arith)
  segment-segment_at (x ∷ xs) (suc i) (suc j) m n (suc a) (suc b) e f h =
      segment-segment_at xs i j m n a b (omega arith) (omega arith) (omega arith)
  segment-segment_at (x ∷ xs) (suc i) (suc j) m n zero b e f h = absurd (omega arith)
  segment-segment_at (x ∷ xs) (suc i) (suc j) m n a zero e f h = absurd (omega arith)
