-- ===== src/Delegate/Left.antt =====
-- The methods that are left when those of another list are removed, and the array for them.
use video_player_core.Base.{
  ℕ, zero, suc, ◌+◌, ◌≤◌, ◌<◌, ◌≡◌, refl, inl, inr, false, Option, some, List, [], ◌∷◌, ◌++◌, ◌==◌,
  length, segment, arith, Bool-cases, Option-cases, get_elem?, get_elem?_in, length-append,
  append_assoc, append-nil,
}
use video_player_core.Base.Segments.{segment-nil, segment_step}
use video_player_core.Delegate.Memory.{Method, SharedArray, Heap}
use video_player_core.Delegate.Lists.{MethodList, Removed, unchanged, emptied, changed}
use video_player_core.Delegate.Add.{view, Owns}
use video_player_core.Delegate.Counts.{Counts, is_left, left_indexes, push_left, replace_array}
use video_player_core.Delegate.Each.{remove_each, gather, length-gather}

module _ {F : Type 0} where
  pub left_in_range :
      (items : List (Method F)) (c : Counts) (n : ℕ)
      → n ≤ length items
      → (length (gather items (left_indexes items c n)) ≡ length (left_indexes items c n))
        × (length (left_indexes items c n) ≤ n)
        × (length (left_indexes items c n) ≡ n
            → gather items (left_indexes items c n) ≡ segment items 0 n)
  unfolding gather left_indexes
  left_in_range items c zero le =
      (refl, omega arith, λ e. ground (arith, segment-nil items 0 0 (omega arith)))
  left_in_range items c (suc n) le =
      let (m, at) = get_elem?_in items n (omega arith) in
      let last = segment_step items 0 n m (omega arith) at in
      let (sizes, bound, whole) = left_in_range items (is_left c m).1 n (omega arith) in
      let rest = left_indexes items (is_left c m).1 n in
      let sum = length-append (gather items rest) (m ∷ []) in
      elim (Bool-cases (is_left c m).0) [
        | inl stays ↦ (
          ground (arith, sizes, sum),
          ground (arith, bound),
          λ e. ground (arith, last, whole (ground (arith, bound))),
        )
        | inr goes ↦
            (ground (arith, sizes), ground (arith, bound), λ e. absurd (ground (arith, bound)))
      ]

  -- The loop that fills the new array.
  pub push_left_lem :
      (p q : ℕ) (is : List ℕ) (h : Heap F) (a b : SharedArray F)
      → h.cell p ≡ some a
      → h.cell q ≡ some b
      → (p == q) ≡ false
      → length (gather b.items is) ≡ length is
      → length a.items + length is ≤ a.capacity
      → (h' : Heap F) × (push_left p q is h ≡ some (tt, h'))
        × (h'.cell p ≡ some (record a { items = a.items ++ gather b.items is }))
        × ((r : ℕ) → (p == r) ≡ false → h'.cell r ≡ h.cell r)
        × (h'.fresh ≡ h.fresh)
  unfolding gather push_left
  push_left_lem p q [] h a b at at' other inside room =
      (h, refl, ground (arith, append-nil a.items), λ r ne. refl, refl)
  push_left_lem p q (i ∷ is) h a b at at' other inside room =
      let some_in = length-gather b.items is in
      let sum = λ (ys : List (Method F)). length-append (gather b.items is) ys in
      let (m, there) : (m : Method F) × (get_elem? b.items i ≡ some m) =
        elim (Option-cases (get_elem? b.items i)) [
          | inl out ↦ absurd (ground (arith, sum [], some_in))
          | inr found ↦ found
        ] in
      let (h1, first, full, others, same) =
        push_left_lem p q is h a b at at' other (ground (arith, sum (m ∷ []))) (ground arith) in
      let sizes = length-append a.items (gather b.items is) in
      elim (Option-cases (push_left p q (i ∷ is) h)) [
        | inl failed ↦ absurd (ground (arith, others q other, sizes, some_in))
        | inr ((tt, h'), out) ↦ (
          h',
          out,
          ground (
            arith,
            others q other,
            sizes,
            some_in,
            append_assoc a.items (gather b.items is) (m ∷ []),
          ),
          λ r ne. ground (arith, others q other, others r ne, sizes, some_in),
          ground (arith, others q other, sizes, some_in),
        )
      ]

  -- What an answer means, for a list that showed `xs` in the heap `h` and methods that are to go.
  abbrev pub Differs : Heap F → List (Method F) → List (Method F) → Removed → Heap F → Type 0
  Differs h ks xs unchanged h' = (remove_each ks xs ≡ xs) × (h' ≡ h)
  Differs h ks xs emptied h' = (remove_each ks xs ≡ []) × (h' ≡ h)
  Differs h ks xs (changed k) h' =
      (view h' k ≡ some (remove_each ks xs))
      × ((b : SharedArray F) × Owns h' k b × (0 < k.size))
      × ((j : MethodList) (ys : List (Method F)) → view h j ≡ some ys → view h' j ≡ some ys)

  abbrev pub DiffersTo :
      Heap F → List (Method F) → List (Method F) → Option (Removed × Heap F) → Type 0
  DiffersTo h ks xs r = (out : Removed × Heap F) × (r ≡ some out) × Differs h ks xs out.0 out.1

  pub replace_array_lem :
      (h : Heap F) (l : MethodList) (a : SharedArray F) (cap : ℕ)
      → Owns h l a
      → (h' : Heap F) × (replace_array l cap h ≡ some (h.fresh, h'))
        × (h'.cell h.fresh ≡ some (record { items = []; capacity = cap; ref_count = 1 }))
        × ((r : ℕ) → (h.fresh == r) ≡ false → h'.cell r ≡ h.cell r)
        × (h'.fresh ≡ suc h.fresh)
  replace_array_lem h l a cap o = elim (Option-cases (replace_array l cap h)) [
    | inl failed ↦ absurd (ground (arith, o.unused h.fresh (omega arith)))
    | inr ((p, h'), made) ↦ (
      h',
      ground (arith, o.unused h.fresh (omega arith)),
      ground (arith, o.unused h.fresh (omega arith)),
      λ r ne. ground (arith, o.unused h.fresh (omega arith)),
      ground (arith, o.unused h.fresh (omega arith)),
    )
  ]
