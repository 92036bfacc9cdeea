-- ===== src/Delegate/Remove.antt =====
-- Removing a method: the last method with its identity goes, the order of the others stays, and no
-- other list is touched.
use video_player_core.Base.{
  ℕ, zero, suc, ◌+◌, ◌-◌, ◌≤◌, ◌<◌, ◌≡◌, refl, ap, sym, ◌∙◌, inl, inr, true, Option, none, some,
  List, [], ◌∷◌, ◌++◌, length, length-append, segment, arith, Option-cases, Bool-cases,
  append_assoc, subst, get_elem?, get_elem?_in,
}
use video_player_core.Base.Segments.{segment_whole, length-segment, segment-nil, segment_step}
use video_player_core.Delegate.Memory.{Method, SharedArray, Heap}
use video_player_core.Delegate.Lists.{
  MethodList, Removed, unchanged, emptied, changed, remove, to_changed, shorten, cut,
}
use video_player_core.Delegate.Add.{view, Owns}
use video_player_core.Delegate.Search.{is_it, remove_last, remove_last-snoc, find_down-Finds}

module _ {F : Type 0} (object address : ℕ) where
  -- What an answer means, for a list that showed `xs` in the heap `h`.
  abbrev pub Answers : Heap F → List (Method F) → Removed → Heap F → Type 0
  Answers h xs unchanged h' = (remove_last object address xs ≡ none) × (h' ≡ h)
  Answers h xs emptied h' = (remove_last object address xs ≡ some []) × (h' ≡ h)
  Answers h xs (changed k) h' =
      (remove_last object address xs ≡ view h' k)
      × ((b : SharedArray F) × Owns h' k b × (0 < k.size))
      × ((j : MethodList) (ys : List (Method F)) → view h j ≡ some ys → view h' j ≡ some ys)

  abbrev pub Removes : Heap F → List (Method F) → Option (Removed × Heap F) → Type 0
  Removes h xs r = (out : Removed × Heap F) × (r ≡ some out) × Answers h xs out.0 out.1

  shorten-Removes :
      (h : Heap F) (l : MethodList) (a : SharedArray F) (n : ℕ)
      → Owns h l a
      → l.size ≡ suc (suc n)
      → remove_last object address (segment a.items 0 (suc (suc n)))
        ≡ some (segment a.items 0 (suc n))
      → Removes h (segment a.items 0 (suc (suc n))) (to_changed (shorten l) h)
  shorten-Removes h l a n o e last = elim (Option-cases (to_changed (shorten l) h)) [
    | inl failed ↦ absurd (ground arith)
    | inr ((unchanged, h'), r) ↦ absurd (ground arith)
    | inr ((emptied, h'), r) ↦ absurd (ground arith)
    | inr ((changed k, h'), r) ↦ (
      (changed k, h'),
      r,
      (
        ground arith,
        (
          record a { ref_count = suc a.ref_count },
          record {
            at = ground arith;
            fits = ground arith;
            room = ground arith;
            roomy = ground arith;
            seen = ground arith;
            counted = ground arith;
            unused = λ q le. ground (arith, o.unused q);
          },
          ground arith,
        ),
        λ j ys shown. ground arith,
      ),
    )
  ]

  -- The list that is made when the method at `i` goes.
  record Cut (h : Heap F) (kept : List (Method F)) (n : ℕ) (k : MethodList) (h' : Heap F)
      : Type 0 where
    b : SharedArray F
    at : h'.cell k.array ≡ some b
    items : b.items ≡ kept
    room : length b.items ≤ b.capacity
    counted : b.ref_count ≡ 1
    size : k.size ≡ n
    unused : (p : ℕ) → h'.fresh ≤ p → h'.cell p ≡ none
    others : (j : MethodList) (ys : List (Method F)) → view h j ≡ some ys → view h' j ≡ some ys

  cut_lem :
      (h : Heap F) (l : MethodList) (a : SharedArray F) (n i : ℕ)
      → Owns h l a
      → l.size ≡ suc n
      → i < n
      → (k : MethodList) × (h' : Heap F) × (cut l i h ≡ some (k, h'))
        × Cut h (segment a.items 0 i ++ segment a.items (suc i) (suc n)) n k h'
  cut_lem h l a n i o e lt =
      let free = o.unused h.fresh (omega arith) in
      let size = length-segment a.items 0 i (omega arith) in
      let size' = length-segment a.items (suc i) (suc n) (omega arith) in
      let sizes = length-append (segment a.items 0 i) (segment a.items (suc i) (suc n)) in
      elim (Option-cases (cut l i h)) [
        | inl failed ↦ absurd (ground (arith, free, before, after, size, size'))
        | inr ((k, h'), made) ↦ elim (Option-cases (h'.cell k.array)) [
          | inl missing ↦ absurd (ground (arith, free, before, after, size, size'))
          | inr (b, there) ↦ (
            k,
            h',
            made,
            record {
              b = b;
              at = there;
              items = ground (arith, free, before, after, size, size');
              room = ground (arith, free, before, after, size, size', sizes);
              counted = ground (arith, free, before, after, size, size');
              size = ground (arith, free, before, after, size, size');
              unused = λ q le. ground (arith, o.unused q, free, before, after, size, size');
              others = λ j ys shown. ground (arith, free, before, after, size, size');
            },
          )
        ]
      ]
    where
      before : segment a.items 0 (0 + i) ≡ segment a.items 0 i
      before = ap (segment a.items 0) (omega arith)

      after : segment a.items (i + 1) (i + 1 + (l.size - i - 1)) ≡ segment a.items (suc i) (suc n)
      after =
          let from : i + 1 ≡ suc i = omega arith in
          let to : i + 1 + (l.size - i - 1) ≡ suc n = omega arith in
          ap (λ j. segment a.items j (i + 1 + (l.size - i - 1))) from
          ∙ ap (segment a.items (suc i)) to

  cut-Removes :
      (h : Heap F) (l : MethodList) (a : SharedArray F) (n i : ℕ)
      → Owns h l a
      → l.size ≡ suc n
      → i < n
      → remove_last object address (segment a.items 0 (suc n))
        ≡ some (segment a.items 0 i ++ segment a.items (suc i) (suc n))
      → Removes h (segment a.items 0 (suc n)) (to_changed (cut l i) h)
  cut-Removes h l a n i o e lt last =
      let kept = segment a.items 0 i ++ segment a.items (suc i) (suc n) in
      let (k, h', made, c) = cut_lem h l a n i o e lt in
      let len : length kept ≡ n = omega (
        arith,
        length-append (segment a.items 0 i) (segment a.items (suc i) (suc n)),
        length-segment a.items 0 i (omega (arith, o.fits)),
        length-segment a.items (suc i) (suc n) (omega (arith, o.fits)),
      ) in
      let sizes = ap length c.items ∙ len in
      (
        (changed k, h'),
        ground arith,
        (
          last
              ∙ ap some (sym (segment_whole kept n len))
              ∙ ground (arith, c.at, c.items, c.size, sizes),
          (
            c.b,
            record {
              at = c.at;
              fits = omega (arith, c.size);
              room = c.room;
              roomy = omega (arith, c.room);
              seen = inl (omega (arith, c.size));
              counted = omega (arith, c.counted);
              unused = c.unused;
            },
            omega (arith, c.size),
          ),
          c.others,
        ),
      )

  -- The identity stands at the end.
  last-Removes :
      (h : Heap F) (l : MethodList) (a : SharedArray F) (n : ℕ) (m : Method F)
      → Owns h l a
      → l.size ≡ suc n
      → get_elem? a.items n ≡ some m
      → is_it object address m ≡ true
      → remove_last object address (segment a.items 0 (suc n)) ≡ some (segment a.items 0 n)
      → Removes h (segment a.items 0 (suc n)) (remove l object address h)
  unfolding remove
  last-Removes h l a zero m o e at_n here last = (
    (emptied, h),
    ground arith,
    (ground (arith, last, segment-nil a.items 0 0 (omega arith)), refl),
  )
  last-Removes h l a (suc n) m o e at_n here last =
      let same : remove l object address h ≡ to_changed (shorten l) h = ground arith in
      subst (Removes h (segment a.items 0 (suc (suc n)))) (sym same)
        (shorten-Removes h l a n o e last)

  -- Removing from a list with methods never faults: without a method of that identity the list stays,
  -- without another method there is no list any more, and otherwise the new list shows what is left
  -- when the last such method goes, while every other list shows what it showed.
  pub remove_lem :
      (h : Heap F) (l : MethodList) (a : SharedArray F) (n : ℕ)
      → Owns h l a
      → l.size ≡ suc n
      → Removes h (segment a.items 0 (suc n)) (remove l object address h)
  unfolding remove
  remove_lem h l a n o e =
      let (m, at_n) = get_elem?_in a.items n (omega arith) in
      let last =
        ap (remove_last object address) (segment_step a.items 0 n m (omega arith) at_n)
        ∙ remove_last-snoc object address (segment a.items 0 n) m in
      elim (Bool-cases (is_it object address m)) [
        | inl here ↦ last-Removes h l a n m o e at_n here (ground (arith, last))
        | inr other ↦ elim (find_down-Finds object address a.items n (omega arith)) [
          | inl (missing, left) ↦ ((unchanged, h), ground arith, (ground (arith, last), refl))
          | inr (i, found, lt, left) ↦
              let same : remove l object address h ≡ to_changed (cut l i) h = ground arith in
              subst (Removes h (segment a.items 0 (suc n))) (sym same) (
                cut-Removes h l a n i o e lt (
                  ground (
                    arith,
                    last,
                    segment_step a.items (suc i) n m (omega arith) at_n,
                    append_assoc (segment a.items 0 i) (segment a.items (suc i) n) (m ∷ []),
                  )))
        ]
      ]
