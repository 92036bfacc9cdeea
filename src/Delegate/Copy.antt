-- ===== src/Delegate/Copy.antt =====
-- The copy of the current list, which every change of a delegate starts with.
use video_player_core.Base.{
  ℕ, suc, ◌≤◌, ◌<◌, ◌≡◌, inl, inr, Option, none, some, List, [], if◌then◌else◌, ◌==◌, segment,
  arith, Option-cases, subst,
}
use video_player_core.Delegate.Memory.{Method, SharedArray, Heap}
use video_player_core.Delegate.Lists.{MethodList, make_list, copy_list}
use video_player_core.Delegate.Add.{view, Owns}
use video_player_core.Delegate.Calls.{Delegate, copy_current}

module _ {F : Type 0} where
  -- The methods of a delegate.
  abbrev pub shown : Heap F → Delegate → Option (List (Method F))
  shown h d = elim d.current [ none ↦ some [] | some l ↦ view h l ]

  -- A delegate of a sound heap: no array above `fresh`, and a list that has methods and owns a
  -- reference.
  abbrev pub Ready : Heap F → Option MethodList → Type 0
  Ready h none = (p : ℕ) → h.fresh ≤ p → h.cell p ≡ none
  Ready h (some l) = (a : SharedArray F) × Owns h l a × (0 < l.size)

  -- Every list shows what it showed.
  abbrev pub Kept : Heap F → Heap F → Type 0
  Kept h h' = (j : MethodList) (ys : List (Method F)) → view h j ≡ some ys → view h' j ≡ some ys

  abbrev pub Gives : Heap F → List (Method F) → Option (Delegate × Heap F) → Type 0
  Gives h ys r =
      (out : Delegate × Heap F) × (r ≡ some out)
      × (shown out.1 out.0 ≡ some ys)
      × Ready out.1 out.0.current
      × Kept h out.1

  -- Before the methods are added: a list that shows the same and whose array no list grows into.
  abbrev pub Copied : Heap F → List (Method F) → Option (MethodList × Heap F) → Type 0
  Copied h xs r =
      (out : MethodList × Heap F) × (r ≡ some out)
      × ((a : SharedArray F) × Owns out.1 out.0 a
          × (segment a.items 0 out.0.size ≡ xs)
          × ((k : MethodList) (ys : List (Method F))
              → view h k ≡ some ys
              → (view out.1 k ≡ some ys) × (k.array ≡ out.0.array → 1 < a.ref_count))
          × ((k : MethodList) (b : SharedArray F)
              → Owns h k b
              → (b' : SharedArray F) × Owns out.1 k b'))

  pub make_list-Copied :
      (h : Heap F) → ((p : ℕ) → h.fresh ≤ p → h.cell p ≡ none) → Copied h [] (make_list h)
  unfolding make_list
  make_list-Copied h free = elim (Option-cases (make_list h)) [
    | inl failed ↦ absurd (ground arith)
    | inr ((l, h'), made) ↦ (
      (l, h'),
      made,
      (
        (record { items = []; capacity = 4; ref_count = 1 }),
        record {
          at = ground arith;
          fits = ground arith;
          room = ground arith;
          roomy = ground arith;
          seen = ground arith;
          counted = ground arith;
          unused = λ p le. ground (arith, free p);
        },
        ground arith,
        λ k ys sees. (
          ground (arith, free h.fresh (omega arith)),
          λ same. absurd (ground (arith, free h.fresh (omega arith))),
        ),
        λ k b p. (
          b,
          record {
            at = ground (arith, free h.fresh (omega arith));
            fits = p.fits;
            room = p.room;
            roomy = p.roomy;
            seen = p.seen;
            counted = p.counted;
            unused = λ q le. ground (arith, free q);
          },
        ),
      ),
    )
  ]

  copy_list-Copied :
      (h : Heap F) (l : MethodList) (a : SharedArray F)
      → Owns h l a
      → Copied h (segment a.items 0 l.size) (copy_list l h)
  unfolding copy_list
  copy_list-Copied h l a o = elim (Option-cases (copy_list l h)) [
    | inl failed ↦ absurd (ground arith)
    | inr ((l', h'), made) ↦ (
      (l', h'),
      made,
      (
        record a { ref_count = suc a.ref_count },
        record {
          at = ground arith;
          fits = ground arith;
          room = ground arith;
          roomy = ground arith;
          seen = ground arith;
          counted = ground arith;
          unused = λ p le. ground (arith, o.unused p);
        },
        ground arith,
        λ k ys sees. (ground arith, λ same. ground arith),
        λ k b p. (
          if l.array == k.array then record b { ref_count = suc b.ref_count } else b,
          record {
            at = ground arith;
            fits = ground arith;
            room = ground arith;
            roomy = ground arith;
            seen = ground arith;
            counted = ground arith;
            unused = λ q le. ground (arith, o.unused q);
          },
        ),
      ),
    )
  ]

  pub copy_current-Copied :
      (h : Heap F) (c : Option MethodList) (kept : List MethodList) (xs : List (Method F))
      → Ready h c
      → shown h (record { current = c; delete_list = kept }) ≡ some xs
      → Copied h xs (copy_current (record { current = c; delete_list = kept }) h)
  unfolding copy_current
  copy_current-Copied h none kept xs r e =
      subst (λ ys. Copied h ys (make_list h)) (ground arith) (make_list-Copied h r)
  copy_current-Copied h (some l) kept xs (a, o, pos) e =
      subst (λ ys. Copied h ys (copy_list l h)) (ground arith) (copy_list-Copied h l a o)
