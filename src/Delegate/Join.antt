-- ===== src/Delegate/Join.antt =====
-- Adding all methods of another list, and `+=` of a delegate.
use video_player_core.Base.{
  ◌+◌, ◌≤◌, ◌<◌, ◌≡◌, refl, ap, ◌∙◌, inl, inr, Bool, Option, none, some, List, [], ◌++◌,
  if◌then◌else◌, length, length-append, segment, arith, Option-cases, append-nil,
}
use video_player_core.Base.Segments.{length-segment}
use video_player_core.Delegate.Memory.{Method, SharedArray, Heap, M, ◌>>=◌}
use video_player_core.Delegate.Lists.{MethodList, changed, add_all}
use video_player_core.Delegate.Add.{view, Owns, add_all_lem}
use video_player_core.Delegate.Each.{remove_each}
use video_player_core.Delegate.Calls.{
  Delegate, set_method_list, copy_current, add_delegate, Merge, plus_all, minus_all, assign_all,
}
use video_player_core.Delegate.Copy.{shown, Ready, Kept, Gives, Copied, copy_current-Copied}

module _ {F : Type 0} where
  add_all-Owns :
      (h : Heap F) (l k : MethodList) (a b : SharedArray F) (l' : MethodList) (h' : Heap F)
      → Owns h l a
      → h.cell k.array ≡ some b
      → k.size ≤ length b.items
      → (k.array ≡ l.array → 1 < a.ref_count)
      → 0 < k.size
      → add_all l k h ≡ some (l', h')
      → (c : SharedArray F) × Owns h' l' c × (0 < l'.size)
  unfolding add_all
  add_all-Owns h l k a b l' h' o at fits shared pos e = elim (Option-cases (h'.cell l'.array)) [
    | inl none_there ↦ absurd (ground (arith, o.unused h.fresh (omega arith)))
    | inr (c, there) ↦
        let free = o.unused h.fresh (omega arith) in
        let sum = length-append a.items (segment b.items 0 (0 + k.size)) in
        let sum' =
          length-append (segment a.items 0 (0 + l.size)) (segment b.items 0 (0 + k.size)) in
        let size = length-segment b.items 0 (0 + k.size) (omega (arith, fits)) in
        let size' = length-segment a.items 0 (0 + l.size) (omega (arith, o.fits)) in
        (
          c,
          record {
            at = there;
            fits = ground (arith, free, sum, sum', size, size');
            room = ground (arith, free, sum, sum', size, size');
            roomy = ground (arith, free);
            seen = inl (ground (arith, free));
            counted = ground (arith, free);
            unused = λ q le. ground (arith, free, o.unused q);
          },
          ground (arith, free),
        )
  ]

  -- A list that was made for the methods `xs`, with those of the other delegate after them.
  pub appended :
      (h : Heap F) (l : M F MethodList) (k : MethodList) (b : SharedArray F) (xs : List (Method F))
      → Copied h xs (l h)
      → Owns h k b
      → 0 < k.size
      → (out : MethodList × Heap F) × ((l >>= λ l'. add_all l' k) h ≡ some out)
        × (view out.1 out.0 ≡ some (xs ++ segment b.items 0 k.size))
        × ((c : SharedArray F) × Owns out.1 out.0 c × (0 < out.0.size))
        × Kept h out.1
  appended h l k b xs ((l1, h1), made, (a, o, same, kept, still)) p pos =
      let sees : view h k ≡ some (segment b.items 0 k.size) = ground (arith, p.at, p.fits) in
      let (sees', counted) = kept k (segment b.items 0 k.size) sees in
      let (b', p') = still k b p in
      let shows : segment b'.items 0 k.size ≡ segment b.items 0 k.size =
        ground (arith, p'.at, p'.fits) in
      let ((l2, h2), added, grown, others) = add_all_lem h1 l1 k a b' o p' counted in
      (
        (l2, h2),
        ground arith,
        grown
            ∙ ap some (ap (λ ys. ys ++ segment b'.items 0 k.size) same ∙ ap (λ ys. xs ++ ys) shows),
        add_all-Owns h1 l1 k a b' l2 h2 o p'.at p'.fits counted pos added,
        λ j ys shown. others j ys (kept j ys shown).1 (kept j ys shown).0,
      )

  -- What they do to the lists of methods.
  abbrev pub merged : Merge → Bool → List (Method F) → List (Method F) → List (Method F)
  merged plus_all is_self xs ys = xs ++ ys
  merged minus_all is_self xs ys = if is_self then [] else remove_each ys xs
  merged assign_all is_self xs ys = ys

  pub still_shown : (h : Heap F) → Kept h h
  still_shown h j ys sees = sees

  pub add_delegate-Gives :
      (h : Heap F) (d : Delegate) (c : Option MethodList) (kept : List MethodList)
      (xs ys : List (Method F))
      → Ready h d.current
      → Ready h c
      → shown h d ≡ some xs
      → shown h (record { current = c; delete_list = kept }) ≡ some ys
      → Gives h (xs ++ ys) (add_delegate d (record { current = c; delete_list = kept }) h)
  unfolding add_delegate set_method_list
  add_delegate-Gives h d none kept xs ys r s e e' =
      ((d, h), refl, ground (arith, append-nil xs), r, still_shown h)
  add_delegate-Gives h d (some k) kept xs ys r (b, p, pos) e e' =
      let shows : segment b.items 0 k.size ≡ ys = ground (arith, p.at, p.fits) in
      let ((l', h'), made, grown, ready, others) =
        appended h (copy_current d) k b xs (copy_current-Copied h d.current d.delete_list xs r e) p
          pos in
      (
        (set_method_list d (changed l'), h'),
        ground arith,
        grown ∙ ap some (ap (λ zs. xs ++ zs) shows),
        ready,
        others,
      )
