-- ===== src/Delegate/Whole.antt =====
-- Operations that take all methods of another delegate: `-=` and `=` of a delegate and its copy, and
-- all of them together with `+=`.
use video_player_core.Base.{
  ℕ, ◌≤◌, ◌<◌, ◌≡◌, refl, ap, sym, ◌∙◌, Bool, true, false, Option, none, some, List, [], ◌∷◌, ◌++◌,
  segment, arith, subst,
}
use video_player_core.Delegate.Memory.{Method, SharedArray, Heap}
use video_player_core.Delegate.Lists.{MethodList, Removed, unchanged, emptied, changed, make_list}
use video_player_core.Delegate.Add.{Owns}
use video_player_core.Delegate.Each.{remove_each, remove_each-nil}
use video_player_core.Delegate.Differ.{remove_all_lem}
use video_player_core.Delegate.Left.{Differs}
use video_player_core.Delegate.Calls.{
  Delegate, no_methods, set_method_list, remove_delegate, copy_delegate, set_delegate, Merge,
  plus_all, minus_all, assign_all, merge,
}
use video_player_core.Delegate.Copy.{shown, Ready, Gives, make_list-Copied}
use video_player_core.Delegate.Join.{appended, merged, still_shown, add_delegate-Gives}

module _ {F : Type 0} where
  free_of :
      (h : Heap F) (c : Option MethodList) → Ready h c → (p : ℕ) → h.fresh ≤ p → h.cell p ≡ none
  free_of h none r p le = r p le
  free_of h (some l) (a, o, pos) p le = o.unused p le

  set_delegate-Gives :
      (is_self : Bool) (h : Heap F) (d : Delegate) (c : Option MethodList) (kept : List MethodList)
      (xs ys : List (Method F))
      → Ready h d.current
      → Ready h c
      → shown h d ≡ some xs
      → shown h (record { current = c; delete_list = kept }) ≡ some ys
      → (is_self ≡ true → xs ≡ ys)
      → Gives h ys (set_delegate is_self d (record { current = c; delete_list = kept }) h)
  unfolding set_delegate set_method_list
  set_delegate-Gives true h d c kept xs ys r s e e' same =
      ((d, h), refl, e ∙ ap some (same refl), r, still_shown h)
  set_delegate-Gives false h d none kept xs ys r s e e' same =
      ((set_method_list d emptied, h), refl, e', s, still_shown h)
  set_delegate-Gives false h d (some k) kept xs ys r (b, p, pos) e e' same =
      let shows : segment b.items 0 k.size ≡ ys = ground (arith, p.at, p.fits) in
      let ((l', h'), made, grown, ready, others) =
        appended h make_list k b [] (make_list-Copied h p.unused) p pos in
      ((set_method_list d (changed l'), h'), ground arith, grown ∙ ap some shows, ready, others)

  differ_Gives :
      (h h' : Heap F) (d : Delegate) (l : MethodList) (a : SharedArray F) (ks xs : List (Method F))
      (r : Removed)
      → d.current ≡ some l
      → Owns h l a
      → 0 < l.size
      → segment a.items 0 l.size ≡ xs
      → Differs h ks (segment a.items 0 l.size) r h'
      → Gives h (remove_each ks xs) (some (set_method_list d r, h'))
  unfolding set_method_list
  differ_Gives h h' d l a ks xs unchanged is o pos same (left, stays) = (
    (d, h'),
    refl,
    ground (arith, o.at, o.fits),
    subst (λ c. Ready h' c) (sym is) (subst (λ g. Ready g (some l)) (sym stays) (a, o, pos)),
    λ j ys sees. ground arith,
  )
  differ_Gives h h' d l a ks xs emptied is o pos same (left, stays) = (
    (set_method_list d emptied, h'),
    refl,
    ground arith,
    subst (λ g. Ready g none) (sym stays) o.unused,
    λ j ys sees. ground arith,
  )
  differ_Gives h h' d l a ks xs (changed k) is o pos same (left, there, others) =
      ((set_method_list d (changed k), h'), refl, ground arith, there, others)

  remove_delegate-Gives :
      (is_self : Bool) (h : Heap F) (d c : Option MethodList) (old kept : List MethodList)
      (xs ys : List (Method F))
      → Ready h d
      → Ready h c
      → shown h (record { current = d; delete_list = old }) ≡ some xs
      → shown h (record { current = c; delete_list = kept }) ≡ some ys
      → (is_self ≡ true → xs ≡ ys)
      → Gives h (merged minus_all is_self xs ys) (
          remove_delegate is_self
            (record { current = d; delete_list = old })
            (record { current = c; delete_list = kept })
            h)
  unfolding remove_delegate set_method_list remove_each
  remove_delegate-Gives is_self h none c old kept xs ys r s e e' same = (
    (record { current = none; delete_list = old }, h),
    refl,
    ground (arith, remove_each-nil ys),
    r,
    still_shown h,
  )
  remove_delegate-Gives true h (some l) c old kept xs ys (a, o, pos) s e e' same = (
    (record { current = none; delete_list = old ++ l ∷ [] }, h),
    refl,
    refl,
    o.unused,
    still_shown h,
  )
  remove_delegate-Gives false h (some l) none old kept xs ys r s e e' same =
      ((record { current = some l; delete_list = old }, h), refl, ground arith, r, still_shown h)
  remove_delegate-Gives false h (some l) (some k) old kept xs ys (a, o, pos) (b, p, _) e e' same =
      let ((r, h'), out, answer) = remove_all_lem h l k a b o pos p.at p.fits in
      let shows : segment a.items 0 l.size ≡ xs = ground (arith, o.at, o.fits) in
      let shows' : segment b.items 0 k.size ≡ ys = ground (arith, p.at, p.fits) in
      subst (Gives h (remove_each ys xs)) (ground arith) (
        subst
          (λ zs.
            Gives h (remove_each zs xs)
              (some (set_method_list (record { current = some l; delete_list = old }) r, h')))
          shows'
          (differ_Gives h h' (record { current = some l; delete_list = old }) l a
            (segment b.items 0 k.size) xs r refl o pos shows answer))

  -- The copy constructor gives a delegate that shows the same methods, over an array of its own.
  copy_delegate-Gives :
      (h : Heap F) (c : Option MethodList) (kept : List MethodList) (ys : List (Method F))
      → Ready h c
      → shown h (record { current = c; delete_list = kept }) ≡ some ys
      → Gives h ys (copy_delegate (record { current = c; delete_list = kept }) h)
  unfolding copy_delegate
  copy_delegate-Gives h none kept ys r e = ((no_methods, h), refl, e, r, still_shown h)
  copy_delegate-Gives h (some k) kept ys (b, p, pos) e =
      let shows : segment b.items 0 k.size ≡ ys = ground (arith, p.at, p.fits) in
      let ((l', h'), made, grown, ready, others) =
        appended h make_list k b [] (make_list-Copied h p.unused) p pos in
      (
        (record no_methods { current = some l' }, h'),
        ground arith,
        grown ∙ ap some shows,
        ready,
        others,
      )

  -- `+=`, `-=` and `=` of a delegate that is a `_Delegate`, as `MakeDelegate` gives it, or a
  -- `Delegate_S`, which has `std::mutex`, the delegate itself included, never fault in a sound heap. `+=`
  -- adds the methods of the other at the end, `=` takes them over, and `-=` removes them one by one,
  -- each where it stands last, or all if it is the delegate itself. Every list that was there shows
  -- what it showed.
  pub merge-Gives :
      (op : Merge) (is_self : Bool) (h : Heap F) (d other : Delegate) (xs ys : List (Method F))
      → Ready h d.current
      → Ready h other.current
      → shown h d ≡ some xs
      → shown h other ≡ some ys
      → (is_self ≡ true → xs ≡ ys)
      → Gives h (merged op is_self xs ys) (merge op is_self d other h)
  merge-Gives plus_all is_self h d other xs ys r s e e' same =
      add_delegate-Gives h d other.current other.delete_list xs ys r s e e'
  merge-Gives minus_all is_self h d other xs ys r s e e' same =
      remove_delegate-Gives is_self h d.current other.current d.delete_list other.delete_list xs ys
        r s e e' same
  merge-Gives assign_all is_self h d other xs ys r s e e' same =
      set_delegate-Gives is_self h d other.current other.delete_list xs ys r s e e' same
