-- ===== src/Delegate/Differ.antt =====
-- Removing the methods of another list: what `Remove(methodList)` answers.
use video_player_core.Base.{
  ℕ, zero, suc, ◌≤◌, ◌<◌, ◌≡◌, refl, sym, inl, inr, false, some, List, [], ◌∷◌, ltb, ◌==◌, length,
  segment, arith, Bool-cases, get_elem?_in, subst,
}
use video_player_core.Base.Segments.{segment-nil, segment_whole, segment_step}
use video_player_core.Delegate.Memory.{Method, SharedArray, Heap}
use video_player_core.Delegate.Lists.{
  MethodList, Removed, unchanged, emptied, changed, remove, to_changed,
}
use video_player_core.Delegate.Add.{Owns}
use video_player_core.Delegate.Remove.{Answers, remove_lem}
use video_player_core.Delegate.Counts.{
  no_counts, count_methods, left_indexes, keep_left, answer_left, remove_all,
}
use video_player_core.Delegate.Each.{count_methods-Counted, remove_each, gather, left_indexes_lem}
use video_player_core.Delegate.Left.{
  left_in_range, push_left_lem, Differs, DiffersTo, replace_array_lem,
}

module _ {F : Type 0} where
  keep_left-Differs :
      (h : Heap F) (l : MethodList) (a : SharedArray F) (ks : List (Method F)) (is : List ℕ)
      → Owns h l a
      → gather a.items is ≡ remove_each ks (segment a.items 0 l.size)
      → length (gather a.items is) ≡ length is
      → 0 < length is
      → DiffersTo h ks (segment a.items 0 l.size) (to_changed (keep_left l is) h)
  keep_left-Differs h l a ks is o left inside pos =
      let free = o.unused h.fresh (omega arith) in
      let ne : (h.fresh == l.array) ≡ false = ground arith in
      let (h2, made, new, old, next) = replace_array_lem h l a (length is) o in
      let (h', out, full, others, same) =
        push_left_lem h.fresh l.array is h2
          (record { items = []; capacity = length is; ref_count = 1 }) a new
          (ground (arith, old l.array ne)) ne inside (omega arith) in
      let whole = segment_whole (gather a.items is) (length is) inside in
      (
        (changed (record { array = h.fresh; size = length is }), h'),
        ground arith,
        (
          ground (arith, whole),
          (
            record { items = gather a.items is; capacity = length is; ref_count = 1 },
            record {
              at = full;
              fits = omega arith;
              room = omega arith;
              roomy = omega arith;
              seen = inl pos;
              counted = omega arith;
              unused = λ q le. ground (arith, old q, others q, o.unused q);
            },
            pos,
          ),
          λ j ys shown. ground (arith, old j.array, others j.array),
        ),
      )

  single_of :
      (h : Heap F) (xs : List (Method F)) (m : Method F) (r : Removed) (h' : Heap F)
      → Answers m.object m.address h xs r h'
      → Differs h (m ∷ []) xs r h'
  unfolding remove_each
  single_of h xs m unchanged h' (left, stays) = (ground arith, stays)
  single_of h xs m emptied h' (left, stays) = (ground arith, stays)
  single_of h xs m (changed k) h' (left, (b, owns, pos), others) =
      (ground (arith, owns.at, owns.fits), (b, owns, pos), others)

  -- Removing a single method, in these terms.
  single :
      (h : Heap F) (l : MethodList) (a : SharedArray F) (m : Method F)
      → Owns h l a
      → 0 < l.size
      → DiffersTo h (m ∷ []) (segment a.items 0 l.size) (remove l m.object m.address h)
  single h l a m o pos =
      elim l.size
          as (λ n.
            l.size ≡ n
            → DiffersTo h (m ∷ []) (segment a.items 0 n) (remove l m.object m.address h)) [
              | zero ↦ λ e. absurd (omega arith)
              | suc n ↦ λ e.
                  let ((r, h'), out, answer) = remove_lem m.object m.address h l a n o e in
                  ((r, h'), out, single_of h (segment a.items 0 (suc n)) m r h' answer)
            ]
        refl

  counted_out :
      (h : Heap F) (l : MethodList) (a : SharedArray F) (ks : List (Method F))
      → Owns h l a
      → DiffersTo h ks
          (segment a.items 0 l.size)
          (answer_left l (left_indexes a.items (count_methods ks no_counts) l.size) h)
  counted_out h l a ks o =
      let is = left_indexes a.items (count_methods ks no_counts) l.size in
      let left =
        left_indexes_lem a.items l.size (count_methods ks no_counts) ks (count_methods-Counted ks)
          o.fits in
      let (inside, bound, whole) =
        left_in_range a.items (count_methods ks no_counts) l.size o.fits in
      elim (Bool-cases (length is == l.size)) [
        | inl all ↦ ((unchanged, h), ground arith, (ground arith, refl))
        | inr fewer ↦ elim (Bool-cases (ltb (length is) 1)) [
          | inl no_one ↦ ((emptied, h), ground arith, (ground arith, refl))
          | inr several ↦
              let same : answer_left l is h ≡ to_changed (keep_left l is) h = ground arith in
              subst (DiffersTo h ks (segment a.items 0 l.size)) (sym same)
                (keep_left-Differs h l a ks is o left inside (ground arith))
        ]
      ]

  -- Removing a list of methods from another never faults, and comes to removing its methods one by
  -- one: the list stays if none of them stands in it, there is no list any more if nothing is left,
  -- and otherwise the new list shows what is left, while every other list shows what it showed.
  pub remove_all_lem :
      (h : Heap F) (l other : MethodList) (a b : SharedArray F)
      → Owns h l a
      → 0 < l.size
      → h.cell other.array ≡ some b
      → other.size ≤ length b.items
      → DiffersTo h (segment b.items 0 other.size) (segment a.items 0 l.size) (remove_all l other h)
  unfolding remove_all
  remove_all_lem h l other a b o pos there inside = elim (Bool-cases (other.size == 1)) [
    | inl one ↦
        let (m, at) = get_elem?_in b.items 0 (ground arith) in
        let only = segment_step b.items 0 0 m (omega arith) at in
        let ks : segment b.items 0 other.size ≡ m ∷ [] = ground (arith, segment-nil b.items 0 0) in
        let same : remove_all l other h ≡ remove l m.object m.address h = ground (arith, o.at) in
        subst (λ r. DiffersTo h (segment b.items 0 other.size) (segment a.items 0 l.size) r)
          (sym same)
          (subst (λ ys. DiffersTo h ys (segment a.items 0 l.size) (remove l m.object m.address h))
            (sym ks) (single h l a m o pos))
    | inr several ↦
        let ks = segment b.items 0 other.size in
        let same : remove_all l other h
            ≡ answer_left l (left_indexes a.items (count_methods ks no_counts) l.size) h =
          ground (arith, o.at, o.fits) in
        subst (DiffersTo h ks (segment a.items 0 l.size)) (sym same) (counted_out h l a ks o)
  ]
