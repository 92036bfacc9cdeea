-- ===== src/Delegate/Add.antt =====
-- Adding to a list of methods: the list grows at its end, nothing is written outside an array, and
-- the lists that share the array see no change.
use video_player_core.Base.{
  ℕ, suc, ◌+◌, ◌≤◌, ◌<◌, ◌≡◌, ap, ◌⊎◌, inl, inr, Option, none, some, List, [], ◌∷◌, ◌++◌,
  if◌then◌else◌, leb, length, length-append, segment, arith, Option-cases,
}
use video_player_core.Base.Segments.{length-segment, segment_whole, segment_prefix}
use video_player_core.Delegate.Memory.{Method, SharedArray, Heap}
use video_player_core.Delegate.Lists.{MethodList, add, add_all}

module _ {F : Type 0} where
  -- The methods that a list shows, if its array is there.
  abbrev pub view : Heap F → MethodList → Option (List (Method F))
  view h l = elim (h.cell l.array) [
    | none ↦ none
    | some a ↦ if leb l.size (length a.items) then some (segment a.items 0 l.size) else none
  ]

  -- A list over an array of its own or a shared one. A list without methods shares nothing.
  pub record Owns (h : Heap F) (l : MethodList) (a : SharedArray F) : Type 0 where
    pub at : h.cell l.array ≡ some a
    pub fits : l.size ≤ length a.items
    pub room : length a.items ≤ a.capacity
    pub roomy : 0 < a.capacity
    pub seen : (0 < l.size) ⊎ (length a.items ≡ 0)
    pub counted : 0 < a.ref_count
    pub unused : (p : ℕ) → h.fresh ≤ p → h.cell p ≡ none

  abbrev pub Grows :
      Heap F → MethodList → SharedArray F → List (Method F) → Option (MethodList × Heap F) → Type 0
  Grows h l a more r =
      (out : MethodList × Heap F) × (r ≡ some out)
      × (view out.1 out.0 ≡ some (segment a.items 0 l.size ++ more))
      × ((k : MethodList) (ys : List (Method F))
          → (k.array ≡ l.array → 1 < a.ref_count)
          → view h k ≡ some ys
          → view out.1 k ≡ some ys)

  -- Adding a method never faults; the list then shows what it showed and the method after that, and
  -- every other list shows what it showed, one over the same array included, if the reference count
  -- accounts for it.
  pub add_lem :
      (h : Heap F) (l : MethodList) (a : SharedArray F) (m : Method F)
      → Owns h l a
      → Grows h l a (m ∷ []) (add l m h)
  unfolding add
  add_lem h l a m o = elim (Option-cases (add l m h)) [
    | inl e ↦
        absurd (ground (arith, o.unused h.fresh (omega arith), length-segment a.items 0 l.size))
    | inr (out, e) ↦ (
      out,
      e,
      ground (
        arith,
        o.unused h.fresh (omega arith),
        from_zero,
        length-segment a.items 0 l.size,
        length-append (segment a.items 0 l.size) (m ∷ []),
        length-append a.items (m ∷ []),
        segment_whole (segment a.items 0 l.size ++ m ∷ []) (suc l.size),
        segment_whole a.items l.size,
        segment_whole (a.items ++ m ∷ []) (suc l.size),
      ),
      λ k ys shared seen. ground (
        arith,
        o.unused h.fresh (omega arith),
        from_zero,
        length-append a.items (m ∷ []),
        segment_prefix a.items (m ∷ []) k.size,
      ),
    )
  ]
    where
      from_zero : segment a.items 0 (0 + l.size) ≡ segment a.items 0 l.size
      from_zero = ap (segment a.items 0) (omega arith)

  -- The new list is again one that can grow.
  pub add-Owns :
      (h : Heap F) (l : MethodList) (a : SharedArray F) (m : Method F) (l' : MethodList)
      (h' : Heap F)
      → Owns h l a
      → add l m h ≡ some (l', h')
      → (b : SharedArray F) × Owns h' l' b
  unfolding add
  add-Owns h l a m l' h' o e = elim (Option-cases (h'.cell l'.array)) [
    | inl none_there ↦ absurd (ground (arith, o.unused h.fresh (omega arith)))
    | inr (b, there) ↦ (
      b,
      record {
        at = there;
        fits = ground (
          arith,
          o.unused h.fresh (omega arith),
          length-append a.items (m ∷ []),
          length-append (segment a.items 0 (0 + l.size)) (m ∷ []),
          length-segment a.items 0 (0 + l.size),
        );
        room = ground (
          arith,
          o.unused h.fresh (omega arith),
          length-append a.items (m ∷ []),
          length-append (segment a.items 0 (0 + l.size)) (m ∷ []),
          length-segment a.items 0 (0 + l.size),
        );
        roomy = ground (arith, o.unused h.fresh (omega arith));
        seen = ground (arith, o.unused h.fresh (omega arith));
        counted = ground (arith, o.unused h.fresh (omega arith));
        unused = λ p le. ground (arith, o.unused h.fresh (omega arith), o.unused p);
      },
    )
  ]

  -- Adding a list, which may stand over the same array, never faults; the list then shows what it
  -- showed and what the other showed after that, and every list that the reference count accounts
  -- for shows what it showed.
  pub add_all_lem :
      (h : Heap F) (l k : MethodList) (a b : SharedArray F)
      → Owns h l a
      → Owns h k b
      → (k.array ≡ l.array → 1 < a.ref_count)
      → Grows h l a (segment b.items 0 k.size) (add_all l k h)
  unfolding add_all
  add_all_lem h l k a b o p shared = elim (Option-cases (add_all l k h)) [
    | inl e ↦
        absurd
          (ground (arith, o.unused h.fresh (omega arith), length-segment a.items 0 (0 + l.size)))
    | inr (out, e) ↦ (
      out,
      e,
      ground (
        arith,
        o.unused h.fresh (omega arith),
        from_zero,
        other_from_zero,
        length-segment a.items 0 l.size,
        length-segment b.items 0 k.size,
        length-append (segment a.items 0 l.size) (segment b.items 0 k.size),
        length-append a.items (segment b.items 0 k.size),
        segment_whole (segment a.items 0 l.size ++ segment b.items 0 k.size) (l.size + k.size),
        segment_whole a.items l.size,
        segment_whole (a.items ++ segment b.items 0 k.size) (l.size + k.size),
      ),
      λ j ys other seen. ground (
        arith,
        o.unused h.fresh (omega arith),
        length-append a.items (segment b.items 0 (0 + k.size)),
        segment_prefix a.items (segment b.items 0 (0 + k.size)) j.size,
      ),
    )
  ]
    where
      from_zero : segment a.items 0 (0 + l.size) ≡ segment a.items 0 l.size
      from_zero = ap (segment a.items 0) (omega arith)

      other_from_zero : segment b.items 0 (0 + k.size) ≡ segment b.items 0 k.size
      other_from_zero = ap (segment b.items 0) (omega arith)
