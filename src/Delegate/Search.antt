-- ===== src/Delegate/Search.antt =====
-- Searching a list of methods from its end.
use video_player_core.Base.{
  ℕ, zero, suc, ◌≤◌, ◌<◌, ◌≡◌, refl, ap, ◌∙◌, ◌⊎◌, inl, inr, Bool, ◌&&◌, Option, none, some, List,
  [], ◌∷◌, ◌++◌, if◌then◌else◌, ◌==◌, length, segment, arith, Bool-cases, append-nil, append_assoc,
  get_elem?_in,
}
use video_player_core.Base.Segments.{segment-nil, segment_step}
use video_player_core.Delegate.Memory.{Method}
use video_player_core.Delegate.Lists.{find_down}

module _ {F : Type 0} (object address : ℕ) where
  abbrev pub is_it : Method F → Bool
  is_it m = m.object == object && m.address == address

  -- The list without the last method of that identity; `none` if there is none.
  abbrev pub remove_last : List (Method F) → Option (List (Method F))
  remove_last [] = none
  remove_last (m ∷ ms) =
      let here : Option (List (Method F)) = if is_it m then some ms else none in
      elim (remove_last ms) [ some rest ↦ some (m ∷ rest) | none ↦ here ]

  pub remove_last-snoc :
      (ms : List (Method F)) (m : Method F)
      → remove_last (ms ++ m ∷ []) ≡ (
          if is_it m
          then some ms
          else elim (remove_last ms) [ none ↦ none | some rest ↦ some (rest ++ m ∷ []) ])
  remove_last-snoc [] m = ground arith
  remove_last-snoc (n ∷ ms) m = ground (arith, remove_last-snoc ms m)

  -- What the search finds, in terms of the prefix that it searches.
  abbrev pub Finds : List (Method F) → ℕ → Option ℕ → Type 0
  Finds items n r =
      ((r ≡ none) × (remove_last (segment items 0 n) ≡ none))
      ⊎ ((i : ℕ) × (r ≡ some i)
          × (i < n)
          × (remove_last (segment items 0 n) ≡ some (segment items 0 i ++ segment items (suc i) n)))

  pub find_down-Finds :
      (items : List (Method F)) (n : ℕ)
      → n ≤ length items
      → Finds items n (find_down items object address n)
  unfolding find_down
  find_down-Finds items zero h = inl (refl, ap remove_last (segment-nil items 0 0 (omega arith)))
  find_down-Finds items (suc n) h =
      let (m, e) = get_elem?_in items n (omega arith) in
      let last =
        ap remove_last (segment_step items 0 n m (omega arith) e)
        ∙ remove_last-snoc (segment items 0 n) m in
      elim (Bool-cases (is_it m)) [
        | inl here ↦ inr (
          n,
          ground arith,
          omega arith,
          ground (
            arith,
            last,
            segment-nil items (suc n) (suc n) (omega arith),
            append-nil (segment items 0 n),
          ),
        )
        | inr other ↦ elim (find_down-Finds items n (omega arith)) [
          | inl (a, b) ↦ inl (ground arith, ground (arith, last))
          | inr (i, a, lt, b) ↦ inr (
            i,
            ground arith,
            omega arith,
            ground (
              arith,
              last,
              segment_step items (suc i) n m (omega arith) e,
              append_assoc (segment items 0 i) (segment items (suc i) n) (m ∷ []),
            ),
          )
        ]
      ]
