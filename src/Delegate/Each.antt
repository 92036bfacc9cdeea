-- ===== src/Delegate/Each.antt =====
-- What the counts of `Remove(methodList)` come to: the methods of the other list go one by one, each
-- where it stands last.
use video_player_core.Base.{
  ℕ, zero, suc, ◌+◌, ◌≤◌, ◌<◌, ◌≡◌, refl, ◌⊎◌, inl, inr, true, false, ◌&&◌, Option, none, some,
  List, [], ◌∷◌, ◌++◌, if◌then◌else◌, ◌==◌, length, segment, arith, Option-cases, get_elem?,
  get_elem?_in, length-append,
}
use video_player_core.Base.Segments.{segment-nil, segment_step}
use video_player_core.Delegate.Memory.{Method}
use video_player_core.Delegate.Search.{remove_last, remove_last-snoc, is_it}
use video_player_core.Delegate.Counts.{
  Counts, no_counts, count_one, count_methods, is_left, left_indexes,
}

abbrev pub amount : Option ℕ → ℕ
amount none = 0
amount (some n) = n

module _ {F : Type 0} where
  -- The list without the last method of that identity, if there is one.
  abbrev pub drop_last_one : Method F → List (Method F) → List (Method F)
  drop_last_one k xs = elim (remove_last k.object k.address xs) [ none ↦ xs | some ys ↦ ys ]

  -- A list after each of the methods has been removed from it, the first one first.
  unfoldable pub remove_each : List (Method F) → List (Method F) → List (Method F)
  remove_each [] xs = xs
  remove_each (k ∷ ks) xs = remove_each ks (drop_last_one k xs)

  -- How often a method stands in a list.
  pub occurrences : ℕ → ℕ → List (Method F) → ℕ
  occurrences o a [] = 0
  occurrences o a (m ∷ ms) = (if is_it o a m then 1 else 0) + occurrences o a ms

  abbrev pub Counted : Counts → List (Method F) → Type 0
  Counted c ms = (o a : ℕ) → amount (c o a) ≡ occurrences o a ms

  count_one_lem :
      (m : Method F) (c : Counts) (o a : ℕ)
      → amount (count_one m c o a) ≡ (if is_it o a m then 1 else 0) + amount (c o a)
  count_one_lem m c o a = ground arith

  count_methods_lem :
      (ms : List (Method F)) (c : Counts) (o a : ℕ)
      → amount (count_methods ms c o a) ≡ occurrences o a ms + amount (c o a)
  unfolding count_methods occurrences
  count_methods_lem [] c o a = omega arith
  count_methods_lem (m ∷ ms) c o a =
      omega (arith, count_methods_lem ms (count_one m c) o a, count_one_lem m c o a)

  pub count_methods-Counted : (ms : List (Method F)) → Counted (count_methods ms no_counts) ms
  count_methods-Counted ms o a = omega (arith, count_methods_lem ms no_counts o a)

  -- The methods without the first of that identity.
  pub without : ℕ → ℕ → List (Method F) → List (Method F)
  without o a [] = []
  without o a (m ∷ ms) = if is_it o a m then ms else m ∷ without o a ms

  occurrences-without :
      (o a : ℕ) (ms : List (Method F)) (o' a' : ℕ)
      → 0 < occurrences o a ms
      → occurrences o' a' (without o a ms) + (if o == o' && a == a' then 1 else 0)
        ≡ occurrences o' a' ms
  unfolding occurrences without
  occurrences-without o a [] o' a' lt = absurd (omega arith)
  occurrences-without o a (m ∷ ms) o' a' lt = ground (arith, occurrences-without o a ms o' a')

  -- A method at the end goes if it is one of those to be removed, and stays otherwise.
  remove_each-here :
      (ks xs : List (Method F)) (m : Method F)
      → 0 < occurrences m.object m.address ks
      → remove_each ks (xs ++ m ∷ []) ≡ remove_each (without m.object m.address ks) xs
  unfolding remove_each occurrences without
  remove_each-here [] xs m lt = absurd (omega arith)
  remove_each-here (k ∷ ks) xs m lt =
      ground (
        arith,
        remove_last-snoc k.object k.address xs m,
        remove_each-here ks (drop_last_one k xs) m,
      )

  remove_each-there :
      (ks xs : List (Method F)) (m : Method F)
      → occurrences m.object m.address ks ≡ 0
      → remove_each ks (xs ++ m ∷ []) ≡ remove_each ks xs ++ m ∷ []
  unfolding remove_each occurrences
  remove_each-there [] xs m e = refl
  remove_each-there (k ∷ ks) xs m e =
      ground (
        arith,
        remove_last-snoc k.object k.address xs m,
        remove_each-there ks (drop_last_one k xs) m,
      )

  pub remove_each-nil : (ks : List (Method F)) → remove_each ks [] ≡ []
  unfolding remove_each
  remove_each-nil [] = refl
  remove_each-nil (k ∷ ks) = remove_each-nil ks

  -- The methods at these indexes, the last index first.
  unfoldable pub gather : List (Method F) → List ℕ → List (Method F)
  gather items [] = []
  gather items (i ∷ is) =
      gather items is ++ elim (get_elem? items i) [ none ↦ [] | some m ↦ m ∷ [] ]

  pub length-gather : (items : List (Method F)) (is : List ℕ) → length (gather items is) ≤ length is
  unfolding gather
  length-gather items [] = omega arith
  length-gather items (i ∷ is) = elim (Option-cases (get_elem? items i)) [
    | inl out ↦ ground (arith, length-gather items is, length-append (gather items is) [])
    | inr (m, at) ↦ ground (arith, length-gather items is, length-append (gather items is) (m ∷ []))
  ]

  is_left-Counted :
      (c : Counts) (ks : List (Method F)) (m : Method F)
      → Counted c ks
      → ((is_left c m).0 ≡ false)
          × (0 < occurrences m.object m.address ks)
          × Counted (is_left c m).1 (without m.object m.address ks)
        ⊎ ((is_left c m).0 ≡ true)
          × (occurrences m.object m.address ks ≡ 0)
          × Counted (is_left c m).1 ks
  is_left-Counted c ks m counted = elim (Option-cases (c m.object m.address)) [
    | inl missing ↦ inr (
      ground arith,
      ground (arith, counted m.object m.address),
      λ o a. ground (arith, counted o a, counted m.object m.address),
    )
    | inr (zero, there) ↦ inr (
      ground arith,
      ground (arith, counted m.object m.address),
      λ o a. ground (arith, counted o a, counted m.object m.address),
    )
    | inr (suc n, there) ↦ inl (
      ground arith,
      ground (arith, counted m.object m.address),
      λ o a. ground (
        arith,
        counted o a,
        counted m.object m.address,
        occurrences-without m.object m.address ks o a,
      ),
    )
  ]

  -- What is left is what stays when the counted methods are removed one by one.
  pub left_indexes_lem :
      (items : List (Method F)) (n : ℕ) (c : Counts) (ks : List (Method F))
      → Counted c ks
      → n ≤ length items
      → gather items (left_indexes items c n) ≡ remove_each ks (segment items 0 n)
  unfolding gather left_indexes
  left_indexes_lem items zero c ks counted le =
      ground (arith, segment-nil items 0 0 (omega arith), remove_each-nil ks)
  left_indexes_lem items (suc n) c ks counted le =
      let (m, at) = get_elem?_in items n (omega arith) in
      let last = segment_step items 0 n m (omega arith) at in
      elim (is_left-Counted c ks m counted) [
        | inl (goes, lt, counted') ↦
            let rest =
              left_indexes_lem items n (is_left c m).1 (without m.object m.address ks) counted'
                (omega arith) in
            ground (arith, last, rest, remove_each-here ks (segment items 0 n) m)
        | inr (stays, e, counted') ↦
            let rest = left_indexes_lem items n (is_left c m).1 ks counted' (omega arith) in
            ground (arith, last, rest, remove_each-there ks (segment items 0 n) m)
      ]
