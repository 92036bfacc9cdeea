-- ===== src/Delegate/Counts.antt =====
-- include/utils/Delegate.h, `MethodList::Remove(methodList)`: how often each method is to go is
-- counted first, then the list is read from its end and the indexes of what is left are noted.
use video_player_core.Base.{
  ℕ, zero, suc, Bool, true, false, ◌&&◌, Option, none, some, List, [], ◌∷◌, if◌then◌else◌, ltb, leb,
  ◌==◌, length, segment, get_elem?,
}
use video_player_core.Delegate.Memory.{
  Method, M, ◌>>=◌, ◌>>◌, pure, load, new_array, push_back, add_ref, release,
}
use video_player_core.Delegate.Lists.{MethodList, Removed, unchanged, emptied, remove, to_changed}

-- `searchMap`: a count for each object and address, `none` where the map has no entry.
abbrev pub Counts : Type 0
Counts = ℕ → ℕ → Option ℕ

abbrev pub no_counts : Counts
no_counts object address = none

abbrev pub put_count : ℕ → ℕ → Option ℕ → Counts → Counts
put_count o a n c object address = if o == object && a == address then n else c object address

module _ {F : Type 0} where
  -- One more of a method.
  abbrev pub count_one : Method F → Counts → Counts
  count_one m c = elim (c m.object m.address) [
    | none ↦ put_count m.object m.address (some 1) c
    | some n ↦ put_count m.object m.address (some (suc n)) c
  ]

  unfoldable pub count_methods : List (Method F) → Counts → Counts
  count_methods [] c = c
  count_methods (m ∷ ms) c = count_methods ms (count_one m c)

  -- Whether a method is left, and the counts after it. A count that drops below zero is erased.
  abbrev pub is_left : Counts → Method F → Bool × Counts
  is_left c m = elim (c m.object m.address) [
    | none ↦ (true, c)
    | some zero ↦ (true, put_count m.object m.address none c)
    | some (suc n) ↦ (false, put_count m.object m.address (some n) c)
  ]

  -- `leftIndexes`, for the methods below `n`, the last one first. Every index is inside the array.
  unfoldable pub left_indexes : List (Method F) → Counts → ℕ → List ℕ
  left_indexes items c zero = []
  left_indexes items c (suc i) = elim (get_elem? items i) [
    | none ↦ []
    | some m ↦
        let rest = left_indexes items (is_left c m).1 i in
        if (is_left c m).0 then i ∷ rest else rest
  ]

  -- The loop from the end of `leftIndexes`: the methods of the array `q` at these indexes are put
  -- into the array `p`.
  unfoldable pub push_left : ℕ → ℕ → List ℕ → M F (Unit {0})
  push_left p q [] = pure tt
  push_left p q (i ∷ is) = do
    push_left p q is
    b ← load q
    λ h. elim (get_elem? b.items i) [ none ↦ none | some m ↦ push_back p m h ]

  -- The copy of the list gives up the array for a new one.
  abbrev pub replace_array : MethodList → ℕ → M F ℕ
  replace_array l cap = do add_ref l.array; temp ← new_array cap; release l.array; pure temp

  -- A list of what is left, over an array of its own.
  abbrev pub keep_left : MethodList → List ℕ → M F MethodList
  keep_left l is = do
    temp ← replace_array l (length is)
    push_left temp l.array is
    pure (record { array = temp; size = length is })

  -- What `Remove` answers once the indexes are known.
  abbrev pub answer_left : MethodList → List ℕ → M F Removed
  answer_left l is h =
      if length is == l.size
      then some (unchanged, h)
      else (if ltb (length is) 1 then some (emptied, h) else to_changed (keep_left l is) h)

  -- `Remove(methodList)`
  unfoldable pub remove_all : MethodList → MethodList → M F Removed
  remove_all l other h = elim (h.cell l.array) [
    | none ↦ none
    | some a ↦ elim (h.cell other.array) [
      | none ↦ none
      | some b ↦
          if other.size == 1
          then elim (get_elem? b.items 0) [ none ↦ none | some m ↦ remove l m.object m.address h ]
          else (if leb other.size (length b.items) && leb l.size (length a.items)
              then answer_left l
                  (left_indexes a.items (count_methods (segment b.items 0 other.size) no_counts)
                    l.size)
                  h
              else none)
    ]
  ]
