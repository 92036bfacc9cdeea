-- ===== src/Delegate/Order.antt =====
-- The order in which a delegate calls its methods.
use video_player_core.Base.{
  ℕ, zero, suc, ◌+◌, ◌-◌, ◌≤◌, ◌<◌, ◌≡◌, ap, ◌∙◌, Option, none, some, List, [], ◌∷◌, length,
  segment, arith, map, get_elem?, get_elem?_in,
}
use video_player_core.Base.Segments.{length-segment, segment-nil}
use video_player_core.Delegate.Memory.{Method, SharedArray, Heap}
use video_player_core.Delegate.Lists.{MethodList}
use video_player_core.Delegate.Calls.{call_from, call}
use video_player_core.Delegate.Copy.{shown, Ready}

module _ {F : Type 0} where
  segment_first :
      (xs : List (Method F)) (i j : ℕ) (m : Method F)
      → i ≤ j
      → get_elem? xs i ≡ some m
      → segment xs i (suc j) ≡ m ∷ segment xs (suc i) (suc j)
  segment_first [] i j m le e = absurd (ground arith)
  segment_first (x ∷ xs) zero j m le e = ground arith
  segment_first (x ∷ xs) (suc i) zero m le e = absurd (omega arith)
  segment_first (x ∷ xs) (suc i) (suc j) m le e = segment_first xs i j m (omega arith) e

  call_from_lem :
      (l : MethodList) (items : List (Method F)) (i n j : ℕ)
      → i + n ≡ j
      → j < length items
      → call_from l items i n ≡ some (map (λ m. m.method) (segment items i (suc j)))
  unfolding call_from
  call_from_lem l items i zero j e h =
      let (m, at) = get_elem?_in items i (omega arith) in
      ground (
        arith,
        segment_first items i j m (omega arith) at,
        segment-nil items (suc i) (suc j) (omega arith),
      )
  call_from_lem l items i (suc n) j e h =
      let (m, at) = get_elem?_in items i (omega arith) in
      ground (
        arith,
        segment_first items i j m (omega arith) at,
        call_from_lem l items (suc i) n j (omega arith) h,
      )

  abbrev pub in_order : Heap F → List (Method F) → Option (List F × Heap F)
  in_order h [] = none
  in_order h (x ∷ xs) = some (x.method ∷ map (λ m. m.method) xs, h)

  called :
      (h : Heap F) (l : MethodList) (a : SharedArray F) (kept : List MethodList) (n : ℕ)
      (xs : List (Method F))
      → h.cell l.array ≡ some a
      → l.size ≡ suc n
      → l.size ≤ length a.items
      → segment a.items 0 (suc n) ≡ xs
      → call (record { current = some l; delete_list = kept }) h ≡ in_order h xs
  unfolding call
  called h l a kept n [] at is fits same = absurd (ground (arith, length-segment a.items 0 (suc n)))
  called h l a kept n (x ∷ xs) at is fits same =
      ground (arith, call_from_lem l a.items 0 n n (omega arith) (omega arith))

  -- In a sound heap a delegate with methods calls each of them, once and in the order in which they
  -- stand, and changes nothing. One without methods faults.
  pub call_lem :
      (h : Heap F) (c : Option MethodList) (kept : List MethodList) (xs : List (Method F))
      → Ready h c
      → shown h (record { current = c; delete_list = kept }) ≡ some xs
      → call (record { current = c; delete_list = kept }) h ≡ in_order h xs
  unfolding call
  call_lem h none kept xs r e = ground arith
  call_lem h (some l) kept xs (a, o, pos) e =
      called h l a kept (l.size - 1) xs o.at (omega arith) o.fits (
        let same : suc (l.size - 1) ≡ l.size = omega arith in
        ap (segment a.items 0) same ∙ ground arith)
