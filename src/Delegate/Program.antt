-- ===== src/Delegate/Program.antt =====
-- A delegate that methods are added to and removed from, against a plain list of methods, and the
-- lists of calls that still run.
use video_player_core.Base.{
  ℕ, zero, suc, ◌<◌, ◌≡◌, refl, ap, ◌∙◌, inl, inr, Option, none, some, List, [], ◌∷◌, ◌++◌,
  length-append, segment, arith, Option-cases,
}
use video_player_core.Base.Segments.{segment-nil}
use video_player_core.Delegate.Memory.{Method, SharedArray, Heap}
use video_player_core.Delegate.Lists.{MethodList, Removed, unchanged, emptied, changed, remove}
use video_player_core.Delegate.Add.{view, Owns, add_lem, add-Owns}
use video_player_core.Delegate.Search.{remove_last}
use video_player_core.Delegate.Remove.{Answers, remove_lem}
use video_player_core.Delegate.Calls.{
  Delegate, set_method_list, add_method, remove_method, Op, plus, minus, apply, run,
}
use video_player_core.Delegate.Copy.{shown, Ready, Gives, copy_current-Copied}

module _ {F : Type 0} where
  size_of_shown :
      (h : Heap F) (l : MethodList) (xs : List (Method F)) (m : Method F)
      → view h l ≡ some (xs ++ m ∷ [])
      → 0 < l.size
  size_of_shown h l xs m sees = elim (Option-cases (h.cell l.array)) [
    | inl none_there ↦ absurd (ground arith)
    | inr (b, there) ↦ ground (arith, segment-nil b.items 0 l.size, length-append xs (m ∷ []))
  ]

  -- Adding a method.
  pub add_method-Gives :
      (h : Heap F) (d : Delegate) (m : Method F) (xs : List (Method F))
      → Ready h d.current
      → shown h d ≡ some xs
      → Gives h (xs ++ m ∷ []) (add_method d m h)
  unfolding add_method set_method_list
  add_method-Gives h d m xs r e =
      let ((l, h1), made, (a, o, same, kept, still)) =
        copy_current-Copied h d.current d.delete_list xs r e in
      let ((l', h2), added, grown, others) = add_lem h1 l a m o in
      let (b, o') = add-Owns h1 l a m l' h2 o added in
      (
        (set_method_list d (changed l'), h2),
        ground arith,
        grown ∙ ap (λ ys. some (ys ++ m ∷ [])) same,
        (b, o', size_of_shown h2 l' (segment a.items 0 l.size) m grown),
        λ k ys sees. others k ys (kept k ys sees).1 (kept k ys sees).0,
      )

  removed :
      (h h' : Heap F) (l : MethodList) (a : SharedArray F) (n : ℕ) (kept : List MethodList)
      (object address : ℕ) (xs : List (Method F)) (r : Removed)
      → Owns h l a
      → l.size ≡ suc n
      → segment a.items 0 (suc n) ≡ xs
      → view h l ≡ some xs
      → remove l object address h ≡ some (r, h')
      → Answers object address h (segment a.items 0 (suc n)) r h'
      → Gives h
          (elim (remove_last object address xs) [ none ↦ xs | some ys ↦ ys ])
          (remove_method (record { current = some l; delete_list = kept }) object address h)
  unfolding remove_method set_method_list
  removed h h' l a n kept object address xs unchanged o is same sees out (left, stays) = (
    (record { current = some l; delete_list = kept }, h),
    ground arith,
    ground arith,
    (a, o, omega arith),
    λ j ys sees. sees,
  )
  removed h h' l a n kept object address xs emptied o is same sees out (left, stays) = (
    (record { current = none; delete_list = kept ++ l ∷ [] }, h),
    ground arith,
    ground arith,
    o.unused,
    λ j ys sees. sees,
  )
  removed h h' l a n kept object address xs (changed k) o is same sees out (left, there, others) = (
    (record { current = some k; delete_list = kept ++ l ∷ [] }, h'),
    ground arith,
    ground arith,
    there,
    others,
  )

  remove_method-Gives :
      (h : Heap F) (c : Option MethodList) (kept : List MethodList) (object address : ℕ)
      (xs : List (Method F))
      → Ready h c
      → shown h (record { current = c; delete_list = kept }) ≡ some xs
      → Gives h
          (elim (remove_last object address xs) [ none ↦ xs | some ys ↦ ys ])
          (remove_method (record { current = c; delete_list = kept }) object address h)
  unfolding remove_method set_method_list
  remove_method-Gives h none kept object address xs r e =
      ((record { current = none; delete_list = kept }, h), refl, ground arith, r, λ j ys sees. sees)
  remove_method-Gives h (some l) kept object address xs (a, o, pos) e =
      elim l.size
          as (λ n.
            l.size ≡ n
            → Gives h (elim (remove_last object address xs) [ none ↦ xs | some ys ↦ ys ])
                (remove_method (record { current = some l; delete_list = kept }) object address
                  h)) [
                    | zero ↦ λ is. absurd (omega arith)
                    | suc n ↦ λ is.
                        let same : segment a.items 0 (suc n) ≡ xs = ground arith in
                        let ((r, h'), out, answer) = remove_lem object address h l a n o is in
                        removed h h' l a n kept object address xs r o is same e out answer
                  ]
        refl

  -- What an operation does to a list of methods.
  abbrev pub after : Op F → List (Method F) → List (Method F)
  after (plus m) xs = xs ++ m ∷ []
  after (minus object address) xs = elim (remove_last object address xs) [
    | none ↦ xs
    | some ys ↦ ys
  ]

  unfoldable pub expected : List (Op F) → List (Method F) → List (Method F)
  expected [] xs = xs
  expected (op ∷ ops) xs = expected ops (after op xs)

  apply-Gives :
      (op : Op F) (h : Heap F) (d : Delegate) (xs : List (Method F))
      → Ready h d.current
      → shown h d ≡ some xs
      → Gives h (after op xs) (apply op d h)
  apply-Gives (plus m) h d xs r e = add_method-Gives h d m xs r e
  apply-Gives (minus object address) h d xs r e =
      remove_method-Gives h d.current d.delete_list object address xs r e

  -- From a sound heap no program of `+=` and `-=` faults. The delegate then shows what a plain list
  -- would hold, and every list that was there shows what it showed, so that a call that runs is not
  -- disturbed.
  pub run-Gives :
      (ops : List (Op F)) (h : Heap F) (d : Delegate) (xs : List (Method F))
      → Ready h d.current
      → shown h d ≡ some xs
      → Gives h (expected ops xs) (run ops d h)
  unfolding expected run
  run-Gives [] h d xs r e = ((d, h), refl, e, r, λ j ys sees. sees)
  run-Gives (op ∷ ops) h d xs r e =
      let ((d1, h1), first, shows, ready, kept) = apply-Gives op h d xs r e in
      let (out, rest, shows', ready', kept') = run-Gives ops h1 d1 (after op xs) ready shows in
      (
        out,
        ap (λ m. elim m [ none ↦ none | some (d', h') ↦ run ops d' h' ]) first ∙ rest,
        shows',
        ready',
        λ j ys sees. kept' j ys (kept j ys sees),
      )
