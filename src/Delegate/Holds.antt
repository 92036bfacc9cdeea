-- ===== src/Delegate/Holds.antt =====
-- The reference counts of a delegate's lists: no call walks through a list that was deleted, and no
-- list is left behind.
use video_player_core.Base.{
  ℕ, suc, ◌+◌, ◌≤◌, ◌<◌, ◌≡◌, refl, Bool, true, false, inl, inr, Option, none, some, List, [], ◌∷◌,
  ◌++◌, if◌then◌else◌, ltb, ◌&&◌, ◌==◌, arith, Option-cases, Bool-cases,
}
use video_player_core.Delegate.Memory.{update}
use video_player_core.Delegate.Reclaim.{
  Owner, is_list, replace_current, sweep, set_list, Calling, with_calls,
}

-- How often a list stands among others.
abbrev pub times : ℕ → List ℕ → ℕ
times c [] = 0
times c (b ∷ bs) = (if b == c then 1 else 0) + times c bs

times-append : (c : ℕ) (xs ys : List ℕ) → times c (xs ++ ys) ≡ times c xs + times c ys
times-append c [] ys = omega arith
times-append c (b ∷ bs) ys = omega (arith, times-append c bs ys)

-- How often a delegate has a list, as its current one or as one to be deleted.
abbrev pub members : ℕ → Owner → ℕ
members c s = (if is_list s.current c then 1 else 0) + times c s.delete_list

-- A list that the delegate has is there, and its count is one more than its running calls; no other
-- list is there. Every running call walks through a list that the delegate has.
pub record At (w : Calling) (c : ℕ) : Type 0 where
  pub counted :
      w.owner.refs c ≡ (if members c w.owner == 0 then none else some (suc (times c w.calls)))
  pub once : members c w.owner ≤ 1
  pub called : 0 < times c w.calls → 0 < members c w.owner
  pub made : w.owner.fresh ≤ c → members c w.owner ≡ 0

abbrev pub Sound : Calling → Type 0
Sound w = (c : ℕ) → At w c

-- What the loop leaves, for counts that are one more than the numbers of calls.
sweep_lem :
    (calls cs : List ℕ) (refs : ℕ → Option ℕ)
    → ((c : ℕ) → (times c cs ≤ 1) × (0 < times c cs → refs c ≡ some (suc (times c calls))))
    → (out : List ℕ × (ℕ → Option ℕ)) × (sweep cs refs ≡ some out)
      × ((c : ℕ)
          → (times c out.0 ≡ (if times c calls == 0 then 0 else times c cs))
            × (out.1 c ≡ (if ltb 0 (times c cs) && times c calls == 0 then none else refs c)))
unfolding sweep
sweep_lem calls [] refs counted = (([], refs), refl, λ c. (ground arith, ground arith))
sweep_lem calls (c ∷ cs) refs counted = elim (Bool-cases (times c calls == 0)) [
  | inl idle ↦
      let ((ls, refs'), out, left) =
        sweep_lem calls cs (update refs c none)
          (λ b. (ground (arith, counted b), λ lt. ground (arith, counted b, counted c))) in
      (
        (ls, refs'),
        ground (arith, counted c),
        λ b. (ground (arith, left b), ground (arith, left b, counted b, counted c)),
      )
  | inr busy ↦
      let ((ls, refs'), out, left) =
        sweep_lem calls cs refs
          (λ b. (ground (arith, counted b), λ lt. ground (arith, counted b))) in
      (
        (c ∷ ls, refs'),
        ground (arith, counted c),
        λ b. (ground (arith, left b), ground (arith, left b, counted b, counted c)),
      )
]

-- The same before `l` becomes the current list: it is the current one, or a new one.
pub record Before (w : Calling) (l : Option ℕ) (c : ℕ) : Type 0 where
  pub counted : w.owner.refs c ≡ (
      if members c w.owner + (if is_list l c then 1 else 0) == 0
      then none
      else some (suc (times c w.calls)))
  pub once : members c w.owner ≤ 1
  pub called : 0 < times c w.calls → 0 < members c w.owner
  pub made : w.owner.fresh ≤ c → members c w.owner + (if is_list l c then 1 else 0) ≡ 0
  pub next : is_list l c ≡ true → is_list w.owner.current c ≡ false → members c w.owner ≡ 0

-- The current list is deleted or kept.
abbrev Replaced : Calling → Option ℕ → Owner → ℕ → Type 0
Replaced w l s c =
    (s.refs c ≡ (
      if is_list w.owner.current c && (if is_list l c then false else times c w.calls == 0)
      then none
      else w.owner.refs c))
    × (times c s.delete_list
        ≡ times c w.owner.delete_list
          + (if is_list w.owner.current c
                && (if is_list l c then false else ltb 0 (times c w.calls))
              then 1
              else 0))

replace_current_lem :
    (w : Calling) (l : Option ℕ)
    → ((c : ℕ) → Before w l c)
    → (s : Owner) × (replace_current l w.owner ≡ some s)
      × ((c : ℕ) → Replaced w l s c)
      × (s.fresh ≡ w.owner.fresh)
replace_current_lem w l b = elim (Option-cases w.owner.current) [
  | inl no_list ↦ (w.owner, ground arith, λ c. (ground arith, ground arith), refl)
  | inr (o, is) ↦ elim (Option-cases (replace_current l w.owner)) [
    | inl failed ↦ absurd (ground (arith, (b o).counted, (b o).once, (b o).called))
    | inr (s, out) ↦ (
      s,
      out,
      λ c. (
        ground (arith, (b o).counted, (b o).once),
        ground (arith, (b o).counted, (b o).once, times-append c w.owner.delete_list (o ∷ [])),
      ),
      ground arith,
    )
  ]
]

-- Every list that is kept is called.
abbrev pub Needed : Calling → Type 0
Needed w = (c : ℕ) → 0 < times c w.owner.delete_list → 0 < times c w.calls

-- The arithmetic of it, for one list: whether it is the old or the new current one, and its numbers.
after :
    (old new : Bool) (kept calls kept1 kept2 : ℕ) (r r1 r2 : Option ℕ)
    → r ≡ (
        if (if old then 1 else 0) + kept + (if new then 1 else 0) == 0
        then none
        else some (suc calls))
    → (if old then 1 else 0) + kept ≤ 1
    → (0 < calls → 0 < (if old then 1 else 0) + kept)
    → (new ≡ true → old ≡ false → (if old then 1 else 0) + kept ≡ 0)
    → r1 ≡ (if old && (if new then false else calls == 0) then none else r)
    → kept1 ≡ kept + (if old && (if new then false else ltb 0 calls) then 1 else 0)
    → kept2 ≡ (if calls == 0 then 0 else kept1)
    → r2 ≡ (if ltb 0 kept1 && calls == 0 then none else r1)
    → (r2 ≡ (if (if new then 1 else 0) + kept2 == 0 then none else some (suc calls)))
      × ((if new then 1 else 0) + kept2 ≤ 1)
      × (0 < calls → 0 < (if new then 1 else 0) + kept2)
      × ((if old then 1 else 0) + kept + (if new then 1 else 0) ≡ 0
          → (if new then 1 else 0) + kept2 ≡ 0)
after false false kept calls kept1 kept2 r r1 r2 a b c d e f g h =
    (ground arith, ground arith, λ lt. ground arith, λ z. ground arith)
after false true kept calls kept1 kept2 r r1 r2 a b c d e f g h =
    (ground arith, ground arith, λ lt. ground arith, λ z. ground arith)
after true false kept calls kept1 kept2 r r1 r2 a b c d e f g h =
    (ground arith, ground arith, λ lt. ground arith, λ z. ground arith)
after true true kept calls kept1 kept2 r r1 r2 a b c d e f g h =
    (ground arith, ground arith, λ lt. ground arith, λ z. ground arith)

pub set_list_lem :
    (w : Calling) (l : Option ℕ)
    → ((c : ℕ) → Before w l c)
    → (w' : Calling) × (with_calls w.calls (set_list l w.owner) ≡ some w') × Sound w' × Needed w'
unfolding set_list
set_list_lem w l b =
    let (s, first, replaced, same) = replace_current_lem w l b in
    let ((ls, refs), second, left) = sweep_lem w.calls s.delete_list s.refs (λ c. (
      ground (arith, replaced c, (b c).once),
      λ lt. ground (arith, replaced c, (b c).counted, (b c).once),
    )) in
    (
      record { owner = record s { current = l; delete_list = ls; refs = refs }; calls = w.calls },
      ground arith,
      λ c.
          let (counted', once', called', made') =
            after (is_list w.owner.current c) (is_list l c) (times c w.owner.delete_list)
              (times c w.calls) (times c s.delete_list) (times c ls) (w.owner.refs c) (s.refs c)
              (refs c) (b c).counted (b c).once (b c).called (b c).next (replaced c).0
              (replaced c).1 (left c).0 (left c).1 in
          record {
            counted = counted';
            once = once';
            called = called';
            made = λ le. made' ((b c).made (omega arith));
          },
      λ c lt. ground (arith, left c),
    )
