-- ===== src/Delegate/Nested.antt =====
-- Calls of a delegate whose list is replaced while they run.
use video_player_core.Base.{
  ℕ, suc, ◌<◌, ◌≡◌, refl, Bool, true, false, inl, inr, Option, none, some, List, [], ◌∷◌, arith,
  Option-cases, ap, ◌∙◌, ◌⊎◌,
}
use video_player_core.Delegate.Reclaim.{
  no_lists, is_list, Event, call_starts, call_ends, takes_new, takes_same, takes_none, Calling,
  new_list, react, react_all,
}
use video_player_core.Delegate.Holds.{times, Sound, Before, Needed, set_list_lem}

-- Whether an event replaces the list.
abbrev pub replaces : Event → Bool
replaces call_starts = false
replaces call_ends = false
replaces takes_new = true
replaces takes_same = true
replaces takes_none = true

abbrev Reacts : Event → Option Calling → Type 0
Reacts e r = (w : Calling) × (r ≡ some w) × Sound w × (replaces e ≡ true → Needed w)

call_starts-Sound : (w : Calling) → Sound w → Reacts call_starts (react call_starts w)
unfolding react
call_starts-Sound w s = elim (Option-cases w.owner.current) [
  | inl no_list ↦ (w, ground arith, s, λ never. absurd (cc))
  | inr (c, is) ↦ elim (Option-cases (react call_starts w)) [
    | inl failed ↦ absurd (ground (arith, (s c).counted))
    | inr (w', out) ↦ (
      w',
      out,
      λ b. record {
        counted = ground (arith, (s b).counted, (s c).counted);
        once = ground (arith, (s b).once, (s c).counted);
        called = λ lt. ground (arith, (s b).called, (s c).counted);
        made = λ le. ground (arith, (s b).made, (s c).counted);
      },
      λ never. absurd (cc),
    )
  ]
]

call_ends-Sound : (w : Calling) → Sound w → Reacts call_ends (react call_ends w)
unfolding react
call_ends-Sound w s =
    elim w.calls as (λ cs. w.calls ≡ cs → Reacts call_ends (react call_ends w)) [
      | [] ↦ λ e. (w, ground arith, s, λ never. absurd (cc))
      | c ∷ cs ↦ λ e. elim (Option-cases (react call_ends w)) [
        | inl failed ↦ absurd (ground (arith, (s c).counted, (s c).called))
        | inr (w', out) ↦ (
          w',
          out,
          λ b. record {
            counted = ground (arith, (s b).counted, (s c).counted, (s c).called);
            once = ground (arith, (s b).once, (s c).counted, (s c).called);
            called = λ lt. ground (arith, (s b).called, (s c).counted, (s c).called);
            made = λ le. ground (arith, (s b).made, (s c).counted, (s c).called);
          },
          λ never. absurd (cc),
        )
      ]
    ]
      refl

-- Any list may be replaced by itself or by none.
again :
    (w : Calling) (l : Option ℕ)
    → ((c : ℕ) → is_list l c ≡ true → is_list w.owner.current c ≡ true)
    → Sound w
    → (c : ℕ) → Before w l c
again w l old s c = record {
  counted = ground (arith, (s c).counted, old c);
  once = ground (arith, (s c).once);
  called = λ lt. ground (arith, (s c).called);
  made = λ le. ground (arith, (s c).made, old c);
  next = λ is not_old. absurd (ground (arith, old c));
}

react-Sound : (e : Event) (w : Calling) → Sound w → Reacts e (react e w)
unfolding react
react-Sound call_starts w s = call_starts-Sound w s
react-Sound call_ends w s = call_ends-Sound w s
react-Sound takes_new w s =
    let (w', out, sound, needed) =
      set_list_lem (record w { owner = new_list w.owner }) (some w.owner.fresh)
        (λ c. record {
          counted = ground (arith, (s c).counted, (s c).made, (s c).called);
          once = ground (arith, (s c).once);
          called = λ lt. ground (arith, (s c).called);
          made = λ le. ground (arith, (s c).made);
          next = λ is not_old. ground (arith, (s c).made);
        }) in
    (w', out, sound, λ _. needed)
react-Sound takes_same w s =
    let (w', out, sound, needed) =
      set_list_lem w w.owner.current (again w w.owner.current (λ c is. is) s) in
    (w', out, sound, λ _. needed)
react-Sound takes_none w s =
    let (w', out, sound, needed) = set_list_lem w none (again w none (λ c is. absurd (cc)) s) in
    (w', out, sound, λ _. needed)

react_all-Sound :
    (es : List Event) (w : Calling)
    → Sound w
    → (w' : Calling) × (react_all es w ≡ some w') × Sound w'
unfolding react_all
react_all-Sound [] w s = (w, refl, s)
react_all-Sound (e ∷ es) w s =
    let (w1, first, sound, needed) = react-Sound e w s in
    let (w2, rest, sound') = react_all-Sound es w1 sound in
    (w2, ap (λ r. elim r [ none ↦ none | some w' ↦ react_all es w' ]) first ∙ rest, sound')

no_lists-Sound : Sound (record { owner = no_lists; calls = [] })
no_lists-Sound c = record {
  counted = refl;
  once = omega arith;
  called = λ lt. absurd (omega arith);
  made = λ le. refl;
}

-- However calls, ends of calls and replacements of the list follow one another, nested ones
-- included, no deleted list is read. Every list that a running call walks through is there, with a
-- count of one more than its running calls, and after a replacement the lists that are there are
-- the current one and those that are called.
pub react_all_lem :
    (es : List Event) (e : Event)
    → (w w' : Calling) × (react_all es (record { owner = no_lists; calls = [] }) ≡ some w)
      × (react e w ≡ some w')
      × ((c : ℕ) → 0 < times c w'.calls → w'.owner.refs c ≡ some (suc (times c w'.calls)))
      × (replaces e ≡ true
          → (c n : ℕ) → w'.owner.refs c ≡ some n
          → (is_list w'.owner.current c ≡ true) ⊎ (0 < times c w'.calls))
react_all_lem es e =
    let (w, first, s) =
      react_all-Sound es (record { owner = no_lists; calls = [] }) no_lists-Sound in
    let (w', last, s', needed) = react-Sound e w s in
    (
      w,
      w',
      first,
      last,
      λ c lt. ground (arith, (s' c).counted, (s' c).called),
      λ is c n there. ground (arith, (s' c).counted, needed is c),
    )
