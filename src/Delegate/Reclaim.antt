-- ===== src/Delegate/Reclaim.antt =====
-- include/utils/Delegate.h, `_Delegate::SetMethodList`, `operator ()` and `Defer`: the lists of methods
-- as objects with a reference count. A call counts as a reference; a list that is replaced while it is
-- called is kept in `_deleteList` until a later replacement finds that its calls are over. Reading a
-- list that was deleted is a fault, `none`.
use video_player_core.Base.{
  ℕ, suc, ◌-◌, Bool, false, Option, none, some, List, [], ◌∷◌, ◌++◌, if◌then◌else◌, ◌==◌,
}
use video_player_core.Delegate.Memory.{update}

-- The lists are named by numbers. `refs` has the `_refCount` of those that were made and not deleted.
pub record Owner : Type 0 where
  pub current : Option ℕ
  pub delete_list : List ℕ
  pub refs : ℕ → Option ℕ
  pub fresh : ℕ

abbrev pub no_lists : Owner
no_lists = record { current = none; delete_list = []; refs = λ c. none; fresh = 0 }

abbrev pub is_list : Option ℕ → ℕ → Bool
is_list none c = false
is_list (some b) c = b == c

-- The list that is replaced is deleted at once if no call holds it.
abbrev pub give_up : ℕ → Owner → Option Owner
give_up c s = elim (s.refs c) [
  | none ↦ none
  | some n ↦
      if n == 1
      then some (record s { refs = update s.refs c none })
      else some (record s { delete_list = s.delete_list ++ c ∷ [] })
]

abbrev pub replace_current : Option ℕ → Owner → Option Owner
replace_current l s = elim s.current [
  | none ↦ some s
  | some c ↦ if is_list l c then some s else give_up c s
]

abbrev pub keep : ℕ → Option (List ℕ × (ℕ → Option ℕ)) → Option (List ℕ × (ℕ → Option ℕ))
keep c none = none
keep c (some (ls, refs)) = some (c ∷ ls, refs)

-- The loop over `_deleteList`: what stays in it, and the counts after it.
unfoldable pub sweep : List ℕ → (ℕ → Option ℕ) → Option (List ℕ × (ℕ → Option ℕ))
sweep [] refs = some ([], refs)
sweep (c ∷ cs) refs = elim (refs c) [
  | none ↦ none
  | some n ↦ if n == 1 then sweep cs (update refs c none) else keep c (sweep cs refs)
]

-- `_Delegate::SetMethodList`
unfoldable pub set_list : Option ℕ → Owner → Option Owner
unfolding sweep
set_list l s = elim (replace_current l s) [
  | none ↦ none
  | some s' ↦ elim (sweep s'.delete_list s'.refs) [
    | none ↦ none
    | some (ls, refs) ↦ some (record s' { current = l; delete_list = ls; refs = refs })
  ]
]

-- `AddRef` and `RemoveRef` of a list
abbrev pub set_refs : (ℕ → ℕ) → ℕ → Owner → Option Owner
set_refs f c s = elim (s.refs c) [
  | none ↦ none
  | some n ↦ some (record s { refs = update s.refs c (some (f n)) })
]

-- What happens to a delegate: a call, if it has methods, the end of the innermost call, and a new list,
-- the same list or none in place of its list, at any time, during calls too.
pub data Event : Type 0 where
  call_starts call_ends takes_new takes_same takes_none : Event

-- A delegate with the lists of the calls that run, the innermost first.
pub record Calling : Type 0 where
  pub owner : Owner
  pub calls : List ℕ

abbrev pub with_calls : List ℕ → Option Owner → Option Calling
with_calls calls none = none
with_calls calls (some s) = some (record { owner = s; calls = calls })

abbrev pub new_list : Owner → Owner
new_list s = record s { refs = update s.refs s.fresh (some 1); fresh = suc s.fresh }

unfoldable pub react : Event → Calling → Option Calling
react call_starts w = elim w.owner.current [
  | none ↦ some w
  | some c ↦ with_calls (c ∷ w.calls) (set_refs suc c w.owner)
]
react call_ends w = elim w.calls [
  | [] ↦ some w
  | c ∷ calls ↦ with_calls calls (set_refs (λ n. n - 1) c w.owner)
]
react takes_new w = with_calls w.calls (set_list (some w.owner.fresh) (new_list w.owner))
react takes_same w = with_calls w.calls (set_list w.owner.current w.owner)
react takes_none w = with_calls w.calls (set_list none w.owner)

unfoldable pub react_all : List Event → Calling → Option Calling
react_all [] w = some w
react_all (e ∷ es) w = elim (react e w) [ none ↦ none | some w' ↦ react_all es w' ]
