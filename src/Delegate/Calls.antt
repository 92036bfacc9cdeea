-- ===== src/Delegate/Calls.antt =====
-- include/utils/Delegate.h, `_Delegate_S`: the list of methods that a delegate calls, which `+=`,
-- `-=` and `=` replace and never change, and the lists that it keeps for the calls that still run.
-- Where the other side is a delegate it is a `_Delegate`, as `MakeDelegate` gives it, or a `Delegate_S`,
-- whose overloads are alike. (Those of other mutexes are taken as functors by the templates.)
use video_player_core.Base.{
  ℕ, zero, suc, ◌-◌, Bool, if◌then◌else◌, Option, none, some, List, [], ◌∷◌, ◌++◌, get_elem?,
}
use video_player_core.Delegate.Memory.{Method, M, ◌>>=◌, ◌>>◌, pure}
use video_player_core.Delegate.Lists.{
  MethodList, Removed, unchanged, emptied, changed, make_list, copy_list, delete_list, add, add_all,
  remove,
}
use video_player_core.Delegate.Counts.{remove_all}

-- A null `_current` is `none`.
pub record Delegate : Type 0 where
  pub current : Option MethodList
  pub delete_list : List MethodList

-- `_Delegate()`
abbrev pub no_methods : Delegate
no_methods = record { current = none; delete_list = [] }

-- The old list, if it goes, is kept.
abbrev pub retire : Delegate → List MethodList
retire d = elim d.current [ none ↦ d.delete_list | some l ↦ d.delete_list ++ l ∷ [] ]

-- `SetMethodList`, on what a removal answers or a new list
unfoldable pub set_method_list : Delegate → Removed → Delegate
set_method_list d unchanged = d
set_method_list d emptied = record { current = none; delete_list = retire d }
set_method_list d (changed l) = record { current = some l; delete_list = retire d }

module _ {F : Type 0} where
  -- `_current ? new MethodList(*_current) : new MethodList()`
  unfoldable pub copy_current : Delegate → M F MethodList
  copy_current d = elim d.current [ none ↦ make_list | some l ↦ copy_list l ]

  -- `+=` a method
  unfoldable pub add_method : Delegate → Method F → M F Delegate
  add_method d m = do l ← copy_current d; l' ← add l m; pure (set_method_list d (changed l'))

  -- `+=` a delegate
  unfoldable pub add_delegate : Delegate → Delegate → M F Delegate
  add_delegate d other h = elim other.current [
    | none ↦ some (d, h)
    | some k ↦
        (copy_current d >>= λ l. add_all l k >>= λ l'. pure (set_method_list d (changed l'))) h
  ]

  -- `=` a method
  unfoldable pub set_method : Delegate → Method F → M F Delegate
  set_method d m = do l ← make_list; l' ← add l m; pure (set_method_list d (changed l'))

  -- `-=` a method
  unfoldable pub remove_method : Delegate → ℕ → ℕ → M F Delegate
  remove_method d object address h = elim d.current [
    | none ↦ some (d, h)
    | some l ↦ (remove l object address >>= λ r. pure (set_method_list d r)) h
  ]

  -- `-=` a delegate, which may be the delegate itself
  unfoldable pub remove_delegate : Bool → Delegate → Delegate → M F Delegate
  remove_delegate is_self d other h = elim d.current [
    | none ↦ some (d, h)
    | some l ↦ if is_self then some (set_method_list d emptied, h) else elim other.current [
      | none ↦ some (d, h)
      | some k ↦ (remove_all l k >>= λ r. pure (set_method_list d r)) h
    ]
  ]

  -- `_Delegate(delegate)`, the copy of a `_Delegate`
  unfoldable pub copy_delegate : Delegate → M F Delegate
  copy_delegate other = elim other.current [
    | none ↦ pure no_methods
    | some k ↦ do l ← make_list; l' ← add_all l k; pure (record no_methods { current = some l' })
  ]

  -- `=` a delegate, which may be the delegate itself
  unfoldable pub set_delegate : Bool → Delegate → Delegate → M F Delegate
  set_delegate is_self d other = if is_self then pure d else elim other.current [
    | none ↦ pure (set_method_list d emptied)
    | some k ↦ do l ← make_list; l' ← add_all l k; pure (set_method_list d (changed l'))
  ]

  -- The functions at `i`, `i + 1`, … `i + n` of a list, called in this order.
  unfoldable pub call_from : MethodList → List (Method F) → ℕ → ℕ → Option (List F)
  call_from l items i zero = elim (get_elem? items i) [
    | none ↦ none
    | some m ↦ some (m.method ∷ [])
  ]
  call_from l items i (suc n) =
      let rest = call_from l items (suc i) n in
      elim (get_elem? items i) [
        | none ↦ none
        | some m ↦ elim rest [ none ↦ none | some fs ↦ some (m.method ∷ fs) ]
      ]

  -- `operator ()`: what is called in which order. A delegate without methods is a null pointer.
  unfoldable pub call : Delegate → M F (List F)
  unfolding call_from
  call d h = elim d.current [
    | none ↦ none
    | some l ↦ elim (h.cell l.array) [
      | none ↦ none
      | some a ↦ elim (call_from l a.items 0 (l.size - 1)) [ none ↦ none | some fs ↦ some (fs, h) ]
    ]
  ]

  -- `for (auto i : _deleteList) delete i`
  pub delete_all : List MethodList → M F (Unit {0})
  delete_all [] = pure tt
  delete_all (l ∷ ls) = do delete_list l; delete_all ls

  -- `~_Delegate`
  unfoldable pub delete_delegate : Delegate → M F (Unit {0})
  delete_delegate d = do
    elim d.current [ none ↦ pure tt | some l ↦ delete_list l ]
    delete_all d.delete_list

  -- `TrimExcess`
  unfoldable pub trim_excess : Delegate → M F Delegate
  trim_excess d = do delete_all d.delete_list; pure (record d { delete_list = [] })

-- A program that adds and removes methods.
pub data Op (F : Type 0) : Type 0 where
  plus : Method F → Op F
  minus : ℕ → ℕ → Op F

-- The operators that take another delegate.
pub data Merge : Type 0 where
  plus_all minus_all assign_all : Merge

module _ {F : Type 0} where
  abbrev pub apply : Op F → Delegate → M F Delegate
  apply (plus m) d = add_method d m
  apply (minus object address) d = remove_method d object address

  unfoldable pub run : List (Op F) → Delegate → M F Delegate
  run [] d = pure d
  run (op ∷ ops) d = do d' ← apply op d; run ops d'

  -- `is_self` tells whether the other delegate is the delegate itself.
  abbrev pub merge : Merge → Bool → Delegate → Delegate → M F Delegate
  merge plus_all is_self d other = add_delegate d other
  merge minus_all is_self d other = remove_delegate is_self d other
  merge assign_all is_self d other = set_delegate is_self d other
