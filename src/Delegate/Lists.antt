-- ===== src/Delegate/Lists.antt =====
-- include/utils/Delegate.h, `MethodList`: a prefix of a shared array. Lists that were copied from one
-- another share the array until one of them grows past what the other sees.
use video_player_core.Base.{
  ℕ, zero, suc, ◌+◌, ◌-◌, ◌*◌, Bool, false, ◌&&◌, Option, none, some, List, if◌then◌else◌, ltb, leb,
  ◌==◌, length, get_elem?,
}
use video_player_core.Delegate.Memory.{
  Method, SharedArray, M, ◌>>=◌, ◌>>◌, pure, load, new_array, push_back, push_range, assign,
  add_ref, release,
}

pub record MethodList : Type 0 where
  pub array : ℕ
  pub size : ℕ

-- What a removal answers: `this`, `nullptr`, or a new list.
pub data Removed : Type 0 where
  unchanged emptied : Removed
  changed : MethodList → Removed

module _ {F : Type 0} where
  -- `MethodList()`
  unfoldable pub make_list : M F MethodList
  make_list = do p ← new_array 4; pure (record { array = p; size = 0 })

  -- `MethodList(methodList)`
  unfoldable pub copy_list : MethodList → M F MethodList
  copy_list l = do add_ref l.array; pure l

  unfoldable pub delete_list : MethodList → M F (Unit {0})
  delete_list l = release l.array

  -- A larger array with the first `n` methods in place of the old one.
  abbrev pub move_prefix : ℕ → ℕ → ℕ → M F ℕ
  move_prefix p n cap = do temp ← new_array cap; push_range temp p 0 n; release p; pure temp

  -- The same with all methods of the array.
  abbrev pub move_all : ℕ → ℕ → M F ℕ
  move_all p cap = do temp ← new_array cap; assign temp p; release p; pure temp

  -- Where `Add` puts the methods first: an array that the list may extend.
  abbrev pub make_room : MethodList → SharedArray F → M F ℕ
  make_room l a h =
      if ltb l.size (length a.items)
      then move_prefix l.array l.size (l.size * 2) h
      else (if length a.items == a.capacity
          then move_all l.array (a.capacity * 2) h
          else some (l.array, h))

  -- `Add(method)`
  unfoldable pub add : MethodList → Method F → M F MethodList
  add l m = do
    a ← load l.array
    p ← make_room l a
    push_back p m
    pure (record { array = p; size = suc l.size })

  abbrev pub make_room_for : MethodList → ℕ → SharedArray F → M F ℕ
  make_room_for l size a h =
      if ltb l.size (length a.items)
      then move_prefix l.array l.size (size * 2) h
      else (if leb (a.capacity - 1) size then move_all l.array (size * 2) h else some (l.array, h))

  -- `Add(methodList)`
  unfoldable pub add_all : MethodList → MethodList → M F MethodList
  add_all l other = do
    let size = l.size + other.size
    a ← load l.array
    p ← make_room_for l size a
    push_range p other.array 0 other.size
    pure (record { array = p; size = size })

  abbrev pub is_at : List (Method F) → ℕ → ℕ → ℕ → Bool
  is_at items object address i = elim (get_elem? items i) [
    | none ↦ false
    | some m ↦ m.object == object && m.address == address
  ]

  -- The last index below `n` at which the method stands.
  unfoldable pub find_down : List (Method F) → ℕ → ℕ → ℕ → Option ℕ
  find_down items object address zero = none
  find_down items object address (suc i) =
      let rest = find_down items object address i in
      if is_at items object address i then some i else rest

  -- The methods but the one at `i`, in an array of their own.
  abbrev pub cut : MethodList → ℕ → M F MethodList
  cut l i = do
    add_ref l.array
    temp ← new_array ((l.size - 1) * 2)
    push_range temp l.array 0 i
    push_range temp l.array (i + 1) (l.size - i - 1)
    release l.array
    pure (record { array = temp; size = l.size - 1 })

  -- The prefix without the last method, over the same array.
  abbrev pub shorten : MethodList → M F MethodList
  shorten l = do add_ref l.array; pure (record l { size = l.size - 1 })

  abbrev pub to_changed : M F MethodList → M F Removed
  to_changed m h = elim (m h) [ none ↦ none | some (l, h') ↦ some (changed l, h') ]

  -- `Remove(pObject, pMethodAdress)`. A list with no method would be read at index -1.
  unfoldable pub remove : MethodList → ℕ → ℕ → M F Removed
  unfolding find_down
  remove l object address h = elim (h.cell l.array) [
    | none ↦ none
    | some a ↦
        if ltb 0 l.size && leb l.size (length a.items)
        then (if is_at a.items object address (l.size - 1)
            then (if l.size - 1 == 0 then some (emptied, h) else to_changed (shorten l) h)
            else elim (find_down a.items object address (l.size - 1)) [
              | none ↦ some (unchanged, h)
              | some i ↦ to_changed (cut l i) h
            ])
        else none
  ]
