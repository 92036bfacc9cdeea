-- ===== src/Delegate/Memory.antt =====
-- include/utils/Delegate.h, `Method` and `SharedArray`: arrays of methods on the heap, with a
-- reference count. An access outside an array, or to one that has been deleted, is a fault, `none`.
use video_player_core.Base.{
  ℕ, suc, ◌+◌, ◌-◌, Bool, true, false, ◌&&◌, Option, none, some, List, [], ◌∷◌, ◌++◌, if◌then◌else◌,
  ltb, leb, ◌==◌, length, segment,
}

-- `F` is the type of the functions. The two pointers identify a method.
pub record Method (F : Type 0) : Type 0 where
  pub object : ℕ
  pub address : ℕ
  pub method : F

-- `operator ==`
abbrev pub same_method : {F : Type 0} → Method F → Method F → Bool
same_method m n = m.object == n.object && m.address == n.address

-- `_size` is the length of `items`.
pub record SharedArray (F : Type 0) : Type 0 where
  pub items : List (Method F)
  pub capacity : ℕ
  pub ref_count : ℕ

pub record Heap (F : Type 0) : Type 0 where
  pub cell : ℕ → Option (SharedArray F)
  pub fresh : ℕ

abbrev pub update {ℓ} : {A : Type ℓ} → (ℕ → A) → ℕ → A → ℕ → A
update f i a j = if i == j then a else f j

abbrev pub M : Type 0 → Type 0 → Type 0
M F A = Heap F → Option (A × Heap F)

infixl 5 ◌>>=◌ ◌>>◌
abbrev pub ◌>>=◌ : {F A B : Type 0} → M F A → (A → M F B) → M F B
◌>>=◌ m f h = elim (m h) [ none ↦ none | some (a, h') ↦ f a h' ]

abbrev pub ◌>>◌ : {F B : Type 0} → M F (Unit {0}) → M F B → M F B
m >> k = m >>= λ _. k

abbrev pub pure : {F A : Type 0} → A → M F A
pure a h = some (a, h)

module _ {F : Type 0} where
  abbrev pub load : ℕ → M F (SharedArray F)
  load p h = elim (h.cell p) [ none ↦ none | some a ↦ some (a, h) ]

  abbrev pub store : ℕ → Option (SharedArray F) → M F (Unit {0})
  store p a h = some (tt, record h { cell = update h.cell p a })

  abbrev pub check : Bool → M F (Unit {0})
  check true h = some (tt, h)
  check false h = none

  -- `new SharedArray(cap)`
  abbrev pub new_array : ℕ → M F ℕ
  new_array cap h = some (
    h.fresh,
    record {
      cell = update h.cell h.fresh (some (record { items = []; capacity = cap; ref_count = 1 }));
      fresh = suc h.fresh;
    },
  )

  -- `PushBack(m)`
  abbrev pub push_back : ℕ → Method F → M F (Unit {0})
  push_back p m = do
    a ← load p
    check (ltb (length a.items) a.capacity)
    store p (some (record a { items = a.items ++ m ∷ [] }))

  -- `PushBack(array, start, len)`
  abbrev pub push_range : ℕ → ℕ → ℕ → ℕ → M F (Unit {0})
  push_range p q start len = do
    a ← load p
    b ← load q
    check (leb (length a.items + len) a.capacity && leb (start + len) (length b.items))
    store p (some (record a { items = a.items ++ segment b.items start (start + len) }))

  -- `operator =`, on an array that has just been made
  abbrev pub assign : ℕ → ℕ → M F (Unit {0})
  assign p q = do
    a ← load p
    b ← load q
    check (leb (length b.items) a.capacity)
    store p (some (record a { items = b.items }))

  abbrev pub add_ref : ℕ → M F (Unit {0})
  add_ref p = do a ← load p; store p (some (record a { ref_count = suc a.ref_count }))

  -- The last reference deletes the array.
  abbrev pub release : ℕ → M F (Unit {0})
  release p = do
    a ← load p
    store p (if a.ref_count - 1 == 0 then none else some (record a { ref_count = a.ref_count - 1 }))
