-- ===== src/Delegate/Callables.antt =====
-- include/utils/Delegate.h, the overloads of `SetValueInternal`, `AddInternal` and `RemoveInternal`: the
-- two pointers that a lambda, a function pointer or a `std::function` is known by.
use video_player_core.Base.{
  ℕ, ◌≡◌, subst, inl, inr, Bool, true, ◌&&◌, some, List, [], ◌∷◌, ◌++◌, if◌then◌else◌, ◌==◌, arith,
  Bool-cases,
}
use video_player_core.Delegate.Memory.{Method, Heap}
use video_player_core.Delegate.Calls.{Delegate, Op, plus, minus, run}
use video_player_core.Delegate.Search.{is_it, remove_last-snoc}
use video_player_core.Delegate.Copy.{shown, Ready, Gives}
use video_player_core.Delegate.Program.{expected, run-Gives}

-- A lambda or another functor is given by the `hash_code` of its type, and a function by its address.
-- A `std::function` holds one or the other, which `target` tells apart.
pub data Callable (F : Type 0) : Type 0 where
  functor : ℕ → F → Callable F
  pointer : ℕ → F → Callable F
  holds_functor : ℕ → F → Callable F
  holds_pointer : ℕ → F → Callable F

module _ {F : Type 0} where
  -- The method that `+=` adds and `=` sets
  unfoldable pub method_of : Callable F → Method F
  method_of (functor hash f) = record { object = hash; address = 0; method = f }
  method_of (pointer p f) = record { object = 0; address = p; method = f }
  method_of (holds_functor hash f) = record { object = hash; address = 0; method = f }
  method_of (holds_pointer p f) = record { object = 0; address = p; method = f }

  -- What `-=` gives to `Remove`
  unfoldable pub key_of : Callable F → ℕ × ℕ
  key_of (functor hash f) = (hash, 0)
  key_of (pointer p f) = (0, p)
  key_of (holds_functor hash f) = (hash, 0)
  key_of (holds_pointer p f) = (0, p)

  abbrev pub adds : Callable F → Op F
  adds c = plus (method_of c)

  abbrev pub removes : Callable F → Op F
  removes c = let (object, address) = key_of c in minus object address

  -- Whether `-=` takes one callable for another
  abbrev pub same_key : Callable F → Callable F → Bool
  same_key c e = (method_of e).object == (key_of c).0 && (method_of e).address == (key_of c).1

  same_key_self : (c : Callable F) → same_key c c ≡ true
  unfolding method_of key_of
  same_key_self (functor hash f) = ground arith
  same_key_self (pointer p f) = ground arith
  same_key_self (holds_functor hash f) = ground arith
  same_key_self (holds_pointer p f) = ground arith

  left_over :
      (c e : Callable F) (xs : List (Method F))
      → expected (adds c ∷ adds e ∷ removes c ∷ []) xs
        ≡ xs ++ (if same_key c e then method_of c else method_of e) ∷ []
  unfolding expected
  left_over c e xs =
      let (object, address) = key_of c in
      let own : is_it object address (method_of c) ≡ true = same_key_self c in
      let last = remove_last-snoc object address (xs ++ method_of c ∷ []) (method_of e) in
      let before = remove_last-snoc object address xs (method_of c) in
      elim (Bool-cases (same_key c e)) [
        | inl same ↦ ground (arith, own, last, before)
        | inr other ↦ ground (arith, own, last, before)
      ]

  -- A callable that is added to a delegate, another one after it, and then the first is removed:
  -- without a fault the other is left behind what was there. But if both are lambdas of one type,
  -- or hold the same function, it is the first that is left, and the other is gone.
  pub callables_lem :
      (c e : Callable F) (h : Heap F) (d : Delegate) (xs : List (Method F))
      → Ready h d.current
      → shown h d ≡ some xs
      → Gives h
          (xs ++ (if same_key c e then method_of c else method_of e) ∷ [])
          (run (adds c ∷ adds e ∷ removes c ∷ []) d h)
  callables_lem c e h d xs ready shows =
      subst (λ ys. Gives h ys (run (adds c ∷ adds e ∷ removes c ∷ []) d h)) (left_over c e xs)
        (run-Gives (adds c ∷ adds e ∷ removes c ∷ []) h d xs ready shows)
