-- ===== src/Delegate/Examples.antt =====
-- Delegates at concrete methods.
use video_player_core.Base.{
  ℕ, ◌≡◌, refl, inl, none, some, List, [], ◌∷◌, arith, true, ◌<◌, ◌≤◌, ◌⊎◌, false, suc,
}
use video_player_core.Delegate.Memory.{Method, SharedArray, Heap, update}
use video_player_core.Delegate.Lists.{MethodList}
use video_player_core.Delegate.Add.{Owns}
use video_player_core.Delegate.Calls.{
  no_methods, Op, plus, minus, run, call, Delegate, minus_all, merge,
}
use video_player_core.Delegate.Program.{expected, run-Gives}
use video_player_core.Delegate.Copy.{Gives}
use video_player_core.Delegate.Order.{call_lem, in_order}
use video_player_core.Delegate.Callables.{
  Callable, functor, key_of, method_of, adds, removes, callables_lem,
}
use video_player_core.Base.{◌++◌}
use video_player_core.Delegate.Whole.{merge-Gives}
use video_player_core.Delegate.Reclaim.{
  Event, takes_new, takes_none, call_starts, call_ends, react, react_all, no_lists, Calling,
  is_list,
}
use video_player_core.Delegate.Holds.{times}
use video_player_core.Delegate.Nested.{replaces, react_all_lem}
use video_player_core.Delegate.Each.{remove_each}

abbrev first : Method ℕ
first = record { object = 7; address = 0; method = 1 }

abbrev second : Method ℕ
second = record { object = 8; address = 0; method = 2 }

abbrev empty : Heap ℕ
empty = record { cell = λ _. none; fresh = 0 }

abbrev program : List (Op ℕ)
program = plus first ∷ plus second ∷ plus first ∷ minus 8 0 ∷ minus 9 0 ∷ []

run-Gives_example : Gives empty (expected program []) (run program no_methods empty)
run-Gives_example = run-Gives program empty no_methods [] (λ p le. refl) refl

abbrev shared : SharedArray ℕ
shared = record { items = first ∷ second ∷ []; capacity = 4; ref_count = 2 }

-- One array, which two lists share.
abbrev one_array : Heap ℕ
one_array = record { cell = update (λ _. none) 3 (some shared); fresh = 4 }

abbrev short : MethodList
short = record { array = 3; size = 1 }

abbrev long : MethodList
long = record { array = 3; size = 2 }

short-Owns : Owns one_array short shared
short-Owns = record {
  at = refl;
  fits = omega arith;
  room = omega arith;
  roomy = omega arith;
  seen = inl (omega arith);
  counted = omega arith;
  unused = λ p le. ground arith;
}

long-Owns : Owns one_array long shared
long-Owns = record {
  at = refl;
  fits = omega arith;
  room = omega arith;
  roomy = omega arith;
  seen = inl (omega arith);
  counted = omega arith;
  unused = λ p le. ground arith;
}

call_example :
    call (record { current = some long; delete_list = [] }) one_array
    ≡ in_order one_array (first ∷ second ∷ [])
call_example =
    call_lem one_array (some long) [] (first ∷ second ∷ []) (shared, long-Owns, omega arith) refl

abbrev three : SharedArray ℕ
three = record { items = first ∷ second ∷ first ∷ []; capacity = 4; ref_count = 2 }

abbrev three_array : Heap ℕ
three_array = record { cell = update (λ _. none) 3 (some three); fresh = 4 }

abbrev whole : MethodList
whole = record { array = 3; size = 3 }

three-Owns : (n : ℕ) → 0 < n → n ≤ 3 → Owns three_array (record { array = 3; size = n }) three
three-Owns n pos le = record {
  at = refl;
  fits = omega arith;
  room = omega arith;
  roomy = omega arith;
  seen = inl pos;
  counted = omega arith;
  unused = λ p at_least. ground arith;
}

abbrev all_three : Delegate
all_three = record { current = some whole; delete_list = [] }

abbrev first_two : Delegate
first_two = record { current = some long; delete_list = [] }

-- The later `first` and `second` go.
merge-Gives_example :
    Gives three_array
      (remove_each (first ∷ second ∷ []) (first ∷ second ∷ first ∷ []))
      (merge minus_all false all_three first_two three_array)
merge-Gives_example =
    merge-Gives minus_all false three_array all_three first_two (first ∷ second ∷ first ∷ [])
      (first ∷ second ∷ []) (three, three-Owns 3 (omega arith) (omega arith), omega arith)
      (three, three-Owns 2 (omega arith) (omega arith), omega arith) refl refl (λ is. absurd (cc))

-- A list that is replaced during a nested call of it is deleted by a replacement after the calls.
abbrev nested : List Event
nested = takes_new ∷ call_starts ∷ call_starts ∷ takes_new ∷ call_ends ∷ takes_none ∷ call_ends ∷ []

abbrev Ends : List Event → Event → Type 0
Ends es e =
    (w w' : Calling) × (react_all es (record { owner = no_lists; calls = [] }) ≡ some w)
    × (react e w ≡ some w')
    × ((c : ℕ) → 0 < times c w'.calls → w'.owner.refs c ≡ some (suc (times c w'.calls)))
    × (replaces e ≡ true
        → (c n : ℕ) → w'.owner.refs c ≡ some n
        → (is_list w'.owner.current c ≡ true) ⊎ (0 < times c w'.calls))

react_all_example : Ends nested takes_none
react_all_example = react_all_lem nested takes_none

-- Two lambdas of one type
abbrev captures : ℕ → Callable ℕ
captures n = functor 7 n

callables_example :
    Gives empty
      ([] ++ method_of (captures 1) ∷ [])
      (run (adds (captures 1) ∷ adds (captures 2) ∷ removes (captures 1) ∷ []) no_methods empty)
unfolding method_of key_of
callables_example = callables_lem (captures 1) (captures 2) empty no_methods [] (λ p le. refl) refl
