-- ===== src/Play/Markers.antt =====
-- How many end markers a queue holds, and how the count moves when something is read or shown.
use video_player_core.Base.{
  ℕ, suc, ◌+◌, ◌≡◌, refl, ap, Bool, true, false, ◌||◌, Option, none, some, List, [], ◌∷◌, ◌++◌,
  length, length-append, arith,
}
use video_player_core.Play.Loop.{Player, is_stream, is_off, queue_size}

-- The end markers of a queue.
abbrev pub markers : List (Option ℕ) → ℕ
markers [] = 0
markers (none ∷ xs) = suc (markers xs)
markers (some i ∷ xs) = markers xs

pub markers-append : (xs ys : List (Option ℕ)) → markers (xs ++ ys) ≡ markers xs + markers ys
markers-append [] ys = omega arith
markers-append (none ∷ xs) ys = omega (arith, markers-append xs ys)
markers-append (some i ∷ xs) ys = markers-append xs ys

abbrev pub one_if : Bool → ℕ
one_if true = 1
one_if false = 0

-- After `n` restarts: the marker of a stream that plays is on its way or has arrived, once the file
-- is at its end; the queue of another stream holds a marker for each end of the file.
abbrev pub Balance : ℕ → Option ℕ → List (Option ℕ) → Bool → Bool → Type 0
Balance n (some i) queue arrived eof = markers queue + one_if arrived ≡ one_if eof
Balance n none queue arrived eof =
    (length queue ≡ n + one_if eof) × (markers queue ≡ length queue) × (arrived ≡ false)

pub record Balanced (n : ℕ) (s : Player) : Type 0 where
  pub video : Balance n s.video s.video_queue s.video_eof s.eof
  pub audio : Balance n s.audio s.audio_queue s.audio_eof s.eof

pub mark-Balance :
    (n : ℕ) (c : Option ℕ) (q : List (Option ℕ)) (arrived : Bool)
    → Balance n c q arrived false
    → Balance n c (q ++ none ∷ []) arrived true
mark-Balance n none q arrived (size, all, missing) = (
  omega (arith, length-append q (none ∷ [])),
  omega (arith, length-append q (none ∷ []), markers-append q (none ∷ [])),
  missing,
)
mark-Balance n (some i) q arrived b = omega (arith, markers-append q (none ∷ []))

pub packet-Balance :
    (n i : ℕ) (c : Option ℕ) (q : List (Option ℕ)) (arrived eof : Bool)
    → is_stream i c ≡ true
    → Balance n c q arrived eof
    → Balance n c (q ++ some i ∷ []) arrived eof
packet-Balance n i none q arrived eof e b = absurd (ground arith)
packet-Balance n i (some j) q arrived eof e b = omega (arith, markers-append q (some i ∷ []))

pub restart-Balance :
    (n : ℕ) (c : Option ℕ) (q : List (Option ℕ)) (arrived : Bool)
    → (is_off c || arrived) ≡ true
    → Balance n c q arrived true
    → Balance (n + 1) c q false false
restart-Balance n none q arrived e (size, all, missing) = (omega arith, all, refl)
restart-Balance n (some i) q true e b = omega arith
restart-Balance n (some i) q false e b = absurd (ground arith)

pub take-Balance :
    (n i : ℕ) (c : Option ℕ) (x : Option ℕ) (xs q : List (Option ℕ)) (arrived eof : Bool)
    → c ≡ some i
    → q ≡ x ∷ xs
    → Balance n c q arrived eof
    → Balance n c xs (elim x [ none ↦ true | some j ↦ arrived ]) eof
take-Balance n i none x xs q arrived eof on at b = absurd (ground arith)
take-Balance n i (some j) none xs q true true on at b = absurd (omega (arith, ap markers at))
take-Balance n i (some j) none xs q false true on at b = omega (arith, ap markers at)
take-Balance n i (some j) none xs q true false on at b = absurd (omega (arith, ap markers at))
take-Balance n i (some j) none xs q false false on at b = absurd (omega (arith, ap markers at))
take-Balance n i (some j) (some k) xs q arrived eof on at b = omega (arith, ap markers at)

pub begin-Balance :
    (c : Option ℕ) (q : List (Option ℕ)) (arrived eof : Bool)
    → q ≡ []
    → arrived ≡ false
    → eof ≡ false
    → Balance 0 c q arrived eof
begin-Balance none q arrived eof no_queue missing no_eof = (ground arith, ground arith, missing)
begin-Balance (some i) q arrived eof no_queue missing no_eof = ground arith

pub drained :
    (n i : ℕ) (c : Option ℕ) (q : List (Option ℕ)) (arrived : Bool)
    → c ≡ some i
    → (is_off c || arrived) ≡ true
    → Balance n c q arrived true
    → markers q ≡ 0
drained n i none q arrived on over b = absurd (ground arith)
drained n i (some j) q true on over b = omega arith
drained n i (some j) q false on over b = absurd (ground arith)

pub full :
    (c : Option ℕ) (q : List (Option ℕ)) (arrived : Bool)
    → c ≡ none
    → Balance queue_size c q arrived false
    → length q ≡ queue_size
full none q arrived off (size, all, missing) = omega arith
full (some i) q arrived off b = absurd (ground arith)
