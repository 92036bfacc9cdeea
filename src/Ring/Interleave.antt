-- ===== src/Ring/Interleave.antt =====
-- The two threads of a ring in every interleaving of their steps.
use video_player_core.Base.{
  ℕ, zero, suc, ◌≡◌, refl, Bool, false, ◌||◌, not, List, [], ◌∷◌, ◌++◌, arith, ltb, ◌==◌, length,
}
use video_player_core.Ring.{Ring}
use video_player_core.Ring.Bounds.{IsValid}
use video_player_core.Ring.Refine.{contents}
use video_player_core.Ring.Threads.{
  Writer, away, writing, Reader, apart, reading, Threads, Move, advance, advance_all,
}
use video_player_core.Ring.Concurrent.{advance-Flows}
use video_player_core.Ring.Flow.{Writes, ReadsOn, Flows}

module _ {A : Type 0} where
  -- Both threads are about to copy the same element.
  abbrev collide : Writer A → Reader A → Bool
  collide away r = false
  collide (writing dst [] src) r = false
  collide (writing dst (x ∷ xs) src) apart = false
  collide (writing dst (x ∷ xs) src) (reading p zero n out) = false
  collide (writing dst (x ∷ xs) src) (reading p (suc m) n out) = dst == p

  -- The next copy lies outside the storage.
  abbrev write_escapes : Writer A → List A → Bool
  write_escapes away buf = false
  write_escapes (writing dst [] src) buf = false
  write_escapes (writing dst (x ∷ xs) src) buf = not (ltb dst (length buf))

  abbrev read_escapes : Reader A → List A → Bool
  read_escapes apart buf = false
  read_escapes (reading p zero n out) buf = false
  read_escapes (reading p (suc m) n out) buf = not (ltb p (length buf))

  pub races : Threads A → Bool
  races t =
      collide t.writer t.reader
      || write_escapes t.writer t.ring.buf
      || read_escapes t.reader t.ring.buf

  no_races :
      (k : ℕ) (q : Ring A) (w : Writer A) (r : Reader A)
      → IsValid k q
      → Writes q w
      → ReadsOn q r
      → collide w r || write_escapes w q.buf || read_escapes r q.buf ≡ false
  no_races k q away apart v f g = refl
  no_races k q away (reading p zero n out) v f g = refl
  no_races k q away (reading p (suc m) n out) v f (a, b, c, d, e) =
      ground (arith, v.storage, v.cap_eq)
  no_races k q (writing dst [] src) apart v f g = refl
  no_races k q (writing dst [] src) (reading p zero n out) v f g = refl
  no_races k q (writing dst [] src) (reading p (suc m) n out) v f (a, b, c, d, e) =
      ground (arith, v.storage, v.cap_eq)
  no_races k q (writing dst (x ∷ xs) src) apart v (a, b, c, d, e) g =
      ground (arith, v.storage, v.cap_eq)
  no_races k q (writing dst (x ∷ xs) src) (reading p zero n out) v (a, b, c, d, e) g =
      ground (arith, v.storage, v.cap_eq)
  no_races k q (writing dst (x ∷ xs) src) (reading p (suc m) n out) v (a, b, c, d, e)
        (a', b', c', d', e') =
      ground (arith, v.storage, v.cap_eq)

  advance_all-Flows :
      (ms : List (Move A)) (k : ℕ) (t : Threads A) → Flows k t → Flows k (advance_all ms t)
  unfolding advance_all
  advance_all-Flows [] k t f = f
  advance_all-Flows (m ∷ ms) k t f = advance_all-Flows ms k (advance m t) (advance-Flows m k t f)

  abbrev pub idle : Ring A → Threads A
  idle q = record { ring = q; writer = away; reader = apart; sent = []; taken = [] }

  -- A writing and a reading thread on a valid empty ring, in any interleaving of their checks, the
  -- copies of single elements and the stores of their positions: what the reader was given and then
  -- the contents are exactly what was written, in order; the two never copy the same element, and no
  -- copy leaves the storage.
  pub advance_all_lem :
      (ms : List (Move A)) {k : ℕ} {q : Ring A}
      → IsValid k q
      → contents q ≡ []
      → ((advance_all ms (idle q)).taken ++ contents (advance_all ms (idle q)).ring
          ≡ (advance_all ms (idle q)).sent)
        × (races (advance_all ms (idle q)) ≡ false)
  unfolding races
  advance_all_lem ms {k} {q} v empty =
      let f =
        advance_all-Flows ms k (idle q)
          (record { valid = v; whole = empty; writes = tt; reads = tt }) in
      let t = advance_all ms (idle q) in
      (f.whole, no_races k t.ring t.writer t.reader f.valid f.writes f.reads)
