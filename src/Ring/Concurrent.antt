-- ===== src/Ring/Concurrent.antt =====
-- The ring between a writing and a reading thread.
use video_player_core.Base.{
  ℕ, zero, suc, ◌+◌, ◌≤◌, ◌<◌, ◌≡◌, ap, ap₂, sym, ◌∙◌, List, [], ◌∷◌, ◌++◌, append-nil,
  append_assoc, arith, length, segment, splice, get_elem?_in, subst,
}
use video_player_core.Base.Segments.{
  length-splice, segment-append, segment-splice_self, segment-splice_before, segment_step,
}
use video_player_core.Ring.{Ring, end_write, end_read}
use video_player_core.Ring.Bounds.{IsValid, used, end_write_lem, end_read_lem}
use video_player_core.Ring.Refine.{contents, contents-after_read}
use video_player_core.Ring.Published.{
  contents-end_write, contents-copy, end_write-IsValid, end_read-IsValid,
}
use video_player_core.Ring.Threads.{
  Writer, away, writing, Reader, apart, reading, Threads, Move, write_begins, write_copies,
  write_ends, read_begins, read_copies, read_ends, advance,
}
use video_player_core.Ring.Flow.{
  Flows, Writes, ReadsOn, threads, start_write-Flows, start_read-Flows, ReadsOn-copy,
}

module _ {A : Type 0} where
  copy_in-Flows :
      (k : ℕ) (q : Ring A) (w : Writer A) (r : Reader A) (sent taken : List A)
      → Flows k (threads q w r sent taken)
      → Flows k (advance write_copies (threads q w r sent taken))
  unfolding advance
  copy_in-Flows k q away r sent taken f = f
  copy_in-Flows k q (writing dst [] src) r sent taken f = f
  copy_in-Flows k q (writing dst (x ∷ xs) src) r sent taken f =
      let (room, fits, at, le, copied) = f.writes in
      let v = f.valid in
      record {
        valid = record {
          small = v.small;
          cap_eq = v.cap_eq;
          mask_eq = v.mask_eq;
          write_in = v.write_in;
          read_in = v.read_in;
          storage = ground (arith, v.storage, length-splice q.buf dst (x ∷ []));
        };
        whole = ground (arith, f.whole, contents-copy dst x v le (omega arith) (omega arith));
        writes = (
          room,
          fits,
          omega arith,
          omega arith,
          ground (
            arith,
            copied,
            segment-append (splice q.buf dst (x ∷ [])) q.write_pos dst (suc dst),
            segment-splice_before q.buf q.write_pos dst dst (x ∷ []),
            segment-splice_self q.buf dst (suc dst) (x ∷ []),
            v.storage,
            append_assoc (segment q.buf q.write_pos dst) (x ∷ []) xs,
          ),
        );
        reads = ReadsOn-copy k q r dst x v le (omega arith) f.reads;
      }

  ReadsOn-end_write :
      {k : ℕ} {q : Ring A} (r : Reader A) (n : ℕ)
      → IsValid k q
      → used q + n < q.cap
      → q.write_pos + n ≤ q.cap
      → ReadsOn q r
      → ReadsOn (end_write q n) r
  unfolding end_write
  ReadsOn-end_write apart n v room fits f = tt
  ReadsOn-end_write (reading src todo m out) n v room fits (a, b, c, d, e) =
      (ground (arith, end_write_lem n v), b, c, d, e)

  Writes-end_read :
      {k : ℕ} {q : Ring A} (w : Writer A) (n : ℕ)
      → IsValid k q
      → n ≤ used q
      → q.read_pos + n ≤ q.cap
      → Writes q w
      → Writes (end_read q n) w
  unfolding end_read
  Writes-end_read away n v enough fits f = tt
  Writes-end_read (writing dst todo src) n v enough fits (a, b, c, d, e) =
      (ground (arith, end_read_lem n v), b, c, d, e)

  finish_write-Flows :
      (k : ℕ) (q : Ring A) (w : Writer A) (r : Reader A) (sent taken : List A)
      → Flows k (threads q w r sent taken)
      → Flows k (advance write_ends (threads q w r sent taken))
  unfolding advance
  finish_write-Flows k q away r sent taken f = f
  finish_write-Flows k q (writing dst (x ∷ xs) src) r sent taken f = f
  finish_write-Flows k q (writing dst [] src) r sent taken f =
      let (room, fits, at, le, copied) = f.writes in
      let n = length src in
      let there : segment q.buf q.write_pos (q.write_pos + n) ≡ src =
        ap (segment q.buf q.write_pos) (omega arith)
        ∙ sym (append-nil (segment q.buf q.write_pos dst))
        ∙ copied in
      record {
        valid = end_write-IsValid n f.valid fits;
        whole =
            ap (λ xs. taken ++ xs) (contents-end_write n f.valid room fits)
            ∙ sym (append_assoc taken (contents q) (segment q.buf q.write_pos (q.write_pos + n)))
            ∙ ap₂ ◌++◌ f.whole there;
        writes = tt;
        reads = ReadsOn-end_write r n f.valid room fits f.reads;
      }

  finish_read-Flows :
      (k : ℕ) (q : Ring A) (w : Writer A) (r : Reader A) (sent taken : List A)
      → Flows k (threads q w r sent taken)
      → Flows k (advance read_ends (threads q w r sent taken))
  unfolding advance
  finish_read-Flows k q w apart sent taken f = f
  finish_read-Flows k q w (reading src (suc m) n out) sent taken f = f
  finish_read-Flows k q w (reading src zero n out) sent taken f =
      let (enough, fits, at, le, copied) = f.reads in
      let there : out ≡ segment q.buf q.read_pos (q.read_pos + n) =
        copied ∙ ap (segment q.buf q.read_pos) (omega arith) in
      record {
        valid = end_read-IsValid n f.valid fits;
        whole =
            append_assoc taken out (contents (end_read q n))
            ∙ ap (λ xs. taken ++ xs)
                (ap (λ xs. xs ++ contents (end_read q n)) there
                  ∙ contents-after_read n f.valid enough fits)
            ∙ f.whole;
        writes = Writes-end_read w n f.valid enough fits f.writes;
        reads = tt;
      }

  copy_out-Flows :
      (k : ℕ) (q : Ring A) (w : Writer A) (r : Reader A) (sent taken : List A)
      → Flows k (threads q w r sent taken)
      → Flows k (advance read_copies (threads q w r sent taken))
  unfolding advance
  copy_out-Flows k q w apart sent taken f = f
  copy_out-Flows k q w (reading src zero n out) sent taken f = f
  copy_out-Flows k q w (reading src (suc m) n out) sent taken f =
      let (enough, fits, at, le, copied) = f.reads in
      let (x, there) = get_elem?_in q.buf src (ground (arith, f.valid.storage, f.valid.cap_eq)) in
      let same : advance read_copies (threads q w (reading src (suc m) n out) sent taken)
          ≡ threads q w (reading (suc src) m n (out ++ x ∷ [])) sent taken =
        ground arith in
      subst (Flows k) (sym same) (record {
        valid = f.valid;
        whole = f.whole;
        writes = f.writes;
        reads = (
          enough,
          fits,
          omega arith,
          omega arith,
          ap (λ xs. xs ++ x ∷ []) copied ∙ sym (segment_step q.buf q.read_pos src x le there),
        );
      })

  -- Every step of either thread keeps it.
  pub advance-Flows : (m : Move A) (k : ℕ) (t : Threads A) → Flows k t → Flows k (advance m t)
  advance-Flows (write_begins src) k t f =
      start_write-Flows k src t.ring t.writer t.reader t.sent t.taken f
  advance-Flows write_copies k t f = copy_in-Flows k t.ring t.writer t.reader t.sent t.taken f
  advance-Flows write_ends k t f = finish_write-Flows k t.ring t.writer t.reader t.sent t.taken f
  advance-Flows (read_begins n) k t f =
      start_read-Flows k n t.ring t.writer t.reader t.sent t.taken f
  advance-Flows read_copies k t f = copy_out-Flows k t.ring t.writer t.reader t.sent t.taken f
  advance-Flows read_ends k t f = finish_read-Flows k t.ring t.writer t.reader t.sent t.taken f
