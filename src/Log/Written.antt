-- ===== src/Log/Written.antt =====
-- What a flush writes, and what a message of each level does.
use video_player_core.Base.{
  ℕ, zero, suc, ◌+◌, ◌-◌, ◌≤◌, ◌<◌, ◌≡◌, refl, sym, ap, ◌∙◌, inl, inr, Bool, true, false, Option,
  none, some, List, [], ◌∷◌, ◌++◌, ◌==◌, length, segment, splice, min, arith, append_assoc,
  length-append, Bool-cases, subst,
}
use video_player_core.Base.Segments.{
  length-segment, length-splice, segment-segment, segment-append, segment-splice_before,
  segment-nil,
}
use video_player_core.Log.Buffer.{
  Buffer, content, IsValid, return_buffer, write_at, get_buffer, grown,
}
use video_player_core.Log.Message.{Entry, pieces, line_end}
use video_player_core.Log.Line.{line_of, concat, put_line-Takes}
use video_player_core.Log.Backups.{Name}
use video_player_core.Log.Flush.{
  Logger, System, write_loop, open_file, rotate, flush_buffer, prints, fatal_ending, total_length,
  take_back, log,
}

-- Every `fwrite` takes at least a byte.
abbrev pub Healthy : (ℕ → ℕ) → Type 0
Healthy accepts = (k : ℕ) → 0 < accepts k

pub write_loop-all :
    (fuel : ℕ) (accepts : ℕ → ℕ) (k : ℕ) (bytes : List ℕ) (p size : ℕ) (file : List ℕ)
    → Healthy accepts
    → size ≤ fuel
    → 0 < size
    → write_loop fuel accepts k bytes p size file ≡ (0, file ++ segment bytes p (p + size))
unfolding write_loop
write_loop-all zero accepts k bytes p size file healthy enough pos = absurd (omega arith)
write_loop-all (suc fuel) accepts k bytes p size file healthy enough pos =
    let r = min (accepts k) size in
    let some_bytes : 0 < r = omega (arith, healthy k) in
    let at_most : r ≤ size = omega arith in
    let end : (p + r) + (size - r) ≡ p + size = omega arith in
    elim (Bool-cases (size - r == 0)) [
      | inl done ↦
          let all : p + r ≡ p + size = ground arith in
          ground (arith, healthy k, ap (segment bytes p) all)
      | inr left ↦
          let rest =
            write_loop-all fuel accepts (suc k) bytes (p + r) (size - r)
              (file ++ segment bytes p (p + r)) healthy (omega arith) (ground arith) in
          let joined =
            append_assoc file (segment bytes p (p + r)) (segment bytes (p + r) (p + size)) in
          let whole = segment-append bytes p (p + r) (p + size) (omega arith) (omega arith) in
          ground (arith, healthy k, rest, ap (segment bytes (p + r)) end, joined, whole)
    ]

-- An `fwrite` that takes only a part and then an error.
write_loop-part :
    (fuel : ℕ) (accepts : ℕ → ℕ) (bytes : List ℕ) (size n : ℕ) (file : List ℕ)
    → accepts 0 ≡ n
    → accepts 1 ≡ 0
    → n < size
    → 0 < n
    → write_loop (suc (suc fuel)) accepts 0 bytes 0 size file
      ≡ (size - n, file ++ segment bytes 0 n)
unfolding write_loop
write_loop-part fuel accepts bytes size n file first second part pos =
    let all : 0 + min (accepts 0) size ≡ n = omega arith in ground (arith, ap (segment bytes 0) all)

content_size : (b : Buffer) → IsValid b → length (content b) ≡ b.size
content_size b v = ground (arith, v.allocated, v.fits, length-segment b.bytes 0 b.size)

append_cancel :
    (xs ys us vs : List ℕ) → length xs ≡ length ys → xs ++ us ≡ ys ++ vs → (xs ≡ ys) × (us ≡ vs)
append_cancel [] [] us vs n e = (refl, e)
append_cancel [] (y ∷ ys) us vs n e = absurd (omega arith)
append_cancel (x ∷ xs) [] us vs n e = absurd (omega arith)
append_cancel (x ∷ xs) (y ∷ ys) us vs n e =
    let (rest, more) = append_cancel xs ys us vs (omega arith) (ground arith) in
    (ground (arith, rest), more)

module _ (parse : Name → Option (ℕ × ℕ)) where
  -- Everything that was collected goes to the file, behind what it held. The file stays open or, if it
  -- is large enough, is closed with all that for another name.
  abbrev pub Flushes : Logger → List ℕ → ℕ × Logger → Type 0
  Flushes l whole out =
      (content out.1.buffer ≡ [])
      × (length whole < l.max_size
          → (out.1.file ≡ some whole)
            × (out.1.named ≡ true)
            × (out.1.closed ≡ l.closed)
            × (out.1.folder ≡ l.folder))
      × (l.max_size ≤ length whole
          → (out.1.file ≡ none) × (out.1.named ≡ false) × (out.1.closed ≡ whole ∷ l.closed))

  pub flush_buffer-Flushes :
      (sys : System) (l : Logger) (file : List ℕ)
      → IsValid l.buffer
      → 0 < l.buffer.size
      → (open_file sys l).file ≡ some file
      → Healthy sys.accepts
      → Flushes l (file ++ content l.buffer) (flush_buffer parse sys l)
  unfolding flush_buffer open_file rotate
  flush_buffer-Flushes sys l file v pos open_at healthy =
      let bytes = splice l.buffer.bytes l.buffer.size (0 ∷ []) in
      let size = l.buffer.size in
      let whole = write_loop-all size sys.accepts 0 bytes 0 size file healthy (omega arith) pos in
      let same : segment bytes 0 (0 + size) ≡ content l.buffer =
        ap (segment bytes 0) (omega arith)
        ∙ segment-splice_before l.buffer.bytes 0 size size (0 ∷ []) (omega arith) in
      let result = whole ∙ ap (λ ys. (0, file ++ ys)) same in
      (
        ground (arith, result, segment-nil bytes 0 0 (omega arith)),
        λ small. (
          ground (arith, result),
          ground (arith, result),
          ground (arith, result),
          ground (arith, result),
        ),
        λ large. (ground (arith, result), ground (arith, result), ground (arith, result)),
      )

  open-kept :
      (sys : System) (l : Logger) (b : Buffer) (file : List ℕ)
      → (open_file sys l).file ≡ some file
      → (open_file sys (record l { buffer = b })).file ≡ some file
  unfolding open_file
  open-kept sys l b file e = ground arith

  length-line : (e : Entry) → 2 ≤ length (line_of e)
  length-line e =
      omega (
        arith,
        length-append (concat (pieces e)) (e.text ++ line_end),
        length-append e.text line_end,
      )

  length-concat : (xss : List (List ℕ)) → length (concat xss) ≡ total_length xss
  length-concat [] = refl
  length-concat (xs ∷ xss) = omega (arith, length-append xs (concat xss), length-concat xss)

  take_back-Takes :
      (junk : ℕ) (xs line : List ℕ) (b : Buffer)
      → IsValid b
      → content b ≡ xs ++ line
      → b.size ≡ length xs + length line
      → 2 ≤ length line
      → (b' : Buffer) × (take_back junk (length line) b ≡ some (line, b'))
        × (content b' ≡ xs)
        × IsValid b'
  unfolding take_back get_buffer grown write_at return_buffer
  take_back-Takes junk xs line b v has size pos =
      let n = length xs in
      let bytes = splice b.bytes b.size (0 ∷ []) in
      let parts =
        append_cancel (segment b.bytes 0 n) xs (segment b.bytes n b.size) line
          (omega (arith, length-segment b.bytes 0 n (ground (arith, v.allocated, v.fits))))
          (segment-append b.bytes 0 n b.size (omega arith) (omega arith) ∙ has) in
      let start : b.size - length line ≡ n = omega arith in
      let shown =
        ap (λ i. segment bytes i b.size) start
        ∙ segment-splice_before b.bytes n b.size b.size (0 ∷ []) (omega arith)
        ∙ parts.1 in
      let before = segment-splice_before b.bytes 0 n b.size (0 ∷ []) (omega arith) ∙ parts.0 in
      (
        record b { bytes = bytes; size = n },
        ground (arith, v.allocated, v.fits, shown, start),
        before,
        record {
          fits = omega arith;
          allocated = λ pos. length-splice b.bytes b.size (0 ∷ []) ∙ v.allocated pos;
        },
      )

  -- A message of at most 511 characters that is within the level and as severe as an error goes to
  -- the file at once, behind what the file held and all that was collected before it, if the file is
  -- there and every `fwrite` takes a byte at least; a file that is large enough then is closed with
  -- all that. Then the program exits, is interrupted, or goes on, by the level.
  pub urgent_lem :
      (junk : ℕ) (debug : Bool) (sys : System) (level : ℕ) (e : Entry) (l : Logger) (file : List ℕ)
      → IsValid l.buffer
      → length e.text ≤ 511
      → level ≤ l.log_level
      → level ≤ 3
      → (open_file sys l).file ≡ some file
      → Healthy sys.accepts
      → (out : ℕ × Logger) × (log parse junk debug sys level e l
          ≡ some (fatal_ending debug level, out.1))
        × Flushes l (file ++ content l.buffer ++ line_of e) out
  unfolding log
  urgent_lem junk debug sys level e l file v short shown severe open_at healthy =
      let (b, put, v', has, size) = put_line-Takes junk e l.buffer v short in
      let kept = record l { buffer = b } in
      (
        flush_buffer parse sys kept,
        ground arith,
        subst (λ whole. Flushes l whole (flush_buffer parse sys kept))
            (ap (λ ys. file ++ ys) has ∙ sym (append_assoc file (content l.buffer) (line_of e)))
            (flush_buffer-Flushes sys kept file v' (omega (arith, length-line e))
              (open-kept sys l b file open_at) healthy),
      )

  -- A message of at most 511 characters above the level is printed, and the buffer holds what it
  -- held.
  pub hidden_lem :
      (junk : ℕ) (debug : Bool) (sys : System) (level : ℕ) (e : Entry) (l : Logger)
      → IsValid l.buffer
      → length e.text ≤ 511
      → l.log_level < level
      → (b : Buffer) × (log parse junk debug sys level e l
          ≡ some (prints (line_of e), record l { buffer = b }))
        × (content b ≡ content l.buffer)
        × IsValid b
  unfolding log
  hidden_lem junk debug sys level e l v short above =
      let (b, put, v', has, size) = put_line-Takes junk e l.buffer v short in
      let pos = length-line e in
      let line_total : total_length (pieces e) + length e.text + 2 ≡ length (line_of e) = omega (
        arith,
        length-concat (pieces e),
        length-append (concat (pieces e)) (e.text ++ line_end),
        length-append e.text line_end,
      ) in
      let (b', back, kept, v'') =
        take_back-Takes junk (content l.buffer) (line_of e) b v' has
          (omega (arith, content_size l.buffer v)) pos in
      (b', ground (arith, put, line_total, back), kept, v'')

  -- A flush whose first `fwrite` takes `n` bytes and whose second fails keeps the first bytes of the
  -- buffer for the next flush, those that are in the file already, and drops the last ones.
  pub failed_flush_keeps_start :
      (sys : System) (l : Logger) (file : List ℕ) (n m : ℕ)
      → IsValid l.buffer
      → l.buffer.size ≡ suc (suc m)
      → l.named ≡ true
      → l.file ≡ some file
      → sys.accepts 0 ≡ n
      → sys.accepts 1 ≡ 0
      → 0 < n
      → n < l.buffer.size
      → content (flush_buffer parse sys l).1.buffer
        ≡ segment (content l.buffer) 0 (l.buffer.size - n)
  unfolding flush_buffer open_file rotate
  failed_flush_keeps_start sys l file n m v size named open_at first second pos part =
      let bytes = splice l.buffer.bytes l.buffer.size (0 ∷ []) in
      let result : write_loop l.buffer.size sys.accepts 0 bytes 0 l.buffer.size file
          ≡ (l.buffer.size - n, file ++ segment bytes 0 n) =
        ap (λ fuel. write_loop fuel sys.accepts 0 bytes 0 l.buffer.size file) size
        ∙ write_loop-part m sys.accepts bytes l.buffer.size n file first second part pos in
      let kept =
        segment-splice_before l.buffer.bytes 0 (l.buffer.size - n) l.buffer.size (0 ∷ [])
          (omega arith)
        ∙ sym (
            segment-segment l.buffer.bytes 0 l.buffer.size (l.buffer.size - n) (l.buffer.size - n)
              (omega arith) (omega arith)) in
      ground (arith, result, kept)
