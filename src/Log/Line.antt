-- ===== src/Log/Line.antt =====
-- What a message leaves in the buffer of the log.
use video_player_core.Base.{
  ℕ, ◌+◌, ◌-◌, ◌*◌, ◌≤◌, ◌<◌, ◌≡◌, refl, sym, ap, ◌∙◌, Option, none, some, List, [], ◌∷◌, ◌++◌,
  if◌then◌else◌, leb, length, segment, splice, arith, Option-cases, inl, inr, append-nil,
  length-append, append_assoc, false, take, length-take, take_whole, min, subst,
}
use video_player_core.Base.Segments.{
  length-splice, length-segment, segment-splice_self, segment-splice_before, segment-segment,
  segment_whole, segment_prefix,
}
use video_player_core.Log.Buffer.{
  Buffer, content, IsValid, return_buffer, write_at, grown, get_buffer, push, ◌>>=◌,
}
use video_player_core.Log.Content.{
  Takes, length-realloc, Extends, split, push-Takes, get_buffer-Extends,
}
use video_player_core.Log.Message.{
  Entry, pieces, line_end, vsnprintf, push_all, put_rest, put_text, put_line,
}

abbrev pub concat : List (List ℕ) → List ℕ
concat [] = []
concat (xs ∷ xss) = xs ++ concat xss

-- The line of a message.
abbrev pub line_of : Entry → List ℕ
line_of e = concat (pieces e) ++ (e.text ++ line_end)

-- What is written to the room that was made and then partly given back.
fill_part :
    (b : Buffer) (n m : ℕ) (src : List ℕ) (i : ℕ) (o : Buffer)
    → Extends b n (i, o)
    → length src ≤ n
    → m ≤ length src
    → m ≤ n
    → Takes b (segment src 0 m) (write_at i src o >>= λ b'. some (return_buffer (n - m) b'))
unfolding write_at return_buffer
fill_part b n m src i o x small part fits = elim (Option-cases (write_at i src o)) [
  | inl failed ↦ absurd (ground (arith, x.valid.allocated, x.at, x.size, x.valid.fits))
  | inr (b', e) ↦
      let room : i + length src ≤ length o.bytes =
        ground (arith, x.valid.allocated, x.valid.fits) in
      let part_of : segment (splice o.bytes i src) i (i + m) ≡ segment src 0 m =
        sym (
          segment-segment (splice o.bytes i src) i (i + length src) m (i + m) (omega arith)
            (omega arith))
        ∙ ap (λ ys. segment ys 0 m)
            (segment-splice_self o.bytes i (i + length src) src (omega arith) (omega arith)) in
      let length_of : length (segment src 0 m) ≡ m =
        omega (arith, length-segment src 0 m (omega arith)) in
      (
        record b' { size = b'.size - (n - m) },
        ap (λ r. r >>= λ b'. some (return_buffer (n - m) b')) e,
        record {
          fits = ground (arith, x.valid.fits, x.size);
          allocated = λ some_room. ground (arith, x.valid.allocated, length-splice o.bytes i src);
        },
        ground (
          arith,
          x.size,
          x.kept,
          x.at,
          part_of,
          split (splice o.bytes i src) i (i + m) (omega arith),
          segment-splice_before o.bytes 0 i i src (omega arith),
        ),
        ground (arith, x.size, length_of),
      )
]

above : (m n : ℕ) → n < m → leb m n ≡ false
above m n h = ground arith

module _ (junk : ℕ) where
  -- One after the other.
  Takes-bind :
      (b : Buffer) (xs ys : List ℕ) (m : Option Buffer) (f : Buffer → Option Buffer)
      → Takes b xs m
      → ((b' : Buffer) → IsValid b' → Takes b' ys (f b'))
      → Takes b (xs ++ ys) (m >>= f)
  Takes-bind b xs ys m f (b', e, v, has, size) next =
      let (b'', e', v', has', size') = next b' v in
      (
        b'',
        ap (λ r. r >>= f) e ∙ e',
        v',
        has' ∙ ap (λ zs. zs ++ ys) has ∙ append_assoc (content b) xs ys,
        omega (arith, length-append xs ys),
      )

  push_all-Takes :
      (xss : List (List ℕ)) (b : Buffer) → IsValid b → Takes b (concat xss) (push_all junk xss b)
  unfolding push_all
  push_all-Takes [] b v = (b, refl, v, sym (append-nil (content b)), omega arith)
  push_all-Takes (xs ∷ xss) b v =
      Takes-bind b xs (concat xss) (push junk xs b) (push_all junk xss) (push-Takes junk b xs v)
        (push_all-Takes xss)

  -- Any text that fits in 512 bytes: what `vsnprintf` left of it.
  fitting-Takes :
      (text : List ℕ) (b : Buffer)
      → IsValid b
      → length text ≤ 512
      → Takes b (segment (vsnprintf 511 text) 0 (length text)) (put_text junk text b)
  unfolding put_text
  fitting-Takes text b v fits =
      let out = get_buffer junk 512 b in
      let src = vsnprintf 511 text in
      let size : length src ≡ min 511 (length text) + 1 =
        omega (arith, length-append (take 511 text) (0 ∷ []), length-take 511 text) in
      let same : put_text junk text b
          ≡ (write_at out.0 src out.1 >>= λ b'. some (return_buffer (512 - length text) b')) =
        ground arith in
      subst (Takes b (segment src 0 (length text))) (sym same) (
        fill_part b 512 (length text) src out.0 out.1 (get_buffer-Extends junk b 512 v)
          (omega arith) (omega arith) fits)

  pub put_text-Takes :
      (text : List ℕ) (b : Buffer)
      → IsValid b
      → length text ≤ 511
      → Takes b text (put_text junk text b)
  put_text-Takes text b v short =
      let all : take 511 text ≡ text = take_whole 511 text short in
      let same : segment (vsnprintf 511 text) 0 (length text) ≡ text =
        ap (λ ys. segment (ys ++ 0 ∷ []) 0 (length text)) all
        ∙ segment_prefix text (0 ∷ []) (length text) (omega arith)
        ∙ segment_whole text (length text) refl in
      subst (λ ys. Takes b ys (put_text junk text b)) same (fitting-Takes text b v (omega arith))

  -- A message of at most 511 characters adds its line to the buffer, whatever was in it.
  pub put_line-Takes :
      (e : Entry) (b : Buffer)
      → IsValid b
      → length e.text ≤ 511
      → Takes b (line_of e) (put_line junk e b)
  unfolding put_line
  put_line-Takes e b v short =
      Takes-bind b (concat (pieces e)) (e.text ++ line_end) (push_all junk (pieces e) b)
        (λ b1. put_text junk e.text b1 >>= λ b2. push junk line_end b2)
        (push_all-Takes (pieces e) b v)
        (λ b1 v1.
          Takes-bind b1 e.text line_end (put_text junk e.text b1) (λ b2. push junk line_end b2)
            (put_text-Takes e.text b1 v1 short) (λ b2 v2. push-Takes junk b2 line_end v2))

  -- A message of 512 characters loses the last one to the NUL of `vsnprintf`.
  pub text_of_512 :
      (text : List ℕ) (b : Buffer)
      → IsValid b
      → length text ≡ 512
      → Takes b (take 511 text ++ 0 ∷ []) (put_text junk text b)
  text_of_512 text b v size =
      let same : segment (vsnprintf 511 text) 0 (length text) ≡ vsnprintf 511 text =
        segment_whole (vsnprintf 511 text) (length text)
          (omega (arith, length-append (take 511 text) (0 ∷ []), length-take 511 text)) in
      subst (λ ys. Takes b ys (put_text junk text b)) same (fitting-Takes text b v (omega arith))

  rest_faults :
      (text : List ℕ) (b : Buffer)
      → b.capacity ≡ b.size + 512
      → length b.bytes ≡ b.capacity + 4
      → 516 ≤ length text
      → length text ≤ 1020
      → put_rest junk text b ≡ none
  unfolding put_rest get_buffer grown write_at
  rest_faults text b full bytes long short =
      let size : length (vsnprintf (length text) text) ≡ length text + 1 =
        omega (
          arith,
          length-append (take (length text) text) (0 ∷ []),
          length-take (length text) text,
        ) in
      ground (
        arith,
        size,
        length-realloc junk (b.capacity + (length text - 512) * 2 - (b.capacity - b.size) + 4)
            b.bytes,
      )

  grows_for_text :
      (b : Buffer)
      → IsValid b
      → b.capacity < b.size + 512
      → ((get_buffer junk 512 b).1.size ≡ b.size + 512)
        × ((get_buffer junk 512 b).1.capacity ≡ b.size + 1024)
        × (length (get_buffer junk 512 b).1.bytes ≡ b.size + 1028)
  unfolding get_buffer grown
  grows_for_text b v full = (
    refl,
    ground arith,
    ground (arith, length-realloc junk (b.capacity + 512 * 2 - (b.capacity - b.size) + 4) b.bytes),
  )

  write_keeps :
      (i : ℕ) (src : List ℕ) (o b : Buffer)
      → write_at i src o ≡ some b
      → (b.size ≡ o.size) × (b.capacity ≡ o.capacity) × (length b.bytes ≡ length o.bytes)
  unfolding write_at
  write_keeps i src o b e =
      (ground arith, ground arith, ground (arith, length-splice o.bytes i src))

  -- A text of 516 to 1020 bytes is written past the end of the buffer, where the buffer had to grow
  -- for the text.
  pub long_text_faults :
      (text : List ℕ) (b : Buffer)
      → IsValid b
      → b.capacity < b.size + 512
      → 516 ≤ length text
      → length text ≤ 1020
      → put_text junk text b ≡ none
  unfolding put_text
  long_text_faults text b v full long short =
      let (size, capacity, bytes) = grows_for_text b v full in
      let out = get_buffer junk 512 b in
      elim (Option-cases (write_at out.0 (vsnprintf 511 text) out.1)) [
        | inl failed ↦
            ap
              (λ r. r >>= λ b2.
                if leb (length text) 512
                then some (return_buffer (512 - length text) b2)
                else put_rest junk text b2)
              failed
        | inr (b2, e) ↦
            let (size', capacity', bytes') = write_keeps out.0 (vsnprintf 511 text) out.1 b2 e in
            let faults = rest_faults text b2 (omega arith) (omega arith) long short in
            let too_long : leb (length text) 512 ≡ false = above (length text) 512 (omega arith) in
            ap
              (λ r. r >>= λ b2.
                if leb (length text) 512
                then some (return_buffer (512 - length text) b2)
                else put_rest junk text b2)
              e
            ∙ ap
                (λ t.
                  if t then some (return_buffer (512 - length text) b2) else put_rest junk text b2)
                too_long
            ∙ faults
      ]
