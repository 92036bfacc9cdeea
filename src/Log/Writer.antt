-- ===== src/Log/Writer.antt =====
-- The thread that writes what was collected: when it ends, and what it may leave behind.
use video_player_core.Base.{
  true, ◌⊎◌, ◌++◌, append-nil, ℕ, zero, suc, ◌+◌, ◌≤◌, ◌<◌, ◌≡◌, refl, ap, ap₂, sym, ◌∙◌, Bool,
  false, Option, none, some, List, [], ◌∷◌, ltb, length, arith, subst, splice, segment, inl, inr,
  Bool-cases, if◌then◌else◌,
}
use video_player_core.Log.Buffer.{Buffer, content, IsValid}
use video_player_core.Log.Message.{Entry, put_line}
use video_player_core.Log.Line.{line_of, put_line-Takes}
use video_player_core.Log.Backups.{Name}
use video_player_core.Log.Flush.{Logger, System, open_file, rotate, flush_buffer, log}
use video_player_core.Log.Written.{Healthy, write_loop-all, flush_buffer-Flushes}
use video_player_core.Log.Thread.{Rest, rounds, flush_rounds, write_thread}
use video_player_core.Base.Segments.{segment-nil}

module _ (parse : Name → Option (ℕ × ℕ)) where
  -- The parts of the logger that a flush of an empty buffer leaves as they are.
  record Same (l l' : Logger) : Type 0 where
    buffer : l'.buffer ≡ l.buffer
    level : l'.log_level ≡ l.log_level
    writer : l'.writer ≡ l.writer
    closed : l'.closed ≡ l.closed
    file : l.named ≡ true → (l'.file ≡ l.file) × (l'.named ≡ true)

  flush_empty :
      (sys : System) (l : Logger)
      → l.buffer.size ≡ 0
      → ((flush_buffer parse sys l).0 ≡ 0) × Same l (flush_buffer parse sys l).1
  unfolding flush_buffer open_file
  flush_empty sys l empty = (
    ground arith,
    record {
      buffer = ground arith;
      level = ground arith;
      writer = ground arith;
      closed = ground arith;
      file = λ named. (ground arith, ground arith);
    },
  )

  -- What was collected stands behind what the file held, in the file, which is still open, or in one
  -- that was closed because it was large enough.
  abbrev pub Collected : Logger → List ℕ → Logger → Type 0
  Collected l whole l' =
      ((l'.file ≡ some whole) × (l'.closed ≡ l.closed))
      ⊎ ((l.max_size ≤ length whole) × (l'.closed ≡ whole ∷ l.closed))

  -- The same, with the name of the open file
  abbrev Keeps : Logger → List ℕ → Logger → Type 0
  Keeps l whole l' =
      ((l'.named ≡ true) × (l'.file ≡ some whole) × (l'.closed ≡ l.closed))
      ⊎ ((l.max_size ≤ length whole) × (l'.closed ≡ whole ∷ l.closed))

  Keeps-Collected :
      (l : Logger) (whole : List ℕ) (l' : Logger) → Keeps l whole l' → Collected l whole l'
  Keeps-Collected l whole l' (inl (named, file, closed)) = inl (file, closed)
  Keeps-Collected l whole l' (inr large) = inr large

  Keeps-Same :
      (l : Logger) (whole : List ℕ) (l1 l2 : Logger)
      → Keeps l whole l1
      → Same l1 l2
      → Keeps l whole l2
  Keeps-Same l whole l1 l2 (inl (named, file, closed)) same =
      let (file', named') = same.file named in inl (named', file' ∙ file, same.closed ∙ closed)
  Keeps-Same l whole l1 l2 (inr (large, closed)) same = inr (large, same.closed ∙ closed)

  open_named :
      (sys : System) (l : Logger) (file : List ℕ)
      → (open_file sys l).file ≡ some file
      → ((open_file sys l).named ≡ true) × ((open_file sys l).closed ≡ l.closed)
  unfolding open_file
  open_named sys l file at = (ground arith, ground arith)

  flush-empties :
      (sys : System) (l : Logger) (file : List ℕ)
      → (open_file sys l).file ≡ some file
      → Healthy sys.accepts
      → (flush_buffer parse sys l).1.buffer.size ≡ 0
  unfolding flush_buffer open_file rotate
  flush-empties sys l file open_at healthy = elim (Bool-cases (ltb 0 l.buffer.size)) [
    | inl some_bytes ↦
        let size = l.buffer.size in
        let bytes = splice l.buffer.bytes size (0 ∷ []) in
        let whole =
          write_loop-all size sys.accepts 0 bytes 0 size file healthy (omega arith)
            (ground arith) in
        ground (arith, whole)
    | inr empty ↦ ground arith
  ]

  flush-nothing :
      (sys : System) (l : Logger)
      → l.buffer.size ≡ 0
      → (flush_buffer parse sys l).1 ≡ open_file sys l
  unfolding flush_buffer open_file
  flush-nothing sys l empty = ground arith

  -- A flush that can open the file and whose every `fwrite` takes something empties the buffer into
  -- the file.
  flush_drains :
      (sys : System) (l : Logger) (file : List ℕ)
      → IsValid l.buffer
      → (open_file sys l).file ≡ some file
      → Healthy sys.accepts
      → ((flush_buffer parse sys l).1.buffer.size ≡ 0)
        × Keeps l (file ++ content l.buffer) (flush_buffer parse sys l).1
  flush_drains sys l file v open_at healthy = (flush-empties sys l file open_at healthy, kept)
    where
      kept : Keeps l (file ++ content l.buffer) (flush_buffer parse sys l).1
      kept = elim (Bool-cases (ltb 0 l.buffer.size)) [
        | inl some_bytes ↦
            let (emptied, small, large) =
              flush_buffer-Flushes parse sys l file v (ground arith) open_at healthy in
            elim (Bool-cases (ltb (length (file ++ content l.buffer)) l.max_size)) [
              | inl fits ↦
                  let (at, named, closed, folder) = small (ground arith) in inl (named, at, closed)
              | inr too_large ↦
                  let (at, named, closed) = large (ground arith) in inr (ground arith, closed)
            ]
        | inr empty ↦
            let none_left : l.buffer.size ≡ 0 = ground arith in
            let same = flush-nothing sys l none_left in
            let (named, closed) = open_named sys l file open_at in
            let all : file ++ content l.buffer ≡ file =
              ap (λ xs. file ++ xs)
                (ap (segment l.buffer.bytes 0) none_left
                  ∙ segment-nil l.buffer.bytes 0 0 (omega arith))
              ∙ append-nil file in
            inl (
              ap (λ (k : Logger). k.named) same ∙ named,
              ap (λ (k : Logger). k.file) same ∙ open_at ∙ ap some (sym all),
              ap (λ (k : Logger). k.closed) same ∙ closed,
            )
      ]

  module _ (r : Rest) where
    -- The last round of several.
    last_round : ℕ → ℕ × Logger → ℕ × Logger
    last_round i (ret, l) = let (ret', l') = flush_buffer parse (r.sys i) l in (ret', r.others i l')

    flush_rounds-last :
        (k i ret : ℕ) (l : Logger)
        → flush_rounds parse r (suc k) i ret l ≡ last_round (i + k) (flush_rounds parse r k i ret l)
    unfolding flush_rounds last_round
    flush_rounds-last zero i ret l = ap (λ j. last_round j (ret, l)) (omega arith)
    flush_rounds-last (suc k) i ret l =
        let (ret', l') = flush_buffer parse (r.sys i) l in
        flush_rounds-last k (suc i) ret' (r.others i l')
        ∙ ap (λ j. last_round j (flush_rounds parse r k (suc i) ret' (r.others i l'))) (omega arith)

    -- Nobody logs in the rounds from `i` on, `k` of them.
    abbrev pub Quiet : ℕ → ℕ → Type 0
    Quiet i k = (j : ℕ) (l : Logger) → i ≤ j → j < i + k → r.others j l ≡ l

    -- Rounds in which the buffer is empty and nobody logs.
    idle_rounds :
        (k i : ℕ) (l : Logger)
        → Quiet i k
        → l.buffer.size ≡ 0
        → ((flush_rounds parse r k i 0 l).0 ≡ 0) × Same l (flush_rounds parse r k i 0 l).1
    unfolding flush_rounds
    idle_rounds zero i l quiet empty = (
      refl,
      record {
        buffer = refl;
        level = refl;
        writer = refl;
        closed = refl;
        file = λ named. (refl, named);
      },
    )
    idle_rounds (suc k) i l quiet empty =
        let (ret, same) = flush_empty (r.sys i) l empty in
        let l1 = (flush_buffer parse (r.sys i) l).1 in
        let still = quiet i l1 (omega arith) (omega arith) in
        let (ret', same') =
          idle_rounds k (suc i) l1 (λ j l' le lt. quiet j l' (omega arith) (omega arith))
            (ground (arith, same.buffer)) in
        let step : flush_rounds parse r k (suc i) 0 l1 ≡ flush_rounds parse r (suc k) i 0 l =
          ap₂ (flush_rounds parse r k (suc i)) (sym ret) (sym still) in
        subst (λ out. (out.0 ≡ 0) × Same l out.1) step
          (
            ret',
            record {
              buffer = same'.buffer ∙ same.buffer;
              level = same'.level ∙ same.level;
              writer = same'.writer ∙ same.writer;
              closed = same'.closed ∙ same.closed;
              file = λ named.
                  let (at, on) = same.file named in
                  let (at', on') = same'.file on in (at' ∙ at, on');
            },
          )

    -- One flush is enough for what was collected.
    draining_rounds :
        (k i : ℕ) (l : Logger) (file : List ℕ)
        → Quiet i (suc (suc k))
        → IsValid l.buffer
        → (open_file (r.sys i) l).file ≡ some file
        → Healthy (r.sys i).accepts
        → ((flush_rounds parse r (suc (suc k)) i 0 l).0 ≡ 0)
          × ((flush_rounds parse r (suc (suc k)) i 0 l).1.buffer.size ≡ 0)
          × Keeps l (file ++ content l.buffer) (flush_rounds parse r (suc (suc k)) i 0 l).1
    unfolding flush_rounds
    draining_rounds k i l file quiet v open_at healthy =
        let l1 = (flush_buffer parse (r.sys i) l).1 in
        let still = quiet i l1 (omega arith) (omega arith) in
        let (drained, keeps) = flush_drains (r.sys i) l file v open_at healthy in
        let (ret, same) =
          idle_rounds (suc k) (suc i) l1 (λ j l' le lt. quiet j l' (omega arith) (omega arith))
            drained in
        let step : flush_rounds parse r (suc k) (suc i) 0 l1
            ≡ flush_rounds parse r (suc (suc k)) i 0 l =
          ap (flush_rounds parse r (suc k) (suc i) 0) (sym still) in
        let whole = file ++ content l.buffer in
        subst (λ out. (out.0 ≡ 0) × (out.1.buffer.size ≡ 0) × Keeps l whole out.1) step
          (
            ret,
            ap (λ b. b.size) same.buffer ∙ drained,
            Keeps-Same l whole l1 (flush_rounds parse r (suc k) (suc i) 0 l1).1 keeps same,
          )

    last_turn :
        (fuel i : ℕ) (l : Logger)
        → (flush_rounds parse r rounds i 0 l).0 ≡ 0
        → write_thread parse r (suc fuel) i l
          ≡ some (record ((flush_rounds parse r rounds i 0 l).1) { writer = false })
    unfolding write_thread
    last_turn fuel i l idle =
        ap
          (λ n.
            if ltb 0 n
            then write_thread parse r fuel (i + rounds) (flush_rounds parse r rounds i 0 l).1
            else some (record ((flush_rounds parse r rounds i 0 l).1) { writer = false }))
          idle

    -- The writer thread ends after one turn of its outer loop if nobody logs meanwhile, the file can
    -- be opened and every `fwrite` takes something. Then the buffer is empty, and all that was
    -- collected stands behind what the file held, in the open file or in one that was large enough to
    -- be closed.
    pub write_thread_ends :
        (fuel i : ℕ) (l : Logger) (file : List ℕ)
        → Quiet i rounds
        → IsValid l.buffer
        → (open_file (r.sys i) l).file ≡ some file
        → Healthy (r.sys i).accepts
        → (l' : Logger) × (write_thread parse r (suc fuel) i l ≡ some l')
          × (l'.buffer.size ≡ 0)
          × Collected l (file ++ content l.buffer) l'
          × (l'.writer ≡ false)
    write_thread_ends fuel i l file quiet v open_at healthy =
        let (idle, drained, keeps) = draining_rounds 118 i l file quiet v open_at healthy in
        let last = (flush_rounds parse r rounds i 0 l).1 in
        (
          record last { writer = false },
          last_turn fuel i l idle,
          drained,
          Keeps-Collected l (file ++ content l.buffer) last keeps,
          refl,
        )

    -- The logger after a message, or as it was if the message faults.
    abbrev pub after_log : ℕ → Bool → System → ℕ → Entry → Logger → Logger
    after_log junk debug sys level e l = elim (log parse junk debug sys level e l) [
      | none ↦ l
      | some (ending, l') ↦ l'
    ]

    logged :
        (junk level : ℕ) (debug : Bool) (sys : System) (e : Entry) (l : Logger)
        → IsValid l.buffer
        → l.buffer.size ≡ 0
        → 3 < level
        → level ≤ l.log_level
        → length e.text ≤ 511
        → content (after_log junk debug sys level e l).buffer ≡ line_of e
    unfolding log
    logged junk level debug sys e l v empty low shown short =
        let (b, put, valid, holds, size) = put_line-Takes junk e l.buffer v short in
        holds_line b put (ground (arith, holds, segment-nil l.buffer.bytes 0 l.buffer.size))
      where
        holds_line :
            (b : Buffer)
            → put_line junk e l.buffer ≡ some b
            → content b ≡ line_of e
            → content (after_log junk debug sys level e l).buffer ≡ line_of e
        holds_line b put line = ground arith

    -- A message for the writer thread that comes in the last sleep of a turn whose flushes found
    -- nothing stays in the buffer, and no thread is left to write it.
    pub stranded :
        (junk fuel i level : ℕ) (debug : Bool) (sys : System) (e : Entry) (l : Logger)
        → Quiet i 119
        → ((l' : Logger) → r.others (i + 119) l' ≡ after_log junk debug sys level e l')
        → IsValid l.buffer
        → l.buffer.size ≡ 0
        → 3 < level
        → level ≤ l.log_level
        → length e.text ≤ 511
        → (l' : Logger) × (write_thread parse r (suc fuel) i l ≡ some l')
          × (content l'.buffer ≡ line_of e)
          × (l'.writer ≡ false)
    unfolding last_round
    stranded junk fuel i level debug sys e l quiet logs v empty low shown short =
        let (idle, same) = idle_rounds 119 i l quiet empty in
        let l1 = (flush_rounds parse r 119 i 0 l).1 in
        let (idle', same') =
          flush_empty (r.sys (i + 119)) l1 (ap (λ b. b.size) same.buffer ∙ empty) in
        let l2 = (flush_buffer parse (r.sys (i + 119)) l1).1 in
        let buffers : l2.buffer ≡ l.buffer = same'.buffer ∙ same.buffer in
        let levels : l2.log_level ≡ l.log_level = same'.level ∙ same.level in
        let turn : flush_rounds parse r rounds i 0 l ≡ (0, after_log junk debug sys level e l2) =
          flush_rounds-last 119 i 0 l ∙ ap₂ (λ n l'. (n, l')) idle' (logs l2) in
        let line =
          logged junk level debug sys e l2 (subst IsValid (sym buffers) v)
            (ap (λ b. b.size) buffers ∙ empty) low (omega arith) short in
        (
          record (after_log junk debug sys level e l2) { writer = false },
          last_turn fuel i l (ap (λ out. out.0) turn)
              ∙ ap (λ out. some (record out.1 { writer = false })) turn,
          line,
          refl,
        )
