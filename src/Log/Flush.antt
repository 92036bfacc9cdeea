-- ===== src/Log/Flush.antt =====
-- src/utils/log.c, `flushBuffer`, the end of `_log` and `LOG_CONFIG`: the logger's state, what goes to
-- the file, and what a message of each level does.
use video_player_core.Base.{
  ℕ, zero, suc, ◌+◌, ◌-◌, Bool, true, false, ◌&&◌, ◌||◌, Option, none, some, List, [], ◌∷◌, ◌++◌,
  if◌then◌else◌, ltb, leb, ◌==◌, length, segment, splice, min,
}
use video_player_core.Log.Buffer.{Buffer, return_buffer, write_at, get_buffer, ◌>>=◌}
use video_player_core.Log.Message.{Entry, pieces, put_line}
use video_player_core.Log.Backups.{Name, clean_directory, same_name}

-- `named` is `_fileName[0] != 0`; `file` holds what the open file holds, and `closed` what the files
-- held that were closed since the start, the last one first.
pub record Logger : Type 0 where
  pub buffer : Buffer
  pub log_level : ℕ
  pub max_size : ℕ
  pub max_backups : ℕ
  pub named : Bool
  pub file : Option (List ℕ)
  pub closed : List (List ℕ)
  pub folder : List Name
  pub writer : Bool

-- What the system does during a flush: the file that `fopen` gives, how many bytes each `fwrite`
-- takes at most (none on an error), whether `rename` and
-- `thread_create` succeed, and the name that the file gets.
pub record System : Type 0 where
  pub opened : Option (List ℕ)
  pub accepts : ℕ → ℕ
  pub renames : Bool
  pub starts : Bool
  pub new_name : Name

-- The loop of `fwrite`: `k` calls have been made and `p` bytes written. Each round writes a byte at
-- least or ends, so as many rounds as bytes are enough. It gives `_bufferSize` and the file.
unfoldable pub write_loop : ℕ → (ℕ → ℕ) → ℕ → List ℕ → ℕ → ℕ → List ℕ → ℕ × List ℕ
write_loop zero accepts k bytes p size file = (size, file)
write_loop (suc fuel) accepts k bytes p size file =
    let ret = min (accepts k) size in
    let rest =
      write_loop fuel accepts (suc k) bytes (p + ret) (size - ret)
        (file ++ segment bytes p (p + ret)) in
    if ret == 0
    then (size, file)
    else (if size - ret == 0 then (0, file ++ segment bytes p (p + ret)) else rest)

unfoldable pub open_file : System → Logger → Logger
open_file sys l =
    let open_now : Option (List ℕ) = elim l.file [ none ↦ sys.opened | some file ↦ some file ] in
    if l.named then l else record l { named = true; file = open_now }

-- How `_log` ends.
pub data Ending : Type 0 where
  returns exits interrupts : Ending
  prints : List ℕ → Ending

-- `debug` is `_DEBUG`.
unfoldable pub fatal_ending : Bool → ℕ → Ending
fatal_ending debug level =
    if level == 0
    then exits
    else (if level == 1 || (level == 2 && debug) then interrupts else returns)

abbrev pub total_length : List (List ℕ) → ℕ
total_length [] = 0
total_length (xs ∷ xss) = length xs + total_length xss

module _ (junk : ℕ) where
  -- A message above the level is printed and taken back.
  unfoldable pub take_back : ℕ → Buffer → Option (List ℕ × Buffer)
  take_back total b =
      let (end, b') = get_buffer junk 0 b in
      (write_at end (0 ∷ []) b' >>= λ b''.
      some (segment b''.bytes (end - total) end, return_buffer total b''))

module _ (parse : Name → Option (ℕ × ℕ)) where
  -- A file that is large enough is closed and renamed.
  unfoldable pub rotate : System → List ℕ → Logger → Logger
  rotate sys file l =
      let cleaned = clean_directory parse l.max_backups l.folder in
      if leb l.max_size (length file)
      then record l {
        folder = if sys.renames then sys.new_name ∷ cleaned else cleaned;
        named = false;
        file = none;
        closed = file ∷ l.closed;
      }
      else record l { file = some file }

  -- `flushBuffer`: its result and the logger
  unfoldable pub flush_buffer : System → Logger → ℕ × Logger
  flush_buffer sys l =
      let opened = open_file sys l in
      let size = opened.buffer.size in
      let bytes = splice opened.buffer.bytes size (0 ∷ []) in
      let written : List ℕ → ℕ × Logger = λ file.
        let (left, file') = write_loop size sys.accepts 0 bytes 0 size file in
        (
          size,
          rotate sys file'
              (record opened { buffer = record opened.buffer { bytes = bytes; size = left } }),
        ) in
      if ltb 0 size
      then elim opened.file [ none ↦ (size, opened) | some file ↦ written file ]
      else (0, opened)

  module _ (junk : ℕ) where
    -- `_log`
    unfoldable pub log : Bool → System → ℕ → Entry → Logger → Option (Ending × Logger)
    log debug sys level e l = put_line junk e l.buffer >>= λ b.
        let kept = record l { buffer = b } in
        let total = total_length (pieces e) + length e.text + 2 in
        if leb level l.log_level
        then (if leb level 3
            then some (fatal_ending debug level, (flush_buffer sys kept).1)
            else some (returns, record kept { writer = l.writer || sys.starts }))
        else (take_back junk total b >>= λ r. some (prints r.0, record l { buffer = r.1 }))

-- "fatal", "panic", "dpanic", "error", "warn", "info" and "debug"
abbrev pub level_names : List (List ℕ)
level_names =
    (102 ∷ 97 ∷ 116 ∷ 97 ∷ 108 ∷ [])
    ∷ (112 ∷ 97 ∷ 110 ∷ 105 ∷ 99 ∷ [])
    ∷ (100 ∷ 112 ∷ 97 ∷ 110 ∷ 105 ∷ 99 ∷ [])
    ∷ (101 ∷ 114 ∷ 114 ∷ 111 ∷ 114 ∷ [])
    ∷ (119 ∷ 97 ∷ 114 ∷ 110 ∷ [])
    ∷ (105 ∷ 110 ∷ 102 ∷ 111 ∷ [])
    ∷ (100 ∷ 101 ∷ 98 ∷ 117 ∷ 103 ∷ [])
    ∷ []

-- The number of the level of that name, if there is one.
unfoldable pub level_of : List (List ℕ) → ℕ → List ℕ → ℕ → ℕ
level_of [] i name old = old
level_of (known ∷ names) i name old =
    let rest = level_of names (suc i) name old in if same_name name known then i else rest

-- `LOG_CONFIG`, but for the copy of the folder's name and the creation of the mutex
unfoldable pub log_config : ℕ → ℕ → List ℕ → Logger → Logger
log_config max_size max_backups name l = record l {
  log_level = level_of level_names 0 name l.log_level;
  max_size = max_size;
  max_backups = max_backups;
}
