-- ===== src/Log/Backups.antt =====
-- src/utils/log.c, `cleanDirectory` and `timeFileFormatToTimestampMs`: the oldest log file goes when
-- there are too many. The folder is the names that `readdir` lists; `parse` is what `sscanf` and
-- `mktime` make of a name: the seconds and the milliseconds, or `none`.
use video_player_core.Base.{
  ℕ, suc, ◌+◌, ◌*◌, ◌^◌, ◌-◌, Bool, true, false, ◌&&◌, ◌||◌, Option, none, some, List, [], ◌∷◌,
  if◌then◌else◌, ltb, ◌==◌,
}

abbrev pub Name : Type 0
Name = List ℕ

-- `strcmp(a, b) == 0`
unfoldable pub same_name : Name → Name → Bool
same_name [] [] = true
same_name [] (y ∷ ys) = false
same_name (x ∷ xs) [] = false
same_name (x ∷ xs) (y ∷ ys) = (x == y) && same_name xs ys

abbrev pub dot : ℕ
dot = 46

abbrev pub is_dots : Name → Bool
is_dots name = same_name name (dot ∷ []) || same_name name (dot ∷ dot ∷ [])

abbrev pub latest : ℕ
latest = 2 ^ 63 - 1

-- What the scan has found: the oldest file, its time and the number of log files.
pub record Scan : Type 0 where
  pub early : Name
  pub earliest : ℕ
  pub count : ℕ

abbrev pub no_files : Scan
no_files = record { early = []; earliest = latest; count = 0 }

-- `unlink` of a name in the folder
unfoldable pub unlink : Name → List Name → List Name
unlink name [] = []
unlink name (n ∷ names) =
    let rest = unlink name names in if same_name name n then names else n ∷ rest

module _ (parse : Name → Option (ℕ × ℕ)) where
  -- `timeFileFormatToTimestampMs`
  unfoldable pub time_of : Name → Option ℕ
  time_of name = elim (parse name) [ none ↦ none | some (s, ms) ↦ some (s * 1000 + ms) ]

  -- The time of a name that counts as a log file.
  unfoldable pub backup_time : Name → Option ℕ
  backup_time name = if is_dots name then none else time_of name

  unfoldable pub see : Name → Scan → Scan
  see name s = elim (backup_time name) [
    | none ↦ s
    | some t ↦
        let newer : Scan = record s { count = suc s.count } in
        if ltb t s.earliest
        then record { early = name; earliest = t; count = suc s.count }
        else newer
  ]

  unfoldable pub scan : List Name → Scan → Scan
  scan [] s = s
  scan (name ∷ names) s = scan names (see name s)

  -- `cleanDirectory`
  unfoldable pub clean_directory : ℕ → List Name → List Name
  clean_directory max_backups folder =
      let s = scan folder no_files in
      if ltb max_backups s.count then unlink s.early folder else folder
