-- ===== src/Log/Thread.antt =====
-- src/utils/log.c, `writeThread`, and the folders that `createMultiLevelDir` makes before the file is
-- opened.
use video_player_core.Base.{
  ℕ, zero, suc, ◌+◌, Bool, true, false, ◌||◌, Option, none, some, List, [], ◌∷◌, ◌++◌,
  if◌then◌else◌, ltb, ◌==◌, length, ◌&&◌, not,
}
use video_player_core.Log.Backups.{Name}
use video_player_core.Log.Flush.{Logger, System, flush_buffer}

-- What the system does in the flush number `i` of the thread, and what the callers of `_log` do while
-- it sleeps after that.
pub record Rest : Type 0 where
  pub sys : ℕ → System
  pub others : ℕ → Logger → Logger

-- `30 * 4`
abbrev pub rounds : ℕ
rounds = 120

module _ (parse : Name → Option (ℕ × ℕ)) (r : Rest) where
  -- The inner loop, from the flush number `i`: what the last flush gave, and the logger.
  unfoldable pub flush_rounds : ℕ → ℕ → ℕ → Logger → ℕ × Logger
  flush_rounds zero i ret l = (ret, l)
  flush_rounds (suc k) i ret l =
      let (ret', l') = flush_buffer parse (r.sys i) l in flush_rounds k (suc i) ret' (r.others i l')

  -- `writeThread`, which runs while `writer` is true, for at most so many turns of the outer loop; `none` if it still runs then.
  unfoldable pub write_thread : ℕ → ℕ → Logger → Option Logger
  write_thread zero i l = none
  write_thread (suc fuel) i l =
      let (ret, l') = flush_rounds rounds i 0 l in
      let rest = write_thread fuel (i + rounds) l' in
      if ltb 0 ret then rest else some (record l' { writer = false })

abbrev pub is_slash : ℕ → Bool
is_slash c = c == 92 || c == 47

-- `exists made` tells which folders are there when those of `made` have been made, the last one
-- first, and `mkdir` which ones can be made.
module _ (exists : List (List ℕ) → List ℕ → Bool) (mkdir : List ℕ → Bool) where
  -- The loop over the path: `before` stands in `tmpDirPath`. It gives the folders that were made, and
  -- whether it came to the end.
  unfoldable pub make_folders : List (List ℕ) → (before path : List ℕ) → List (List ℕ) × Bool
  make_folders made before [] = (made, true)
  make_folders made before (c ∷ path) =
      let here = before ++ c ∷ [] in
      let on = make_folders made here path in
      let on' = make_folders (here ∷ made) here path in
      if is_slash c && not (exists made here)
      then (if mkdir here then on' else (made, false))
      else on

  -- `createMultiLevelDir`: `MAX_PATH_LEN` is 1024. (A path of 1024 characters leaves no room for the
  -- byte that ends it; it is taken here as if there were.)
  unfoldable pub create_multi_level_dir : List ℕ → List (List ℕ) × Bool
  create_multi_level_dir dir = if ltb 1024 (length dir) then ([], false) else make_folders [] [] dir
