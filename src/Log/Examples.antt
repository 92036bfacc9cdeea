-- ===== src/Log/Examples.antt =====
-- The log at concrete messages.
use video_player_core.Base.{
  ℕ, ◌-◌, ◌≡◌, refl, true, false, Option, none, some, List, [], ◌∷◌, ◌++◌, arith, replicate,
  segment, length-replicate, Bool, ◌||◌, length, ◌<◌, if◌then◌else◌, ◌==◌,
}
use video_player_core.Log.Buffer.{Buffer, content, IsValid}
use video_player_core.Log.Message.{Entry, put_text}
use video_player_core.Log.Line.{line_of, long_text_faults}
use video_player_core.Log.Backups.{Name, clean_directory, backup_time, time_of, same_name}
use video_player_core.Log.Oldest.{Dated, Cleans, clean_directory-Cleans}
use video_player_core.Log.Flush.{Logger, System, open_file, log, flush_buffer, fatal_ending}
use video_player_core.Log.Written.{Flushes, urgent_lem, failed_flush_keeps_start}
use video_player_core.Base.Int.{ℤ, pos}
use video_player_core.Log.Stamp.{
  Tm, backup_name, name_time, time_file_format, stamp, padded, digits,
}
use video_player_core.Log.Named.{name_time-backup_name}
use video_player_core.Log.Thread.{Rest, create_multi_level_dir, make_folders, write_thread}
use video_player_core.Log.Folders.{create_multi_level_dir_lem}
use video_player_core.Log.Writer.{Collected, after_log, write_thread_ends, stranded}

abbrev no_buffer : Buffer
no_buffer = record { bytes = []; size = 0; capacity = 0 }

no_buffer-IsValid : IsValid no_buffer
no_buffer-IsValid = record { fits = omega arith; allocated = λ pos. absurd (omega arith) }

abbrev hello : Entry
hello = record {
  time = 49 ∷ 50 ∷ [];
  label = 69 ∷ [];
  file = 97 ∷ 46 ∷ 99 ∷ [];
  line = 55 ∷ [];
  thread = 49 ∷ [];
  func_name = 102 ∷ [];
  text = 104 ∷ 105 ∷ [];
}

abbrev long_text : List ℕ
long_text = replicate 600 120

long_text_example : put_text 0 long_text no_buffer ≡ none
long_text_example =
    long_text_faults 0 long_text no_buffer no_buffer-IsValid (omega arith)
      (omega (arith, length-replicate {A = ℕ} 600 120))
      (omega (arith, length-replicate {A = ℕ} 600 120))

abbrev parse : Name → Option (ℕ × ℕ)
parse [] = none
parse (x ∷ xs) = some (x, 0)

abbrev logger : Logger
logger = record {
  buffer = no_buffer;
  log_level = 4;
  max_size = 100;
  max_backups = 1;
  named = false;
  file = none;
  closed = [];
  folder = [];
  writer = false;
}

abbrev system : System
system = record {
  opened = some (1 ∷ 2 ∷ []);
  accepts = λ k. 7;
  renames = true;
  starts = true;
  new_name = 9 ∷ [];
}

urgent_example :
    (out : ℕ × Logger) × (log parse 0 false system 3 hello logger
      ≡ some (fatal_ending false 3, out.1))
    × Flushes parse logger ((1 ∷ 2 ∷ []) ++ content no_buffer ++ line_of hello) out
unfolding open_file
urgent_example =
    urgent_lem parse 0 false system 3 hello logger (1 ∷ 2 ∷ []) no_buffer-IsValid (omega arith)
      (omega arith) (omega arith) refl (λ k. omega arith)

abbrev small : Buffer
small = record { bytes = 1 ∷ 2 ∷ 3 ∷ 0 ∷ 0 ∷ 0 ∷ 0 ∷ []; size = 3; capacity = 3 }

abbrev opened : Logger
opened = record logger { buffer = small; named = true; file = some [] }

abbrev failing : System
failing = record system { accepts = λ k. 1 - k }

failed_flush_example :
    content (flush_buffer parse failing opened).1.buffer ≡ segment (content small) 0 2
failed_flush_example =
    failed_flush_keeps_start parse failing opened [] 1 1
      (record { fits = omega arith; allocated = λ pos. refl }) refl refl refl refl refl
      (omega arith) (omega arith)

abbrev folder : List Name
folder = (5 ∷ []) ∷ (46 ∷ []) ∷ (3 ∷ []) ∷ (8 ∷ []) ∷ []

folder-Dated : Dated parse folder
unfolding backup_time time_of same_name
folder-Dated =
    (λ t e. ground arith, (λ t e. ground arith, (λ t e. ground arith, (λ t e. ground arith, tt))))

clean_directory_example : Cleans parse 2 folder (clean_directory parse 2 folder)
clean_directory_example = clean_directory-Cleans parse 2 folder folder-Dated

-- 13 June 2026, 09:05:07.042
abbrev a_time : Tm
a_time = record {
  tm_year = pos 126;
  tm_mon = pos 5;
  tm_mday = pos 13;
  tm_hour = pos 9;
  tm_min = pos 5;
  tm_sec = pos 7;
}

-- A clock that only knows the seconds of a minute.
abbrev seconds_of : Tm → ℤ
seconds_of tm = tm.tm_sec

-- "2026-06-13T09_05_07.042.txt"
backup_name-a_time :
    backup_name a_time (pos 42)
    ≡ 50 ∷ 48 ∷ 50 ∷ 54 ∷ 45 ∷ 48 ∷ 54 ∷ 45 ∷ 49 ∷ 51 ∷ 84 ∷ 48 ∷ 57 ∷ 95 ∷ 48 ∷ 53 ∷ 95 ∷ 48 ∷ 55
      ∷ 46 ∷ 48 ∷ 52 ∷ 50 ∷ 46 ∷ 116 ∷ 120 ∷ 116 ∷ []
unfolding backup_name time_file_format stamp padded digits
backup_name-a_time = refl

name_time_example : name_time seconds_of (backup_name a_time (pos 42)) ≡ pos 7042
name_time_example =
    name_time-backup_name seconds_of a_time (pos 42) (omega arith) (omega arith) (omega arith)
      (omega arith) (omega arith) (omega arith) (omega arith)

-- A folder is there once it was made.
abbrev made_before : List Name → Name → Bool
made_before [] p = false
made_before (q ∷ made) p = same_name q p || made_before made p

same_name_refl : (p : Name) → same_name p p ≡ true
unfolding same_name
same_name_refl [] = refl
same_name_refl (x ∷ xs) = ground (arith, same_name_refl xs)

-- "./log/a.txt"
abbrev log_path : List ℕ
log_path = 46 ∷ 47 ∷ 108 ∷ 111 ∷ 103 ∷ 47 ∷ 97 ∷ []

folders_made :
    create_multi_level_dir made_before (λ p. true) log_path
    ≡ ((46 ∷ 47 ∷ 108 ∷ 111 ∷ 103 ∷ 47 ∷ []) ∷ (46 ∷ 47 ∷ []) ∷ [], true)
unfolding create_multi_level_dir make_folders same_name
folders_made = refl

folders_example :
    let (made, ok) = create_multi_level_dir made_before (λ p. true) log_path in
    (ok ≡ true → made_before made (46 ∷ 47 ∷ 108 ∷ 111 ∷ 103 ∷ 47 ∷ []) ≡ true)
    × (1024 < length log_path → (ok ≡ false) × (made ≡ []))
folders_example =
    create_multi_level_dir_lem made_before (λ p. true) (λ made p q there. ground arith)
      (λ made p. ground (arith, same_name_refl p)) (46 ∷ 47 ∷ 108 ∷ 111 ∷ 103 ∷ []) 47 (97 ∷ [])
      refl

-- Nobody else logs.
abbrev nobody : Rest
nobody = record { sys = λ i. system; others = λ i l. l }

-- Only `hello` is logged, in the last sleep.
abbrev one_message : Rest
one_message = record {
  sys = λ i. system;
  others = λ i. if i == 119 then after_log parse nobody 0 false system 4 hello else λ l. l;
}

abbrev collected : Logger
collected = record logger { buffer = record { bytes = replicate 14 104; size = 5; capacity = 10 } }

open_system : (open_file system collected).file ≡ some (1 ∷ 2 ∷ [])
unfolding open_file
open_system = refl

write_thread_example :
    (l' : Logger) × (write_thread parse nobody 1 0 collected ≡ some l')
    × (l'.buffer.size ≡ 0)
    × Collected parse collected ((1 ∷ 2 ∷ []) ++ content collected.buffer) l'
    × (l'.writer ≡ false)
write_thread_example =
    write_thread_ends parse nobody 0 0 collected (1 ∷ 2 ∷ []) (λ j l le lt. refl)
      (record { fits = omega arith; allocated = λ pos. refl }) open_system (λ k. omega arith)

abbrev with_writer : Logger
with_writer = record logger { writer = true }

stranded_example :
    (l' : Logger) × (write_thread parse one_message 1 0 with_writer ≡ some l')
    × (content l'.buffer ≡ line_of hello)
    × (l'.writer ≡ false)
stranded_example =
    stranded parse one_message 0 0 0 4 false system hello with_writer (λ j l le lt. ground arith)
      (λ l. refl) no_buffer-IsValid refl (omega arith) (omega arith) (omega arith)
