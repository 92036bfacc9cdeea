-- ===== src/Log/Named.antt =====
-- The time that a full file gets as its name, as `cleanDirectory` reads it.
use video_player_core.Base.{
  ℕ, ◌≤◌, ◌≡◌, refl, ap, ap₂, ◌∙◌, [], ◌∷◌, ◌++◌, if◌then◌else◌, length, length-append, take,
  take_whole, arith,
}
use video_player_core.Base.Int.{ℤ, pos, negsuc, ◌+ℤ◌, ◌-ℤ◌}
use video_player_core.Log.Stamp.{
  Tm, padded, stamp, time_file_format, backup_name, read_digits, scan_stamp, name_time, thousand,
  is_failed, failed, scanned_time,
}
use video_player_core.Log.RoundTrip.{IsShort, length-padded, scan_stamp-stamp}

length-stamp :
    (tm : Tm) (ms : ℤ)
    → IsShort (tm.tm_year +ℤ pos 1900)
    → IsShort (tm.tm_mon +ℤ pos 1)
    → IsShort tm.tm_mday
    → IsShort tm.tm_hour
    → IsShort tm.tm_min
    → IsShort tm.tm_sec
    → IsShort ms
    → length (stamp 95 tm ms) ≤ 83
unfolding stamp
length-stamp tm ms year month day hour minute second milli =
    let from_milli = padded 3 ms in
    let from_second = padded 2 tm.tm_sec ++ (46 ∷ from_milli) in
    let from_minute = padded 2 tm.tm_min ++ (95 ∷ from_second) in
    let from_hour = padded 2 tm.tm_hour ++ (95 ∷ from_minute) in
    let from_day = padded 2 tm.tm_mday ++ (84 ∷ from_hour) in
    let from_month = padded 2 (tm.tm_mon +ℤ pos 1) ++ (45 ∷ from_day) in
    omega (
      arith,
      length-append (padded 4 (tm.tm_year +ℤ pos 1900)) (45 ∷ from_month),
      length-append (padded 2 (tm.tm_mon +ℤ pos 1)) (45 ∷ from_day),
      length-append (padded 2 tm.tm_mday) (84 ∷ from_hour),
      length-append (padded 2 tm.tm_hour) (95 ∷ from_minute),
      length-append (padded 2 tm.tm_min) (95 ∷ from_second),
      length-append (padded 2 tm.tm_sec) (46 ∷ from_milli),
      length-padded 4 (tm.tm_year +ℤ pos 1900) (omega arith) year,
      length-padded 2 (tm.tm_mon +ℤ pos 1) (omega arith) month,
      length-padded 2 tm.tm_mday (omega arith) day,
      length-padded 2 tm.tm_hour (omega arith) hour,
      length-padded 2 tm.tm_min (omega arith) minute,
      length-padded 2 tm.tm_sec (omega arith) second,
      length-padded 3 ms (omega arith) milli,
    )

add-sub : (a : ℤ) (n : ℕ) → (a +ℤ pos n) -ℤ pos n ≡ a
add-sub (pos a) n = ground arith
add-sub (negsuc a) n = ground arith

-- `.txt` stops a number.
suffix_stops : (n : ℕ) → read_digits (46 ∷ 116 ∷ 120 ∷ 116 ∷ []) n ≡ (n, 46 ∷ 116 ∷ 120 ∷ 116 ∷ [])
unfolding read_digits
suffix_stops n = refl

-- What the folder's scan reads from the name of a file that was renamed when it was full is the
-- time of the name, to the millisecond, for every time whose fields have at most ten digits and
-- which `mktime` can express; so such a file counts as a backup.
pub name_time-backup_name :
    (mktime : Tm → ℤ) (tm : Tm) (ms : ℤ)
    → IsShort (tm.tm_year +ℤ pos 1900)
    → IsShort (tm.tm_mon +ℤ pos 1)
    → IsShort tm.tm_mday
    → IsShort tm.tm_hour
    → IsShort tm.tm_min
    → IsShort tm.tm_sec
    → IsShort ms
    → name_time mktime (backup_name tm ms)
      ≡ (if is_failed (mktime tm) then failed else thousand (mktime tm) +ℤ ms)
unfolding name_time backup_name time_file_format
name_time-backup_name mktime tm ms year month day hour minute second milli =
    let size = length-stamp tm ms year month day hour minute second milli in
    let uncut : take 127 (stamp 95 tm ms) ≡ stamp 95 tm ms =
      take_whole 127 (stamp 95 tm ms) (omega arith) in
    let read = scan_stamp-stamp tm ms (46 ∷ 116 ∷ 120 ∷ 116 ∷ []) suffix_stops in
    ap (scanned_time mktime)
      (ap (λ text. scan_stamp (text ++ 46 ∷ 116 ∷ 120 ∷ 116 ∷ [])) uncut ∙ read)
    ∙ ap₂
        (λ y m.
          let seconds = mktime (record tm { tm_year = y; tm_mon = m }) in
          if is_failed seconds then failed else thousand seconds +ℤ ms)
        (add-sub tm.tm_year 1900) (add-sub tm.tm_mon 1)
