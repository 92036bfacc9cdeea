-- ===== src/Log/Stamp.antt =====
-- src/utils/log.c, `getIso8601Format`, `getTimeFileFormat` and the reading of a name in
-- `timeFileFormatToTimestampMs`: the time in a line and in the name of a file. Texts are lists of
-- character codes; `localtime` and `mktime` belong to the system and are arguments.
use video_player_core.Base.{
  ℕ, zero, suc, ◌+◌, ◌-◌, ◌*◌, Bool, true, false, ◌&&◌, ◌||◌, Option, none, some, List, [], ◌∷◌,
  ◌++◌, if◌then◌else◌, ltb, leb, ◌==◌, length, take, replicate,
}
use Prim.Native.Nat.{◌/◌, ◌%◌}
use video_player_core.Base.Int.{ℤ, pos, negsuc, ◌+ℤ◌, ◌-ℤ◌}

-- `struct tm`: `tm_year` counts from 1900 and `tm_mon` from 0.
pub record Tm : Type 0 where
  pub tm_year : ℤ
  pub tm_mon : ℤ
  pub tm_mday : ℤ
  pub tm_hour : ℤ
  pub tm_min : ℤ
  pub tm_sec : ℤ

-- `%d` of a number, with as many rounds as there can be digits
unfoldable pub digits : ℕ → ℕ → List ℕ
digits zero n = []
digits (suc fuel) n =
    let before = digits fuel (n / 10) in
    if ltb n 10 then (48 + n) ∷ [] else before ++ (48 + n % 10) ∷ []

abbrev pub decimal : ℕ → List ℕ
decimal n = digits (suc n) n

abbrev pub fill : ℕ → ℕ → List ℕ
fill w n = replicate (w - length (decimal n)) 48 ++ decimal n

-- `%0wd`, where the sign takes one of the `w` characters
unfoldable pub padded : ℕ → ℤ → List ℕ
padded w (pos n) = fill w n
padded w (negsuc n) = 45 ∷ fill (w - 1) (suc n)

-- `%04d-%02d-%02dT%02d:%02d:%02d.%03d`, with `:` or another separator
unfoldable pub stamp : ℕ → Tm → ℤ → List ℕ
stamp sep tm ms =
    let from_milli = padded 3 ms in
    let from_second = padded 2 tm.tm_sec ++ (46 ∷ from_milli) in
    let from_minute = padded 2 tm.tm_min ++ (sep ∷ from_second) in
    let from_hour = padded 2 tm.tm_hour ++ (sep ∷ from_minute) in
    let from_day = padded 2 tm.tm_mday ++ (84 ∷ from_hour) in
    let from_month = padded 2 (tm.tm_mon +ℤ pos 1) ++ (45 ∷ from_day) in
    padded 4 (tm.tm_year +ℤ pos 1900) ++ (45 ∷ from_month)

-- `getIso8601Format` into `len` bytes, of which `snprintf` keeps one for the end
unfoldable pub iso_8601_format : ℕ → Tm → ℤ → List ℕ
iso_8601_format len tm ms = take (len - 1) (stamp 58 tm ms ++ 43 ∷ 48 ∷ 56 ∷ 48 ∷ 48 ∷ [])

-- `getTimeFileFormat`
unfoldable pub time_file_format : ℕ → Tm → ℤ → List ℕ
time_file_format len tm ms = take (len - 1) (stamp 95 tm ms)

-- The name of a full file: `str` has 128 bytes.
unfoldable pub backup_name : Tm → ℤ → List ℕ
backup_name tm ms = time_file_format 128 tm ms ++ 46 ∷ 116 ∷ 120 ∷ 116 ∷ []

abbrev pub is_digit : ℕ → Bool
is_digit c = leb 48 c && leb c 57

abbrev pub is_space : ℕ → Bool
is_space c = c == 32 || (leb 9 c && leb c 13)

-- The digits in front, after a number `n` that was read, and what follows them.
unfoldable pub read_digits : List ℕ → ℕ → ℕ × List ℕ
read_digits [] n = (n, [])
read_digits (c ∷ cs) n =
    let rest = read_digits cs (n * 10 + (c - 48)) in if is_digit c then rest else (n, c ∷ cs)

abbrev pub negate : ℕ → ℤ
negate zero = pos zero
negate (suc n) = negsuc n

-- The digits of `%d`, of which there is one at least, after its sign
unfoldable pub scan_digits : Bool → List ℕ → Option (ℤ × List ℕ)
scan_digits minus [] = none
scan_digits minus (c ∷ cs) =
    let (n, rest) = read_digits (c ∷ cs) 0 in
    if is_digit c then some (if minus then negate n else pos n, rest) else none

-- `%d` of `sscanf`: blanks, a sign, digits. A number outside `int` has no meaning in C.
unfoldable pub scan_int : List ℕ → Option (ℤ × List ℕ)
unfolding scan_digits
scan_int [] = none
scan_int (c ∷ cs) =
    let rest = scan_int cs in
    if is_space c
    then rest
    else (if c == 45
        then scan_digits true cs
        else (if c == 43 then scan_digits false cs else scan_digits false (c ∷ cs)))

-- A character of the format that is no blank
abbrev pub expect : ℕ → List ℕ → Option (List ℕ)
expect c [] = none
expect c (x ∷ xs) = if x == c then some xs else none

-- A number and the character after it
unfoldable pub scan_field : ℕ → List ℕ → Option (ℤ × List ℕ)
scan_field c text = elim (scan_int text) [
  | none ↦ none
  | some (n, rest) ↦ elim (expect c rest) [ none ↦ none | some rest' ↦ some (n, rest') ]
]

-- What `sscanf` stores.
pub record Scanned : Type 0 where
  pub year : ℤ
  pub month : ℤ
  pub day : ℤ
  pub hour : ℤ
  pub minute : ℤ
  pub second : ℤ
  pub milli : ℤ

-- The rest of the format is read after such a field.
unfoldable pub with_field : ℕ → List ℕ → (ℤ → List ℕ → Option Scanned) → Option Scanned
with_field c text next = elim (scan_field c text) [ none ↦ none | some (n, rest) ↦ next n rest ]

-- `%d-%d-%dT%d_%d_%d.%d.txt`: what follows the seventh number does not count.
unfoldable pub scan_stamp : List ℕ → Option Scanned
scan_stamp name = with_field 45 name λ year from_month. with_field 45 from_month λ month from_day.
    with_field 84 from_day λ day from_hour. with_field 95 from_hour λ hour from_minute.
      with_field 95 from_minute λ minute from_second. with_field 46 from_second λ second from_milli.
        elim (scan_int from_milli) [
          | none ↦ none
          | some (milli, rest) ↦ some (record {
            year = year;
            month = month;
            day = day;
            hour = hour;
            minute = minute;
            second = second;
            milli = milli;
          })
        ]

abbrev pub failed : ℤ
failed = negsuc 0

abbrev pub is_failed : ℤ → Bool
is_failed (pos n) = false
is_failed (negsuc n) = n == 0

abbrev pub thousand : ℤ → ℤ
thousand (pos n) = pos (n * 1000)
thousand (negsuc n) = negsuc (n * 1000 + 999)

-- The time of seven numbers, if there are seven
abbrev pub scanned_time : (Tm → ℤ) → Option Scanned → ℤ
scanned_time mktime none = failed
scanned_time mktime (some s) =
    let seconds = mktime (record {
      tm_year = s.year -ℤ pos 1900;
      tm_mon = s.month -ℤ pos 1;
      tm_mday = s.day;
      tm_hour = s.hour;
      tm_min = s.minute;
      tm_sec = s.second;
    }) in
    if is_failed seconds then failed else thousand seconds +ℤ s.milli

-- `timeFileFormatToTimestampMs`
unfoldable pub name_time : (Tm → ℤ) → List ℕ → ℤ
name_time mktime name = scanned_time mktime (scan_stamp name)
