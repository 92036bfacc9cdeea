-- ===== src/Log/RoundTrip.antt =====
-- The name of a full file, read back.
use video_player_core.Base.{
  ℕ, zero, suc, ◌+◌, ◌-◌, ◌*◌, ◌≤◌, ◌<◌, ◌≡◌, refl, ap, ◌∙◌, Bool, true, false, some, List, [], ◌∷◌,
  ◌++◌, if◌then◌else◌, length, length-append, replicate, length-replicate, append_assoc, arith, ◌^◌,
}
use native.Mathlib.Decide.{dec_le}
use Prim.Native.Nat.{◌/◌, ◌%◌}
use video_player_core.Base.Int.{ℤ, pos, negsuc, ◌+ℤ◌}
use video_player_core.Log.Stamp.{
  Tm, digits, decimal, fill, padded, stamp, is_digit, read_digits, scan_digits, scan_int,
  scan_field, scan_stamp, negate, with_field,
}

-- Digits in front are read as the number that they print.
read_digits-digits :
    (fuel n : ℕ) (rest : List ℕ)
    → n < fuel
    → read_digits (digits fuel n ++ rest) 0 ≡ read_digits rest n
unfolding digits read_digits
read_digits-digits zero n rest lt = absurd (omega arith)
read_digits-digits (suc fuel) n rest lt = ground (
  arith,
  append_assoc (digits fuel (n / 10)) ((48 + n % 10) ∷ []) rest,
  read_digits-digits fuel (n / 10) ((48 + n % 10) ∷ rest),
)

read_digits-zeros :
    (k : ℕ) (rest : List ℕ) → read_digits (replicate k 48 ++ rest) 0 ≡ read_digits rest 0
unfolding read_digits
read_digits-zeros zero rest = refl
read_digits-zeros (suc k) rest = read_digits-zeros k rest

-- A text that begins with a digit
abbrev Begins : List ℕ → Type 0
Begins text = (c : ℕ) × (cs : List ℕ) × (text ≡ c ∷ cs) × (48 ≤ c) × (c ≤ 57)

digits-Begins : (fuel n : ℕ) (rest : List ℕ) → n < fuel → Begins (digits fuel n ++ rest)
unfolding digits
digits-Begins zero n rest lt = absurd (omega arith)
digits-Begins (suc fuel) n rest lt = elim (dec_le 10 n) [
  | no small ↦ (48 + n, rest, ground arith, omega arith, omega arith)
  | yes large ↦
      let (c, cs, e, low, high) =
        digits-Begins fuel (n / 10) ((48 + n % 10) ∷ rest) (omega arith) in
      (
        c,
        cs,
        ground (arith, append_assoc (digits fuel (n / 10)) ((48 + n % 10) ∷ []) rest),
        low,
        high,
      )
]

-- A number with zeros before it.
fill-Begins : (w n : ℕ) (rest : List ℕ) → Begins (fill w n ++ rest)
fill-Begins w n rest = from (w - length (decimal n))
  where
    from : (k : ℕ) → Begins ((replicate k 48 ++ decimal n) ++ rest)
    from zero = digits-Begins (suc n) n rest (omega arith)
    from (suc k) = (48, (replicate k 48 ++ decimal n) ++ rest, refl, omega arith, omega arith)

read_digits-fill : (w n : ℕ) (rest : List ℕ) → read_digits (fill w n ++ rest) 0 ≡ read_digits rest n
read_digits-fill w n rest =
    ap (λ text. read_digits text 0)
      (append_assoc (replicate (w - length (decimal n)) 48) (decimal n) rest)
    ∙ read_digits-zeros (w - length (decimal n)) (decimal n ++ rest)
    ∙ read_digits-digits (suc n) n rest (omega arith)

-- What may follow a number
abbrev pub Stops : List ℕ → Type 0
Stops rest = (n : ℕ) → read_digits rest n ≡ (n, rest)

scan_digits-fill :
    (minus : Bool) (w n : ℕ) (rest : List ℕ)
    → Stops rest
    → scan_digits minus (fill w n ++ rest) ≡ some (if minus then negate n else pos n, rest)
unfolding scan_digits
scan_digits-fill minus w n rest stops =
    let (c, cs, e, low, high) = fill-Begins w n rest in
    ground (arith, read_digits-fill w n rest, stops n)

-- A printed number is read back, with its sign, whatever its width.
scan_int-padded :
    (w : ℕ) (z : ℤ) (rest : List ℕ) → Stops rest → scan_int (padded w z ++ rest) ≡ some (z, rest)
unfolding scan_int padded
scan_int-padded w (pos n) rest stops =
    let (c, cs, e, low, high) = fill-Begins w n rest in
    ground (arith, scan_digits-fill false w n rest stops)
scan_int-padded w (negsuc n) rest stops =
    ground (arith, scan_digits-fill true (w - 1) (suc n) rest stops)

scan_field-padded :
    (c w : ℕ) (z : ℤ) (rest : List ℕ)
    → is_digit c ≡ false
    → scan_field c (padded w z ++ (c ∷ rest)) ≡ some (z, rest)
unfolding scan_field read_digits
scan_field-padded c w z rest not_digit =
    ground (arith, scan_int-padded w z (c ∷ rest) (λ n. ground arith))

-- The same with a text behind everything.
next_field :
    (c w : ℕ) (z : ℤ) (rest tail : List ℕ)
    → is_digit c ≡ false
    → scan_field c ((padded w z ++ (c ∷ rest)) ++ tail) ≡ some (z, rest ++ tail)
next_field c w z rest tail not_digit =
    ap (scan_field c) (append_assoc (padded w z) (c ∷ rest) tail)
    ∙ scan_field-padded c w z (rest ++ tail) not_digit

-- The seven numbers, one after the other.
from_fields :
    (t0 t1 t2 t3 t4 t5 t6 rest : List ℕ) (year month day hour minute second milli : ℤ)
    → scan_field 45 t0 ≡ some (year, t1)
    → scan_field 45 t1 ≡ some (month, t2)
    → scan_field 84 t2 ≡ some (day, t3)
    → scan_field 95 t3 ≡ some (hour, t4)
    → scan_field 95 t4 ≡ some (minute, t5)
    → scan_field 46 t5 ≡ some (second, t6)
    → scan_int t6 ≡ some (milli, rest)
    → scan_stamp t0
      ≡ some (record {
        year = year;
        month = month;
        day = day;
        hour = hour;
        minute = minute;
        second = second;
        milli = milli;
      })
unfolding scan_stamp with_field
from_fields t0 t1 t2 t3 t4 t5 t6 rest year month day hour minute second milli a b c d e f g =
    ground arith

-- A stamp as in a file's name is read back, with any text behind it that begins with no digit.
pub scan_stamp-stamp :
    (tm : Tm) (ms : ℤ) (tail : List ℕ)
    → Stops tail
    → scan_stamp (stamp 95 tm ms ++ tail)
      ≡ some (record {
        year = tm.tm_year +ℤ pos 1900;
        month = tm.tm_mon +ℤ pos 1;
        day = tm.tm_mday;
        hour = tm.tm_hour;
        minute = tm.tm_min;
        second = tm.tm_sec;
        milli = ms;
      })
unfolding stamp
scan_stamp-stamp tm ms tail stops =
    let from_milli = padded 3 ms in
    let from_second = padded 2 tm.tm_sec ++ (46 ∷ from_milli) in
    let from_minute = padded 2 tm.tm_min ++ (95 ∷ from_second) in
    let from_hour = padded 2 tm.tm_hour ++ (95 ∷ from_minute) in
    let from_day = padded 2 tm.tm_mday ++ (84 ∷ from_hour) in
    let from_month = padded 2 (tm.tm_mon +ℤ pos 1) ++ (45 ∷ from_day) in
    from_fields (stamp 95 tm ms ++ tail) (from_month ++ tail) (from_day ++ tail) (from_hour ++ tail)
      (from_minute ++ tail) (from_second ++ tail) (from_milli ++ tail) tail (tm.tm_year +ℤ pos 1900)
      (tm.tm_mon +ℤ pos 1) tm.tm_mday tm.tm_hour tm.tm_min tm.tm_sec ms
      (next_field 45 4 (tm.tm_year +ℤ pos 1900) from_month tail refl)
      (next_field 45 2 (tm.tm_mon +ℤ pos 1) from_day tail refl)
      (next_field 84 2 tm.tm_mday from_hour tail refl)
      (next_field 95 2 tm.tm_hour from_minute tail refl)
      (next_field 95 2 tm.tm_min from_second tail refl)
      (next_field 46 2 tm.tm_sec from_milli tail refl) (scan_int-padded 3 ms tail stops)

-- The bound on a field of an `int`.
abbrev pub IsShort : ℤ → Type 0
IsShort (pos n) = n < 10000000000
IsShort (negsuc n) = suc n < 10000000000

length-digits :
    (fuel n k bound : ℕ)
    → n < fuel
    → bound ≡ 10 ^ k
    → n < bound * 10
    → length (digits fuel n) ≤ suc k
unfolding digits
length-digits zero n k bound lt e small = absurd (omega arith)
length-digits (suc fuel) n zero bound lt e small = ground arith
length-digits (suc fuel) n (suc k) bound lt e small =
    let before = length-digits fuel (n / 10) k (10 ^ k) in
    ground (arith, length-append (digits fuel (n / 10)) ((48 + n % 10) ∷ []), before)

length-fill : (w n : ℕ) → w ≤ 10 → n < 10000000000 → length (fill w n) ≤ 10
length-fill w n le small =
    let size = length-digits (suc n) n 9 1000000000 (omega arith) refl (omega arith) in
    let zeros = length-replicate {A = ℕ} (w - length (decimal n)) 48 in
    omega (arith, size, zeros, length-append (replicate (w - length (decimal n)) 48) (decimal n))

pub length-padded : (w : ℕ) (z : ℤ) → w ≤ 10 → IsShort z → length (padded w z) ≤ 11
unfolding padded
length-padded w (pos n) le short = omega (arith, length-fill w n le short)
length-padded w (negsuc n) le short = omega (arith, length-fill (w - 1) (suc n) (omega arith) short)
