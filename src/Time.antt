-- ===== src/Time.antt =====
-- lib/time: the calendar time of a number of seconds since 1970, and the way back. Years start at
-- 1900 in what `tm2tv` takes. An int that leaves its range wraps. The sums of a time_t in `tm2tv` stay
-- within 2 ^ 49, since the days are an int and a few more, and so are the fields.
-- In `tv2tm` the 400 years are at most 14699, since the days are an int, and what is computed of them
-- stays far below 2 ^ 31.
pub mod Int
pub mod Days
pub mod Back
pub mod RoundTrip
use minibase.Base.{
  ℕ, zero, suc, ◌+◌, ◌-◌, ◌*◌, ◌/◌, ◌%◌, not, ◌&&◌, ◌||◌, List, [], ◌∷◌, ltb, leb, ◌==◌,
  if◌then◌else◌, get_or,
}
use minibase.Base.Int.{ℤ, pos, is_neg}
use minibase.Format.Number.{Tm}
use minibase.Time.Int.{◌+ℤ◌, ◌-ℤ◌, times, quot, rem, pos_part, to_int, to_time}

abbrev pub mdays : List ℕ
mdays = 31 ∷ 28 ∷ 31 ∷ 30 ∷ 31 ∷ 30 ∷ 31 ∷ 31 ∷ 30 ∷ 31 ∷ 30 ∷ 31 ∷ []

-- year/4 - year/100 + year/400
unfoldable pub leaps_to : ℤ → ℤ
leaps_to year = (quot year 4 -ℤ quot year 100) +ℤ quot year 400

-- for(int i = 0; i < mon; i++) ts += mdays[i];
unfoldable pub add_months : ℕ → ℤ → ℤ
add_months zero ts = ts
add_months (suc i) ts = add_months i ts +ℤ pos (get_or mdays i 0)

-- Days since 1970, the sum of an int that may have wrapped and a time_t. `year` is the one to count the
-- leap days to.
unfoldable pub days_of : Tm → ℤ
unfolding add_months leaps_to
days_of tm =
    let full = to_int (pos (tm.year + 1900)) in
    let ts = to_int (times (to_int (full -ℤ pos 1970)) 365) in
    let year = if ltb tm.mon 2 then to_int (full -ℤ pos 1) else full in
    let leaps = to_int (leaps_to year -ℤ leaps_to (pos 1970)) in
    add_months tm.mon (ts +ℤ leaps) +ℤ to_int (pos tm.mday -ℤ pos 1)

unfoldable pub tm2tv : Tm → ℤ
unfolding days_of
tm2tv tm = times (times (times (days_of tm) 24 +ℤ pos tm.hour) 60 +ℤ pos tm.minute) 60 +ℤ pos tm.sec

abbrev pub leapoch : ℕ
leapoch = 946684800 + 86400 * (31 + 29)

abbrev pub days_per_400y : ℕ
days_per_400y = 365 * 400 + 97

abbrev pub days_per_100y : ℕ
days_per_100y = 365 * 100 + 24

abbrev pub days_per_4y : ℕ
days_per_4y = 365 * 4 + 1

-- `int q = a / n; int r = a % n; if(r < 0) { r += n; q--; }`, where `n` is an int
unfoldable pub floored : ℤ → ℕ → ℤ × ℕ
floored a n =
    if is_neg (rem a n)
    then (to_int (to_int (quot a n) -ℤ pos 1), pos_part (rem a n +ℤ pos n))
    else (to_int (quot a n), pos_part (rem a n))

-- the months of a year that starts in March
abbrev pub march_mdays : List ℕ
march_mdays = 31 ∷ 30 ∷ 31 ∷ 30 ∷ 31 ∷ 31 ∷ 30 ∷ 31 ∷ 30 ∷ 31 ∷ 31 ∷ 29 ∷ []

-- for(; mon < 12 && mdays[mon] <= days; mon++) days -= mdays[mon];
unfoldable pub find_month : List ℕ → ℕ → ℕ → ℕ × ℕ
find_month [] mon days = (mon, days)
find_month (n ∷ ns) mon days =
    let later = find_month ns (mon + 1) (days - n) in if leb n days then later else (mon, days)

-- `struct tm` with its year as an int, since it is computed
pub record TmOut : Type 0 where
  pub year : ℤ
  pub mon : ℕ
  pub mday : ℕ
  pub hour : ℕ
  pub minute : ℕ
  pub sec : ℕ
  pub wday : ℕ
  pub yday : ℕ

-- The year within its 400 years, and the day of it: centuries, fours of years and years are
-- divided off one after the other.
pub record YearDay : Type 0 where
  pub nc : ℕ
  pub nq : ℕ
  pub year : ℕ
  pub days : ℕ

-- `q = days / n; if(q == most) q--;`
abbrev pub capped : ℕ → ℕ → ℕ → ℕ
capped days n most = let q = days / n in if q == most then q - 1 else q

unfoldable pub year_day : ℕ → YearDay
year_day days =
    let nc = capped days days_per_100y 4 in
    let days' = days - nc * days_per_100y in
    let nq = capped days' days_per_4y 25 in
    let days'' = days' - nq * days_per_4y in
    let year = capped days'' 365 4 in
    record { nc = nc; nq = nq; year = year; days = days'' - year * 365 }

unfoldable pub yday_of : YearDay → ℕ
yday_of y =
    let leap = if y.year == 0 && (not (y.nq == 0) || y.nc == 0) then 1 else 0 in
    let yday = y.days + 31 + 28 + leap in
    if leb (365 + leap) yday then yday - (365 + leap) else yday

-- the fields, from the 400 years, the day of the year, the month with the day of it, the second of
-- the day, and the week day
unfoldable pub assemble : ℤ → YearDay → ℕ × ℕ → ℕ → ℕ → TmOut
unfolding yday_of
assemble qc y (mon, mday) secs wday =
    let year = pos (y.year + 4 * y.nq + 100 * y.nc) +ℤ times qc 400 in
    let over = leb 12 (mon + 2) in
    record {
      year = if over then (year +ℤ pos 100) +ℤ pos 1 else year +ℤ pos 100;
      mon = if over then mon + 2 - 12 else mon + 2;
      mday = mday + 1;
      hour = secs / 60 / 60 % 24;
      minute = secs / 60 % 60;
      sec = secs % 60;
      wday = wday;
      yday = yday_of y;
    }

unfoldable pub tv2tm : ℤ → TmOut
unfolding floored find_month year_day assemble
tv2tm sec =
    let (days, secs) = floored (to_time (sec -ℤ pos leapoch)) 86400 in
    let wday = (floored (to_int (pos 3 +ℤ days)) 7).1 in
    let (qc, left) = floored days days_per_400y in
    let y = year_day left in assemble qc y (find_month march_mdays 0 y.days) secs wday
