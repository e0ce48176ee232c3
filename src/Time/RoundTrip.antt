-- ===== src/Time/RoundTrip.antt =====
-- `tv2tm` against `tm2tv`, on the dates from 1900 to 5001899.
use minibase.Base.{
  ℕ, zero, suc, ◌+◌, ◌-◌, ◌*◌, ◌/◌, ◌%◌, ◌≤◌, ◌<◌, ◌≡◌, ap, ◌∙◌, ◌⊎◌, inl, inr, Bool, true, false,
  not, ◌&&◌, ◌||◌, arith, List, [], ◌∷◌, leb, ltb, ◌==◌, get_or, Bool-cases, if◌then◌else◌,
}
use minibase.Base.Int.{ℤ, pos}
use minibase.Format.Number.{Tm}
use minibase.Time.Int.{
  pos_part, neg_part, ◌+ℤ◌, ◌-ℤ◌, times, +ℤ_parts, -ℤ_parts, times_parts, eq_of_parts, to_int,
  to_time, to_time_fits,
}
use minibase.Time.{
  mdays, march_mdays, days_of, tm2tv, leapoch, days_per_400y, floored, find_month, YearDay,
  year_day, TmOut, assemble, tv2tm,
}
use minibase.Time.Back.{
  Diff, pos_part-Diff, floored_day, floored_400y, Fits, long_year, year_length, year_day_lem,
  march_start, find_month_lem,
}
use minibase.Time.Days.{march_year, march_month, march_days, days_of_lem}

abbrev pub is_leap : ℕ → Bool
is_leap y = y % 4 == 0 && (not (y % 100 == 0) || y % 400 == 0)

abbrev pub days_in_month : ℕ → ℕ → ℕ
days_in_month y mon = if mon == 1 then (if is_leap y then 29 else 28) else get_or mdays mon 0

-- a date that exists, before the year 5001900, and a time of the day
pub record IsTime (tm : Tm) : Type 0 where
  pub year_in : tm.year < 5000000
  pub mon_in : tm.mon < 12
  pub mday_in : (1 ≤ tm.mday) × (tm.mday ≤ days_in_month (tm.year + 1900) tm.mon)
  pub hour_in : tm.hour < 24
  pub minute_in : tm.minute < 60
  pub sec_in : tm.sec < 60

abbrev seconds : Tm → ℕ
seconds tm = tm.hour * 3600 + tm.minute * 60 + tm.sec

tm2tv_parts :
    (tm : Tm)
    → pos_part (tm2tv tm) + 86400 * neg_part (days_of tm)
      ≡ neg_part (tm2tv tm) + 86400 * pos_part (days_of tm) + seconds tm
unfolding tm2tv
tm2tv_parts tm =
    let h = times (days_of tm) 24 in
    let h' = h +ℤ pos tm.hour in
    let m = times h' 60 in
    let m' = m +ℤ pos tm.minute in
    let s = times m' 60 in
    omega (
      arith,
      times_parts (days_of tm) 24,
      +ℤ_parts h (pos tm.hour),
      times_parts h' 60,
      +ℤ_parts m (pos tm.minute),
      times_parts m' 60,
      +ℤ_parts s (pos tm.sec),
    )

abbrev year_of_400 : Tm → ℕ
year_of_400 tm = march_year tm % 400

abbrev march_day : Tm → ℕ
march_day tm = march_start (march_month tm.mon) + (tm.mday - 1)

march_days_parts :
    (tm : Tm)
    → march_days tm
      ≡ days_per_400y * (march_year tm / 400)
        + (365 * year_of_400 tm + year_of_400 tm / 4 - year_of_400 tm / 100 + march_day tm)
march_days_parts tm = omega arith

-- A day of a month that is not February lies within it whatever the year is.
month_in :
    (mon k year : ℕ)
    → mon < 12
    → k < days_in_month year mon
    → k < get_or march_mdays (march_month mon) 0
month_in zero k year h hk = ground arith
month_in (suc zero) k year h hk = ground arith
month_in (suc (suc zero)) k year h hk = ground arith
month_in (suc (suc (suc zero))) k year h hk = ground arith
month_in (suc (suc (suc (suc zero)))) k year h hk = ground arith
month_in (suc (suc (suc (suc (suc zero))))) k year h hk = ground arith
month_in (suc (suc (suc (suc (suc (suc zero)))))) k year h hk = ground arith
month_in (suc (suc (suc (suc (suc (suc (suc zero))))))) k year h hk = ground arith
month_in (suc (suc (suc (suc (suc (suc (suc (suc zero)))))))) k year h hk = ground arith
month_in (suc (suc (suc (suc (suc (suc (suc (suc (suc zero))))))))) k year h hk = ground arith
month_in (suc (suc (suc (suc (suc (suc (suc (suc (suc (suc zero)))))))))) k year h hk = ground arith
month_in (suc (suc (suc (suc (suc (suc (suc (suc (suc (suc (suc zero))))))))))) k year h hk =
    ground arith
month_in (suc (suc (suc (suc (suc (suc (suc (suc (suc (suc (suc (suc mon)))))))))))) k year h hk =
    absurd (omega arith)

start_in :
    (mon k year : ℕ)
    → mon < 12
    → k < days_in_month year mon
    → (march_start (march_month mon) + k < 365) ⊎ ((mon ≡ 1) × (k ≡ 28) × (is_leap year ≡ true))
start_in zero k year h hk = ground arith
start_in (suc zero) k year h hk = ground arith
start_in (suc (suc zero)) k year h hk = ground arith
start_in (suc (suc (suc zero))) k year h hk = ground arith
start_in (suc (suc (suc (suc zero)))) k year h hk = ground arith
start_in (suc (suc (suc (suc (suc zero))))) k year h hk = ground arith
start_in (suc (suc (suc (suc (suc (suc zero)))))) k year h hk = ground arith
start_in (suc (suc (suc (suc (suc (suc (suc zero))))))) k year h hk = ground arith
start_in (suc (suc (suc (suc (suc (suc (suc (suc zero)))))))) k year h hk = ground arith
start_in (suc (suc (suc (suc (suc (suc (suc (suc (suc zero))))))))) k year h hk = ground arith
start_in (suc (suc (suc (suc (suc (suc (suc (suc (suc (suc zero)))))))))) k year h hk = ground arith
start_in (suc (suc (suc (suc (suc (suc (suc (suc (suc (suc (suc zero))))))))))) k year h hk =
    ground arith
start_in (suc (suc (suc (suc (suc (suc (suc (suc (suc (suc (suc (suc mon)))))))))))) k year h hk =
    absurd (omega arith)

leap_long : (y : ℕ) → is_leap (y + 1) ≡ true → long_year (y % 400) ≡ true
leap_long y leap = ground arith

-- The day lies within the year that starts in March.
march_day_in : (tm : Tm) → IsTime tm → march_day tm < year_length (year_of_400 tm)
march_day_in tm v =
    elim (start_in tm.mon (tm.mday - 1) (tm.year + 1900) v.mon_in (omega (arith, v.mday_in))) [
      | inl plain ↦ ground arith
      | inr (feb, last, leap) ↦
          let before : tm.year + 1900 ≡ march_year tm + 1 = ground (arith, feb) in
          let long : long_year (year_of_400 tm) ≡ true =
            leap_long (march_year tm) (rw before at leap) in
          let month : march_month tm.mon ≡ 11 = ap march_month feb in
          rw (long, month) (omega (arith, last))
    ]

march_day_short : (tm : Tm) → IsTime tm → march_day tm < 366
march_day_short tm v = elim (Bool-cases (long_year (year_of_400 tm))) [
  | inl long ↦ let day : march_day tm < 366 = rw long at (march_day_in tm v) in day
  | inr short ↦ let day : march_day tm < 365 = rw short at (march_day_in tm v) in omega arith
]

-- seconds since March 2000, of which the days are taken as an int
abbrev since : Tm → ℤ
since tm = tm2tv tm -ℤ pos leapoch

AllShort : List ℕ → Type 0
AllShort [] = Unit {0}
AllShort (n ∷ ns) = (n ≤ 31) × AllShort ns

get_or-short : (ns : List ℕ) (i : ℕ) → AllShort ns → get_or ns i 0 ≤ 31
unfolding AllShort
get_or-short [] i h = omega arith
get_or-short (n ∷ ns) zero h = h.0
get_or-short (n ∷ ns) (suc i) h = get_or-short ns i h.1

mdays-AllShort : AllShort mdays
unfolding AllShort
mdays-AllShort = ground arith

month_length : (year mon : ℕ) → days_in_month year mon ≤ 31
month_length year mon = ground (arith, get_or-short mdays mon mdays-AllShort)

module _ (tm : Tm) (v : IsTime tm) where
  day_number : Diff (days_of tm) (march_days tm) 719468
  day_number =
      days_of_lem tm v.year_in v.mon_in v.mday_in.0
        (omega (arith, v.mday_in, month_length (tm.year + 1900) tm.mon))

  march_days-lt : march_days tm < 2000000000
  march_days-lt = ground (arith, v.year_in, march_day_short tm v)

  seconds-lt : seconds tm < 86400
  seconds-lt = omega (arith, v.hour_in, v.minute_in, v.sec_in)

  since_is : Diff (since tm) (86400 * march_days tm + seconds tm) (86400 * 719468 + leapoch)
  since_is = omega (arith, tm2tv_parts tm, -ℤ_parts (tm2tv tm) (pos leapoch), day_number)

  since_whole : to_time (since tm) ≡ since tm
  since_whole =
      let (hi, lo) = pos_part-Diff (since tm) since_is in
      to_time_fits (since tm) (omega (arith, hi, march_days-lt, seconds-lt)) (omega (arith, lo))

  since-Fits : Fits (since tm) 86400
  since-Fits =
      let (hi, lo) = pos_part-Diff (since tm) since_is in
      record { above = omega (arith, hi, march_days-lt, seconds-lt); below = omega (arith, lo) }

  -- the day and the second of it that `tv2tm` finds
  day_found : Diff (floored (since tm) 86400).0 (march_days tm) 730485
  day_found = omega (arith, floored_day (since tm) since-Fits, seconds-lt, since_is)

  second_found : (floored (since tm) 86400).1 ≡ seconds tm
  second_found = omega (arith, floored_day (since tm) since-Fits, seconds-lt, since_is)

left_in : (b d : ℕ) → b < 400 → d < 366 → 365 * b + b / 4 - b / 100 + d < days_per_400y
left_in b d hb hd = omega arith

module _ (tm : Tm) (v : IsTime tm) (days : ℤ) (day : Diff days (march_days tm) 730485) where
  days-Fits : Fits days days_per_400y
  days-Fits =
      let (hi, lo) = pos_part-Diff days day in
      record { above = omega (arith, hi, march_days-lt tm v); below = omega (arith, lo) }

  left_found :
      (floored days days_per_400y).1
      ≡ 365 * year_of_400 tm + year_of_400 tm / 4 - year_of_400 tm / 100 + march_day tm
  left_found = omega (
    arith,
    floored_400y days days-Fits,
    day,
    march_days_parts tm,
    left_in (year_of_400 tm) (march_day tm) (omega arith) (march_day_short tm v),
  )

  era_found : Diff (floored days days_per_400y).0 (march_year tm / 400) 5
  era_found = omega (
    arith,
    floored_400y days days-Fits,
    day,
    march_days_parts tm,
    left_in (year_of_400 tm) (march_day tm) (omega arith) (march_day_short tm v),
  )

-- The fields of `tm` again; the week day and the day of the year are computed anew.
abbrev pub Same : Tm → TmOut → Type 0
Same tm out =
    (out.year ≡ pos tm.year)
    × (out.mon ≡ tm.mon)
    × (out.mday ≡ tm.mday)
    × (out.hour ≡ tm.hour)
    × (out.minute ≡ tm.minute)
    × (out.sec ≡ tm.sec)

found_year : Tm → YearDay
found_year tm = record {
  nc = year_of_400 tm / 100;
  nq = year_of_400 tm % 100 / 4;
  year = year_of_400 tm % 100 % 4;
  days = march_day tm;
}

month_back :
    (mon : ℕ)
    → mon < 12
    → (if leb 12 (march_month mon + 2) then march_month mon + 2 - 12 else march_month mon + 2) ≡ mon
month_back mon h = ground arith

year_back :
    (tm : Tm) (qc : ℤ) (b : ℕ)
    → tm.mon < 12
    → Diff qc (march_year tm / 400) 5
    → b ≡ year_of_400 tm
    → (let year = pos b +ℤ times qc 400 in
        if leb 12 (march_month tm.mon + 2) then (year +ℤ pos 100) +ℤ pos 1 else year +ℤ pos 100)
      ≡ pos tm.year
year_back tm qc b h era b_is =
    let year = pos b +ℤ times qc 400 in
    let t = times_parts qc 400 in
    let p = +ℤ_parts (pos b) (times qc 400) in
    let c = +ℤ_parts year (pos 100) in
    let n = +ℤ_parts (year +ℤ pos 100) (pos 1) in
    elim (Bool-cases (ltb tm.mon 2)) [
      | inl early ↦
          let over : leb 12 (march_month tm.mon + 2) ≡ true = ground (arith, early) in
          let my : march_year tm ≡ tm.year + 1899 = ground (arith, early) in
          rw over (
            eq_of_parts ((year +ℤ pos 100) +ℤ pos 1) (pos tm.year)
              (omega (arith, t, p, c, n, era, my)))
      | inr late ↦
          let under : leb 12 (march_month tm.mon + 2) ≡ false = ground (arith, late) in
          let my : march_year tm ≡ tm.year + 1900 = ground (arith, late) in
          rw under (eq_of_parts (year +ℤ pos 100) (pos tm.year) (omega (arith, t, p, c, era, my)))
    ]

assemble-Same :
    (tm : Tm) (qc : ℤ) (y : YearDay) (month : ℕ × ℕ) (secs wday : ℕ)
    → IsTime tm
    → Diff qc (march_year tm / 400) 5
    → y ≡ found_year tm
    → month ≡ (march_month tm.mon, tm.mday - 1)
    → secs ≡ seconds tm
    → Same tm (assemble qc y month secs wday)
unfolding assemble found_year
assemble-Same tm qc y month secs wday v era y_is month_is secs_is =
    rw (y_is, month_is, secs_is)
      (
        year_back tm qc
            (year_of_400 tm % 100 % 4
              + 4 * (year_of_400 tm % 100 / 4)
              + 100 * (year_of_400 tm / 100))
            v.mon_in era (omega arith),
        month_back tm.mon v.mon_in,
        omega (arith, v.mday_in),
        omega (arith, v.hour_in, v.minute_in, v.sec_in),
        omega (arith, v.minute_in, v.sec_in),
        omega (arith, v.sec_in),
      )

-- A date that exists, in a year from 1900 to 5001899, and a time of the day are found again from the
-- seconds since 1970 that `tm2tv` makes of them.
pub tv2tm-tm2tv : (tm : Tm) → IsTime tm → Same tm (tv2tm (tm2tv tm))
unfolding tv2tm found_year
tv2tm-tm2tv tm v =
    let found = floored (since tm) 86400 in
    let days = found.0 in
    let left = floored days days_per_400y in
    let day = day_found tm v in
    let y_is : year_day left.1 ≡ found_year tm =
      ap year_day (left_found tm v days day)
      ∙ year_day_lem (year_of_400 tm) (march_day tm) (omega arith) (march_day_in tm v) in
    let month_is : find_month march_mdays 0 (year_day left.1).days
        ≡ (march_month tm.mon, tm.mday - 1) =
      ap (λ y. find_month march_mdays 0 y.days) y_is
      ∙ find_month_lem (march_month tm.mon) (tm.mday - 1) (ground arith)
          (month_in tm.mon (tm.mday - 1) (tm.year + 1900) v.mon_in (omega (arith, v.mday_in))) in
    rw (since_whole tm v) (
      assemble-Same tm left.0 (year_day left.1) (find_month march_mdays 0 (year_day left.1).days)
        found.1 (floored (to_int (pos 3 +ℤ days)) 7).1 v (era_found tm v days day) y_is month_is
        (second_found tm v))
