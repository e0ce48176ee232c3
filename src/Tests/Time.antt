-- ===== src/Tests/Time.antt =====
-- lib/time on concrete dates.
use minibase.Base.{◌≡◌, refl, arith}
use minibase.Base.Int.{pos, negsuc}
use minibase.Format.Number.{Tm}
use minibase.Time.Int.{times, quot, rem, to_int, to_time, ◌+ℤ◌, ◌-ℤ◌}
use minibase.Time.{tm2tv, tv2tm}
use minibase.Time.RoundTrip.{IsTime, Same, tv2tm-tm2tv}

abbrev leap_day : Tm
leap_day = record { year = 116; mon = 1; mday = 29; hour = 23; minute = 59; sec = 58 }

abbrev old_day : Tm
old_day = record { year = 0; mon = 0; mday = 1; hour = 0; minute = 0; sec = 1 }

leap_day_seconds : tm2tv leap_day ≡ pos 1456790398
unfolding tm2tv times quot to_int ◌+ℤ◌ ◌-ℤ◌
leap_day_seconds = refl

old_day_back : (tv2tm (tm2tv old_day)).year ≡ pos 0
unfolding tm2tv tv2tm times quot rem to_int to_time ◌+ℤ◌ ◌-ℤ◌
old_day_back = refl

leap_day-wday : (tv2tm (tm2tv leap_day)).wday ≡ 1
unfolding tm2tv tv2tm times quot rem to_int to_time ◌+ℤ◌ ◌-ℤ◌
leap_day-wday = refl

-- The int of the days wraps.
abbrev far_day : Tm
far_day = record { year = 5900000; mon = 0; mday = 1; hour = 0; minute = 0; sec = 0 }

far_day_lost : (tv2tm (tm2tv far_day)).year ≡ negsuc 5859221
unfolding tm2tv tv2tm times quot rem to_int to_time ◌+ℤ◌ ◌-ℤ◌
far_day_lost = refl

leap_day-IsTime : IsTime leap_day
leap_day-IsTime = record {
  year_in = omega arith;
  mon_in = omega arith;
  mday_in = (omega arith, omega arith);
  hour_in = omega arith;
  minute_in = omega arith;
  sec_in = omega arith;
}

tv2tm-tm2tv_example : Same leap_day (tv2tm (tm2tv leap_day))
tv2tm-tm2tv_example = tv2tm-tm2tv leap_day leap_day-IsTime
