-- ===== src/Time/Days.antt =====
-- The day number that `tm2tv` computes.
use minibase.Base.{
  ℕ, zero, suc, ◌+◌, ◌-◌, ◌*◌, ◌/◌, ◌^◌, ◌≤◌, ◌<◌, ◌≡◌, refl, ◌∙◌, inl, inr, arith, ltb, get_or,
  Bool-cases, if◌then◌else◌,
}
use minibase.Base.Int.{ℤ, pos}
use minibase.Format.Number.{Tm}
use minibase.Time.Int.{
  pos_part, neg_part, ◌+ℤ◌, ◌-ℤ◌, times, quot, to_int, to_int_fits, +ℤ_parts, -ℤ_parts, times_parts,
  -ℤ_in, times_in,
}
use minibase.Time.{mdays, leaps_to, add_months, days_of}
use minibase.Time.Back.{Diff, march_start}

abbrev pub months_before : ℕ → ℕ
months_before zero = 0
months_before (suc i) = months_before i + get_or mdays i 0

add_months_lem :
    (i : ℕ) (ts : ℤ)
    → pos_part (add_months i ts) + neg_part ts
      ≡ neg_part (add_months i ts) + pos_part ts + months_before i
unfolding add_months
add_months_lem zero ts = omega arith
add_months_lem (suc i) ts =
    omega (arith, add_months_lem i ts, +ℤ_parts (add_months i ts) (pos (get_or mdays i 0)))

-- the leap days of years that are not negative
abbrev pub leap_days : ℕ → ℕ
leap_days year = year / 4 - year / 100 + year / 400

leaps_to-pos : (year : ℕ) → leaps_to (pos year) ≡ pos (leap_days year)
unfolding leaps_to quot ◌+ℤ◌ ◌-ℤ◌
leaps_to-pos year = ground arith

-- the year to count the leap days to, and the month counted from March
abbrev pub march_year : Tm → ℕ
march_year tm = if ltb tm.mon 2 then tm.year + 1900 - 1 else tm.year + 1900

abbrev pub march_month : ℕ → ℕ
march_month mon = if ltb mon 2 then mon + 10 else mon - 2

-- days since 0000-03-01
abbrev pub march_days : Tm → ℕ
march_days tm =
    365 * march_year tm
    + leap_days (march_year tm)
    + (march_start (march_month tm.mon) + (tm.mday - 1))

kept :
    (a b : ℤ)
    → pos_part a < 2 ^ 30
    → neg_part a ≡ 0
    → pos_part b < 2 ^ 30
    → neg_part b ≡ 0
    → to_int (a -ℤ b) ≡ a -ℤ b
kept a b h z k z' =
    let i = -ℤ_in a b in to_int_fits (a -ℤ b) (omega (arith, i, h, z')) (omega (arith, i, k, z))

one_less : (n : ℕ) → 1 ≤ n → pos n -ℤ pos 1 ≡ pos (n - 1)
unfolding ◌-ℤ◌
one_less n h = ground arith

leap_year_is :
    (tm : Tm)
    → tm.year < 5000000
    → (if ltb tm.mon 2 then to_int (pos (tm.year + 1900) -ℤ pos 1) else pos (tm.year + 1900))
      ≡ pos (march_year tm)
leap_year_is tm small = elim (Bool-cases (ltb tm.mon 2)) [
  | inl early ↦ rw early (
      kept (pos (tm.year + 1900)) (pos 1) (omega arith) refl (omega arith) refl
      ∙ one_less (tm.year + 1900) (omega arith))
  | inr late ↦ rw late refl
]

-- The ints of `days_of` keep what they are given.
days_of_whole :
    (tm : Tm)
    → tm.year < 5000000
    → 1 ≤ tm.mday
    → tm.mday ≤ 31
    → days_of tm
      ≡ add_months tm.mon (
          times (pos (tm.year + 1900) -ℤ pos 1970) 365
          +ℤ (pos (leap_days (march_year tm)) -ℤ pos (leap_days 1970)))
        +ℤ (pos tm.mday -ℤ pos 1)
unfolding days_of
days_of_whole tm small hd hd' =
    let full = pos (tm.year + 1900) in
    let y = full -ℤ pos 1970 in
    let e1 : to_int full ≡ full = to_int_fits full (omega arith) (omega arith) in
    let e2 : to_int y ≡ y = kept full (pos 1970) (omega arith) refl (omega arith) refl in
    let in_y = -ℤ_in full (pos 1970) in
    let in_t = times_in y 365 in
    let e3 : to_int (times y 365) ≡ times y 365 =
      to_int_fits (times y 365) (omega (arith, in_t, in_y, small)) (omega (arith, in_t, in_y)) in
    let e4 =
      kept (pos (leap_days (march_year tm))) (pos (leap_days 1970)) (ground (arith, small)) refl
        (omega arith) refl in
    let e5 : to_int (pos tm.mday -ℤ pos 1) ≡ pos tm.mday -ℤ pos 1 =
      kept (pos tm.mday) (pos 1) (omega arith) refl (omega arith) refl in
    rw (e1, e2, e3, leap_year_is tm small, leaps_to-pos (march_year tm), leaps_to-pos 1970, e4, e5)
      refl

days_of_parts :
    (tm : Tm)
    → tm.year < 5000000
    → 1 ≤ tm.mday
    → tm.mday ≤ 31
    → Diff
        (days_of tm)
        (365 * (tm.year + 1900) + leap_days (march_year tm) + months_before tm.mon + (tm.mday - 1))
        (365 * 1970 + leap_days 1970)
days_of_parts tm small h h' =
    let y = pos (tm.year + 1900) -ℤ pos 1970 in
    let l = pos (leap_days (march_year tm)) -ℤ pos (leap_days 1970) in
    let m = add_months tm.mon (times y 365 +ℤ l) in
    let d = pos tm.mday -ℤ pos 1 in
    rw (days_of_whole tm small h h') (
      omega (
        arith,
        -ℤ_parts (pos (tm.year + 1900)) (pos 1970),
        times_parts y 365,
        -ℤ_parts (pos (leap_days (march_year tm))) (pos (leap_days 1970)),
        +ℤ_parts (times y 365) l,
        add_months_lem tm.mon (times y 365 +ℤ l),
        -ℤ_parts (pos tm.mday) (pos 1),
        +ℤ_parts m d,
      ))

months_march :
    (mon : ℕ)
    → mon < 12
    → months_before mon + (if ltb mon 2 then 365 else 0) ≡ 59 + march_start (march_month mon)
months_march zero h = refl
months_march (suc zero) h = refl
months_march (suc (suc zero)) h = refl
months_march (suc (suc (suc zero))) h = refl
months_march (suc (suc (suc (suc zero)))) h = refl
months_march (suc (suc (suc (suc (suc zero))))) h = refl
months_march (suc (suc (suc (suc (suc (suc zero)))))) h = refl
months_march (suc (suc (suc (suc (suc (suc (suc zero))))))) h = refl
months_march (suc (suc (suc (suc (suc (suc (suc (suc zero)))))))) h = refl
months_march (suc (suc (suc (suc (suc (suc (suc (suc (suc zero))))))))) h = refl
months_march (suc (suc (suc (suc (suc (suc (suc (suc (suc (suc zero)))))))))) h = refl
months_march (suc (suc (suc (suc (suc (suc (suc (suc (suc (suc (suc zero))))))))))) h = refl
months_march (suc (suc (suc (suc (suc (suc (suc (suc (suc (suc (suc (suc mon)))))))))))) h =
    absurd (omega arith)

-- `tm2tv` counts the days from March 2000, and those of the epoch.
pub days_of_lem :
    (tm : Tm)
    → tm.year < 5000000
    → tm.mon < 12
    → 1 ≤ tm.mday
    → tm.mday ≤ 31
    → Diff (days_of tm) (march_days tm) 719468
days_of_lem tm small hm hd hd' = elim (Bool-cases (ltb tm.mon 2)) [
  | inl early ↦ ground (arith, early, months_march tm.mon hm, days_of_parts tm small hd hd')
  | inr late ↦ ground (arith, late, months_march tm.mon hm, days_of_parts tm small hd hd')
]
