-- ===== src/Time/Back.antt =====
-- What `tv2tm` divides off, from the parts that the day number is made of.
use minibase.Base.{
  ℕ, zero, suc, ◌+◌, ◌-◌, ◌*◌, ◌/◌, ◌%◌, ◌^◌, ◌≤◌, ◌<◌, ◌≡◌, refl, sym, ap, ◌∙◌, Bool, true, not,
  ◌&&◌, ◌||◌, arith, ◌==◌, get_or, if◌then◌else◌,
}
use minibase.Base.Int.{ℤ, pos, negsuc, is_neg}
use minibase.Time.Int.{pos_part, neg_part, ◌+ℤ◌, ◌-ℤ◌, quot, rem, to_int, to_int_fits, -ℤ_in}
use minibase.Time.{
  floored, days_per_400y, days_per_100y, days_per_4y, capped, year_day, find_month, march_mdays,
}

-- z = a - b
abbrev pub Diff : ℤ → ℕ → ℕ → Type 0
Diff z a b = pos_part z + b ≡ neg_part z + a

pub pos_part-Diff : (z : ℤ) {a b : ℕ} → Diff z a b → (pos_part z ≤ a) × (neg_part z ≤ b)
pos_part-Diff (pos n) h = (omega (arith, h), omega arith)
pos_part-Diff (negsuc n) h = (omega arith, omega (arith, h))

-- z = q * n + r, where r is below n
abbrev pub Floor : ℤ → ℕ → ℤ × ℕ → Type 0
Floor z n (q, r) = (pos_part z + neg_part q * n ≡ neg_part z + pos_part q * n + r) × (r < n)

-- what `floored` gives where no int wraps
unwrapped : ℤ → ℕ → ℤ × ℕ
unwrapped a n =
    if is_neg (rem a n)
    then (quot a n -ℤ pos 1, pos_part (rem a n +ℤ pos n))
    else (quot a n, pos_part (rem a n))

-- The quotient and the one below it fit in an int.
pub record Fits (a : ℤ) (n : ℕ) : Type 0 where
  pub above : pos_part a / n < 2 ^ 31
  pub below : neg_part a / n + 1 < 2 ^ 31

quot_in :
    (a : ℤ) (n : ℕ)
    → (pos_part (quot a n) ≤ pos_part a / n) × (neg_part (quot a n) ≤ neg_part a / n)
unfolding quot
quot_in (pos k) n = (ground arith, ground arith)
quot_in (negsuc k) n = (ground arith, ground arith)

floored-unwrapped : (a : ℤ) (n : ℕ) → Fits a n → floored a n ≡ unwrapped a n
unfolding floored unwrapped
floored-unwrapped a n f =
    let (hi, lo) = quot_in a n in
    let less = -ℤ_in (quot a n) (pos 1) in
    let e : to_int (quot a n) ≡ quot a n =
      to_int_fits (quot a n) (omega (arith, f.above, hi)) (omega (arith, f.below, lo)) in
    let e' : to_int (quot a n -ℤ pos 1) ≡ quot a n -ℤ pos 1 =
      to_int_fits (quot a n -ℤ pos 1) (omega (arith, less, f.above, hi))
        (omega (arith, less, f.below, lo)) in
    rw (e, e') refl

unwrapped_day : (z : ℤ) → Floor z 86400 (unwrapped z 86400)
unfolding unwrapped quot rem ◌+ℤ◌ ◌-ℤ◌
unwrapped_day (pos n) = ground arith
unwrapped_day (negsuc n) = ground arith

unwrapped_400y : (z : ℤ) → Floor z days_per_400y (unwrapped z days_per_400y)
unfolding unwrapped quot rem ◌+ℤ◌ ◌-ℤ◌
unwrapped_400y (pos n) = ground arith
unwrapped_400y (negsuc n) = ground arith

pub floored_day : (z : ℤ) → Fits z 86400 → Floor z 86400 (floored z 86400)
floored_day z f = rw (floored-unwrapped z 86400 f) (unwrapped_day z)

pub floored_400y : (z : ℤ) → Fits z days_per_400y → Floor z days_per_400y (floored z days_per_400y)
floored_400y z f = rw (floored-unwrapped z days_per_400y f) (unwrapped_400y z)

-- The year that starts in March is one with a leap day at its end.
abbrev pub long_year : ℕ → Bool
long_year b = (b + 1) % 4 == 0 && (not ((b + 1) % 100 == 0) || (b + 1) % 400 == 0)

abbrev pub year_length : ℕ → ℕ
year_length b = if long_year b then 366 else 365

century :
    (c e d : ℕ)
    → c < 4
    → e < 100
    → d < year_length (100 * c + e)
    → capped (36524 * c + (365 * e + e / 4 + d)) days_per_100y 4 ≡ c
century c e d hc he hd = ground arith

four_years :
    (q f d : ℕ)
    → q < 25
    → f < 4
    → d < 366
    → (d ≡ 365 → f ≡ 3)
    → capped (1461 * q + (365 * f + d)) days_per_4y 25 ≡ q
four_years q f d hq hf hd last = ground arith

one_year : (f d : ℕ) → f < 4 → d < 366 → (d ≡ 365 → f ≡ 3) → capped (365 * f + d) 365 4 ≡ f
one_year f d hf hd last = ground arith

year_parts :
    (b : ℕ)
    → b < 400
    → 365 * b + b / 4 - b / 100 ≡ 36524 * (b / 100) + (365 * (b % 100) + b % 100 / 4)
year_parts b h = ground arith

four_parts : (e : ℕ) → e < 100 → 365 * e + e / 4 ≡ 1461 * (e / 4) + 365 * (e % 4)
four_parts e h = ground arith

long_last : (b : ℕ) → b < 400 → long_year b ≡ true → b % 100 % 4 ≡ 3
long_last b h long = ground arith

year_day_of :
    (days nc nq year : ℕ)
    → capped days days_per_100y 4 ≡ nc
    → capped (days - nc * days_per_100y) days_per_4y 25 ≡ nq
    → capped (days - nc * days_per_100y - nq * days_per_4y) 365 4 ≡ year
    → year_day days ≡ record {
      nc = nc;
      nq = nq;
      year = year;
      days = days - nc * days_per_100y - nq * days_per_4y - year * 365;
    }
unfolding year_day
year_day_of days nc nq year hc hq hy = rw (hc, hq, hy) refl

-- Of the days of 400 years, the year and the day of it are found.
pub year_day_lem :
    (b d : ℕ)
    → b < 400
    → d < year_length b
    → year_day (365 * b + b / 4 - b / 100 + d)
      ≡ record { nc = b / 100; nq = b % 100 / 4; year = b % 100 % 4; days = d }
year_day_lem b d hb hd =
    let c = b / 100 in
    let e = b % 100 in
    let q = e / 4 in
    let f = e % 4 in
    let short : d < 366 = ground arith in
    let last : d ≡ 365 → f ≡ 3 = λ h. long_last b hb (ground arith) in
    let all : 36524 * c + (365 * e + e / 4 + d) ≡ 365 * b + b / 4 - b / 100 + d =
      omega (arith, year_parts b hb) in
    let split : 100 * c + e ≡ b = ground arith in
    let days = 365 * b + b / 4 - b / 100 + d in
    let hd' : d < year_length (100 * c + e) = rw split hd in
    let nc : capped days days_per_100y 4 ≡ c =
      ap (λ n. capped n days_per_100y 4) (sym all)
      ∙ century c e d (omega arith) (omega arith) hd' in
    let four : 1461 * q + (365 * f + d) ≡ days - c * days_per_100y =
      omega (arith, four_parts e (omega arith), all) in
    let nq : capped (days - c * days_per_100y) days_per_4y 25 ≡ q =
      ap (λ n. capped n days_per_4y 25) (sym four)
      ∙ four_years q f d (omega arith) (omega arith) short last in
    let one : 365 * f + d ≡ days - c * days_per_100y - q * days_per_4y = omega (arith, four) in
    let year : capped (days - c * days_per_100y - q * days_per_4y) 365 4 ≡ f =
      ap (λ n. capped n 365 4) (sym one) ∙ one_year f d (omega arith) short last in
    year_day_of days c q f nc nq year
    ∙ ap (λ n. record { nc = c; nq = q; year = f; days = n }) (omega (arith, one))

-- the days of the year that starts in March before its month
abbrev pub march_start : ℕ → ℕ
march_start zero = 0
march_start (suc m) = march_start m + get_or march_mdays m 0

-- The loop finds the month of a day of the year.
pub find_month_lem :
    (m k : ℕ)
    → m < 12
    → k < get_or march_mdays m 0
    → find_month march_mdays 0 (march_start m + k) ≡ (m, k)
unfolding find_month
find_month_lem zero k hm hk = ground arith
find_month_lem (suc zero) k hm hk = ground arith
find_month_lem (suc (suc zero)) k hm hk = ground arith
find_month_lem (suc (suc (suc zero))) k hm hk = ground arith
find_month_lem (suc (suc (suc (suc zero)))) k hm hk = ground arith
find_month_lem (suc (suc (suc (suc (suc zero))))) k hm hk = ground arith
find_month_lem (suc (suc (suc (suc (suc (suc zero)))))) k hm hk = ground arith
find_month_lem (suc (suc (suc (suc (suc (suc (suc zero))))))) k hm hk = ground arith
find_month_lem (suc (suc (suc (suc (suc (suc (suc (suc zero)))))))) k hm hk = ground arith
find_month_lem (suc (suc (suc (suc (suc (suc (suc (suc (suc zero))))))))) k hm hk = ground arith
find_month_lem (suc (suc (suc (suc (suc (suc (suc (suc (suc (suc zero)))))))))) k hm hk =
    ground arith
find_month_lem (suc (suc (suc (suc (suc (suc (suc (suc (suc (suc (suc zero))))))))))) k hm hk =
    ground arith
find_month_lem (suc (suc (suc (suc (suc (suc (suc (suc (suc (suc (suc (suc m)))))))))))) k hm hk =
    absurd (omega arith)
