-- ===== src/Time/Int.antt =====
-- The int and time_t arithmetic of the calendar: sums, products and C's division, which rounds
-- towards zero.
use minibase.Base.{ℕ, suc, ◌+◌, ◌-◌, ◌*◌, ◌/◌, ◌%◌, ◌^◌, ◌≤◌, ◌<◌, ◌≡◌, arith, ltb, if◌then◌else◌}
use minibase.Base.Int.{ℤ, pos, negsuc, sub_ℕ, signed32}

abbrev pub pos_part : ℤ → ℕ
pos_part (pos n) = n
pos_part (negsuc n) = 0

abbrev pub neg_part : ℤ → ℕ
neg_part (pos n) = 0
neg_part (negsuc n) = suc n

infixl 65 ◌+ℤ◌ ◌-ℤ◌
unfoldable pub ◌+ℤ◌ : ℤ → ℤ → ℤ
a +ℤ b = sub_ℕ (pos_part a + pos_part b) (neg_part a + neg_part b)

unfoldable pub ◌-ℤ◌ : ℤ → ℤ → ℤ
a -ℤ b = sub_ℕ (pos_part a + neg_part b) (neg_part a + pos_part b)

-- a * n
unfoldable pub times : ℤ → ℕ → ℤ
times a n = sub_ℕ (pos_part a * n) (neg_part a * n)

-- a / n and a % n
unfoldable pub quot : ℤ → ℕ → ℤ
quot a n = sub_ℕ (pos_part a / n) (neg_part a / n)

unfoldable pub rem : ℤ → ℕ → ℤ
rem a n = sub_ℕ (pos_part a % n) (neg_part a % n)

-- What an int keeps of a number: the lowest 32 bits, read with their sign.
unfoldable pub to_int : ℤ → ℤ
to_int (pos n) = signed32 (n % 2 ^ 32)
to_int (negsuc n) = signed32 (2 ^ 32 - 1 - n % 2 ^ 32)

-- What a time_t keeps, which has 64 bits.
unfoldable pub to_time : ℤ → ℤ
to_time (pos n) = sub_ℕ (n % 2 ^ 64) (if ltb (n % 2 ^ 64) (2 ^ 63) then 0 else 2 ^ 64)
to_time (negsuc n) =
    let w = 2 ^ 64 - 1 - n % 2 ^ 64 in sub_ℕ w (if ltb w (2 ^ 63) then 0 else 2 ^ 64)

-- A number that fits is kept.
pub to_int_fits : (a : ℤ) → pos_part a < 2 ^ 31 → neg_part a < 2 ^ 31 → to_int a ≡ a
unfolding to_int
to_int_fits (pos n) h k = ground arith
to_int_fits (negsuc n) h k = ground arith

pub to_time_fits : (a : ℤ) → pos_part a < 2 ^ 63 → neg_part a < 2 ^ 63 → to_time a ≡ a
unfolding to_time
to_time_fits (pos n) h k = ground arith
to_time_fits (negsuc n) h k = ground arith

pub +ℤ_parts :
    (a b : ℤ)
    → pos_part (a +ℤ b) + neg_part a + neg_part b ≡ neg_part (a +ℤ b) + pos_part a + pos_part b
unfolding ◌+ℤ◌
+ℤ_parts a b = ground arith

pub -ℤ_parts :
    (a b : ℤ)
    → pos_part (a -ℤ b) + neg_part a + pos_part b ≡ neg_part (a -ℤ b) + pos_part a + neg_part b
unfolding ◌-ℤ◌
-ℤ_parts a b = ground arith

pub times_parts :
    (a : ℤ) (n : ℕ) → pos_part (times a n) + neg_part a * n ≡ neg_part (times a n) + pos_part a * n
unfolding times
times_parts a n = ground arith

pub eq_of_parts : (a b : ℤ) → pos_part a + neg_part b ≡ pos_part b + neg_part a → a ≡ b
eq_of_parts a b h = ground arith

-- How far sums and products reach.
pub +ℤ_in :
    (a b : ℤ)
    → (pos_part (a +ℤ b) ≤ pos_part a + pos_part b) × (neg_part (a +ℤ b) ≤ neg_part a + neg_part b)
unfolding ◌+ℤ◌
+ℤ_in a b = (ground arith, ground arith)

pub -ℤ_in :
    (a b : ℤ)
    → (pos_part (a -ℤ b) ≤ pos_part a + neg_part b) × (neg_part (a -ℤ b) ≤ neg_part a + pos_part b)
unfolding ◌-ℤ◌
-ℤ_in a b = (ground arith, ground arith)

pub times_in :
    (a : ℤ) (n : ℕ)
    → (pos_part (times a n) ≤ pos_part a * n) × (neg_part (times a n) ≤ neg_part a * n)
unfolding times
times_in a n = (ground arith, ground arith)
