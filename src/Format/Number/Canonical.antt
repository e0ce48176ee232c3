-- ===== src/Format/Number/Canonical.antt =====
-- The decimal text of a number: its value, its digits, and no zero in front.
use minibase.Base.{
  ℕ, zero, suc, ◌+◌, ◌-◌, ◌*◌, ◌/◌, ◌%◌, ◌^◌, ◌≤◌, ◌<◌, ◌≡◌, ◌≢◌, ◌⊎◌, inl, inr, refl, [], ◌∷◌,
  ◌++◌, arith, Bytes, length, deref,
}
use native.Mathlib.Nat.{pow-suc, pow-zero}
use minibase.Format.Number.{max_digits, count_digits}
use minibase.Format.Number.Digits.{digits, length-digits, div-lt_pow, count_digits-Counts}
use minibase.Format.Number.Sound.{dec_digit, decimal}

abbrev pub IsDigit : ℕ → Type 0
IsDigit c = (b'0' ≤ c) × (c ≤ b'9')

abbrev pub AllDigits : Bytes → Type 0
AllDigits [] = Unit {0}
AllDigits (c ∷ cs) = IsDigit c × AllDigits cs

-- the number that digits spell behind `n`, with no bound
abbrev pub value : ℕ → Bytes → ℕ
value n [] = n
value n (c ∷ cs) = value (n * 10 + (c - b'0')) cs

-- `cs` is the decimal text of `n`.
pub record IsDecimal (n : ℕ) (cs : Bytes) : Type 0 where
  pub all_digits : AllDigits cs
  pub spells : value 0 cs ≡ n
  pub no_zero_first : (length cs ≡ 1) ⊎ (deref cs ≢ b'0')
  pub nonempty : 0 < length cs

AllDigits-concat : (cs : Bytes) (c : ℕ) → AllDigits cs → IsDigit c → AllDigits (cs ++ c ∷ [])
AllDigits-concat [] c h k = (k, tt)
AllDigits-concat (x ∷ cs) c h k = (h.0, AllDigits-concat cs c h.1 k)

pub value-concat :
    (n : ℕ) (cs : Bytes) (c : ℕ) → value n (cs ++ c ∷ []) ≡ value n cs * 10 + (c - b'0')
value-concat n [] c = refl
value-concat n (x ∷ cs) c = value-concat (n * 10 + (x - b'0')) cs c

pub digits-AllDigits : (k n : ℕ) → AllDigits (digits 10 dec_digit k n)
digits-AllDigits zero n = tt
digits-AllDigits (suc k) n =
    AllDigits-concat (digits 10 dec_digit k (n / 10)) (dec_digit (n % 10))
      (digits-AllDigits k (n / 10)) (omega arith)

pub value-digits : (k n : ℕ) → n < 10 ^ k → value 0 (digits 10 dec_digit k n) ≡ n
value-digits zero n h = omega (arith, pow-zero 10)
value-digits (suc k) n h = omega (
  arith,
  value-concat 0 (digits 10 dec_digit k (n / 10)) (dec_digit (n % 10)),
  value-digits k (n / 10) (div-lt_pow n 10 k (omega arith) h),
)

pub deref-append : (xs ys : Bytes) → 0 < length xs → deref (xs ++ ys) ≡ deref xs
deref-append [] ys h = absurd (omega arith)
deref-append (x ∷ xs) ys h = refl

ten_pow : (k : ℕ) → 10 ^ suc k ≡ 10 ^ k * 10
ten_pow k = pow-suc 10 k

lead-digits : (k n : ℕ) → 10 ^ k ≤ n → n < 10 ^ suc k → deref (digits 10 dec_digit (suc k) n) ≢ b'0'
lead-digits zero n h l e = omega (arith, pow-zero 10, ten_pow 0)
lead-digits (suc k) n h l e =
    lead-digits k (n / 10) (omega (arith, ten_pow k)) (div-lt_pow n 10 (suc k) (omega arith) l) (
      omega (
        arith,
        deref-append (digits 10 dec_digit (suc k) (n / 10)) (dec_digit (n % 10) ∷ [])
            (omega (arith, length-digits 10 dec_digit (suc k) (n / 10))),
      ))

digits-IsDecimal :
    (k n : ℕ)
    → n < 10 ^ suc k
    → (k ≡ 0) ⊎ (10 ^ k ≤ n)
    → IsDecimal n (digits 10 dec_digit (suc k) n)
digits-IsDecimal k n h t = record {
  all_digits = digits-AllDigits (suc k) n;
  spells = value-digits (suc k) n h;
  no_zero_first = first t;
  nonempty = omega (arith, length-digits 10 dec_digit (suc k) n);
}
  where
    first :
        (k ≡ 0) ⊎ (10 ^ k ≤ n)
        → (length (digits 10 dec_digit (suc k) n) ≡ 1)
          ⊎ (deref (digits 10 dec_digit (suc k) n) ≢ b'0')
    first (inl e) = inl (omega (arith, length-digits 10 dec_digit (suc k) n))
    first (inr l) = inr (lead-digits k n l h)

-- The formatter's text of a 64-bit number is its decimal text.
pub decimal-IsDecimal : (n : ℕ) → n < 2 ^ 64 → IsDecimal n (decimal n)
unfolding decimal
decimal-IsDecimal n h =
    let c = count_digits-Counts 10 max_digits n 1 (omega arith) (omega arith) in
    let counted : count_digits 10 max_digits n 1 ≡ suc c.more = omega (arith, c.total) in
    rw counted (digits-IsDecimal c.more n c.covers c.tight)
