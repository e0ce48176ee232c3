-- ===== src/Format/Number/Hexadecimal.antt =====
-- The hexadecimal text of a number: its value, its digits, and no zero in front.
use minibase.Base.{
  ℕ, zero, suc, ◌+◌, ◌-◌, ◌*◌, ◌/◌, ◌%◌, ◌^◌, ◌≤◌, ◌<◌, ◌≡◌, ◌≢◌, ◌⊎◌, inl, inr, refl, sym, ap, ◌∙◌,
  Bool, true, false, ◌&&◌, ◌||◌, leb, ◌==◌, ==_iff, [], ◌∷◌, ◌++◌, arith, Bytes, length, deref,
  failures, no_failures, if◌then◌else◌,
}
use native.Mathlib.Nat.{pow-suc, pow-zero}
use minibase.Base.Memory.{Memory}
use minibase.Format.Put.{put}
use minibase.Format.Write.{hex_digit}
use minibase.Format.Number.{max_digits, count_digits, fmthex}
use minibase.Format.Number.Digits.{digits, length-digits, div-lt_pow, count_digits-Counts}
use minibase.Format.Number.Canonical.{deref-append}
use minibase.Format.Number.Sound.{hexadecimal, fmthex-put}

-- 0 to 9 or A to F
abbrev pub is_hex : ℕ → Bool
is_hex c = (leb b'0' c && leb c b'9') || (leb b'A' c && leb c b'F')

abbrev pub digit_of : ℕ → ℕ
digit_of c = if leb c b'9' then c - b'0' else c - b'A' + 10

abbrev pub AllHex : Bytes → Type 0
AllHex [] = Unit {0}
AllHex (c ∷ cs) = (is_hex c ≡ true) × AllHex cs

-- the number that digits spell behind `n`
abbrev pub hex_value : ℕ → Bytes → ℕ
hex_value n [] = n
hex_value n (c ∷ cs) = hex_value (n * 16 + digit_of c) cs

-- `cs` is the hexadecimal text of `n`.
pub record IsHexadecimal (n : ℕ) (cs : Bytes) : Type 0 where
  pub all_digits : AllHex cs
  pub spells : hex_value 0 cs ≡ n
  pub no_zero_first : (length cs ≡ 1) ⊎ (deref cs ≢ b'0')
  pub nonempty : 0 < length cs

digit_table : failures (λ d. is_hex (hex_digit d) && (digit_of (hex_digit d) == d)) 16 ≡ 0
unfolding failures
digit_table = refl

both : (a b : Bool) → (a && b) ≡ true → (a ≡ true) × (b ≡ true)
both true true h = (refl, refl)
both true false h = cc
both false b h = cc

hex_digit_lem : (d : ℕ) → d < 16 → (is_hex (hex_digit d) ≡ true) × (digit_of (hex_digit d) ≡ d)
hex_digit_lem d h =
    let (shown, read) =
      both (is_hex (hex_digit d)) (digit_of (hex_digit d) == d) (
        no_failures (λ d. is_hex (hex_digit d) && (digit_of (hex_digit d) == d)) 16 digit_table
          h) in
    (shown, (==_iff (digit_of (hex_digit d)) d).0 read)

AllHex-concat : (cs : Bytes) (c : ℕ) → AllHex cs → is_hex c ≡ true → AllHex (cs ++ c ∷ [])
AllHex-concat [] c h k = (k, tt)
AllHex-concat (x ∷ cs) c h k = (h.0, AllHex-concat cs c h.1 k)

hex_value-concat :
    (n : ℕ) (cs : Bytes) (c : ℕ) → hex_value n (cs ++ c ∷ []) ≡ hex_value n cs * 16 + digit_of c
hex_value-concat n [] c = refl
hex_value-concat n (x ∷ cs) c = hex_value-concat (n * 16 + digit_of x) cs c

digits-AllHex : (k n : ℕ) → AllHex (digits 16 hex_digit k n)
digits-AllHex zero n = tt
digits-AllHex (suc k) n =
    AllHex-concat (digits 16 hex_digit k (n / 16)) (hex_digit (n % 16)) (digits-AllHex k (n / 16))
      (hex_digit_lem (n % 16) (omega arith)).0

hex_value-digits : (k n : ℕ) → n < 16 ^ k → hex_value 0 (digits 16 hex_digit k n) ≡ n
hex_value-digits zero n h = omega (arith, pow-zero 16)
hex_value-digits (suc k) n h =
    hex_value-concat 0 (digits 16 hex_digit k (n / 16)) (hex_digit (n % 16))
    ∙ omega (
      arith,
      (hex_digit_lem (n % 16) (omega arith)).1,
      hex_value-digits k (n / 16) (div-lt_pow n 16 k (omega arith) h),
    )

lead-digits : (k n : ℕ) → 16 ^ k ≤ n → n < 16 ^ suc k → deref (digits 16 hex_digit (suc k) n) ≢ b'0'
lead-digits zero n h l e =
    let digit : digit_of (hex_digit (n % 16)) ≡ 0 = ap digit_of e in
    omega (arith, pow-zero 16, pow-suc 16 0, (hex_digit_lem (n % 16) (omega arith)).1, digit)
lead-digits (suc k) n h l e =
    lead-digits k (n / 16) (omega (arith, pow-suc 16 k)) (div-lt_pow n 16 (suc k) (omega arith) l) (
      sym (
        deref-append (digits 16 hex_digit (suc k) (n / 16)) (hex_digit (n % 16) ∷ [])
          (omega (arith, length-digits 16 hex_digit (suc k) (n / 16))))
      ∙ e)

digits-IsHexadecimal :
    (k n : ℕ)
    → n < 16 ^ suc k
    → (k ≡ 0) ⊎ (16 ^ k ≤ n)
    → IsHexadecimal n (digits 16 hex_digit (suc k) n)
digits-IsHexadecimal k n h t = record {
  all_digits = digits-AllHex (suc k) n;
  spells = hex_value-digits (suc k) n h;
  no_zero_first = first t;
  nonempty = omega (arith, length-digits 16 hex_digit (suc k) n);
}
  where
    first :
        (k ≡ 0) ⊎ (16 ^ k ≤ n)
        → (length (digits 16 hex_digit (suc k) n) ≡ 1)
          ⊎ (deref (digits 16 hex_digit (suc k) n) ≢ b'0')
    first (inl e) = inl (omega (arith, length-digits 16 hex_digit (suc k) n))
    first (inr l) = inr (lead-digits k n l h)

hexadecimal-IsHexadecimal : (n : ℕ) → n < 2 ^ 64 → IsHexadecimal n (hexadecimal n)
unfolding hexadecimal
hexadecimal-IsHexadecimal n h =
    let c = count_digits-Counts 16 max_digits n 1 (omega arith) (omega arith) in
    let counted : count_digits 16 max_digits n 1 ≡ suc c.more = omega (arith, c.total) in
    rw counted (digits-IsHexadecimal c.more n c.covers c.tight)

-- There is a hexadecimal text of the number, in digits and capital letters with no zero in front, that
-- `fmthex` writes cut off at `end`, and whose end it returns whether it fitted or not. The number
-- has 32 bits.
pub fmthex-IsHexadecimal :
    (m : Memory) (buf end num : ℕ)
    → num < 2 ^ 32
    → (text : Bytes) × IsHexadecimal num text
      × ((fmthex m buf end num).mem ≡ (put m buf end text).mem)
      × ((fmthex m buf end num).ptr ≡ buf + length text)
fmthex-IsHexadecimal m buf end num h =
    let (written, returned) = fmthex-put m buf end num in
    (hexadecimal num, hexadecimal-IsHexadecimal num (omega arith), written, returned)
