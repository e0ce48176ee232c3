-- ===== src/Format/Number/Digits.antt =====
-- Numbers as texts in a base, and the digit count of the formatters.
use minibase.Base.{
  ℕ, zero, suc, ◌+◌, ◌/◌, ◌%◌, ◌^◌, ◌≤◌, ◌<◌, ◌≡◌, refl, [], ◌∷◌, ◌++◌, arith, ltb, ltb→lt, ltb→le,
  Bool-cases, inl, inr, ◌⊎◌, Bytes, length, length-append,
}
use native.Mathlib.Nat.{pow-suc, pow-zero, div-lt_iff_lt-mul}
use minibase.Format.Number.{count_digits}

-- the last `k` digits of `n` in the base, most significant first, as `glyph` writes them
abbrev pub digits : ℕ → (ℕ → ℕ) → ℕ → ℕ → Bytes
digits base glyph zero n = []
digits base glyph (suc k) n = digits base glyph k (n / base) ++ glyph (n % base) ∷ []

pub length-digits : (base : ℕ) (glyph : ℕ → ℕ) (k n : ℕ) → length (digits base glyph k n) ≡ k
length-digits base glyph zero n = refl
length-digits base glyph (suc k) n = omega (
  arith,
  length-append (digits base glyph k (n / base)) (glyph (n % base) ∷ []),
  length-digits base glyph k (n / base),
)

pub div-lt_pow : (n base f : ℕ) → 1 < base → n < base ^ suc f → n / base < base ^ f
div-lt_pow n base f h k = (div-lt_iff_lt-mul (omega arith)).1 (rw (pow-suc base f) at k)

lt_pow : (n base f : ℕ) → 1 < base → n / base < base ^ f → n < base ^ suc f
lt_pow n base f h k = rw (pow-suc base f) ((div-lt_iff_lt-mul (omega arith)).0 k)

le_pow : (n base f : ℕ) → 1 < base → base ^ f ≤ n / base → base ^ suc f ≤ n
le_pow n base f h k = rw (pow-suc base f) (grind (arith))

-- The count stops at the first power of the base above the number.
pub record Counts (base n len r : ℕ) : Type 0 where
  pub more : ℕ
  pub total : r ≡ len + more
  pub covers : n < base ^ suc more
  pub tight : (more ≡ 0) ⊎ (base ^ more ≤ n)

pow_one : (base : ℕ) → base ^ 1 ≡ base
pow_one base = rw (pow-suc base 0, pow-zero base) (omega arith)

one-le-div : (n base : ℕ) → 1 < base → base ≤ n → 1 ≤ n / base
one-le-div n base h k = grind (arith)

tight_step :
    (base n more : ℕ)
    → 1 < base
    → base ≤ n
    → (more ≡ 0) ⊎ (base ^ more ≤ n / base)
    → base ^ suc more ≤ n
tight_step base n more hb ge (inl e) = rw (e, pow_one base) ge
tight_step base n more hb ge (inr h) = le_pow n base more hb h

pub count_digits-Counts :
    (base fuel n len : ℕ)
    → 1 < base
    → n < base ^ suc fuel
    → Counts base n len (count_digits base fuel n len)
unfolding count_digits
count_digits-Counts base zero n len hb h = record {
  more = 0;
  total = omega arith;
  covers = h;
  tight = inl refl;
}
count_digits-Counts base (suc fuel) n len hb h = elim (Bool-cases (ltb n base)) [
  | inl lt ↦ rw lt (record {
    more = 0;
    total = omega arith;
    covers = rw (pow_one base) (ltb→lt n base lt);
    tight = inl refl;
  })
  | inr ge ↦ rw ge (
      let c =
        count_digits-Counts base fuel (n / base) (len + 1) hb (div-lt_pow n base (suc fuel) hb h) in
      record {
        more = suc c.more;
        total = omega (arith, c.total);
        covers = lt_pow n base (suc c.more) hb c.covers;
        tight = inr (tight_step base n c.more hb (ltb→le n base ge) c.tight);
      })
]
