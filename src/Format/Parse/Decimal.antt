-- ===== src/Format/Parse/Decimal.antt =====
-- The decimal parsers against the longest run of digits in front of the text.
use native.Mathlib.Nat.{add-mul-mod_self_left, div-add-mod, mod-eq_of_lt, mod-mod, mod-lt}
use minibase.Base.{
  ℕ, ◌+◌, ◌-◌, ◌*◌, ◌/◌, ◌%◌, ◌^◌, ◌<◌, ◌≡◌, refl, sym, ap, ◌∙◌, Bool, true, false, Option, none,
  some, [], ◌∷◌, ◌++◌, arith, ◌==◌, if◌then◌else◌, Bool-cases, inl, inr, Bytes, length, deref,
  if_same,
}
use minibase.Format.Number.Canonical.{AllDigits, value, IsDecimal}
use minibase.Format.Parse.{
  Parsed, in_range, scan, unless_empty, parseint, parseuint, parselong, parseulong, parseu64,
}

abbrev pub is_digit : ℕ → Bool
is_digit = in_range b'0' 10

-- the longest run of digits in front, and what follows it
abbrev pub take_digits : Bytes → Bytes
take_digits [] = []
take_digits (c ∷ cs) = if is_digit c then c ∷ take_digits cs else []

abbrev pub drop_digits : Bytes → Bytes
drop_digits [] = []
drop_digits (c ∷ cs) = if is_digit c then drop_digits cs else c ∷ cs

abbrev parsed_prefix : ℕ → Bytes → Bytes → Option Parsed
parsed_prefix modulus [] rest = none
parsed_prefix modulus (d ∷ ds) rest =
    some (record { value = value 0 (d ∷ ds) % modulus; rest = rest })

-- NULL if no digit stands in front, else the number that the digits spell, cut to the word.
unfoldable pub decimal_prefix : ℕ → Bytes → Option Parsed
decimal_prefix modulus s = parsed_prefix modulus (take_digits s) (drop_digits s)

mod_step : (n m b d : ℕ) → (n % m * b + d) % m ≡ (n * b + d) % m
mod_step n m b d = sym (
    ap (λ k. k % m)
      (let e : n * b + d ≡ n % m * b + d + m * (n / m * b) = grind (arith, div-add-mod n m) in e)
    ∙ add-mul-mod_self_left (n % m * b + d) m (n / m * b))

value-mod : (n m : ℕ) (cs : Bytes) → value (n % m) cs % m ≡ value n cs % m
value-mod n m [] = mod-mod n m
value-mod n m (c ∷ cs) =
    sym (value-mod (n % m * 10 + (c - b'0')) m cs)
    ∙ ap (λ k. value k cs % m) (mod_step n m 10 (c - b'0'))
    ∙ value-mod (n * 10 + (c - b'0')) m cs

scan_prefix :
    (m n : ℕ) (s : Bytes)
    → n < m
    → scan m 10 s n ≡ record { value = value n (take_digits s) % m; rest = drop_digits s }
unfolding scan
scan_prefix m n [] h = ap (λ k. record { value = k; rest = [] }) (sym (mod-eq_of_lt h))
scan_prefix m n (c ∷ cs) h = elim (Bool-cases (is_digit c)) [
  | inl digit ↦
      let nonzero : (c == 0) ≡ false = ground arith in
      rw (digit, nonzero)
        (scan_prefix m ((n * 10 + (c - b'0')) % m) cs (mod-lt (n * 10 + (c - b'0')) (omega arith))
          ∙ ap (λ k. record { value = k; rest = drop_digits cs })
              (value-mod (n * 10 + (c - b'0')) m (take_digits cs)))
  | inr other ↦ rw other (
      if_same (c == 0) (record { value = n; rest = c ∷ cs })
      ∙ ap (λ k. record { value = k; rest = c ∷ cs }) (sym (mod-eq_of_lt h)))
]

length-span : (s : Bytes) → length (take_digits s) + length (drop_digits s) ≡ length s
length-span [] = omega arith
length-span (c ∷ cs) = ground (arith, length-span cs)

nonempty_prefix :
    (m : ℕ) (s ds rest : Bytes)
    → length ds + length rest ≡ length s
    → unless_empty s (record { value = value 0 ds % m; rest = rest }) ≡ parsed_prefix m ds rest
nonempty_prefix m s [] rest h = ground arith
nonempty_prefix m s (d ∷ ds) rest h = ground arith

unless_empty-scan :
    (m : ℕ) (s : Bytes) → 0 < m → unless_empty s (scan m 10 s 0) ≡ decimal_prefix m s
unfolding decimal_prefix
unless_empty-scan m s h =
    ap (unless_empty s) (scan_prefix m 0 s h)
    ∙ nonempty_prefix m s (take_digits s) (drop_digits s) (length-span s)

-- Every decimal parser takes the longest run of digits in front of the text, and returns NULL if
-- there is none. It computes the number that they spell modulo the size of its integer: 32 bits
-- for `parseint` and `parseuint`, 64 for the others.
pub parse_prefix :
    (s : Bytes)
    → (parseint s ≡ decimal_prefix (2 ^ 32) s)
      × (parseuint s ≡ decimal_prefix (2 ^ 32) s)
      × (parselong s ≡ decimal_prefix (2 ^ 64) s)
      × (parseulong s ≡ decimal_prefix (2 ^ 64) s)
      × (parseu64 s ≡ decimal_prefix (2 ^ 64) s)
unfolding parseint parseuint parselong parseulong parseu64
parse_prefix s =
    let int = unless_empty-scan (2 ^ 32) s (omega arith) in
    let long = unless_empty-scan (2 ^ 64) s (omega arith) in (int, int, long, long, long)

take_digits-append :
    (ds rest : Bytes)
    → AllDigits ds
    → is_digit (deref rest) ≡ false
    → (take_digits (ds ++ rest) ≡ ds) × (drop_digits (ds ++ rest) ≡ rest)
take_digits-append [] [] h k = (refl, refl)
take_digits-append [] (c ∷ rest) h k = (rw k, rw k)
take_digits-append (d ∷ ds) rest h k =
    let digit : is_digit d ≡ true = ground arith in
    rw digit (let ih = take_digits-append ds rest h.1 k in (ap (◌∷◌ d) ih.0, ih.1))

parsed-nonempty :
    (m : ℕ) (ds rest : Bytes)
    → 0 < length ds
    → parsed_prefix m ds rest ≡ some (record { value = value 0 ds % m; rest = rest })
parsed-nonempty m [] rest h = absurd (omega arith)
parsed-nonempty m (d ∷ ds) rest h = refl

pub decimal_prefix-IsDecimal :
    (m n : ℕ) (ds rest : Bytes)
    → IsDecimal n ds
    → n < m
    → is_digit (deref rest) ≡ false
    → decimal_prefix m (ds ++ rest) ≡ some (record { value = n; rest = rest })
unfolding decimal_prefix
decimal_prefix-IsDecimal m n ds rest h lt k =
    let span = take_digits-append ds rest h.all_digits k in
    rw (span.0, span.1)
      (parsed-nonempty m ds rest h.nonempty
        ∙ ap (λ v. some (record { value = v; rest = rest }))
            (ap (λ v. v % m) h.spells ∙ mod-eq_of_lt lt))

-- Where no digit stands in front, there is no number.
pub decimal_prefix_absent :
    (m : ℕ) (s : Bytes) → is_digit (deref s) ≡ false → decimal_prefix m s ≡ none
unfolding decimal_prefix
decimal_prefix_absent m [] h = refl
decimal_prefix_absent m (c ∷ cs) h = rw h refl
