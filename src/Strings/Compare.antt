-- ===== src/Strings/Compare.antt =====
-- `strcmpn`, which compares a padded array of char with a C string, and `natcmp`.
use minibase.Base.{
  ℕ, zero, suc, ◌≤◌, ◌<◌, ◌≡◌, ◌≢◌, ◌↔◌, Bool, true, false, not, ◌&&◌, ◌||◌, [], ◌∷◌, arith, leb,
  ◌==◌, if◌then◌else◌, Bytes, length, deref, next,
}
use minibase.Base.Int.{ℤ, pos, negsuc, sub_ℕ, is_neg}

-- `a` is the array up to its first NUL, at most `n` bytes long. Only the sign of the result matters to
-- the callers, and they test it for 0.
unfoldable pub strcmpn : Bytes → Bytes → ℕ → ℤ
strcmpn a b zero = sub_ℕ 0 (deref b)
strcmpn a b (suc n) =
    let rest = strcmpn (next a) (next b) n in
    let ac = deref a in let bc = deref b in if not (ac == bc) || ac == 0 then sub_ℕ ac bc else rest

abbrev pub is_zero : ℤ → Bool
is_zero (pos n) = n == 0
is_zero (negsuc n) = false

-- no byte is NUL
abbrev pub NulFree : Bytes → Type 0
NulFree [] = Unit {0}
NulFree (c ∷ cs) = (c ≢ 0) × NulFree cs

-- An array of `n` chars equals a C string just if they hold the same bytes; one that fills the
-- array has no NUL in it, and a longer string is different.
pub strcmpn_iff :
    (a b : Bytes) (n : ℕ)
    → NulFree a
    → NulFree b
    → length a ≤ n
    → (is_zero (strcmpn a b n) ≡ true) ↔ (a ≡ b)
unfolding strcmpn
strcmpn_iff [] [] zero ha hb h = ground arith
strcmpn_iff [] (y ∷ b) zero ha hb h = ground arith
strcmpn_iff (x ∷ a) b zero ha hb h = absurd (omega arith)
strcmpn_iff [] [] (suc n) ha hb h = ground arith
strcmpn_iff [] (y ∷ b) (suc n) ha hb h = ground arith
strcmpn_iff (x ∷ a) [] (suc n) ha hb h = ground arith
strcmpn_iff (x ∷ a) (y ∷ b) (suc n) ha hb h = ground (arith, strcmpn_iff a b n ha.1 hb.1)

abbrev pub is_numeric : ℕ → Bool
is_numeric c = leb b'0' c && leb c b'9'

unfoldable pub numrun : Bytes → ℕ
numrun [] = 0
numrun (c ∷ cs) = let rest = numrun cs in if not (c == 0) && is_numeric c then suc rest else 0

-- what is compared once a common beginning has been skipped
unfoldable pub natcmp_tails : Bytes → Bytes → ℤ
unfolding numrun
natcmp_tails pa pb =
    let na = numrun pa in
    let nb = numrun pb in
    if not (na == 0) && not (nb == 0) && not (na == nb)
    then sub_ℕ na nb
    else sub_ℕ (deref pa) (deref pb)

unfoldable pub natcmp : Bytes → Bytes → ℤ
unfolding natcmp_tails
natcmp [] b = natcmp_tails [] b
natcmp (x ∷ a) [] = natcmp_tails (x ∷ a) []
natcmp (x ∷ a) (y ∷ b) =
    let rest = natcmp a b in
    if x == 0 || y == 0 || not (x == y) then natcmp_tails (x ∷ a) (y ∷ b) else rest

-- The order of `natcmp` goes in circles: with digits p < q, a digit r and a letter x, which is above
-- every digit, "q" is before "pr", "pr" before "px", and "px" before "q".
pub natcmp_cycle :
    (p q r x : ℕ)
    → b'0' ≤ p
    → p < q
    → q ≤ b'9'
    → b'0' ≤ r
    → r ≤ b'9'
    → b'9' < x
    → (is_neg (natcmp (q ∷ []) (p ∷ r ∷ [])) ≡ true)
      × (is_neg (natcmp (p ∷ r ∷ []) (p ∷ x ∷ [])) ≡ true)
      × (is_neg (natcmp (p ∷ x ∷ []) (q ∷ [])) ≡ true)
unfolding natcmp
natcmp_cycle p q r x h1 h2 h3 h4 h5 h6 = (ground arith, ground arith, ground arith)
