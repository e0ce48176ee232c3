-- ===== src/Format/Parse/Hex.antt =====
-- Hexadecimal text: bytes and words are read back from their digits.
use Prim.Native.Nat.{bit_or}
use minibase.Base.{
  ℕ, ◌*◌, ◌/◌, ◌%◌, ◌<◌, ◌≡◌, refl, ap, Bool, true, false, Option, none, some, [], ◌∷◌, ◌++◌, arith,
  ◌==◌, ==_iff, Bytes, length, failures, no_failures,
}
use minibase.Format.Write.{hex_digit, Mac}
use minibase.Format.Write.Sound.{hex_pair, hex_pairs, colon_pairs}
use minibase.Format.Parse.{hexdigit, parsebyte, parsebytes, parsemac_rest, parsemac}

or_table : failures (λ c. bit_or (c / 16 % 16 * 16) (c % 16) == c) 256 ≡ 0
unfolding failures
or_table = refl

read_digit : Option ℕ → ℕ → Bool
read_digit (some v) d = v == d
read_digit none d = false

some_of_read : (o : Option ℕ) (d : ℕ) → read_digit o d ≡ true → o ≡ some d
unfolding read_digit
some_of_read (some v) d h = ap some ((==_iff v d).0 h)
some_of_read none d h = cc

hex_table : failures (λ d. read_digit (hexdigit (hex_digit d)) d) 16 ≡ 0
unfolding failures hexdigit read_digit
hex_table = refl

hexdigit-hex_digit : (d : ℕ) → d < 16 → hexdigit (hex_digit d) ≡ some d
hexdigit-hex_digit d h =
    some_of_read (hexdigit (hex_digit d)) d
      (no_failures (λ d. read_digit (hexdigit (hex_digit d)) d) 16 hex_table h)

or_nibbles : (c : ℕ) → c < 256 → bit_or (c / 16 % 16 * 16) (c % 16) ≡ c
or_nibbles c h =
    (==_iff (bit_or (c / 16 % 16 * 16) (c % 16)) c).0
      (no_failures (λ c. bit_or (c / 16 % 16 * 16) (c % 16) == c) 256 or_table h)

pub parsebyte-hex_pair :
    (c : ℕ) (rest : Bytes)
    → c < 256
    → parsebyte (hex_pair c ++ rest) ≡ some (record { value = c; rest = rest })
unfolding parsebyte
parsebyte-hex_pair c rest h =
    rw (hexdigit-hex_digit (c / 16 % 16) (omega arith), hexdigit-hex_digit (c % 16) (omega arith))
      (ap (λ v. some (record { value = v; rest = rest })) (or_nibbles c h))

abbrev pub AllBytes : Bytes → Type 0
AllBytes [] = Unit {0}
AllBytes (c ∷ cs) = (c < 256) × AllBytes cs

-- Reading as many bytes as `fmtbytes` printed gives them back.
pub parsebytes-hex_pairs :
    (vs rest : Bytes)
    → AllBytes vs
    → parsebytes (length vs) (hex_pairs vs ++ rest) ≡ some (vs, rest)
unfolding parsebytes
parsebytes-hex_pairs [] rest h = refl
parsebytes-hex_pairs (v ∷ vs) rest h =
    rw (parsebyte-hex_pair v (hex_pairs vs ++ rest) h.0) (rw (parsebytes-hex_pairs vs rest h.1))

parsemac_rest-colon_pairs :
    (vs rest : Bytes)
    → AllBytes vs
    → parsemac_rest (length vs) (colon_pairs vs ++ rest) ≡ some (vs, rest)
unfolding parsemac_rest
parsemac_rest-colon_pairs [] rest h = refl
parsemac_rest-colon_pairs (v ∷ vs) rest h =
    rw (parsebyte-hex_pair v (colon_pairs vs ++ rest) h.0)
      (rw (parsemac_rest-colon_pairs vs rest h.1))

abbrev pub mac_text : Mac → Bytes
mac_text mac = hex_pair mac.first ++ colon_pairs mac.rest

-- A hardware address is read back from its text, whatever follows.
pub parsemac-mac_text :
    (mac : Mac) (rest : Bytes)
    → length mac.rest ≡ 5
    → AllBytes (mac.first ∷ mac.rest)
    → parsemac (mac_text mac ++ rest) ≡ some (mac, rest)
unfolding parsemac
parsemac-mac_text mac rest n h =
    rw (parsebyte-hex_pair mac.first (colon_pairs mac.rest ++ rest) h.0)
      (rw (← n) (rw (parsemac_rest-colon_pairs mac.rest rest h.1)))
