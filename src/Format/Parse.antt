-- ===== src/Format/Parse.antt =====
-- lib/format: the parsers. A C string is the list of its bytes up to the NUL; a parser returns
-- the pointer behind what it took, here the bytes that are left, or NULL.
pub mod Decimal
pub mod Hex
pub mod Address
use Prim.Native.Nat.{bit_or}
use minibase.Base.{
  ℕ, zero, suc, ◌+◌, ◌-◌, ◌*◌, ◌/◌, ◌%◌, ◌^◌, Bool, true, not, ◌&&◌, Option, none, some, [], ◌∷◌,
  ltb, leb, ◌==◌, if◌then◌else◌, ◌>>=◌, Bytes, length, deref, next,
}
use minibase.Base.Int.{ℤ, pos, negsuc, signed32}
use minibase.Format.Number.{Ip}
use minibase.Format.Write.{Mac}

-- `*np` and the pointer returned
pub record Parsed : Type 0 where
  pub value : ℕ
  pub rest : Bytes

-- `*p >= lo && (d = *p - lo) < n`. A byte from 128 on is no digit, whatever the sign of char.
abbrev pub in_range : ℕ → ℕ → ℕ → Bool
in_range lo n c = leb lo c && ltb (c - lo) n

-- for(p = buf; *p; p++) if(digit) n = n*base + d; else break;   in an integer of so many values
unfoldable pub scan : ℕ → ℕ → Bytes → ℕ → Parsed
scan modulus base [] n = record { value = n; rest = [] }
scan modulus base (c ∷ cs) n =
    let rest = scan modulus base cs ((n * base + (c - b'0')) % modulus) in
    let stop : Parsed = record { value = n; rest = c ∷ cs } in
    if c == 0 then stop else if in_range b'0' base c then rest else stop

-- the same loop with letters, `c - '0'`, `0xA + c - 'a'` or `0xA + c - 'A'`
abbrev pub hex_value : ℕ → Option ℕ
hex_value c =
    if in_range b'0' 10 c
    then some (c - b'0')
    else if in_range b'a' 6 c
    then some (10 + (c - b'a'))
    else if in_range b'A' 6 c
    then some (10 + (c - b'A'))
    else none

unfoldable pub scan_hex : ℕ → Bytes → ℕ → Parsed
scan_hex modulus [] n = record { value = n; rest = [] }
scan_hex modulus (c ∷ cs) n = elim (hex_value c) [
  | some d ↦ scan_hex modulus cs ((n * 16 + d) % modulus)
  | none ↦ record { value = n; rest = c ∷ cs }
]

-- if(p == buf) return NULL;
abbrev pub unless_empty : Bytes → Parsed → Option Parsed
unless_empty buf r = if length r.rest == length buf then none else some r

-- An int is its bit pattern, below 2 ^ 32; it wraps around.
unfoldable pub parseint : Bytes → Option Parsed
parseint buf = unless_empty buf (scan (2 ^ 32) 10 buf 0)

unfoldable pub parseuint : Bytes → Option Parsed
parseuint buf = unless_empty buf (scan (2 ^ 32) 10 buf 0)

unfoldable pub parseoct : Bytes → Option Parsed
parseoct buf = unless_empty buf (scan (2 ^ 32) 8 buf 0)

unfoldable pub parselong : Bytes → Option Parsed
parselong buf = unless_empty buf (scan (2 ^ 64) 10 buf 0)

unfoldable pub parseulong : Bytes → Option Parsed
parseulong buf = unless_empty buf (scan (2 ^ 64) 10 buf 0)

unfoldable pub parseu64 : Bytes → Option Parsed
parseu64 buf = unless_empty buf (scan (2 ^ 64) 10 buf 0)

unfoldable pub parsehex : Bytes → Option Parsed
parsehex buf = unless_empty buf (scan_hex (2 ^ 32) buf 0)

unfoldable pub parsexlong : Bytes → Option Parsed
parsexlong buf = unless_empty buf (scan_hex (2 ^ 64) buf 0)

-- -1 is `none`.
unfoldable pub hexdigit : ℕ → Option ℕ
hexdigit c =
    if leb b'0' c && leb c b'9'
    then some (c - b'0')
    else if leb b'a' c && leb c b'f'
    then some (c - b'a' + 10)
    else if leb b'A' c && leb c b'F'
    then some (c - b'A' + 10)
    else none

unfoldable pub parsebyte : Bytes → Option Parsed
parsebyte p = hexdigit (deref p) >>= λ q. hexdigit (deref (next p)) >>= λ q'.
    some (record { value = bit_or (q * 16) q'; rest = next (next p) })

-- The list is what was stored at `dst`.
unfoldable pub parsebytes : ℕ → Bytes → Option (Bytes × Bytes)
parsebytes zero p = some ([], p)
parsebytes (suc len) p =
    parsebyte p >>= λ r. parsebytes len r.rest >>= λ (vs, rest). some (r.value ∷ vs, rest)

-- The rounds i = 1 .. 5, each behind the test for `:` that ends the round before.
unfoldable pub parsemac_rest : ℕ → Bytes → Option (Bytes × Bytes)
parsemac_rest zero p = some ([], p)
parsemac_rest (suc left) p =
    if not (deref p == b':')
    then none
    else parsebyte (next p) >>= λ r.
        parsemac_rest left r.rest >>= λ (vs, rest). some (r.value ∷ vs, rest)

unfoldable pub parsemac : Bytes → Option (Mac × Bytes)
parsemac p = parsebyte p >>= λ r.
    parsemac_rest 5 r.rest >>= λ (vs, rest). some (record { first = r.value; rest = vs }, rest)

-- `n < 0 || n > max`
abbrev pub exceeds : ℤ → ℕ → Bool
exceeds (pos n) max = ltb max n
exceeds (negsuc n) max = true

-- One round of the loop, behind the dot.
unfoldable pub parseip_part : Bytes → Option Parsed
parseip_part p = parseint p >>= λ r. if exceeds (signed32 r.value) 255 then none else some r

-- `if(i && *p != '.') return NULL; if(i) p++;`
unfoldable pub skip_dot : Bytes → Option Bytes
skip_dot p = if not (deref p == b'.') then none else some (next p)

unfoldable pub parseip : Bytes → Option (Ip × Bytes)
parseip p = parseip_part p >>= λ a. skip_dot a.rest >>= λ p1. parseip_part p1 >>= λ b.
    skip_dot b.rest >>= λ p2. parseip_part p2 >>= λ c. skip_dot c.rest >>= λ p3.
    parseip_part p3 >>= λ d.
    some (record { a = a.value; b = b.value; c = c.value; d = d.value }, d.rest)

-- what `parseipmask` leaves behind: `*ip` where `parseip` filled it, `*mask` if it was written, and
-- the pointer returned
pub record IpMask : Type 0 where
  pub ip : Option Ip
  pub mask : Option ℕ
  pub result : Option Bytes

abbrev pub no_mask : Option Ip → IpMask
no_mask ip = record { ip = ip; mask = none; result = none }

-- `junk` is what the uninitialised `n` holds: it is tested also where `parseint` fails.
-- behind the `/`, on what `parseint` returned
unfoldable pub mask_result : ℕ → Ip → Option Parsed → IpMask
mask_result junk ip (some r) =
    if exceeds (signed32 r.value) 32
    then no_mask (some ip)
    else record { ip = some ip; mask = some r.value; result = some r.rest }
mask_result junk ip none =
    if exceeds (signed32 junk) 32
    then no_mask (some ip)
    else record { ip = some ip; mask = some junk; result = none }

unfoldable pub parseipmask_of : ℕ → Option (Ip × Bytes) → IpMask
parseipmask_of junk none = no_mask none
parseipmask_of junk (some (ip, p)) =
    if deref p == b'/'
    then mask_result junk ip (parseint (next p))
    else record { ip = some ip; mask = some 32; result = some p }

unfoldable pub parseipmask : ℕ → Bytes → IpMask
parseipmask junk p = parseipmask_of junk (parseip p)
