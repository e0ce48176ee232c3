-- ===== src/Format/Parse/Address.antt =====
-- Dotted addresses: the printed text is read back, and what the mask parser accepts.
use mathlib.Core.List.{append_assoc}
use minibase.Base.{
  ℕ, ◌≤◌, ◌<◌, ◌^◌, ◌≡◌, refl, ◌∙◌, false, Option, none, some, ◌∷◌, ◌++◌, arith, ◌==◌, leb,
  if◌then◌else◌, Bytes, deref, next, Bool-cases, inl, inr,
}
use minibase.Format.Number.{Ip}
use minibase.Format.Number.Sound.{decimal}
use minibase.Format.Number.Chain.{dotted}
use minibase.Format.Number.Canonical.{decimal-IsDecimal}
use minibase.Format.Parse.{
  Parsed, parseint, parseip_part, skip_dot, parseip, IpMask, mask_result, parseipmask_of,
  parseipmask,
}
use minibase.Format.Parse.Decimal.{
  is_digit, parse_prefix, decimal_prefix-IsDecimal, decimal_prefix_absent,
}

parseint-decimal :
    (n : ℕ) (rest : Bytes)
    → n < 256
    → is_digit (deref rest) ≡ false
    → parseint (decimal n ++ rest) ≡ some (record { value = n; rest = rest })
parseint-decimal n rest h k =
    (parse_prefix (decimal n ++ rest)).0
    ∙ decimal_prefix-IsDecimal (2 ^ 32) n (decimal n) rest (decimal-IsDecimal n (omega arith))
        (omega arith) k

part-decimal :
    (n : ℕ) (rest : Bytes)
    → n < 256
    → is_digit (deref rest) ≡ false
    → parseip_part (decimal n ++ rest) ≡ some (record { value = n; rest = rest })
unfolding parseip_part
part-decimal n rest h k = rw (parseint-decimal n rest h k) (ground arith)

abbrev pub IsIp : Ip → Type 0
IsIp ip = (ip.a < 256) × (ip.b < 256) × (ip.c < 256) × (ip.d < 256)

-- An address is read back from its dotted text, if no digit follows.
pub parseip-dotted :
    (ip : Ip) (rest : Bytes)
    → IsIp ip
    → is_digit (deref rest) ≡ false
    → parseip (dotted ip ++ rest) ≡ some (ip, rest)
unfolding parseip skip_dot
parseip-dotted ip rest h k = simp append_assoc (
    rw
      (part-decimal ip.a
        (b'.' ∷ (decimal ip.b ++ b'.' ∷ (decimal ip.c ++ b'.' ∷ (decimal ip.d ++ rest)))) h.0 refl)
      (rw (part-decimal ip.b (b'.' ∷ (decimal ip.c ++ b'.' ∷ (decimal ip.d ++ rest))) h.1 refl) (
        rw (part-decimal ip.c (b'.' ∷ (decimal ip.d ++ rest)) h.2 refl)
          (rw (part-decimal ip.d rest h.3 k)))))

-- an address and a mask of at most 32 bits were stored
abbrev pub HasMask : IpMask → Type 0
HasMask r = (ip : Ip) × (mask : ℕ) × (r.ip ≡ some ip) × (r.mask ≡ some mask) × (mask ≤ 32)

mask_result-HasMask :
    (junk : ℕ) (ip : Ip) (r : Option Parsed) {rest : Bytes}
    → (mask_result junk ip r).result ≡ some rest
    → HasMask (mask_result junk ip r)
unfolding mask_result
mask_result-HasMask junk ip none h = ground arith
mask_result-HasMask junk ip (some r) h = (ip, r.value, ground arith, ground arith, ground arith)

parseipmask_of-HasMask :
    (junk : ℕ) (o : Option (Ip × Bytes)) {rest : Bytes}
    → (parseipmask_of junk o).result ≡ some rest
    → HasMask (parseipmask_of junk o)
unfolding parseipmask_of
parseipmask_of-HasMask junk none h = ground arith
parseipmask_of-HasMask junk (some (ip, p)) h = elim (Bool-cases (deref p == b'/')) [
  | inl slash ↦ rw slash (mask_result-HasMask junk ip (parseint (next p)) (rw slash at h))
  | inr other ↦ rw other (ip, 32, refl, refl, omega arith)
]

-- What `parseipmask` accepts has an address and a mask of at most 32 bits, whatever the
-- uninitialised variable holds.
pub parseipmask-HasMask :
    (junk : ℕ) (s : Bytes) {rest : Bytes}
    → (parseipmask junk s).result ≡ some rest
    → HasMask (parseipmask junk s)
unfolding parseipmask
parseipmask-HasMask junk s h = parseipmask_of-HasMask junk (parseip s) h

parseint_absent : (s : Bytes) → is_digit (deref s) ≡ false → parseint s ≡ none
parseint_absent s h = (parse_prefix s).0 ∙ decimal_prefix_absent (2 ^ 32) s h

-- Behind the text of an address, a slash and the decimal text of a mask of at most 32 bits, `parseipmask`
-- stores the address and the mask, and returns what follows, if that does not begin with a digit.
pub parseipmask-dotted :
    (junk : ℕ) (ip : Ip) (mask : ℕ) (rest : Bytes)
    → IsIp ip
    → mask ≤ 32
    → is_digit (deref rest) ≡ false
    → parseipmask junk (dotted ip ++ b'/' ∷ (decimal mask ++ rest))
      ≡ record { ip = some ip; mask = some mask; result = some rest }
unfolding parseipmask parseipmask_of mask_result
parseipmask-dotted junk ip mask rest h in_it k =
    rw (parseip-dotted ip (b'/' ∷ (decimal mask ++ rest)) h refl)
      (rw (parseint-decimal mask rest (omega arith) k) (ground arith))

-- Behind the text of an address, a slash and no digit, `parseipmask` returns NULL and has stored the
-- address, but the caller's mask is overwritten with what the uninitialised variable held, an int
-- that is not negative, if that passes for a mask, and is not touched else.
pub parseipmask_junk :
    (junk : ℕ) (ip : Ip) (rest : Bytes)
    → IsIp ip
    → junk < 2 ^ 31
    → is_digit (deref rest) ≡ false
    → parseipmask junk (dotted ip ++ b'/' ∷ rest)
      ≡ record { ip = some ip; mask = if leb junk 32 then some junk else none; result = none }
unfolding parseipmask parseipmask_of mask_result
parseipmask_junk junk ip rest h small k = rw (parseip-dotted ip (b'/' ∷ rest) h refl) (
    rw (parseint_absent rest k) (elim (Bool-cases (leb junk 32)) [
      | inl fits ↦ ground (arith, fits)
      | inr over ↦ ground (arith, over)
    ]))
