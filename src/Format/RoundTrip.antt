-- ===== src/Format/RoundTrip.antt =====
-- What the printers of lib/format leave in a buffer with enough room, the parsers read back.
use minibase.Base.{
  ℕ, ◌+◌, ◌-◌, ◌^◌, ◌≤◌, ◌<◌, ◌≡◌, ◌∙◌, false, some, ◌∷◌, ◌++◌, arith, Bytes, length, deref,
}
use minibase.Base.Memory.{Memory, load}
use minibase.Format.Put.{Out, put, load_whole}
use minibase.Format.Write.{fmtbytes, Mac, fmtmac}
use minibase.Format.Write.Sound.{hex_pairs, fmtbytes-put, fmtmac-put}
use minibase.Format.Number.{fmtu64, Ip, fmtip}
use minibase.Format.Number.Sound.{decimal, fmtu64-put}
use minibase.Format.Number.Canonical.{IsDecimal, decimal-IsDecimal}
use minibase.Format.Number.Chain.{dotted, fmtip-put}
use minibase.Format.Parse.{parseu64, parsebytes, parsemac, parseip}
use minibase.Format.Parse.Decimal.{is_digit, parse_prefix, decimal_prefix-IsDecimal}
use minibase.Format.Parse.Hex.{AllBytes, parsebytes-hex_pairs, mac_text, parsemac-mac_text}
use minibase.Format.Parse.Address.{IsIp, parseip-dotted}

-- the bytes between `p` and the pointer returned
abbrev pub printed : ℕ → Out → Bytes
printed p o = load o.mem p (o.ptr - p)

-- `fmtu64` appends the decimal text of its number, with no zero in front, cut off at `end`.
pub fmtu64-IsDecimal :
    (m : Memory) (buf end n : ℕ)
    → n < 2 ^ 64
    → buf ≤ end
    → (cs : Bytes) × IsDecimal n cs × (fmtu64 m buf end n ≡ put m buf end cs)
fmtu64-IsDecimal m buf end n h le = (decimal n, decimal-IsDecimal n h, fmtu64-put m buf end n le)

-- What `fmtu64` prints into a buffer with room for it, `parseu64` reads back, whatever follows that
-- does not begin with a digit.
pub parseu64-fmtu64 :
    (m : Memory) (buf end n : ℕ) (rest : Bytes)
    → n < 2 ^ 64
    → buf + length (decimal n) ≤ end
    → is_digit (deref rest) ≡ false
    → parseu64 (printed buf (fmtu64 m buf end n) ++ rest) ≡ some (record { value = n; rest = rest })
parseu64-fmtu64 m buf end n rest h room k =
    rw (fmtu64-put m buf end n (omega arith), load_whole m buf end (decimal n) room)
      ((parse_prefix (decimal n ++ rest)).4
        ∙ decimal_prefix-IsDecimal (2 ^ 64) n (decimal n) rest (decimal-IsDecimal n h) h k)

-- What `fmtip` prints into a buffer with room for it, `parseip` reads back, whatever follows that does
-- not begin with a digit.
pub parseip-fmtip :
    (m : Memory) (p e : ℕ) (ip : Ip) (rest : Bytes)
    → IsIp ip
    → p + length (dotted ip) ≤ e
    → is_digit (deref rest) ≡ false
    → parseip (printed p (fmtip m p e ip) ++ rest) ≡ some (ip, rest)
parseip-fmtip m p e ip rest h room k =
    rw (fmtip-put m p e ip (omega arith), load_whole m p e (dotted ip) room)
      (parseip-dotted ip rest h k)

-- What `fmtmac` prints of six bytes into a buffer with room for it, `parsemac` reads back, whatever
-- follows.
pub parsemac-fmtmac :
    (m : Memory) (p e : ℕ) (mac : Mac) (rest : Bytes)
    → length mac.rest ≡ 5
    → AllBytes (mac.first ∷ mac.rest)
    → p + length (mac_text mac) ≤ e
    → parsemac (printed p (fmtmac m p e mac) ++ rest) ≡ some (mac, rest)
parsemac-fmtmac m p e mac rest n h room =
    rw (fmtmac-put m p e mac, load_whole m p e (mac_text mac) room) (parsemac-mac_text mac rest n h)

-- What `fmtbytes` prints into a buffer with room for it, `parsebytes` reads back, whatever follows.
pub parsebytes-fmtbytes :
    (m : Memory) (p e : ℕ) (vs rest : Bytes)
    → AllBytes vs
    → p + length (hex_pairs vs) ≤ e
    → parsebytes (length vs) (printed p (fmtbytes m p e vs) ++ rest) ≡ some (vs, rest)
parsebytes-fmtbytes m p e vs rest h room =
    rw (fmtbytes-put m p e vs, load_whole m p e (hex_pairs vs) room)
      (parsebytes-hex_pairs vs rest h)
