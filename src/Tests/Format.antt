-- ===== src/Tests/Format.antt =====
-- lib/format on concrete inputs.
use minibase.Base.{
  ◌+◌, ◌^◌, ◌≡◌, ◌≤◌, refl, [], ◌∷◌, ◌++◌, some, none, arith, Bytes, length, codes, replicate, leb,
  if◌then◌else◌,
}
use minibase.Base.Memory.{Memory, load, Frame}
use minibase.Format.Put.{put}
use minibase.Format.Number.{count_digits, fmtu64, fmthex, fmtip, Ip, Tm}
use minibase.Format.Number.Sound.{decimal, padded}
use minibase.Format.Number.Hexadecimal.{IsHexadecimal, fmthex-IsHexadecimal}
use minibase.Format.Number.Chain.{dotted, tm_text}
use minibase.Format.Parse.{
  parseint, parseuint, parselong, parseulong, parseu64, scan, parseip_part, skip_dot, parseip,
  parsemac, mask_result, parseipmask_of, parseipmask,
}
use minibase.Format.Parse.Decimal.{parse_prefix, decimal_prefix}
use minibase.Format.Parse.Address.{parseipmask_junk, parseipmask-dotted, IsIp}
use minibase.Format.Parse.Hex.{mac_text}
use minibase.Format.Pad.{fmtpad}
use minibase.Format.Pad.Sound.{fmtpad_lem}
use minibase.Format.Write.{Mac, fmtmac}
use minibase.Format.RoundTrip.{printed, parseu64-fmtu64, parseip-fmtip, parsemac-fmtmac}

abbrev blank : Memory
blank a = 0

abbrev localhost : Ip
localhost = record { a = 127; b = 0; c = 0; d = 1 }

abbrev some_mac : Mac
some_mac = record { first = 0x0A; rest = 0xFF ∷ 1 ∷ 2 ∷ 3 ∷ 4 ∷ [] }

abbrev epoch : Tm
epoch = record { year = 70; mon = 0; mday = 1; hour = 0; minute = 0; sec = 0 }

abbrev comma : Bytes
comma = b',' ∷ []

fmthex-IsHexadecimal_example :
    (text : Bytes) × IsHexadecimal 255 text
    × ((fmthex blank 5 6 255).mem ≡ (put blank 5 6 text).mem)
    × ((fmthex blank 5 6 255).ptr ≡ 5 + length text)
fmthex-IsHexadecimal_example = fmthex-IsHexadecimal blank 5 6 255 (omega arith)

epoch_room : 5 + length (tm_text epoch) ≤ 40
unfolding padded count_digits
epoch_room = omega arith

number_room : 5 + length (decimal 120) ≤ 9
unfolding decimal count_digits
number_room = omega arith

parseu64-fmtu64_example :
    parseu64 (printed 5 (fmtu64 blank 5 9 120) ++ comma)
    ≡ some (record { value = 120; rest = comma })
parseu64-fmtu64_example = parseu64-fmtu64 blank 5 9 120 comma (omega arith) number_room refl

localhost_room : 5 + length (dotted localhost) ≤ 20
unfolding decimal count_digits
localhost_room = omega arith

localhost-IsIp : IsIp localhost
localhost-IsIp = (omega arith, omega arith, omega arith, omega arith)

parseip-fmtip_example :
    parseip (printed 5 (fmtip blank 5 20 localhost) ++ comma) ≡ some (localhost, comma)
parseip-fmtip_example = parseip-fmtip blank 5 20 localhost comma localhost-IsIp localhost_room refl

mac_room : 5 + length (mac_text some_mac) ≤ 30
mac_room = omega arith

parsemac-fmtmac_example :
    parsemac (printed 5 (fmtmac blank 5 30 some_mac) ++ comma) ≡ some (some_mac, comma)
parsemac-fmtmac_example =
    parsemac-fmtmac blank 5 30 some_mac comma refl
      (omega arith, (omega arith, (omega arith, (omega arith, (omega arith, (omega arith, tt))))))
      mac_room

abbrev some_text : Bytes
some_text = codes "42,"

parse_prefix_example :
    (parseint some_text ≡ decimal_prefix (2 ^ 32) some_text)
    × (parseuint some_text ≡ decimal_prefix (2 ^ 32) some_text)
    × (parselong some_text ≡ decimal_prefix (2 ^ 64) some_text)
    × (parseulong some_text ≡ decimal_prefix (2 ^ 64) some_text)
    × (parseu64 some_text ≡ decimal_prefix (2 ^ 64) some_text)
parse_prefix_example = parse_prefix some_text

fmtpad_lem_example :
    ((fmtpad blank 5 20 4 6).ptr ≡ 9)
    × (load (fmtpad blank 5 20 4 6).mem 5 4 ≡ replicate 3 b' ' ++ load blank 5 1)
    × Frame 5 9 blank (fmtpad blank 5 20 4 6).mem
fmtpad_lem_example = fmtpad_lem blank 5 20 4 6 (omega arith) (omega arith) (omega arith)

abbrev masked : Bytes
masked = codes "1.2.3.4/24"

masked_parses : (parseipmask 7 masked).result ≡ some []
unfolding parseipmask parseipmask_of parseip parseip_part parseint scan skip_dot mask_result
masked_parses = refl

parseipmask_junk_example :
    parseipmask 7 (dotted localhost ++ b'/' ∷ codes "x")
    ≡ record { ip = some localhost; mask = if leb 7 32 then some 7 else none; result = none }
parseipmask_junk_example =
    parseipmask_junk 7 localhost (codes "x") (omega arith, omega arith, omega arith, omega arith)
      (omega arith) refl

parseipmask-dotted_example :
    parseipmask 7 (dotted localhost ++ b'/' ∷ (decimal 8 ++ codes ","))
    ≡ record { ip = some localhost; mask = some 8; result = some (codes ",") }
parseipmask-dotted_example =
    parseipmask-dotted 7 localhost 8 (codes ",")
      (omega arith, omega arith, omega arith, omega arith) (omega arith) refl
