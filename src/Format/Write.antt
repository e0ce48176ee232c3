-- ===== src/Format/Write.antt =====
-- lib/format: the formatters that move `p` forward, byte by byte or block by block.
pub mod Sound
use minibase.Base.{
  ℕ, zero, suc, ◌+◌, ◌-◌, ◌/◌, ◌%◌, [], ◌∷◌, ltb, leb, ◌==◌, if◌then◌else◌, Bytes, length, take,
  get_or, codes,
}
use minibase.Base.Memory.{Memory, store, copy_to}
use minibase.Format.Put.{Out}

abbrev pub hex_digits : Bytes
hex_digits = codes "0123456789ABCDEF"

-- `digits[n]`
abbrev pub hex_digit : ℕ → ℕ
hex_digit n = get_or hex_digits n 0

pub fmtchar : Memory → ℕ → ℕ → ℕ → Out
fmtchar m p e c =
    if ltb p e then record { mem = store m p c; ptr = p + 1 } else record { mem = m; ptr = p }

pub fmtbyte : Memory → ℕ → ℕ → ℕ → Out
fmtbyte m p e c =
    let hi : Out =
      if ltb p e
      then record { mem = store m p (hex_digit (c / 16 % 16)); ptr = p + 1 }
      else record { mem = m; ptr = p } in
    if ltb hi.ptr e
    then record { mem = store hi.mem hi.ptr (hex_digit (c % 16)); ptr = hi.ptr + 1 }
    else hi

pub fmtbytes : Memory → ℕ → ℕ → Bytes → Out
fmtbytes m p e [] = record { mem = m; ptr = p }
fmtbytes m p e (v ∷ vs) = let o = fmtbyte m p e v in fmtbytes o.mem o.ptr e vs

-- `mac` is the array of six bytes; the loop runs over the last five.
fmtmac_rest : Memory → ℕ → ℕ → Bytes → Out
fmtmac_rest m p e [] = record { mem = m; ptr = p }
fmtmac_rest m p e (v ∷ vs) =
    let colon = fmtchar m p e b':' in
    let o = fmtbyte colon.mem colon.ptr e v in fmtmac_rest o.mem o.ptr e vs

pub record Mac : Type 0 where
  pub first : ℕ
  pub rest : Bytes

pub fmtmac : Memory → ℕ → ℕ → Mac → Out
unfolding fmtmac_rest
fmtmac m p e mac = let o = fmtbyte m p e mac.first in fmtmac_rest o.mem o.ptr e mac.rest

-- The length is an int: `len > e - p` and `len <= 0` compare signed numbers, and `e - p` is
-- negative where `e` lies below `p`, so that nothing is copied.
pub fmtraw : Memory → ℕ → ℕ → Bytes → ℕ → Out
fmtraw m p e src len =
    let room = e - p in
    let n = if ltb room len then room else len in
    if n == 0
    then record { mem = m; ptr = p }
    else record { mem = copy_to m p (take n src); ptr = p + n }

pub strnlen : Bytes → ℕ → ℕ
strnlen [] max = 0
strnlen (c ∷ cs) zero = 0
strnlen (c ∷ cs) (suc max) = let rest = strnlen cs max in if c == 0 then 0 else suc rest

pub fmtstr : Memory → ℕ → ℕ → Bytes → Out
unfolding fmtraw strnlen
fmtstr m p e str =
    if leb e p then record { mem = m; ptr = p } else fmtraw m p e str (strnlen str (e - p))

pub fmtstrn : Memory → ℕ → ℕ → Bytes → ℕ → Out
unfolding fmtraw strnlen
fmtstrn m p e src len = fmtraw m p e src (strnlen src len)

-- `str` up to `end`: the bytes between the two pointers
pub fmtstre : Memory → ℕ → ℕ → Bytes → Out
unfolding fmtraw
fmtstre m p e str = fmtraw m p e str (length str)
