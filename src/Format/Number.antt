-- ===== src/Format/Number.antt =====
-- lib/format: the formatters that count the digits first and then write them from the last one.
-- `long` and `ulong` are 64 bits wide (BITS == 64).
pub mod Digits
pub mod Sound
pub mod Canonical
pub mod Hexadecimal
pub mod Chain
use minibase.Base.{ℕ, zero, suc, ◌+◌, ◌-◌, ◌/◌, ◌%◌, ltb, if◌then◌else◌}
use minibase.Base.Int.{ℤ, pos, negsuc}
use minibase.Base.Memory.{Memory, store}
use minibase.Format.Put.{Out}
use minibase.Format.Write.{hex_digit, fmtchar}

-- Each round of the length loop divides by ten or by sixteen, so that the 64 rounds that are
-- left here are never used up by a 64-bit number.
abbrev pub max_digits : ℕ
max_digits = 64

-- for(len = 1, n = num; n >= base; len++) n /= base;
unfoldable pub count_digits : ℕ → ℕ → ℕ → ℕ → ℕ
count_digits base zero n len = len
count_digits base (suc fuel) n len =
    let rest = count_digits base fuel (n / base) (len + 1) in if ltb n base then len else rest

-- for(i = 0; i < len; i++, p--, num /= 10) if(p < end) *p = '0' + num % 10;
unfoldable pub write_decimal : ℕ → Memory → ℕ → ℕ → ℕ → Memory
write_decimal zero m p end num = m
write_decimal (suc left) m p end num =
    write_decimal left (if ltb p end then store m p (b'0' + num % 10) else m) (p - 1) end (num / 10)

-- for(i = 0; i < len; i++, p--, num >>= 4) if(p < end) *p = digits[num & 0x0F];
unfoldable pub write_hex : ℕ → Memory → ℕ → ℕ → ℕ → Memory
write_hex zero m p end num = m
write_hex (suc left) m p end num =
    write_hex left (if ltb p end then store m p (hex_digit (num % 16)) else m) (p - 1) end
      (num / 16)

-- the same loop where `p` stays at or above `buf - 1`
unfoldable pub write_hex64 : ℕ → Memory → ℕ → ℕ → ℕ → ℕ → Memory
write_hex64 zero m buf p end num = m
write_hex64 (suc left) m buf p end num =
    write_hex64 left (if ltb p end then store m p (hex_digit (num % 16)) else m) buf
      (if ltb p buf then p else p - 1) end (num / 16)

-- `minus` is 0 or 1. After the loop `p` is `buf + minus - 1`.
pub fmtint64 : Memory → ℕ → ℕ → ℕ → ℕ → Out
fmtint64 m buf end minus num =
    let len = count_digits 10 max_digits num 1 in
    let e = buf + len + minus in
    let written = write_decimal len m (e - 1) end num in
    record {
      mem = if ltb 0 minus then store written buf b'-' else written;
      ptr = if ltb end e then end else e;
    }

pub fmtu64 : Memory → ℕ → ℕ → ℕ → Out
fmtu64 m buf end num = fmtint64 m buf end 0 num

-- `-num` as a uint64_t
pub fmti64 : Memory → ℕ → ℕ → ℤ → Out
fmti64 m buf end (pos n) = fmtint64 m buf end 0 n
fmti64 m buf end (negsuc n) = fmtint64 m buf end 1 (suc n)

-- The end of the digits is returned also where it lies behind `end`.
pub fmtulp : Memory → ℕ → ℕ → ℕ → ℕ → Out
fmtulp m buf end num pad =
    let digits = count_digits 10 max_digits num 1 in
    let len = if ltb digits pad then pad else digits in
    let e = buf + len in record { mem = write_decimal len m (e - 1) end num; ptr = e }

pub fmthex : Memory → ℕ → ℕ → ℕ → Out
fmthex m buf end num =
    let len = count_digits 16 max_digits num 1 in
    let e = buf + len in record { mem = write_hex len m (e - 1) end num; ptr = e }

pub fmtx64 : Memory → ℕ → ℕ → ℕ → Out
fmtx64 m buf end num =
    let len = count_digits 16 max_digits num 1 in
    let e = buf + len in
    record { mem = write_hex64 len m buf (e - 1) end num; ptr = if ltb e end then e else end }

-- `ip` is the array of four bytes.
pub record Ip : Type 0 where
  pub a : ℕ
  pub b : ℕ
  pub c : ℕ
  pub d : ℕ

pub fmtip : Memory → ℕ → ℕ → Ip → Out
fmtip m p e ip =
    let a = fmtu64 m p e ip.a in
    let a' = fmtchar a.mem a.ptr e b'.' in
    let b = fmtu64 a'.mem a'.ptr e ip.b in
    let b' = fmtchar b.mem b.ptr e b'.' in
    let c = fmtu64 b'.mem b'.ptr e ip.c in
    let c' = fmtchar c.mem c.ptr e b'.' in fmtu64 c'.mem c'.ptr e ip.d

-- `tm->year` and `tm->mon` are counted from 1900 and from 0.
pub record Tm : Type 0 where
  pub year : ℕ
  pub mon : ℕ
  pub mday : ℕ
  pub hour : ℕ
  pub minute : ℕ
  pub sec : ℕ

pub fmttm : Memory → ℕ → ℕ → Tm → Out
fmttm m p e tm =
    let y = fmtulp m p e (tm.year + 1900) 4 in
    let y' = fmtchar y.mem y.ptr e b'-' in
    let o = fmtulp y'.mem y'.ptr e (tm.mon + 1) 2 in
    let o' = fmtchar o.mem o.ptr e b'-' in
    let d = fmtulp o'.mem o'.ptr e tm.mday 2 in
    let d' = fmtchar d.mem d.ptr e b' ' in
    let h = fmtulp d'.mem d'.ptr e tm.hour 2 in
    let h' = fmtchar h.mem h.ptr e b':' in
    let i = fmtulp h'.mem h'.ptr e tm.minute 2 in
    let i' = fmtchar i.mem i.ptr e b':' in fmtulp i'.mem i'.ptr e tm.sec 2
