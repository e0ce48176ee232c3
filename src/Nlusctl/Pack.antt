-- ===== src/Nlusctl/Pack.antt =====
-- lib/nlusctl: putting a message together. The length of the message stands in its first field, and
-- 0 there marks one that did not fit.
pub mod Put
pub mod Ops
use minibase.Base.{
  ℕ, ◌+◌, ◌-◌, ◌*◌, ◌/◌, ◌%◌, ◌^◌, Option, none, some, [], ◌∷◌, ◌++◌, ltb, leb, ◌==◌, if◌then◌else◌,
  Bytes, length, take,
}
use minibase.Base.Memory.{Memory, store, copy_to}
use minibase.Format.Write.{strnlen}
use minibase.Nlusctl.Field.{put16, le_bytes, header_size, align4, len_of}

-- `struct ucbuf`: what `buf` points to, and its size `len`. Sizes are ints far below 2 ^ 31.
pub record UcBuf : Type 0 where
  pub mem : Memory
  pub len : ℕ

-- the buffer after a call, and the attribute that it returns (NULL is `none`)
pub record PutOut : Type 0 where
  pub uc : UcBuf
  pub at : Option ℕ

abbrev pub set_mem : UcBuf → Memory → UcBuf
set_mem uc m = record uc { mem = m }

unfoldable pub uc_buf_set : Memory → ℕ → UcBuf
uc_buf_set buf len = record { mem = buf; len = len }

unfoldable pub uc_put_hdr : UcBuf → ℕ → UcBuf
uc_put_hdr uc cmd = set_mem uc (put16 (put16 uc.mem 2 (cmd % 2 ^ 16)) 0 header_size)

-- `len` is the indicated length of the payload, `alloc` the space that it gets here.
unfoldable pub uc_put : UcBuf → ℕ → ℕ → ℕ → PutOut
uc_put uc key len alloc =
    let full = header_size + alloc in
    let ptr = len_of uc.mem 0 in
    let new = ptr + full in
    let over : PutOut = record { uc = set_mem uc (put16 uc.mem 0 0); at = none } in
    if ptr == 0
    then record { uc = uc; at = none }
    else if ltb uc.len full
    then over
    else if new == 0
    then over
    else if ltb 0xFFFF new
    then over
    else if ltb uc.len new
    then over
    else record {
      uc = set_mem uc (
          put16 (put16 (put16 uc.mem 0 new) (ptr + 2) (key % 2 ^ 16)) ptr
            ((len + header_size) % 2 ^ 16));
      at = some ptr;
    }

-- what the callers of `uc_put` do where it returns an attribute: store bytes behind its header
abbrev pub with_payload : PutOut → (Memory → ℕ → Memory) → UcBuf
with_payload o fill = elim o.at [
  | some at ↦ set_mem o.uc (fill o.uc.mem (at + header_size))
  | none ↦ o.uc
]

unfoldable pub uc_put_flag : UcBuf → ℕ → UcBuf
uc_put_flag uc key = (uc_put uc key 0 0).uc

unfoldable pub uc_put_int : UcBuf → ℕ → ℕ → UcBuf
uc_put_int uc key v = with_payload (uc_put uc key 4 4) (λ m p. copy_to m p (le_bytes 4 v))

unfoldable pub uc_put_i64 : UcBuf → ℕ → ℕ → UcBuf
uc_put_i64 uc key v = with_payload (uc_put uc key 8 8) (λ m p. copy_to m p (le_bytes 8 v))

-- The last word of the payload is cleared where the length is no multiple of four.
abbrev pub fill_bin : Bytes → Memory → ℕ → Memory
fill_bin src m p =
    let len = length src in
    let clean = if ltb len (align4 len) then copy_to m (p + len / 4 * 4) (le_bytes 4 0) else m in
    copy_to clean p src

-- `src` are the `len` bytes to copy.
unfoldable pub uc_put_bin : UcBuf → ℕ → Bytes → UcBuf
uc_put_bin uc key src =
    with_payload (uc_put uc key (length src) (align4 (length src))) (fill_bin src)

-- `str` is a C string without its NUL. From 1024 bytes on it is cut off and not terminated.
unfoldable pub uc_put_str : UcBuf → ℕ → Bytes → UcBuf
uc_put_str uc key str =
    let max : ℕ = 1024 in
    let len = strnlen str max in
    uc_put_bin uc key (take (if ltb len max then len + 1 else len) (str ++ 0 ∷ []))

unfoldable pub uc_put_strn : UcBuf → ℕ → Bytes → ℕ → UcBuf
uc_put_strn uc key src max =
    let len = strnlen src max in
    let lenz = len + 1 in
    let alloc = align4 lenz in
    with_payload (uc_put uc key lenz alloc) (λ m p.
      let clean = if ltb len alloc then copy_to m (p + len / 4 * 4) (le_bytes 4 0) else m in
      store (copy_to clean p (take len src)) (p + len) 0)

unfoldable pub uc_put_tail : UcBuf → ℕ → ℕ → UcBuf
uc_put_tail uc key paylen = (uc_put uc key paylen 0).uc

unfoldable pub uc_put_nest : UcBuf → ℕ → PutOut
uc_put_nest uc key = uc_put uc key 0 0

unfoldable pub uc_end_nest : UcBuf → Option ℕ → UcBuf
uc_end_nest uc none = uc
uc_end_nest uc (some at) =
    let ptr = len_of uc.mem 0 in
    if leb uc.len at
    then uc
    else if leb ptr at
    then uc
    else set_mem uc (put16 uc.mem at ((ptr - at) % 2 ^ 16))

unfoldable pub uc_put_strs : UcBuf → ℕ → PutOut
uc_put_strs uc key = uc_put uc key 0 0

unfoldable pub uc_add_str : UcBuf → Bytes → UcBuf
uc_add_str uc str =
    let ptr = len_of uc.mem 0 in
    let len = strnlen str 1024 + 1 in
    if ltb uc.len (ptr + len)
    then set_mem uc (put16 uc.mem 0 0)
    else set_mem uc (put16 (copy_to uc.mem ptr (take len (str ++ 0 ∷ []))) 0 ((ptr + len) % 2 ^ 16))

-- A length below the header's is bogus; where the end lies below the start it is negative.
unfoldable pub uc_end_strs : UcBuf → Option ℕ → UcBuf
uc_end_strs uc none = uc
uc_end_strs uc (some at) =
    let ptr = len_of uc.mem 0 in
    if ltb ptr (at + header_size)
    then uc
    else let m = put16 uc.mem at ((ptr - at) % 2 ^ 16) in
      let padded = align4 ptr in
      set_mem uc (put16 m 0 (if ltb uc.len padded then 0 else padded % 2 ^ 16))

unfoldable pub uc_space_left : UcBuf → ℕ
uc_space_left uc = let ptr = len_of uc.mem 0 in if ptr == 0 then 0 else uc.len - ptr

-- `iov->base`, counted from the buffer, and `iov->len`; -ENOBUFS is `none`.
pub record Iov : Type 0 where
  pub base : ℕ
  pub len : ℕ

unfoldable pub uc_iov_hdr : UcBuf → Option Iov
uc_iov_hdr uc =
    let len = len_of uc.mem 0 in
    if ltb uc.len header_size
    then none
    else if ltb len header_size
    then none
    else some (record { base = 2; len = len - 2 })

-- A message of `len` bytes was received at `buf + 2`.
unfoldable pub uc_msg : Memory → ℕ → Option Memory
uc_msg buf len =
    let full = 2 + len in if ltb full header_size then none else some (put16 buf 0 (full % 2 ^ 16))
