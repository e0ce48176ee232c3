-- ===== src/Netlink/Pack.antt =====
-- lib/netlink/pack*.c: putting together a message to the kernel. The end of the attributes is in `ptr`, and
-- a `ptr` behind `end` marks a message that did not fit.
pub mod Put
pub mod Ops
use minibase.Base.{
  ℕ, zero, suc, ◌+◌, ◌-◌, ◌*◌, ◌/◌, ◌%◌, ◌^◌, Bool, Option, none, some, [], ◌∷◌, ◌++◌, ltb, leb,
  ◌==◌, not, true, false, if◌then◌else◌, Bytes, length, take,
}
use minibase.Base.Int.{ℤ, negsuc}
use minibase.Base.Memory.{Memory, store, copy_to, load}
use minibase.Format.Write.{strnlen}
use minibase.Nlusctl.Field.{put16, le_bytes, header_size, align4}
use minibase.Netlink.Recv.{nlmsg_size, enobufs}
use minibase.Netlink.Attr.{nlgen_size}

-- `struct ncbuf`, with the memory that it points to. Sizes are far below 2 ^ 32.
pub record NcBuf : Type 0 where
  pub mem : Memory
  pub brk : ℕ
  pub ptr : ℕ
  pub end : ℕ

unfoldable pub nc_buf_set : Memory → ℕ → ℕ → NcBuf
nc_buf_set m buf size = record { mem = m; brk = buf; ptr = buf; end = buf + size }

-- The flag 1 is NLM_F_REQUEST. The length is left for `nc_send`.
unfoldable pub nc_header : NcBuf → ℕ → ℕ → ℕ → NcBuf
nc_header nc type flags seq =
    let m1 = put16 nc.mem (nc.brk + 4) (type % 2 ^ 16) in
    let m2 = put16 m1 (nc.brk + 6) ((flags / 2 * 2 + 1) % 2 ^ 16) in
    let m3 = copy_to (copy_to m2 (nc.brk + 8) (le_bytes 4 seq)) (nc.brk + 12) (le_bytes 4 0) in
    if ltb nc.end (nc.brk + nlmsg_size)
    then record nc { ptr = nc.end + 1 }
    else record nc { mem = m3; ptr = nc.brk + nlmsg_size }

-- memzero
abbrev pub zeros : ℕ → Bytes
zeros zero = []
zeros (suc n) = 0 ∷ zeros n

-- Whether there was room, and the buffer behind the call; the place that is returned is `brk`.
unfoldable pub nc_fixed : NcBuf → ℕ → Bool × NcBuf
nc_fixed nc size =
    let over : Bool × NcBuf = (false, record nc { ptr = nc.end + 1 }) in
    let cleared = copy_to nc.mem (nc.brk + nlmsg_size) (zeros (size - nlmsg_size)) in
    if leb size nlmsg_size
    then over
    else if not (nc.ptr == nc.brk + nlmsg_size)
    then over
    else if ltb nc.end (nc.brk + size)
    then over
    else (true, record nc { mem = cleared; ptr = nc.brk + size })

abbrev pub gen_fields : Bool × NcBuf → ℕ → ℕ → NcBuf
gen_fields (false, nc) cmd ver = nc
gen_fields (true, nc) cmd ver = record nc {
  mem = store (store nc.mem (nc.brk + 16) (cmd % 256)) (nc.brk + 17) (ver % 256);
}

unfoldable pub nc_gencmd : NcBuf → ℕ → ℕ → NcBuf
unfolding nc_fixed
nc_gencmd nc cmd ver = gen_fields (nc_fixed nc nlgen_size) cmd ver

-- The buffer behind a call, and the place that it returns (NULL is `none`).
pub record Slot : Type 0 where
  pub nc : NcBuf
  pub at : Option ℕ

-- The test of the three that `nc_fixed`, `nc_put_` and `nc_put_nest` make, of which the last is met by every
-- `ptr` behind a header.
abbrev pub refused : NcBuf → ℕ → Option Slot
refused nc next =
    if ltb nc.end nc.ptr
    then some (record { nc = nc; at = none })
    else if ltb nc.ptr nc.brk
    then some (record { nc = nc; at = none })
    else if ltb nc.end next
    then some (record { nc = record nc { ptr = nc.end + 1 }; at = none })
    else if ltb next (nc.brk + nlmsg_size)
    then some (record { nc = nc; at = none })
    else none

abbrev pub or_else : Option Slot → Slot → Slot
or_else (some s) later = s
or_else none later = later

unfoldable pub nc_put_ : NcBuf → ℕ → ℕ → Slot
nc_put_ nc key len =
    let full = header_size + len in
    let need = align4 full in
    let ret = nc.ptr in
    let m1 = if ltb full need then copy_to nc.mem (ret + full / 4 * 4) (le_bytes 4 0) else nc.mem in
    let m2 = put16 (put16 m1 (ret + 2) (key % 2 ^ 16)) ret (full % 2 ^ 16) in
    or_else (refused nc (ret + need))
      (record { nc = record nc { mem = m2; ptr = ret + need }; at = some (ret + header_size) })

-- if(dst) memcpy(dst, …)
abbrev pub with_data : Slot → Bytes → NcBuf
with_data s text = elim s.at [
  | some dst ↦ record (s.nc) { mem = copy_to s.nc.mem dst text }
  | none ↦ s.nc
]

unfoldable pub nc_put : NcBuf → ℕ → Bytes → NcBuf
unfolding nc_put_
nc_put nc key text = with_data (nc_put_ nc key (length text)) text

unfoldable pub nc_put_int : NcBuf → ℕ → ℕ → NcBuf
unfolding nc_put_
nc_put_int nc key val = with_data (nc_put_ nc key 4) (le_bytes 4 val)

unfoldable pub nc_put_byte : NcBuf → ℕ → ℕ → NcBuf
unfolding nc_put_
nc_put_byte nc key val = with_data (nc_put_ nc key 1) (le_bytes 1 val)

-- The bytes of `str` end in a NUL.
unfoldable pub nc_put_str : NcBuf → ℕ → Bytes → NcBuf
unfolding nc_put_
nc_put_str nc key str =
    let len = strnlen str 1024 + 1 in with_data (nc_put_ nc key len) (take len (str ++ 0 ∷ []))

unfoldable pub nc_put_flag : NcBuf → ℕ → NcBuf
unfolding nc_put_
nc_put_flag nc key = (nc_put_ nc key 0).nc

unfoldable pub nc_put_nest : NcBuf → ℕ → Slot
nc_put_nest nc type = or_else (refused nc (nc.ptr + header_size)) (record {
  nc = record nc { mem = put16 nc.mem (nc.ptr + 2) (type % 2 ^ 16); ptr = nc.ptr + header_size };
  at = some nc.ptr;
})

unfoldable pub nc_end_nest : NcBuf → ℕ → NcBuf
nc_end_nest nc at =
    if ltb at nc.brk
    then nc
    else if ltb nc.ptr at
    then nc
    else if ltb nc.ptr (at + header_size)
    then nc
    else record nc { mem = put16 nc.mem at ((nc.ptr - at) % 2 ^ 16) }

abbrev pub einval : ℤ
einval = negsuc 21

-- What `nc_send` hands to the kernel, with the message's length filled in, or the error.
pub data Sent : Type 0 where
  error : ℤ → Sent
  bytes : Memory → Bytes → Sent

unfoldable pub nc_send : NcBuf → Sent
nc_send nc =
    let len = nc.ptr - nc.brk in
    let m = copy_to nc.mem nc.brk (le_bytes 4 len) in
    if ltb nc.end nc.ptr
    then error enobufs
    else if ltb nc.ptr nc.brk
    then error enobufs
    else if ltb nc.ptr (nc.brk + nlmsg_size)
    then error einval
    else bytes m (load m nc.brk len)
