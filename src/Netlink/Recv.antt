-- ===== src/Netlink/Recv.antt =====
-- lib/netlink/recv.c and cast_msg.c: the buffer that is shifted as messages are taken from it.
pub mod Stream
pub mod Run
use minibase.Base.{
  ℕ, ◌+◌, ◌*◌, Bool, Option, none, some, [], ◌++◌, ltb, leb, if◌then◌else◌, Bytes, length, take,
  drop, get_or,
}
use minibase.Base.Int.{ℤ, pos, negsuc}

-- sizeof(struct nlmsg)
abbrev pub nlmsg_size : ℕ
nlmsg_size = 16

-- `msg->len`, a little-endian uint32_t
abbrev pub nl_len : Bytes → ℕ
nl_len msg =
    get_or msg 0 0 + 256 * get_or msg 1 0 + 65536 * get_or msg 2 0 + 16777216 * get_or msg 3 0

-- Whether a message stands whole in the `len` bytes there; `len` is not negative.
unfoldable pub nl_msg : Bytes → Bool
nl_msg bytes =
    if ltb (length bytes) nlmsg_size
    then Bool.false
    else if ltb (length bytes) (nl_len bytes)
    then Bool.false
    else Bool.true

-- The bytes from `buf` to `ptr`, the offset of `msg`, and that of `end`.
pub record NrBuf : Type 0 where
  pub bytes : Bytes
  pub msg : ℕ
  pub size : ℕ

unfoldable pub nr_buf_set : ℕ → NrBuf
nr_buf_set len = record { bytes = []; msg = 0; size = len }

unfoldable pub nr_reset : NrBuf → NrBuf
nr_reset nr = record nr { bytes = []; msg = 0 }

abbrev pub enobufs : ℤ
enobufs = negsuc 104

-- What the kernel answers: an error, or bytes, as many as were asked for at most.
pub data Answer : Type 0 where
  failed : ℕ → Answer
  received : Bytes → Answer

-- The result of `sys_recv`; 0 and errors change nothing.
unfoldable pub received_into : NrBuf → Answer → ℤ × NrBuf
received_into nr (failed e) = (negsuc e, nr)
received_into nr (received text) = (pos (length text), record nr { bytes = nr.bytes ++ text })

unfoldable pub nr_recv : NrBuf → Answer → ℤ × NrBuf
unfolding received_into
nr_recv nr answer =
    let got = received_into nr answer in
    if leb nr.size (length nr.bytes) then (enobufs, nr) else got

-- The message that is returned, as its bytes, and the buffer behind the call.
unfoldable pub nr_next : NrBuf → Option Bytes × NrBuf
unfolding nl_msg
nr_next nr =
    let rest = drop nr.msg nr.bytes in
    let next = nr.msg + nl_len rest in
    if leb nr.size nr.msg
    then (none, nr)
    else if nl_msg rest
    then (
      some (take (nl_len rest) rest),
      if ltb next (length nr.bytes)
          then record nr { msg = next }
          else record nr { bytes = []; msg = 0 },
    )
    else if ltb 0 nr.msg
    then (none, record nr { bytes = rest; msg = 0 })
    else (none, nr)
