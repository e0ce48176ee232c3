-- ===== src/Svchub/Ring.antt =====
-- src/svchub/svchub_proc.c and svchub_ctrl.c: the ring buffer that keeps a service's output, how it
-- is filled and how it is handed out.
pub mod Read
pub mod Stream
use minibase.Base.{
  ℕ, ◌+◌, ◌-◌, ◌%◌, Option, none, some, [], ◌++◌, ltb, leb, if◌then◌else◌, Bytes, length, take,
  drop,
}
use minibase.Base.Int.{negsuc, is_neg}
use minibase.Base.Memory.{Memory, load, copy_to}
use minibase.Svchub.State.{
  ring_size, Proc, unwatch_fd, close_fd, map_ring, Top, Kernel, logged, proc_at, put_proc,
}

-- `readv` fills the part from `off` to the end of the ring first, then the part before `off`.
unfoldable pub readv_ring : Memory → ℕ → Bytes → Memory
readv_ring ring off bytes =
    copy_to (copy_to ring off (take (ring_size - off) bytes)) 0 (drop (ring_size - off) bytes)

unfoldable pub advance : ℕ → ℕ
advance ptr = if ltb ring_size ptr then ring_size + ptr % ring_size else ptr

-- (A `close` that fails ends the process.)
unfoldable pub close_proc : Top → ℕ → Top
close_proc c i =
    let fd = (proc_at c i).fd in
    if is_neg fd
    then c
    else logged (logged (put_proc c i (record (proc_at c i) { fd = negsuc 0 })) (unwatch_fd fd))
        (close_fd fd)

-- `read` are the bytes that `readv` got, 4096 at most, or none where it failed.
unfoldable pub read_into : Top → ℕ → Memory → ℕ → Option Bytes → Top
unfolding readv_ring advance close_proc
read_into c i ring ptr none = close_proc c i
read_into c i ring ptr (some bytes) = put_proc c i (record (proc_at c i) {
  ring = some (readv_ring ring (ptr % ring_size) bytes);
  ptr = advance (ptr + length bytes);
})

-- a fresh anonymous mapping
abbrev pub zeroed : Memory
zeroed a = 0

-- `pc->buf` decides whether a ring has to be mapped first.
unfoldable pub read_ring : Kernel → Top → ℕ → Option Bytes → Option Memory → Top
unfolding read_into close_proc
read_ring k c i read (some ring) = read_into c i ring (proc_at c i).ptr read
read_ring k c i read none =
    if k.mapped
    then read_into
        (logged (put_proc c i (record (proc_at c i) { ring = some zeroed; ptr = 0 })) map_ring) i
        zeroed 0 read
    else close_proc c i

unfoldable pub check_proc : Kernel → Top → ℕ → Option Bytes → Top
unfolding read_ring
check_proc k c i read = read_ring k c i read (proc_at c i).ring

-- what `cmd_getbuf` sends behind the header: one piece of the ring, or two
unfoldable pub ring_pieces : Memory → ℕ → Bytes
ring_pieces ring ptr =
    let off = ptr % ring_size in
    if leb ptr ring_size
    then load ring 0 ptr
    else load ring off (ring_size - off) ++ load ring 0 off

-- nothing without a ring
unfoldable pub output_of : Option Memory → ℕ → Bytes
unfolding ring_pieces
output_of none ptr = []
output_of (some ring) ptr = ring_pieces ring ptr

abbrev pub ring_output : Proc → Bytes
ring_output p = output_of p.ring p.ptr
