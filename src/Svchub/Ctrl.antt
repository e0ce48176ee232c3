-- ===== src/Svchub/Ctrl.antt =====
-- src/svchub/svchub_ctrl.c: the commands that come over a connection. A message is memory that starts
-- at 0. The buffers on the stack, whose contents the code does not read, start as zeroes.
use minibase.Base.{
  ℕ, zero, suc, ◌+◌, ◌-◌, ◌*◌, ◌%◌, ◌^◌, not, ◌&&◌, Option, none, some, [], ◌++◌, ltb, leb, ◌==◌,
  if◌then◌else◌, Bytes, length, take, deref, codes,
}
use minibase.Base.Int.{ℤ, pos, negsuc, is_neg, signed32}
use minibase.Base.Memory.{Memory, load}
use minibase.Format.Write.{strnlen}
use minibase.Nlusctl.Field.{le_bytes}
use minibase.Nlusctl.Pack.{
  UcBuf, uc_buf_set, uc_put_hdr, uc_put_nest, uc_put_str, uc_put_strn, uc_put_int, uc_put_flag,
  uc_end_nest, uc_space_left, Iov, uc_iov_hdr,
}
use minibase.Nlusctl.Attr.{uc_get_int, uc_get_str}
use minibase.Svchub.State.{
  name_len, StartFlags, Proc, send_bytes, Top, Kernel, logged, proc_at, conn_at, put_conn, einval,
  enoent, enobufs, sighup,
}
use minibase.Svchub.Proc.{
  Ret, returns, find_by_name, start_proc, stop_proc, flush_proc, remove_proc, kill_proc,
}
use minibase.Svchub.Ring.{zeroed, ring_output}
use minibase.Svchub.Conn.{is_positive}
use minibase.Svchub.Boot.{command_stop}

-- common.h
abbrev pub attr_proc : ℕ
attr_proc = 1

abbrev pub attr_name : ℕ
attr_name = 2

abbrev pub attr_pid : ℕ
attr_pid = 4

abbrev pub attr_ring : ℕ
attr_ring = 5

abbrev pub attr_exit : ℕ
attr_exit = 6

abbrev pub attr_next : ℕ
attr_next = 7

abbrev pub attr_time : ℕ
attr_time = 8

-- sizeof(buf) in `check_conn`: no C string is longer
abbrev pub message_size : ℕ
message_size = 200

abbrev pub cstr_at : Memory → ℕ → Bytes
cstr_at m p = let bytes = load m p message_size in take (strnlen bytes message_size) bytes

abbrev pub name_of : Memory → Option Bytes
name_of msg = elim (uc_get_str msg 0 attr_name) [ some p ↦ some (cstr_at msg p) | none ↦ none ]

-- `uc_send` behind `uc_iov_hdr`
unfoldable pub send_iov : Kernel → Top → ℤ → UcBuf → Bytes → Option Iov → Ret
send_iov k c fd uc more none = returns c enobufs
send_iov k c fd uc more (some iov) =
    returns (logged c (send_bytes fd (load uc.mem iov.base iov.len ++ more))) (k.send fd)

unfoldable pub send_reply : Kernel → Top → ℕ → UcBuf → Ret
unfolding send_iov uc_iov_hdr
send_reply k c j uc =
    let fd = (conn_at c j).fd in
    let r = send_iov k c fd uc [] (uc_iov_hdr uc) in
    if is_neg (k.writable fd)
    then returns c (k.writable fd)
    else if is_neg r.ret
    then r
    else returns r.top (pos 1)

-- The header is in order, `iov` what `uc_iov_hdr` made of it, and `more` the pieces behind it.
unfoldable pub send_multi : Kernel → Top → ℕ → UcBuf → Iov → Bytes → Ret
unfolding send_iov
send_multi k c j uc iov more =
    let fd = (conn_at c j).fd in
    let r = send_iov k c fd uc more (some iov) in
    if is_neg (k.writable fd)
    then returns c (k.writable fd)
    else if is_positive r.ret
    then r
    else returns r.top (pos 1)

-- an int as the word that `uc_put_hdr` is given
abbrev pub word_of : ℤ → ℕ
word_of (pos n) = n
word_of (negsuc n) = 2 ^ 32 - (n + 1)

unfoldable pub reply : Kernel → Top → ℕ → ℤ → Ret
unfolding send_reply uc_put_hdr uc_buf_set
reply k c j err = send_reply k c j (uc_put_hdr (uc_buf_set zeroed 20) (word_of err))

-- What `uc_put_str` reads of a name: one that fills its array is read on into the pid behind it, which
-- has a zero byte.
abbrev pub name_read : Proc → Bytes
name_read p =
    let pid = le_bytes 4 p.pid in
    if length p.name == name_len then p.name ++ take (strnlen pid 4) pid else p.name

unfoldable pub put_entry : UcBuf → Proc → UcBuf
unfolding uc_put_nest uc_put_str uc_put_int uc_put_flag uc_end_nest
put_entry uc p =
    let nest = uc_put_nest uc attr_proc in
    let named = uc_put_str nest.uc attr_name (name_read p) in
    let state =
      if p.flags.status
      then uc_put_int named attr_exit (p.pid % 2 ^ 16)
      else if not (p.pid == 0)
      then uc_put_int named attr_pid p.pid
      else named in
    uc_end_nest (if not (p.ptr == 0) then uc_put_flag state attr_ring else state) nest.at

-- the message, and the slot at which the loop stopped
unfoldable pub list_from : Top → UcBuf → ℕ → ℕ → UcBuf × ℕ
unfolding put_entry uc_space_left
list_from c uc zero i = (uc, i)
list_from c uc (suc left) i =
    let p = proc_at c i in
    let skipped = deref p.name == 0 in
    let rest = list_from c (if skipped then uc else put_entry uc p) left (i + 1) in
    if not skipped && ltb (uc_space_left uc) 128 then (uc, i) else rest

-- `start` as the message gives it
abbrev pub start_of : Memory → ℤ
start_of msg = elim (uc_get_int msg 0 attr_next) [
  | some p ↦ signed32 (msg p + 256 * msg (p + 1) + 65536 * msg (p + 2) + 16777216 * msg (p + 3))
  | none ↦ pos 0
]

unfoldable pub list_reply : Kernel → Top → ℕ → ℤ → Ret
unfolding list_from send_reply uc_buf_set uc_put_hdr uc_put_int
list_reply k c j (negsuc n) = returns c einval
list_reply k c j (pos start) =
    let (uc, i) = list_from c (uc_put_hdr (uc_buf_set zeroed 2048) 0) (c.nprocs - start) start in
    if leb c.nprocs start
    then returns c (pos 0)
    else send_reply k c j (if ltb i c.nprocs then uc_put_int uc attr_next i else uc)

unfoldable pub cmd_list : Kernel → Top → ℕ → Memory → Ret
unfolding list_reply uc_get_int
cmd_list k c j msg = list_reply k c j (start_of msg)

abbrev pub check : Ret → Ret
check r = if is_neg r.ret then r else returns r.top (pos 0)

unfoldable pub cmd_reboot : Kernel → Top → Ret
unfolding command_stop
cmd_reboot k c = check (command_stop k c (some (codes "reboot")))

unfoldable pub cmd_shutdown : Kernel → Top → Ret
unfolding command_stop
cmd_shutdown k c = check (command_stop k c (some (codes "shutdown")))

unfoldable pub cmd_poweroff : Kernel → Top → Ret
unfolding command_stop
cmd_poweroff k c = check (command_stop k c (some (codes "poweroff")))

unfoldable pub status_message : Proc → UcBuf
unfolding uc_put_hdr uc_buf_set uc_put_strn uc_put_int uc_put_flag
status_message p =
    let named = uc_put_strn (uc_put_hdr (uc_buf_set zeroed 128) 0) attr_name p.name name_len in
    let state =
      if p.flags.status
      then uc_put_int named attr_exit p.pid
      else if not (p.pid == 0)
      then uc_put_int named attr_pid p.pid
      else named in
    let ring = if not (p.ptr == 0) then uc_put_flag state attr_ring else state in
    if not (p.time == 0) then uc_put_int ring attr_time p.time else ring

-- the commands that look a service up first
abbrev pub with_proc : Top → Memory → (ℕ → Ret) → Ret
with_proc c msg k = elim (name_of msg) [
  | none ↦ returns c einval
  | some name ↦ elim (find_by_name c name) [ some i ↦ k i | none ↦ returns c enoent ]
]

unfoldable pub cmd_status : Kernel → Top → ℕ → Memory → Ret
unfolding send_reply status_message uc_get_str find_by_name
cmd_status k c j msg = with_proc c msg (λ i. send_reply k c j (status_message (proc_at c i)))

unfoldable pub send_ring : Kernel → Top → ℕ → Proc → UcBuf → Option (ℕ → ℕ) → Option Iov → Ret
unfolding send_multi
send_ring k c j p uc none iov = returns c (pos 0)
send_ring k c j p uc (some ring) none = returns c enobufs
send_ring k c j p uc (some ring) (some iov) = send_multi k c j uc iov (ring_output p)

unfoldable pub cmd_getbuf : Kernel → Top → ℕ → Memory → Ret
unfolding send_ring uc_put_hdr uc_buf_set uc_iov_hdr uc_get_str find_by_name
cmd_getbuf k c j msg =
    let uc = uc_put_hdr (uc_buf_set zeroed 50) 0 in
    with_proc c msg (λ i. send_ring k c j (proc_at c i) uc (proc_at c i).ring (uc_iov_hdr uc))

-- the commands that need a name
abbrev pub with_name : Top → Memory → (Bytes → Ret) → Ret
with_name c msg k = elim (name_of msg) [ some name ↦ k name | none ↦ returns c einval ]

unfoldable pub common_start : Kernel → Top → Memory → StartFlags → Ret
unfolding start_proc uc_get_str
common_start k c msg flags = with_name c msg (λ name. start_proc k c name flags)

unfoldable pub cmd_stop : Kernel → Top → ℕ → Memory → Ret
unfolding stop_proc uc_get_str
cmd_stop k c j msg = with_name c msg (λ name.
    let r = stop_proc k c name in
    elim r.ret [
      | negsuc n ↦ r
      | pos pid ↦ returns (put_conn r.top j (record (conn_at r.top j) { pid = pid })) (pos 0)
    ])

unfoldable pub cmd_flush : Kernel → Top → Memory → Ret
unfolding flush_proc uc_get_str
cmd_flush k c msg = with_name c msg (λ name. check (flush_proc k c name))

unfoldable pub cmd_remove : Kernel → Top → Memory → Ret
unfolding remove_proc uc_get_str
cmd_remove k c msg = with_name c msg (λ name. remove_proc k c name)

unfoldable pub cmd_sighup : Kernel → Top → Memory → Ret
unfolding kill_proc uc_get_str
cmd_sighup k c msg = with_name c msg (λ name. check (kill_proc k c name sighup))
