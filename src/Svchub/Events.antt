-- ===== src/Svchub/Events.antt =====
-- src/svchub/svchub.c: from an event that epoll reports to its handler. `fail` is the action `die`.
use minibase.Base.{
  refl, ℕ, ◌+◌, ◌*◌, ◌/◌, ◌%◌, ◌^◌, ◌<◌, ◌≡◌, arith, Bool, true, false, Option, none, some, List,
  not, ◌-◌, ltb, leb, ◌==◌, if◌then◌else◌, Bytes, codes,
}
use minibase.Base.Int.{ℤ, is_neg}
use minibase.Base.Memory.{Memory}
use minibase.Svchub.State.{Top, Kernel}
use minibase.Svchub.Ring.{close_proc, check_proc}
use minibase.Svchub.Conn.{is_positive, close_conn, check_socket}
use minibase.Svchub.Boot.{has_died, fails, signal_stop, handle_alarm}
use minibase.Svchub.Children.{Wait, check_children}
use minibase.Svchub.Dispatch.{check_conn}

-- `ep.data.fd` and `ep.events`: EPOLLIN, and any other bit
pub record Event : Type 0 where
  pub key : ℕ
  pub input : Bool
  pub other : Bool

-- What the reads of the handlers get: `sys_read` of the signal and its number, the children that
-- `waitpid` reports, `accept4`, the output of a service, and a message with the result of `uc_recv`.
pub record Inputs : Type 0 where
  pub sigread : ℤ
  pub signo : ℕ
  pub waits : List Wait
  pub accepted : ℤ
  pub output : Option Bytes
  pub buf : Memory
  pub received : ℤ

-- PKEY and its two parts, for indices below 2 ^ 16
unfoldable pub pkey : ℕ → ℕ → ℕ
pkey g k = g * 2 ^ 16 + k

unfoldable pub pkey_group : ℕ → ℕ
pkey_group v = v / 2 ^ 16

unfoldable pub pkey_index : ℕ → ℕ
pkey_index v = v % 2 ^ 16

unfoldable pub check_signal : Kernel → Top → Inputs → Top
unfolding check_children signal_stop handle_alarm
check_signal k c io =
    if is_neg io.sigread
    then fails c (codes "read signalfd")
    else if not (is_positive io.sigread)
    then fails c (codes "signalfd EOF")
    else if io.signo == 17
    then check_children k c io.waits
    else if io.signo == 30
    then signal_stop k c (codes "poweroff")
    else if io.signo == 2
    then signal_stop k c (codes "reboot")
    else if io.signo == 15
    then signal_stop k c (codes "reboot")
    else if io.signo == 14
    then handle_alarm k c
    else fails c (codes "signal")

-- The second test of a `process_` function, behind the handler of the first.
abbrev pub unless_died : Top → (Top → Top) → Top
unless_died c k = if has_died c.log then c else k c

unfoldable pub process_sigfd : Kernel → Top → Event → Inputs → Top
unfolding check_signal
process_sigfd k c ev io =
    unless_died (if ev.input then check_signal k c io else c)
      (λ c1. if ev.other then fails c1 (codes "signalfd lost") else c1)

unfoldable pub process_ctlfd : Top → Event → Inputs → Top
unfolding check_socket
process_ctlfd c ev io =
    unless_died (if ev.input then check_socket c io.accepted else c)
      (λ c1. if ev.other then fails c1 (codes "control lost") else c1)

unfoldable pub process_proc : Kernel → Top → ℕ → Event → Inputs → Top
unfolding check_proc close_proc
process_proc k c idx ev io =
    if leb c.nprocs idx
    then fails c (codes "epoll proc idx out of range")
    else let read = if ev.input then check_proc k c idx io.output else c in
      if ev.other then close_proc read idx else read

unfoldable pub process_conn : Kernel → Top → ℕ → Event → Inputs → Top
unfolding check_conn close_conn
process_conn k c idx ev io =
    if leb c.nconns idx
    then fails c (codes "epoll conn idx out of range")
    else unless_died (if ev.input then check_conn k c idx io.buf io.received else c)
        (λ c1. if ev.other then close_conn c1 idx else c1)

unfoldable pub process_misc : Kernel → Top → ℕ → Event → Inputs → Top
unfolding process_sigfd process_ctlfd
process_misc k c idx ev io =
    if idx == 1
    then process_sigfd k c ev io
    else if idx == 2
    then process_ctlfd c ev io
    else fails c (codes "unexpected epoll event key")

-- One round of the loop in `main`, once epoll has reported.
unfoldable pub wait_poll : Kernel → Top → Event → Inputs → Top
unfolding process_misc process_conn process_proc pkey_group pkey_index
wait_poll k c ev io =
    let group = pkey_group ev.key in
    let idx = pkey_index ev.key in
    if group == 0
    then process_misc k c idx ev io
    else if group == 1
    then process_conn k c idx ev io
    else if group == 2
    then process_proc k c idx ev io
    else fails c (codes "unexpected epoll group")

-- `index_of`: the slot from its address; -1 is `none`.
unfoldable pub index_of : ℕ → ℕ → ℕ → Option ℕ
index_of ptr size ref =
    if ltb ptr ref
    then none
    else if not ((ptr - ref) % size == 0)
    then none
    else some ((ptr - ref) / size)

-- sizeof(struct proc) on the 64-bit targets
abbrev pub proc_size : ℕ
proc_size = 40

proc_key : (i : ℕ) → i < 2 ^ 16 → (pkey_group (pkey 2 i) ≡ 2) × (pkey_index (pkey 2 i) ≡ i)
unfolding pkey_group pkey_index pkey
proc_key i h = (omega arith, omega arith)

-- A service's pipe is watched with a key made from the address of its slot in the table, and the output
-- that is reported for that key is read into the ring of just this slot.
pub wait_poll-proc :
    (k : Kernel) (c : Top) (base i : ℕ) (io : Inputs)
    → i < c.nprocs
    → i < 2 ^ 16
    → (index_of (base + i * proc_size) proc_size base ≡ some i)
      × (wait_poll k c (record { key = pkey 2 i; input = true; other = false }) io
          ≡ check_proc k c i io.output)
unfolding wait_poll index_of process_proc
wait_poll-proc k c base i io valid small =
    let key = proc_key i small in
    let inside : leb c.nprocs i ≡ false = ground arith in
    (ground arith, rw (key.0, key.1, inside) refl)
