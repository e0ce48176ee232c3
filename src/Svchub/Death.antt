-- ===== src/Svchub/Death.antt =====
-- src/svchub/svchub_proc.c: what happens when a service ends.
use minibase.Base.{
  ℕ, ◌-◌, ◌/◌, ◌%◌, ◌+◌, Bool, true, false, not, ◌&&◌, ◌==◌, if◌then◌else◌, Bytes, codes,
}
use minibase.Base.Int.{pos, is_neg, pred_ℤ}
use minibase.Base.Memory.{load}
use minibase.Format.Put.{Out}
use minibase.Format.Write.{fmtstr, fmtstrn}
use minibase.Format.Number.{fmti64}
use minibase.Svchub.State.{name_len, Proc, blank_proc, say, Top, Kernel, logged, proc_at, put_proc}
use minibase.Svchub.Proc.{flush_ring_buf, spawn_proc, ran_long_enough}
use minibase.Svchub.Ring.{zeroed, close_proc}
use minibase.Svchub.Conn.{notify_dead}

-- WIFEXITED, WEXITSTATUS and WTERMSIG
abbrev pub exited : ℕ → Bool
exited status = status % 128 == 0

abbrev pub exit_status : ℕ → ℕ
exit_status status = status / 256 % 256

abbrev pub term_signal : ℕ → ℕ
term_signal status = status % 128

-- WIFSTOPPED
abbrev pub stopped : ℕ → Bool
stopped status = status % 256 == 0x7F

abbrev pub errtag : Bytes
errtag = codes "svchub"

abbrev pub report_len : ℕ
report_len = 200

-- The line on stderr. The buffer starts at 0.
unfoldable pub report_dead : Proc → ℕ → Bytes
report_dead p status =
    let e = report_len - 1 in
    let o1 = fmtstr zeroed 0 e errtag in
    let o2 = fmtstr o1.mem o1.ptr e (codes ": ") in
    let o3 = fmtstrn o2.mem o2.ptr e p.name name_len in
    let exit_text = fmtstr o3.mem o3.ptr e (codes " exit ") in
    let signal_text = fmtstr o3.mem o3.ptr e (codes " signal ") in
    let o : Out =
      if exited status
      then fmti64 exit_text.mem exit_text.ptr e (pos (exit_status status))
      else if not (stopped status)
      then fmti64 signal_text.mem signal_text.ptr e (pos (term_signal status))
      else fmtstr o3.mem o3.ptr e (codes " died") in
    load (λ a. if a == o.ptr then 10 else o.mem a) 0 (o.ptr + 1)

abbrev pub mark_stopped : Top → ℕ → Top
mark_stopped c i =
    let p = proc_at c i in
    put_proc c i (record p { flags = record (p.flags) { killed = false }; pid = 0; time = 0 })

abbrev pub mark_died : Top → ℕ → ℕ → Top
mark_died c i status =
    let p = proc_at c i in
    put_proc c i (record p { flags = record (p.flags) { status = true }; pid = status })

-- behind the report
unfoldable pub respawn : Kernel → Top → ℕ → ℕ → Top
unfolding ran_long_enough spawn_proc
respawn k c i status =
    let (timed, long) = ran_long_enough k c i in
    let r = spawn_proc k timed i in
    if (proc_at c i).flags.once
    then mark_died c i status
    else if not long
    then mark_died (logged timed (say (codes "not respawning"))) i status
    else if is_neg r.ret
    then mark_died (logged r.top (say (codes "cannot respawn"))) i status
    else r.top

unfoldable pub proc_died : Kernel → Top → ℕ → ℕ → Top
unfolding close_proc notify_dead flush_ring_buf respawn report_dead
proc_died k c i status =
    let p = proc_at c i in
    let closed = close_proc (record c { nalive = pred_ℤ c.nalive }) i in
    if p.flags.killed
    then notify_dead k (mark_stopped closed i) p.pid
    else if p.flags.once && status == 0
    then put_proc (flush_ring_buf k closed i).top i blank_proc
    else respawn k (logged closed (say (report_dead (proc_at closed i) status))) i status
