-- ===== src/Svchub/Boot.antt =====
-- src/svchub/svchub_boot.c: the phases from startup to shutdown. `fail` ends the process, and is the
-- action `die` with its message; nothing is done after it.

pub mod Kill
pub mod Alarm
use minibase.Base.{
  ℕ, zero, suc, ◌+◌, Bool, true, false, not, ◌&&◌, ◌||◌, Option, none, some, List, ◌∷◌, ◌++◌, ltb,
  ◌==◌, if◌then◌else◌, Bytes, codes,
}
use minibase.Base.Int.{ℤ, pos, negsuc, is_neg}
use minibase.Svchub.State.{
  Phase, startup, running, stopping, shutdown, any_flag, Proc, Action, kill, fork_exec, close_fd,
  alarm, say, die, Top, Kernel, logged, proc_at, put_proc, ebusy, ealready, sigkill, sigterm,
}
use minibase.Svchub.Proc.{Ret, returns}
use minibase.Svchub.Conn.{is_positive}

abbrev pub says : Top → Bytes → Top
says c text = logged c (say text)

abbrev pub fails : Top → Bytes → Top
fails c text = logged c (die text)

-- the process is gone
abbrev pub has_died : List Action → Bool
has_died (die _ ∷ _) = true
has_died _ = false

-- BOOTDIR "/", with the BASE_ETC that configure sets
abbrev pub boot_dir : Bytes
boot_dir = codes "/base/etc/boot/"

-- What `fork` returned. Where it failed the process is gone, and the result is of no account.
unfoldable pub script_forked : Top → Bytes → ℤ → Ret
script_forked c name (negsuc e) = returns (fails c (codes "fork")) (pos 0)
script_forked c name (pos pid) =
    returns (logged (record c { scrpid = pos pid }) (fork_exec (boot_dir ++ name))) (pos 0)

unfoldable pub spawn_script : Kernel → Top → Bytes → Ret
unfolding script_forked
spawn_script k c name =
    if is_neg k.access
    then returns c k.access
    else if is_positive c.scrpid
    then returns c ebusy
    else script_forked c name k.fork

-- `close_socket` is the `close_fd`; its failure is only reported.
unfoldable pub spawn_shutdown : Kernel → Top → Top
unfolding spawn_script
spawn_shutdown k c =
    let closed = logged (record c { phase = shutdown }) (close_fd c.ctlfd) in
    let script : Bytes = elim c.rbmode [ some _ ↦ codes "shutdown" | none ↦ codes "failure" ] in
    let r = spawn_script k closed script in
    if is_neg r.ret then fails r.top (codes "no shutdown script") else r.top

abbrev pub shutdown_exit : Top → ℕ → Top
shutdown_exit c status =
    fails c (if status == 0 then codes "shutdown script exited" else codes "shutdown script failed")

unfoldable pub start_script : Kernel → Top → Top
unfolding spawn_script
start_script k c =
    let r = spawn_script k c (codes "startup") in
    if is_neg r.ret
    then fails r.top (codes "startup")
    else if has_died r.top.log
    then r.top
    else record (r.top) { phase = startup }

unfoldable pub startup_done : Kernel → Top → ℕ → Top
unfolding spawn_script
startup_done k c status =
    if not (status == 0)
    then fails c (codes "startup failed")
    else (spawn_script k (record c { phase = running }) (codes "shell")).top

unfoldable pub stop_con_shell : Kernel → Top → Top
stop_con_shell k c = elim c.scrpid [
  | negsuc n ↦ c
  | pos zero ↦ c
  | pos (suc n) ↦
      let asked = logged c (kill (suc n) sigterm) in
      if is_neg (k.kill (suc n) sigterm) then record asked { scrpid = pos 0 } else asked
]

-- neither unused nor without a process, nor an exit status
abbrev pub is_live : Proc → Bool
is_live p = any_flag p.flags && not (p.pid == 0) && not p.flags.status

-- the slots from `i` on
unfoldable pub stop_from : Kernel → Top → ℕ → ℕ → Top
stop_from k c zero i = c
stop_from k c (suc left) i =
    let p = proc_at c i in
    let asked = logged c (kill p.pid sigterm) in
    stop_from k
      (if not (is_live p)
        then c
        else if is_neg (k.kill p.pid sigterm)
        then asked
        else put_proc asked i (record p { flags = record (p.flags) { killed = true } }))
      left (i + 1)

unfoldable pub stop_all_procs : Kernel → Top → Top
unfolding stop_from stop_con_shell
stop_all_procs k c = stop_con_shell k (stop_from k (says c (codes "stopping all procs")) c.nprocs 0)

unfoldable pub report_from : Top → ℕ → ℕ → Top
report_from c zero i = c
report_from c (suc left) i =
    let p = proc_at c i in
    report_from (if is_live p then says c (codes "waiting for " ++ p.name) else c) left (i + 1)

unfoldable pub report_hung_procs : Top → Top
unfolding report_from
report_hung_procs c =
    let r = report_from c c.nprocs 0 in
    if is_positive r.scrpid then says r (codes "script is still running") else r

unfoldable pub kill_from : Top → ℕ → ℕ → Top
kill_from c zero i = c
kill_from c (suc left) i =
    let p = proc_at c i in
    kill_from
      (if is_live p then put_proc (logged c (kill p.pid sigkill)) i (record p { pid = 0 }) else c)
      left (i + 1)

-- `scrpid` is the last argument.
unfoldable pub kill_script : Top → ℤ → Top
kill_script c (negsuc n) = c
kill_script c (pos zero) = c
kill_script c (pos (suc n)) = logged (record c { scrpid = negsuc 0 }) (kill (suc n) sigkill)

unfoldable pub force_shutdown : Kernel → Top → Top
unfolding kill_from kill_script spawn_shutdown
force_shutdown k c =
    let killed = kill_from (says c (codes "killing remaining services")) c.nprocs 0 in
    spawn_shutdown k (kill_script killed killed.scrpid)

abbrev pub is_stopping : Phase → Bool
is_stopping stopping = true
is_stopping _ = false

abbrev pub is_shutdown : Phase → Bool
is_shutdown shutdown = true
is_shutdown _ = false

abbrev pub is_running : Phase → Bool
is_running running = true
is_running _ = false

unfoldable pub handle_alarm : Kernel → Top → Top
unfolding report_hung_procs force_shutdown
handle_alarm k c =
    if not (is_stopping c.phase)
    then c
    else if ltb c.sigcnt 3
    then logged (report_hung_procs (record c { sigcnt = c.sigcnt + 1 })) alarm
    else force_shutdown k (record c { sigcnt = 0 })

unfoldable pub command_stop : Kernel → Top → Option Bytes → Ret
unfolding stop_all_procs
command_stop k c mode =
    if is_stopping c.phase || is_shutdown c.phase
    then returns c ealready
    else let told =
        says c (elim mode [
          | some m ↦ codes "initiating " ++ m
          | none ↦ codes "aborting on a failure"
        ]) in
      returns
        (logged (stop_all_procs k (record told { phase = stopping; rbmode = mode; sigcnt = 0 }))
          alarm)
        (pos 0)

unfoldable pub signal_stop : Kernel → Top → Bytes → Top
unfolding force_shutdown command_stop
signal_stop k c script =
    if is_stopping c.phase
    then force_shutdown k c
    else if is_shutdown c.phase
    then fails c (codes "aborting")
    else let r = command_stop k c (some script) in
      if is_neg r.ret then says r.top (script ++ codes " handler") else r.top
