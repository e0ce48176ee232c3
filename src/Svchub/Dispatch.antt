-- ===== src/Svchub/Dispatch.antt =====
-- src/svchub/svchub_ctrl.c: the table of the commands, and one message of a connection.
use minibase.Base.{ℕ, true, false, Option, none, some, ◌==◌, if◌then◌else◌}
use minibase.Base.Int.{ℤ, pos, negsuc, is_neg}
use minibase.Base.Memory.{Memory}
use minibase.Nlusctl.Pack.{uc_msg}
use minibase.Nlusctl.Attr.{uc_repcode}
use minibase.Svchub.State.{StartFlags, Top, Kernel, enosys}
use minibase.Svchub.Proc.{Ret, returns}
use minibase.Svchub.Conn.{is_positive, close_conn}
use minibase.Svchub.Ctrl.{
  reply, cmd_list, cmd_reboot, cmd_shutdown, cmd_poweroff, cmd_status, cmd_getbuf, common_start,
  cmd_stop, cmd_flush, cmd_remove, cmd_sighup,
}

abbrev pub plain : StartFlags
plain = record { once = false; pass = false }

abbrev pub once_flag : StartFlags
once_flag = record { once = true; pass = false }

abbrev pub pass_flag : StartFlags
pass_flag = record { once = false; pass = true }

-- the numbers of common.h
unfoldable pub run_command : Kernel → Top → ℕ → Memory → ℕ → Ret
unfolding cmd_list cmd_reboot cmd_shutdown cmd_poweroff cmd_status cmd_getbuf common_start cmd_stop
    cmd_flush cmd_remove cmd_sighup
run_command k c j msg cmd =
    if cmd == 1
    then cmd_list k c j msg
    else if cmd == 12
    then cmd_reboot k c
    else if cmd == 13
    then cmd_shutdown k c
    else if cmd == 14
    then cmd_poweroff k c
    else if cmd == 2
    then cmd_status k c j msg
    else if cmd == 3
    then cmd_getbuf k c j msg
    else if cmd == 4
    then cmd_flush k c msg
    else if cmd == 5
    then cmd_remove k c msg
    else if cmd == 8
    then cmd_stop k c j msg
    else if cmd == 9
    then cmd_sighup k c msg
    else if cmd == 16
    then common_start k c msg plain
    else if cmd == 17
    then common_start k c msg once_flag
    else if cmd == 18
    then common_start k c msg pass_flag
    else returns c enosys

unfoldable pub run_repcode : Kernel → Top → ℕ → Memory → ℤ → Ret
unfolding run_command
run_repcode k c j msg (pos cmd) = run_command k c j msg cmd
run_repcode k c j msg (negsuc n) = returns c enosys

unfoldable pub dispatch : Kernel → Top → ℕ → Memory → Ret
unfolding run_repcode uc_repcode
dispatch k c j msg = run_repcode k c j msg (uc_repcode msg 0)

-- A positive result says that the command has replied.
unfoldable pub answer : Kernel → Top → ℕ → Option Memory → Top
unfolding dispatch reply close_conn
answer k c j none = close_conn c j
answer k c j (some msg) =
    let r = dispatch k c j msg in
    let coded = reply k r.top j r.ret in
    if is_positive r.ret
    then r.top
    else if is_neg coded.ret
    then close_conn coded.top j
    else coded.top

-- `buf` holds what was received behind its first two bytes, and `ret` is what `uc_recv` returns.
unfoldable pub check_conn : Kernel → Top → ℕ → Memory → ℤ → Top
unfolding answer uc_msg
check_conn k c j buf (negsuc e) = close_conn c j
check_conn k c j buf (pos len) = answer k c j (uc_msg buf len)
