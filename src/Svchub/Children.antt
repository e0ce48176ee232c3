-- ===== src/Svchub/Children.antt =====
-- src/svchub/svchub_boot.c: the end of a script, and the children that have to be waited for.
use minibase.Base.{
  ℕ, zero, suc, ◌+◌, Bool, false, not, ◌||◌, Option, none, some, List, [], ◌∷◌, ◌==◌, if◌then◌else◌,
  codes,
}
use minibase.Base.Int.{ℤ, pos, negsuc, is_neg}
use minibase.Svchub.State.{unknown, startup, running, stopping, shutdown, Proc, Top, Kernel}
use minibase.Svchub.Conn.{is_positive}
use minibase.Svchub.Death.{proc_died}
use minibase.Svchub.Boot.{
  has_died, says, fails, startup_done, shutdown_exit, command_stop, spawn_shutdown, is_shutdown,
  is_running,
}

unfoldable pub shell_exit : Kernel → Top → ℕ → Top
unfolding command_stop
shell_exit k c status =
    let told =
      says c (if status == 0 then codes "console shell exited" else codes "console shell failed") in
    let r = command_stop k told none in
    if is_neg r.ret then fails r.top (codes "cannot shutdown") else r.top

unfoldable pub script_exit : Kernel → Top → ℕ → Top
unfolding startup_done shell_exit
script_exit k c status =
    let c1 = record c { scrpid = pos 0; phase = unknown } in
    elim c.phase [
      | startup ↦ startup_done k c1 status
      | shutdown ↦ shutdown_exit c1 status
      | running ↦ shell_exit k c1 status
      | stopping ↦ c1
      | unknown ↦ c1
    ]

unfoldable pub find_pid_from : List Proc → ℕ → ℕ → ℕ → Option ℕ
find_pid_from [] left i pid = none
find_pid_from (p ∷ ps) zero i pid = none
find_pid_from (p ∷ ps) (suc left) i pid =
    let rest = find_pid_from ps left (i + 1) pid in
    if p.flags.status then rest else if p.pid == pid then some i else rest

unfoldable pub find_by_pid : Top → ℕ → Option ℕ
unfolding find_pid_from
find_by_pid c pid = if pid == 0 then none else find_pid_from c.procs c.nprocs 0 pid

-- A child that `waitpid` reports: its pid, its status, and what the kernel answers meanwhile.
pub record Wait : Type 0 where
  pub pid : ℕ
  pub status : ℕ
  pub kernel : Kernel

abbrev pub is_pid : ℤ → ℕ → Bool
is_pid (pos n) pid = n == pid
is_pid (negsuc n) pid = false

unfoldable pub reap : Top → Wait → Top
unfolding script_exit find_by_pid proc_died
reap c w =
    if is_pid c.scrpid w.pid
    then script_exit w.kernel c w.status
    else elim (find_by_pid c w.pid) [ some i ↦ proc_died w.kernel c i w.status | none ↦ c ]

unfoldable pub reap_all : Top → List Wait → Top
unfolding reap
reap_all c [] = c
reap_all c (w ∷ ws) = if has_died c.log then c else reap_all (reap c w) ws

abbrev pub is_pos_zero : ℤ → Bool
is_pos_zero (pos n) = n == 0
is_pos_zero (negsuc n) = false

unfoldable pub after_children : Kernel → Top → Top
unfolding spawn_shutdown
after_children k c =
    if not (is_pos_zero c.nalive) || is_positive c.scrpid
    then c
    else if is_shutdown c.phase
    then fails c (codes "failure at shutdown")
    else if is_running c.phase
    then spawn_shutdown k (says c (codes "all children died"))
    else spawn_shutdown k c

-- `k` is what the kernel answers behind the loop.
unfoldable pub check_children : Kernel → Top → List Wait → Top
unfolding reap_all after_children
check_children k c ws =
    let reaped = reap_all c ws in if has_died reaped.log then reaped else after_children k reaped
