-- ===== src/Tests/Svchub.antt =====
-- src/svchub on concrete inputs.
use minibase.Base.{
  ℕ, List, zero, suc, ap, get_or, replicate, ◌+◌, ◌-◌, ◌≡◌, ◌≢◌, refl, true, false, [], ◌∷◌, some,
  none, arith, codes, min,
}
use minibase.Base.Int.{pos, negsuc}
use minibase.Base.Memory.{Memory, load}
use minibase.Svchub.State.{
  ring_size, stopping, shutdown, any_flag, blank_proc, no_flags, Proc, Kernel, Top, proc_at, kill,
  sigkill,
}
use minibase.Svchub.Proc.{start_proc, find_by_name}
use minibase.Svchub.Proc.Find.{AllNamed, FirstNamed, find_by_name_lem}
use minibase.Svchub.Ring.{check_proc, ring_output}
use minibase.Svchub.Ring.Stream.{Recorded, check_proc-Recorded, ring_output-Recorded}
use minibase.Svchub.Boot.{is_live, handle_alarm, force_shutdown}
use minibase.Svchub.Boot.Kill.{Asked, force_shutdown_lem}
use minibase.Svchub.Boot.Alarm.{four_alarms}
use minibase.Svchub.Death.{proc_died}
use minibase.Svchub.Alive.{Counted}
use minibase.Svchub.Alive.Steps.{Forks}
use minibase.Svchub.Alive.Start.{Tidy, start_proc-Counted}
use minibase.Svchub.Alive.Death.{proc_died-Counted}
use minibase.Svchub.Events.{Inputs}

abbrev willing : Kernel
willing = record {
  access = pos 0;
  pipe = pos 0;
  pipe_fd = pos 7;
  fork = pos 300;
  now = 50;
  kill = λ pid sig. pos 0;
  unmap = pos 0;
  mapped = true;
  send = λ fd. pos 4;
  writable = λ fd. pos 0;
  resend = λ fd. pos 4;
}

abbrev syslogd : Proc
syslogd = record {
  name = b's' ∷ b'y' ∷ b's' ∷ [];
  pid = 100;
  fd = pos 5;
  time = 10;
  flags = record no_flags { in_use = true };
  ptr = 0;
  ring = none;
}

abbrev stopping_top : Top
stopping_top = record {
  phase = stopping;
  rbmode = some (codes "reboot");
  scrpid = pos 0;
  sigcnt = 0;
  ctlfd = pos 3;
  nconns = 0;
  nprocs = 1;
  nalive = pos 1;
  procs = syslogd ∷ [];
  conns = [];
  log = [];
}

abbrev stream : Memory
stream a = b'x'

abbrev idle : Inputs
idle = record {
  sigread = pos 0;
  signo = 0;
  waits = [];
  accepted = negsuc 10;
  output = some (b'x' ∷ []);
  buf = stream;
  received = negsuc 0;
}

four_alarms_example :
    (handle_alarm willing
      (handle_alarm willing (handle_alarm willing (handle_alarm willing stopping_top)))).phase
    ≡ shutdown
four_alarms_example = four_alarms willing willing willing willing stopping_top refl refl

force_shutdown_lem_example :
    (is_live (proc_at (force_shutdown willing stopping_top) 0) ≡ false)
    × (is_live (proc_at stopping_top 0) ≡ true
        → Asked (kill 100 sigkill) (force_shutdown willing stopping_top).log)
force_shutdown_lem_example = force_shutdown_lem willing stopping_top 0 (omega arith)

check_proc-Recorded_example :
    Recorded (proc_at (check_proc willing stopping_top 0 (some (load stream 0 5))) 0) stream (0 + 5)
check_proc-Recorded_example =
    check_proc-Recorded willing stopping_top 0 stream 0 5 (omega arith) refl (omega arith) refl

ring_output-Recorded_example :
    ring_output (proc_at (check_proc willing stopping_top 0 (some (load stream 0 5))) 0)
    ≡ load stream (0 + 5 - ring_size) (min (0 + 5) ring_size)
ring_output-Recorded_example =
    ring_output-Recorded (proc_at (check_proc willing stopping_top 0 (some (load stream 0 5))) 0)
      stream (0 + 5) first_read
  where
    first_read :
        Recorded
          (proc_at (check_proc willing stopping_top 0 (some (load stream 0 5))) 0)
          stream
          (0 + 5)
    first_read =
        check_proc-Recorded willing stopping_top 0 stream 0 5 (omega arith) refl (omega arith) refl

syslogd-AllNamed : AllNamed (syslogd ∷ [])
syslogd-AllNamed =
    (((λ e. omega arith), ((λ e. omega arith), ((λ e. omega arith), tt))), omega arith, tt)

find_by_name_lem_example :
    FirstNamed stopping_top syslogd.name (find_by_name stopping_top syslogd.name)
find_by_name_lem_example =
    find_by_name_lem stopping_top syslogd.name syslogd-AllNamed syslogd-AllNamed.0 (λ e. no_name e)
  where
    no_name : syslogd.name ≢ []
    no_name e = cc e

willing-Forks : Forks willing
willing-Forks = record { child = 299; fork_is = refl; pipe_is = refl }

proc_died-Counted_example : Counted (proc_died willing stopping_top 0 256)
proc_died-Counted_example =
    proc_died-Counted willing stopping_top 0 256 (omega arith) refl willing-Forks refl

abbrev table : List Proc
table = syslogd ∷ replicate 69 blank_proc

abbrev full_top : Top
full_top = record stopping_top { procs = table }

unused_slots : (n i : ℕ) → get_or (replicate n blank_proc) i blank_proc ≡ blank_proc
unused_slots zero i = refl
unused_slots (suc n) zero = refl
unused_slots (suc n) (suc i) = unused_slots n i

full_top-Tidy : Tidy full_top
full_top-Tidy = record { whole = refl; free = free; past = refl }
  where
    free : (i : ℕ) → any_flag (proc_at full_top i).flags ≡ false → (proc_at full_top i).pid ≡ 0
    free zero e = cc e
    free (suc i) e = ap (λ p. p.pid) (unused_slots 69 i)

start_proc-Counted_example :
    Counted (start_proc willing full_top (codes "cron") (record { once = false; pass = false })).top
start_proc-Counted_example =
    start_proc-Counted willing full_top (codes "cron") (record { once = false; pass = false })
      full_top-Tidy willing-Forks refl
