-- ===== src/Svchub/Boot/Alarm.antt =====
-- While the services are stopping, alarms are counted, and the fourth one ends the wait.
use minibase.Base.{
  ℕ, zero, suc, ◌+◌, ◌≤◌, ◌<◌, ◌≡◌, inl, inr, refl, ap, ◌∙◌, true, none, some, ◌++◌, arith, lt→ltb,
  le→ltb, if◌then◌else◌, Bool-cases, Bytes, codes,
}
use minibase.Base.Int.{ℤ, pos, negsuc, is_neg}
use minibase.Svchub.State.{stopping, shutdown, alarm, close_fd, Top, Kernel, logged, proc_at}
use minibase.Svchub.Proc.{Ret}
use minibase.Svchub.Conn.{is_positive}
use minibase.Svchub.Boot.{
  is_live, report_from, report_hung_procs, kill_from, kill_script, script_forked, is_stopping,
  fails, force_shutdown, spawn_shutdown, spawn_script, handle_alarm, says,
}

report_from_same :
    (left : ℕ) (c : Top) (i : ℕ)
    → ((report_from c left i).phase ≡ c.phase) × ((report_from c left i).sigcnt ≡ c.sigcnt)
unfolding report_from
report_from_same zero c i = (refl, refl)
report_from_same (suc left) c i = elim (Bool-cases (is_live (proc_at c i))) [
  | inl live ↦
      rw (report_from, live)
        (report_from_same left (says c (codes "waiting for " ++ (proc_at c i).name)) (i + 1))
  | inr idle ↦ rw (report_from, idle) (report_from_same left c (i + 1))
]

report_hung_same :
    (c : Top) → ((report_hung_procs c).phase ≡ c.phase) × ((report_hung_procs c).sigcnt ≡ c.sigcnt)
unfolding report_hung_procs
report_hung_same c = elim (Bool-cases (is_positive (report_from c c.nprocs 0).scrpid)) [
  | inl script ↦ rw script (report_from_same c.nprocs c 0)
  | inr none_left ↦ rw none_left (report_from_same c.nprocs c 0)
]

handle_alarm_early :
    (k : Kernel) (c : Top)
    → c.phase ≡ stopping
    → c.sigcnt < 3
    → handle_alarm k c ≡ logged (report_hung_procs (record c { sigcnt = c.sigcnt + 1 })) alarm
unfolding handle_alarm
handle_alarm_early k c h lt =
    let on : is_stopping c.phase ≡ true = ap is_stopping h in rw (on, lt→ltb c.sigcnt 3 lt) refl

handle_alarm_late :
    (k : Kernel) (c : Top)
    → c.phase ≡ stopping
    → 3 ≤ c.sigcnt
    → handle_alarm k c ≡ force_shutdown k (record c { sigcnt = 0 })
unfolding handle_alarm
handle_alarm_late k c h le =
    let on : is_stopping c.phase ≡ true = ap is_stopping h in rw (on, le→ltb c.sigcnt 3 le) refl

-- An alarm before the fourth keeps the phase and is counted.
alarm_counted :
    (k : Kernel) (c : Top) (n : ℕ)
    → c.phase ≡ stopping
    → c.sigcnt ≡ n
    → n < 3
    → ((handle_alarm k c).phase ≡ stopping) × ((handle_alarm k c).sigcnt ≡ n + 1)
alarm_counted k c n h e lt =
    let told = report_hung_same (record c { sigcnt = c.sigcnt + 1 }) in
    rw (handle_alarm_early k c h (omega arith)) (told.0 ∙ h, told.1 ∙ ap (λ i. i + 1) e)

script_forked-phase :
    (c : Top) (name : Bytes) (fork : ℤ) → (script_forked c name fork).top.phase ≡ c.phase
unfolding script_forked
script_forked-phase c name (negsuc e) = refl
script_forked-phase c name (pos pid) = refl

spawn_script-phase :
    (k : Kernel) (c : Top) (name : Bytes) → (spawn_script k c name).top.phase ≡ c.phase
unfolding spawn_script
spawn_script-phase k c name = elim (Bool-cases (is_neg k.access)) [
  | inl missing ↦ rw missing
  | inr found ↦ rw found (elim (Bool-cases (is_positive c.scrpid)) [
    | inl busy ↦ rw busy
    | inr idle ↦ rw idle (script_forked-phase c name k.fork)
  ])
]

spawn_shutdown-phase : (k : Kernel) (c : Top) → (spawn_shutdown k c).phase ≡ shutdown
unfolding spawn_shutdown
spawn_shutdown-phase k c = go (spawn_script k closed script) (spawn_script-phase k closed script)
  where
    closed : Top
    closed = logged (record c { phase = shutdown }) (close_fd c.ctlfd)

    script : Bytes
    script = elim c.rbmode [ some _ ↦ codes "shutdown" | none ↦ codes "failure" ]

    go :
        (r : Ret)
        → r.top.phase ≡ shutdown
        → (if is_neg r.ret then fails r.top (codes "no shutdown script") else r.top).phase
          ≡ shutdown
    go r h = elim (Bool-cases (is_neg r.ret)) [
      | inl failed ↦ rw failed h
      | inr spawned ↦ rw spawned h
    ]

force_shutdown-phase : (k : Kernel) (c : Top) → (force_shutdown k c).phase ≡ shutdown
unfolding force_shutdown
force_shutdown-phase k c =
    let killed = kill_from (says c (codes "killing remaining services")) c.nprocs 0 in
    spawn_shutdown-phase k (kill_script killed killed.scrpid)

last_alarm :
    (k : Kernel) (c : Top) → c.phase ≡ stopping → c.sigcnt ≡ 3 → (handle_alarm k c).phase ≡ shutdown
last_alarm k c h e =
    rw (handle_alarm_late k c h (omega arith)) (force_shutdown-phase k (record c { sigcnt = 0 }))

-- While the services are stopping, and no alarm has been counted yet, four alarms with nothing else
-- between them end in the shutdown phase, whatever the kernel answers to each.
pub four_alarms :
    (k1 k2 k3 k4 : Kernel) (c : Top)
    → c.phase ≡ stopping
    → c.sigcnt ≡ 0
    → (handle_alarm k4 (handle_alarm k3 (handle_alarm k2 (handle_alarm k1 c)))).phase ≡ shutdown
four_alarms k1 k2 k3 k4 c h e =
    let a = alarm_counted k1 c 0 h e (omega arith) in
    let b = alarm_counted k2 (handle_alarm k1 c) 1 a.0 a.1 (omega arith) in
    let d = alarm_counted k3 (handle_alarm k2 (handle_alarm k1 c)) 2 b.0 b.1 (omega arith) in
    last_alarm k4 (handle_alarm k3 (handle_alarm k2 (handle_alarm k1 c))) d.0 d.1
