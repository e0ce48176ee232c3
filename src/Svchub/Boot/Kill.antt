-- ===== src/Svchub/Boot/Kill.antt =====
-- `force_shutdown` leaves no service alive.
use minibase.Base.{
  ℕ, zero, suc, ◌+◌, ◌≤◌, ◌<◌, ◌≡◌, ◌≢◌, ◌⊎◌, inl, inr, refl, ap, ◌∙◌, Bool, true, false, not, ◌&&◌,
  none, some, List, [], ◌∷◌, arith, ltb, ltb→lt, ltb→le, ◌==◌, if◌then◌else◌, Bool-cases, Bytes,
  codes, get_or, get_or-set_self, get_or-set_ne, ==_iff, set, length, length-set,
}
use minibase.Base.Int.{ℤ, pos, negsuc, is_neg}
use minibase.Svchub.State.{
  shutdown, any_flag, Proc, blank_proc, Action, kill, close_fd, Top, Kernel, logged, proc_at,
  put_proc, sigkill,
}
use minibase.Svchub.Proc.{Ret}
use minibase.Svchub.Conn.{is_positive}
use minibase.Svchub.Boot.{
  is_live, kill_from, kill_script, script_forked, fails, force_shutdown, spawn_shutdown,
  spawn_script, says,
}

-- The request has been made at some time.
abbrev pub Asked : Action → List Action → Type 0
Asked a [] = ⊥
Asked a (b ∷ log) = (a ≡ b) ⊎ Asked a log

-- one slot of the loop
abbrev kill_slot : Top → ℕ → Top
kill_slot c i =
    let p = proc_at c i in
    if is_live p then put_proc (logged c (kill p.pid sigkill)) i (record p { pid = 0 }) else c

slot_kept : (c : Top) (i j : ℕ) → i ≢ j → proc_at (kill_slot c i) j ≡ proc_at c j
slot_kept c i j ne = elim (Bool-cases (is_live (proc_at c i))) [
  | inl live ↦ rw live (get_or-set_ne c.procs i j (record (proc_at c i) { pid = 0 }) blank_proc ne)
  | inr idle ↦ rw idle
]

blank_past : (ps : List Proc) (i : ℕ) → length ps ≤ i → get_or ps i blank_proc ≡ blank_proc
blank_past [] i h = refl
blank_past (p ∷ ps) zero h = absurd (omega arith)
blank_past (p ∷ ps) (suc i) h = blank_past ps i (omega arith)

no_pid : (a b : Bool) → (a && false && b) ≡ false
no_pid true b = refl
no_pid false b = refl

slot_dead : (c : Top) (i : ℕ) → is_live (proc_at (kill_slot c i) i) ≡ false
slot_dead c i = elim (Bool-cases (is_live (proc_at c i))) [
  | inl live ↦ rw live (elim (Bool-cases (ltb i (length c.procs))) [
    | inl valid ↦
        rw
          (get_or-set_self c.procs i (record (proc_at c i) { pid = 0 }) blank_proc
            (ltb→lt i (length c.procs) valid))
          (no_pid (any_flag (proc_at c i).flags) (not (proc_at c i).flags.status))
    | inr past ↦
        rw
          (blank_past (set c.procs i (record (proc_at c i) { pid = 0 })) i (
            omega (
              arith,
              length-set c.procs i (record (proc_at c i) { pid = 0 }),
              ltb→le i (length c.procs) past,
            )))
          refl
  ])
  | inr idle ↦ rw idle idle
]

slot_log : (c : Top) (i : ℕ) (a : Action) → Asked a c.log → Asked a (kill_slot c i).log
slot_log c i a h = elim (Bool-cases (is_live (proc_at c i))) [
  | inl live ↦ rw live (inr h)
  | inr idle ↦ rw idle h
]

slot-Asked :
    (c : Top) (i : ℕ)
    → is_live (proc_at c i) ≡ true
    → Asked (kill (proc_at c i).pid sigkill) (kill_slot c i).log
slot-Asked c i live = rw live (inl refl)

kill_from-kept :
    (left : ℕ) (c : Top) (i j : ℕ) → j < i → proc_at (kill_from c left i) j ≡ proc_at c j
unfolding kill_from
kill_from-kept zero c i j h = refl
kill_from-kept (suc left) c i j h =
    kill_from-kept left (kill_slot c i) (i + 1) j (omega arith) ∙ slot_kept c i j (omega arith)

kill_from-dead :
    (left : ℕ) (c : Top) (i j : ℕ)
    → i ≤ j
    → j < i + left
    → is_live (proc_at (kill_from c left i) j) ≡ false
unfolding kill_from
kill_from-dead zero c i j h k = absurd (omega arith)
kill_from-dead (suc left) c i j h k = elim (Bool-cases (i == j)) [
  | inl here ↦
      rw (← (==_iff i j).0 here)
        (rw (kill_from-kept left (kill_slot c i) (i + 1) i (omega arith)) (slot_dead c i))
  | inr there ↦ kill_from-dead left (kill_slot c i) (i + 1) j (ground arith) (omega arith)
]

kill_from-log :
    (left : ℕ) (c : Top) (i : ℕ) (a : Action) → Asked a c.log → Asked a (kill_from c left i).log
unfolding kill_from
kill_from-log zero c i a h = h
kill_from-log (suc left) c i a h = kill_from-log left (kill_slot c i) (i + 1) a (slot_log c i a h)

kill_from-Asked :
    (left : ℕ) (c : Top) (i j : ℕ)
    → i ≤ j
    → j < i + left
    → is_live (proc_at c j) ≡ true
    → Asked (kill (proc_at c j).pid sigkill) (kill_from c left i).log
unfolding kill_from
kill_from-Asked zero c i j h k live = absurd (omega arith)
kill_from-Asked (suc left) c i j h k live = elim (Bool-cases (i == j)) [
  | inl here ↦
      let same : i ≡ j = (==_iff i j).0 here in
      rw (← same) (
        kill_from-log left (kill_slot c i) (i + 1) (kill (proc_at c i).pid sigkill)
          (slot-Asked c i (rw same live)))
  | inr there ↦
      let ne : i ≢ j = ground arith in
      rw (slot_kept c i j ne) at (
        kill_from-Asked left (kill_slot c i) (i + 1) j (ground arith) (omega arith)
          (rw (slot_kept c i j ne) live))
]

-- The services are as they were, and no request is forgotten.
record Later (c c' : Top) : Type 0 where
  procs_same : c'.procs ≡ c.procs
  log_kept : (a : Action) → Asked a c.log → Asked a c'.log

script_forked-Later : (c : Top) (name : Bytes) (fork : ℤ) → Later c (script_forked c name fork).top
unfolding script_forked
script_forked-Later c name (negsuc e) = record { procs_same = refl; log_kept = λ a h. inr h }
script_forked-Later c name (pos pid) = record { procs_same = refl; log_kept = λ a h. inr h }

spawn_script-Later : (k : Kernel) (c : Top) (name : Bytes) → Later c (spawn_script k c name).top
unfolding spawn_script
spawn_script-Later k c name = elim (Bool-cases (is_neg k.access)) [
  | inl missing ↦ rw missing (record { procs_same = refl; log_kept = λ a h. h })
  | inr found ↦ rw found (elim (Bool-cases (is_positive c.scrpid)) [
    | inl busy ↦ rw busy (record { procs_same = refl; log_kept = λ a h. h })
    | inr idle ↦ rw idle (script_forked-Later c name k.fork)
  ])
]

spawn_shutdown-Later : (k : Kernel) (c : Top) → Later c (spawn_shutdown k c)
unfolding spawn_shutdown
spawn_shutdown-Later k c = go (spawn_script k closed script) (spawn_script-Later k closed script)
  where
    closed : Top
    closed = logged (record c { phase = shutdown }) (close_fd c.ctlfd)

    script : Bytes
    script = elim c.rbmode [ some _ ↦ codes "shutdown" | none ↦ codes "failure" ]

    go :
        (r : Ret)
        → Later closed r.top
        → Later c (if is_neg r.ret then fails r.top (codes "no shutdown script") else r.top)
    go r h = elim (Bool-cases (is_neg r.ret)) [
      | inl failed ↦
          rw failed
            (record { procs_same = h.procs_same; log_kept = λ a e. inr (h.log_kept a (inr e)) })
      | inr spawned ↦
          rw spawned (record { procs_same = h.procs_same; log_kept = λ a e. h.log_kept a (inr e) })
    ]

kill_script-Later : (c : Top) (scrpid : ℤ) → Later c (kill_script c scrpid)
unfolding kill_script
kill_script-Later c (negsuc n) = record { procs_same = refl; log_kept = λ a h. h }
kill_script-Later c (pos zero) = record { procs_same = refl; log_kept = λ a h. h }
kill_script-Later c (pos (suc n)) = record { procs_same = refl; log_kept = λ a h. inr h }

-- After `force_shutdown` no service counts as running any more, and each one that did has been sent
-- SIGKILL.
pub force_shutdown_lem :
    (k : Kernel) (c : Top) (j : ℕ)
    → j < c.nprocs
    → (is_live (proc_at (force_shutdown k c) j) ≡ false)
      × (is_live (proc_at c j) ≡ true
          → Asked (kill (proc_at c j).pid sigkill) (force_shutdown k c).log)
unfolding force_shutdown
force_shutdown_lem k c j h =
    let told = says c (codes "killing remaining services") in
    let killed = kill_from told c.nprocs 0 in
    let script = kill_script-Later killed killed.scrpid in
    let last = spawn_shutdown-Later k (kill_script killed killed.scrpid) in
    (
      ap (λ ps. is_live (get_or ps j blank_proc)) (last.procs_same ∙ script.procs_same)
          ∙ kill_from-dead c.nprocs told 0 j (omega arith) (omega arith),
      λ live. last.log_kept (kill (proc_at c j).pid sigkill) (
          script.log_kept (kill (proc_at c j).pid sigkill)
            (kill_from-Asked c.nprocs told 0 j (omega arith) (omega arith) live)),
    )
