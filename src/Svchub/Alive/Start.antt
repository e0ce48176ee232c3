-- ===== src/Svchub/Alive/Start.antt =====
-- Starting a service keeps the count of the live ones, whether it is new or known, or cannot be started.
use mathlib.Core.Path.{subst}
use minibase.Base.{
  ℕ, zero, suc, ◌+◌, ◌<◌, ◌≡◌, refl, sym, ◌∙◌, true, false, ◌||◌, List, [], ◌∷◌, Option, none, some,
  arith, ltb, leb, ◌==◌, ==_iff, Bool-cases, inl, inr, deref, get_or, length, Bytes,
}
use minibase.Base.Int.{ℤ, negsuc, is_neg}
use minibase.Svchub.State.{
  name_len, max_procs, no_flags, any_flag, StartFlags, Proc, blank_proc, Top, Kernel, proc_at,
  put_proc, enametoolong,
}
use minibase.Svchub.Proc.{
  Ret, returns, then_do, find_name_from, find_by_name, find_free_from, grab_found, grab_proc_slot,
  start_new, start_found, spawn_proc, update_proc_time, restart_proc, prep_and_start, start_proc,
}
use minibase.Svchub.Alive.{has_process, Counted, Others, without-Counted}
use minibase.Svchub.Alive.Steps.{Forks, spawn_proc-Spawned}
use minibase.Svchub.Alive.Idle.{
  Idle, Counted-Others, put-Idle, Idle-Counted, restart_stopped-Counted, spawned_and_timed,
}

-- The table has all its slots, and those that are free or have never been used have no process.
pub record Tidy (c : Top) : Type 0 where
  pub whole : length c.procs ≡ max_procs
  pub free : (i : ℕ) → any_flag (proc_at c i).flags ≡ false → (proc_at c i).pid ≡ 0
  pub past : (proc_at c c.nprocs).pid ≡ 0

no_process : (p : Proc) → p.pid ≡ 0 → has_process p ≡ false
no_process p z = ground arith

restart_proc-Counted :
    (k : Kernel) (c : Top) (i : ℕ) (flags : StartFlags)
    → i < length c.procs
    → Counted c
    → Forks k
    → Counted (restart_proc k c i flags).top
unfolding restart_proc
restart_proc-Counted k c i flags valid h forks = elim (Bool-cases (flags.once || flags.pass)) [
  | inl change ↦ rw change h
  | inr same ↦ rw same (elim (Bool-cases (proc_at c i).flags.status) [
    | inl dead ↦ rw dead (
        restart_stopped-Counted k _ i
          (put-Idle c i (proc_at c i).flags _ (Counted-Others c i valid (ground arith) h) refl refl)
          forks)
    | inr on ↦ rw on (elim (Bool-cases ((proc_at c i).pid == 0)) [
      | inl stopped ↦
          let z : (proc_at c i).pid ≡ 0 = (==_iff (proc_at c i).pid 0).0 stopped in
          rw stopped (
            restart_stopped-Counted k c i
              (record {
                others = Counted-Others c i valid (no_process (proc_at c i) z) h;
                no_pid = z;
                on = on;
              })
              forks)
      | inr busy ↦ rw busy h
    ])
  ])
]

find_name_from-valid :
    (ps : List Proc) (left i : ℕ) (name : Bytes) {j : ℕ}
    → find_name_from ps left i name ≡ some j
    → j < i + length ps
unfolding find_name_from
find_name_from-valid [] left i name e = cc e
find_name_from-valid (p ∷ ps) zero i name e = cc e
find_name_from-valid (p ∷ ps) (suc left) i name {j} e =
    ground (arith, find_name_from-valid ps left (i + 1) name {j = j})

-- the slot `i + skipped` is unused
record Free (ps : List Proc) (i j : ℕ) : Type 0 where
  skipped : ℕ
  place : j ≡ i + skipped
  within : skipped < length ps
  unused : any_flag (get_or ps skipped blank_proc).flags ≡ false

find_free_from-Free :
    (ps : List Proc) (left i : ℕ) {j : ℕ} → find_free_from ps left i ≡ some j → Free ps i j
unfolding find_free_from
find_free_from-Free [] left i e = cc e
find_free_from-Free (p ∷ ps) zero i e = cc e
find_free_from-Free (p ∷ ps) (suc left) i {j} e = elim (Bool-cases (any_flag p.flags)) [
  | inl used ↦
      let later = find_free_from-Free ps left (i + 1) {j = j} (rw used at e) in
      record {
        skipped = suc later.skipped;
        place = omega (arith, later.place);
        within = omega (arith, later.within);
        unused = later.unused;
      }
  | inr idle ↦
      let first : some i ≡ some j = rw idle at e in
      record { skipped = 0; place = ground arith; within = omega arith; unused = idle }
]

-- a slot without a process, in a state whose count is right
record Grabbed (c : Top) (i : ℕ) : Type 0 where
  valid : i < length c.procs
  no_pid : (proc_at c i).pid ≡ 0
  counted : Counted c

abbrev Grab : Option (Top × ℕ) → Type 0
Grab none = Unit {0}
Grab (some (c, i)) = Grabbed c i

grab_found-Grab :
    (c : Top) (o : Option ℕ)
    → Tidy c
    → Counted c
    → ((j : ℕ) → o ≡ some j → Free c.procs 0 j)
    → Grab (grab_found c o)
unfolding grab_found
grab_found-Grab c (some j) tidy h found =
    let slot = found j refl in
    let here : j ≡ slot.skipped = omega (arith, slot.place) in
    record {
      valid = omega (arith, slot.within);
      no_pid = tidy.free j (rw here slot.unused);
      counted = h;
    }
grab_found-Grab c none tidy h found = elim (Bool-cases (leb max_procs c.nprocs)) [
  | inl full ↦ rw full tt
  | inr room ↦
      rw room (record { valid = ground (arith, tidy.whole); no_pid = tidy.past; counted = h })
]

-- The count is right after the attempt, and where it failed, the slot is not counted.
record Prepared (i : ℕ) (r : Ret) : Type 0 where
  failed : is_neg r.ret ≡ true → Others i (proc_at r.top i).flags r.top
  counted : Counted r.top

prep_and_start-Prepared :
    (k : Kernel) (c : Top) (i : ℕ) (name : Bytes) (flags : StartFlags)
    → Grabbed c i
    → Forks k
    → Prepared i (prep_and_start k c i name flags)
unfolding prep_and_start
prep_and_start-Prepared k c i name flags g forks = elim (Bool-cases (ltb name_len (length name))) [
  | inl long ↦
      rw long
        (of_idle _ enametoolong (put-Idle c i (proc_at c i).flags blank_proc others refl refl))
  | inr short ↦
      rw short
        (record { failed = λ e. not_started e; counted = spawned_and_timed k fresh i idle forks })
]
  where
    others : Others i (proc_at c i).flags c
    others = Counted-Others c i g.valid (no_process (proc_at c i) g.no_pid) g.counted

    of_idle : (c' : Top) (ret : ℤ) → Idle i c' → Prepared i (returns c' ret)
    of_idle c' ret h = record { failed = λ e. h.others; counted = Idle-Counted c' i h }

    fresh : Top
    fresh = put_proc c i (record blank_proc {
      flags = record no_flags { in_use = true; once = flags.once; pass = flags.pass };
      fd = negsuc 0;
      name = name;
    })

    idle : Idle i fresh
    idle = put-Idle c i (proc_at c i).flags _ others refl refl

    timed : Top → ℤ → Ret
    timed c1 ret = returns (update_proc_time k c1 i) ret

    tried : Ret
    tried = spawn_proc k fresh i

    not_started :
        is_neg (then_do tried timed).ret ≡ true
        → Others i (proc_at (then_do tried timed).top i).flags (then_do tried timed).top
    not_started e = elim (Bool-cases (is_neg tried.ret)) [
      | inl failed ↦
          let same =
            (spawn_proc-Spawned k fresh i (proc_at fresh i).flags idle.others idle.on forks).failed
              failed in
          rw failed (subst (λ t. Others i (proc_at t i).flags t) (sym same) idle.others)
      | inr passed ↦ cc (sym passed ∙ rw passed at e)
    ]

start_new-Counted :
    (k : Kernel) (c : Top) (name : Bytes) (flags : StartFlags) (o : Option (Top × ℕ))
    → Counted c
    → Grab o
    → Forks k
    → Counted (start_new k c name flags o).top
unfolding start_new
start_new-Counted k c name flags none h g forks = h
start_new-Counted k c name flags (some (c1, i)) h g forks =
    let prepared = prep_and_start-Prepared k c1 i name flags g forks in
    let r = prep_and_start k c1 i name flags in
    elim (Bool-cases (is_neg r.ret)) [
      | inl failed ↦
          rw failed (
            without-Counted r.top i (proc_at r.top i).flags blank_proc (prepared.failed failed)
              refl)
      | inr started ↦ rw started prepared.counted
    ]

start_found-Counted :
    (k : Kernel) (c : Top) (name : Bytes) (flags : StartFlags) (o : Option ℕ)
    → Tidy c
    → Forks k
    → Counted c
    → ((j : ℕ) → o ≡ some j → j < length c.procs)
    → Counted (start_found k c name flags o).top
unfolding start_found grab_proc_slot
start_found-Counted k c name flags (some i) tidy forks h found =
    restart_proc-Counted k c i flags (found i refl) h forks
start_found-Counted k c name flags none tidy forks h found =
    start_new-Counted k c name flags (grab_proc_slot c) h
      (grab_found-Grab c (find_free_from c.procs c.nprocs 0) tidy h
        (λ j e. find_free_from-Free c.procs c.nprocs 0 e))
      forks

find_by_name-valid :
    (c : Top) (name : Bytes) (j : ℕ) → find_by_name c name ≡ some j → j < length c.procs
unfolding find_by_name
find_by_name-valid c name j e = elim (Bool-cases (deref name == 0)) [
  | inl empty ↦ cc (rw empty at e)
  | inr text ↦ omega (arith, find_name_from-valid c.procs c.nprocs 0 name (rw text at e))
]

-- Where `nalive` is the number of services with a process, and the unused slots have none, it is so again
-- after a service was started, anew or again, or could not be started, unless a fork fails.
pub start_proc-Counted :
    (k : Kernel) (c : Top) (name : Bytes) (flags : StartFlags)
    → Tidy c
    → Forks k
    → Counted c
    → Counted (start_proc k c name flags).top
unfolding start_proc
start_proc-Counted k c name flags tidy forks h =
    start_found-Counted k c name flags (find_by_name c name) tidy forks h
      (find_by_name-valid c name)
