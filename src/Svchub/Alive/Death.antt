-- ===== src/Svchub/Alive/Death.antt =====
-- The end of a service, and its restart, keep the count of the live ones.
use mathlib.Core.Path.{subst}
use minibase.Base.{
  ℕ, suc, ◌+◌, ◌<◌, ◌≡◌, refl, sym, ap, ◌∙◌, Bool, true, false, not, ◌&&◌, arith, ◌==◌,
  if◌then◌else◌, Bool-cases, inl, inr, set, length, codes,
}
use minibase.Base.Int.{pos, is_neg, pred_ℤ}
use minibase.Svchub.State.{Flags, blank_proc, say, Top, Kernel, logged, proc_at}
use minibase.Svchub.Proc.{Ret, flush_ring_buf, spawn_proc, ran_long_enough, update_proc_time}
use minibase.Svchub.Ring.{close_proc}
use minibase.Svchub.Death.{mark_died, mark_stopped, report_dead, respawn, proc_died}
use minibase.Svchub.Alive.{
  has_process, one_if, count_alive, Counted, set-get_or, count_alive-set, Others, logged-Others,
  put-Others, without-Counted,
}
use minibase.Svchub.Alive.Steps.{
  close_proc-Others, flush_ring_buf-Others, notify_dead-Counted, Forks, Spawned, spawn_proc-Spawned,
}

mark_died-Counted :
    (c : Top) (i : ℕ) (f : Flags) (status : ℕ) → Others i f c → Counted (mark_died c i status)
mark_died-Counted c i f status h =
    let p = proc_at c i in
    without-Counted c i f (record p { flags = record (p.flags) { status = true }; pid = status }) h
      (no_status (not (status == 0)))
  where
    no_status : (b : Bool) → (b && false) ≡ false
    no_status true = refl
    no_status false = refl

if-Counted :
    (b : Bool) (x y : Top)
    → (b ≡ true → Counted x)
    → (b ≡ false → Counted y)
    → Counted (if b then x else y)
if-Counted true x y h k = h refl
if-Counted false x y h k = k refl

respawn-Counted :
    (k : Kernel) (c : Top) (i : ℕ) (f : Flags) (status : ℕ)
    → Others i f c
    → f.status ≡ false
    → Forks k
    → Counted (respawn k c i status)
unfolding respawn ran_long_enough update_proc_time
respawn-Counted k c i f status h on forks =
    if-Counted (proc_at c i).flags.once (mark_died c i status) _
      (λ once. mark_died-Counted c i f status h)
      (λ again.
        if-Counted (not long) (mark_died (logged timed (say (codes "not respawning"))) i status) _
          (λ soon.
            mark_died-Counted (logged timed (say (codes "not respawning"))) i f status
              (logged-Others timed i f (say (codes "not respawning")) clocked))
          (λ enough.
            if-Counted (is_neg tried.ret)
              (mark_died (logged tried.top (say (codes "cannot respawn"))) i status) tried.top
              (λ failed.
                mark_died-Counted (logged tried.top (say (codes "cannot respawn"))) i f status (
                  logged-Others tried.top i f (say (codes "cannot respawn"))
                    (subst (Others i f) (sym (spawned.failed failed)) clocked)))
              spawned.started))
  where
    long : Bool
    long = (ran_long_enough k c i).1

    timed : Top
    timed = (ran_long_enough k c i).0

    tried : Ret
    tried = spawn_proc k timed i

    clocked : Others i f timed
    clocked = put-Others c i f (record (proc_at c i) { time = k.now }) h h.flags_same

    spawned : Spawned timed (spawn_proc k timed i)
    spawned = spawn_proc-Spawned k timed i f clocked on forks

-- Where `nalive` is the number of services with a process, it is so again after one of them has died and
-- was forgotten, kept or started anew, unless a fork fails.
pub proc_died-Counted :
    (k : Kernel) (c : Top) (i status : ℕ)
    → i < length c.procs
    → has_process (proc_at c i) ≡ true
    → Forks k
    → Counted c
    → Counted (proc_died k c i status)
unfolding proc_died
proc_died-Counted k c i status valid alive forks h = elim (Bool-cases (proc_at c i).flags.killed) [
  | inl killed ↦ rw killed (
      notify_dead-Counted k (mark_stopped closed i) (proc_at c i).pid (
        without-Counted closed i f
          (record (proc_at closed i) {
            flags = record ((proc_at closed i).flags) { killed = false };
            pid = 0;
            time = 0;
          })
          others refl))
  | inr lost ↦ rw lost (elim (Bool-cases ((proc_at c i).flags.once && status == 0)) [
    | inl done ↦ rw done (
        without-Counted (flush_ring_buf k closed i).top i f blank_proc
          (flush_ring_buf-Others k closed i f others) refl)
    | inr failed ↦ rw failed (
        respawn-Counted k (logged closed (say (report_dead (proc_at closed i) status))) i f status
          (logged-Others closed i f (say (report_dead (proc_at closed i) status)) others) on forks)
  ])
]
  where
    f : Flags
    f = (proc_at c i).flags

    closed : Top
    closed = close_proc (record c { nalive = pred_ℤ c.nalive }) i

    on : f.status ≡ false
    on = ground arith

    one_more : count_alive c.procs ≡ suc (count_alive (set c.procs i blank_proc))
    one_more =
        ap count_alive (sym (set-get_or c.procs i))
        ∙ count_alive-set c.procs i (proc_at c i) valid
        ∙ ap (λ b. one_if b + count_alive (set c.procs i blank_proc)) alive
        ∙ omega arith

    one_less : pred_ℤ c.nalive ≡ pos (count_alive (set c.procs i blank_proc))
    one_less = ap pred_ℤ (h ∙ ap pos one_more)

    others : Others i f closed
    others =
        close_proc-Others (record c { nalive = pred_ℤ c.nalive }) i f
          record { valid = valid; counted = one_less; flags_same = refl }
