-- ===== src/Svchub/Alive/Idle.antt =====
-- A slot without a process, and what starting a service in it does to the count of the live ones.
use mathlib.Core.Path.{subst}
use minibase.Base.{
  ℕ, zero, suc, ◌+◌, ◌<◌, ◌≡◌, refl, sym, ap, ◌∙◌, false, List, [], ◌∷◌, none, arith, if◌then◌else◌,
  Bool-cases, Option-cases, inl, inr, get_or, get_or-set_self, set, length, length-set,
}
use minibase.Base.Int.{ℤ, pos, is_neg}
use minibase.Svchub.State.{
  Flags, Proc, blank_proc, Action, unmap_ring, Top, Kernel, logged, proc_at, put_proc,
}
use minibase.Svchub.Proc.{
  Ret, returns, then_do, has_ring, flush_ring_buf, spawn_proc, update_proc_time, restart_stopped,
}
use minibase.Svchub.Alive.{
  has_process, one_if, count_alive, Counted, set-set, set-get_or, count_alive-set, Others,
  logged-Others,
}
use minibase.Svchub.Alive.Steps.{Forks, spawn_proc-Spawned}

-- The slot `i` has no process and no exit status, and all the others are counted.
pub record Idle (i : ℕ) (c : Top) : Type 0 where
  pub others : Others i (proc_at c i).flags c
  pub no_pid : (proc_at c i).pid ≡ 0
  pub on : (proc_at c i).flags.status ≡ false

pub Counted-Others :
    (c : Top) (i : ℕ)
    → i < length c.procs
    → has_process (proc_at c i) ≡ false
    → Counted c
    → Others i (proc_at c i).flags c
Counted-Others c i valid dead h = record {
  valid = valid;
  counted =
      h
      ∙ ap pos (
          ap count_alive (sym (set-get_or c.procs i))
          ∙ count_alive-set c.procs i (proc_at c i) valid
          ∙ ap (λ b. one_if b + count_alive (set c.procs i blank_proc)) dead
          ∙ omega arith);
  flags_same = refl;
}

pub Idle-Counted : (c : Top) (i : ℕ) → Idle i c → Counted c
Idle-Counted c i h =
    let dead : has_process (proc_at c i) ≡ false = ground (arith, h.no_pid) in
    h.others.counted
    ∙ ap pos (
        sym (
          ap count_alive (sym (set-get_or c.procs i))
          ∙ count_alive-set c.procs i (proc_at c i) h.others.valid
          ∙ ap (λ b. one_if b + count_alive (set c.procs i blank_proc)) dead
          ∙ omega arith))

pub put-Idle :
    (c : Top) (i : ℕ) (f : Flags) (p : Proc)
    → Others i f c
    → p.pid ≡ 0
    → p.flags.status ≡ false
    → Idle i (put_proc c i p)
put-Idle c i f p h z on =
    let here = get_or-set_self c.procs i p blank_proc h.valid in
    record {
      others = record {
        valid = omega (arith, length-set c.procs i p, h.valid);
        counted =
            h.counted ∙ ap (λ ps. pos (count_alive ps)) (sym (set-set c.procs i p blank_proc));
        flags_same = refl;
      };
      no_pid = ap (λ q. q.pid) here ∙ z;
      on = ap (λ q. q.flags.status) here ∙ on;
    }

pub then_do-Counted :
    (r : Ret) (k : Top → ℤ → Ret)
    → Counted r.top
    → Counted (k r.top r.ret).top
    → Counted (then_do r k).top
then_do-Counted r k h g = elim (Bool-cases (is_neg r.ret)) [
  | inl failed ↦ rw failed h
  | inr passed ↦ rw passed g
]

count_alive-same :
    (ps : List Proc) (i : ℕ) (p : Proc)
    → has_process p ≡ has_process (get_or ps i blank_proc)
    → count_alive (set ps i p) ≡ count_alive ps
count_alive-same [] i p e = refl
count_alive-same (q ∷ ps) zero p e = ap (λ b. one_if b + count_alive ps) e
count_alive-same (q ∷ ps) (suc i) p e =
    ap (λ n. one_if (has_process q) + n) (count_alive-same ps i p e)

pub update_proc_time-Counted :
    (k : Kernel) (c : Top) (i : ℕ) → Counted c → Counted (update_proc_time k c i)
unfolding update_proc_time
update_proc_time-Counted k c i h =
    h ∙ ap pos (sym (count_alive-same c.procs i (record (proc_at c i) { time = k.now }) refl))

pub spawn_proc-Counted :
    (k : Kernel) (c : Top) (i : ℕ) → Idle i c → Forks k → Counted (spawn_proc k c i).top
spawn_proc-Counted k c i h forks =
    let spawned = spawn_proc-Spawned k c i (proc_at c i).flags h.others h.on forks in
    elim (Bool-cases (is_neg (spawn_proc k c i).ret)) [
      | inl failed ↦ subst Counted (sym (spawned.failed failed)) (Idle-Counted c i h)
      | inr started ↦ spawned.started started
    ]

logged-Idle : (c : Top) (i : ℕ) (a : Action) → Idle i c → Idle i (logged c a)
logged-Idle c i a h = record {
  others = logged-Others c i (proc_at c i).flags a h.others;
  no_pid = h.no_pid;
  on = h.on;
}

flush_ring_buf-Idle : (k : Kernel) (c : Top) (i : ℕ) → Idle i c → Idle i (flush_ring_buf k c i).top
unfolding flush_ring_buf
flush_ring_buf-Idle k c i h = elim (Option-cases (proc_at c i).ring) [
  | inl nothing ↦ rw (flush_ring_buf, nothing) h
  | inr (ring, something) ↦
      rw (flush_ring_buf, something)
        (elim (Bool-cases (is_neg k.unmap)) [
          | inl failed ↦ rw failed (
              logged-Idle _ i unmap_ring (
                put-Idle c i (proc_at c i).flags (record (proc_at c i) { ptr = 0 }) h.others
                  h.no_pid h.on))
          | inr unmapped ↦ rw unmapped (
              logged-Idle _ i unmap_ring (
                put-Idle c i (proc_at c i).flags (record (proc_at c i) { ring = none; ptr = 0 })
                  h.others h.no_pid h.on))
        ])
]

pub spawned_and_timed :
    (k : Kernel) (c : Top) (i : ℕ)
    → Idle i c
    → Forks k
    → Counted (then_do (spawn_proc k c i) (λ c2 ret. returns (update_proc_time k c2 i) ret)).top
spawned_and_timed k c i h forks =
    let started = spawn_proc-Counted k c i h forks in
    then_do-Counted (spawn_proc k c i) (λ c2 ret. returns (update_proc_time k c2 i) ret) started
      (update_proc_time-Counted k (spawn_proc k c i).top i started)

pub restart_stopped-Counted :
    (k : Kernel) (c : Top) (i : ℕ) → Idle i c → Forks k → Counted (restart_stopped k c i).top
unfolding restart_stopped
restart_stopped-Counted k c i h forks =
    then_do-Counted (if has_ring (proc_at c i) then flush_ring_buf k c i else returns c (pos 0))
      (λ c1 _. then_do (spawn_proc k c1 i) (λ c2 ret. returns (update_proc_time k c2 i) ret))
      (Idle-Counted _ i flushed) (spawned_and_timed k _ i flushed forks)
  where
    flushed :
        Idle i (if has_ring (proc_at c i) then flush_ring_buf k c i else returns c (pos 0)).top
    flushed = elim (Bool-cases (has_ring (proc_at c i))) [
      | inl some_output ↦ rw some_output (flush_ring_buf-Idle k c i h)
      | inr no_output ↦ rw no_output h
    ]
