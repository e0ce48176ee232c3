-- ===== src/Svchub/Alive.antt =====
-- `nalive` counts the live services: the count, with one service left out and with it.
pub mod Steps
pub mod Death
pub mod Idle
pub mod Start
use minibase.Base.{
  ℕ, zero, suc, ◌+◌, ◌<◌, ◌≡◌, ◌≢◌, refl, sym, ap, ◌∙◌, Bool, true, false, not, ◌&&◌, List, [], ◌∷◌,
  arith, ◌==◌, if◌then◌else◌, get_or, get_or-set_self, set, length, length-set,
}
use minibase.Base.Int.{pos, succ_ℤ}
use minibase.Svchub.State.{Flags, Proc, blank_proc, Action, Top, logged, proc_at, put_proc}

-- with a process, and not with an exit status
abbrev pub has_process : Proc → Bool
has_process p = not (p.pid == 0) && not p.flags.status

abbrev pub one_if : Bool → ℕ
one_if b = if b then 1 else 0

abbrev pub count_alive : List Proc → ℕ
count_alive [] = 0
count_alive (p ∷ ps) = one_if (has_process p) + count_alive ps

-- `nalive` is the number of services with a process.
abbrev pub Counted : Top → Type 0
Counted c = c.nalive ≡ pos (count_alive c.procs)

pub set-set : (ps : List Proc) (i : ℕ) (p q : Proc) → set (set ps i p) i q ≡ set ps i q
set-set [] i p q = refl
set-set (r ∷ ps) zero p q = refl
set-set (r ∷ ps) (suc i) p q = ap (◌∷◌ r) (set-set ps i p q)

pub set-get_or : (ps : List Proc) (i : ℕ) → set ps i (get_or ps i blank_proc) ≡ ps
set-get_or [] i = refl
set-get_or (r ∷ ps) zero = refl
set-get_or (r ∷ ps) (suc i) = ap (◌∷◌ r) (set-get_or ps i)

pub count_alive-set :
    (ps : List Proc) (i : ℕ) (p : Proc)
    → i < length ps
    → count_alive (set ps i p) ≡ one_if (has_process p) + count_alive (set ps i blank_proc)
count_alive-set [] i p h = absurd (omega arith)
count_alive-set (r ∷ ps) zero p h = omega arith
count_alive-set (r ∷ ps) (suc i) p h = omega (arith, count_alive-set ps i p (omega arith))

-- All services but the one at `i`, which has the flags `f`, are counted.
pub record Others (i : ℕ) (f : Flags) (c : Top) : Type 0 where
  pub valid : i < length c.procs
  pub counted : c.nalive ≡ pos (count_alive (set c.procs i blank_proc))
  pub flags_same : (proc_at c i).flags ≡ f

pub logged-Others :
    (c : Top) (i : ℕ) (f : Flags) (a : Action) → Others i f c → Others i f (logged c a)
logged-Others c i f a h = record { valid = h.valid; counted = h.counted; flags_same = h.flags_same }

pub put-Others :
    (c : Top) (i : ℕ) (f : Flags) (p : Proc)
    → Others i f c
    → p.flags ≡ f
    → Others i f (put_proc c i p)
put-Others c i f p h e = record {
  valid = omega (arith, length-set c.procs i p, h.valid);
  counted = h.counted ∙ ap (λ ps. pos (count_alive ps)) (sym (set-set c.procs i p blank_proc));
  flags_same = ap (λ q. q.flags) (get_or-set_self c.procs i p blank_proc h.valid) ∙ e;
}

-- without a process at `i`, these are all
pub without-Counted :
    (c : Top) (i : ℕ) (f : Flags) (p : Proc)
    → Others i f c
    → has_process p ≡ false
    → Counted (put_proc c i p)
without-Counted c i f p h dead =
    h.counted
    ∙ ap pos (
        sym (
          count_alive-set c.procs i p h.valid
          ∙ ap (λ b. one_if b + count_alive (set c.procs i blank_proc)) dead
          ∙ omega arith))

-- the one at `i` is counted in again
pub with-Counted :
    (c : Top) (i : ℕ) (f : Flags) (pid : ℕ) (log : List Action)
    → Others i f c
    → f.status ≡ false
    → pid ≢ 0
    → Counted (record c {
      procs = set c.procs i (record (proc_at c i) { pid = pid });
      nalive = succ_ℤ c.nalive;
      log = log;
    })
with-Counted c i f pid log h on ne =
    let p = record (proc_at c i) { pid = pid } in
    let on_now : p.flags.status ≡ false = ap (λ g. g.status) h.flags_same ∙ on in
    let alive : has_process p ≡ true = ground arith in
    let one_more : suc (count_alive (set c.procs i blank_proc)) ≡ count_alive (set c.procs i p) =
      omega (arith, count_alive-set c.procs i p h.valid, ap one_if alive) in
    ap succ_ℤ h.counted ∙ ap pos one_more
