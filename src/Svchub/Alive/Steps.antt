-- ===== src/Svchub/Alive/Steps.antt =====
-- What the calls within an operation do to the count of the live services.
use minibase.Base.{
  ℕ, zero, suc, ◌+◌, ◌<◌, ◌≡◌, refl, sym, ap, ◌∙◌, Bool, true, false, ◌∷◌, ◌++◌, none, arith, ◌==◌,
  if◌then◌else◌, Bool-cases, Option-cases, inl, inr, length, length-set, Bytes,
}
use minibase.Base.Int.{ℤ, pos, negsuc, is_neg}
use minibase.Svchub.State.{
  Flags, unwatch_fd, close_fd, unmap_ring, fork_exec, Top, Kernel, conn_at, proc_at,
}
use minibase.Strings.Compare.{is_zero}
use minibase.Svchub.Proc.{
  init_dir, Ret, returns, flush_ring_buf, spawn_proc, spawn_path, spawn_forked, save_child_pipe,
}
use minibase.Svchub.Ring.{close_proc}
use minibase.Svchub.Conn.{close_conn, notify, notify_from, notify_dead, is_positive}
use minibase.Svchub.Alive.{
  count_alive, Counted, set-get_or, count_alive-set, Others, logged-Others, put-Others,
  with-Counted,
}

pub close_proc-Others : (c : Top) (i : ℕ) (f : Flags) → Others i f c → Others i f (close_proc c i)
unfolding close_proc
close_proc-Others c i f h = elim (Bool-cases (is_neg (proc_at c i).fd)) [
  | inl closed ↦ rw closed h
  | inr watched ↦ rw watched (
      logged-Others _ i f (close_fd (proc_at c i).fd) (
        logged-Others _ i f (unwatch_fd (proc_at c i).fd)
          (put-Others c i f (record (proc_at c i) { fd = negsuc 0 }) h h.flags_same)))
]

pub flush_ring_buf-Others :
    (k : Kernel) (c : Top) (i : ℕ) (f : Flags)
    → Others i f c
    → Others i f (flush_ring_buf k c i).top
unfolding flush_ring_buf
flush_ring_buf-Others k c i f h = elim (Option-cases (proc_at c i).ring) [
  | inl nothing ↦ rw (flush_ring_buf, nothing) h
  | inr (ring, something) ↦
      rw (flush_ring_buf, something)
        (elim (Bool-cases (is_neg k.unmap)) [
          | inl failed ↦ rw failed (
              logged-Others _ i f unmap_ring
                (put-Others c i f (record (proc_at c i) { ptr = 0 }) h h.flags_same))
          | inr unmapped ↦ rw unmapped (
              logged-Others _ i f unmap_ring
                (put-Others c i f (record (proc_at c i) { ring = none; ptr = 0 }) h h.flags_same))
        ])
]

pub close_conn-same :
    (c : Top) (j : ℕ) → ((close_conn c j).procs ≡ c.procs) × ((close_conn c j).nalive ≡ c.nalive)
unfolding close_conn
close_conn-same c j = ground arith

pub notify-same :
    (k : Kernel) (c : Top) (j : ℕ)
    → ((notify k c j).procs ≡ c.procs) × ((notify k c j).nalive ≡ c.nalive)
unfolding notify
notify-same k c j = ground (arith, close_conn-same c j)

pub notify_from-same :
    (left : ℕ) (k : Kernel) (c : Top) (j pid : ℕ)
    → ((notify_from k c left j pid).procs ≡ c.procs)
      × ((notify_from k c left j pid).nalive ≡ c.nalive)
unfolding notify_from
notify_from-same zero k c j pid = (refl, refl)
notify_from-same (suc left) k c j pid =
    let next = if (conn_at c j).pid == pid then notify k c j else c in
    let rest = notify_from-same left k next (j + 1) pid in
    let here = one_notice k c j ((conn_at c j).pid == pid) in (rest.0 ∙ here.0, rest.1 ∙ here.1)
  where
    one_notice :
        (k : Kernel) (c : Top) (j : ℕ) (b : Bool)
        → ((if b then notify k c j else c).procs ≡ c.procs)
          × ((if b then notify k c j else c).nalive ≡ c.nalive)
    one_notice k c j true = notify-same k c j
    one_notice k c j false = (refl, refl)

pub notify_dead-Counted :
    (k : Kernel) (c : Top) (pid : ℕ) → Counted c → Counted (notify_dead k c pid)
unfolding notify_dead
notify_dead-Counted k c pid h =
    let same = notify_from-same c.nconns k c 0 pid in
    same.1 ∙ h ∙ ap (λ ps. pos (count_alive ps)) (sym same.0)

pub save_child_pipe-Counted :
    (c : Top) (i : ℕ) (piped : Bool) (fd : ℤ)
    → i < length c.procs
    → Counted c
    → Counted (save_child_pipe c i piped fd)
unfolding save_child_pipe
save_child_pipe-Counted c i false fd v h = h
save_child_pipe-Counted c i true fd v h =
    h
    ∙ ap pos (
        ap count_alive (sym (set-get_or c.procs i))
        ∙ count_alive-set c.procs i (proc_at c i) v
        ∙ sym (count_alive-set c.procs i (record (proc_at c i) { fd = fd }) v))

pub spawn_forked-Counted :
    (k : Kernel) (c : Top) (i : ℕ) (f : Flags) (path : Bytes) (piped : Bool) (ret : ℤ) (n : ℕ)
    → Others i f c
    → f.status ≡ false
    → k.fork ≡ pos (suc n)
    → Counted (spawn_forked k c i path piped ret).top
unfolding spawn_forked
spawn_forked-Counted k c i f path piped ret n h on e =
    rw (spawn_forked, e)
      (save_child_pipe-Counted _ i piped k.pipe_fd
        (omega (arith, length-set c.procs i (record (proc_at c i) { pid = suc n }), h.valid))
        (with-Counted c i f (suc n) (fork_exec path ∷ c.log) h on (λ z. omega arith)))

-- What the kernel answers: a fork works and returns a pid to the parent, `pipe2` returns 0 or an error.
pub record Forks (k : Kernel) : Type 0 where
  pub child : ℕ
  pub fork_is : k.fork ≡ pos (suc child)
  pub pipe_is : is_positive k.pipe ≡ false

-- A start that fails changes nothing, one that does not counts the service in.
pub record Spawned (c : Top) (r : Ret) : Type 0 where
  pub failed : is_neg r.ret ≡ true → r.top ≡ c
  pub started : is_neg r.ret ≡ false → Counted r.top

unstarted : (c : Top) (ret : ℤ) → is_neg ret ≡ true → Spawned c (returns c ret)
unstarted c ret neg = record { failed = λ e. refl; started = λ e. cc (sym neg ∙ e) }

pub forked :
    (k : Kernel) (c : Top) (i : ℕ) (f : Flags) (path : Bytes) (piped : Bool) (ret : ℤ)
    → Others i f c
    → f.status ≡ false
    → Forks k
    → Spawned c (spawn_forked k c i path piped ret)
unfolding spawn_forked
forked k c i f path piped ret h on forks = record {
  failed = λ e. cc (rw (spawn_forked, forks.fork_is) at e);
  started = λ e. spawn_forked-Counted k c i f path piped ret forks.child h on forks.fork_is;
}

pub nonzero_neg : (r : ℤ) → is_positive r ≡ false → is_zero r ≡ false → is_neg r ≡ true
nonzero_neg (pos zero) h k = cc k
nonzero_neg (pos (suc n)) h k = cc h
nonzero_neg (negsuc n) h k = refl

pub spawn_proc-Spawned :
    (k : Kernel) (c : Top) (i : ℕ) (f : Flags)
    → Others i f c
    → f.status ≡ false
    → Forks k
    → Spawned c (spawn_proc k c i)
unfolding spawn_proc spawn_path
spawn_proc-Spawned k c i f h on forks = elim (Bool-cases (is_neg k.access)) [
  | inl missing ↦ rw missing (unstarted c k.access missing)
  | inr found ↦ rw found (elim (Bool-cases (proc_at c i).flags.pass) [
    | inl pass ↦ rw pass (forked k c i f (init_dir ++ (proc_at c i).name) false k.access h on forks)
    | inr piped ↦ rw piped (elim (Bool-cases (is_zero k.pipe)) [
      | inl made ↦ rw made (forked k c i f (init_dir ++ (proc_at c i).name) true k.pipe h on forks)
      | inr refused ↦ rw refused (unstarted c k.pipe (nonzero_neg k.pipe forks.pipe_is refused))
    ])
  ])
]
