-- ===== src/Svchub/Proc.antt =====
-- src/svchub/svchub_proc.c: the table of services.
pub mod Find
use minibase.Base.{
  ℕ, zero, suc, ◌+◌, ◌-◌, ◌/◌, ◌%◌, ◌^◌, Bool, true, false, not, ◌&&◌, ◌||◌, Option, none, some,
  List, [], ◌∷◌, ◌++◌, ltb, leb, ◌==◌, if◌then◌else◌, Bytes, set, length, deref, codes,
}
use minibase.Base.Int.{ℤ, pos, negsuc, is_neg, succ_ℤ}
use minibase.Strings.Compare.{strcmpn, is_zero}
use minibase.Svchub.State.{
  name_len, max_procs, no_flags, any_flag, StartFlags, Proc, blank_proc, kill, fork_exec, watch_fd,
  unmap_ring, Top, Kernel, logged, proc_at, put_proc, einval, enoent, eagain, enomem, ebusy,
  enametoolong, enodata, sigterm, sigcont,
}

-- the state after a call, and the int that it returns
pub record Ret : Type 0 where
  pub top : Top
  pub ret : ℤ

abbrev pub returns : Top → ℤ → Ret
returns c r = record { top = c; ret = r }

-- `if(ret < 0) return ret;` and on with the rest
abbrev pub then_do : Ret → (Top → ℤ → Ret) → Ret
then_do r k = if is_neg r.ret then r else k r.top r.ret

-- the first of the next `left` slots with the name
unfoldable pub find_name_from : List Proc → ℕ → ℕ → Bytes → Option ℕ
find_name_from [] left i name = none
find_name_from (p ∷ ps) zero i name = none
find_name_from (p ∷ ps) (suc left) i name =
    let rest = find_name_from ps left (i + 1) name in
    if is_zero (strcmpn p.name name name_len) then some i else rest

unfoldable pub find_by_name : Top → Bytes → Option ℕ
unfolding find_name_from
find_by_name c name = if deref name == 0 then none else find_name_from c.procs c.nprocs 0 name

unfoldable pub find_free_from : List Proc → ℕ → ℕ → Option ℕ
find_free_from [] left i = none
find_free_from (p ∷ ps) zero i = none
find_free_from (p ∷ ps) (suc left) i =
    let rest = find_free_from ps left (i + 1) in if not (any_flag p.flags) then some i else rest

-- the unused slot that was found, or the next one
unfoldable pub grab_found : Top → Option ℕ → Option (Top × ℕ)
grab_found c (some i) = some (c, i)
grab_found c none =
    if leb max_procs c.nprocs then none else some (record c { nprocs = c.nprocs + 1 }, c.nprocs)

-- the state with the slot counted in, and the slot
unfoldable pub grab_proc_slot : Top → Option (Top × ℕ)
unfolding find_free_from grab_found
grab_proc_slot c = grab_found c (find_free_from c.procs c.nprocs 0)

abbrev pub wipe_proc_slot : Top → ℕ → Top
wipe_proc_slot c i = put_proc c i blank_proc

-- Closing the child's end of the pipe and watching ours. (A `close` that fails ends the process.)
unfoldable pub save_child_pipe : Top → ℕ → Bool → ℤ → Top
save_child_pipe c i piped fd =
    if not piped then c else logged (put_proc c i (record (proc_at c i) { fd = fd })) (watch_fd fd)

-- The parent's side of the fork. `ret` is what the variable holds when the fork is tried.
unfoldable pub spawn_forked : Kernel → Top → ℕ → Bytes → Bool → ℤ → Ret
unfolding save_child_pipe
spawn_forked k c i path piped ret = elim k.fork [
  | negsuc e ↦ returns c ret
  | pos pid ↦
      let started = record c {
        procs = set c.procs i (record (proc_at c i) { pid = pid });
        nalive = succ_ℤ c.nalive;
        log = fork_exec path ∷ c.log;
      } in
      returns (save_child_pipe started i piped k.pipe_fd) (pos 0)
]

unfoldable pub spawn_path : Kernel → Top → ℕ → Bytes → Ret
unfolding spawn_forked
spawn_path k c i path =
    if is_neg k.access
    then returns c k.access
    else if (proc_at c i).flags.pass
    then spawn_forked k c i path false k.access
    else if not (is_zero k.pipe)
    then returns c k.pipe
    else spawn_forked k c i path true k.pipe

-- INITDIR "/", with the BASE_ETC that configure sets
abbrev pub init_dir : Bytes
init_dir = codes "/base/etc/init/"

unfoldable pub spawn_proc : Kernel → Top → ℕ → Ret
unfolding spawn_path
spawn_proc k c i = spawn_path k c i (init_dir ++ (proc_at c i).name)

unfoldable pub update_proc_time : Kernel → Top → ℕ → Top
update_proc_time k c i = put_proc c i (record (proc_at c i) { time = k.now })

-- `t1 - t0` is a uint. The time is updated in either case.
unfoldable pub ran_long_enough : Kernel → Top → ℕ → Top × Bool
unfolding update_proc_time
ran_long_enough k c i =
    let t0 = (proc_at c i).time in (update_proc_time k c i, ltb 10 ((k.now + 2 ^ 32 - t0) % 2 ^ 32))

unfoldable pub flush_ring_buf : Kernel → Top → ℕ → Ret
flush_ring_buf k c i = elim (proc_at c i).ring [
  | none ↦ returns c enodata
  | some _ ↦
      if is_neg k.unmap
      then returns (logged (put_proc c i (record (proc_at c i) { ptr = 0 })) unmap_ring) k.unmap
      else returns
          (logged (put_proc c i (record (proc_at c i) { ring = none; ptr = 0 })) unmap_ring) (pos 0)
]

abbrev pub has_ring : Proc → Bool
has_ring p = elim p.ring [ some _ ↦ true | none ↦ false ]

-- behind the flags and the pid
unfoldable pub restart_stopped : Kernel → Top → ℕ → Ret
unfolding flush_ring_buf spawn_proc update_proc_time
restart_stopped k c i =
    then_do (if has_ring (proc_at c i) then flush_ring_buf k c i else returns c (pos 0))
      (λ c1 _. then_do (spawn_proc k c1 i) (λ c2 ret. returns (update_proc_time k c2 i) ret))

unfoldable pub restart_proc : Kernel → Top → ℕ → StartFlags → Ret
unfolding restart_stopped
restart_proc k c i flags =
    let p = proc_at c i in
    if flags.once || flags.pass
    then returns c einval
    else if p.flags.status
    then restart_stopped k
        (put_proc c i
          (record p { flags = record (p.flags) { status = false; killed = false }; pid = 0 }))
        i
    else if not (p.pid == 0)
    then returns c ebusy
    else restart_stopped k c i

unfoldable pub prep_and_start : Kernel → Top → ℕ → Bytes → StartFlags → Ret
unfolding spawn_proc update_proc_time
prep_and_start k c i name flags =
    if ltb name_len (length name)
    then returns (put_proc c i blank_proc) enametoolong
    else then_do
        (spawn_proc k
          (put_proc c i (record blank_proc {
            flags = record no_flags { in_use = true; once = flags.once; pass = flags.pass };
            fd = negsuc 0;
            name = name;
          }))
          i)
        (λ c1 ret. returns (update_proc_time k c1 i) ret)

-- a name that was not found: `grabbed` is the slot for it
unfoldable pub start_new : Kernel → Top → Bytes → StartFlags → Option (Top × ℕ) → Ret
unfolding prep_and_start
start_new k c name flags none = returns c enomem
start_new k c name flags (some (c1, i)) =
    let r = prep_and_start k c1 i name flags in
    if is_neg r.ret then returns (wipe_proc_slot r.top i) r.ret else r

unfoldable pub start_found : Kernel → Top → Bytes → StartFlags → Option ℕ → Ret
unfolding restart_proc start_new grab_proc_slot
start_found k c name flags (some i) = restart_proc k c i flags
start_found k c name flags none = start_new k c name flags (grab_proc_slot c)

unfoldable pub start_proc : Kernel → Top → Bytes → StartFlags → Ret
unfolding find_by_name start_found
start_proc k c name flags = start_found k c name flags (find_by_name c name)

abbrev pub signal : Kernel → Top → ℕ → ℕ → Ret
signal k c pid sig = returns (logged c (kill pid sig)) (k.kill pid sig)

unfoldable pub stop_proc : Kernel → Top → Bytes → Ret
unfolding find_by_name
stop_proc k c name = elim (find_by_name c name) [
  | none ↦ returns c enoent
  | some i ↦
      let p = proc_at c i in
      if p.flags.status || p.pid == 0
      then returns c eagain
      else then_do
          (signal k (put_proc c i (record p { flags = record (p.flags) { killed = true } })) p.pid
            sigcont)
          (λ c1 _. then_do (signal k c1 p.pid sigterm) (λ c2 _. returns c2 (pos p.pid)))
]

unfoldable pub flush_proc : Kernel → Top → Bytes → Ret
unfolding find_by_name flush_ring_buf
flush_proc k c name = elim (find_by_name c name) [
  | none ↦ returns c enoent
  | some i ↦ flush_ring_buf k c i
]

unfoldable pub remove_proc : Kernel → Top → Bytes → Ret
unfolding find_by_name flush_ring_buf
remove_proc k c name = elim (find_by_name c name) [
  | none ↦ returns c enoent
  | some i ↦
      let p = proc_at c i in
      if not (p.pid == 0) && not p.flags.status
      then returns c ebusy
      else then_do (flush_ring_buf k c i) (λ c1 _. returns (wipe_proc_slot c1 i) (pos 0))
]

unfoldable pub kill_proc : Kernel → Top → Bytes → ℕ → Ret
unfolding find_by_name
kill_proc k c name sig = elim (find_by_name c name) [
  | none ↦ returns c enoent
  | some i ↦
      let p = proc_at c i in
      if p.pid == 0 || p.flags.status then returns c eagain else signal k c p.pid sig
]
