-- ===== src/Msh/Argv.antt =====
-- msh_parser.c: from the strings behind `asep` to an argv and the handler of its command.
pub mod Joined
use minibase.Base.{
  ℕ, zero, suc, ◌+◌, ◌*◌, Bool, Option, none, some, List, [], ◌∷◌, leb, ◌==◌, if◌then◌else◌, Bytes,
  length, drop, codes,
}
use minibase.Strings.Compare.{is_zero}
use minibase.Msh.State.{
  Sh, Result, ok, fatal, ◌>>=◌, Kernel, Handlers, Cmd, unknown_command, cd, chroot, clearenv, close,
  delenv, die, echo, exec, exit, getenv, groups, invoke, mkdir, mount, prctl, reopen, rlimit, run,
  scheduler, set, setcaps, setcpus, setenv, setgid, setprio, setuid, sleep, stderr, stdin, stdout,
  stdtwo, umask, unlink, waitfor, warn, write,
}
use minibase.Msh.Heap.{heap_alloc}
use minibase.Msh.Env.{strncmp}

-- the distance to the first NUL before the end
unfoldable pub advance : Bytes → Option ℕ
advance [] = none
advance (c ∷ cs) =
    if c == 0 then some 0 else elim (advance cs) [ none ↦ none | some q ↦ some (suc q) ]

-- the C string at the front of the bytes
unfoldable pub c_string : Bytes → Bytes
c_string [] = []
c_string (c ∷ cs) = let rest = c_string cs in if c == 0 then [] else c ∷ rest

count_after : Option ℕ → (ℕ → ℕ) → ℕ
count_after none further = 0
count_after (some q) further = suc (further q)

-- Every round takes a byte at least, so that as many rounds as there are bytes are enough.
unfoldable pub count_from : ℕ → Bytes → ℕ
unfolding count_after advance
count_from zero bytes = 0
count_from (suc rounds) bytes =
    count_after (advance bytes) λ q. count_from rounds (drop (q + 1) bytes)

unfoldable pub count_args : Bytes → ℕ
unfolding count_from
count_args bytes = count_from (length bytes) bytes

index_after : Option ℕ → Bool → ℕ → (ℕ → List ℕ) → List ℕ
index_after none full p further = []
index_after (some q) full p further = if full then [] else p ∷ further q

-- The pointers that are put in argv, as distances from `asep`; `p` is the next one, `i` are there.
unfoldable pub index_from : ℕ → ℕ → Bytes → ℕ → ℕ → List ℕ
unfolding index_after advance
index_from zero p bytes i argc = []
index_from (suc rounds) p bytes i argc =
    index_after (advance bytes) (leb argc i) p
      λ q. index_from rounds (p + q + 1) (drop (q + 1) bytes) (i + 1) argc

unfoldable pub index_args : Bytes → ℕ → List ℕ
unfolding index_from
index_args bytes argc = index_from (length bytes) 0 bytes 0 argc

-- `argv`, each pointer with the string behind it
unfoldable pub strings_at : Bytes → List ℕ → List Bytes
unfolding c_string
strings_at bytes [] = []
strings_at bytes (p ∷ ps) = c_string (drop p bytes) ∷ strings_at bytes ps

abbrev pub builtins : List (Bytes × Cmd)
builtins =
    (codes "cd", cd)
    ∷ (codes "chroot", chroot)
    ∷ (codes "clearenv", clearenv)
    ∷ (codes "close", close)
    ∷ (codes "delenv", delenv)
    ∷ (codes "die", die)
    ∷ (codes "echo", echo)
    ∷ (codes "exec", exec)
    ∷ (codes "exit", exit)
    ∷ (codes "getenv", getenv)
    ∷ (codes "groups", groups)
    ∷ (codes "invoke", invoke)
    ∷ (codes "mkdir", mkdir)
    ∷ (codes "mount", mount)
    ∷ (codes "prctl", prctl)
    ∷ (codes "reopen", reopen)
    ∷ (codes "rlimit", rlimit)
    ∷ (codes "run", run)
    ∷ (codes "scheduler", scheduler)
    ∷ (codes "set", set)
    ∷ (codes "setcaps", setcaps)
    ∷ (codes "setcpus", setcpus)
    ∷ (codes "setenv", setenv)
    ∷ (codes "setgid", setgid)
    ∷ (codes "setprio", setprio)
    ∷ (codes "setuid", setuid)
    ∷ (codes "sleep", sleep)
    ∷ (codes "stderr", stderr)
    ∷ (codes "stdin", stdin)
    ∷ (codes "stdout", stdout)
    ∷ (codes "stdtwo", stdtwo)
    ∷ (codes "umask", umask)
    ∷ (codes "unlink", unlink)
    ∷ (codes "waitfor", waitfor)
    ∷ (codes "warn", warn)
    ∷ (codes "write", write)
    ∷ []

abbrev pub max_name : ℕ
max_name = 12

unfoldable pub builtin_in : List (Bytes × Cmd) → Bytes → Option Cmd
unfolding strncmp
builtin_in [] name = none
builtin_in ((cc, func) ∷ ccs) name =
    let later = builtin_in ccs name in
    if is_zero (strncmp cc name max_name) then some func else later

unfoldable pub builtin : Bytes → Option Cmd
unfolding builtin_in
builtin name = builtin_in builtins name

unfoldable pub call_func : Handlers → Option Cmd → Bytes → Sh → Result Sh
call_func func none lead sh = fatal (unknown_command lead)
call_func func (some cc) lead sh = func cc sh >>= λ sh. ok (record sh { argv = [] })

-- `argc` is the length of `argv`.
unfoldable pub command : Handlers → Sh → List Bytes → Result Sh
unfolding call_func builtin
command func sh [] = ok sh
command func sh (lead ∷ argv) =
    call_func func (builtin lead) lead (record sh { argp = 1; argv = lead ∷ argv })

abbrev pub pointer : ℕ
pointer = 8

-- The rest of `execute` once there are arguments.
unfoldable pub run_args : Kernel → Handlers → Sh → ℕ → Result Sh
unfolding heap_alloc strings_at index_args command
run_args k func sh argc = heap_alloc k sh ((argc + 1) * pointer) >>= λ sh'.
    command func sh' (strings_at sh.args (index_args sh.args argc)) >>= λ sh'.
    ok (record sh' { hptr = sh'.asep; args = [] })

unfoldable pub execute : Kernel → Handlers → Sh → Result Sh
unfolding count_args run_args
execute k func sh =
    let done = run_args k func sh (count_args sh.args) in
    if count_args sh.args == 0 then ok sh else done
