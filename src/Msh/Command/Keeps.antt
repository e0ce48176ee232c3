-- ===== src/Msh/Command/Keeps.antt =====
-- The commands keep to the heap, as the parser wants it of them.
use minibase.Base.{
  ℕ, ◌+◌, ◌≤◌, Bool, true, false, Option, none, some, arith, Bytes, length, if◌then◌else◌,
}
use minibase.Format.Parse.{Parsed, parseint}
use minibase.Msh.State.{
  Sh, Result, ok, fatal, exited, ◌>>=◌, Kernel, Handlers, cd, clearenv, delenv, die, echo, exit,
  getenv, set, setenv, warn,
}
use minibase.Msh.Heap.Kept.{Ends, Ends->>=}
use minibase.Msh.Env.{size_of, Kind, envp, svar}
use minibase.Msh.Command.Arguments.{
  shift, shift_int, whole_number, got_more_arguments, no_more_arguments, check,
}
use minibase.Msh.Command.Records.{
  aligned, realloc_higher, realloc_pair, pair, check_valid_name, check_not_defined,
  clear_definition, clear_all_entries, variable, append_variable, append_reference,
  reserve_orig_envp, start_custom_envp,
}
use minibase.Msh.Command.Envp.{
  find_named, getenv_found, cmd_set, cmd_setenv, cmd_getenv, cmd_delenv, cmd_clearenv,
}
use minibase.Msh.Command.Basic.{cmd_cd, cmd_exit, print, cmd_echo, cmd_warn, cmd_die, commands}
use minibase.Msh.Command.Room.{
  Room, Ready, shift-Room, no_more_arguments-Room, check_valid_name-Room, check_not_defined-Room,
  heap_alloc-Ready, heap_alloc-Room, reserve-Ready, append_reference-Room, start_custom_envp-Room,
  append_variable-Room, aligned-pair, clear_definition-Room, clear_all_entries-Room,
}
use minibase.Msh.Parser.Safe.{Called, Left, Keeps}

-- two pointers, of an argv of one string at least
abbrev least : ℕ
least = 16

Left-Room_zero : (m : Result Sh) → Ends (Room 0) m → Ends Left m
Left-Room_zero (ok sh) r = (r.0, omega arith, r.2)
Left-Room_zero (fatal e) r = r
Left-Room_zero (exited n) r = r

Left-Room : (n : ℕ) (sh : Sh) → Room n sh → Left sh
Left-Room n sh r = (r.0, omega arith, r.2)

getenv_found-Left :
    (sh : Sh) (name : Bytes) (o : Option ℕ) → Room least sh → Ends Left (getenv_found sh name o)
unfolding getenv_found
getenv_found-Left sh name none r = λ e. cc
getenv_found-Left sh name (some i) r =
    Left-Room_zero (append_reference sh i svar)
      (append_reference-Room 0 i svar sh (r.0, omega arith, r.2))

svar_pair :
    (key val : Bytes)
    → size_of (variable (pair key val) svar) ≤ 4 + aligned (length key + length val + 2)
unfolding variable
svar_pair key val = aligned-pair key val

append_variable-Left :
    (n : ℕ) (var : Bytes) (kind : Kind) (sh : Sh)
    → Room n sh
    → size_of (variable var kind) ≤ n
    → Ends Left (append_variable sh var kind)
append_variable-Left n var kind sh r fits =
    Left-Room_zero (append_variable sh var kind) (append_variable-Room n var kind sh r fits)

-- What a command does behind the next of its steps ends well, if it does so in every context that
-- the step leaves.
module _ (sh : Sh) (r : Room least sh) where
  after_shift :
      (f : Bytes × Sh → Result Sh)
      → ((text : Bytes) (sh : Sh) → Room least sh → Ends Left (f (text, sh)))
      → Ends Left (shift sh >>= f)
  after_shift f g =
      Ends->>= (λ (_, sh). Room least sh) Left (shift sh) f (shift-Room least sh r)
        λ (text, sh) r. g text sh r

  after_arguments :
      (f : Sh → Result Sh)
      → ((sh : Sh) → Room least sh → Ends Left (f sh))
      → Ends Left (no_more_arguments sh >>= f)
  after_arguments f g =
      Ends->>= (Room least) Left (no_more_arguments sh) f (no_more_arguments-Room least sh r) g

  after_name :
      (name : Bytes) (f : Sh → Result Sh)
      → ((sh : Sh) → Room least sh → Ends Left (f sh))
      → Ends Left (check_valid_name sh name >>= f)
  after_name name f g =
      Ends->>= (Room least) Left (check_valid_name sh name) f
        (check_valid_name-Room least sh name r) g

  after_undefined :
      (name : Bytes) (f : Sh → Result Sh)
      → ((sh : Sh) → Room least sh → Ends Left (f sh))
      → Ends Left (check_not_defined sh name >>= f)
  after_undefined name f g =
      Ends->>= (Room least) Left (check_not_defined sh name) f
        (check_not_defined-Room least sh name r) g

module _ (k : Kernel) where
  cmd_set-Left : (sh : Sh) → Called sh → Ends Left (cmd_set k sh)
  unfolding cmd_set
  cmd_set-Left sh c = after_shift sh c _ λ var sh r. after_shift sh r _ λ val sh r.
      after_arguments sh r _ λ sh r. after_name sh r var _ λ sh r.
        after_undefined sh r var _ λ sh r.
          let len = aligned (length var + length val + 2) in
          Ends->>= (Room (least + len)) Left (realloc_pair k sh var val) _
            (unfold realloc_pair in heap_alloc-Room k least len sh r)
            λ sh r.
              append_variable-Left (least + len) (pair var val) svar sh r
                (omega (arith, svar_pair var val))

  cmd_setenv-Left : (sh : Sh) → Called sh → Ends Left (cmd_setenv k sh)
  unfolding cmd_setenv
  cmd_setenv-Left sh c = after_shift sh c _ λ var sh r. after_shift sh r _ λ val sh r.
      after_arguments sh r _ λ sh r. after_name sh r var _ λ sh r.
        let key = aligned (length var + 1) in
        let len = aligned (length var + length val + 2) in
        Ends->>= (Ready least) Left (reserve_orig_envp k sh) _ (reserve-Ready k least sh r) λ sh r.
          Ends->>= (Ready (least + key)) Left (realloc_higher k sh var) _
            (unfold realloc_higher in heap_alloc-Ready k least key sh r)
            λ sh r.
              Ends->>= (Ready (least + key + len)) Left (realloc_pair k sh var val) _
                (unfold realloc_pair in heap_alloc-Ready k (least + key) len sh r)
                λ sh r.
                  Ends->>= (Room (least + key + len)) Left (start_custom_envp sh) _
                    (start_custom_envp-Room (least + key + len) sh r)
                    λ sh r.
                      append_variable-Left (least + key + len) (pair var val) envp
                        (clear_definition sh var)
                        (clear_definition-Room (least + key + len) sh var r)
                        (omega (arith, aligned-pair var val))

  cmd_delenv-Left : (sh : Sh) → Called sh → Ends Left (cmd_delenv k sh)
  unfolding cmd_delenv
  cmd_delenv-Left sh c = after_shift sh c _ λ name sh r. after_arguments sh r _ λ sh r.
      after_name sh r name _ λ sh r.
        let key = aligned (length name + 1) in
        Ends->>= (Ready least) Left (reserve_orig_envp k sh) _ (reserve-Ready k least sh r) λ sh r.
          Ends->>= (Ready (least + key)) Left (realloc_higher k sh name) _
            (unfold realloc_higher in heap_alloc-Ready k least key sh r)
            λ sh r.
              Ends->>= (Room (least + key)) Left (start_custom_envp sh) _
                (start_custom_envp-Room (least + key) sh r)
                λ sh r.
                  Left-Room (least + key) (clear_definition sh name)
                    (clear_definition-Room (least + key) sh name r)

  cmd_getenv-Left : (sh : Sh) → Called sh → Ends Left (cmd_getenv sh)
  unfolding cmd_getenv
  cmd_getenv-Left sh c = after_shift sh c _ λ name sh r. after_arguments sh r _ λ sh r.
      after_name sh r name _ λ sh r.
        after_undefined sh r name _
          λ sh r. getenv_found-Left sh name (find_named 0 name sh.environ) r

  cmd_clearenv-Left : (sh : Sh) → Called sh → Ends Left (cmd_clearenv sh)
  unfolding cmd_clearenv
  cmd_clearenv-Left sh c = after_arguments sh c _ λ sh r.
      let all =
        Left-Room least (clear_all_entries sh envp) (clear_all_entries-Room least sh envp r) in
      ground (arith, all)

  print-Left : (sh : Sh) (fd : ℕ) → Called sh → Ends Left (print k sh fd)
  unfolding print check
  print-Left sh fd c = after_shift sh c _ λ msg sh r. after_arguments sh r _ λ sh r. ground arith

  cmd_cd-Left : (sh : Sh) → Called sh → Ends Left (cmd_cd k sh)
  unfolding cmd_cd check
  cmd_cd-Left sh c = after_shift sh c _ λ dir sh r. after_arguments sh r _ λ sh r. ground arith

  shift_int-Room : (sh : Sh) → Room least sh → Ends (λ (_, sh). Room least sh) (shift_int sh)
  unfolding shift_int
  shift_int-Room sh r =
      Ends->>= (λ (_, sh). Room least sh) (λ (_, sh). Room least sh) (shift sh) _
        (shift-Room least sh r) λ (str, sh) r. number str (parseint str) sh r
    where
      number :
          (str : Bytes) (o : Option Parsed) (sh : Sh)
          → Room least sh
          → Ends (λ (_, sh). Room least sh) (whole_number str o sh)
      number str none sh r = unfold whole_number in λ e. cc
      number str (some n) sh r = unfold whole_number in ground arith

  exit_code-Room :
      (b : Bool) (sh : Sh)
      → Room least sh
      → Ends (λ (_, sh). Room least sh) (if b then shift_int sh else ok (0, sh))
  exit_code-Room true sh r = shift_int-Room sh r
  exit_code-Room false sh r = r

  cmd_exit-Left : (sh : Sh) → Called sh → Ends Left (cmd_exit k sh)
  unfolding cmd_exit
  cmd_exit-Left sh c =
      Ends->>= (λ (_, sh). Room least sh) Left
        (if got_more_arguments sh then shift_int sh else ok (0, sh)) _
        (exit_code-Room (got_more_arguments sh) sh c)
        λ (code, sh) r. after_arguments sh r _ λ sh r. tt

  cmd_die-Left : (sh : Sh) → Called sh → Ends Left (cmd_die k sh)
  unfolding cmd_die cmd_warn
  cmd_die-Left sh c = Ends->>= Left Left (print k sh 2) _ (print-Left sh 2 c) (λ sh l. tt)

  -- The commands on the environment, the basic ones and any others that keep to the heap leave the
  -- records before `asep`, and `asep` and the strings within the heap, however the kernel answers.
  pub commands-Keeps : (rest : Handlers) → Keeps rest → Keeps (commands k rest)
  unfolding commands cmd_echo cmd_warn
  commands-Keeps rest h cd sh c = cmd_cd-Left sh c
  commands-Keeps rest h exit sh c = cmd_exit-Left sh c
  commands-Keeps rest h echo sh c = print-Left sh 1 c
  commands-Keeps rest h warn sh c = print-Left sh 2 c
  commands-Keeps rest h die sh c = cmd_die-Left sh c
  commands-Keeps rest h set sh c = cmd_set-Left sh c
  commands-Keeps rest h setenv sh c = cmd_setenv-Left sh c
  commands-Keeps rest h getenv sh c = cmd_getenv-Left sh c
  commands-Keeps rest h delenv sh c = cmd_delenv-Left sh c
  commands-Keeps rest h clearenv sh c = cmd_clearenv-Left sh c
  commands-Keeps rest h cc sh c = h cc sh c
