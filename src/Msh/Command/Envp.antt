-- ===== src/Msh/Command/Envp.antt =====
-- msh_cmd_envp.c: the commands on variables, and prepenvp of msh_cmd_exec.c, which gathers what they
-- leave for a program.
use minibase.Base.{ℕ, ◌+◌, ◌*◌, Option, none, some, List, [], ◌∷◌, if◌then◌else◌, Bytes, length}
use minibase.Base.Int.{pos, is_neg}
use minibase.Msh.State.{Env, Sh, Result, ok, fatal, ◌>>=◌, Kernel, undefined_variable}
use minibase.Msh.Heap.{heap_alloc}
use minibase.Msh.Argv.{pointer}
use minibase.Msh.Env.{env_first, env_next, envp, svar, env_value, named}
use minibase.Msh.Command.Arguments.{shift, no_more_arguments}
use minibase.Msh.Command.Records.{
  pair, check_valid_name, check_not_defined, realloc_pair, realloc_higher, append_variable,
  append_reference, reserve_orig_envp, start_custom_envp, clear_definition, clear_all_entries,
}

unfoldable pub find_named : ℕ → Bytes → List Bytes → Option ℕ
unfolding named
find_named i name [] = none
find_named i name (var ∷ vars) =
    let later = find_named (i + 1) name vars in if named var name then some i else later

unfoldable pub getenv_found : Sh → Bytes → Option ℕ → Result Sh
unfolding append_reference
getenv_found sh name none = fatal (undefined_variable name)
getenv_found sh name (some i) = append_reference sh i svar

unfoldable pub cmd_getenv : Sh → Result Sh
unfolding shift no_more_arguments check_valid_name check_not_defined getenv_found find_named
cmd_getenv sh = shift sh >>= λ (name, sh). no_more_arguments sh >>= λ sh.
    check_valid_name sh name >>= λ sh.
    check_not_defined sh name >>= λ sh. getenv_found sh name (find_named 0 name sh.environ)

unfoldable pub cmd_clearenv : Sh → Result Sh
unfolding no_more_arguments clear_all_entries
cmd_clearenv sh = no_more_arguments sh >>= λ sh.
    if is_neg sh.customenvp
    then ok (record sh { customenvp = pos 0 })
    else ok (clear_all_entries sh envp)

unfoldable pub prepend : Option Bytes → List Bytes → List Bytes
prepend none later = later
prepend (some var) later = var ∷ later

-- What both loops of `prepenvp` find.
unfoldable pub envp_from : List Bytes → List Env → List Bytes
unfolding prepend env_value env_next
envp_from environ [] = []
envp_from environ (ev ∷ rest) =
    let later = envp_from environ rest in
    prepend (env_value environ ev envp) (if env_next ev rest then later else [])

module _ (k : Kernel) where
  unfoldable pub cmd_set : Sh → Result Sh
  unfolding shift no_more_arguments check_valid_name check_not_defined realloc_pair append_variable
  cmd_set sh = shift sh >>= λ (var, sh). shift sh >>= λ (val, sh). no_more_arguments sh >>= λ sh.
      check_valid_name sh var >>= λ sh. check_not_defined sh var >>= λ sh.
      realloc_pair k sh var val >>= λ sh. append_variable sh (pair var val) svar

  unfoldable pub cmd_setenv : Sh → Result Sh
  unfolding shift no_more_arguments check_valid_name reserve_orig_envp realloc_higher realloc_pair
      start_custom_envp clear_definition append_variable
  cmd_setenv sh = shift sh >>= λ (var, sh). shift sh >>= λ (val, sh). no_more_arguments sh >>= λ sh.
      check_valid_name sh var >>= λ sh. reserve_orig_envp k sh >>= λ sh.
      realloc_higher k sh var >>= λ sh. realloc_pair k sh var val >>= λ sh.
      start_custom_envp sh >>= λ sh. append_variable (clear_definition sh var) (pair var val) envp

  unfoldable pub cmd_delenv : Sh → Result Sh
  unfolding shift no_more_arguments check_valid_name reserve_orig_envp realloc_higher
      start_custom_envp clear_definition
  cmd_delenv sh = shift sh >>= λ (name, sh). no_more_arguments sh >>= λ sh.
      check_valid_name sh name >>= λ sh. reserve_orig_envp k sh >>= λ sh.
      realloc_higher k sh name >>= λ sh.
      start_custom_envp sh >>= λ sh. ok (clear_definition sh name)

  unfoldable pub prepenvp : Sh → Result (List Bytes × Sh)
  unfolding envp_from env_first heap_alloc
  prepenvp sh =
      let vars = if env_first sh.env then envp_from sh.environ sh.env else [] in
      let custom = heap_alloc k sh ((length vars + 1) * pointer) >>= λ sh. ok (vars, sh) in
      if is_neg sh.customenvp then ok (sh.environ, sh) else custom
