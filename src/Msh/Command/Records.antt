-- ===== src/Msh/Command/Records.antt =====
-- msh_cmd_envp.c: the records that the commands on the environment read and write. A copy of a
-- string on the heap is the string, and the space that it takes is allocated.
use minibase.Base.{
  ℕ, ◌+◌, ◌*◌, ◌/◌, Bool, true, false, not, ◌&&◌, Option, none, some, List, [], ◌∷◌, ◌++◌, ltb,
  ◌==◌, if◌then◌else◌, Bytes, length,
}
use minibase.Base.Int.{pos, is_neg}
use minibase.Msh.State.{
  Env, Sh, Result, ok, fatal, ◌>>=◌, Kernel, duplicate_definition, variable_overflow,
  reference_overflow, invalid_name,
}
use minibase.Msh.Heap.{heap_alloc}
use minibase.Msh.Env.{header, ev_size, env_first, env_next, Kind, envp, svar, has, env_value, named}

unfoldable pub aligned : ℕ → ℕ
aligned size = (size + 3) / 4 * 4

unfoldable pub realloc_higher : Kernel → Sh → Bytes → Result Sh
unfolding heap_alloc aligned
realloc_higher k sh str = heap_alloc k sh (aligned (length str + 1))

-- The string is `key=val`.
unfoldable pub realloc_pair : Kernel → Sh → Bytes → Bytes → Result Sh
unfolding heap_alloc aligned
realloc_pair k sh key val = heap_alloc k sh (aligned (length key + length val + 2))

abbrev pub pair : Bytes → Bytes → Bytes
pair key val = key ++ b'=' ∷ val

unfoldable pub has_equals : Bytes → Bool
has_equals [] = false
has_equals (c ∷ cs) = let later = has_equals cs in if c == b'=' then true else later

unfoldable pub check_valid_name : Sh → Bytes → Result Sh
unfolding has_equals
check_valid_name sh name = if has_equals name then fatal (invalid_name name) else ok sh

unfoldable pub is_named : Option Bytes → Bytes → Bool
unfolding named
is_named none name = false
is_named (some var) name = named var name

unfoldable pub defined_from : List Bytes → Bytes → List Env → Bool
unfolding is_named env_value env_next
defined_from environ name [] = false
defined_from environ name (ev ∷ rest) =
    let later = defined_from environ name rest in
    if is_named (env_value environ ev svar) name
    then true
    else if env_next ev rest
    then later
    else false

unfoldable pub check_not_defined : Sh → Bytes → Result Sh
unfolding defined_from env_first
check_not_defined sh name =
    if env_first sh.env && defined_from sh.environ name sh.env
    then fatal duplicate_definition
    else ok sh

unfoldable pub clear_from : List Bytes → Bytes → List Env → List Env
unfolding is_named env_value env_next
clear_from environ name [] = []
clear_from environ name (ev ∷ rest) =
    let later = clear_from environ name rest in
    (if is_named (env_value environ ev envp) name
      then record ev { envp = false; svar = false }
      else ev)
    ∷ (if env_next ev rest then later else rest)

unfoldable pub clear_definition : Sh → Bytes → Sh
unfolding clear_from env_first
clear_definition sh name =
    if env_first sh.env then record sh { env = clear_from sh.environ name sh.env } else sh

unfoldable pub without : Kind → Env → Env
without envp ev = record ev { envp = false }
without svar ev = record ev { svar = false }

unfoldable pub clear_entries_from : Kind → List Env → List Env
unfolding without env_next
clear_entries_from kind [] = []
clear_entries_from kind (ev ∷ rest) =
    let later = clear_entries_from kind rest in
    (if has ev kind then without kind ev else ev) ∷ (if env_next ev rest then later else rest)

unfoldable pub clear_all_entries : Sh → Kind → Sh
unfolding clear_entries_from env_first
clear_all_entries sh kind =
    if env_first sh.env then record sh { env = clear_entries_from kind sh.env } else sh

is_envp : Kind → Bool
is_envp envp = true
is_envp svar = false

-- the record that is put at `asep`
unfoldable pub variable : Bytes → Kind → Env
unfolding aligned is_envp
variable var kind = record {
  low = aligned (header + length var + 1);
  envp = is_envp kind;
  svar = not (is_envp kind);
  ref = false;
  payload = var;
}

unfoldable pub append_variable : Sh → Bytes → Kind → Result Sh
unfolding variable
append_variable sh var kind =
    let ev = variable var kind in
    if ltb ev_size ev.low
    then fatal variable_overflow
    else ok (record sh { asep = sh.asep + ev.low; env = sh.env ++ ev ∷ [] })

unfoldable pub reference : ℕ → Kind → Env
unfolding is_envp
reference idx kind = record {
  low = idx;
  envp = is_envp kind;
  svar = not (is_envp kind);
  ref = true;
  payload = [];
}

unfoldable pub append_reference : Sh → ℕ → Kind → Result Sh
unfolding reference
append_reference sh idx kind =
    if ltb ev_size idx
    then fatal reference_overflow
    else ok (record sh { asep = sh.asep + header; env = sh.env ++ reference idx kind ∷ [] })

unfoldable pub reserve_orig_envp : Kernel → Sh → Result Sh
unfolding heap_alloc
reserve_orig_envp k sh =
    if not (is_neg sh.customenvp) then ok sh else heap_alloc k sh ((length sh.environ + 1) * header)

unfoldable pub references_from : ℕ → List Bytes → Sh → Result Sh
unfolding append_reference
references_from i [] sh = ok sh
references_from i (var ∷ vars) sh =
    append_reference sh i envp >>= λ sh. references_from (i + 1) vars sh

unfoldable pub start_custom_envp : Sh → Result Sh
unfolding references_from
start_custom_envp sh =
    let start = references_from 0 sh.environ sh in
    if not (is_neg sh.customenvp)
    then ok sh
    else start >>= λ sh. ok (record sh { customenvp = pos (length sh.environ) })
