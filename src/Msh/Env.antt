-- ===== src/Msh/Env.antt =====
-- The records of the environment: their walk (msh_common.c) and the search for a variable
-- (valueof of msh_parser.c, named of msh_cmd_envp.c).
pub mod Names
use minibase.Base.{
  ℕ, zero, suc, ◌+◌, Bool, false, not, ◌&&◌, ◌||◌, Option, none, some, List, [], ◌∷◌, leb, ◌==◌,
  if◌then◌else◌, Bytes, length, drop, get_elem?, deref, next,
}
use minibase.Base.Int.{ℤ, pos, sub_ℕ}
use minibase.Strings.Compare.{is_zero}
use minibase.Msh.State.{Env}

abbrev pub header : ℕ
header = 4

abbrev pub ev_size : ℕ
ev_size = 65535

-- the bytes that a record takes
abbrev pub size_of : Env → ℕ
size_of ev = if ev.ref then header else ev.low

abbrev pub total : List Env → ℕ
total [] = 0
total (ev ∷ evs) = size_of ev + total evs

-- Whether `env_first` returns the first record.
unfoldable pub env_first : List Env → Bool
env_first [] = false
env_first (ev ∷ rest) =
    leb header (total (ev ∷ rest))
    && leb header (size_of ev)
    && leb (size_of ev) (total (ev ∷ rest))

-- Whether `env_next` of `ev` returns the record behind it. The size that it checks is that of `ev`.
unfoldable pub env_next : Env → List Env → Bool
env_next ev rest = leb header (total rest) && leb (size_of ev) (total rest)

pub data Kind : Type 0 where
  envp svar : Kind

abbrev pub has : Env → Kind → Bool
has ev envp = ev.envp
has ev svar = ev.svar

unfoldable pub env_value : List Bytes → Env → Kind → Option Bytes
env_value environ ev kind =
    if not (has ev kind)
    then none
    else if not ev.ref
    then some ev.payload
    else get_elem? environ ev.low

-- `left` is `n` after `--n`.
strncmp_loop : Bytes → Bytes → ℕ → ℤ
strncmp_loop a b zero = sub_ℕ (deref a) (deref b)
strncmp_loop a b (suc left) =
    let later = strncmp_loop (next a) (next b) left in
    if deref a == 0 || not (deref a == deref b) then sub_ℕ (deref a) (deref b) else later

-- Only tested for 0.
unfoldable pub strncmp : Bytes → Bytes → ℕ → ℤ
unfolding strncmp_loop
strncmp a b zero = pos 0
strncmp a b (suc left) = strncmp_loop a b left

unfoldable pub named : Bytes → Bytes → Bool
named v [] = deref v == b'='
named v (n ∷ ns) = let later = named (next v) ns in if deref v == n then later else false

-- the tests of the loop of `valueof`
unfoldable pub holds : Bytes → Bytes → Bool
unfolding strncmp
holds var name = is_zero (strncmp var name (length name)) && deref (drop (length name) var) == b'='

unfoldable pub matching : Option Bytes → Bytes → Option Bytes → Option Bytes
unfolding holds
matching none name later = later
matching (some var) name later = if holds var name then some (drop (length name + 1) var) else later

unfoldable pub value_from : List Bytes → Bytes → List Env → Option Bytes
unfolding matching env_value env_next
value_from environ name [] = none
value_from environ name (ev ∷ rest) =
    let later = value_from environ name rest in
    matching (env_value environ ev svar) name (if env_next ev rest then later else none)

unfoldable pub valueof : List Bytes → List Env → Bytes → Option Bytes
unfolding value_from env_first
valueof environ env name = if env_first env then value_from environ name env else none
