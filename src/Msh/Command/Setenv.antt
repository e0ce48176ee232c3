-- ===== src/Msh/Command/Setenv.antt =====
-- `setenv NAME VALUE`: the environment of a program that is run afterwards.
use minibase.Base.{
  ℕ, ◌+◌, ◌*◌, ◌≤◌, ◌≡◌, refl, sym, ap, ◌∙◌, true, false, not, Option, none, some, List, [], ◌∷◌,
  ◌++◌, arith, Bytes, length, Bool-cases, inl, inr, if◌then◌else◌, if_same,
}
use minibase.Base.Int.{pos, is_neg}
use minibase.Msh.State.{Env, Sh, ok, ◌>>=◌, Kernel}
use minibase.Msh.Argv.{pointer}
use minibase.Msh.Env.{header, ev_size, size_of, total, env_first, env_next, envp, env_value, named}
use minibase.Msh.Command.Records.{
  is_named, clear_from, clear_definition, variable, pair, has_equals, append_variable, aligned,
  realloc_pair, realloc_higher, start_custom_envp, reserve_orig_envp,
}
use minibase.Msh.Command.Envp.{cmd_setenv, envp_from, prepend, prepenvp}
use minibase.Msh.Command.Lookup.{Reaches, total-append, env_first-last}
use minibase.Msh.Command.Set.{
  called, pair_size, pair_size-variable, header-pair_size, heap_alloc_lem, append_variable_lem,
  allocated,
}
use minibase.Msh.Parser.Grown.{Grants}

-- Each record but the last has its header, and a successor that the walk goes to.
abbrev pub Walkable : List Env → Type 0
Walkable [] = Unit {0}
Walkable (x ∷ []) = Unit {0}
Walkable (x ∷ y ∷ e) = (env_next x (y ∷ e) ≡ true) × Walkable (y ∷ e)

-- all the values of the records of the environment
unfoldable pub values : List Bytes → List Env → List Bytes
unfolding prepend env_value
values environ [] = []
values environ (x ∷ e) = prepend (env_value environ x envp) (values environ e)

-- the ones that do not define the name
unfoldable pub others : Bytes → List Bytes → List Bytes
unfolding named
others name [] = []
others name (var ∷ vars) =
    let rest = others name vars in if named var name then rest else var ∷ rest

abbrev cleared : List Bytes → Bytes → Env → Env
cleared environ name ev =
    if is_named (env_value environ ev envp) name
    then record ev { envp = false; svar = false }
    else ev

unfoldable all_cleared : List Bytes → Bytes → List Env → List Env
all_cleared environ name [] = []
all_cleared environ name (x ∷ e) = cleared environ name x ∷ all_cleared environ name e

clear_from-Walkable :
    (environ : List Bytes) (name : Bytes) (e : List Env)
    → Walkable e
    → clear_from environ name e ≡ all_cleared environ name e
unfolding clear_from all_cleared
clear_from-Walkable environ name [] w = refl
clear_from-Walkable environ name (x ∷ []) w =
    ap (◌∷◌ (cleared environ name x)) (if_same (env_next x []) [])
clear_from-Walkable environ name (x ∷ y ∷ e) w =
    rw w.0 (ap (◌∷◌ (cleared environ name x)) (clear_from-Walkable environ name (y ∷ e) w.1))

others-prepend_named :
    (o : Option Bytes) (name : Bytes) (vars : List Bytes)
    → is_named o name ≡ true
    → others name (prepend o vars) ≡ others name vars
unfolding others prepend is_named
others-prepend_named none name vars e = cc
others-prepend_named (some var) name vars e = rw e refl

others-prepend_other :
    (o : Option Bytes) (name : Bytes) (vars : List Bytes)
    → is_named o name ≡ false
    → others name (prepend o vars) ≡ prepend o (others name vars)
unfolding others prepend is_named
others-prepend_other none name vars e = refl
others-prepend_other (some var) name vars e = rw e refl

cleared_value :
    (environ : List Bytes) (x : Env) (vars : List Bytes)
    → prepend (env_value environ (record x { envp = false; svar = false }) envp) vars ≡ vars
unfolding env_value prepend
cleared_value environ x vars = refl

values-cleared :
    (environ : List Bytes) (name : Bytes) (x : Env) (vars : List Bytes)
    → prepend (env_value environ (cleared environ name x) envp) (others name vars)
      ≡ others name (prepend (env_value environ x envp) vars)
values-cleared environ name x vars = elim (Bool-cases (is_named (env_value environ x envp) name)) [
  | inl same ↦ rw same (
      cleared_value environ x (others name vars)
      ∙ sym (others-prepend_named (env_value environ x envp) name vars same))
  | inr other ↦ rw other (sym (others-prepend_other (env_value environ x envp) name vars other))
]

size-cleared :
    (environ : List Bytes) (name : Bytes) (x : Env) → size_of (cleared environ name x) ≡ size_of x
size-cleared environ name x = ground arith

total-all_cleared :
    (environ : List Bytes) (name : Bytes) (e : List Env)
    → total (all_cleared environ name e) ≡ total e
unfolding all_cleared
total-all_cleared environ name [] = refl
total-all_cleared environ name (x ∷ e) =
    omega (arith, size-cleared environ name x, total-all_cleared environ name e)

Reaches-all_cleared :
    (environ : List Bytes) (name : Bytes) (e : List Env) (n : ℕ)
    → Reaches e n
    → Reaches (all_cleared environ name e) n
unfolding all_cleared
Reaches-all_cleared environ name [] n r = tt
Reaches-all_cleared environ name (x ∷ e) n r =
    rw (size-cleared environ name x, total-all_cleared environ name e)
      (r.0, r.1, Reaches-all_cleared environ name e n r.2)

values-all_cleared :
    (environ : List Bytes) (name : Bytes) (e : List Env)
    → values environ (all_cleared environ name e) ≡ others name (values environ e)
unfolding all_cleared values
values-all_cleared environ name [] = unfold others in refl
values-all_cleared environ name (x ∷ e) =
    rw (values-all_cleared environ name e) (values-cleared environ name x (values environ e))

prepend-append :
    (o : Option Bytes) (vars rest : List Bytes) → prepend o (vars ++ rest) ≡ prepend o vars ++ rest
unfolding prepend
prepend-append none vars rest = refl
prepend-append (some var) vars rest = refl

-- Where every record leads to the next, `prepenvp` gathers all the values.
envp_from-last :
    (environ : List Bytes) (e : List Env) (ev : Env)
    → header ≤ size_of ev
    → Reaches e (size_of ev)
    → envp_from environ (e ++ ev ∷ []) ≡ values environ e ++ prepend (env_value environ ev envp) []
unfolding envp_from values
envp_from-last environ [] ev long r =
    ap (prepend (env_value environ ev envp)) (if_same (env_next ev []) [])
envp_from-last environ (x ∷ e) ev long r =
    let more : env_next x (e ++ ev ∷ []) ≡ true =
      unfold env_next in ground (arith, total-append e ev) in
    rw (more, envp_from-last environ e ev long r.2)
      (prepend-append (env_value environ x envp) (values environ e) _)

all_cleared-unfirst :
    (environ : List Bytes) (name : Bytes) (e : List Env) (n : ℕ)
    → Reaches e n
    → env_first e ≡ false
    → all_cleared environ name e ≡ e
unfolding all_cleared env_first
all_cleared-unfirst environ name [] n r h = refl
all_cleared-unfirst environ name (x ∷ e) n r h = absurd (ground arith)

clear_definition-Walkable :
    (sh : Sh) (name : Bytes) (n : ℕ)
    → Walkable sh.env
    → Reaches sh.env n
    → clear_definition sh name ≡ record sh { env = all_cleared sh.environ name sh.env }
unfolding clear_definition
clear_definition-Walkable sh name n w r = elim (Bool-cases (env_first sh.env)) [
  | inl first ↦ rw (first, clear_from-Walkable sh.environ name sh.env w) refl
  | inr unfirst ↦ rw unfirst (
      ap (λ e. record sh { env = e })
        (sym (all_cleared-unfirst sh.environ name sh.env n r unfirst)))
]

module _ (k : Kernel) (grants : Grants k) where
  reserve_custom : (sh : Sh) (n : ℕ) → sh.customenvp ≡ pos n → reserve_orig_envp k sh ≡ ok sh
  unfolding reserve_orig_envp
  reserve_custom sh n custom =
      let e : not (is_neg sh.customenvp) ≡ true = ap (λ z. not (is_neg z)) custom in rw e refl

  start_custom : (sh : Sh) (n : ℕ) → sh.customenvp ≡ pos n → start_custom_envp sh ≡ ok sh
  unfolding start_custom_envp
  start_custom sh n custom =
      let e : not (is_neg sh.customenvp) ≡ true = ap (λ z. not (is_neg z)) custom in rw e refl

  realloc_higher_lem :
      (sh : Sh) (name : Bytes)
      → realloc_higher k sh name ≡ ok (allocated sh (aligned (length name + 1)))
  unfolding realloc_higher allocated
  realloc_higher_lem sh name = heap_alloc_lem k grants sh (aligned (length name + 1))

  realloc_pair_lem :
      (sh : Sh) (name val : Bytes)
      → realloc_pair k sh name val ≡ ok (allocated sh (aligned (length name + length val + 2)))
  unfolding realloc_pair allocated
  realloc_pair_lem sh name val = heap_alloc_lem k grants sh (aligned (length name + length val + 2))

  -- what is left to `cmd_setenv` once its arguments are found valid
  setenv_records :
      (sh : Sh) (n : ℕ) (name val : Bytes)
      → sh.customenvp ≡ pos n
      → Walkable sh.env
      → Reaches sh.env (pair_size name val)
      → pair_size name val ≤ ev_size
      → (sh' : Sh) × ((reserve_orig_envp k sh >>= λ sh. realloc_higher k sh name >>= λ sh.
            realloc_pair k sh name val >>= λ sh. start_custom_envp sh >>= λ sh.
            append_variable (clear_definition sh name) (pair name val) envp)
          ≡ ok sh')
        × (sh'.env ≡ all_cleared sh.environ name sh.env ++ variable (pair name val) envp ∷ [])
        × (sh'.environ ≡ sh.environ)
        × (sh'.customenvp ≡ pos n)
  unfolding allocated
  setenv_records sh n name val custom w r fits =
      let key = aligned (length name + 1) in
      let len = aligned (length name + length val + 2) in
      let higher = allocated sh key in
      let top = allocated higher len in
      rw
        (
          reserve_custom sh n custom,
          realloc_higher_lem sh name,
          realloc_pair_lem higher name val,
          start_custom top n custom,
          clear_definition-Walkable top name (pair_size name val) w r,
          append_variable_lem k grants (record top { env = all_cleared sh.environ name sh.env })
              name val envp fits,
        )
        (_, refl, refl, refl, custom)

  -- With an environment of its own, `setenv NAME VALUE` leaves to a program the other variables in
  -- their order and then the pair, where the kernel grants memory, the record fits its size field,
  -- and no record is longer than all that stands behind it, with the new one or without.
  pub prepenvp-cmd_setenv :
      (sh : Sh) (n : ℕ) (cmd name val : Bytes)
      → sh.customenvp ≡ pos n
      → has_equals name ≡ false
      → Walkable sh.env
      → Reaches sh.env (pair_size name val)
      → pair_size name val ≤ ev_size
      → (sh' sh'' : Sh) × (cmd_setenv k (called sh (cmd ∷ name ∷ val ∷ [])) ≡ ok sh')
        × (prepenvp k sh' ≡ ok (others name (values sh.environ sh.env) ++ pair name val ∷ [], sh''))
  unfolding cmd_setenv prepenvp
  prepenvp-cmd_setenv sh n cmd name val custom valid w r fits =
      let start = record (called sh (cmd ∷ name ∷ val ∷ [])) { argp = 3 } in
      let (sh', runs, env_is, environ_is, custom') =
        setenv_records start n name val custom w r fits in
      let ev = variable (pair name val) envp in
      let long : header ≤ size_of ev =
        rw (pair_size-variable name val envp) (header-pair_size name val) in
      let reach : Reaches (all_cleared sh.environ name sh.env) (size_of ev) =
        rw (pair_size-variable name val envp)
          (Reaches-all_cleared sh.environ name sh.env (pair_size name val) r) in
      let vars : (if env_first sh'.env then envp_from sh'.environ sh'.env else [])
          ≡ others name (values sh.environ sh.env) ++ pair name val ∷ [] =
        rw
          (
            env_is,
            environ_is,
            env_first-last ev (all_cleared sh.environ name sh.env) long reach,
            envp_from-last sh.environ (all_cleared sh.environ name sh.env) ev long reach,
            values-all_cleared sh.environ name sh.env,
          )
          (unfold variable env_value prepend in refl) in
      let len =
        (length (others name (values sh.environ sh.env) ++ pair name val ∷ []) + 1) * pointer in
      let own : is_neg sh'.customenvp ≡ false = ap is_neg custom' in
      (
        sh',
        allocated sh' len,
        rw valid runs,
        rw (own, vars, heap_alloc_lem k grants sh' len) (unfold allocated in refl),
      )
