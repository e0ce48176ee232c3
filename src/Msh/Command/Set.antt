-- ===== src/Msh/Command/Set.antt =====
-- `set NAME VALUE`: what `$NAME` is afterwards.
use minibase.Base.{
  ℕ, ◌+◌, ◌-◌, ◌≤◌, ◌<◌, ◌≡◌, refl, ap, Bool, true, false, ◌&&◌, none, some, List, [], ◌∷◌, ◌++◌,
  arith, leb, ltb, Bytes, length, length-append, Bool-cases, inl, inr, if◌then◌else◌, if_same,
}
use mathlib.Core.List.{append_assoc}
use minibase.Strings.Compare.{NulFree}
use minibase.Msh.State.{Env, Sh, Result, ok, ◌>>=◌, Kernel}
use minibase.Msh.Heap.{heap_alloc, pagealign}
use minibase.Msh.Env.{header, ev_size, size_of, env_first, env_next, Kind, svar, valueof}
use minibase.Msh.Command.Records.{
  defined_from, variable, pair, has_equals, realloc_pair, append_variable, aligned,
}
use minibase.Msh.Command.Envp.{cmd_set}
use minibase.Msh.Command.Lookup.{
  Reaches, Unnamed, value_from-last, value_from-hidden, env_first-last,
}
use minibase.Msh.Parser.Grown.{Grants}

-- the context that `command` gives to the handler
abbrev pub called : Sh → List Bytes → Sh
called sh words = record sh { argp = 1; argv = words }

-- the bytes of the record of a pair: the header, the text with its NUL, and the padding
unfoldable pub pair_size : Bytes → Bytes → ℕ
unfolding aligned
pair_size name val = aligned (length name + length val + 6)

pub pair_size-variable :
    (name val : Bytes) (kind : Kind) → size_of (variable (pair name val) kind) ≡ pair_size name val
unfolding variable pair_size
pair_size-variable name val kind = ap aligned (
    let e : header + length (pair name val) + 1 ≡ length name + length val + 6 =
      omega (arith, length-append name (b'=' ∷ val)) in
    e)

pub header-pair_size : (name val : Bytes) → header ≤ pair_size name val
unfolding pair_size aligned
header-pair_size name val = omega arith

pub and_false : (b : Bool) → (b && false) ≡ false
and_false true = refl
and_false false = refl

unfoldable pub allocated : Sh → ℕ → Sh
allocated sh len = record sh {
  hptr = sh.hptr + len;
  hend =
      if leb (sh.hptr + len) sh.hend
      then sh.hend
      else sh.hend + pagealign (sh.hptr + len - sh.hend);
}

abbrev pub Puts : Sh → Bytes → Bytes → Kind → Result Sh → Type 0
Puts sh name val kind r =
    (sh' : Sh) × (r ≡ ok sh')
    × (sh'.env ≡ sh.env ++ variable (pair name val) kind ∷ [])
    × (sh'.environ ≡ sh.environ)
    × (sh'.asep ≡ sh.asep + pair_size name val)

module _ (k : Kernel) (grants : Grants k) where
  pub heap_alloc_lem :
      (sh : Sh) (len : ℕ)
      → heap_alloc k sh len
        ≡ ok (record sh {
          hptr = sh.hptr + len;
          hend =
              if leb (sh.hptr + len) sh.hend
              then sh.hend
              else sh.hend + pagealign (sh.hptr + len - sh.hend);
        })
  unfolding heap_alloc
  heap_alloc_lem sh len = elim (Bool-cases (leb (sh.hptr + len) sh.hend)) [
    | inl fits ↦ rw fits refl
    | inr full ↦ rw (full, grants (sh.hend + pagealign (sh.hptr + len - sh.hend))) refl
  ]

  pub append_variable_lem :
      (sh : Sh) (name val : Bytes) (kind : Kind)
      → pair_size name val ≤ ev_size
      → append_variable sh (pair name val) kind
        ≡ ok (record sh {
          asep = sh.asep + size_of (variable (pair name val) kind);
          env = sh.env ++ variable (pair name val) kind ∷ [];
        })
  unfolding append_variable
  append_variable_lem sh name val kind fits =
      let low : ltb ev_size (size_of (variable (pair name val) kind)) ≡ false =
        rw (pair_size-variable name val kind) (ground arith) in
      rw low refl

  defined_from-Unnamed :
      (environ : List Bytes) (name : Bytes) (e : List Env)
      → Unnamed environ svar name e
      → defined_from environ name e ≡ false
  unfolding defined_from
  defined_from-Unnamed environ name [] u = refl
  defined_from-Unnamed environ name (x ∷ e) u =
      rw (u.0, defined_from-Unnamed environ name e u.1) (if_same (env_next x e) false)

  put_pair :
      (sh : Sh) (name val : Bytes)
      → pair_size name val ≤ ev_size
      → Puts sh name val svar
          (realloc_pair k sh name val >>= λ sh. append_variable sh (pair name val) svar)
  unfolding realloc_pair allocated
  put_pair sh name val fits =
      let len = aligned (length name + length val + 2) in
      rw (heap_alloc_lem sh len, append_variable_lem (allocated sh len) name val svar fits)
        (_, refl, refl, refl, ap (◌+◌ sh.asep) (pair_size-variable name val svar))

  -- With a name that no record holds, `cmd_set` puts the pair behind the records.
  cmd_set_lem :
      (sh : Sh) (cmd name val : Bytes)
      → has_equals name ≡ false
      → Unnamed sh.environ svar name sh.env
      → pair_size name val ≤ ev_size
      → Puts sh name val svar (cmd_set k (called sh (cmd ∷ name ∷ val ∷ [])))
  unfolding cmd_set
  cmd_set_lem sh cmd name val valid u fits =
      let new : env_first sh.env && false ≡ false = and_false (env_first sh.env) in
      rw (valid, defined_from-Unnamed sh.environ name sh.env u, new)
        (put_pair (record (called sh (cmd ∷ name ∷ val ∷ [])) { argp = 3 }) name val fits)

  -- A variable of a new name, set where the kernel grants memory and the record fits its size field,
  -- has its value afterwards, if no record before it is longer than all that stands behind it.
  pub valueof-cmd_set :
      (sh : Sh) (cmd name val : Bytes)
      → NulFree name
      → has_equals name ≡ false
      → Unnamed sh.environ svar name sh.env
      → Reaches sh.env (pair_size name val)
      → pair_size name val ≤ ev_size
      → (sh' : Sh) × (cmd_set k (called sh (cmd ∷ name ∷ val ∷ [])) ≡ ok sh')
        × (valueof sh'.environ sh'.env name ≡ some val)
  unfolding valueof
  valueof-cmd_set sh cmd name val h valid u r fits =
      let (sh', runs, env_is, environ_is, _) = cmd_set_lem sh cmd name val valid u fits in
      let ev = variable (pair name val) svar in
      let long : header ≤ size_of ev =
        rw (pair_size-variable name val svar) (header-pair_size name val) in
      let reach : Reaches sh.env (size_of ev) = rw (pair_size-variable name val svar) r in
      (
        sh',
        runs,
        rw (env_is, environ_is, env_first-last ev sh.env long reach)
            (value_from-last sh.environ name val h ev sh.env (unfold variable in refl) long u
              reach),
      )

  -- A variable of a new name is put behind the records, and `valueof` does not find it there if its
  -- record is shorter than the last one before it: `env_next` tests the size of the record that it
  -- leaves. The kernel grants memory, and the record fits its size field.
  pub valueof-cmd_set_hidden :
      (sh : Sh) (cmd name val : Bytes) (front : List Env) (last : Env)
      → NulFree name
      → has_equals name ≡ false
      → sh.env ≡ front ++ last ∷ []
      → Unnamed sh.environ svar name (front ++ last ∷ [])
      → pair_size name val < size_of last
      → pair_size name val ≤ ev_size
      → (sh' : Sh) × (cmd_set k (called sh (cmd ∷ name ∷ val ∷ [])) ≡ ok sh')
        × (sh'.env ≡ sh.env ++ variable (pair name val) svar ∷ [])
        × (valueof sh'.environ sh'.env name ≡ none)
  unfolding valueof
  valueof-cmd_set_hidden sh cmd name val front last h valid e u short fits =
      let u' : Unnamed sh.environ svar name sh.env = rw e u in
      let (sh', runs, env_is, environ_is, _) = cmd_set_lem sh cmd name val valid u' fits in
      let ev = variable (pair name val) svar in
      let shorter : size_of ev < size_of last = rw (pair_size-variable name val svar) short in
      (
        sh',
        runs,
        env_is,
        rw (env_is, environ_is, e, append_assoc front (last ∷ []) (ev ∷ []))
            (rw (value_from-hidden sh.environ name val h ev front last shorter u) (if_same _ none)),
      )
