-- ===== src/Msh/Command/Lookup.antt =====
-- What the walk over the records finds of a variable that `cmd_set` has put behind them.
use minibase.Base.{
  ℕ, suc, ◌+◌, ◌≤◌, ◌<◌, ◌≡◌, refl, ◌∙◌, true, false, Option, none, some, List, [], ◌∷◌, ◌++◌,
  arith, Bytes, length, if_same,
}
use minibase.Strings.Compare.{NulFree}
use minibase.Msh.State.{Env}
use minibase.Msh.Env.{
  header, size_of, total, env_first, env_next, Kind, svar, env_value, matching, value_from,
}
use minibase.Msh.Env.Names.{holds-named, named-pair, drop-pair}
use minibase.Msh.Command.Records.{is_named, pair}

-- Every record has its header, and what stands behind it, with `n` more bytes, is as long.
abbrev pub Reaches : List Env → ℕ → Type 0
Reaches [] n = Unit {0}
Reaches (ev ∷ rest) n = (header ≤ size_of ev) × (size_of ev ≤ total rest + n) × Reaches rest n

-- No record holds the name.
abbrev pub Unnamed : List Bytes → Kind → Bytes → List Env → Type 0
Unnamed environ kind name [] = Unit {0}
Unnamed environ kind name (ev ∷ rest) =
    (is_named (env_value environ ev kind) name ≡ false) × Unnamed environ kind name rest

pub total-append : (e : List Env) (ev : Env) → total (e ++ ev ∷ []) ≡ total e + size_of ev
total-append [] ev = omega arith
total-append (x ∷ e) ev = omega (arith, total-append e ev)

matching-unnamed :
    (o : Option Bytes) (name : Bytes) (later : Option Bytes)
    → NulFree name
    → is_named o name ≡ false
    → matching o name later ≡ later
unfolding matching is_named
matching-unnamed none name later h e = refl
matching-unnamed (some var) name later h e = rw (holds-named var name h, e) refl

matching-pair :
    (name val : Bytes) (later : Option Bytes)
    → NulFree name
    → matching (some (pair name val)) name later ≡ some val
unfolding matching
matching-pair name val later h =
    let n : length name + 1 ≡ suc (length name) = omega arith in
    rw (holds-named (pair name val) name h, named-pair name val, n, drop-pair name val) refl

pub env_first-last :
    (ev : Env) (e : List Env)
    → header ≤ size_of ev
    → Reaches e (size_of ev)
    → env_first (e ++ ev ∷ []) ≡ true
unfolding env_first
env_first-last ev [] long r = ground arith
env_first-last ev (x ∷ e) long r = ground (arith, total-append e ev)

module _ (environ : List Bytes) (name val : Bytes) (h : NulFree name) (ev : Env) where
  pub value_from-last :
      (e : List Env)
      → env_value environ ev svar ≡ some (pair name val)
      → header ≤ size_of ev
      → Unnamed environ svar name e
      → Reaches e (size_of ev)
      → value_from environ name (e ++ ev ∷ []) ≡ some val
  unfolding value_from
  value_from-last [] is long u r = rw is (matching-pair name val _ h)
  value_from-last (x ∷ e) is long u r =
      let more : env_next x (e ++ ev ∷ []) ≡ true =
        unfold env_next in ground (arith, total-append e ev) in
      rw more (
        matching-unnamed (env_value environ x svar) name _ h u.0
        ∙ value_from-last e is long u.1 r.2)

  -- The record behind a longer one is not reached.
  pub value_from-hidden :
      (front : List Env) (last : Env)
      → size_of ev < size_of last
      → Unnamed environ svar name (front ++ last ∷ [])
      → value_from environ name (front ++ last ∷ ev ∷ []) ≡ none
  unfolding value_from
  value_from-hidden [] last short u =
      let stop : env_next last (ev ∷ []) ≡ false = unfold env_next in ground arith in
      rw stop (matching-unnamed (env_value environ last svar) name _ h u.0)
  value_from-hidden (x ∷ front) last short u =
      matching-unnamed (env_value environ x svar) name _ h u.0
      ∙ rw (value_from-hidden front last short u.1)
          (if_same (env_next x (front ++ last ∷ ev ∷ [])) none)
