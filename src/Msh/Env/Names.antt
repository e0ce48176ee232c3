-- ===== src/Msh/Env/Names.antt =====
-- The two tests of a name in front of `=`, and what they answer on a record of a pair.
use minibase.Base.{
  ℕ, suc, ◌≡◌, refl, true, ◌&&◌, [], ◌∷◌, ◌++◌, arith, ◌==◌, Bytes, length, drop, deref,
}
use minibase.Strings.Compare.{NulFree, is_zero}
use minibase.Msh.Env.{strncmp, strncmp_loop, named, holds}

strncmp_loop-named :
    (v : Bytes) (n : ℕ) (ns : Bytes)
    → NulFree (n ∷ ns)
    → (is_zero (strncmp_loop v (n ∷ ns) (length ns)) && deref (drop (suc (length ns)) v) == b'=')
      ≡ named v (n ∷ ns)
unfolding strncmp_loop named
strncmp_loop-named [] n [] h = ground arith
strncmp_loop-named (x ∷ v) n [] h = ground arith
strncmp_loop-named [] n (m ∷ ns) h = ground arith
strncmp_loop-named (x ∷ v) n (m ∷ ns) h = ground (arith, strncmp_loop-named v m ns h.1)

-- `valueof`, which calls strncmp, and `named` test the same.
pub holds-named : (var name : Bytes) → NulFree name → holds var name ≡ named var name
unfolding holds strncmp named
holds-named var [] h = refl
holds-named var (n ∷ ns) h = strncmp_loop-named var n ns h

pub named-pair : (name val : Bytes) → named (name ++ b'=' ∷ val) name ≡ true
unfolding named
named-pair [] val = refl
named-pair (c ∷ cs) val = ground (arith, named-pair cs val)

pub drop-pair : (name val : Bytes) → drop (suc (length name)) (name ++ b'=' ∷ val) ≡ val
drop-pair [] val = refl
drop-pair (c ∷ cs) val = drop-pair cs val
