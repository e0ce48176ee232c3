-- ===== src/Nlusctl/Attr/Bounds.antt =====
-- The walk over a message that may hold anything.
use mathlib.Core.Path.{subst}
use minibase.Base.{
  ℕ, zero, suc, ◌+◌, ◌≤◌, ◌≡◌, inl, inr, Option, none, some, true, false, arith, ◌==◌, Bool-cases,
  Option-cases, ==_iff,
}
use minibase.Base.Memory.{Memory}
use minibase.Nlusctl.Field.{align4, len_of, key_of}
use minibase.Nlusctl.Attr.{attr_in, uc_get_0, uc_get_n, uc_get_loop, uc_get}

-- The header and the claimed length of the attribute lie before `end`.
pub record Inside (m : Memory) (end at : ℕ) : Type 0 where
  pub header_in : at + 4 ≤ end
  pub whole_in : at + len_of m at ≤ end

pub attr_in-Inside :
    (m : Memory) (ptr end : ℕ) {at : ℕ} → attr_in m ptr end ≡ some at → (at ≡ ptr) × Inside m end at
unfolding attr_in
attr_in-Inside m ptr end {at} h = ground arith

-- where the next attribute is looked for
abbrev step_of : Memory → ℕ → ℕ
step_of m at = at + align4 (len_of m at)

uc_get_n-Inside :
    (m : Memory) (msg at : ℕ) {next : ℕ}
    → uc_get_n m msg at ≡ some next
    → (at + 4 ≤ next) × Inside m (msg + len_of m msg) next
unfolding uc_get_n
uc_get_n-Inside m msg at {next} h = elim (Bool-cases (len_of m at == 0)) [
  | inl z ↦ cc (rw z at h)
  | inr nz ↦
      let (e, i) =
        attr_in-Inside m (at + align4 (len_of m at)) (msg + len_of m msg) {at = next}
          (rw nz at h) in
      (ground arith, i)
]

loop-found :
    (fuel : ℕ) (m : Memory) (msg at key : ℕ) {found : ℕ}
    → Inside m (msg + len_of m msg) at
    → uc_get_loop fuel m msg (some at) key ≡ some found
    → (at ≤ found) × (key_of m found ≡ key) × Inside m (msg + len_of m msg) found
unfolding uc_get_loop
loop-found zero m msg at key i h = absurd (ground arith)
loop-found (suc fuel) m msg at key {found} i h = elim (Bool-cases (key_of m at == key)) [
  | inl hit ↦
      let same : at ≡ found = cc (rw hit at h) in
      subst (λ x. (at ≤ x) × (key_of m x ≡ key) × Inside m (msg + len_of m msg) x) same
        (omega arith, (==_iff (key_of m at) key).0 hit, i)
  | inr miss ↦ elim (Option-cases (uc_get_n m msg at)) [
    | inl end ↦ cc (rw (miss, end, uc_get_loop) at h)
    | inr (next, e) ↦
        let (further, i') = uc_get_n-Inside m msg at e in
        let (later, keyed, inside) = loop-found fuel m msg next key i' (rw (miss, e) at h) in
        (omega arith, keyed, inside)
  ]
]

-- Whatever the bytes of a message are, an attribute that `uc_get` returns has the key that was asked
-- for and lies inside the message with its whole claimed length, behind the message's header.
pub uc_get-Inside :
    (m : Memory) (msg key : ℕ) {at : ℕ}
    → uc_get m msg key ≡ some at
    → (msg + 4 ≤ at) × (key_of m at ≡ key) × Inside m (msg + len_of m msg) at
unfolding uc_get
uc_get-Inside m msg key {at} h = elim (Option-cases (uc_get_0 m msg)) [
  | inl end ↦ cc (rw (end, uc_get_loop) at h)
  | inr (first, e) ↦
      let (start, i) =
        attr_in-Inside m (msg + 4) (msg + len_of m msg) {at = first} (unfold uc_get_0 in e) in
      let (later, keyed, inside) = loop-found (len_of m msg) m msg first key i (rw e at h) in
      (omega arith, keyed, inside)
]

-- A run of `for(at = …; at; at = uc_get_n(msg, at)) if(at->key == key) return at;` to its end, from
-- the pointer that it starts with to what is returned, with no bound on the rounds.
pub data Runs (m : Memory) (msg key : ℕ) : Option ℕ → Option ℕ → Type 0 where
  ends : Runs m msg key none none
  hits : {at : ℕ} → (key_of m at == key) ≡ true → Runs m msg key (some at) (some at)
  moves :
      {at : ℕ} {r : Option ℕ}
      → (key_of m at == key) ≡ false
      → Runs m msg key (uc_get_n m msg at) r
      → Runs m msg key (some at) r

loop-Runs :
    (fuel : ℕ) (m : Memory) (msg at key : ℕ)
    → Inside m (msg + len_of m msg) at
    → msg + len_of m msg ≤ at + fuel
    → Runs m msg key (some at) (uc_get_loop fuel m msg (some at) key)
unfolding uc_get_loop
loop-Runs zero m msg at key i h = absurd (omega (arith, i.header_in))
loop-Runs (suc fuel) m msg at key i h = elim (Bool-cases (key_of m at == key)) [
  | inl hit ↦ rw hit (hits hit)
  | inr miss ↦ elim (Option-cases (uc_get_n m msg at)) [
    | inl end ↦ rw (miss, end, uc_get_loop) (moves miss (rw end ends))
    | inr (next, e) ↦
        let (further, i') = uc_get_n-Inside m msg at e in
        rw (miss, e) (moves miss (rw e (loop-Runs fuel m msg next key i' (omega arith))))
  ]
]

-- Whatever the bytes of a message are, the loop of `uc_get` comes to an end, and returns what `uc_get`
-- does with the rounds that it is given here.
pub uc_get-Runs : (m : Memory) (msg key : ℕ) → Runs m msg key (uc_get_0 m msg) (uc_get m msg key)
unfolding uc_get
uc_get-Runs m msg key = elim (Option-cases (uc_get_0 m msg)) [
  | inl end ↦ rw (end, uc_get_loop) ends
  | inr (first, e) ↦
      let (start, i) =
        attr_in-Inside m (msg + 4) (msg + len_of m msg) {at = first} (unfold uc_get_0 in e) in
      rw e (loop-Runs (len_of m msg) m msg first key i (omega arith))
]
