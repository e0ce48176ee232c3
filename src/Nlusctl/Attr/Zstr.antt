-- ===== src/Nlusctl/Attr/Zstr.antt =====
-- Strings in attributes: what `uc_get_str` accepts, and the byte that it looks at where an attribute
-- has no payload.
use minibase.Base.{
  ℕ, zero, suc, ◌+◌, ◌-◌, ◌≤◌, ◌<◌, ◌≡◌, ◌≢◌, ap, ◌∙◌, true, false, not, none, some, arith, ◌==◌,
  ==_iff, if◌then◌else◌, Bool-cases, inl, inr,
}
use minibase.Base.Int.{sub_ℕ}
use minibase.Base.Memory.{Memory}
use minibase.Nlusctl.Field.{len_of, key_of}
use minibase.Nlusctl.Attr.{uc_get, zstr_from, rounds_of, is_zstr, uc_is_str, uc_get_str, uc_paylen}
use minibase.Nlusctl.Attr.Bounds.{uc_get-Inside}

-- the `n + 1` bytes from `p` on end in their only NUL
pub record IsZstr (m : Memory) (p n : ℕ) : Type 0 where
  pub ends : m (p + n) ≡ 0
  pub inner : (i : ℕ) → i < n → m (p + i) ≢ 0

zstr_from-IsZstr : (n : ℕ) (m : Memory) (p : ℕ) → zstr_from n m p ≡ true → IsZstr m p n
unfolding zstr_from
zstr_from-IsZstr zero m p h = record {
  ends = ap m (let e : p + 0 ≡ p = omega arith in e) ∙ (==_iff (m p) 0).0 h;
  inner = λ i lt. absurd (omega arith);
}
zstr_from-IsZstr (suc n) m p h = elim (Bool-cases (m p == 0)) [
  | inl z ↦ cc (rw z at h)
  | inr nz ↦
      let rest = zstr_from-IsZstr n m (p + 1) (rw nz at h) in
      record {
        ends = ap m (let e : p + suc n ≡ p + 1 + n = omega arith in e) ∙ rest.ends;
        inner = λ i lt e. inner_step n m p rest i lt nz e;
      }
]
  where
    inner_step :
        (n : ℕ) (m : Memory) (p : ℕ)
        → IsZstr m (p + 1) n
        → (i : ℕ) → i < suc n
        → (m p == 0) ≡ false
        → m (p + i) ≢ 0
    inner_step n m p rest zero lt nz e =
        let here : p ≡ p + 0 = omega arith in cc ((==_iff (m p) 0).1 (ap m here ∙ e), nz)
    inner_step n m p rest (suc i) lt nz e =
        let there : p + 1 + i ≡ p + suc i = omega arith in
        rest.inner i (omega arith) (ap m there ∙ e)

str_of :
    (m : Memory) (at key : ℕ) {p : ℕ}
    → uc_is_str m (some at) key ≡ some p
    → (p ≡ at + 4) × (is_zstr m (at + 4) (uc_paylen m at) ≡ true)
unfolding uc_is_str
str_of m at key h = ground arith

rounds :
    (m : Memory) (at : ℕ) → 4 < len_of m at → len_of m at - 5 ≡ rounds_of (sub_ℕ (len_of m at) 4)
rounds m at h = ground arith

-- Where the attribute found has a payload, `uc_get_str` accepts it only if its last byte is a NUL and
-- no other is, and then returns the payload, all of it inside the message.
pub uc_get_str-IsZstr :
    (m : Memory) (msg key : ℕ) {at p : ℕ}
    → uc_get m msg key ≡ some at
    → 4 < len_of m at
    → uc_get_str m msg key ≡ some p
    → (p ≡ at + 4)
      × IsZstr m (at + 4) (len_of m at - 5)
      × (at + 4 + (len_of m at - 5) < msg + len_of m msg)
unfolding uc_get_str is_zstr uc_paylen
uc_get_str-IsZstr m msg key {at} {p} found long h =
    let (here, text) = str_of m at key {p = p} (rw found at h) in
    let inside = (uc_get-Inside m msg key found).2 in
    (
      here,
      zstr_from-IsZstr (len_of m at - 5) m (at + 4)
          (ap (λ n. zstr_from n m (at + 4)) (rounds m at long) ∙ text),
      omega (arith, inside.whole_in),
    )

no_rounds :
    (m : Memory) (at : ℕ)
    → len_of m at ≤ 4
    → (if not (is_zstr m (at + 4) (uc_paylen m at)) then none else some (at + 4))
      ≡ (if m (at + 4) == 0 then some (at + 4) else none)
unfolding is_zstr uc_paylen
no_rounds m at short =
    let none_left : 0 ≡ rounds_of (sub_ℕ (len_of m at) 4) = ground arith in
    rw (← none_left) (elim (Bool-cases (m (at + 4) == 0)) [ inl z ↦ rw z | inr nz ↦ rw nz ])

-- An attribute without a payload passes for a string if the byte behind its header is 0, and that byte
-- does not belong to it: it is the first of the next attribute, or lies behind the message.
pub uc_get_str_empty :
    (m : Memory) (msg key : ℕ) {at : ℕ}
    → uc_get m msg key ≡ some at
    → len_of m at ≤ 4
    → uc_get_str m msg key ≡ (if m (at + 4) == 0 then some (at + 4) else none)
unfolding uc_get_str uc_is_str is_zstr uc_paylen
uc_get_str_empty m msg key {at} found short =
    let keyed : (key_of m at == key) ≡ true =
      (==_iff (key_of m at) key).1 (uc_get-Inside m msg key found).1 in
    rw (found, keyed) (no_rounds m at short)
