-- ===== src/Netlink/Attr/Find.antt =====
-- In a message that was put together here, `nl_get` finds the first attribute with the type.
use minibase.Base.{
  ℕ, zero, suc, ◌+◌, ◌^◌, ◌≤◌, ◌<◌, ◌≡◌, inl, inr, refl, ap, ◌∙◌, true, false, Option, none, some,
  List, [], ◌∷◌, arith, le→ltb, ◌==◌, ==_iff, Bool-cases, length,
}
use minibase.Base.Memory.{Memory}
use minibase.Nlusctl.Field.{align4, len_of}
use minibase.Nlusctl.Layout.{Attr, attr_size, total_size, HoldsOne, Holds, Holds-size, find_attr}
use minibase.Nlusctl.Attr.Find.{Found, payload_of, load_at}
use minibase.Netlink.Attr.{
  extend_to_4bytes, ptr_in_buf, size_minus, nl_attr_0_in, nl_attr_n_in, nl_attr_loop, nl_attr_k_in,
  of_len, msg_len, msg_paylen, nl_get, nl_get_of_len,
}

-- the pointer to the first of the attributes from `ptr` on
abbrev here : ℕ → List Attr → Option ℕ
here ptr [] = none
here ptr (a ∷ atts) = some ptr

nl_attr_0_in-here :
    (m : Memory) (buf len : ℕ) (atts : List Attr)
    → Holds m buf (buf + len) atts
    → nl_attr_0_in m buf len ≡ here buf atts
unfolding nl_attr_0_in
nl_attr_0_in-here m buf len [] h = ground arith
nl_attr_0_in-here m buf len (a ∷ atts) h =
    let size = Holds-size m (buf + attr_size a) (buf + len) atts h.1 in
    let one = le→ltb len 4 (omega (arith, size)) in
    let two = le→ltb len (len_of m buf) (omega (arith, size, h.0.len_is)) in rw (one, two) refl

step_is : (n : ℕ) → extend_to_4bytes (4 + n) ≡ 4 + align4 n
unfolding extend_to_4bytes
step_is n = omega arith

inside : (buf len ptr : ℕ) → buf ≤ ptr → ptr < buf + len → ptr_in_buf buf len ptr ≡ true
unfolding ptr_in_buf
inside buf len ptr lo hi = ground arith

outside : (buf len : ℕ) → ptr_in_buf buf len (buf + len) ≡ false
unfolding ptr_in_buf
outside buf len = ground arith

next_is :
    (m : Memory) (ptr : ℕ) (a : Attr)
    → HoldsOne m ptr a
    → ptr + extend_to_4bytes (len_of m ptr) ≡ ptr + attr_size a
next_is m ptr a h =
    ap (λ n. ptr + extend_to_4bytes n) h.len_is ∙ ap (◌+◌ ptr) (step_is (length a.payload))

nl_attr_n_in-here :
    (m : Memory) (buf len ptr : ℕ) (a : Attr) (atts : List Attr)
    → buf ≤ ptr
    → Holds m ptr (buf + len) (a ∷ atts)
    → nl_attr_n_in m buf len ptr ≡ here (ptr + attr_size a) atts
unfolding nl_attr_n_in
nl_attr_n_in-here m buf len ptr a [] lo h =
    let size = Holds-size m ptr (buf + len) (a ∷ []) h in
    let wide = le→ltb (len_of m ptr) 4 (omega (arith, h.0.len_is)) in
    rw
      (inside buf len ptr lo (omega (arith, size)), wide, next_is m ptr a h.0, h.1, outside buf len)
      refl
nl_attr_n_in-here m buf len ptr a (b ∷ atts) lo h =
    let size = Holds-size m (ptr + attr_size a) (buf + len) (b ∷ atts) h.1 in
    let wide = le→ltb (len_of m ptr) 4 (omega (arith, h.0.len_is)) in
    rw
      (
        inside buf len ptr lo (omega (arith, size)),
        wide,
        next_is m ptr a h.0,
        inside buf len (ptr + attr_size a) (omega arith) (omega (arith, size)),
      )
      refl

loop-Found :
    (fuel : ℕ) (m : Memory) (buf len ptr type : ℕ) (atts : List Attr)
    → buf ≤ ptr
    → Holds m ptr (buf + len) atts
    → total_size atts ≤ fuel
    → Found m (nl_attr_loop fuel m buf len (here ptr atts) type) (find_attr type atts)
unfolding nl_attr_loop
loop-Found fuel m buf len ptr type [] lo h enough = tt
loop-Found zero m buf len ptr type (a ∷ atts) lo h enough = absurd (omega arith)
loop-Found (suc fuel) m buf len ptr type (a ∷ atts) lo h enough =
    rw (h.0.key_is, nl_attr_n_in-here m buf len ptr a atts lo h)
      (elim (Bool-cases (a.key == type)) [
        | inl hit ↦ rw hit h.0
        | inr miss ↦ rw miss (
            loop-Found fuel m buf len (ptr + attr_size a) type atts (omega arith) h.1 (omega arith))
      ])

-- Among attributes that stand one behind the other in a buffer, `nl_attr_k_in` finds the first of the type.
pub nl_attr_k_in-Found :
    (m : Memory) (buf len type : ℕ) (atts : List Attr)
    → Holds m buf (buf + len) atts
    → Found m (nl_attr_k_in m buf len type) (find_attr type atts)
unfolding nl_attr_k_in
nl_attr_k_in-Found m buf len type atts h = rw (nl_attr_0_in-here m buf len atts h) (
    loop-Found len m buf len buf type atts (omega arith) h
      (omega (arith, Holds-size m buf (buf + len) atts h)))

of_len-Found :
    (m : Memory) (len : ℕ) (o : Option ℕ) (r : Option Attr)
    → Found m o r
    → load_at m len (of_len m len o) ≡ payload_of len r
of_len-Found m len none none f = refl
of_len-Found m len none (some a) f = absurd f
of_len-Found m len (some at) none f = absurd f
of_len-Found m len (some at) (some a) f = elim (Bool-cases (length a.payload == len)) [
  | inl same ↦
      let e = (==_iff (length a.payload) len).0 same in
      let fits : (len_of m at == 4 + len) ≡ true = ground (arith, f.len_is, e) in
      rw (same, fits) (ap some (rw (← e) f.payload_is))
  | inr other ↦
      let off : (len_of m at == 4 + len) ≡ false = ground (arith, f.len_is, other) in
      rw (other, off) refl
]

paylen_is :
    (m : Memory) (msg len : ℕ)
    → msg_len m msg ≡ 20 + len
    → 20 + len < 2 ^ 32
    → msg_paylen m msg ≡ len
unfolding msg_paylen size_minus
paylen_is m msg len h small = omega (arith, h)

pub nl_get_of_len-Found :
    (m : Memory) (msg len type size : ℕ) (atts : List Attr)
    → msg_len m msg ≡ 20 + len
    → 20 + len < 2 ^ 32
    → Holds m (msg + 20) (msg + 20 + len) atts
    → load_at m size (nl_get_of_len m msg type size) ≡ payload_of size (find_attr type atts)
unfolding nl_get_of_len nl_get
nl_get_of_len-Found m msg len type size atts e small h = rw (paylen_is m msg len e small) (
    of_len-Found m size (nl_attr_k_in m (msg + 20) len type) (find_attr type atts)
      (nl_attr_k_in-Found m (msg + 20) len type atts h))
