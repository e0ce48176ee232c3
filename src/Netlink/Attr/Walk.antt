-- ===== src/Netlink/Attr/Walk.antt =====
-- The walk over attributes, and the rounds that it is given.
use minibase.Base.{
  ℕ, zero, suc, ◌+◌, ◌≤◌, ◌<◌, ◌≡◌, inl, inr, refl, ap, ◌∙◌, some, arith, ◌==◌, if◌then◌else◌,
  Option-cases,
}
use minibase.Base.Memory.{Memory}
use minibase.Nlusctl.Field.{len_of, key_of}
use minibase.Netlink.Attr.{
  extend_to_4bytes, ptr_in_buf, nl_attr_0_in, nl_attr_n_in, nl_attr_loop, nl_attr_k_in,
}

pub extend_to_4bytes_from : (n : ℕ) → (n ≤ extend_to_4bytes n) × (extend_to_4bytes n ≤ n + 3)
unfolding extend_to_4bytes
extend_to_4bytes_from n = (omega arith, omega arith)

pub nl_attr_0_in-start :
    (m : Memory) (buf len : ℕ) {at : ℕ}
    → nl_attr_0_in m buf len ≡ some at
    → (at ≡ buf) × (4 ≤ len) × (len_of m at ≤ len)
unfolding nl_attr_0_in
nl_attr_0_in-start m buf len {at} h = ground arith

-- where the next attribute is looked for
pub nl_attr_n_in-next :
    (m : Memory) (buf len at : ℕ) {next : ℕ}
    → nl_attr_n_in m buf len at ≡ some next
    → (next ≡ at + extend_to_4bytes (len_of m at)) × (4 ≤ len_of m at) × (next < buf + len)
unfolding nl_attr_n_in ptr_in_buf
nl_attr_n_in-next m buf len at {next} h = (ground arith, ground arith, ground arith)

loop_enough :
    (fuel more : ℕ) (m : Memory) (buf len at type : ℕ)
    → at < buf + len
    → buf + len ≤ at + fuel
    → nl_attr_loop (fuel + more) m buf len (some at) type
      ≡ nl_attr_loop fuel m buf len (some at) type
unfolding nl_attr_loop
loop_enough zero more m buf len at type i h = absurd (omega arith)
loop_enough (suc fuel) more m buf len at type i h =
    ap (λ f. nl_attr_loop f m buf len (some at) type)
      (let e : suc fuel + more ≡ suc (fuel + more) = omega arith in e)
    ∙ elim (Option-cases (nl_attr_n_in m buf len at)) [
      | inl end ↦ rw (end, nl_attr_loop) refl
      | inr (next, e) ↦
          let (n, wide, before) = nl_attr_n_in-next m buf len at e in
          rw (e, nl_attr_loop)
            (ap (λ r. if key_of m at == type then some at else r)
              (loop_enough fuel more m buf len next type before
                (omega (arith, extend_to_4bytes_from (len_of m at)))))
    ]

-- The rounds that `nl_attr_k_in` is given are enough: with any more of them it returns the same.
pub nl_attr_k_in_enough :
    (more : ℕ) (m : Memory) (buf len type : ℕ)
    → nl_attr_loop (len + more) m buf len (nl_attr_0_in m buf len) type
      ≡ nl_attr_k_in m buf len type
unfolding nl_attr_k_in nl_attr_loop
nl_attr_k_in_enough more m buf len type = elim (Option-cases (nl_attr_0_in m buf len)) [
  | inl end ↦ rw (end, nl_attr_loop) refl
  | inr (first, e) ↦
      let (start, room, fits) = nl_attr_0_in-start m buf len e in
      rw e (loop_enough len more m buf len first type (omega arith) (omega arith))
]
