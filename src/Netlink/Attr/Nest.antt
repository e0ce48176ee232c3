-- ===== src/Netlink/Attr/Nest.antt =====
-- A payload that `nl_check_nest` has passed can be searched.
use minibase.Base.{
  ℕ, zero, suc, ◌+◌, ◌-◌, ◌%◌, ◌≤◌, ◌<◌, ◌≡◌, inl, inr, sym, true, some, arith, ◌==◌, leb,
  Bool-cases, Option-cases, ==_iff,
}
use mathlib.Core.Path.{subst}
use minibase.Base.Memory.{Memory}
use minibase.Nlusctl.Field.{len_of, key_of}
use minibase.Nlusctl.Attr.Bounds.{Inside}
use minibase.Netlink.Attr.{
  extend_to_4bytes, nl_attr_0_in, nl_attr_n_in, nl_attr_loop, nl_attr_k_in, check_nest_from,
  nl_check_nest, nl_nest, paylen, size_minus, of_len, nl_sub, nl_sub_of_len,
}
use minibase.Netlink.Attr.Walk.{extend_to_4bytes_from, nl_attr_0_in-start, nl_attr_n_in-next}

abbrev skip_of : Memory → ℕ → ℕ
skip_of m p = extend_to_4bytes (len_of m p) % 65536

checked_le : (fuel : ℕ) (m : Memory) (p end : ℕ) → check_nest_from fuel m p end ≡ true → p ≤ end
unfolding check_nest_from
checked_le zero m p end h = ground arith
checked_le (suc fuel) m p end h = ground arith

-- One round of a check that passes.
checked_round :
    (fuel : ℕ) (m : Memory) (p end : ℕ)
    → check_nest_from (suc fuel) m p end ≡ true
    → p < end
    → (0 < skip_of m p) × (check_nest_from fuel m (p + skip_of m p) end ≡ true)
unfolding check_nest_from
checked_round fuel m p end h i = (ground arith, ground arith)

checked_end : (m : Memory) (p end : ℕ) → check_nest_from 0 m p end ≡ true → p ≡ end
unfolding check_nest_from
checked_end m p end h = ground arith

-- The check from an attribute on, which passes.
abbrev Checked : Memory → ℕ → ℕ → Type 0
Checked m p end = (fuel : ℕ) × (check_nest_from fuel m p end ≡ true)

nest-Checked :
    (m : Memory) (buf len : ℕ) → nl_check_nest m buf len ≡ true → Checked m buf (buf + len)
unfolding nl_check_nest
nest-Checked m buf len h = elim (Bool-cases (leb len 4)) [
  | inl short ↦ cc (rw short at h)
  | inr long ↦ (len, rw long at h)
]

-- a skip that is not 0 has not wrapped
skip_whole :
    (n : ℕ)
    → n < 65536
    → 0 < extend_to_4bytes n % 65536
    → (extend_to_4bytes n % 65536 ≡ extend_to_4bytes n) × (4 ≤ extend_to_4bytes n)
unfolding extend_to_4bytes
skip_whole n small some_skip = (omega arith, omega arith)

-- The attribute is inside, and the check goes on behind it.
Checked-next :
    (m : Memory) (p end : ℕ)
    → ((a : ℕ) → m a < 256)
    → Checked m p end
    → p < end
    → Inside m end p × Checked m (p + extend_to_4bytes (len_of m p)) end
Checked-next m p end octets (zero, h) i = absurd (omega (arith, checked_end m p end h))
Checked-next m p end octets (suc fuel, h) i =
    let (some_skip, rest) = checked_round fuel m p end h i in
    let below = checked_le fuel m (p + skip_of m p) end rest in
    let (same, four) =
      skip_whole (len_of m p) (omega (arith, octets p, octets (p + 1))) some_skip in
    (
      record {
        header_in = omega (arith, below, same, four);
        whole_in = omega (arith, below, same, extend_to_4bytes_from (len_of m p));
      },
      (fuel, subst (λ k. check_nest_from fuel m (p + k) end ≡ true) same rest),
    )

loop-Checked :
    (fuel : ℕ) (m : Memory) (buf len at type : ℕ) {found : ℕ}
    → ((a : ℕ) → m a < 256)
    → Checked m at (buf + len)
    → at < buf + len
    → nl_attr_loop fuel m buf len (some at) type ≡ some found
    → (at ≤ found) × (key_of m found ≡ type) × Inside m (buf + len) found
unfolding nl_attr_loop
loop-Checked zero m buf len at type octets c i h = absurd (ground arith)
loop-Checked (suc fuel) m buf len at type {found} octets c i h =
    let (inside, c') = Checked-next m at (buf + len) octets c i in
    elim (Bool-cases (key_of m at == type)) [
      | inl hit ↦
          let same : at ≡ found = cc (rw hit at h) in
          subst (λ x. (at ≤ x) × (key_of m x ≡ type) × Inside m (buf + len) x) same
            (omega arith, (==_iff (key_of m at) type).0 hit, inside)
      | inr miss ↦ elim (Option-cases (nl_attr_n_in m buf len at)) [
        | inl end ↦ cc (rw (miss, end, nl_attr_loop) at h)
        | inr (next, e) ↦
            let (n, wide, before) = nl_attr_n_in-next m buf len at e in
            let (later, keyed, within) =
              loop-Checked fuel m buf len next type octets
                (subst (λ x. Checked m x (buf + len)) (sym n) c') before (rw (miss, e) at h) in
            (omega (arith, later, n), keyed, within)
      ]
    ]

-- In bytes that `nl_check_nest` has passed, whatever they are, an attribute that `nl_attr_k_in` finds has the
-- type, and its header and all that its length claims are inside of them.
pub nl_attr_k_in-nl_check_nest :
    (m : Memory) (buf len type : ℕ) {found : ℕ}
    → ((a : ℕ) → m a < 256)
    → nl_check_nest m buf len ≡ true
    → nl_attr_k_in m buf len type ≡ some found
    → (buf ≤ found) × (key_of m found ≡ type) × Inside m (buf + len) found
unfolding nl_check_nest nl_attr_k_in
nl_attr_k_in-nl_check_nest m buf len type {found} octets h found_at =
    elim (Option-cases (nl_attr_0_in m buf len)) [
      | inl end ↦ cc (rw (end, nl_attr_loop) at found_at)
      | inr (first, e) ↦
          let (start, room, fits) = nl_attr_0_in-start m buf len e in
          let checked = nest-Checked m buf len h in
          let (later, keyed, inside) =
            loop-Checked len m buf len first type octets
              (subst (λ x. Checked m x (buf + len)) (sym start) checked)
              (omega (arith, start, room)) (rw e at found_at) in
          (omega (arith, later, start), keyed, inside)
    ]

nl_nest-checked :
    (m : Memory) (at : ℕ) {nest : ℕ}
    → nl_nest m (some at) ≡ some nest
    → (at ≡ nest) × (nl_check_nest m (nest + 4) (paylen m nest) ≡ true)
unfolding nl_nest
nl_nest-checked m at {nest} h = elim (Bool-cases (nl_check_nest m (at + 4) (paylen m at))) [
  | inl checked ↦
      let same : at ≡ nest = cc (rw checked at h) in
      (same, subst (λ x. nl_check_nest m (x + 4) (paylen m x) ≡ true) same checked)
  | inr refused ↦ cc (rw refused at h)
]

paylen_lem :
    (m : Memory) (at : ℕ) → ((a : ℕ) → m a < 256) → 4 ≤ len_of m at → paylen m at ≡ len_of m at - 4
unfolding paylen size_minus
paylen_lem m at octets h = omega (arith, octets at, octets (at + 1))

of_len_lem :
    (m : Memory) (len at : ℕ) {data_at : ℕ}
    → of_len m len (some at) ≡ some data_at
    → (data_at ≡ at + 4) × (len_of m at ≡ 4 + len)
of_len_lem m len at {data_at} h = (ground arith, ground arith)

-- In a memory of bytes, `nl_sub_of_len`, called on an attribute that `nl_nest` returned, returns only `len`
-- bytes that lie within that attribute, if its length covers its own header.
pub nl_sub_of_len-nl_nest :
    (m : Memory) (at nest type len : ℕ) {data_at : ℕ}
    → ((a : ℕ) → m a < 256)
    → 4 ≤ len_of m at
    → nl_nest m (some at) ≡ some nest
    → nl_sub_of_len m nest type len ≡ some data_at
    → (nest + 8 ≤ data_at) × (data_at + len ≤ nest + len_of m nest)
unfolding nl_sub_of_len nl_sub
nl_sub_of_len-nl_nest m at nest type len {data_at} octets covers n h =
    let (same, checked) = nl_nest-checked m at n in
    elim (Option-cases (nl_sub m nest type)) [
      | inl end ↦ cc (rw end at h)
      | inr (found, e) ↦
          let (later, keyed, inside) =
            nl_attr_k_in-nl_check_nest m (nest + 4) (paylen m nest) type octets checked e in
          let (place, long) = of_len_lem m len found (rw e at h) in
          let room = paylen_lem m nest octets (subst (λ x. 4 ≤ len_of m x) same covers) in
          let nest_covers = subst (λ x. 4 ≤ len_of m x) same covers in
          (
            omega (arith, place, later),
            omega (arith, place, long, room, inside.whole_in, nest_covers),
          )
    ]
