-- ===== src/Netlink/Attr/Zstr.antt =====
-- lib/netlink/attr_str.c: strings in attributes.
use minibase.Base.{
  ℕ, zero, suc, ◌+◌, ◌-◌, ◌≤◌, ◌<◌, ◌≡◌, ◌≢◌, inl, inr, Bool, true, false, Option, none, some,
  arith, ltb, leb, ◌==◌, ==_iff, if◌then◌else◌, Bool-cases,
}
use mathlib.Core.Path.{subst}
use minibase.Base.Memory.{Memory}
use minibase.Netlink.Attr.{payload, paylen, nl_get, nl_sub}

-- for(i = 0; i < len; i++) if(!buf[i]) break;   with `left` bytes to go
unfoldable pub zero_from : ℕ → Memory → ℕ → ℕ → ℕ
zero_from zero m buf i = i
zero_from (suc left) m buf i =
    let rest = zero_from left m buf (i + 1) in if m (buf + i) == 0 then i else rest

unfoldable pub nl_check_zstr : Memory → ℕ → ℕ → Bool
unfolding zero_from
nl_check_zstr m buf len =
    let i = zero_from len m buf 0 in
    if leb len i then false else if ltb i (len - 1) then false else true

unfoldable pub nl_attr_is_zstr : Memory → ℕ → Bool
nl_attr_is_zstr m at = nl_check_zstr m (payload at) (paylen m at)

-- The attribute is read without a test for NULL, which ends the process.
pub data Read : Type 0 where
  null_read : Read
  returns : Option ℕ → Read

unfoldable pub nl_str : Memory → Option ℕ → Read
nl_str m none = null_read
nl_str m (some at) =
    returns (if nl_check_zstr m (payload at) (paylen m at) then some (payload at) else none)

unfoldable pub nl_get_str : Memory → ℕ → ℕ → Read
unfolding nl_str
nl_get_str m msg type = nl_str m (nl_get m msg type)

unfoldable pub nl_sub_str : Memory → ℕ → ℕ → Read
unfolding nl_str
nl_sub_str m at type = nl_str m (nl_sub m at type)

-- The first NUL from `i` on, or the end.
zero_from_lem :
    (left : ℕ) (m : Memory) (buf i : ℕ)
    → (i ≤ zero_from left m buf i)
      × (zero_from left m buf i ≤ i + left)
      × ((j : ℕ) → i ≤ j → j < zero_from left m buf i → m (buf + j) ≢ 0)
      × (zero_from left m buf i < i + left → m (buf + zero_from left m buf i) ≡ 0)
unfolding zero_from
zero_from_lem zero m buf i =
    (omega arith, omega arith, λ j lo hi. absurd (omega arith), λ short. absurd (omega arith))
zero_from_lem (suc left) m buf i =
    let (lo, hi, before, at_end) = zero_from_lem left m buf (i + 1) in
    elim (Bool-cases (m (buf + i) == 0)) [
      | inl hit ↦ rw hit (
        omega arith,
        omega arith,
        λ j lo' hi'. absurd (omega arith),
        λ short. ground (arith, hit),
      )
      | inr miss ↦ rw miss (
        omega (arith, lo),
        omega (arith, hi),
        λ j lo' hi'. elim (Bool-cases (j == i)) [
          | inl same ↦ λ z.
              let z' = subst (λ k. m (buf + k) ≡ 0) ((==_iff j i).0 same) z in
              ground (arith, miss, z')
          | inr other ↦ before j (ground (arith, lo', other)) hi'
        ],
        λ short. at_end (omega arith),
      )
    ]

-- Bytes that `nl_check_zstr` passes end in their only NUL.
pub nl_check_zstr_lem :
    (m : Memory) (buf len : ℕ)
    → nl_check_zstr m buf len ≡ true
    → (1 ≤ len) × (m (buf + (len - 1)) ≡ 0) × ((j : ℕ) → j < len - 1 → m (buf + j) ≢ 0)
unfolding nl_check_zstr
nl_check_zstr_lem m buf len h =
    let (lo, hi, before, at_end) = zero_from_lem len m buf 0 in
    let short : zero_from len m buf 0 < len = ground (arith, h) in
    let last : zero_from len m buf 0 ≡ len - 1 = ground (arith, h) in
    (
      omega arith,
      subst (λ k. m (buf + k) ≡ 0) last (at_end (omega (arith, short))),
      λ j lo'. before j (omega arith) (omega (arith, last)),
    )
