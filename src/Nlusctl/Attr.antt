-- ===== src/Nlusctl/Attr.antt =====
-- lib/nlusctl: finding an attribute in a message, which may come from anybody. A pointer is an
-- offset into the message, and NULL is `none`.
pub mod Bounds
pub mod Find
pub mod Zstr
use minibase.Base.{
  ℕ, zero, suc, ◌+◌, ◌-◌, Bool, false, not, Option, none, some, ltb, ◌==◌, if◌then◌else◌,
}
use minibase.Base.Int.{ℤ, pos, negsuc, sub_ℕ, signed16}
use minibase.Base.Memory.{Memory}
use minibase.Nlusctl.Field.{header_size, align4, len_of, key_of}

-- Addresses do not wrap, so that `hdrend < ptr` and `payend < ptr` never hold.
unfoldable pub attr_in : Memory → ℕ → ℕ → Option ℕ
attr_in m ptr end =
    if ltb end (ptr + header_size)
    then none
    else if ltb end (ptr + len_of m ptr)
    then none
    else some ptr

-- The first attribute of the message or of the nest that stands at `msg`.
unfoldable pub uc_get_0 : Memory → ℕ → Option ℕ
unfolding attr_in
uc_get_0 m msg = attr_in m (msg + header_size) (msg + len_of m msg)

unfoldable pub uc_get_n : Memory → ℕ → ℕ → Option ℕ
unfolding attr_in
uc_get_n m msg at =
    let len = len_of m at in
    if len == 0 then none else attr_in m (at + align4 len) (msg + len_of m msg)

-- for(at = …; at; at = uc_get_n(msg, at)) if(at->key == key) return at;
unfoldable pub uc_get_loop : ℕ → Memory → ℕ → Option ℕ → ℕ → Option ℕ
uc_get_loop fuel m msg none key = none
uc_get_loop zero m msg (some at) key = none
uc_get_loop (suc fuel) m msg (some at) key =
    let rest = uc_get_loop fuel m msg (uc_get_n m msg at) key in
    if key_of m at == key then some at else rest

-- A round moves on by at least four bytes, so that as many rounds as the message has bytes do.
unfoldable pub uc_get : Memory → ℕ → ℕ → Option ℕ
unfolding uc_get_loop
uc_get m msg key = uc_get_loop (len_of m msg) m msg (uc_get_0 m msg) key

unfoldable pub uc_is_keyed : Memory → ℕ → ℕ → Bool
uc_is_keyed m at key = key_of m at == key

unfoldable pub uc_payload : ℕ → ℕ
uc_payload at = at + header_size

-- Negative for an attribute that claims to be shorter than its header.
unfoldable pub uc_paylen : Memory → ℕ → ℤ
uc_paylen m at = sub_ℕ (len_of m at) header_size

abbrev pub eq_pos : ℤ → ℕ → Bool
eq_pos (pos n) len = n == len
eq_pos (negsuc n) len = false

unfoldable pub uc_is_bin : Memory → Option ℕ → ℕ → ℕ → Option ℕ
unfolding uc_paylen uc_payload
uc_is_bin m none key len = none
uc_is_bin m (some at) key len =
    if not (key_of m at == key)
    then none
    else if not (eq_pos (uc_paylen m at) len)
    then none
    else some (uc_payload at)

unfoldable pub uc_get_bin : Memory → ℕ → ℕ → ℕ → Option ℕ
uc_get_bin m msg key len = uc_is_bin m (uc_get m msg key) key len

unfoldable pub uc_get_int : Memory → ℕ → ℕ → Option ℕ
uc_get_int m msg key = uc_is_bin m (uc_get m msg key) key 4

unfoldable pub uc_get_i64 : Memory → ℕ → ℕ → Option ℕ
uc_get_i64 m msg key = uc_is_bin m (uc_get m msg key) key 8

-- for(p = buf; p < buf + len - 1; p++) if(!*p) return 0;   then the byte at `p`
unfoldable pub zstr_from : ℕ → Memory → ℕ → Bool
zstr_from zero m p = m p == 0
zstr_from (suc left) m p = let rest = zstr_from left m (p + 1) in if m p == 0 then false else rest

abbrev pub rounds_of : ℤ → ℕ
rounds_of (pos n) = n - 1
rounds_of (negsuc n) = 0

unfoldable pub is_zstr : Memory → ℕ → ℤ → Bool
unfolding zstr_from
is_zstr m buf len = zstr_from (rounds_of len) m buf

unfoldable pub uc_is_str : Memory → Option ℕ → ℕ → Option ℕ
unfolding is_zstr uc_paylen uc_payload
uc_is_str m none key = none
uc_is_str m (some at) key =
    if not (key_of m at == key)
    then none
    else if not (is_zstr m (uc_payload at) (uc_paylen m at))
    then none
    else some (uc_payload at)

unfoldable pub uc_get_str : Memory → ℕ → ℕ → Option ℕ
uc_get_str m msg key = uc_is_str m (uc_get m msg key) key

-- (int16_t)msg->key
unfoldable pub uc_repcode : Memory → ℕ → ℤ
uc_repcode m msg = signed16 (key_of m msg)
