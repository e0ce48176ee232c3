-- ===== src/Netlink/Attr.antt =====
-- lib/netlink/attr*.c: the attributes of a message from the kernel and of a nest. A pointer is its address,
-- and NULL is `none`.
pub mod Walk
pub mod Nest
pub mod Find
pub mod Zstr
use minibase.Base.{
  ℕ, zero, suc, ◌+◌, ◌-◌, ◌*◌, ◌%◌, Bool, true, false, not, Option, none, some, ltb, leb, ◌==◌,
  if◌then◌else◌,
}
use minibase.Base.Memory.{Memory}
use minibase.Nlusctl.Field.{header_size, get16, len_of, key_of}

-- `n & 3` is the rest modulo 4.
unfoldable pub extend_to_4bytes : ℕ → ℕ
extend_to_4bytes n = n + (4 - n % 4) % 4

-- A difference of two sizes that wraps as a size_t does; `b` is at most 2 ^ 64.
unfoldable pub size_minus : ℕ → ℕ → ℕ
size_minus a b = (a + (18446744073709551616 - b)) % 18446744073709551616

unfoldable pub nl_attr_0_in : Memory → ℕ → ℕ → Option ℕ
nl_attr_0_in m buf len =
    if ltb len header_size then none else if ltb len (len_of m buf) then none else some buf

unfoldable pub ptr_in_buf : ℕ → ℕ → ℕ → Bool
ptr_in_buf buf len ptr = if ltb ptr buf then false else if leb (buf + len) ptr then false else true

unfoldable pub nl_attr_n_in : Memory → ℕ → ℕ → ℕ → Option ℕ
unfolding ptr_in_buf extend_to_4bytes
nl_attr_n_in m buf len curr =
    let next = curr + extend_to_4bytes (len_of m curr) in
    if not (ptr_in_buf buf len curr)
    then none
    else if ltb (len_of m curr) header_size
    then none
    else if not (ptr_in_buf buf len next)
    then none
    else some next

-- for(at = …; at; at = nl_attr_n_in(buf, len, at)) if(at->type == type) return at;
unfoldable pub nl_attr_loop : ℕ → Memory → ℕ → ℕ → Option ℕ → ℕ → Option ℕ
nl_attr_loop fuel m buf len none type = none
nl_attr_loop zero m buf len (some at) type = none
nl_attr_loop (suc fuel) m buf len (some at) type =
    let rest = nl_attr_loop fuel m buf len (nl_attr_n_in m buf len at) type in
    if key_of m at == type then some at else rest

-- A round moves on by four bytes at least.
unfoldable pub nl_attr_k_in : Memory → ℕ → ℕ → ℕ → Option ℕ
unfolding nl_attr_loop
nl_attr_k_in m buf len type = nl_attr_loop len m buf len (nl_attr_0_in m buf len) type

-- The loop of `nl_check_nest`, in which `skip` is a uint16_t.
unfoldable pub check_nest_from : ℕ → Memory → ℕ → ℕ → Bool
check_nest_from zero m p end = p == end
check_nest_from (suc fuel) m p end =
    let skip = extend_to_4bytes (len_of m p) % 65536 in
    let rest = check_nest_from fuel m (p + skip) end in
    if not (ltb p end) then p == end else if skip == 0 then p == end else rest

unfoldable pub nl_check_nest : Memory → ℕ → ℕ → Bool
unfolding check_nest_from
nl_check_nest m buf len =
    if leb len header_size then false else check_nest_from len m buf (buf + len)

-- The two arguments of ATPAYLOAD.
abbrev pub payload : ℕ → ℕ
payload at = at + header_size

unfoldable pub paylen : Memory → ℕ → ℕ
unfolding size_minus
paylen m at = size_minus (len_of m at) header_size

unfoldable pub nl_attr_is_nest : Memory → Option ℕ → Bool
nl_attr_is_nest m none = false
nl_attr_is_nest m (some at) = nl_check_nest m (payload at) (paylen m at)

unfoldable pub nl_nest : Memory → Option ℕ → Option ℕ
nl_nest m none = none
nl_nest m (some at) = if not (nl_check_nest m (payload at) (paylen m at)) then none else some at

unfoldable pub nl_sub_0 : Memory → ℕ → Option ℕ
nl_sub_0 m at = nl_attr_0_in m (payload at) (paylen m at)

unfoldable pub nl_sub_n : Memory → ℕ → ℕ → Option ℕ
nl_sub_n m at cur = nl_attr_n_in m (payload at) (paylen m at) cur

unfoldable pub nl_sub : Memory → ℕ → ℕ → Option ℕ
nl_sub m at type = nl_attr_k_in m (payload at) (paylen m at) type

abbrev pub of_len : Memory → ℕ → Option ℕ → Option ℕ
of_len m len none = none
of_len m len (some at) = if len_of m at == header_size + len then some (payload at) else none

unfoldable pub nl_sub_of_len : Memory → ℕ → ℕ → ℕ → Option ℕ
unfolding nl_sub
nl_sub_of_len m at type len = of_len m len (nl_sub m at type)

unfoldable pub nl_bin : Memory → Option ℕ → ℕ → Option ℕ
unfolding paylen
nl_bin m none len = none
nl_bin m (some at) len = if paylen m at == len then some (payload at) else none

-- sizeof(struct nlgen), and the two arguments of NLPAYLOAD
abbrev pub nlgen_size : ℕ
nlgen_size = 20

abbrev pub msg_payload : ℕ → ℕ
msg_payload msg = msg + nlgen_size

abbrev pub msg_len : Memory → ℕ → ℕ
msg_len m msg = get16 m msg + 65536 * get16 m (msg + 2)

unfoldable pub msg_paylen : Memory → ℕ → ℕ
unfolding size_minus
msg_paylen m msg = size_minus (msg_len m msg) nlgen_size

-- `msg->type` is behind the length.
unfoldable pub nl_gen : Memory → ℕ → Option ℕ
nl_gen m msg =
    if ltb (msg_len m msg) nlgen_size
    then none
    else if ltb (get16 m (msg + 4)) 16
    then none
    else some msg

unfoldable pub nl_get : Memory → ℕ → ℕ → Option ℕ
nl_get m msg type = nl_attr_k_in m (msg_payload msg) (msg_paylen m msg) type

unfoldable pub nl_get_0 : Memory → ℕ → Option ℕ
nl_get_0 m msg = nl_attr_0_in m (msg_payload msg) (msg_paylen m msg)

unfoldable pub nl_get_n : Memory → ℕ → ℕ → Option ℕ
nl_get_n m msg cur = nl_attr_n_in m (msg_payload msg) (msg_paylen m msg) cur

unfoldable pub nl_get_of_len : Memory → ℕ → ℕ → ℕ → Option ℕ
unfolding nl_get
nl_get_of_len m msg type len = of_len m len (nl_get m msg type)

unfoldable pub nl_get_nest : Memory → ℕ → ℕ → Option ℕ
unfolding nl_get nl_nest
nl_get_nest m msg type = nl_nest m (nl_get m msg type)
