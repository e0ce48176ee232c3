-- ===== src/Nlusctl/Attr/Find.antt =====
-- In a message that holds a list of attributes, `uc_get` finds the first with the key.
use mathlib.Core.Path.{subst}
use minibase.Base.{
  ℕ, zero, suc, ◌+◌, ◌-◌, ◌%◌, ◌^◌, ◌≤◌, ◌<◌, ◌≡◌, ◌⊎◌, inl, inr, refl, sym, ap, ◌∙◌, true, false,
  Option, none, some, List, [], ◌∷◌, arith, ltb, le→ltb, lt→ltb, ◌==◌, ==_iff, if◌then◌else◌,
  Bool-cases, length, Bytes,
}
use minibase.Base.Int.{pos}
use minibase.Base.Memory.{Memory, load}
use minibase.Nlusctl.Field.{put16, align4, len_of, key_of, get16-put16, put16-other}
use minibase.Nlusctl.Layout.{
  Attr, attr_size, total_size, HoldsOne, Holds, Holds-size, Holds-ext, find_attr,
}
use minibase.Nlusctl.Pack.{UcBuf, uc_put_hdr, Iov, uc_iov_hdr, uc_msg}
use minibase.Nlusctl.Pack.Put.{IsMessage, TooLong}
use minibase.Nlusctl.Pack.Ops.{Put, put_all, attrs_of, AllKeys, put_all_lem}
use minibase.Nlusctl.Attr.{
  attr_in, uc_get_0, uc_get_n, uc_get_loop, uc_get, uc_is_bin, uc_get_bin, uc_paylen,
}

-- The pointer that was found is that of the attribute that was meant.
abbrev pub Found : Memory → Option ℕ → Option Attr → Type 0
Found m none none = Unit {0}
Found m (some at) (some a) = HoldsOne m at a
Found m _ _ = ⊥

attr_in_end : (m : Memory) (ptr : ℕ) → attr_in m ptr ptr ≡ none
unfolding attr_in
attr_in_end m ptr = rw (lt→ltb ptr (ptr + 4) (omega arith))

attr_in_here :
    (m : Memory) (ptr end : ℕ) (a : Attr)
    → HoldsOne m ptr a
    → ptr + attr_size a ≤ end
    → attr_in m ptr end ≡ some ptr
unfolding attr_in
attr_in_here m ptr end a h room =
    rw (
      le→ltb end (ptr + 4) (omega arith),
      le→ltb end (ptr + len_of m ptr) (omega (arith, h.len_is)),
    )

uc_get_n_next :
    (m : Memory) (msg ptr : ℕ) (a : Attr)
    → HoldsOne m ptr a
    → uc_get_n m msg ptr ≡ attr_in m (ptr + attr_size a) (msg + len_of m msg)
unfolding uc_get_n
uc_get_n_next m msg ptr a h =
    let nonzero : (len_of m ptr == 0) ≡ false = ground (arith, h.len_is) in
    rw nonzero (
      ap (λ p. attr_in m p (msg + len_of m msg))
        (let e : ptr + align4 (len_of m ptr) ≡ ptr + attr_size a = omega (arith, h.len_is) in e))

loop-Found :
    (fuel : ℕ) (m : Memory) (msg ptr key : ℕ) (atts : List Attr)
    → Holds m ptr (msg + len_of m msg) atts
    → total_size atts ≤ fuel
    → Found m (uc_get_loop fuel m msg (attr_in m ptr (msg + len_of m msg)) key) (find_attr key atts)
unfolding uc_get_loop
loop-Found fuel m msg ptr key [] h enough =
    rw (h, attr_in_end m (msg + len_of m msg), uc_get_loop) tt
loop-Found zero m msg ptr key (a ∷ atts) h enough = absurd (omega arith)
loop-Found (suc fuel) m msg ptr key (a ∷ atts) h enough =
    let size = Holds-size m (ptr + attr_size a) (msg + len_of m msg) atts h.1 in
    rw (attr_in_here m ptr (msg + len_of m msg) a h.0 (omega (arith, size)), uc_get_loop)
      (rw (h.0.key_is, uc_get_n_next m msg ptr a h.0)
        (elim (Bool-cases (a.key == key)) [
          | inl hit ↦ rw hit h.0
          | inr miss ↦
              rw miss (loop-Found fuel m msg (ptr + attr_size a) key atts h.1 (omega arith))
        ]))

-- In a message that holds a list of attributes, `uc_get` returns the place of the first one with the
-- key, and NULL where there is none.
pub uc_get-Found :
    (m : Memory) (msg key : ℕ) (atts : List Attr)
    → Holds m (msg + 4) (msg + len_of m msg) atts
    → Found m (uc_get m msg key) (find_attr key atts)
unfolding uc_get uc_get_0
uc_get-Found m msg key atts h =
    loop-Found (len_of m msg) m msg (msg + 4) key atts h
      (omega (arith, Holds-size m (msg + 4) (msg + len_of m msg) atts h))

-- the payload of the attribute, if it has the length that was asked for
abbrev pub payload_of : ℕ → Option Attr → Option Bytes
payload_of len none = none
payload_of len (some a) = if length a.payload == len then some a.payload else none

-- the bytes behind the pointer that was returned
abbrev pub load_at : Memory → ℕ → Option ℕ → Option Bytes
load_at m len none = none
load_at m len (some p) = some (load m p len)

paylen_is :
    (m : Memory) (at : ℕ) (a : Attr) → HoldsOne m at a → uc_paylen m at ≡ pos (length a.payload)
unfolding uc_paylen
paylen_is m at a h = ground (arith, h.len_is)

uc_is_bin-Found :
    (m : Memory) (key len : ℕ) (o : Option ℕ) (r : Option Attr)
    → Found m o r
    → ((a : Attr) → r ≡ some a → a.key ≡ key)
    → load_at m len (uc_is_bin m o key len) ≡ payload_of len r
unfolding uc_is_bin
uc_is_bin-Found m key len none none f k = refl
uc_is_bin-Found m key len none (some a) f k = absurd f
uc_is_bin-Found m key len (some at) none f k = absurd f
uc_is_bin-Found m key len (some at) (some a) f k =
    let keyed : (key_of m at == key) ≡ true = ground (arith, f.key_is, k a refl) in
    rw (keyed, paylen_is m at a f)
      (elim (Bool-cases (length a.payload == len)) [
        | inl same ↦ rw same (ap some (rw (← (==_iff (length a.payload) len).0 same) f.payload_is))
        | inr other ↦ rw other
      ])

find_attr-key : (key : ℕ) (atts : List Attr) (a : Attr) → find_attr key atts ≡ some a → a.key ≡ key
find_attr-key key [] a h = cc
find_attr-key key (b ∷ atts) a h = ground (arith, find_attr-key key atts a)

-- `uc_get_bin` returns a pointer to the payload of the first attribute with the key, if it has just
-- the length that was asked for, and NULL else.
pub uc_get_bin_lem :
    (m : Memory) (msg key len : ℕ) (atts : List Attr)
    → Holds m (msg + 4) (msg + len_of m msg) atts
    → load_at m len (uc_get_bin m msg key len) ≡ payload_of len (find_attr key atts)
unfolding uc_get_bin
uc_get_bin_lem m msg key len atts h =
    uc_is_bin-Found m key len (uc_get m msg key) (find_attr key atts)
      (uc_get-Found m msg key atts h) (find_attr-key key atts)

-- The receiver's buffer after `uc_msg`, where the `n` bytes sent arrived at `buf + 2`.
pub delivered :
    (uc : UcBuf) (atts : List Attr) (buf : Memory)
    → IsMessage uc atts
    → ((a : ℕ) → 2 ≤ a → a < len_of uc.mem 0 → buf a ≡ uc.mem a)
    → (msg : Memory) × (uc_msg buf (len_of uc.mem 0 - 2) ≡ some msg)
      × Holds msg 4 (len_of msg 0) atts
unfolding uc_msg
delivered uc atts buf h same =
    let len = len_of uc.mem 0 in
    let size = Holds-size uc.mem 4 len atts h.holds in
    let msg = put16 buf 0 len in
    let whole : 2 + (len - 2) ≡ len = omega (arith, size) in
    let fits : ltb (2 + (len - 2)) 4 ≡ false = le→ltb (2 + (len - 2)) 4 (omega (arith, size)) in
    let kept : len % 2 ^ 16 ≡ len = omega (arith, h.small) in
    let length_is : len_of msg 0 ≡ len = get16-put16 buf 0 len (omega (arith, h.small)) in
    (
      msg,
      rw fits (ap (λ n. some (put16 buf 0 n)) (omega (arith, size, h.small))),
      rw length_is (
          Holds-ext uc.mem msg 4 len atts
            (λ x lo hi. sym (put16-other buf 0 len x (inr (omega arith)) ∙ same x (omega arith) hi))
            h.holds),
    )

found_in :
    (m : Memory) (atts : List Attr)
    → Holds m 4 (len_of m 0) atts
    → (key len : ℕ) → load_at m len (uc_get_bin m 0 key len) ≡ payload_of len (find_attr key atts)
found_in m atts h key len =
    let from_zero : len_of m 0 ≡ 0 + len_of m 0 = omega arith in
    uc_get_bin_lem m 0 key len atts (subst (λ e. Holds m 4 e atts) from_zero h)

-- From one end to the other: a message that was put together from a header and any puts with keys of
-- 16 bits, and that was sent, is one in which the receiver finds, for every key and length, the payload of the first
-- put with that key, if it has that length.
pub get-put_all :
    (uc : UcBuf) (cmd : ℕ) (ps : List Put) (iov : Iov) (buf : Memory)
    → 4 ≤ uc.len
    → AllKeys ps
    → uc_iov_hdr (put_all (uc_put_hdr uc cmd) ps) ≡ some iov
    → ((i : ℕ) → i < iov.len → buf (2 + i) ≡ (put_all (uc_put_hdr uc cmd) ps).mem (iov.base + i))
    → (msg : Memory) × (uc_msg buf iov.len ≡ some msg)
      × ((key len : ℕ)
          → load_at msg len (uc_get_bin msg 0 key len)
            ≡ payload_of len (find_attr key (attrs_of ps)))
get-put_all uc cmd ps iov buf room keys sent same = read (put_all_lem uc cmd ps room keys)
  where
    message : UcBuf
    message = put_all (uc_put_hdr uc cmd) ps

    arrived : (a : ℕ) → 2 ≤ a → a - 2 < iov.len → iov.base ≡ 2 → buf a ≡ message.mem a
    arrived a lo hi from =
        let back : a ≡ 2 + (a - 2) = omega arith in
        let there : iov.base + (a - 2) ≡ a = omega (arith, from) in
        ap buf back ∙ same (a - 2) hi ∙ ap message.mem there

    opened :
        iov.len ≡ len_of message.mem 0 - 2
        → ((msg : Memory) × (uc_msg buf (len_of message.mem 0 - 2) ≡ some msg)
            × Holds msg 4 (len_of msg 0) (attrs_of ps))
        → (msg : Memory) × (uc_msg buf iov.len ≡ some msg)
          × ((key len : ℕ)
              → load_at msg len (uc_get_bin msg 0 key len)
                ≡ payload_of len (find_attr key (attrs_of ps)))
    opened whole (msg, received, holds) =
        (msg, ap (uc_msg buf) whole ∙ received, found_in msg (attrs_of ps) holds)

    read :
        (IsMessage message (attrs_of ps)
            × (uc_iov_hdr message ≡ some (record { base = 2; len = len_of message.mem 0 - 2 })))
          ⊎ (TooLong uc.len (attrs_of ps) × (uc_iov_hdr message ≡ none))
        → (msg : Memory) × (uc_msg buf iov.len ≡ some msg)
          × ((key len : ℕ)
              → load_at msg len (uc_get_bin msg 0 key len)
                ≡ payload_of len (find_attr key (attrs_of ps)))
    read (inr (long, refused)) = cc (sym refused ∙ sent)
    read (inl (held, handed)) =
        let same_iov : iov ≡ record { base = 2; len = len_of message.mem 0 - 2 } = cc in
        let size = Holds-size message.mem 4 (len_of message.mem 0) (attrs_of ps) held.holds in
        let whole : iov.len ≡ len_of message.mem 0 - 2 = ap (λ v. v.len) same_iov in
        let from : iov.base ≡ 2 = ap (λ v. v.base) same_iov in
        opened whole (
          delivered message (attrs_of ps) buf held
            (λ a lo hi. arrived a lo (omega (arith, whole, size)) from))
