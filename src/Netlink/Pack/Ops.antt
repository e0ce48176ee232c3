-- ===== src/Netlink/Pack/Ops.antt =====
-- A message to the kernel: a header and any puts.
use minibase.Base.{
  ◌==◌, ℕ, ◌+◌, ◌-◌, ◌^◌, ◌≤◌, ◌<◌, ◌≡◌, ◌⊎◌, inl, inr, refl, sym, ap, ◌∙◌, true, false, Option,
  none, some, List, [], ◌∷◌, ◌++◌, arith, ltb, Bytes, length, take, length-take, length-append,
}
use mathlib.Core.Path.{subst}
use mathlib.Core.List.{append_assoc, append-nil}
use minibase.Base.Memory.{Memory, copy_to, load}
use minibase.Format.Write.{strnlen}
use minibase.Format.Write.Sound.{strnlen-le}
use minibase.Nlusctl.Field.{le_bytes}
use minibase.Nlusctl.Layout.{Attr, Holds, Holds-ext, Holds-size, total_size}
use minibase.Netlink.Recv.{enobufs}
use minibase.Netlink.Pack.{
  NcBuf, Slot, nc_header, nc_put_, with_data, nc_put, nc_put_int, nc_put_byte, nc_put_str,
  nc_put_flag, nc_send, Sent, error, bytes,
}
use minibase.Netlink.Attr.{msg_len}
use minibase.Netlink.Pack.{nc_gencmd, nc_fixed}
use minibase.Netlink.Pack.Put.{IsPacked, Packed, with_data-Packed}
use minibase.Base.Memory.{copy_to-after, length-load}

-- one call of a packing function
pub data Put : Type 0 where
  flag : ℕ → Put
  int : ℕ → ℕ → Put
  byte : ℕ → ℕ → Put
  str : ℕ → Bytes → Put
  bin : ℕ → Bytes → Put

abbrev pub put_one : NcBuf → Put → NcBuf
put_one nc (flag key) = nc_put_flag nc key
put_one nc (int key val) = nc_put_int nc key val
put_one nc (byte key val) = nc_put_byte nc key val
put_one nc (str key s) = nc_put_str nc key s
put_one nc (bin key text) = nc_put nc key text

abbrev pub put_all : NcBuf → List Put → NcBuf
put_all nc [] = nc
put_all nc (p ∷ ps) = put_all (put_one nc p) ps

-- the attribute that a call means to add; of a string its NUL as well, or the first 1025 bytes
abbrev pub attr_of : Put → Attr
attr_of (flag key) = record { key = key; payload = [] }
attr_of (int key val) = record { key = key; payload = le_bytes 4 val }
attr_of (byte key val) = record { key = key; payload = le_bytes 1 val }
attr_of (str key s) = record { key = key; payload = take (strnlen s 1024 + 1) (s ++ 0 ∷ []) }
attr_of (bin key text) = record { key = key; payload = text }

abbrev pub attrs_of : List Put → List Attr
attrs_of [] = []
attrs_of (p ∷ ps) = attr_of p ∷ attrs_of ps

-- Type and length are numbers of 16 bits.
abbrev pub AllSmall : List Put → Type 0
AllSmall [] = Unit {0}
AllSmall (p ∷ ps) =
    ((attr_of p).key < 2 ^ 16) × (4 + length ((attr_of p).payload) < 2 ^ 16) × AllSmall ps

with_data_nothing : (s : Slot) → with_data s [] ≡ s.nc
with_data_nothing s = go s.nc s.at
  where
    go : (nc : NcBuf) (at : Option ℕ) → with_data (record { nc = nc; at = at }) [] ≡ nc
    go nc none = refl
    go nc (some at) = refl

str-length : (s : Bytes) → length (take (strnlen s 1024 + 1) (s ++ 0 ∷ [])) ≡ strnlen s 1024 + 1
str-length s = omega (
  arith,
  length-take (strnlen s 1024 + 1) (s ++ 0 ∷ []),
  length-append s (0 ∷ []),
  strnlen-le s 1024,
)

put_one-Packed :
    (first brk end : ℕ) (nc : NcBuf) (p : Put) (atts : List Attr)
    → (attr_of p).key < 2 ^ 16
    → 4 + length ((attr_of p).payload) < 2 ^ 16
    → Packed first brk end nc atts
    → Packed first brk end (put_one nc p) (atts ++ attr_of p ∷ [])
unfolding nc_put_flag nc_put_int nc_put_byte nc_put_str nc_put
put_one-Packed first brk end nc (flag key) atts k small p =
    subst (λ n. Packed first brk end n (atts ++ record { key = key; payload = [] } ∷ []))
      (with_data_nothing (nc_put_ nc key 0))
      (with_data-Packed first brk end nc key [] atts small k p)
put_one-Packed first brk end nc (int key val) atts k small p =
    with_data-Packed first brk end nc key (le_bytes 4 val) atts small k p
put_one-Packed first brk end nc (byte key val) atts k small p =
    with_data-Packed first brk end nc key (le_bytes 1 val) atts small k p
put_one-Packed first brk end nc (str key s) atts k small p =
    rw (str-length s) at (
      with_data-Packed first brk end nc key (take (strnlen s 1024 + 1) (s ++ 0 ∷ [])) atts small k
        p)
put_one-Packed first brk end nc (bin key text) atts k small p =
    with_data-Packed first brk end nc key text atts small k p

put_all-Packed :
    (first brk end : ℕ) (nc : NcBuf) (ps : List Put) (atts : List Attr)
    → AllSmall ps
    → Packed first brk end nc atts
    → Packed first brk end (put_all nc ps) (atts ++ attrs_of ps)
put_all-Packed first brk end nc [] atts h p = rw append-nil p
put_all-Packed first brk end nc (q ∷ ps) atts h p = rw append_assoc at (
    put_all-Packed first brk end (put_one nc q) ps (atts ++ attr_of q ∷ []) h.2
      (put_one-Packed first brk end nc q atts h.0 h.1 p))

module _ (nc : NcBuf) (type flags seq cmd ver : ℕ) (room : nc.brk + 20 ≤ nc.end) where
  start : NcBuf
  start = nc_gencmd (nc_header nc type flags seq) cmd ver

  start-Packed : Packed (nc.brk + 20) nc.brk nc.end start []
  unfolding start nc_gencmd nc_header nc_fixed
  start-Packed =
      let a : ltb nc.end (nc.brk + 16) ≡ false = ground arith in
      let b : ltb nc.end (nc.brk + 20) ≡ false = ground arith in
      let c : (nc.brk + 16 == nc.brk + 16) ≡ true = ground arith in
      rw (a, b, c)
        (record {
          same_brk = refl;
          same_end = refl;
          packed = inl (record { holds = refl; header_in = omega arith; within = room });
        })

-- the length that is filled in
msg_len-copy_to :
    (m : Memory) (p len : ℕ) → len < 2 ^ 32 → msg_len (copy_to m p (le_bytes 4 len)) p ≡ len
msg_len-copy_to m p len h = ground arith

-- What is sent is a message of these attributes, as long as it says; or they are too many for the buffer.
abbrev pub Delivered : ℕ → ℕ → List Attr → Sent → Type 0
Delivered brk end atts (error e) = (e ≡ enobufs) × (end < brk + 20 + total_size atts)
Delivered brk end atts (bytes m text) =
    Holds m (brk + 20) (brk + length text) atts
    × (msg_len m brk ≡ length text)
    × (brk + length text ≤ end)
    × (text ≡ load m brk (length text))

sent-Delivered :
    (nc : NcBuf) (atts : List Attr) (len : ℕ)
    → nc.brk + len ≡ nc.ptr
    → nc.ptr ≤ nc.end
    → 20 ≤ len
    → len < 2 ^ 32
    → Holds nc.mem (nc.brk + 20) nc.ptr atts
    → let m = copy_to nc.mem nc.brk (le_bytes 4 len) in
      Delivered nc.brk nc.end atts (bytes m (load m nc.brk len))
sent-Delivered nc atts len e within long small h =
    let m = copy_to nc.mem nc.brk (le_bytes 4 len) in
    let all = length-load m nc.brk len in
    (
      subst (λ q. Holds m (nc.brk + 20) q atts)
          (let same : nc.ptr ≡ nc.brk + length (load m nc.brk len) = omega (arith, e, all) in same)
          (Holds-ext nc.mem m (nc.brk + 20) nc.ptr atts
            (λ a lo hi. sym (copy_to-after nc.mem nc.brk a (le_bytes 4 len) (omega arith))) h),
      msg_len-copy_to nc.mem nc.brk len small ∙ sym all,
      omega (arith, e, all, within),
      ap (load m nc.brk) (sym all),
    )

send-Delivered :
    (nc : NcBuf) (atts : List Attr)
    → nc.end < nc.brk + 2 ^ 32
    → Packed (nc.brk + 20) nc.brk nc.end nc atts
    → Delivered nc.brk nc.end atts (nc_send nc)
unfolding nc_send
send-Delivered nc atts small p = go p.packed
  where
    go :
        IsPacked (nc.brk + 20) nc atts
          ⊎ ((nc.ptr ≡ nc.end + 1) × (nc.end < nc.brk + 20 + total_size atts))
        → Delivered nc.brk nc.end atts (nc_send nc)
    go (inr (over, long)) = let a : ltb nc.end nc.ptr ≡ true = ground arith in rw a (refl, long)
    go (inl msg) =
        let size = Holds-size nc.mem (nc.brk + 20) nc.ptr atts msg.holds in
        let a : ltb nc.end nc.ptr ≡ false = ground (arith, msg.within) in
        let b : ltb nc.ptr nc.brk ≡ false = ground (arith, size) in
        let c : ltb nc.ptr (nc.brk + 16) ≡ false = ground (arith, size) in
        rw (a, b, c)
          (sent-Delivered nc atts (nc.ptr - nc.brk) (omega (arith, size)) msg.within
            (omega (arith, size)) (omega (arith, size, small, msg.within)) msg.holds)

send-Delivered_from :
    (brk end : ℕ) (nc : NcBuf) (atts : List Attr)
    → end < brk + 2 ^ 32
    → Packed (brk + 20) brk end nc atts
    → Delivered brk end atts (nc_send nc)
send-Delivered_from brk end nc atts small p =
    subst (λ b. Delivered b end atts (nc_send nc)) p.same_brk
      (subst (λ e. Delivered nc.brk e atts (nc_send nc)) p.same_end
        (send-Delivered nc atts (omega (arith, small, p.same_brk, p.same_end)) (
          subst (λ b. Packed (b + 20) b nc.end nc atts) (sym p.same_brk)
            (subst (λ e. Packed (brk + 20) brk e nc atts) (sym p.same_end) p))))

-- In a buffer with room for the two headers and of less than 2 ^ 32 bytes, after the header, the command and any
-- puts, each with a type and a length of 16 bits, one of two things holds. Either `nc_send` sends a message that
-- has just the attributes put, in order, behind its headers, and says its own length; or they are too long
-- for the buffer, and it returns -ENOBUFS.
pub nc_send-put_all :
    (nc : NcBuf) (type flags seq cmd ver : ℕ) (ps : List Put)
    → nc.brk + 20 ≤ nc.end
    → nc.end < nc.brk + 2 ^ 32
    → AllSmall ps
    → Delivered nc.brk nc.end
        (attrs_of ps)
        (nc_send (put_all (nc_gencmd (nc_header nc type flags seq) cmd ver) ps))
unfolding start
nc_send-put_all nc type flags seq cmd ver ps room small k =
    send-Delivered_from nc.brk nc.end (put_all (nc_gencmd (nc_header nc type flags seq) cmd ver) ps)
      (attrs_of ps) small
      (put_all-Packed (nc.brk + 20) nc.brk nc.end (nc_gencmd (nc_header nc type flags seq) cmd ver)
        ps [] k (start-Packed nc type flags seq cmd ver room))
