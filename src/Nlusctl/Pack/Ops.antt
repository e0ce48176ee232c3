-- ===== src/Nlusctl/Pack/Ops.antt =====
-- A whole message: the header and any sequence of puts.
use minibase.Base.{
  ℕ, ◌+◌, ◌-◌, ◌*◌, ◌/◌, ◌^◌, ◌≤◌, ◌<◌, ◌≡◌, ◌⊎◌, inl, inr, refl, sym, ap, ◌∙◌, false, Option, none,
  some, List, [], ◌∷◌, ◌++◌, arith, ltb, le→ltb, if◌then◌else◌, Bool-cases, Bytes, length, take,
  length-append,
}
use mathlib.Core.Path.{subst}
use mathlib.Core.List.{append_assoc, append-nil}
use minibase.Base.Memory.{
  Memory, store, copy_to, load, copy_to-before, load-copy_to, copy_to-concat,
}
use minibase.Format.Write.{strnlen}
use minibase.Format.Write.Sound.{length-take-strnlen}
use minibase.Nlusctl.Field.{le_bytes, align4, len_of}
use minibase.Nlusctl.Layout.{Attr, Holds-size}
use minibase.Nlusctl.Pack.{
  UcBuf, PutOut, uc_put_hdr, uc_put, with_payload, uc_put_flag, uc_put_int, uc_put_i64, fill_bin,
  uc_put_bin, uc_put_str, uc_put_strn, uc_iov_hdr,
}
use minibase.Nlusctl.Pack.Put.{IsMessage, Fills, Packed, TooLong, with_payload-Packed}

Fills-copy : (ps : Bytes) → Fills (λ m p. copy_to m p ps) ps
Fills-copy ps = record {
  stored = λ m p. load-copy_to m p ps;
  before = λ m p a h. copy_to-before m p a ps h;
}

Fills-bin : (ps : Bytes) → Fills (fill_bin ps) ps
Fills-bin ps = record {
  stored = λ m p. load-copy_to (cleaned m p) p ps;
  before = λ m p a h. copy_to-before (cleaned m p) p a ps h ∙ clean_before m p a h;
}
  where
    cleaned : Memory → ℕ → Memory
    cleaned m p =
        if ltb (length ps) (align4 (length ps))
        then copy_to m (p + length ps / 4 * 4) (le_bytes 4 0)
        else m

    clean_before : (m : Memory) (p a : ℕ) → a < p → cleaned m p a ≡ m a
    clean_before m p a h = elim (Bool-cases (ltb (length ps) (align4 (length ps)))) [
      | inl yes' ↦ rw yes' (copy_to-before m (p + length ps / 4 * 4) a (le_bytes 4 0) (omega arith))
      | inr no' ↦ rw no'
    ]

Fills-nothing : Fills (λ m p. m) []
Fills-nothing = record { stored = λ m p. refl; before = λ m p a h. refl }

clean_strn : Bytes → ℕ → Memory → ℕ → Memory
clean_strn s max m p =
    let len = strnlen s max in
    if ltb len (align4 (len + 1)) then copy_to m (p + len / 4 * 4) (le_bytes 4 0) else m

fill_strn : Bytes → ℕ → Memory → ℕ → Memory
unfolding clean_strn
fill_strn s max m p =
    let len = strnlen s max in store (copy_to (clean_strn s max m p) p (take len s)) (p + len) 0

clean_strn-before :
    (s : Bytes) (max : ℕ) (m : Memory) (p a : ℕ) → a < p → clean_strn s max m p a ≡ m a
unfolding clean_strn
clean_strn-before s max m p a h =
    elim (Bool-cases (ltb (strnlen s max) (align4 (strnlen s max + 1)))) [
      | inl padded ↦
          rw padded (copy_to-before m (p + strnlen s max / 4 * 4) a (le_bytes 4 0) (omega arith))
      | inr whole ↦ rw whole
    ]

-- the bytes and their terminator are copied
fill_strn-copy_to :
    (s : Bytes) (max : ℕ) (m : Memory) (p : ℕ)
    → fill_strn s max m p ≡ copy_to (clean_strn s max m p) p (take (strnlen s max) s ++ 0 ∷ [])
unfolding fill_strn
fill_strn-copy_to s max m p =
    ap (λ n. store (copy_to (clean_strn s max m p) p (take (strnlen s max) s)) (p + n) 0)
      (sym (length-take-strnlen s max))
    ∙ sym (copy_to-concat (clean_strn s max m p) p 0 (take (strnlen s max) s))

Fills-strn : (s : Bytes) (max : ℕ) → Fills (fill_strn s max) (take (strnlen s max) s ++ 0 ∷ [])
Fills-strn s max = record {
  stored = λ m p.
      ap (λ m'. load m' p (length (take (strnlen s max) s ++ 0 ∷ []))) (fill_strn-copy_to s max m p)
      ∙ load-copy_to (clean_strn s max m p) p (take (strnlen s max) s ++ 0 ∷ []);
  before = λ m p a h.
      ap (λ m'. m' a) (fill_strn-copy_to s max m p)
      ∙ copy_to-before (clean_strn s max m p) p a (take (strnlen s max) s ++ 0 ∷ []) h
      ∙ clean_strn-before s max m p a h;
}

with_payload_id : (o : PutOut) → with_payload o (λ m p. m) ≡ o.uc
with_payload_id o = go o.uc o.at
  where
    go : (uc : UcBuf) (at : Option ℕ) → with_payload (record { uc = uc; at = at }) (λ m p. m) ≡ uc
    go uc none = refl
    go uc (some at) = refl

-- one call of a packing function
pub data Put : Type 0 where
  flag : ℕ → Put
  int : ℕ → ℕ → Put
  i64 : ℕ → ℕ → Put
  bin : ℕ → Bytes → Put
  str : ℕ → Bytes → Put
  strn : ℕ → Bytes → ℕ → Put

abbrev pub put_one : UcBuf → Put → UcBuf
put_one uc (flag key) = uc_put_flag uc key
put_one uc (int key v) = uc_put_int uc key v
put_one uc (i64 key v) = uc_put_i64 uc key v
put_one uc (bin key src) = uc_put_bin uc key src
put_one uc (str key s) = uc_put_str uc key s
put_one uc (strn key s max) = uc_put_strn uc key s max

abbrev pub put_all : UcBuf → List Put → UcBuf
put_all uc [] = uc
put_all uc (p ∷ ps) = put_all (put_one uc p) ps

-- a string with its terminator, or its first 1024 bytes
abbrev pub zstr_payload : Bytes → Bytes
zstr_payload s =
    let len = strnlen s 1024 in take (if ltb len 1024 then len + 1 else len) (s ++ 0 ∷ [])

-- the attribute that a call means to add
abbrev pub attr_of : Put → Attr
attr_of (flag k) = record { key = k; payload = [] }
attr_of (int k v) = record { key = k; payload = le_bytes 4 v }
attr_of (i64 k v) = record { key = k; payload = le_bytes 8 v }
attr_of (bin k src) = record { key = k; payload = src }
attr_of (str k s) = record { key = k; payload = zstr_payload s }
attr_of (strn k s max) = record { key = k; payload = take (strnlen s max) s ++ 0 ∷ [] }

abbrev pub attrs_of : List Put → List Attr
attrs_of [] = []
attrs_of (p ∷ ps) = attr_of p ∷ attrs_of ps

put_one-Packed :
    (limit : ℕ) (uc : UcBuf) (p : Put) (atts : List Attr)
    → (attr_of p).key < 2 ^ 16
    → Packed limit uc atts
    → Packed limit (put_one uc p) (atts ++ attr_of p ∷ [])
unfolding uc_put_flag uc_put_int uc_put_i64 uc_put_bin uc_put_str uc_put_strn fill_strn
put_one-Packed limit uc (flag k) atts h msg =
    subst (λ u. Packed limit u (atts ++ record { key = k; payload = [] } ∷ []))
      (with_payload_id (uc_put uc k 0 0))
      (with_payload-Packed limit uc k [] (λ m p. m) atts Fills-nothing h msg)
put_one-Packed limit uc (int k v) atts h msg =
    with_payload-Packed limit uc k (le_bytes 4 v) (λ m p. copy_to m p (le_bytes 4 v)) atts
      (Fills-copy (le_bytes 4 v)) h msg
put_one-Packed limit uc (i64 k v) atts h msg =
    with_payload-Packed limit uc k (le_bytes 8 v) (λ m p. copy_to m p (le_bytes 8 v)) atts
      (Fills-copy (le_bytes 8 v)) h msg
put_one-Packed limit uc (bin k src) atts h msg =
    with_payload-Packed limit uc k src (fill_bin src) atts (Fills-bin src) h msg
put_one-Packed limit uc (str k s) atts h msg =
    with_payload-Packed limit uc k (zstr_payload s) (fill_bin (zstr_payload s)) atts
      (Fills-bin (zstr_payload s)) h msg
put_one-Packed limit uc (strn k s max) atts h msg =
    let ps = take (strnlen s max) s ++ 0 ∷ [] in
    let whole : length ps ≡ strnlen s max + 1 =
      omega (arith, length-append (take (strnlen s max) s) (0 ∷ []), length-take-strnlen s max) in
    rw whole at (with_payload-Packed limit uc k ps (fill_strn s max) atts (Fills-strn s max) h msg)

abbrev pub AllKeys : List Put → Type 0
AllKeys [] = Unit {0}
AllKeys (p ∷ ps) = ((attr_of p).key < 2 ^ 16) × AllKeys ps

put_all-Packed :
    (limit : ℕ) (uc : UcBuf) (ps : List Put) (atts : List Attr)
    → AllKeys ps
    → Packed limit uc atts
    → Packed limit (put_all uc ps) (atts ++ attrs_of ps)
put_all-Packed limit uc [] atts h msg = rw append-nil msg
put_all-Packed limit uc (p ∷ ps) atts h msg = rw append_assoc at (
    put_all-Packed limit (put_one uc p) ps (atts ++ attr_of p ∷ []) h.1
      (put_one-Packed limit uc p atts h.0 msg))

hdr-IsMessage : (uc : UcBuf) (cmd : ℕ) → 4 ≤ uc.len → IsMessage (uc_put_hdr uc cmd) []
unfolding uc_put_hdr
hdr-IsMessage uc cmd h = record { holds = refl; within = h; small = omega arith }

iov_of_message :
    (uc : UcBuf) (atts : List Attr)
    → IsMessage uc atts
    → uc_iov_hdr uc ≡ some (record { base = 2; len = len_of uc.mem 0 - 2 })
unfolding uc_iov_hdr
iov_of_message uc atts msg =
    let size = Holds-size uc.mem 4 (len_of uc.mem 0) atts msg.holds in
    let roomy : ltb uc.len 4 ≡ false = le→ltb uc.len 4 (omega (arith, size, msg.within)) in
    let whole : ltb (len_of uc.mem 0) 4 ≡ false =
      le→ltb (len_of uc.mem 0) 4 (omega (arith, size)) in
    rw (roomy, whole)

iov_of_overflow : (uc : UcBuf) → len_of uc.mem 0 ≡ 0 → uc_iov_hdr uc ≡ none
unfolding uc_iov_hdr
iov_of_overflow uc z = ground arith

-- Whatever is put behind a header, with keys of 16 bits, one of two things holds in the end. Either the buffer holds
-- exactly the attributes that were put, in order, and `uc_iov_hdr` hands all of it but the two
-- bytes of the length to be sent; or they are too long for the buffer or for a 16-bit length, and
-- `uc_iov_hdr` refuses to send anything.
pub put_all_lem :
    (uc : UcBuf) (cmd : ℕ) (ps : List Put)
    → 4 ≤ uc.len
    → AllKeys ps
    → let sent = put_all (uc_put_hdr uc cmd) ps in
      (IsMessage sent (attrs_of ps)
        × (uc_iov_hdr sent ≡ some (record { base = 2; len = len_of sent.mem 0 - 2 })))
      ⊎ (TooLong uc.len (attrs_of ps) × (uc_iov_hdr sent ≡ none))
unfolding uc_put_hdr
put_all_lem uc cmd ps h k = go (put_all-Packed uc.len (uc_put_hdr uc cmd) ps [] k start).packed
  where
    sent : UcBuf
    sent = put_all (uc_put_hdr uc cmd) ps

    start : Packed uc.len (uc_put_hdr uc cmd) []
    start = record { same_cap = refl; packed = inl (hdr-IsMessage uc cmd h) }

    go :
        IsMessage sent (attrs_of ps) ⊎ ((len_of sent.mem 0 ≡ 0) × TooLong uc.len (attrs_of ps))
        → (IsMessage sent (attrs_of ps)
            × (uc_iov_hdr sent ≡ some (record { base = 2; len = len_of sent.mem 0 - 2 })))
          ⊎ (TooLong uc.len (attrs_of ps) × (uc_iov_hdr sent ≡ none))
    go (inl msg) = inl (msg, iov_of_message sent (attrs_of ps) msg)
    go (inr (z, long)) = inr (long, iov_of_overflow sent z)
