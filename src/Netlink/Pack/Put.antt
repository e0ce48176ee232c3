-- ===== src/Netlink/Pack/Put.antt =====
-- Each put adds its attribute behind the others, or marks that it did not fit.
use minibase.Base.{
  ℕ, ◌+◌, ◌*◌, ◌/◌, ◌%◌, ◌^◌, ◌≤◌, ◌<◌, ◌≡◌, ◌⊎◌, inl, inr, refl, sym, ◌∙◌, true, false, none, some,
  List, [], ◌∷◌, ◌++◌, arith, ltb, if◌then◌else◌, Bool-cases, Bytes, length,
}
use minibase.Base.Memory.{Memory, copy_to, copy_to-before, load-copy_to}
use minibase.Nlusctl.Field.{
  put16, le_bytes, align4, get16-put16, put16-other, get16_cong, get16-put16_other,
}
use minibase.Nlusctl.Layout.{
  Attr, HoldsOne, Holds, Holds-ext, Holds-size, Holds-append, total_size, total_size-concat,
}
use minibase.Netlink.Pack.{NcBuf, nc_put_, with_data}

-- The attributes stand from `first` to `ptr`.
pub record IsPacked (first : ℕ) (nc : NcBuf) (atts : List Attr) : Type 0 where
  pub holds : Holds nc.mem first nc.ptr atts
  pub header_in : nc.brk + 16 ≤ first
  pub within : nc.ptr ≤ nc.end

-- where there is room for `len` bytes behind the header of an attribute
placed : NcBuf → ℕ → ℕ → Memory
placed nc key len =
    let full = 4 + len in
    let m1 =
      if ltb full (align4 full)
      then copy_to nc.mem (nc.ptr + full / 4 * 4) (le_bytes 4 0)
      else nc.mem in
    put16 (put16 m1 (nc.ptr + 2) (key % 2 ^ 16)) nc.ptr (full % 2 ^ 16)

nc_put_-room :
    (nc : NcBuf) (key len : ℕ)
    → nc.brk + 16 ≤ nc.ptr
    → nc.ptr + align4 (4 + len) ≤ nc.end
    → nc_put_ nc key len ≡ record {
      nc = record nc { mem = placed nc key len; ptr = nc.ptr + align4 (4 + len) };
      at = some (nc.ptr + 4);
    }
unfolding nc_put_ placed
nc_put_-room nc key len behind room =
    let a : ltb nc.end nc.ptr ≡ false = ground arith in
    let b : ltb nc.ptr nc.brk ≡ false = ground arith in
    let c : ltb nc.end (nc.ptr + align4 (4 + len)) ≡ false = ground arith in
    let d : ltb (nc.ptr + align4 (4 + len)) (nc.brk + 16) ≡ false = ground arith in
    rw (a, b, c, d) refl

nc_put_-full :
    (nc : NcBuf) (key len : ℕ)
    → nc.brk + 16 ≤ nc.ptr
    → nc.ptr ≤ nc.end
    → nc.end < nc.ptr + align4 (4 + len)
    → nc_put_ nc key len ≡ record { nc = record nc { ptr = nc.end + 1 }; at = none }
unfolding nc_put_
nc_put_-full nc key len behind in_it full =
    let a : ltb nc.end nc.ptr ≡ false = ground arith in
    let b : ltb nc.ptr nc.brk ≡ false = ground arith in
    let c : ltb nc.end (nc.ptr + align4 (4 + len)) ≡ true = ground arith in rw (a, b, c) refl

nc_put_-over :
    (nc : NcBuf) (key len : ℕ)
    → nc.ptr ≡ nc.end + 1
    → nc_put_ nc key len ≡ record { nc = nc; at = none }
unfolding nc_put_
nc_put_-over nc key len over = let a : ltb nc.end nc.ptr ≡ true = ground arith in rw a refl

placed-before : (nc : NcBuf) (key len a : ℕ) → a < nc.ptr → placed nc key len a ≡ nc.mem a
unfolding placed
placed-before nc key len a h =
    let full = 4 + len in
    let m1 =
      if ltb full (align4 full)
      then copy_to nc.mem (nc.ptr + full / 4 * 4) (le_bytes 4 0)
      else nc.mem in
    put16-other (put16 m1 (nc.ptr + 2) (key % 2 ^ 16)) nc.ptr (full % 2 ^ 16) a (inl h)
    ∙ put16-other m1 (nc.ptr + 2) (key % 2 ^ 16) a (inl (omega arith))
    ∙ elim (Bool-cases (ltb full (align4 full))) [
      | inl padded ↦
          rw padded (copy_to-before nc.mem (nc.ptr + full / 4 * 4) a (le_bytes 4 0) (omega arith))
      | inr whole ↦ rw whole refl
    ]

module _ (nc : NcBuf) (key : ℕ) (text : Bytes) (small : 4 + length text < 2 ^ 16)
    (small_key : key < 2 ^ 16) where
  after : Memory
  after = copy_to (placed nc key (length text)) (nc.ptr + 4) text

  header_kept : (a : ℕ) → a < nc.ptr + 4 → after a ≡ placed nc key (length text) a
  unfolding after
  header_kept a h = copy_to-before (placed nc key (length text)) (nc.ptr + 4) a text h

  new_attr : HoldsOne after nc.ptr (record { key = key; payload = text })
  unfolding after placed
  new_attr =
      let full = 4 + length text in
      let m1 =
        if ltb full (align4 full)
        then copy_to nc.mem (nc.ptr + full / 4 * 4) (le_bytes 4 0)
        else nc.mem in
      let m2 = put16 m1 (nc.ptr + 2) (key % 2 ^ 16) in
      let m3 = placed nc key (length text) in
      record {
        len_is =
            get16_cong after m3 nc.ptr (header_kept nc.ptr (omega arith))
              (header_kept (nc.ptr + 1) (omega arith))
            ∙ get16-put16 m2 nc.ptr (full % 2 ^ 16) (omega arith)
            ∙ (omega (arith, small));
        key_is =
            get16_cong after m3 (nc.ptr + 2) (header_kept (nc.ptr + 2) (omega arith))
              (header_kept (nc.ptr + 2 + 1) (omega arith))
            ∙ get16-put16_other m2 nc.ptr (full % 2 ^ 16) (nc.ptr + 2) (inr (omega arith))
            ∙ get16-put16 m1 (nc.ptr + 2) (key % 2 ^ 16) (omega arith)
            ∙ (omega (arith, small_key));
        payload_is = load-copy_to m3 (nc.ptr + 4) text;
      }

  put-IsPacked :
      (first : ℕ) (atts : List Attr)
      → IsPacked first nc atts
      → nc.ptr + align4 (4 + length text) ≤ nc.end
      → IsPacked first
          (record nc { mem = after; ptr = nc.ptr + align4 (4 + length text) })
          (atts ++ record { key = key; payload = text } ∷ [])
  unfolding after
  put-IsPacked first atts p room = record {
    holds =
        Holds-append after first nc.ptr (nc.ptr + align4 (4 + length text)) atts
          (record { key = key; payload = text } ∷ [])
          (Holds-ext nc.mem after first nc.ptr atts
            (λ a lo hi. sym (header_kept a (omega arith) ∙ placed-before nc key (length text) a hi))
            p.holds)
          (new_attr, omega arith);
    header_in = p.header_in;
    within = room;
  }

-- The attributes stand there, or they did not fit, and that is marked.
pub record Packed (first brk end : ℕ) (nc : NcBuf) (atts : List Attr) : Type 0 where
  pub same_brk : nc.brk ≡ brk
  pub same_end : nc.end ≡ end
  pub packed : IsPacked first nc atts ⊎ ((nc.ptr ≡ end + 1) × (end < first + total_size atts))

pub with_data-Packed :
    (first brk end : ℕ) (nc : NcBuf) (key : ℕ) (text : Bytes) (atts : List Attr)
    → 4 + length text < 2 ^ 16
    → key < 2 ^ 16
    → Packed first brk end nc atts
    → Packed first brk end
        (with_data (nc_put_ nc key (length text)) text)
        (atts ++ record { key = key; payload = text } ∷ [])
unfolding after
with_data-Packed first brk end nc key text atts small small_key p = go p.packed
  where
    a : Attr
    a = record { key = key; payload = text }

    go :
        IsPacked first nc atts ⊎ ((nc.ptr ≡ end + 1) × (end < first + total_size atts))
        → Packed first brk end (with_data (nc_put_ nc key (length text)) text) (atts ++ a ∷ [])
    go (inr (over, long)) =
        rw (nc_put_-over nc key (length text) (omega (arith, over, p.same_end))) (record {
          same_brk = p.same_brk;
          same_end = p.same_end;
          packed = inr (over, omega (arith, total_size-concat atts a, long));
        })
    go (inl msg) =
        let size = Holds-size nc.mem first nc.ptr atts msg.holds in
        let behind : nc.brk + 16 ≤ nc.ptr = omega (arith, size, msg.header_in) in
        elim (Bool-cases (ltb nc.end (nc.ptr + align4 (4 + length text)))) [
          | inl full ↦
              rw (nc_put_-full nc key (length text) behind msg.within (ground (arith, full)))
                (record {
                  same_brk = p.same_brk;
                  same_end = p.same_end;
                  packed = inr (
                    omega (arith, p.same_end),
                    ground (arith, total_size-concat atts a, size, full, p.same_end),
                  );
                })
          | inr room ↦
              let fits : nc.ptr + align4 (4 + length text) ≤ nc.end = ground (arith, room) in
              rw (nc_put_-room nc key (length text) behind fits) (record {
                same_brk = p.same_brk;
                same_end = p.same_end;
                packed = inl (put-IsPacked nc key text small small_key first atts msg fits);
              })
        ]
