-- ===== src/Nlusctl/Pack/Put.antt =====
-- Every put adds its attribute behind the others, or marks the whole message as overflowed.
use minibase.Base.{
  ℕ, ◌+◌, ◌%◌, ◌^◌, ◌≤◌, ◌<◌, ◌≡◌, ◌≢◌, ◌⊎◌, inl, inr, sym, ◌∙◌, Bool, true, false, none, some,
  List, [], ◌∷◌, ◌++◌, arith, ltb, ◌==◌, if◌then◌else◌, Bool-cases, Bytes, length,
}
use minibase.Base.Memory.{Memory, load}
use minibase.Nlusctl.Field.{
  put16, align4, len_of, get16-put16, put16-other, get16_cong, get16-put16_other,
}
use minibase.Nlusctl.Layout.{
  Attr, HoldsOne, Holds, Holds-ext, Holds-size, Holds-append, total_size, total_size-concat,
}
use minibase.Nlusctl.Pack.{UcBuf, set_mem, uc_put, with_payload}

-- The buffer holds a message of these attributes.
pub record IsMessage (uc : UcBuf) (atts : List Attr) : Type 0 where
  pub holds : Holds uc.mem 4 (len_of uc.mem 0) atts
  pub within : len_of uc.mem 0 ≤ uc.len
  pub small : len_of uc.mem 0 ≤ 0xFFFF

-- there is room for a header and `alloc` more bytes
abbrev pub fits : UcBuf → ℕ → Bool
fits uc alloc =
    let new = len_of uc.mem 0 + (4 + alloc) in
    if ltb 0xFFFF new then false else if ltb uc.len new then false else true

-- what `uc_put` leaves where there is room
abbrev placed : UcBuf → ℕ → ℕ → ℕ → Memory
placed uc key len alloc =
    let ptr = len_of uc.mem 0 in
    put16 (put16 (put16 uc.mem 0 (ptr + (4 + alloc))) (ptr + 2) (key % 2 ^ 16)) ptr
      ((len + 4) % 2 ^ 16)

pub uc_put-fits :
    (uc : UcBuf) (key len alloc : ℕ)
    → len_of uc.mem 0 ≢ 0
    → fits uc alloc ≡ true
    → uc_put uc key len alloc
      ≡ record { uc = set_mem uc (placed uc key len alloc); at = some (len_of uc.mem 0) }
unfolding uc_put
uc_put-fits uc key len alloc ne h =
    let new = len_of uc.mem 0 + (4 + alloc) in
    let started : (len_of uc.mem 0 == 0) ≡ false = ground arith in
    let small : ltb 0xFFFF new ≡ false = ground arith in
    let inside : ltb uc.len new ≡ false = ground arith in
    let whole : ltb uc.len (4 + alloc) ≡ false = ground arith in
    let grown : (new == 0) ≡ false = ground arith in rw (started, whole, grown, small, inside)

pub uc_put_over :
    (uc : UcBuf) (key len alloc : ℕ)
    → len_of uc.mem 0 ≢ 0
    → fits uc alloc ≡ false
    → uc_put uc key len alloc ≡ record { uc = set_mem uc (put16 uc.mem 0 0); at = none }
unfolding uc_put
uc_put_over uc key len alloc ne h =
    let started : (len_of uc.mem 0 == 0) ≡ false = ground arith in rw started (ground arith)

-- what `fill` stores behind the header
pub record Fills (fill : Memory → ℕ → Memory) (ps : Bytes) : Type 0 where
  pub stored : (m : Memory) (p : ℕ) → load (fill m p) p (length ps) ≡ ps
  pub before : (m : Memory) (p a : ℕ) → a < p → fill m p a ≡ m a

module _ (uc : UcBuf) (key : ℕ) (ps : Bytes) (fill : Memory → ℕ → Memory) (f : Fills fill ps)
    (atts : List Attr) (msg : IsMessage uc atts) (room : fits uc (align4 (length ps)) ≡ true)
    (small_key : key < 2 ^ 16) where
  ptr : ℕ
  ptr = len_of uc.mem 0

  after : Memory
  after = fill (placed uc key (length ps) (align4 (length ps))) (ptr + 4)

  bounds :
      (4 ≤ ptr)
      × (ptr + (4 + align4 (length ps)) ≤ uc.len)
      × (ptr + (4 + align4 (length ps)) ≤ 0xFFFF)
  unfolding ptr
  bounds = let size = Holds-size uc.mem 4 (len_of uc.mem 0) atts msg.holds in ground (arith, size)

  header_kept : (a : ℕ) → a < ptr + 4 → after a ≡ placed uc key (length ps) (align4 (length ps)) a
  unfolding after ptr
  header_kept a h =
      f.before (placed uc key (length ps) (align4 (length ps))) (len_of uc.mem 0 + 4) a h

  -- below the new attribute only the length of the message has changed
  kept : (a : ℕ) → 4 ≤ a → a < ptr → uc.mem a ≡ after a
  unfolding ptr
  kept a lo hi =
      let m1 = put16 uc.mem 0 (len_of uc.mem 0 + (4 + align4 (length ps))) in
      let m2 = put16 m1 (len_of uc.mem 0 + 2) (key % 2 ^ 16) in
      sym (
        header_kept a (omega arith)
        ∙ put16-other m2 (len_of uc.mem 0) ((length ps + 4) % 2 ^ 16) a (inl hi)
        ∙ put16-other m1 (len_of uc.mem 0 + 2) (key % 2 ^ 16) a (inl (omega arith))
        ∙ put16-other uc.mem 0 (len_of uc.mem 0 + (4 + align4 (length ps))) a (inr (omega arith)))

  new_length : len_of after 0 ≡ ptr + (4 + align4 (length ps))
  unfolding ptr
  new_length =
      let new = len_of uc.mem 0 + (4 + align4 (length ps)) in
      let m1 = put16 uc.mem 0 new in
      let m2 = put16 m1 (len_of uc.mem 0 + 2) (key % 2 ^ 16) in
      get16_cong after (placed uc key (length ps) (align4 (length ps))) 0
        (header_kept 0 (omega arith)) (header_kept (0 + 1) (omega (arith, bounds)))
      ∙ get16-put16_other m2 (len_of uc.mem 0) ((length ps + 4) % 2 ^ 16) 0 (omega (arith, bounds))
      ∙ get16-put16_other m1 (len_of uc.mem 0 + 2) (key % 2 ^ 16) 0 (omega (arith, bounds))
      ∙ get16-put16 uc.mem 0 new (omega (arith, bounds))

  new_attr : HoldsOne after ptr (record { key = key; payload = ps })
  unfolding ptr after
  new_attr =
      let new = len_of uc.mem 0 + (4 + align4 (length ps)) in
      let m1 = put16 uc.mem 0 new in
      let m2 = put16 m1 (len_of uc.mem 0 + 2) (key % 2 ^ 16) in
      let m3 = placed uc key (length ps) (align4 (length ps)) in
      record {
        len_is =
            get16_cong after m3 (len_of uc.mem 0) (header_kept (len_of uc.mem 0) (omega arith))
              (header_kept (len_of uc.mem 0 + 1) (omega arith))
            ∙ get16-put16 m2 (len_of uc.mem 0) ((length ps + 4) % 2 ^ 16) (omega arith)
            ∙ (omega (arith, bounds));
        key_is =
            get16_cong after m3 (len_of uc.mem 0 + 2)
              (header_kept (len_of uc.mem 0 + 2) (omega arith))
              (header_kept (len_of uc.mem 0 + 2 + 1) (omega arith))
            ∙ get16-put16_other m2 (len_of uc.mem 0) ((length ps + 4) % 2 ^ 16)
                (len_of uc.mem 0 + 2) (inr (omega arith))
            ∙ get16-put16 m1 (len_of uc.mem 0 + 2) (key % 2 ^ 16) (omega arith)
            ∙ (omega arith);
        payload_is = f.stored m3 (len_of uc.mem 0 + 4);
      }

  pub with_payload-IsMessage :
      IsMessage
        (with_payload (uc_put uc key (length ps) (align4 (length ps))) fill)
        (atts ++ record { key = key; payload = ps } ∷ [])
  unfolding ptr after
  with_payload-IsMessage =
      rw (uc_put-fits uc key (length ps) (align4 (length ps)) (omega (arith, bounds)) room)
        (record {
          holds =
              Holds-append after 4 (len_of uc.mem 0) (len_of after 0) atts
                (record { key = key; payload = ps } ∷ [])
                (Holds-ext uc.mem after 4 (len_of uc.mem 0) atts kept msg.holds)
                (new_attr, sym new_length);
          within = omega (arith, new_length, bounds);
          small = omega (arith, new_length, bounds);
        })

-- The attributes and the header are more than a buffer of `limit` bytes, or a 16-bit length, can take.
abbrev pub TooLong : ℕ → List Attr → Type 0
TooLong limit atts = (limit < 4 + total_size atts) ⊎ (0xFFFF < 4 + total_size atts)

-- the message of these attributes, or one that is marked as overflowed, and rightly so
pub record Packed (limit : ℕ) (uc : UcBuf) (atts : List Attr) : Type 0 where
  pub same_cap : uc.len ≡ limit
  pub packed : IsMessage uc atts ⊎ ((len_of uc.mem 0 ≡ 0) × TooLong limit atts)

unfits :
    (uc : UcBuf) (alloc : ℕ)
    → fits uc alloc ≡ false
    → (uc.len < len_of uc.mem 0 + (4 + alloc)) ⊎ (0xFFFF < len_of uc.mem 0 + (4 + alloc))
unfits uc alloc h = ground arith

over_marks : (uc : UcBuf) → len_of (put16 uc.mem 0 0) 0 ≡ 0
over_marks uc = get16-put16 uc.mem 0 0 (omega arith)

pub uc_put_skip :
    (uc : UcBuf) (key len alloc : ℕ)
    → len_of uc.mem 0 ≡ 0
    → uc_put uc key len alloc ≡ record { uc = uc; at = none }
unfolding uc_put
uc_put_skip uc key len alloc z =
    let skipped : (len_of uc.mem 0 == 0) ≡ true = ground arith in rw skipped

pub with_payload-Packed :
    (limit : ℕ) (uc : UcBuf) (key : ℕ) (ps : Bytes) (fill : Memory → ℕ → Memory) (atts : List Attr)
    → Fills fill ps
    → key < 2 ^ 16
    → Packed limit uc atts
    → Packed limit
        (with_payload (uc_put uc key (length ps) (align4 (length ps))) fill)
        (atts ++ record { key = key; payload = ps } ∷ [])
with_payload-Packed limit uc key ps fill atts f k p = go p.packed
  where
    a : Attr
    a = record { key = key; payload = ps }

    go :
        IsMessage uc atts ⊎ ((len_of uc.mem 0 ≡ 0) × TooLong limit atts)
        → Packed limit
            (with_payload (uc_put uc key (length ps) (align4 (length ps))) fill)
            (atts ++ a ∷ [])
    go (inr (z, long)) = rw (uc_put_skip uc key (length ps) (align4 (length ps)) z) (record {
      same_cap = p.same_cap;
      packed = inr (z, omega (arith, total_size-concat atts a, long));
    })
    go (inl msg) =
        let size = Holds-size uc.mem 4 (len_of uc.mem 0) atts msg.holds in
        elim (Bool-cases (fits uc (align4 (length ps)))) [
          | inl room ↦ record {
            same_cap =
                rw (uc_put-fits uc key (length ps) (align4 (length ps)) (omega (arith, size)) room)
                  p.same_cap;
            packed = inl (with_payload-IsMessage uc key ps fill f atts msg room k);
          }
          | inr over ↦
              rw (uc_put_over uc key (length ps) (align4 (length ps)) (omega (arith, size)) over)
                (record {
                  same_cap = p.same_cap;
                  packed = inr (
                    over_marks uc,
                    omega (
                      arith,
                      total_size-concat atts a,
                      size,
                      p.same_cap,
                      unfits uc (align4 (length ps)) over,
                    ),
                  );
                })
        ]
