-- ===== src/Format/Write/Sound.antt =====
-- The forward formatters append their text at `p`, cut off at `e`.
use minibase.Base.{
  ℕ, zero, suc, ◌+◌, ◌-◌, ◌/◌, ◌%◌, ◌≤◌, ◌≡◌, refl, sym, ap, ◌∙◌, inl, inr, false, [], ◌∷◌, ◌++◌,
  arith, ltb, leb, ◌==◌, ltb→lt, ltb→le, lt→ltb, if◌then◌else◌, Bool-cases, Bytes, length, take,
  length-take,
}
use minibase.Base.Memory.{Memory, store, copy_to}
use minibase.Format.Put.{Out, put, put_full, put-append}
use minibase.Format.Write.{
  hex_digit, fmtchar, fmtbyte, fmtbytes, fmtmac_rest, Mac, fmtmac, fmtraw, strnlen, fmtstr, fmtstrn,
}

-- the two digits of a byte
abbrev pub hex_pair : ℕ → Bytes
hex_pair c = hex_digit (c / 16 % 16) ∷ hex_digit (c % 16) ∷ []

abbrev pub hex_pairs : Bytes → Bytes
hex_pairs [] = []
hex_pairs (c ∷ cs) = hex_pair c ++ hex_pairs cs

pub fmtchar-put : (m : Memory) (p e c : ℕ) → fmtchar m p e c ≡ put m p e (c ∷ [])
unfolding fmtchar
fmtchar-put m p e c = refl

pub fmtbyte-put : (m : Memory) (p e c : ℕ) → fmtbyte m p e c ≡ put m p e (hex_pair c)
unfolding fmtbyte
fmtbyte-put m p e c = elim (Bool-cases (ltb p e)) [ inl h ↦ rw h | inr h ↦ rw (h, h) ]

pub fmtbytes-put :
    (m : Memory) (p e : ℕ) (vs : Bytes) → fmtbytes m p e vs ≡ put m p e (hex_pairs vs)
unfolding fmtbytes
fmtbytes-put m p e [] = refl
fmtbytes-put m p e (v ∷ vs) = rw (fmtbyte-put m p e v) (
    fmtbytes-put (put m p e (hex_pair v)).mem (put m p e (hex_pair v)).ptr e vs
    ∙ put-append m p e (hex_pair v) (hex_pairs vs))

pub put-copy_to :
    (m : Memory) (p e n : ℕ) (src : Bytes)
    → n ≤ e - p
    → n ≤ length src
    → put m p e (take n src) ≡ record { mem = copy_to m p (take n src); ptr = p + n }
put-copy_to m p e zero src h k = ground arith
put-copy_to m p e (suc n) [] h k = absurd (omega arith)
put-copy_to m p e (suc n) (c ∷ cs) h k =
    rw (lt→ltb p e (omega arith))
      (put-copy_to (store m p c) (p + 1) e n cs (omega arith) (omega arith) ∙ ground arith)

-- the digits of each byte behind a colon
abbrev pub colon_pairs : Bytes → Bytes
colon_pairs [] = []
colon_pairs (c ∷ cs) = b':' ∷ (hex_pair c ++ colon_pairs cs)

fmtmac_rest-put :
    (m : Memory) (p e : ℕ) (vs : Bytes) → fmtmac_rest m p e vs ≡ put m p e (colon_pairs vs)
unfolding fmtmac_rest
fmtmac_rest-put m p e [] = refl
fmtmac_rest-put m p e (v ∷ vs) =
    rw
      (
        fmtchar-put m p e b':',
        fmtbyte-put (put m p e (b':' ∷ [])).mem (put m p e (b':' ∷ [])).ptr e v,
        put-append m p e (b':' ∷ []) (hex_pair v),
      )
      (fmtmac_rest-put (put m p e (b':' ∷ hex_pair v)).mem (put m p e (b':' ∷ hex_pair v)).ptr e vs
        ∙ put-append m p e (b':' ∷ hex_pair v) (colon_pairs vs))

pub fmtmac-put :
    (m : Memory) (p e : ℕ) (mac : Mac)
    → fmtmac m p e mac ≡ put m p e (hex_pair mac.first ++ colon_pairs mac.rest)
unfolding fmtmac
fmtmac-put m p e mac = rw (fmtbyte-put m p e mac.first) (
    fmtmac_rest-put (put m p e (hex_pair mac.first)).mem (put m p e (hex_pair mac.first)).ptr e
      mac.rest
    ∙ put-append m p e (hex_pair mac.first) (colon_pairs mac.rest))

-- What does not fit may be cut off beforehand.
put-take : (m : Memory) (p e k : ℕ) (cs : Bytes) → e - p ≤ k → put m p e (take k cs) ≡ put m p e cs
put-take m p e zero cs h = sym (put_full m p e cs (omega arith))
put-take m p e (suc k) [] h = refl
put-take m p e (suc k) (c ∷ cs) h = elim (Bool-cases (ltb p e)) [
  | inl lt ↦ rw lt (put-take (store m p c) (p + 1) e k cs (omega arith))
  | inr ge ↦ rw ge
]

copied : Memory → ℕ → Bytes → ℕ → Out
copied m p src n =
    if n == 0
    then record { mem = m; ptr = p }
    else record { mem = copy_to m p (take n src); ptr = p + n }

copied-put :
    (m : Memory) (p e n : ℕ) (src : Bytes)
    → n ≤ e - p
    → n ≤ length src
    → copied m p src n ≡ put m p e (take n src)
unfolding copied
copied-put m p e zero src h k = refl
copied-put m p e (suc n) src h k =
    let nonzero : (suc n == 0) ≡ false = ground arith in
    rw nonzero (sym (put-copy_to m p e (suc n) src h k))

-- `fmtraw` appends the first `len` bytes of an array that has as many, cut off at `e`.
pub fmtraw-put :
    (m : Memory) (p e : ℕ) (src : Bytes) (len : ℕ)
    → len ≤ length src
    → fmtraw m p e src len ≡ put m p e (take len src)
unfolding fmtraw copied
fmtraw-put m p e src len h = elim (Bool-cases (ltb (e - p) len)) [
  | inl lt ↦ rw lt (
      copied-put m p e (e - p) src (omega arith) (omega (arith, ltb→lt (e - p) len lt))
      ∙ put-take m p e (e - p) src (omega arith)
      ∙ sym (put-take m p e len src (omega (arith, ltb→lt (e - p) len lt))))
  | inr ge ↦ rw ge (copied-put m p e len src (omega (arith, ltb→le (e - p) len ge)) h)
]

-- a C string stops at its first NUL
abbrev pub until_nul : Bytes → Bytes
until_nul [] = []
until_nul (c ∷ cs) = if c == 0 then [] else c ∷ until_nul cs

pub strnlen-le : (cs : Bytes) (max : ℕ) → strnlen cs max ≤ length cs
unfolding strnlen
strnlen-le [] max = omega arith
strnlen-le (c ∷ cs) zero = omega arith
strnlen-le (c ∷ cs) (suc max) = ground (arith, strnlen-le cs max)

take-strnlen : (cs : Bytes) (max : ℕ) → take (strnlen cs max) cs ≡ take max (until_nul cs)
unfolding strnlen
take-strnlen [] zero = refl
take-strnlen [] (suc max) = refl
take-strnlen (c ∷ cs) zero = refl
take-strnlen (c ∷ cs) (suc max) = elim (Bool-cases (c == 0)) [
  | inl z ↦ rw z
  | inr nz ↦ rw nz (ap (◌∷◌ c) (take-strnlen cs max))
]

-- `fmtstrn` appends the bytes before the first NUL, `len` of them at most, cut off at `e`.
pub fmtstrn-put :
    (m : Memory) (p e : ℕ) (src : Bytes) (len : ℕ)
    → fmtstrn m p e src len ≡ put m p e (take len (until_nul src))
unfolding fmtstrn
fmtstrn-put m p e src len =
    fmtraw-put m p e src (strnlen src len) (strnlen-le src len)
    ∙ ap (put m p e) (take-strnlen src len)

-- `fmtstr` appends a C string, cut off at `e`.
pub fmtstr-put : (m : Memory) (p e : ℕ) (str : Bytes) → fmtstr m p e str ≡ put m p e (until_nul str)
unfolding fmtstr
fmtstr-put m p e str = elim (Bool-cases (leb e p)) [
  | inl full ↦ rw full (sym (put_full m p e (until_nul str) (ground arith)))
  | inr room ↦ rw room (
      fmtraw-put m p e str (strnlen str (e - p)) (strnlen-le str (e - p))
      ∙ ap (put m p e) (take-strnlen str (e - p))
      ∙ put-take m p e (e - p) (until_nul str) (omega arith))
]

pub length-take-strnlen :
    (cs : Bytes) (max : ℕ) → length (take (strnlen cs max) cs) ≡ strnlen cs max
length-take-strnlen cs max = omega (arith, length-take (strnlen cs max) cs, strnlen-le cs max)
