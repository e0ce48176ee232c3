-- ===== src/Nlusctl/Layout.antt =====
-- What a message means: the list of its attributes, and how they lie in memory.
use mathlib.Core.Path.{subst}
use minibase.Base.{
  ℕ, ◌+◌, ◌≤◌, ◌<◌, ◌≡◌, sym, ◌∙◌, List, [], ◌∷◌, ◌++◌, arith, Bytes, length, Option, none, some,
  ◌==◌, if◌then◌else◌,
}
use minibase.Base.Memory.{Memory, load, load_ext}
use minibase.Nlusctl.Field.{align4, len_of, key_of, get16_cong}

pub record Attr : Type 0 where
  pub key : ℕ
  pub payload : Bytes

-- the bytes that an attribute takes, padding included
abbrev pub attr_size : Attr → ℕ
attr_size a = 4 + align4 (length a.payload)

abbrev pub total_size : List Attr → ℕ
total_size [] = 0
total_size (a ∷ atts) = attr_size a + total_size atts

-- `a` stands at `ptr`.
pub record HoldsOne (m : Memory) (ptr : ℕ) (a : Attr) : Type 0 where
  pub len_is : len_of m ptr ≡ 4 + length a.payload
  pub key_is : key_of m ptr ≡ a.key
  pub payload_is : load m (ptr + 4) (length a.payload) ≡ a.payload

-- The attributes stand one behind the other from `ptr` to `end`, each at a multiple of four bytes
-- from the first.
abbrev pub Holds : Memory → ℕ → ℕ → List Attr → Type 0
Holds m ptr end [] = ptr ≡ end
Holds m ptr end (a ∷ atts) = HoldsOne m ptr a × Holds m (ptr + attr_size a) end atts

-- The first attribute with the key.
abbrev pub find_attr : ℕ → List Attr → Option Attr
find_attr key [] = none
find_attr key (a ∷ atts) = if a.key == key then some a else find_attr key atts

pub Holds-size :
    (m : Memory) (ptr end : ℕ) (atts : List Attr)
    → Holds m ptr end atts
    → ptr + total_size atts ≡ end
Holds-size m ptr end [] h = omega arith
Holds-size m ptr end (a ∷ atts) h = omega (arith, Holds-size m (ptr + attr_size a) end atts h.1)

pub HoldsOne-ext :
    (m m' : Memory) (ptr : ℕ) (a : Attr)
    → ((x : ℕ) → ptr ≤ x → x < ptr + attr_size a → m x ≡ m' x)
    → HoldsOne m ptr a
    → HoldsOne m' ptr a
HoldsOne-ext m m' ptr a same h = record {
  len_is =
      get16_cong m' m ptr (sym (same ptr (omega arith) (omega arith)))
        (sym (same (ptr + 1) (omega arith) (omega arith)))
      ∙ h.len_is;
  key_is =
      get16_cong m' m (ptr + 2) (sym (same (ptr + 2) (omega arith) (omega arith)))
        (sym (same (ptr + 2 + 1) (omega arith) (omega arith)))
      ∙ h.key_is;
  payload_is =
      load_ext m' m (ptr + 4) (length a.payload)
        (λ x lo hi. sym (same x (omega arith) (omega arith)))
      ∙ h.payload_is;
}

-- What lies outside does not matter.
pub Holds-ext :
    (m m' : Memory) (ptr end : ℕ) (atts : List Attr)
    → ((x : ℕ) → ptr ≤ x → x < end → m x ≡ m' x)
    → Holds m ptr end atts
    → Holds m' ptr end atts
Holds-ext m m' ptr end [] same h = h
Holds-ext m m' ptr end (a ∷ atts) same h =
    let size = Holds-size m (ptr + attr_size a) end atts h.1 in
    (
      HoldsOne-ext m m' ptr a (λ x lo hi. same x lo (omega (arith, size))) h.0,
      Holds-ext m m' (ptr + attr_size a) end atts (λ x lo hi. same x (omega arith) hi) h.1,
    )

pub Holds-append :
    (m : Memory) (p q r : ℕ) (atts bs : List Attr)
    → Holds m p q atts
    → Holds m q r bs
    → Holds m p r (atts ++ bs)
Holds-append m p q r [] bs h k = subst (λ x. Holds m x r bs) (sym h) k
Holds-append m p q r (a ∷ atts) bs h k = (h.0, Holds-append m (p + attr_size a) q r atts bs h.1 k)

pub total_size-concat :
    (atts : List Attr) (a : Attr) → total_size (atts ++ a ∷ []) ≡ total_size atts + attr_size a
total_size-concat [] a = omega arith
total_size-concat (b ∷ atts) a = omega (arith, total_size-concat atts a)
