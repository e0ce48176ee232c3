-- ===== src/Nlusctl/Field.antt =====
-- The fields of a message in memory. Addresses count from the start of the message (`uc->buf`),
-- and integers are little-endian, as on the x86, ARM and RISC-V targets.
use mathlib.Core.Path.{ap₂}
use minibase.Base.{
  ℕ, zero, suc, ◌+◌, ◌*◌, ◌/◌, ◌%◌, ◌^◌, ◌≤◌, ◌<◌, ◌≡◌, refl, ap, ◌⊎◌, [], ◌∷◌, arith, Bytes,
  length,
}
use minibase.Base.Memory.{Memory, store}

-- a uint16_t field
abbrev pub get16 : Memory → ℕ → ℕ
get16 m a = m a + 256 * m (a + 1)

abbrev pub put16 : Memory → ℕ → ℕ → Memory
put16 m a v = store (store m a (v % 256)) (a + 1) (v / 256 % 256)

-- the `n` bytes of a word
abbrev pub le_bytes : ℕ → ℕ → Bytes
le_bytes zero v = []
le_bytes (suc n) v = (v % 256) ∷ le_bytes n (v / 256)

-- sizeof(struct ucattr)
abbrev pub header_size : ℕ
header_size = 4

-- (n + 3) & ~3
abbrev pub align4 : ℕ → ℕ
align4 n = (n + 3) / 4 * 4

-- `at->len` and `at->key`
abbrev pub len_of : Memory → ℕ → ℕ
len_of m at = get16 m at

abbrev pub key_of : Memory → ℕ → ℕ
key_of m at = get16 m (at + 2)

pub get16-put16 : (m : Memory) (a v : ℕ) → v < 2 ^ 16 → get16 (put16 m a v) a ≡ v
get16-put16 m a v h = ground arith

pub put16-other : (m : Memory) (a v b : ℕ) → (b < a) ⊎ (a + 2 ≤ b) → put16 m a v b ≡ m b
put16-other m a v b h = ground arith

pub get16_cong :
    (m m' : Memory) (a : ℕ) → m a ≡ m' a → m (a + 1) ≡ m' (a + 1) → get16 m a ≡ get16 m' a
get16_cong m m' a e f = ap₂ (λ x y. x + 256 * y) e f

pub length-le_bytes : (n v : ℕ) → length (le_bytes n v) ≡ n
length-le_bytes zero v = refl
length-le_bytes (suc n) v = ap suc (length-le_bytes n (v / 256))

pub get16-put16_other :
    (m : Memory) (a v b : ℕ) → (b + 2 ≤ a) ⊎ (a + 2 ≤ b) → get16 (put16 m a v) b ≡ get16 m b
get16-put16_other m a v b h =
    get16_cong (put16 m a v) m b (put16-other m a v b (omega arith))
      (put16-other m a v (b + 1) (omega arith))
