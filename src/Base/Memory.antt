-- ===== src/Base/Memory.antt =====
-- Memory as the C code sees it: a byte for each address. Addresses do not wrap.
use Prim.Native.Nat.{ℕ, zero, suc, ◌+◌, ◌-◌, ◌≤◌, ◌<◌, min}
use mathlib.Core.Path.{◌≡◌, refl, ap, ap₂, fun_ext, ◌∙◌}
use mathlib.Core.Logic.{◌≢◌, ◌⊎◌, inl, inr}
use mathlib.Core.List.{[], ◌∷◌, ◌++◌}
use native.Mathlib.Omega.{arith}
use minibase.Base.Tests.{◌==◌, ==_iff, if◌then◌else◌, Bool-cases}
use minibase.Base.Lists.{Bytes, length, take, drop}

abbrev pub Memory : Type 0
Memory = ℕ → ℕ

-- `*p = v`
abbrev pub store : Memory → ℕ → ℕ → Memory
store m p v a = if a == p then v else m a

-- the `n` bytes from `p` on
abbrev pub load : Memory → ℕ → ℕ → Bytes
load m p zero = []
load m p (suc n) = m p ∷ load m (p + 1) n

-- `memcpy(p, src, length src)`
abbrev pub copy_to : Memory → ℕ → Bytes → Memory
copy_to m p [] = m
copy_to m p (c ∷ cs) = copy_to (store m p c) (p + 1) cs

-- Memory outside `[lo, hi)` is the same.
abbrev pub Frame : ℕ → ℕ → Memory → Memory → Type 0
Frame lo hi m m' = (a : ℕ) → (a < lo) ⊎ (hi ≤ a) → m' a ≡ m a

pub length-load : (m : Memory) (p n : ℕ) → length (load m p n) ≡ n
length-load m p zero = refl
length-load m p (suc n) = ap suc (length-load m (p + 1) n)

pub load_ext :
    (m m' : Memory) (p n : ℕ)
    → ((a : ℕ) → p ≤ a → a < p + n → m a ≡ m' a)
    → load m p n ≡ load m' p n
load_ext m m' p zero h = refl
load_ext m m' p (suc n) h =
    ap₂ ◌∷◌ (h p (omega arith) (omega arith))
      (load_ext m m' (p + 1) n (λ a lo hi. h a (omega arith) (omega arith)))

pub load_cong : (m : Memory) (p q n k : ℕ) → p ≡ q → n ≡ k → load m p n ≡ load m q k
load_cong m p q n k e f = ap₂ (load m) e f

pub load-append : (m : Memory) (p n k : ℕ) → load m p (n + k) ≡ load m p n ++ load m (p + n) k
load-append m p zero k = load_cong m p (p + 0) (0 + k) k (omega arith) (omega arith)
load-append m p (suc n) k =
    load_cong m p p (suc n + k) (suc (n + k)) refl (omega arith)
    ∙ ap (◌∷◌ (m p)) (
        load-append m (p + 1) n k
        ∙ ap (◌++◌ (load m (p + 1) n)) (load_cong m (p + 1 + n) (p + suc n) k k (omega arith) refl))

pub store_comm :
    (m : Memory) (p q v w : ℕ) → p ≢ q → store (store m p v) q w ≡ store (store m q w) p v
store_comm m p q v w ne = fun_ext λ a. ground arith

pub store-store : (m : Memory) (p v w : ℕ) → store (store m p v) p w ≡ store m p w
store-store m p v w = fun_ext λ a. ground arith

pub copy_to-before : (m : Memory) (p a : ℕ) (cs : Bytes) → a < p → copy_to m p cs a ≡ m a
copy_to-before m p a [] h = refl
copy_to-before m p a (c ∷ cs) h = ground (arith, copy_to-before (store m p c) (p + 1) a cs)

pub copy_to-after : (m : Memory) (p a : ℕ) (cs : Bytes) → p + length cs ≤ a → copy_to m p cs a ≡ m a
copy_to-after m p a [] h = refl
copy_to-after m p a (c ∷ cs) h = ground (arith, copy_to-after (store m p c) (p + 1) a cs)

pub load-copy_to : (m : Memory) (p : ℕ) (cs : Bytes) → load (copy_to m p cs) p (length cs) ≡ cs
load-copy_to m p [] = refl
load-copy_to m p (c ∷ cs) =
    ap₂ ◌∷◌ (ground (arith, copy_to-before (store m p c) (p + 1) p cs))
      (load-copy_to (store m p c) (p + 1) cs)

pub copy_to-concat :
    (m : Memory) (p v : ℕ) (cs : Bytes)
    → copy_to m p (cs ++ v ∷ []) ≡ store (copy_to m p cs) (p + length cs) v
copy_to-concat m p v [] = let e : p ≡ p + 0 = omega arith in ap (λ q. store m q v) e
copy_to-concat m p v (c ∷ cs) =
    let e : p + 1 + length cs ≡ p + suc (length cs) = omega arith in
    copy_to-concat (store m p c) (p + 1) v cs
    ∙ ap (λ q. store (copy_to (store m p c) (p + 1) cs) q v) e

pub take-load : (s : Memory) (n j d : ℕ) → take j (load s n d) ≡ load s n (min j d)
take-load s n zero d = ground arith
take-load s n (suc j) zero = ap (load s n) (let e : 0 ≡ min (suc j) 0 = omega arith in e)
take-load s n (suc j) (suc d) =
    let e : suc (min j d) ≡ min (suc j) (suc d) = omega arith in
    ap (◌∷◌ (s n)) (take-load s (n + 1) j d) ∙ ap (load s n) e

pub drop-load : (s : Memory) (n j d : ℕ) → drop j (load s n d) ≡ load s (n + j) (d - j)
drop-load s n zero d = load_cong s n (n + 0) d (d - 0) (omega arith) (omega arith)
drop-load s n (suc j) zero = ap (load s (n + suc j)) (let e : 0 ≡ 0 - suc j = omega arith in e)
drop-load s n (suc j) (suc d) =
    drop-load s (n + 1) j d
    ∙ load_cong s (n + 1 + j) (n + suc j) (d - j) (suc d - suc j) (omega arith) (omega arith)

pub copy_to-load_inside :
    (m s : Memory) (p n d a : ℕ) → p ≤ a → a < p + d → copy_to m p (load s n d) a ≡ s (n + (a - p))
copy_to-load_inside m s p n zero a h k = absurd (omega arith)
copy_to-load_inside m s p n (suc d) a h k = elim (Bool-cases (a == p)) [
  | inl here ↦
      let eq : a ≡ p = (==_iff a p).0 here in
      copy_to-before (store m p (s n)) (p + 1) a (load s (n + 1) d) (omega arith)
      ∙ rw here (ap s (omega arith))
  | inr there ↦
      copy_to-load_inside (store m p (s n)) s (p + 1) (n + 1) d a (ground arith) (omega arith)
      ∙ ap s (let e : n + 1 + (a - (p + 1)) ≡ n + (a - p) = ground arith in e)
]

pub load_move :
    (m m' : Memory) (p q n : ℕ)
    → ((i : ℕ) → i < n → m (p + i) ≡ m' (q + i))
    → load m p n ≡ load m' q n
load_move m m' p q zero h = refl
load_move m m' p q (suc n) h =
    ap₂ ◌∷◌
      (ap m (let e : p ≡ p + 0 = omega arith in e)
        ∙ h 0 (omega arith)
        ∙ ap m' (let e : q + 0 ≡ q = omega arith in e))
      (load_move m m' (p + 1) (q + 1) n (λ i lt.
        ap m (let e : p + 1 + i ≡ p + suc i = omega arith in e)
        ∙ h (suc i) (omega arith)
        ∙ ap m' (let e : q + suc i ≡ q + 1 + i = omega arith in e)))
