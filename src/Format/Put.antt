-- ===== src/Format/Put.antt =====
-- What the formatters of lib/format promise: to append a text at `p`, cut off at `e`.
use minibase.Base.{
  ℕ, zero, suc, ◌+◌, ◌-◌, ◌≤◌, ◌<◌, min, ◌≡◌, refl, sym, ap, ◌∙◌, inl, inr, [], ◌∷◌, ◌++◌, arith,
  ltb, ltb→lt, ltb→le, lt→ltb, le→ltb, if◌then◌else◌, Bool-cases, Bytes, length, take, take_all,
}
use mathlib.Core.Path.{ap₂}
use minibase.Base.Memory.{Memory, store, load, Frame, store_comm, load_cong}

-- the memory after a formatter's call, and the pointer that it returns
pub record Out : Type 0 where
  pub mem : Memory
  pub ptr : ℕ

abbrev pub put : Memory → ℕ → ℕ → Bytes → Out
put m p e [] = record { mem = m; ptr = p }
put m p e (c ∷ cs) = if ltb p e then put (store m p c) (p + 1) e cs else record { mem = m; ptr = p }

pub put_full :
    (m : Memory) (p e : ℕ) (cs : Bytes) → e ≤ p → put m p e cs ≡ record { mem = m; ptr = p }
put_full m p e [] h = refl
put_full m p e (c ∷ cs) h = rw (le→ltb p e h)

-- Appending in two calls is appending the texts one behind the other.
pub put-append :
    (m : Memory) (p e : ℕ) (xs ys : Bytes)
    → put (put m p e xs).mem (put m p e xs).ptr e ys ≡ put m p e (xs ++ ys)
put-append m p e [] ys = refl
put-append m p e (x ∷ xs) ys = elim (Bool-cases (ltb p e)) [
  | inl h ↦ rw h (put-append (store m p x) (p + 1) e xs ys)
  | inr h ↦ rw h (put_full m p e ys (ltb→le p e h))
]

pub ptr-put : (m : Memory) (p e : ℕ) (cs : Bytes) → (put m p e cs).ptr ≡ p + min (length cs) (e - p)
ptr-put m p e [] = omega arith
ptr-put m p e (c ∷ cs) = elim (Bool-cases (ltb p e)) [
  | inl h ↦ rw h (omega (arith, ptr-put (store m p c) (p + 1) e cs, ltb→lt p e h))
  | inr h ↦ rw h (omega (arith, ltb→le p e h))
]

pub put-store :
    (m : Memory) (p e q v : ℕ) (cs : Bytes)
    → p + length cs ≤ q
    → (put (store m q v) p e cs).mem ≡ store (put m p e cs).mem q v
put-store m p e q v [] h = refl
put-store m p e q v (c ∷ cs) h = elim (Bool-cases (ltb p e)) [
  | inl lt ↦ rw lt (
      ap (λ m'. (put m' (p + 1) e cs).mem) (store_comm m q p v c (omega arith))
      ∙ put-store (store m p c) (p + 1) e q v cs (omega arith))
  | inr ge ↦ rw ge
]

pub put-store_before :
    (m : Memory) (p e q v : ℕ) (cs : Bytes)
    → q < p
    → (put (store m q v) p e cs).mem ≡ store (put m p e cs).mem q v
put-store_before m p e q v [] h = refl
put-store_before m p e q v (c ∷ cs) h = elim (Bool-cases (ltb p e)) [
  | inl lt ↦ rw lt (
      ap (λ m'. (put m' (p + 1) e cs).mem) (store_comm m q p v c (omega arith))
      ∙ put-store_before (store m p c) (p + 1) e q v cs (omega arith))
  | inr ge ↦ rw ge
]

put_concat :
    (m : Memory) (p e q v : ℕ) (cs : Bytes)
    → q ≡ p + length cs
    → (if ltb q e then store (put m p e cs).mem q v else (put m p e cs).mem)
      ≡ (put m p e (cs ++ v ∷ [])).mem
put_concat m p e q v [] h = let same : p ≡ q = omega arith in rw same (ground arith)
put_concat m p e q v (c ∷ cs) h = elim (Bool-cases (ltb p e)) [
  | inl lt ↦ rw lt (put_concat (store m p c) (p + 1) e q v cs (omega arith))
  | inr ge ↦ rw (ge, le→ltb q e (omega (arith, ltb→le p e ge)))
]

-- Writing the last byte first, and only where it lies before `e`, puts the same text.
pub put_last :
    (m : Memory) (p e q v : ℕ) (cs : Bytes)
    → q ≡ p + length cs
    → (put (if ltb q e then store m q v else m) p e cs).mem ≡ (put m p e (cs ++ v ∷ [])).mem
put_last m p e q v cs h = elim (Bool-cases (ltb q e)) [
  | inl lt ↦ rw lt (put-store m p e q v cs (omega arith) ∙ (rw lt at (put_concat m p e q v cs h)))
  | inr ge ↦ rw ge (rw ge at (put_concat m p e q v cs h))
]

pub Out_path : {o o' : Out} → o.mem ≡ o'.mem → o.ptr ≡ o'.ptr → o ≡ o'
Out_path p q = λ i. record { mem = p i; ptr = q i }

pub Frame-put : (m : Memory) (p e : ℕ) (cs : Bytes) → Frame p e m (put m p e cs).mem
Frame-put m p e [] a h = refl
Frame-put m p e (c ∷ cs) a h = elim (Bool-cases (ltb p e)) [
  | inl lt ↦ rw lt (Frame-put (store m p c) (p + 1) e cs a (omega (arith, h)) ∙ ground arith)
  | inr ge ↦ rw ge
]

take-nil : (k : ℕ) → take {A = ℕ} k [] ≡ []
take-nil zero = refl
take-nil (suc k) = refl

load-put_room :
    (m : Memory) (p e k : ℕ) (cs : Bytes)
    → e - p ≡ k
    → load (put m p e cs).mem p (min (length cs) k) ≡ take k cs
load-put_room m p e k [] h = load_cong m p p (min 0 k) 0 refl (omega arith) ∙ sym (take-nil k)
load-put_room m p e zero (c ∷ cs) h =
    load_cong (put m p e (c ∷ cs)).mem p p (min (suc (length cs)) 0) 0 refl (omega arith)
load-put_room m p e (suc k) (c ∷ cs) h = rw (lt→ltb p e (omega arith)) (
    load_cong after p p (min (suc (length cs)) (suc k)) (suc (min (length cs) k)) refl (omega arith)
    ∙ ap₂ ◌∷◌ (Frame-put (store m p c) (p + 1) e cs p (inl (omega arith)) ∙ ground arith)
        (load-put_room (store m p c) (p + 1) e k cs (omega arith)))
  where
    after : Memory
    after = (put (store m p c) (p + 1) e cs).mem

-- The buffer then holds as much of the text as fits before `e`.
pub load-put :
    (m : Memory) (p e : ℕ) (cs : Bytes)
    → load (put m p e cs).mem p (min (length cs) (e - p)) ≡ take (e - p) cs
load-put m p e cs = load-put_room m p e (e - p) cs refl

-- With enough room the whole text is there.
pub load_whole :
    (m : Memory) (p e : ℕ) (cs : Bytes)
    → p + length cs ≤ e
    → load (put m p e cs).mem p ((put m p e cs).ptr - p) ≡ cs
load_whole m p e cs h =
    load_cong (put m p e cs).mem p p ((put m p e cs).ptr - p) (min (length cs) (e - p)) refl
      (omega (arith, ptr-put m p e cs))
    ∙ load-put m p e cs
    ∙ take_all (e - p) cs (omega arith)

-- One formatter behind another.
pub after_put :
    (f : Memory → ℕ → Out) (m : Memory) (p e : ℕ) (o : Out) (xs ys : Bytes)
    → ((m' : Memory) (q : ℕ) → q ≤ e → f m' q ≡ put m' q e ys)
    → p ≤ e
    → o ≡ put m p e xs
    → f o.mem o.ptr ≡ put m p e (xs ++ ys)
after_put f m p e o xs ys h le same = rw same (
    h (put m p e xs).mem (put m p e xs).ptr (omega (arith, ptr-put m p e xs))
    ∙ put-append m p e xs ys)
