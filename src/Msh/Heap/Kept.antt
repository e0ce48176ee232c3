-- ===== src/Msh/Heap/Kept.antt =====
-- What the assembly of strings keeps of the layout of the heap, whatever the kernel answers.
use minibase.Base.{ℕ, ◌+◌, ◌-◌, ◌≤◌, ◌≡◌, ◌≢◌, [], ◌∷◌, arith, Bytes, length, length-append}
use minibase.Msh.State.{Sh, Result, ok, fatal, exited, ◌>>=◌, Kernel, internal_var_end}
use minibase.Msh.Heap.{pagealign, push_char, push_text}
use minibase.Msh.Env.{total}

-- A result satisfies `P`, or the shell has exited, but not by the internal error.
abbrev pub Ends {ℓ} : {A : Type ℓ} → (A → Type 0) → Result A → Type 0
Ends P (ok a) = P a
Ends P (fatal e) = e ≢ internal_var_end
Ends P (exited n) = Unit {0}

pub Ends->>= {ℓ κ} :
    {A : Type ℓ} {B : Type κ} (P : A → Type 0) (Q : B → Type 0) (m : Result A) (f : A → Result B)
    → Ends P m
    → ((a : A) → P a → Ends Q (f a))
    → Ends Q (m >>= f)
Ends->>= P Q (ok a) f h g = g a h
Ends->>= P Q (fatal e) f h g = h
Ends->>= P Q (exited n) f h g = tt

-- The records end at `asep`, the strings at `hptr`, and both lie before the end of the heap.
abbrev pub InHeap : Sh → Type 0
InHeap sh = (sh.asep ≡ total sh.env) × (sh.hptr ≡ sh.asep + length sh.args) × (sh.hptr ≤ sh.hend)

-- `n` bytes more
abbrev pub Longer : ℕ → Sh → Sh → Type 0
Longer n sh sh' = InHeap sh' × (sh'.var ≡ sh.var) × (length sh'.args ≡ length sh.args + n)

pub pagealign_le : (n : ℕ) → n ≤ pagealign n
pagealign_le n = omega arith

module _ (k : Kernel) where
  pub push_char-Longer : (sh : Sh) (c : ℕ) → InHeap sh → Ends (Longer 1 sh) (push_char k sh c)
  unfolding push_char
  push_char-Longer sh c h = ground (arith, length-append sh.args (c ∷ []))

  pub push_text-Longer :
      (sh : Sh) (val : Bytes) → InHeap sh → Ends (Longer (length val) sh) (push_text k sh val)
  unfolding push_text
  push_text-Longer sh val h =
      ground (arith, length-append sh.args val, pagealign_le (sh.hptr + length val - sh.hend))
