-- ===== src/Base/Text.antt =====
-- Text as bytes, and what is checked by trying every small number.
use Prim.Native.Nat.{ℕ, zero, suc, ◌+◌, ◌<◌}
use Prim.Native.Char.{code}
use Prim.Native.String.{String}
use mathlib.Core.Path.{◌≡◌}
use mathlib.Core.Bool.{Bool, true}
use mathlib.Core.List.{[], ◌∷◌}
use native.Mathlib.Omega.{arith}
use mathlib.Core.Logic.{inl, inr}
use minibase.Base.Tests.{◌==◌, ==_iff, if◌then◌else◌, Bool-cases}
use minibase.Base.Lists.{Bytes}

-- The code points of a literal: its bytes, if it is ASCII.
abbrev pub codes : String → Bytes
codes String.[] = []
codes (String.◌∷◌ c s) = code c ∷ codes s

-- `*p`: a C string is the list of its bytes, and the byte behind them is NUL.
abbrev pub deref : Bytes → ℕ
deref [] = 0
deref (c ∷ cs) = c

-- `p + 1`
abbrev pub next : Bytes → Bytes
next [] = []
next (c ∷ cs) = cs

-- how many of the numbers below `n` do not pass
unfoldable pub failures : (ℕ → Bool) → ℕ → ℕ
failures test zero = 0
failures test (suc n) = (if test n then 0 else 1) + failures test n

pub no_failures : (test : ℕ → Bool) (n : ℕ) → failures test n ≡ 0 → {x : ℕ} → x < n → test x ≡ true
unfolding failures
no_failures test zero none_fails lt = absurd (omega arith)
no_failures test (suc n) none_fails {x} lt = elim (Bool-cases (x == n)) [
  | inl last ↦ rw ((==_iff x n).0 last) (ground arith)
  | inr other ↦ no_failures test n (ground arith) (ground arith)
]
