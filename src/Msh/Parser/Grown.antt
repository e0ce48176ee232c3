-- ===== src/Msh/Parser/Grown.antt =====
-- Where the kernel grants memory, bytes that stand for themselves are put on the heap one by one.
use minibase.Base.{
  ℕ, ◌+◌, ◌≡◌, refl, sym, ◌∙◌, Bool, true, not, ◌&&◌, ◌||◌, [], ◌∷◌, ◌++◌, arith, leb, ◌==◌,
  if◌then◌else◌, Bytes, Bool-cases, inl, inr,
}
use mathlib.Core.List.{append_assoc, append-nil}
use minibase.Msh.State.{State, nil_, arg, Sh, ok, Kernel, Handlers}
use minibase.Msh.Heap.{page, push_char}
use minibase.Msh.Parser.{isspace, parse_byte}

abbrev pub Grants : Kernel → Type 0
Grants k = (a : ℕ) → k.brk a ≡ true

-- The context behind `c`, which went on the heap.
unfoldable pub typed : Sh → ℕ → Sh
typed sh c = record sh {
  line = if c == b'\n' then sh.line + 1 else sh.line;
  args = sh.args ++ c ∷ [];
  hptr = sh.hptr + 1;
  hend = if leb sh.hend sh.hptr then sh.hend + page else sh.hend;
}

unfoldable pub grown : Sh → Bytes → Sh
unfolding typed
grown sh [] = sh
grown sh (c ∷ cs) = grown (typed sh c) cs

abbrev pub at_state : State → Sh → Sh
at_state s sh = record sh { state = s }

pub args-grown : (sh : Sh) (cs : Bytes) → (grown sh cs).args ≡ sh.args ++ cs
unfolding grown
args-grown sh [] = sym (append-nil sh.args)
args-grown sh (c ∷ cs) = args-grown (typed sh c) cs ∙ append_assoc sh.args (c ∷ []) cs

pub grown-append : (sh : Sh) (xs ys : Bytes) → grown sh (xs ++ ys) ≡ grown (grown sh xs) ys
unfolding grown
grown-append sh [] ys = refl
grown-append sh (c ∷ xs) ys = grown-append (typed sh c) xs ys

-- Bytes that have no meaning outside quotes.
unfoldable pub is_plain : ℕ → Bool
is_plain c =
    not (c == 0)
    && not (isspace c)
    && not (c == b'#')
    && not (c == b'\\')
    && not (c == b'"' || c == b'\'')
    && not (c == b'$')

module _ (k : Kernel) (func : Handlers) (grants : Grants k) where
  -- the byte on the heap, but for the count of the lines
  pub push_char_lem :
      (sh : Sh) (c : ℕ)
      → push_char k sh c
        ≡ ok (record sh {
          args = sh.args ++ c ∷ [];
          hptr = sh.hptr + 1;
          hend = if leb sh.hend sh.hptr then sh.hend + page else sh.hend;
        })
  unfolding push_char
  push_char_lem sh c = elim (Bool-cases (leb sh.hend sh.hptr)) [
    | inl full ↦ rw (full, grants (sh.hend + page)) refl
    | inr room ↦ rw room refl
  ]

  pub nil-plain :
      (sh : Sh) (c : ℕ)
      → is_plain c ≡ true
      → parse_byte k func (at_state nil_ sh) c ≡ ok (at_state arg (typed sh c))
  unfolding parse_byte is_plain typed
  nil-plain sh c h = rw (push_char_lem (at_state nil_ sh) c) (ground arith)

  pub arg-plain :
      (sh : Sh) (c : ℕ)
      → is_plain c ≡ true
      → parse_byte k func (at_state arg sh) c ≡ ok (at_state arg (typed sh c))
  unfolding parse_byte is_plain typed
  arg-plain sh c h = rw (push_char_lem (at_state arg sh) c) (ground arith)
