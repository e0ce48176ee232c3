-- ===== src/Msh/Parser/Start.antt =====
-- A backslash at the start of a line.
use minibase.Base.{
  ℕ, ◌+◌, ◌≡◌, ◌≢◌, refl, [], ◌∷◌, ◌++◌, Bytes, arith, if◌then◌else◌, ◌==◌, leb, if_same,
}
use minibase.Msh.State.{nil_, nibsl, Sh, ok, ◌>>=◌, Kernel, Handlers}
use minibase.Msh.Heap.{page, escape, push_esc}
use minibase.Msh.Parser.{parse_byte, parse, parse_finish}
use minibase.Msh.Parser.Grown.{Grants, at_state, push_char_lem}

-- The context behind a byte on the heap, in the line where it was.
unfoldable pub started : Sh → ℕ → Sh
started sh c = record sh {
  state = nil_;
  args = sh.args ++ c ∷ [];
  hptr = sh.hptr + 1;
  hend = if leb sh.hend sh.hptr then sh.hend + page else sh.hend;
}

module _ (k : Kernel) (func : Handlers) (grants : Grants k) where
  nibsl-byte :
      (sh : Sh) (c : ℕ)
      → c ≢ 0
      → c ≢ b'\n'
      → parse_byte k func (at_state nibsl sh) c ≡ ok (started sh (escape k c))
  unfolding parse_byte push_esc started
  nibsl-byte sh c h g =
      rw (push_char_lem k func grants (at_state nibsl sh) (escape k c)) (ground arith)

  blank_ignored :
      (sh : Sh) (rest : Bytes)
      → (parse_byte k func (at_state nil_ sh) b' ' >>= λ sh. parse k func sh rest)
        ≡ parse k func (at_state nil_ sh) rest
  unfolding parse_byte
  blank_ignored sh rest = refl

  finished : (sh : Sh) → parse_finish k func (at_state nil_ sh) ≡ ok (at_state nil_ sh)
  unfolding parse_finish
  finished sh = if_same (sh.asep == sh.hptr) (ok (at_state nil_ sh))

  -- Behind an escaped byte at the start of a line the state is still that of the start: a blank
  -- does not end the word, and the end of the script does not run it.
  pub parse-escaped_start :
      (sh : Sh) (c : ℕ) (rest : Bytes)
      → c ≢ 0
      → c ≢ b'\n'
      → (parse k func (at_state nil_ sh) (b'\\' ∷ c ∷ b' ' ∷ rest)
          ≡ parse k func (at_state nil_ sh) (b'\\' ∷ c ∷ rest))
        × ((parse k func (at_state nil_ sh) (b'\\' ∷ c ∷ []) >>= parse_finish k func)
            ≡ ok (started sh (escape k c)))
  unfolding parse started
  parse-escaped_start sh c rest h g =
      rw (nibsl-byte sh c h g)
        (blank_ignored (started sh (escape k c)) rest, finished (started sh (escape k c)))
