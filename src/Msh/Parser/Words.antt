-- ===== src/Msh/Parser/Words.antt =====
-- Plain words and words in single quotes, as the parser takes them in.
use minibase.Base.{
  ℕ, ◌≡◌, ◌≢◌, refl, sym, ap, ◌∙◌, true, false, ◌||◌, [], ◌∷◌, ◌++◌, arith, ◌==◌, if◌then◌else◌,
  Bytes, Bool-cases, inl, inr,
}
use mathlib.Core.List.{append_assoc}
use minibase.Strings.Compare.{NulFree}
use minibase.Msh.State.{arg, squot, trail, sqbsl, Sh, ok, Kernel, Handlers}
use minibase.Msh.Heap.{escape, push_esc}
use minibase.Msh.Parser.{parse_byte, parse}
use minibase.Msh.Parser.Grown.{
  Grants, typed, grown, at_state, grown-append, is_plain, push_char_lem, arg-plain,
}

-- What is written for a byte between single quotes.
unfoldable pub quote_byte : ℕ → Bytes → Bytes
quote_byte c rest = if c == b'\'' || c == b'\\' then b'\\' ∷ c ∷ rest else c ∷ rest

-- the quoted bytes, the closing quote, and what follows
unfoldable pub quote_rest : Bytes → Bytes → Bytes
unfolding quote_byte
quote_rest [] rest = b'\'' ∷ rest
quote_rest (c ∷ cs) rest = quote_byte c (quote_rest cs rest)

abbrev pub AllPlain : Bytes → Type 0
AllPlain [] = Unit {0}
AllPlain (c ∷ cs) = (is_plain c ≡ true) × AllPlain cs

module _ (k : Kernel) (func : Handlers) (grants : Grants k) where
  pub arg-AllPlain :
      (sh : Sh) (cs rest : Bytes)
      → AllPlain cs
      → parse k func (at_state arg sh) (cs ++ rest) ≡ parse k func (at_state arg (grown sh cs)) rest
  unfolding parse grown
  arg-AllPlain sh [] rest h = refl
  arg-AllPlain sh (c ∷ cs) rest h =
      rw (arg-plain k func grants sh c h.0) (arg-AllPlain (typed sh c) cs rest h.1)

  squot-byte :
      (sh : Sh) (c : ℕ)
      → c ≢ 0
      → (c == b'\'' || c == b'\\') ≡ false
      → parse_byte k func (at_state squot sh) c ≡ ok (at_state squot (typed sh c))
  unfolding parse_byte typed
  squot-byte sh c h other = rw (push_char_lem k func grants (at_state squot sh) c) (ground arith)

  sqbsl-byte :
      (sh : Sh) (c : ℕ)
      → (c == b'\'' || c == b'\\') ≡ true
      → parse_byte k func (at_state sqbsl sh) c ≡ ok (at_state squot (typed sh c))
  unfolding parse_byte typed push_esc
  sqbsl-byte sh c special =
      let same : escape k c ≡ c = ground arith in
      rw (same, push_char_lem k func grants (at_state sqbsl sh) c) (ground arith)

  escaped :
      (sh : Sh) (c : ℕ) (rest : Bytes)
      → c ≢ 0
      → parse k func (at_state squot sh) (quote_byte c rest)
        ≡ parse k func (at_state squot (typed sh c)) rest
  unfolding parse quote_byte
  escaped sh c rest h = elim (Bool-cases (c == b'\'' || c == b'\\')) [
    | inl special ↦ rw special (unfold parse_byte in rw (sqbsl-byte sh c special) refl)
    | inr other ↦ rw (other, squot-byte sh c h other) refl
  ]

  closed :
      (sh : Sh) (rest : Bytes)
      → parse k func (at_state squot sh) (b'\'' ∷ rest)
        ≡ parse k func (at_state trail (typed sh 0)) rest
  unfolding parse parse_byte typed
  closed sh rest = rw (push_char_lem k func grants (at_state squot sh) 0) refl

  pub quoted_word :
      (sh : Sh) (w rest : Bytes)
      → NulFree w
      → parse k func (at_state squot sh) (quote_rest w rest)
        ≡ parse k func (at_state trail (grown sh (w ++ 0 ∷ []))) rest
  unfolding quote_rest grown
  quoted_word sh [] rest h = closed sh rest
  quoted_word sh (c ∷ w) rest h =
      escaped sh c (quote_rest w rest) h.0 ∙ quoted_word (typed sh c) w rest h.1

  pub grown-word :
      (sh : Sh) (w rest : Bytes) → grown (grown sh (w ++ 0 ∷ [])) rest ≡ grown sh (w ++ 0 ∷ rest)
  grown-word sh w rest =
      sym (grown-append sh (w ++ 0 ∷ []) rest) ∙ ap (grown sh) (append_assoc w (0 ∷ []) rest)

  pub trail-quote :
      (sh : Sh) (rest : Bytes)
      → parse k func (at_state trail sh) (b' ' ∷ b'\'' ∷ rest)
        ≡ parse k func (at_state squot sh) rest
  unfolding parse parse_byte
  trail-quote sh rest = refl

  pub arg-quote :
      (sh : Sh) (rest : Bytes)
      → parse k func (at_state arg sh) (b' ' ∷ b'\'' ∷ rest)
        ≡ parse k func (at_state squot (typed sh 0)) rest
  unfolding parse parse_byte typed
  arg-quote sh rest = rw (push_char_lem k func grants (at_state arg sh) 0) refl
