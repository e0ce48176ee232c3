-- ===== src/Msh/Parser/Chunks.antt =====
-- The blocks that a script is read in make no difference.
use minibase.Base.{◌≡◌, refl, sym, ap, ◌∙◌, [], ◌∷◌, ◌++◌, Bytes}
use mathlib.Core.Path.{fun_ext}
use minibase.Msh.State.{Sh, ◌>>=◌, >>=_assoc, Kernel, Handlers}
use minibase.Msh.Parser.{parse_byte, parse}

module _ (k : Kernel) (func : Handlers) where
  -- Parsing one block and then another is parsing both at once.
  pub parse-append :
      (sh : Sh) (first second : Bytes)
      → parse k func sh (first ++ second) ≡ (parse k func sh first >>= λ sh. parse k func sh second)
  unfolding parse
  parse-append sh [] second = refl
  parse-append sh (c ∷ first) second =
      ap (◌>>=◌ (parse_byte k func sh c)) (fun_ext λ sh. parse-append sh first second)
      ∙ sym (>>=_assoc (parse_byte k func sh c) _ _)
