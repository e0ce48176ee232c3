-- ===== src/Msh/Script.antt =====
-- src/msh/msh.c: running a script, from a file that is read block by block, or from the command line.
pub mod Blocks
use minibase.Base.{Bytes, List, [], ◌∷◌, if◌then◌else◌}
use minibase.Base.Int.{ℤ, is_neg}
use minibase.Msh.State.{Sh, Result, ok, fatal, ◌>>=◌, Kernel, Handlers, read_failed}
use minibase.Msh.Parser.{parse, parse_finish}

module _ (k : Kernel) (func : Handlers) where
  -- The loop of `parse_file`: the blocks that were read, and the result of the last read.
  unfoldable pub parse_blocks : Sh → List Bytes → ℤ → Result Sh
  unfolding parse
  parse_blocks sh [] rd = if is_neg rd then fatal read_failed else ok sh
  parse_blocks sh (block ∷ blocks) rd = parse k func sh block >>= λ sh. parse_blocks sh blocks rd

  -- The file has been opened.
  unfoldable pub parse_file : Sh → List Bytes → ℤ → Result Sh
  unfolding parse_blocks parse_finish
  parse_file sh blocks rd = parse_blocks (record sh { line = 1 }) blocks rd >>= parse_finish k func

  unfoldable pub parse_str : Sh → Bytes → Result Sh
  unfolding parse parse_finish
  parse_str sh str = parse k func sh str >>= parse_finish k func
