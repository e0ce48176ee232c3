-- ===== src/Msh/Script/Blocks.antt =====
-- A script does the same from a file as from the command line, and keeps to the heap to its end.
use minibase.Base.{
  ◌≡◌, refl, sym, ap, ◌∙◌, false, [], ◌∷◌, ◌++◌, List, Bytes, Bool-cases, inl, inr, ◌==◌,
}
use minibase.Base.Int.{ℤ, is_neg}
use mathlib.Core.Path.{fun_ext}
use minibase.Msh.State.{State, nil_, sep, arg, trail, Sh, ◌>>=◌, Kernel, Handlers}
use minibase.Msh.Heap.Kept.{Ends, Ends->>=, InHeap}
use minibase.Msh.Parser.{parse, finish_in, parse_finish}
use minibase.Msh.Parser.Chunks.{parse-append}
use minibase.Msh.Parser.Safe.{Inv, Keeps, execute-InHeap, ended_run-InHeap}
use minibase.Msh.Parser.Safe.Script.{parse-Inv}
use minibase.Msh.Script.{parse_blocks, parse_file, parse_str}

-- the file
unfoldable pub concat : List Bytes → Bytes
concat [] = []
concat (block ∷ blocks) = block ++ concat blocks

module _ (k : Kernel) (func : Handlers) where
  parse_blocks-concat :
      (sh : Sh) (blocks : List Bytes) (rd : ℤ)
      → is_neg rd ≡ false
      → parse_blocks k func sh blocks rd ≡ parse k func sh (concat blocks)
  unfolding parse_blocks concat
  parse_blocks-concat sh [] rd done = rw done (unfold parse in refl)
  parse_blocks-concat sh (block ∷ blocks) rd done =
      ap (◌>>=◌ (parse k func sh block)) (fun_ext λ sh. parse_blocks-concat sh blocks rd done)
      ∙ sym (parse-append k func sh block (concat blocks))

  -- A file that is read to its end in any blocks is run as its text would be from the command line,
  -- but for the number of the line, which starts at 1.
  pub parse_file-parse_str :
      (sh : Sh) (blocks : List Bytes) (rd : ℤ)
      → is_neg rd ≡ false
      → parse_file k func sh blocks rd ≡ parse_str k func (record sh { line = 1 }) (concat blocks)
  unfolding parse_file parse_str
  parse_file-parse_str sh blocks rd done =
      ap (λ m. m >>= parse_finish k func)
        (parse_blocks-concat (record sh { line = 1 }) blocks rd done)

  module _ (keeps : Keeps func) where
    finish_in-InHeap : (s : State) (sh : Sh) → InHeap sh → Ends InHeap (finish_in k func s sh)
    unfolding finish_in
    finish_in-InHeap nil_ sh h = h
    finish_in-InHeap sep sh h = execute-InHeap k func keeps sh h
    finish_in-InHeap arg sh h = ended_run-InHeap k func keeps sh h
    finish_in-InHeap trail sh h = execute-InHeap k func keeps sh h
    finish_in-InHeap _ sh h = λ e. cc

    parse_finish-InHeap : (sh : Sh) → InHeap sh → Ends InHeap (parse_finish k func sh)
    unfolding parse_finish
    parse_finish-InHeap sh h = elim (Bool-cases (sh.asep == sh.hptr)) [
      | inl empty ↦ rw empty h
      | inr some_left ↦ rw some_left (finish_in-InHeap sh.state sh h)
    ]

    -- Whatever the script is and the kernel answers, a run either leaves the records before `asep`
    -- and the strings behind it, within the heap, or exits, but not by the internal error of the
    -- parser, if the commands keep to the heap.
    pub parse_str-InHeap : (sh : Sh) (str : Bytes) → Inv sh → Ends InHeap (parse_str k func sh str)
    unfolding parse_str
    parse_str-InHeap sh str i =
        Ends->>= Inv InHeap (parse k func sh str) _ (parse-Inv k func keeps sh str i)
          (λ sh i. parse_finish-InHeap sh i.0)
