-- ===== src/Msh/Parser/Safe/Script.antt =====
-- Every byte of a script, and its end.
use minibase.Base.{ℕ, ◌+◌, [], ◌∷◌, arith, ◌==◌, Bytes, length, Bool-cases, inl, inr}
use minibase.Msh.State.{
  State, nil_, sep, arg, nibsl, sebsl, arbsl, vsign, vcont, commt, dquot, dqbsl, dqvsg, dqvcn,
  squot, sqbsl, trail, Sh, ok, Kernel, Handlers,
}
use minibase.Msh.Heap.Kept.{Ends, Ends->>=, InHeap}
use minibase.Msh.Parser.{parse_commt, table, dispatch, parse_byte, parse}
use minibase.Msh.Parser.Safe.{VarAt, Inv, Keeps, Fits}
use minibase.Msh.Parser.Safe.Plain.{
  parse_nil-Fits, parse_sep-Fits, parse_arg-Fits, parse_nibsl-Fits, parse_sebsl-Fits,
  parse_arbsl-Fits, parse_dquot-Fits, parse_dqbsl-Fits, parse_squot-Fits, parse_sqbsl-Fits,
  parse_trail-Fits,
}
use minibase.Msh.Parser.Safe.Variables.{
  parse_vsign-Fits, parse_dqvsg-Fits, parse_vcont-Fits, parse_dqvcn-Fits,
}

module _ (k : Kernel) (func : Handlers) (keeps : Keeps func) where
  table-Fits :
      (s : State) (sh : Sh) (c : ℕ)
      → InHeap sh
      → VarAt s sh.var (length sh.args)
      → Ends Fits (table k func s sh c)
  unfolding table parse_commt
  table-Fits nil_ sh c h v = parse_nil-Fits k func keeps sh c h
  table-Fits sep sh c h v = parse_sep-Fits k func keeps sh c h
  table-Fits arg sh c h v = parse_arg-Fits k func keeps sh c h
  table-Fits nibsl sh c h v = parse_nibsl-Fits k func keeps sh c h
  table-Fits sebsl sh c h v = parse_sebsl-Fits k func keeps sh c h
  table-Fits arbsl sh c h v = parse_arbsl-Fits k func keeps sh c h
  table-Fits vsign sh c h v = parse_vsign-Fits k func keeps sh c h
  table-Fits vcont sh c h v = parse_vcont-Fits k func keeps sh c h v
  table-Fits commt sh c h v = ground arith
  table-Fits dquot sh c h v = parse_dquot-Fits k func keeps sh c h
  table-Fits dqbsl sh c h v = parse_dqbsl-Fits k func keeps sh c h
  table-Fits dqvsg sh c h v = parse_dqvsg-Fits k func keeps sh c h
  table-Fits dqvcn sh c h v = parse_dqvcn-Fits k func keeps sh c h v
  table-Fits squot sh c h v = parse_squot-Fits k func keeps sh c h
  table-Fits sqbsl sh c h v = parse_sqbsl-Fits k func keeps sh c h
  table-Fits trail sh c h v = parse_trail-Fits k func keeps sh c h

  dispatch-Inv : (sh : Sh) (c : ℕ) → Inv sh → Ends Inv (dispatch k func sh c)
  unfolding dispatch
  dispatch-Inv sh c i =
      Ends->>= Fits Inv (table k func sh.state sh c) _ (table-Fits sh.state sh c i.0 i.1)
        (λ (s, sh) f. f)

  parse_byte-Inv : (sh : Sh) (c : ℕ) → Inv sh → Ends Inv (parse_byte k func sh c)
  unfolding parse_byte
  parse_byte-Inv sh c i = elim (Bool-cases (c == 0)) [
    | inl nul ↦ rw nul (λ e. cc)
    | inr _ ↦ ground (
      arith,
      dispatch-Inv sh c i,
      Ends->>= Inv Inv (dispatch k func sh c) (λ sh. ok (record sh { line = sh.line + 1 }))
          (dispatch-Inv sh c i) (λ sh i. i),
    )
  ]

  -- Whatever the script is and the kernel answers, the records end at `asep`, the strings at `hptr`,
  -- both within the heap, a variable that is being read begins within the strings, and the shell does
  -- not end by its internal error, if the commands keep to the heap.
  pub parse-Inv : (sh : Sh) (script : Bytes) → Inv sh → Ends Inv (parse k func sh script)
  unfolding parse
  parse-Inv sh [] i = i
  parse-Inv sh (c ∷ cs) i =
      Ends->>= Inv Inv (parse_byte k func sh c) _ (parse_byte-Inv sh c i)
        (λ sh i. parse-Inv sh cs i)
