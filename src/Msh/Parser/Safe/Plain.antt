-- ===== src/Msh/Parser/Safe/Plain.antt =====
-- The handlers that read no variable.
use minibase.Base.{ℕ, arith}
use minibase.Msh.State.{nil_, sep, arg, commt, dquot, squot, trail, Sh, Kernel, Handlers}
use minibase.Msh.Heap.Kept.{Ends, InHeap}
use minibase.Msh.Parser.{
  parse_nil, parse_sep, parse_arg, parse_nibsl, parse_sebsl, parse_arbsl, parse_dquot, parse_dqbsl,
  parse_squot, parse_sqbsl, parse_trail,
}
use minibase.Msh.Parser.Safe.{
  Keeps, Fits, pushed-Fits, escaped-Fits, ended-Fits, run-Fits, ended_run-Fits,
}

module _ (k : Kernel) (func : Handlers) (keeps : Keeps func) where
  pub parse_nil-Fits : (sh : Sh) (c : ℕ) → InHeap sh → Ends Fits (parse_nil k func sh c)
  unfolding parse_nil
  parse_nil-Fits sh c h = ground (arith, pushed-Fits k func keeps arg sh c (λ _ _. tt) h)

  pub parse_sep-Fits : (sh : Sh) (c : ℕ) → InHeap sh → Ends Fits (parse_sep k func sh c)
  unfolding parse_sep
  parse_sep-Fits sh c h = ground (
    arith,
    pushed-Fits k func keeps arg sh c (λ _ _. tt) h,
    run-Fits k func keeps nil_ sh (λ _ _. tt) h,
    run-Fits k func keeps commt sh (λ _ _. tt) h,
  )

  pub parse_arg-Fits : (sh : Sh) (c : ℕ) → InHeap sh → Ends Fits (parse_arg k func sh c)
  unfolding parse_arg
  parse_arg-Fits sh c h = ground (
    arith,
    pushed-Fits k func keeps arg sh c (λ _ _. tt) h,
    ended-Fits k func keeps sep sh (λ _ _. tt) h,
    ended_run-Fits k func keeps nil_ sh (λ _ _. tt) h,
    ended_run-Fits k func keeps commt sh (λ _ _. tt) h,
  )

  pub parse_nibsl-Fits : (sh : Sh) (c : ℕ) → InHeap sh → Ends Fits (parse_nibsl k func sh c)
  unfolding parse_nibsl
  parse_nibsl-Fits sh c h = ground (arith, escaped-Fits k func keeps nil_ sh c (λ _ _. tt) h)

  pub parse_sebsl-Fits : (sh : Sh) (c : ℕ) → InHeap sh → Ends Fits (parse_sebsl k func sh c)
  unfolding parse_sebsl
  parse_sebsl-Fits sh c h = ground (arith, escaped-Fits k func keeps arg sh c (λ _ _. tt) h)

  pub parse_arbsl-Fits : (sh : Sh) (c : ℕ) → InHeap sh → Ends Fits (parse_arbsl k func sh c)
  unfolding parse_arbsl
  parse_arbsl-Fits sh c h = escaped-Fits k func keeps arg sh c (λ _ _. tt) h

  pub parse_dquot-Fits : (sh : Sh) (c : ℕ) → InHeap sh → Ends Fits (parse_dquot k func sh c)
  unfolding parse_dquot
  parse_dquot-Fits sh c h = ground (
    arith,
    pushed-Fits k func keeps dquot sh c (λ _ _. tt) h,
    ended-Fits k func keeps trail sh (λ _ _. tt) h,
  )

  pub parse_dqbsl-Fits : (sh : Sh) (c : ℕ) → InHeap sh → Ends Fits (parse_dqbsl k func sh c)
  unfolding parse_dqbsl
  parse_dqbsl-Fits sh c h = ground (arith, escaped-Fits k func keeps dquot sh c (λ _ _. tt) h)

  pub parse_squot-Fits : (sh : Sh) (c : ℕ) → InHeap sh → Ends Fits (parse_squot k func sh c)
  unfolding parse_squot
  parse_squot-Fits sh c h = ground (
    arith,
    pushed-Fits k func keeps squot sh c (λ _ _. tt) h,
    ended-Fits k func keeps trail sh (λ _ _. tt) h,
  )

  pub parse_sqbsl-Fits : (sh : Sh) (c : ℕ) → InHeap sh → Ends Fits (parse_sqbsl k func sh c)
  unfolding parse_sqbsl
  parse_sqbsl-Fits sh c h = ground (arith, escaped-Fits k func keeps squot sh c (λ _ _. tt) h)

  pub parse_trail-Fits : (sh : Sh) (c : ℕ) → InHeap sh → Ends Fits (parse_trail k func sh c)
  unfolding parse_trail
  parse_trail-Fits sh c h = ground (
    arith,
    run-Fits k func keeps nil_ sh (λ _ _. tt) h,
    run-Fits k func keeps commt sh (λ _ _. tt) h,
  )
