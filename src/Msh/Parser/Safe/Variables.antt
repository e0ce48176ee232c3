-- ===== src/Msh/Parser/Safe/Variables.antt =====
-- The handlers that read the name of a variable, and its substitution.
use minibase.Base.{
  ℕ, ◌+◌, ◌-◌, ◌≤◌, Option, none, some, arith, ◌==◌, Bytes, length, take, drop, length-take,
  get_elem?, Bool-cases, inl, inr,
}
use minibase.Msh.State.{
  State, arg, vcont, dquot, dqvcn, Sh, Result, ok, fatal, exited, Kernel, Handlers,
}
use minibase.Msh.Heap.{push_char, push_end, push_var}
use minibase.Msh.Heap.Kept.{Ends, Ends->>=, InHeap, Longer, push_char-Longer}
use minibase.Msh.Argv.{c_string}
use minibase.Msh.Parser.{
  pid_text, isnumer, to, subst_value, subst_at, subst_var, subst_argument, subst_special, parse_arg,
  parse_vsign, parse_vcont, parse_dquot, parse_dqvsg, parse_dqvcn,
}
use minibase.Msh.Parser.Safe.{VarAt, Keeps, Fits, push_text-InHeap, to-Quiet}
use minibase.Msh.Parser.Safe.Plain.{parse_arg-Fits, parse_dquot-Fits}

module _ (k : Kernel) (func : Handlers) (keeps : Keeps func) where
  var-Longer :
      (s : State) (sh : Sh) (m : Result Sh)
      → ((var : Option ℕ) (n : ℕ) → VarAt s var n → VarAt s var (n + 1))
      → VarAt s sh.var (length sh.args)
      → Ends (Longer 1 sh) m
      → Ends Fits (to s m)
  var-Longer s sh (ok sh') more v l = (l.0, rw (l.1, l.2) (more sh.var (length sh.args) v))
  var-Longer s sh (fatal e) more v l = l
  var-Longer s sh (exited n) more v l = l

  more_vcont : (var : Option ℕ) (n : ℕ) → VarAt vcont var n → VarAt vcont var (n + 1)
  more_vcont none n v = v
  more_vcont (some off) n v = omega arith

  more_dqvcn : (var : Option ℕ) (n : ℕ) → VarAt dqvcn var n → VarAt dqvcn var (n + 1)
  more_dqvcn none n v = v
  more_dqvcn (some off) n v = omega arith

  -- the first byte of a name
  var_begins : Sh → Sh
  var_begins sh = record sh { var = some (length sh.args) }

  push_var-vcont : (sh : Sh) (c : ℕ) → InHeap sh → Ends Fits (to vcont (push_var k sh c))
  unfolding push_var var_begins
  push_var-vcont sh c h =
      var-Longer vcont (var_begins sh) (push_char k (var_begins sh) c) more_vcont (omega arith)
        (push_char-Longer k (var_begins sh) c h)

  push_var-dqvcn : (sh : Sh) (c : ℕ) → InHeap sh → Ends Fits (to dqvcn (push_var k sh c))
  unfolding push_var var_begins
  push_var-dqvcn sh c h =
      var-Longer dqvcn (var_begins sh) (push_char k (var_begins sh) c) more_dqvcn (omega arith)
        (push_char-Longer k (var_begins sh) c h)

  subst_value-InHeap :
      (sh : Sh) (off : ℕ) (name : Bytes) (o : Option Bytes)
      → InHeap sh
      → off ≤ length sh.args
      → Ends InHeap (subst_value k func sh off name o)
  unfolding subst_value
  subst_value-InHeap sh off name none h le = λ e. cc
  subst_value-InHeap sh off name (some val) h le =
      push_text-InHeap k func keeps (record sh { hptr = sh.asep + off; args = take off sh.args })
        val (h.0, omega (arith, length-take off sh.args), omega arith)

  subst_at-InHeap :
      (sh : Sh) (off : ℕ)
      → InHeap sh
      → off ≤ length sh.args
      → Ends InHeap (subst_at k func sh (some off))
  unfolding subst_at push_end
  subst_at-InHeap sh off h le =
      Ends->>= (Longer 1 sh) InHeap (push_char k sh 0) _ (push_char-Longer k sh 0 h)
        λ sh' l. subst_value-InHeap sh' off (c_string (drop off sh'.args)) _ l.0 (omega arith)

  subst_at-vcont :
      (sh : Sh) (o : Option ℕ)
      → InHeap sh
      → VarAt vcont o (length sh.args)
      → Ends InHeap (subst_at k func sh o)
  subst_at-vcont sh none h v = absurd v
  subst_at-vcont sh (some off) h v = subst_at-InHeap sh off h v

  subst_var-InHeap :
      (sh : Sh)
      → InHeap sh
      → VarAt vcont sh.var (length sh.args)
      → Ends InHeap (subst_var k func sh)
  unfolding subst_var
  subst_var-InHeap sh h v = subst_at-vcont sh sh.var h v

  dqvcn-vcont : (var : Option ℕ) (n : ℕ) → VarAt dqvcn var n → VarAt vcont var n
  dqvcn-vcont none n v = v
  dqvcn-vcont (some off) n v = v

  subst_argument-InHeap :
      (sh : Sh) (c : ℕ) (o : Option Bytes) → InHeap sh → Ends InHeap (subst_argument k func sh c o)
  unfolding subst_argument
  subst_argument-InHeap sh c none h = λ e. cc
  subst_argument-InHeap sh c (some text) h = push_text-InHeap k func keeps sh text h

  subst_special-InHeap : (sh : Sh) (c : ℕ) → InHeap sh → Ends InHeap (subst_special k func sh c)
  unfolding subst_special
  subst_special-InHeap sh c h = elim (Bool-cases (c == b'$')) [
    | inl own ↦ rw own (push_text-InHeap k func keeps sh (pid_text k.pid) h)
    | inr other ↦ elim (Bool-cases (isnumer c)) [
      | inl digit ↦
          rw (other, digit) (subst_argument-InHeap sh c (get_elem? sh.topargv (c - b'0' + 1)) h)
      | inr no_digit ↦ rw (other, no_digit) (λ e. cc)
    ]
  ]

  pub parse_vsign-Fits : (sh : Sh) (c : ℕ) → InHeap sh → Ends Fits (parse_vsign k func sh c)
  unfolding parse_vsign
  parse_vsign-Fits sh c h = ground (
    arith,
    push_var-vcont sh c h,
    to-Quiet k func keeps arg (subst_special k func sh c) (λ _ _. tt) (subst_special-InHeap sh c h),
  )

  pub parse_dqvsg-Fits : (sh : Sh) (c : ℕ) → InHeap sh → Ends Fits (parse_dqvsg k func sh c)
  unfolding parse_dqvsg
  parse_dqvsg-Fits sh c h = ground (
    arith,
    push_var-dqvcn sh c h,
    to-Quiet k func keeps dquot (subst_special k func sh c) (λ _ _. tt)
        (subst_special-InHeap sh c h),
  )

  pub parse_vcont-Fits :
      (sh : Sh) (c : ℕ)
      → InHeap sh
      → VarAt vcont sh.var (length sh.args)
      → Ends Fits (parse_vcont k func sh c)
  unfolding parse_vcont
  parse_vcont-Fits sh c h v = ground (
    arith,
    var-Longer vcont sh (push_char k sh c) more_vcont v (push_char-Longer k sh c h),
    Ends->>= InHeap Fits (subst_var k func sh) (λ sh. parse_arg k func sh c)
        (subst_var-InHeap sh h v) (λ sh h. parse_arg-Fits k func keeps sh c h),
  )

  pub parse_dqvcn-Fits :
      (sh : Sh) (c : ℕ)
      → InHeap sh
      → VarAt dqvcn sh.var (length sh.args)
      → Ends Fits (parse_dqvcn k func sh c)
  unfolding parse_dqvcn
  parse_dqvcn-Fits sh c h v = ground (
    arith,
    var-Longer dqvcn sh (push_char k sh c) more_dqvcn v (push_char-Longer k sh c h),
    Ends->>= InHeap Fits (subst_var k func sh) (λ sh. parse_dquot k func sh c)
        (subst_var-InHeap sh h (dqvcn-vcont sh.var (length sh.args) v))
        (λ sh h. parse_dquot-Fits k func keeps sh c h),
  )
