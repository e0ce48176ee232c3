-- ===== src/Msh/Parser/Safe.antt =====
-- The layout of the heap and the place of the variable that is being read, over a whole script.
pub mod Plain
pub mod Variables
pub mod Script
use minibase.Base.{
  ℕ, ◌+◌, ◌-◌, ◌*◌, ◌≤◌, ◌≡◌, ◌≢◌, Option, none, some, List, [], ◌∷◌, arith, ◌==◌, Bytes, length,
  Bool-cases, inl, inr,
}
use minibase.Msh.State.{
  State, vcont, dqvcn, Sh, Result, ok, fatal, exited, ◌>>=◌, Kernel, Handlers, Cmd,
}
use minibase.Msh.Heap.{heap_alloc, push_char, push_esc, push_end, push_text, escape}
use minibase.Msh.Heap.Kept.{
  Ends, Ends->>=, InHeap, Longer, push_char-Longer, push_text-Longer, pagealign_le,
}
use minibase.Msh.Env.{total}
use minibase.Msh.Argv.{
  pointer, builtin, call_func, command, run_args, count_args, strings_at, index_args, execute,
}
use minibase.Msh.Parser.{to}

-- Where a variable is read its name has begun before the end of the strings.
abbrev pub VarAt : State → Option ℕ → ℕ → Type 0
VarAt vcont none n = ⊥
VarAt vcont (some off) n = off ≤ n
VarAt dqvcn none n = ⊥
VarAt dqvcn (some off) n = off ≤ n
VarAt _ var n = Unit {0}

abbrev pub Inv : Sh → Type 0
Inv sh = InHeap sh × VarAt sh.state sh.var (length sh.args)

-- The context that a handler gets: argv stands behind the strings.
abbrev pub Called : Sh → Type 0
Called sh = (sh.asep ≡ total sh.env) × (sh.asep + 2 * pointer ≤ sh.hptr) × (sh.hptr ≤ sh.hend)

-- The one that it leaves: the records, and the strings on top, are within the heap.
abbrev pub Left : Sh → Type 0
Left sh = (sh.asep ≡ total sh.env) × (sh.asep ≤ sh.hptr) × (sh.hptr ≤ sh.hend)

abbrev pub Keeps : Handlers → Type 0
Keeps func = (cc : Cmd) (sh : Sh) → Called sh → Ends Left (func cc sh)

-- what `s` asks of a context
abbrev pub Fits : State × Sh → Type 0
Fits (s, sh) = InHeap sh × VarAt s sh.var (length sh.args)

abbrev pub Quiet : State → Type 0
Quiet s = (var : Option ℕ) (n : ℕ) → VarAt s var n

module _ (k : Kernel) (func : Handlers) (keeps : Keeps func) where
  call_func-Left :
      (o : Option Cmd) (lead : Bytes) (sh : Sh) → Called sh → Ends Left (call_func func o lead sh)
  unfolding call_func
  call_func-Left none lead sh h = λ e. cc
  call_func-Left (some cc) lead sh h = Ends->>= Left Left (func cc sh) _ (keeps cc sh h) (λ sh l. l)

  command-Left : (sh : Sh) (argv : List Bytes) → Called sh → Ends Left (command func sh argv)
  unfolding command
  command-Left sh [] h = (h.0, omega arith, h.2)
  command-Left sh (lead ∷ argv) h =
      call_func-Left (builtin lead) lead (record sh { argp = 1; argv = lead ∷ argv }) h

  alloc-Called :
      (sh : Sh) (n : ℕ) → InHeap sh → n ≢ 0 → Ends Called (heap_alloc k sh ((n + 1) * pointer))
  unfolding heap_alloc
  alloc-Called sh n h some_args =
      ground (arith, pagealign_le (sh.hptr + (n + 1) * pointer - sh.hend))

  run_args-InHeap : (sh : Sh) (n : ℕ) → InHeap sh → n ≢ 0 → Ends InHeap (run_args k func sh n)
  unfolding run_args
  run_args-InHeap sh n h some_args =
      Ends->>= Called InHeap (heap_alloc k sh ((n + 1) * pointer)) _ (alloc-Called sh n h some_args)
        λ sh' c.
          Ends->>= Left InHeap (command func sh' (strings_at sh.args (index_args sh.args n))) _
            (command-Left sh' (strings_at sh.args (index_args sh.args n)) c)
            λ sh'' l. (l.0, omega arith, omega arith)

  pub execute-InHeap : (sh : Sh) → InHeap sh → Ends InHeap (execute k func sh)
  execute-InHeap sh h = elim (Bool-cases (count_args sh.args == 0)) [
    | inl nothing ↦ unfold execute in rw nothing h
    | inr some_args ↦
        unfold execute in rw some_args (run_args-InHeap sh (count_args sh.args) h (ground arith))
  ]

  pub to-Quiet : (s : State) (m : Result Sh) → Quiet s → Ends InHeap m → Ends Fits (to s m)
  to-Quiet s m q h = Ends->>= InHeap Fits m _ h (λ sh i. (i, q sh.var (length sh.args)))

  pub push_char-InHeap : (sh : Sh) (c : ℕ) → InHeap sh → Ends InHeap (push_char k sh c)
  push_char-InHeap sh c h = subst_ends (push_char k sh c) (push_char-Longer k sh c h)
    where
      subst_ends : (m : Result Sh) → Ends (Longer 1 sh) m → Ends InHeap m
      subst_ends (ok a) l = l.0
      subst_ends (fatal e) l = l
      subst_ends (exited n) l = l

  pub push_end-InHeap : (sh : Sh) → InHeap sh → Ends InHeap (push_end k sh)
  unfolding push_end
  push_end-InHeap sh h = push_char-InHeap sh 0 h

  pub push_esc-InHeap : (sh : Sh) (c : ℕ) → InHeap sh → Ends InHeap (push_esc k sh c)
  unfolding push_esc
  push_esc-InHeap sh c h = push_char-InHeap sh (escape k c) h

  pub push_text-InHeap : (sh : Sh) (val : Bytes) → InHeap sh → Ends InHeap (push_text k sh val)
  push_text-InHeap sh val h = shorten (push_text k sh val) (push_text-Longer k sh val h)
    where
      shorten : (m : Result Sh) → Ends (Longer (length val) sh) m → Ends InHeap m
      shorten (ok a) l = l.0
      shorten (fatal e) l = l
      shorten (exited n) l = l

  pub pushed-Fits :
      (s : State) (sh : Sh) (c : ℕ) → Quiet s → InHeap sh → Ends Fits (to s (push_char k sh c))
  pushed-Fits s sh c q h = to-Quiet s (push_char k sh c) q (push_char-InHeap sh c h)

  pub escaped-Fits :
      (s : State) (sh : Sh) (c : ℕ) → Quiet s → InHeap sh → Ends Fits (to s (push_esc k sh c))
  escaped-Fits s sh c q h = to-Quiet s (push_esc k sh c) q (push_esc-InHeap sh c h)

  pub ended-Fits : (s : State) (sh : Sh) → Quiet s → InHeap sh → Ends Fits (to s (push_end k sh))
  ended-Fits s sh q h = to-Quiet s (push_end k sh) q (push_end-InHeap sh h)

  pub run-Fits : (s : State) (sh : Sh) → Quiet s → InHeap sh → Ends Fits (to s (execute k func sh))
  run-Fits s sh q h = to-Quiet s (execute k func sh) q (execute-InHeap sh h)

  pub ended_run-InHeap : (sh : Sh) → InHeap sh → Ends InHeap (push_end k sh >>= execute k func)
  ended_run-InHeap sh h =
      Ends->>= InHeap InHeap (push_end k sh) (execute k func) (push_end-InHeap sh h) execute-InHeap

  pub ended_run-Fits :
      (s : State) (sh : Sh)
      → Quiet s
      → InHeap sh
      → Ends Fits (to s (push_end k sh >>= execute k func))
  ended_run-Fits s sh q h = to-Quiet s (push_end k sh >>= execute k func) q (ended_run-InHeap sh h)
