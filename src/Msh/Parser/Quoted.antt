-- ===== src/Msh/Parser/Quoted.antt =====
-- A command line that is written with its arguments in single quotes is run with those arguments.
use minibase.Base.{
  ℕ, ◌+◌, ◌*◌, ◌≡◌, refl, sym, ap, ◌∙◌, false, List, [], ◌∷◌, ◌++◌, arith, ◌==◌, Bytes, length,
}
use minibase.Strings.Compare.{NulFree}
use minibase.Msh.State.{
  State, nil_, arg, trail, Sh, Result, ok, fatal, exited, ◌>>=◌, Kernel, Handlers,
}
use minibase.Msh.Heap.{heap_alloc}
use minibase.Msh.Argv.{pointer, command, execute}
use minibase.Msh.Argv.Joined.{joined, AllNulFree, count_args-joined, index_args-joined}
use minibase.Msh.Parser.{parse_byte, parse, to}
use minibase.Msh.Parser.Grown.{
  Grants, typed, grown, at_state, args-grown, grown-append, is_plain, push_char_lem, nil-plain,
}
use minibase.Msh.Parser.Words.{
  quote_rest, AllPlain, arg-AllPlain, quoted_word, grown-word, trail-quote, arg-quote,
}

-- the arguments, each behind a blank, and the end of the line
unfoldable pub quoted_args : List Bytes → Bytes
unfolding quote_rest
quoted_args [] = b'\n' ∷ []
quoted_args (w ∷ ws) = b' ' ∷ b'\'' ∷ quote_rest w (quoted_args ws)

unfoldable pub command_line : Bytes → List Bytes → Bytes
unfolding quoted_args
command_line cmd ws = cmd ++ quoted_args ws

-- the state at the end of the line
abbrev pub last_state : List Bytes → State
last_state [] = arg
last_state (w ∷ ws) = trail

-- the context in which the command of a line is run
unfoldable pub at_command : Sh → List Bytes → Sh
unfolding grown joined
at_command sh [] = sh
at_command sh (cmd ∷ ws) = at_state (last_state ws) (grown sh (joined (cmd ∷ ws)))

module _ (k : Kernel) (func : Handlers) (grants : Grants k) where
  -- behind a quoted argument
  trail-quoted_args :
      (sh : Sh) (ws : List Bytes)
      → AllNulFree ws
      → parse k func (at_state trail sh) (quoted_args ws)
        ≡ parse k func (at_state trail (grown sh (joined ws))) (b'\n' ∷ [])
  unfolding quoted_args joined
  trail-quoted_args sh [] h = unfold grown in refl
  trail-quoted_args sh (w ∷ ws) h =
      trail-quote k func grants sh (quote_rest w (quoted_args ws))
      ∙ quoted_word k func grants sh w (quoted_args ws) h.0
      ∙ trail-quoted_args (grown sh (w ++ 0 ∷ [])) ws h.1
      ∙ ap (λ sh. parse k func (at_state trail sh) (b'\n' ∷ []))
          (grown-word k func grants sh w (joined ws))

  end_of_line : Sh → Result Sh
  end_of_line sh = ok (record sh { state = nil_; line = sh.line + 1 })

  settle :
      (m : Result Sh)
      → ((to nil_ m >>= (λ (s, sh). ok (at_state s sh)))
          >>= (λ sh. ok (record sh { line = sh.line + 1 }))
          >>= (λ sh. ok sh))
        ≡ (m >>= end_of_line)
  unfolding end_of_line
  settle (ok sh) = refl
  settle (fatal e) = refl
  settle (exited n) = refl

  trail-end :
      (sh : Sh)
      → parse k func (at_state trail sh) (b'\n' ∷ [])
        ≡ (execute k func (at_state trail sh) >>= end_of_line)
  unfolding parse parse_byte
  trail-end sh = settle (execute k func (at_state trail sh))

  arg-end :
      (sh : Sh)
      → parse k func (at_state arg sh) (b'\n' ∷ [])
        ≡ (execute k func (at_state arg (typed sh 0)) >>= end_of_line)
  unfolding parse parse_byte typed
  arg-end sh =
      rw (push_char_lem k func grants (at_state arg sh) 0)
        (settle (execute k func (at_state arg (typed sh 0))))

  -- behind the command
  arg-quoted_args :
      (sh : Sh) (ws : List Bytes)
      → AllNulFree ws
      → parse k func (at_state arg sh) (quoted_args ws)
        ≡ (execute k func (at_state (last_state ws) (grown sh (0 ∷ joined ws))) >>= end_of_line)
  unfolding quoted_args grown joined
  arg-quoted_args sh [] h = arg-end sh
  arg-quoted_args sh (w ∷ ws) h =
      arg-quote k func grants sh (quote_rest w (quoted_args ws))
      ∙ quoted_word k func grants (typed sh 0) w (quoted_args ws) h.0
      ∙ trail-quoted_args (grown (typed sh 0) (w ++ 0 ∷ [])) ws h.1
      ∙ ap (λ sh. parse k func (at_state trail sh) (b'\n' ∷ []))
          (grown-word k func grants (typed sh 0) w (joined ws))
      ∙ trail-end (grown (typed sh 0) (w ++ 0 ∷ joined ws))

  run_args-joined :
      (sh : Sh) (w : Bytes) (ws : List Bytes)
      → AllNulFree (w ∷ ws)
      → sh.args ≡ joined (w ∷ ws)
      → execute k func sh ≡ (
          heap_alloc k sh ((length (w ∷ ws) + 1) * pointer) >>= λ sh.
          command func sh (w ∷ ws) >>= λ sh. ok (record sh { hptr = sh.asep; args = [] }))
  unfolding execute
  run_args-joined sh w ws h e =
      let some_args : (length (w ∷ ws) == 0) ≡ false = ground arith in
      rw (e, count_args-joined (w ∷ ws) h, index_args-joined (w ∷ ws) h, some_args) refl

  AllPlain-NulFree : (cs : Bytes) → AllPlain cs → NulFree cs
  unfolding is_plain
  AllPlain-NulFree [] h = tt
  AllPlain-NulFree (c ∷ cs) h = (λ e. ground arith, AllPlain-NulFree cs h.1)

  reset_one :
      (m : Result Sh)
      → (m >>= (λ sh. ok (record sh { hptr = sh.asep; args = [] })) >>= end_of_line) ≡ (
          m >>= λ sh.
          ok (record sh { hptr = sh.asep; args = []; state = nil_; line = sh.line + 1 }))
  unfolding end_of_line
  reset_one (ok sh) = refl
  reset_one (fatal e) = refl
  reset_one (exited n) = refl

  reset :
      (m : Result Sh) (f : Sh → Result Sh)
      → ((m >>= λ sh. f sh >>= λ sh. ok (record sh { hptr = sh.asep; args = [] })) >>= end_of_line)
        ≡ (m >>= λ sh. f sh >>= λ sh.
            ok (record sh { hptr = sh.asep; args = []; state = nil_; line = sh.line + 1 }))
  reset (ok sh) f = reset_one (f sh)
  reset (fatal e) f = refl
  reset (exited n) f = refl

  command_line-execute :
      (sh : Sh) (c : ℕ) (cmd : Bytes) (ws : List Bytes)
      → AllPlain (c ∷ cmd)
      → AllNulFree ws
      → parse k func (at_state nil_ sh) (command_line (c ∷ cmd) ws)
        ≡ (execute k func (at_command sh ((c ∷ cmd) ∷ ws)) >>= end_of_line)
  unfolding command_line parse at_command
  command_line-execute sh c cmd ws plain h = rw (nil-plain k func grants sh c plain.0) (
      arg-AllPlain k func grants (typed sh c) cmd (quoted_args ws) plain.1
      ∙ arg-quoted_args (grown (typed sh c) cmd) ws h
      ∙ ap (λ sh. execute k func (at_state (last_state ws) sh) >>= end_of_line)
          (sym (grown-append (typed sh c) cmd (0 ∷ joined ws))))

  -- A line of a command in plain bytes and of arguments of any bytes but NUL, each in single quotes
  -- with `'` and `\` escaped, runs the command with just those arguments, if the kernel grants memory:
  -- the context is at the start of a line with no strings on the heap, and is so again behind it.
  pub parse-command_line :
      (sh : Sh) (c : ℕ) (cmd : Bytes) (ws : List Bytes)
      → AllPlain (c ∷ cmd)
      → AllNulFree ws
      → sh.args ≡ []
      → parse k func (at_state nil_ sh) (command_line (c ∷ cmd) ws) ≡ (
          heap_alloc k (at_command sh ((c ∷ cmd) ∷ ws)) ((length ((c ∷ cmd) ∷ ws) + 1) * pointer)
          >>= λ sh. command func sh ((c ∷ cmd) ∷ ws) >>= λ sh.
              ok (record sh { hptr = sh.asep; args = []; state = nil_; line = sh.line + 1 }))
  unfolding at_command end_of_line
  parse-command_line sh c cmd ws plain h none_yet =
      let words = (c ∷ cmd) ∷ ws in
      let on_heap : (at_command sh words).args ≡ joined words =
        args-grown sh (joined words) ∙ ap (λ l. l ++ joined words) none_yet in
      command_line-execute sh c cmd ws plain h
      ∙ ap (λ m. m >>= end_of_line)
          (run_args-joined (at_command sh words) (c ∷ cmd) ws (AllPlain-NulFree (c ∷ cmd) plain, h)
            on_heap)
      ∙ reset (heap_alloc k (at_command sh words) ((length words + 1) * pointer))
          (λ sh. command func sh words)
