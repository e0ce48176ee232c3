-- ===== src/Tests/Msh.antt =====
-- src/msh on concrete scripts.
use minibase.Base.{
  ℕ, ◌+◌, ◌*◌, ◌≡◌, refl, true, false, none, some, List, [], ◌∷◌, ◌++◌, arith, Bytes, codes,
}
use minibase.Base.Int.{pos, negsuc}
use minibase.Strings.Compare.{NulFree}
use minibase.Msh.State.{
  Env, Sh, Result, ok, fatal, exited, ◌>>=◌, Kernel, Handlers, nil_, undefined_variable,
}
use minibase.Msh.Heap.{heap_alloc}
use minibase.Msh.Env.{svar, env_value, valueof, envp, holds, named}
use minibase.Msh.Env.Names.{holds-named}
use minibase.Msh.Argv.{command}
use minibase.Msh.Command.Basic.{commands}
use minibase.Msh.Command.Records.{variable, pair, has_equals, is_named}
use minibase.Msh.Command.Envp.{cmd_set, cmd_setenv, prepenvp}
use minibase.Msh.Command.Keeps.{commands-Keeps}
use minibase.Msh.Command.Set.{called, pair_size, valueof-cmd_set, valueof-cmd_set_hidden}
use minibase.Msh.Command.Setenv.{others, values, prepenvp-cmd_setenv}
use minibase.Msh.Heap.Kept.{Ends, InHeap}
use minibase.Msh.Parser.{parse, parse_finish}
use minibase.Msh.Parser.Grown.{Grants, at_state, is_plain}
use minibase.Msh.Parser.Quoted.{command_line, at_command, parse-command_line}
use minibase.Msh.Parser.Start.{started, parse-escaped_start}
use minibase.Msh.Parser.Safe.{Keeps}
use minibase.Msh.Script.{parse_file, parse_str}
use minibase.Msh.Script.Blocks.{concat, parse_file-parse_str, parse_str-InHeap}

abbrev free : Kernel
free = record { brk = λ a. true; pid = 300; writeall = λ fd text. pos 1; chdir = λ dir. pos 0 }

abbrev grants : Grants free
grants = λ a. refl

-- the commands that only call the kernel do nothing here
abbrev nothing : Handlers
nothing = λ cc sh. ok sh

abbrev fresh : Sh
fresh = record {
  line = 1;
  environ = codes "HOME=/root" ∷ [];
  customenvp = negsuc 0;
  topargv = codes "msh" ∷ codes "script" ∷ codes "first" ∷ [];
  state = nil_;
  argp = 0;
  argv = [];
  env = [];
  args = [];
  asep = 0;
  hptr = 0;
  hend = 4096;
  var = none;
  output = [];
}

abbrev said : Result Sh → List (ℕ × Bytes)
said (ok sh) = sh.output
said (fatal e) = []
said (exited n) = []

-- what a script prints
abbrev prints : Bytes → List (ℕ × Bytes)
prints script = said (parse_str free (commands free nothing) fresh script)

set_and_echo :
    prints
      (codes "set greeting \"hello there\"\necho $greeting # and no more\necho '$1'\necho $1\n")
    ≡ (1, codes "hello there\n") ∷ (1, codes "$1\n") ∷ (1, codes "first\n") ∷ []
unfolding parse_str commands
set_and_echo = refl

abbrev ends : Result Sh → Result ℕ
ends (ok sh) = ok sh.line
ends (fatal e) = fatal e
ends (exited n) = exited n

-- The second variable is not found.
set_two :
    ends (
      parse_str free (commands free nothing) fresh (codes "set greeting hello\nset a b\necho $a\n"))
    ≡ fatal (undefined_variable (codes "a"))
unfolding parse_str commands
set_two = refl

-- A byte behind a backslash at the start of a line begins the first word of the next line.
escaped_command : prints (codes "\\e\ncho hello") ≡ (1, codes "hello\n") ∷ []
unfolding parse_str commands
escaped_command = refl

parse-command_line_example :
    parse free nothing (at_state nil_ fresh) (command_line (b'e' ∷ codes "cho") (codes "it's" ∷ []))
    ≡ (heap_alloc free (at_command fresh ((b'e' ∷ codes "cho") ∷ codes "it's" ∷ [])) (3 * 8)
        >>= λ sh. command nothing sh ((b'e' ∷ codes "cho") ∷ codes "it's" ∷ []) >>= λ sh.
            ok (record sh { hptr = sh.asep; args = []; state = nil_; line = sh.line + 1 }))
unfolding is_plain
parse-command_line_example =
    parse-command_line free nothing grants fresh b'e' (codes "cho") (codes "it's" ∷ [])
      (refl, (refl, (refl, (refl, tt)))) (nul_free, tt) refl
  where
    nul_free : NulFree (codes "it's")
    nul_free =
        (λ e. ground arith, (λ e. ground arith, (λ e. ground arith, (λ e. ground arith, tt))))

parse_file-parse_str_example :
    parse_file free nothing fresh (codes "ec" ∷ codes "ho\n" ∷ []) (pos 0)
    ≡ parse_str free nothing (record fresh { line = 1 }) (concat (codes "ec" ∷ codes "ho\n" ∷ []))
parse_file-parse_str_example =
    parse_file-parse_str free nothing fresh (codes "ec" ∷ codes "ho\n" ∷ []) (pos 0) refl

nothing-Keeps : Keeps nothing
nothing-Keeps cc sh c = (c.0, omega arith, c.2)

parse_str-InHeap_example :
    Ends InHeap (parse_str free (commands free nothing) fresh (codes "set a b\n"))
parse_str-InHeap_example =
    parse_str-InHeap free (commands free nothing) (commands-Keeps free nothing nothing-Keeps) fresh
      (codes "set a b\n") ((refl, refl, omega arith), tt)

commands-Keeps_example : Keeps (commands free nothing)
commands-Keeps_example = commands-Keeps free nothing nothing-Keeps

parse-escaped_start_example :
    (parse free nothing (at_state nil_ fresh) (b'\\' ∷ b'e' ∷ b' ' ∷ codes "cho")
      ≡ parse free nothing (at_state nil_ fresh) (b'\\' ∷ b'e' ∷ codes "cho"))
    × ((parse free nothing (at_state nil_ fresh) (b'\\' ∷ b'e' ∷ []) >>= parse_finish free nothing)
        ≡ ok (started fresh b'e'))
parse-escaped_start_example =
    parse-escaped_start free nothing grants fresh b'e' (codes "cho") (λ e. ground arith)
      (λ e. ground arith)

holds-named_example :
    holds (codes "home=/root") (codes "h") ≡ named (codes "home=/root") (codes "h")
holds-named_example = holds-named (codes "home=/root") (codes "h") (λ e. ground arith, tt)

valueof-cmd_set_example :
    (sh' : Sh) × (cmd_set free (called fresh (codes "set" ∷ codes "a" ∷ codes "b" ∷ [])) ≡ ok sh')
    × (valueof sh'.environ sh'.env (codes "a") ≡ some (codes "b"))
valueof-cmd_set_example =
    valueof-cmd_set free grants fresh (codes "set") (codes "a") (codes "b") (λ e. ground arith, tt)
      (unfold has_equals in refl) tt tt (unfold pair_size in omega arith)

-- a variable is set
abbrev greeting : Env
greeting = record {
  low = 20;
  envp = false;
  svar = true;
  ref = false;
  payload = codes "greeting=hello";
}

abbrev greeted : Sh
greeted = record fresh { env = greeting ∷ []; asep = 20; hptr = 20 }

valueof-cmd_set_hidden_example :
    (sh' : Sh) × (cmd_set free (called greeted (codes "set" ∷ codes "a" ∷ codes "b" ∷ [])) ≡ ok sh')
    × (sh'.env ≡ (greeting ∷ []) ++ variable (pair (codes "a") (codes "b")) svar ∷ [])
    × (valueof sh'.environ sh'.env (codes "a") ≡ none)
valueof-cmd_set_hidden_example =
    valueof-cmd_set_hidden free grants greeted (codes "set") (codes "a") (codes "b") [] greeting
      (λ e. ground arith, tt) (unfold has_equals in refl) refl
      (unfold is_named env_value in refl, tt) (unfold pair_size in omega arith)
      (unfold pair_size in omega arith)

-- the environment is the shell's own, with one variable taken over
abbrev own : Sh
own = record fresh { customenvp = pos 1; env = variable (pair (codes "a") (codes "b")) envp ∷ [] }

prepenvp-cmd_setenv_example :
    (sh' sh'' : Sh) × (cmd_setenv free (called own (codes "setenv" ∷ codes "a" ∷ codes "c" ∷ []))
      ≡ ok sh')
    × (prepenvp free sh'
        ≡ ok (
          others (codes "a") (values (codes "HOME=/root" ∷ []) own.env)
              ++ pair (codes "a") (codes "c") ∷ [],
          sh'',
        ))
prepenvp-cmd_setenv_example =
    prepenvp-cmd_setenv free grants own 1 (codes "setenv") (codes "a") (codes "c") refl
      (unfold has_equals in refl) tt (unfold variable pair_size in (omega arith, omega arith, tt))
      (unfold pair_size in omega arith)
