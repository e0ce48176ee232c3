-- ===== src/Msh/Parser.antt =====
-- msh_parser.c: the state machine that splits a script into commands. A handler is given a byte, and
-- returns the next state with what it made of the context.
pub mod Chunks
pub mod Grown
pub mod Quoted
pub mod Words
pub mod Safe
pub mod Start
use minibase.Base.{
  ℕ, ◌+◌, ◌-◌, Bool, ◌&&◌, ◌||◌, Option, none, some, [], ◌∷◌, leb, ◌==◌, if◌then◌else◌, Bytes, take,
  drop, get_elem?,
}
use minibase.Base.Int.{pos}
use minibase.Base.Memory.{load}
use minibase.Format.Number.{fmti64}
use minibase.Msh.State.{
  State, nil_, sep, arg, nibsl, sebsl, arbsl, vsign, vcont, commt, dquot, dqbsl, dqvsg, dqvcn,
  squot, sqbsl, trail, Sh, Result, ok, fatal, ◌>>=◌, Kernel, Handlers, internal_var_end,
  quoted_command, indirect_command, misplaced_quotes, missing_variable_name, trailing_characters,
  stray_nul, unexpected_eof, undefined_variable, undefined_special,
}
use minibase.Msh.Heap.{push_char, push_esc, push_end, push_var, push_text}
use minibase.Msh.Env.{valueof}
use minibase.Msh.Argv.{c_string, execute}

abbrev pub isspace : ℕ → Bool
isspace c = c == b' ' || c == b'\t' || c == b'\n'

abbrev pub isalpha : ℕ → Bool
isalpha c = leb b'a' c && leb c b'z' || leb b'A' c && leb c b'Z'

abbrev pub isnumer : ℕ → Bool
isnumer c = leb b'0' c && leb c b'9'

abbrev pub isalnum : ℕ → Bool
isalnum c = isalpha c || isnumer c

-- `return s` after the calls that made the context what it is
abbrev pub to : State → Result Sh → Result (State × Sh)
to s m = m >>= λ sh. ok (s, sh)

-- what `fmtint` writes into a buffer of 32 bytes
unfoldable pub pid_text : ℕ → Bytes
pid_text pid = let o = fmti64 (λ a. 0) 0 32 (pos pid) in load o.mem 0 o.ptr

module _ (k : Kernel) (func : Handlers) where
  -- `name` is the string at `var`, and `off` its distance from `asep`.
  subst_value : Sh → ℕ → Bytes → Option Bytes → Result Sh
  unfolding push_text
  subst_value sh off name none = fatal (undefined_variable name)
  subst_value sh off name (some val) =
      push_text k (record sh { hptr = sh.asep + off; args = take off sh.args }) val

  subst_at : Sh → Option ℕ → Result Sh
  unfolding subst_value push_end c_string valueof
  subst_at sh none = fatal internal_var_end
  subst_at sh (some off) = push_end k sh >>= λ sh.
      let name = c_string (drop off sh.args) in
      subst_value sh off name (valueof sh.environ sh.env name)

  unfoldable pub subst_var : Sh → Result Sh
  unfolding subst_at
  subst_var sh = subst_at sh sh.var

  abbrev undefined : ℕ → Result Sh
  undefined c = fatal (undefined_special (b'$' ∷ c ∷ []))

  -- `topargv[idx]`, where `idx` is below `topargc`
  subst_argument : Sh → ℕ → Option Bytes → Result Sh
  unfolding push_text
  subst_argument sh c none = undefined c
  subst_argument sh c (some text) = push_text k sh text

  unfoldable pub subst_special : Sh → ℕ → Result Sh
  unfolding subst_argument push_text pid_text
  subst_special sh c =
      let own = push_text k sh (pid_text k.pid) in
      let given = subst_argument sh c (get_elem? sh.topargv (c - b'0' + 1)) in
      if c == b'$' then own else if isnumer c then given else undefined c

  unfoldable pub parse_nil : Sh → ℕ → Result (State × Sh)
  unfolding push_char
  parse_nil sh c =
      if c == b'\n'
      then ok (nil_, sh)
      else if isspace c
      then ok (nil_, sh)
      else if c == b'#'
      then ok (commt, sh)
      else if c == b'\\'
      then ok (nibsl, sh)
      else if c == b'"' || c == b'\''
      then fatal quoted_command
      else if c == b'$'
      then fatal indirect_command
      else to arg (push_char k sh c)

  unfoldable pub parse_sep : Sh → ℕ → Result (State × Sh)
  unfolding push_char execute
  parse_sep sh c =
      let run = execute k func sh in
      if c == b'\n'
      then to nil_ run
      else if c == b'#'
      then to commt run
      else if isspace c
      then ok (sep, sh)
      else if c == b'\\'
      then ok (sebsl, sh)
      else if c == b'"'
      then ok (dquot, sh)
      else if c == b'\''
      then ok (squot, sh)
      else if c == b'$'
      then ok (vsign, sh)
      else to arg (push_char k sh c)

  unfoldable pub parse_arg : Sh → ℕ → Result (State × Sh)
  unfolding push_char push_end execute
  parse_arg sh c =
      let run = push_end k sh >>= execute k func in
      if c == b'$'
      then ok (vsign, sh)
      else if c == b'\\'
      then ok (arbsl, sh)
      else if c == b'#'
      then to commt run
      else if c == b'\n'
      then to nil_ run
      else if isspace c
      then to sep (push_end k sh)
      else if c == b'"' || c == b'\''
      then fatal misplaced_quotes
      else to arg (push_char k sh c)

  unfoldable pub parse_nibsl : Sh → ℕ → Result (State × Sh)
  unfolding push_esc
  parse_nibsl sh c = if c == b'\n' then ok (nil_, sh) else to nil_ (push_esc k sh c)

  unfoldable pub parse_sebsl : Sh → ℕ → Result (State × Sh)
  unfolding push_esc
  parse_sebsl sh c = if c == b'\n' then ok (sep, sh) else to arg (push_esc k sh c)

  unfoldable pub parse_arbsl : Sh → ℕ → Result (State × Sh)
  unfolding push_esc
  parse_arbsl sh c = to arg (push_esc k sh c)

  unfoldable pub parse_vsign : Sh → ℕ → Result (State × Sh)
  unfolding push_var subst_special
  parse_vsign sh c =
      let special = subst_special sh c in
      if isalpha c
      then to vcont (push_var k sh c)
      else if isspace c
      then fatal missing_variable_name
      else to arg special

  unfoldable pub parse_vcont : Sh → ℕ → Result (State × Sh)
  unfolding push_char subst_var parse_arg
  parse_vcont sh c =
      let done = subst_var sh >>= λ sh. parse_arg sh c in
      if isalnum c then to vcont (push_char k sh c) else done

  unfoldable pub parse_commt : Sh → ℕ → Result (State × Sh)
  parse_commt sh c = if c == b'\n' then ok (sep, sh) else ok (commt, sh)

  unfoldable pub parse_dquot : Sh → ℕ → Result (State × Sh)
  unfolding push_char push_end
  parse_dquot sh c =
      if c == b'"'
      then to trail (push_end k sh)
      else if c == b'$'
      then ok (dqvsg, sh)
      else if c == b'\\'
      then ok (dqbsl, sh)
      else to dquot (push_char k sh c)

  unfoldable pub parse_dqvsg : Sh → ℕ → Result (State × Sh)
  unfolding push_var subst_special
  parse_dqvsg sh c =
      let special = subst_special sh c in
      if isalpha c
      then to dqvcn (push_var k sh c)
      else if isspace c
      then fatal missing_variable_name
      else to dquot special

  unfoldable pub parse_dqvcn : Sh → ℕ → Result (State × Sh)
  unfolding push_char subst_var parse_dquot
  parse_dqvcn sh c =
      let done = subst_var sh >>= λ sh. parse_dquot sh c in
      if isalnum c then to dqvcn (push_char k sh c) else done

  unfoldable pub parse_dqbsl : Sh → ℕ → Result (State × Sh)
  unfolding push_esc
  parse_dqbsl sh c = if c == b'\n' then ok (dquot, sh) else to dquot (push_esc k sh c)

  unfoldable pub parse_squot : Sh → ℕ → Result (State × Sh)
  unfolding push_char push_end
  parse_squot sh c =
      if c == b'\\'
      then ok (sqbsl, sh)
      else if c == b'\''
      then to trail (push_end k sh)
      else to squot (push_char k sh c)

  unfoldable pub parse_sqbsl : Sh → ℕ → Result (State × Sh)
  unfolding push_esc
  parse_sqbsl sh c = if c == b'\n' then ok (squot, sh) else to squot (push_esc k sh c)

  unfoldable pub parse_trail : Sh → ℕ → Result (State × Sh)
  unfolding execute
  parse_trail sh c =
      let run = execute k func sh in
      if c == b'\n'
      then to nil_ run
      else if c == b'#'
      then to commt run
      else if isspace c
      then ok (sep, sh)
      else fatal trailing_characters

  -- `table[state]`. A state outside the table is not a `State`.
  unfoldable pub table : State → Sh → ℕ → Result (State × Sh)
  unfolding parse_nil parse_sep parse_arg parse_nibsl parse_sebsl parse_arbsl parse_vsign
      parse_vcont parse_commt parse_dquot parse_dqbsl parse_dqvsg parse_dqvcn parse_squot
      parse_sqbsl parse_trail
  table nil_ = parse_nil
  table sep = parse_sep
  table arg = parse_arg
  table nibsl = parse_nibsl
  table sebsl = parse_sebsl
  table arbsl = parse_arbsl
  table vsign = parse_vsign
  table vcont = parse_vcont
  table commt = parse_commt
  table dquot = parse_dquot
  table dqbsl = parse_dqbsl
  table dqvsg = parse_dqvsg
  table dqvcn = parse_dqvcn
  table squot = parse_squot
  table sqbsl = parse_sqbsl
  table trail = parse_trail

  unfoldable pub dispatch : Sh → ℕ → Result Sh
  unfolding table
  dispatch sh c = table sh.state sh c >>= λ (s, sh). ok (record sh { state = s })

  -- A round of the loop of `parse`.
  unfoldable pub parse_byte : Sh → ℕ → Result Sh
  unfolding dispatch
  parse_byte sh c =
      let next_line = dispatch sh c >>= λ sh. ok (record sh { line = sh.line + 1 }) in
      if c == 0 then fatal stray_nul else if c == b'\n' then next_line else dispatch sh c

  unfoldable pub parse : Sh → Bytes → Result Sh
  unfolding parse_byte
  parse sh [] = ok sh
  parse sh (c ∷ cs) = parse_byte sh c >>= λ sh. parse sh cs

  unfoldable pub finish_in : State → Sh → Result Sh
  unfolding push_end execute
  finish_in nil_ sh = ok sh
  finish_in sep sh = execute k func sh
  finish_in arg sh = push_end k sh >>= execute k func
  finish_in trail sh = execute k func sh
  finish_in _ sh = fatal unexpected_eof

  unfoldable pub parse_finish : Sh → Result Sh
  unfolding finish_in
  parse_finish sh = let rest = finish_in sh.state sh in if sh.asep == sh.hptr then ok sh else rest
