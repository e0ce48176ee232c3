-- ===== src/Msh/Command/Arguments.antt =====
-- msh_common.c: how a command takes its arguments.
use minibase.Base.{
  ℕ, ◌+◌, Bool, not, Option, none, some, List, ltb, leb, ◌==◌, if◌then◌else◌, Bytes, length,
  get_elem?, deref, drop,
}
use minibase.Base.Int.{ℤ, is_neg}
use minibase.Format.Parse.{Parsed, parseint, parseu64, parseoct}
use minibase.Msh.State.{
  Sh, Result, ok, fatal, ◌>>=◌, too_many_arguments, too_few_arguments, argument_required,
  invalid_number, invalid_octal, failed,
}

unfoldable pub no_more_arguments : Sh → Result Sh
no_more_arguments sh = if ltb sh.argp (length sh.argv) then fatal too_many_arguments else ok sh

unfoldable pub shift_given : Sh → Option Bytes → Result (Bytes × Sh)
shift_given sh none = fatal too_few_arguments
shift_given sh (some text) = ok (text, record sh { argp = sh.argp + 1 })

unfoldable pub shift : Sh → Result (Bytes × Sh)
unfolding shift_given
shift sh = shift_given sh (get_elem? sh.argv sh.argp)

unfoldable pub got_more_arguments : Sh → Bool
got_more_arguments sh = ltb sh.argp (length sh.argv)

unfoldable pub need_some_arguments : Sh → Result Sh
need_some_arguments sh = if leb (length sh.argv) sh.argp then fatal argument_required else ok sh

unfoldable pub argsleft : Sh → List Bytes
argsleft sh = drop sh.argp sh.argv

-- `next`, which returns NULL behind the last argument
unfoldable pub next_given : Sh → Option Bytes → Option Bytes × Sh
next_given sh none = (none, sh)
next_given sh (some text) = (some text, record sh { argp = sh.argp + 1 })

unfoldable pub next_argument : Sh → Option Bytes × Sh
unfolding next_given
next_argument sh = next_given sh (get_elem? sh.argv sh.argp)

unfoldable pub dash_given : Sh → Option Bytes → Option Bytes × Sh
dash_given sh none = (none, sh)
dash_given sh (some lead) =
    if deref lead == b'-'
    then (some (drop 1 lead), record sh { argp = sh.argp + 1 })
    else (none, sh)

unfoldable pub dash_opts : Sh → Option Bytes × Sh
unfolding dash_given
dash_opts sh = dash_given sh (get_elem? sh.argv sh.argp)

unfoldable pub whole_number : Bytes → Option Parsed → Sh → Result (ℕ × Sh)
whole_number str none sh = fatal (invalid_number str)
whole_number str (some r) sh =
    if deref r.rest == 0 then ok (r.value, sh) else fatal (invalid_number str)

unfoldable pub shift_int : Sh → Result (ℕ × Sh)
unfolding shift whole_number parseint
shift_int sh = shift sh >>= λ (str, sh). whole_number str (parseint str) sh

unfoldable pub shift_u64 : Sh → Result (ℕ × Sh)
unfolding shift whole_number parseu64
shift_u64 sh = shift sh >>= λ (str, sh). whole_number str (parseu64 str) sh

unfoldable pub shift_oct : Sh → Result (ℕ × Sh)
unfolding shift whole_number parseoct
shift_oct sh = shift sh >>= λ (str, sh).
    if not (deref str == b'0')
    then fatal (invalid_octal str)
    else whole_number str (parseoct str) sh

unfoldable pub check : Sh → Bytes → ℤ → Result Sh
check sh what ret = if is_neg ret then fatal (failed what) else ok sh
