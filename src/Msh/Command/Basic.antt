-- ===== src/Msh/Command/Basic.antt =====
-- msh_cmd_base.c: the basic commands, and the table of the functions.
use minibase.Base.{ℕ, [], ◌∷◌, ◌++◌, if◌then◌else◌, codes}
use minibase.Msh.State.{
  Sh, Result, ok, exited, ◌>>=◌, Kernel, Handlers, cd, clearenv, delenv, die, echo, exit, getenv,
  set, setenv, warn,
}
use minibase.Msh.Command.Arguments.{shift, shift_int, got_more_arguments, no_more_arguments, check}
use minibase.Msh.Command.Envp.{cmd_set, cmd_setenv, cmd_getenv, cmd_delenv, cmd_clearenv}

module _ (k : Kernel) where
  unfoldable pub cmd_cd : Sh → Result Sh
  unfolding shift no_more_arguments check
  cmd_cd sh = shift sh >>= λ (dir, sh). no_more_arguments sh >>= λ sh. check sh dir (k.chdir dir)

  unfoldable pub cmd_exit : Sh → Result Sh
  unfolding shift_int got_more_arguments no_more_arguments
  cmd_exit sh = (if got_more_arguments sh then shift_int sh else ok (0, sh)) >>= λ (code, sh).
      no_more_arguments sh >>= λ sh. exited code

  -- What was written is noted in `output`. The NUL behind the message is a line feed for the write.
  unfoldable pub print : Sh → ℕ → Result Sh
  unfolding shift no_more_arguments check
  print sh fd = shift sh >>= λ (msg, sh). no_more_arguments sh >>= λ sh.
      let text = msg ++ b'\n' ∷ [] in
      check (record sh { output = sh.output ++ (fd, text) ∷ [] }) (codes "write")
        (k.writeall fd text)

  unfoldable pub cmd_echo : Sh → Result Sh
  unfolding print
  cmd_echo sh = print sh 1

  unfoldable pub cmd_warn : Sh → Result Sh
  unfolding print
  cmd_warn sh = print sh 2

  unfoldable pub cmd_die : Sh → Result Sh
  unfolding cmd_warn
  cmd_die sh = cmd_warn sh >>= λ sh. exited 255

  -- The commands that are modelled; `others` stands for the ones that only call the kernel.
  unfoldable pub commands : Handlers → Handlers
  unfolding cmd_cd cmd_exit cmd_echo cmd_warn cmd_die cmd_set cmd_setenv cmd_getenv cmd_delenv
      cmd_clearenv
  commands others cd sh = cmd_cd sh
  commands others exit sh = cmd_exit sh
  commands others echo sh = cmd_echo sh
  commands others warn sh = cmd_warn sh
  commands others die sh = cmd_die sh
  commands others set sh = cmd_set k sh
  commands others setenv sh = cmd_setenv k sh
  commands others getenv sh = cmd_getenv sh
  commands others delenv sh = cmd_delenv k sh
  commands others clearenv sh = cmd_clearenv sh
  commands others cc sh = others cc sh
