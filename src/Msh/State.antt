-- ===== src/Msh/State.antt =====
-- src/msh/msh.h: the context of the shell, and how a run of it can end. The bytes from `asep` on
-- are `args`, the records before it are `env`; addresses are counted from the start of the heap.
-- What only the reports of errors use (file, errfd) and what the parser does not touch (sigfd,
-- topargp) is left out.
use minibase.Base.{ℕ, ◌≡◌, refl, Bool, Option, List, Bytes}
use minibase.Base.Int.{ℤ}

pub data State : Type 0 where
  nil_ sep arg nibsl sebsl arbsl vsign vcont commt : State
  dquot dqbsl dqvsg dqvcn squot sqbsl trail : State

-- `struct env`: the lower half of the key, its flags, and the payload up to its NUL.
pub record Env : Type 0 where
  pub low : ℕ
  pub envp : Bool
  pub svar : Bool
  pub ref : Bool
  pub payload : Bytes

pub record Sh : Type 0 where
  pub line : ℕ
  pub environ : List Bytes
  pub customenvp : ℤ
  pub topargv : List Bytes
  pub state : State
  pub argp : ℕ
  pub argv : List Bytes
  pub env : List Env
  pub args : Bytes
  pub asep : ℕ
  pub hptr : ℕ
  pub hend : ℕ
  pub var : Option ℕ
  pub output : List (ℕ × Bytes)

-- The messages of `fatal`, with the argument where there is one.
pub data Fault : Type 0 where
  heap_init_failed cannot_allocate_memory internal_var_end quoted_command indirect_command : Fault
  misplaced_quotes missing_variable_name trailing_characters stray_nul unexpected_eof : Fault
  too_many_arguments too_few_arguments duplicate_definition variable_overflow : Fault
  reference_overflow argument_required read_failed : Fault
  unknown_command undefined_variable undefined_special invalid_name invalid_number invalid_octal :
      Bytes → Fault
  failed : Bytes → Fault

-- A routine returns, or the shell exits with a report, or with a code.
pub data Result {ℓ} (A : Type ℓ) : Type ℓ where
  ok : A → Result A
  fatal : Fault → Result A
  exited : ℕ → Result A

infixl 5 ◌>>=◌
abbrev pub ◌>>=◌ {ℓ κ} : {A : Type ℓ} {B : Type κ} → Result A → (A → Result B) → Result B
ok a >>= f = f a
fatal e >>= f = fatal e
exited n >>= f = exited n

pub >>=_assoc {ℓ κ μ} :
    {A : Type ℓ} {B : Type κ} {C : Type μ} (m : Result A) (f : A → Result B) (g : B → Result C)
    → (m >>= f >>= g) ≡ (m >>= λ a. f a >>= g)
>>=_assoc (ok a) f g = refl
>>=_assoc (fatal e) f g = refl
>>=_assoc (exited n) f g = refl

pub >>=-ok {ℓ} : {A : Type ℓ} (m : Result A) → (m >>= ok) ≡ m
>>=-ok (ok a) = refl
>>=-ok (fatal e) = refl
>>=-ok (exited n) = refl

-- What the kernel answers: whether it moves the end of the heap there, the pid of the shell, and
-- the results of writing to a descriptor and of changing the directory.
pub record Kernel : Type 0 where
  pub brk : ℕ → Bool
  pub pid : ℕ
  pub writeall : ℕ → Bytes → ℤ
  pub chdir : Bytes → ℤ

-- The commands of `builtins`, each for its function in the table.
pub data Cmd : Type 0 where
  cd chroot clearenv close delenv die echo exec exit getenv groups invoke mkdir mount : Cmd
  prctl reopen rlimit run scheduler set setcaps setcpus setenv setgid setprio setuid : Cmd
  sleep stderr stdin stdout stdtwo umask unlink waitfor warn write : Cmd

-- What `cc->func` does to the context.
abbrev pub Handlers : Type 0
Handlers = Cmd → Sh → Result Sh
