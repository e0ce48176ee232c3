-- ===== src/Msh/Command/Room.antt =====
-- The commands on the environment never write their records past the strings on top of the heap.
use minibase.Base.{
  ℕ, ◌+◌, ◌-◌, ◌*◌, ◌≤◌, ◌≡◌, refl, Option, none, some, List, [], ◌∷◌, arith, Bytes, length,
  length-append, get_elem?, Bool-cases, inl, inr, if◌then◌else◌,
}
use minibase.Base.Int.{pos, is_neg}
use minibase.Msh.State.{Env, Sh, ok, ◌>>=◌, Kernel}
use minibase.Msh.Heap.{heap_alloc}
use minibase.Msh.Heap.Kept.{Ends, Ends->>=, pagealign_le}
use minibase.Msh.Env.{header, size_of, total, Kind, envp, svar}
use minibase.Msh.Command.Arguments.{shift, shift_given, no_more_arguments}
use minibase.Msh.Command.Records.{
  aligned, pair, check_valid_name, check_not_defined, clear_from, clear_definition,
  clear_entries_from, clear_all_entries, variable, append_variable, reference, append_reference,
  reserve_orig_envp, references_from, start_custom_envp,
}
use minibase.Msh.Command.Lookup.{total-append}

-- The records end at `asep`, and there are `n` bytes at least before `hptr`.
abbrev pub Room : ℕ → Sh → Type 0
Room n sh = (sh.asep ≡ total sh.env) × (sh.asep + n ≤ sh.hptr) × (sh.hptr ≤ sh.hend)

-- what `start_custom_envp` takes
abbrev pub need : Sh → ℕ
need sh = if is_neg sh.customenvp then header * length sh.environ else 0

abbrev pub Ready : ℕ → Sh → Type 0
Ready n sh = Room (n + need sh) sh

pub shift-Room : (n : ℕ) (sh : Sh) → Room n sh → Ends (λ (text, sh). Room n sh) (shift sh)
unfolding shift shift_given
shift-Room n sh r = given (get_elem? sh.argv sh.argp)
  where
    given : (o : Option Bytes) → Ends (λ (text, sh). Room n sh) (shift_given sh o)
    given none = λ e. cc
    given (some text) = r

pub no_more_arguments-Room : (n : ℕ) (sh : Sh) → Room n sh → Ends (Room n) (no_more_arguments sh)
unfolding no_more_arguments
no_more_arguments-Room n sh r = ground arith

pub check_valid_name-Room :
    (n : ℕ) (sh : Sh) (name : Bytes) → Room n sh → Ends (Room n) (check_valid_name sh name)
unfolding check_valid_name
check_valid_name-Room n sh name r = ground arith

pub check_not_defined-Room :
    (n : ℕ) (sh : Sh) (name : Bytes) → Room n sh → Ends (Room n) (check_not_defined sh name)
unfolding check_not_defined
check_not_defined-Room n sh name r = ground arith

pub heap_alloc-Ready :
    (k : Kernel) (n len : ℕ) (sh : Sh) → Ready n sh → Ends (Ready (n + len)) (heap_alloc k sh len)
unfolding heap_alloc
heap_alloc-Ready k n len sh r = ground (arith, pagealign_le (sh.hptr + len - sh.hend))

pub heap_alloc-Room :
    (k : Kernel) (n len : ℕ) (sh : Sh) → Room n sh → Ends (Room (n + len)) (heap_alloc k sh len)
unfolding heap_alloc
heap_alloc-Room k n len sh r = ground (arith, pagealign_le (sh.hptr + len - sh.hend))

pub reserve-Ready :
    (k : Kernel) (n : ℕ) (sh : Sh) → Room n sh → Ends (Ready n) (reserve_orig_envp k sh)
unfolding reserve_orig_envp
reserve-Ready k n sh r =
    ground (arith, pagealign_le (sh.hptr + (length sh.environ + 1) * header - sh.hend))

pub append_reference-Room :
    (n idx : ℕ) (kind : Kind) (sh : Sh)
    → Room (n + header) sh
    → Ends (Room n) (append_reference sh idx kind)
unfolding append_reference reference
append_reference-Room n idx kind sh r = ground (arith, total-append sh.env (reference idx kind))

pub references_from-Room :
    (n i : ℕ) (vars : List Bytes) (sh : Sh)
    → Room (n + header * length vars) sh
    → Ends (Room n) (references_from i vars sh)
unfolding references_from
references_from-Room n i [] sh r = (r.0, omega arith, r.2)
references_from-Room n i (var ∷ vars) sh r =
    Ends->>= (Room (n + header * length vars)) (Room n) (append_reference sh i envp) _
      (append_reference-Room (n + header * length vars) i envp sh (r.0, omega arith, r.2))
      (λ sh r. references_from-Room n (i + 1) vars sh r)

pub start_custom_envp-Room : (n : ℕ) (sh : Sh) → Ready n sh → Ends (Room n) (start_custom_envp sh)
unfolding start_custom_envp
start_custom_envp-Room n sh r = elim (Bool-cases (is_neg sh.customenvp)) [
  | inl first ↦
      let room : Room (n + header * length sh.environ) sh = rw first at r in
      let start : Ends (Room n) (
          references_from 0 sh.environ sh >>= λ sh.
          ok (record sh { customenvp = pos (length sh.environ) })) =
        Ends->>= (Room n) (Room n) (references_from 0 sh.environ sh) _
          (references_from-Room n 0 sh.environ sh room) (λ sh r. r) in
      ground (arith, first, start)
  | inr own ↦ ground (arith, own)
]

pub append_variable-Room :
    (n : ℕ) (var : Bytes) (kind : Kind) (sh : Sh)
    → Room n sh
    → size_of (variable var kind) ≤ n
    → Ends (Room 0) (append_variable sh var kind)
unfolding append_variable variable
append_variable-Room n var kind sh r fits = ground (arith, total-append sh.env (variable var kind))

-- An alignment takes three bytes at most, and keeps the order.
pub aligned-pair :
    (key val : Bytes)
    → size_of (variable (pair key val) envp) ≤ 4 + aligned (length key + length val + 2)
unfolding variable aligned
aligned-pair key val = omega (arith, length-append key (b'=' ∷ val))

total-clear_from :
    (environ : List Bytes) (name : Bytes) (e : List Env)
    → total (clear_from environ name e) ≡ total e
unfolding clear_from
total-clear_from environ name [] = refl
total-clear_from environ name (x ∷ e) = ground (arith, total-clear_from environ name e)

pub clear_definition-Room :
    (n : ℕ) (sh : Sh) (name : Bytes) → Room n sh → Room n (clear_definition sh name)
unfolding clear_definition
clear_definition-Room n sh name r = ground (arith, total-clear_from sh.environ name sh.env)

total-clear_entries : (kind : Kind) (e : List Env) → total (clear_entries_from kind e) ≡ total e
unfolding clear_entries_from
total-clear_entries envp [] = refl
total-clear_entries envp (x ∷ e) = ground (arith, total-clear_entries envp e)
total-clear_entries svar [] = refl
total-clear_entries svar (x ∷ e) = ground (arith, total-clear_entries svar e)

pub clear_all_entries-Room :
    (n : ℕ) (sh : Sh) (kind : Kind) → Room n sh → Room n (clear_all_entries sh kind)
unfolding clear_all_entries
clear_all_entries-Room n sh kind r = ground (arith, total-clear_entries kind sh.env)
