-- ===== src/Svchub/Proc/Find.antt =====
-- Services are found by their names, and a fork that fails goes unnoticed.
use minibase.Base.{
  ℕ, zero, suc, ◌+◌, ◌≤◌, ◌<◌, ◌≡◌, ◌≢◌, inl, inr, refl, sym, ◌∙◌, false, Option, none, some, List,
  [], ◌∷◌, arith, ◌==◌, Bool-cases, Bytes, length, get_or,
}
use minibase.Base.Int.{pos, negsuc}
use minibase.Strings.Compare.{strcmpn, is_zero, NulFree, strcmpn_iff}
use minibase.Svchub.State.{name_len, Proc, blank_proc, Top, Kernel, proc_at}
use minibase.Svchub.Proc.{
  returns, find_name_from, find_by_name, spawn_proc, spawn_path, spawn_forked,
}

-- every name is a C string of at most 16 bytes
abbrev pub AllNamed : List Proc → Type 0
AllNamed [] = Unit {0}
AllNamed (p ∷ ps) = NulFree p.name × (length p.name ≤ name_len) × AllNamed ps

-- the slot `i + skipped` is the first of the slots from `i` on with the name
record Hit (ps : List Proc) (left i : ℕ) (name : Bytes) (n : ℕ) : Type 0 where
  skipped : ℕ
  place : n ≡ i + skipped
  within : skipped < left
  same : (get_or ps skipped blank_proc).name ≡ name
  first : (j : ℕ) → j < skipped → (get_or ps j blank_proc).name ≢ name

abbrev FirstFrom : List Proc → ℕ → ℕ → Bytes → Option ℕ → Type 0
FirstFrom ps left i name none =
    (j : ℕ) → j < left → j < length ps → (get_or ps j blank_proc).name ≢ name
FirstFrom ps left i name (some n) = Hit ps left i name n

shifted :
    (p : Proc) (ps : List Proc) (left i : ℕ) (name : Bytes) (o : Option ℕ)
    → p.name ≢ name
    → FirstFrom ps left (i + 1) name o
    → FirstFrom (p ∷ ps) (suc left) i name o
shifted p ps left i name none ne h = later
  where
    later :
        (j : ℕ) → j < suc left → j < suc (length ps) → (get_or (p ∷ ps) j blank_proc).name ≢ name
    later zero k l = ne
    later (suc j) k l = h j (omega arith) (omega arith)
shifted p ps left i name (some n) ne h = record {
  skipped = suc h.skipped;
  place = omega (arith, h.place);
  within = omega (arith, h.within);
  same = h.same;
  first = earlier;
}
  where
    earlier : (j : ℕ) → j < suc h.skipped → (get_or (p ∷ ps) j blank_proc).name ≢ name
    earlier zero k = ne
    earlier (suc j) k = h.first j (omega arith)

find_name_from-First :
    (ps : List Proc) (left i : ℕ) (name : Bytes)
    → AllNamed ps
    → NulFree name
    → FirstFrom ps left i name (find_name_from ps left i name)
unfolding find_name_from
find_name_from-First [] left i name h k = λ j lt none_there. absurd (omega arith)
find_name_from-First (p ∷ ps) zero i name h k = λ j lt there. absurd (omega arith)
find_name_from-First (p ∷ ps) (suc left) i name h k =
    let same = strcmpn_iff p.name name name_len h.0 k h.1 in
    elim (Bool-cases (is_zero (strcmpn p.name name name_len))) [
      | inl hit ↦ rw hit (record {
        skipped = 0;
        place = omega arith;
        within = omega arith;
        same = same.0 hit;
        first = λ j lt. absurd (omega arith);
      })
      | inr miss ↦ rw miss (
          shifted p ps left i name (find_name_from ps left (i + 1) name)
            (λ e. cc (sym miss ∙ same.1 e)) (find_name_from-First ps left (i + 1) name h.2 k))
    ]

-- The slot is the first one in use with the name, and there is none without a result.
abbrev pub FirstNamed : Top → Bytes → Option ℕ → Type 0
FirstNamed c name none = (j : ℕ) → j < c.nprocs → j < length c.procs → (proc_at c j).name ≢ name
FirstNamed c name (some i) =
    (i < c.nprocs) × ((proc_at c i).name ≡ name) × ((j : ℕ) → j < i → (proc_at c j).name ≢ name)

first_named :
    (c : Top) (name : Bytes) (o : Option ℕ)
    → FirstFrom c.procs c.nprocs 0 name o
    → FirstNamed c name o
first_named c name none h = h
first_named c name (some i) h =
    let at_zero : i ≡ h.skipped = omega (arith, h.place) in rw at_zero (h.within, h.same, h.first)

-- `find_by_name` finds the first service with just that name, which is not empty, and nothing only if no
-- service has it.
pub find_by_name_lem :
    (c : Top) (name : Bytes)
    → AllNamed c.procs
    → NulFree name
    → name ≢ []
    → FirstNamed c name (find_by_name c name)
unfolding find_by_name
find_by_name_lem c [] h k ne = absurd (ne refl)
find_by_name_lem c (x ∷ name) h k ne =
    let nonzero : (x == 0) ≡ false = ground (arith, k.0) in
    rw nonzero (
      first_named c (x ∷ name) (find_name_from c.procs c.nprocs 0 (x ∷ name))
        (find_name_from-First c.procs c.nprocs 0 (x ∷ name) h k))

-- If the program is there and the pipe was made, but the fork fails, the result is that of a success,
-- and neither the table nor the number of live services has changed.
pub spawn_proc_no_fork :
    (k : Kernel) (c : Top) (i e : ℕ)
    → spawn_proc (record k { access = pos 0; pipe = pos 0; fork = negsuc e }) c i
      ≡ returns c (pos 0)
unfolding spawn_proc spawn_path spawn_forked
spawn_proc_no_fork k c i e = elim (Bool-cases (proc_at c i).flags.pass) [
  | inl pass ↦ rw pass refl
  | inr piped ↦ rw piped refl
]
