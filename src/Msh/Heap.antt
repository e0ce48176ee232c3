-- ===== src/Msh/Heap.antt =====
-- The heap of msh: msh_common.c, and the assembly of strings in msh_parser.c.
pub mod Kept
use minibase.Base.{
  ℕ, ◌+◌, ◌-◌, ◌*◌, ◌/◌, some, [], ◌∷◌, ◌++◌, leb, ◌==◌, if◌then◌else◌, Bytes, length,
}
use minibase.Msh.State.{
  Sh, Result, ok, fatal, ◌>>=◌, Kernel, heap_init_failed, cannot_allocate_memory,
}

abbrev pub page : ℕ
page = 4096

-- up to the next multiple of a page
abbrev pub pagealign : ℕ → ℕ
pagealign n = (n + (page - 1)) / page * page

module _ (k : Kernel) where
  pub heap_init : Sh → Result Sh
  heap_init sh =
      if k.brk page
      then ok (record sh { asep = 0; hptr = 0; hend = page; env = []; args = [] })
      else fatal heap_init_failed

  unfoldable pub heap_extend : Sh → Result Sh
  heap_extend sh =
      if k.brk (sh.hend + page)
      then ok (record sh { hend = sh.hend + page })
      else fatal cannot_allocate_memory

  -- The pointer that is returned is the old `hptr`.
  unfoldable pub heap_alloc : Sh → ℕ → Result Sh
  heap_alloc sh len =
      let newptr = sh.hptr + len in
      let newend = sh.hend + pagealign (newptr - sh.hend) in
      if leb newptr sh.hend
      then ok (record sh { hptr = newptr })
      else if k.brk newend
      then ok (record sh { hend = newend; hptr = newptr })
      else fatal cannot_allocate_memory

  unfoldable pub push_char : Sh → ℕ → Result Sh
  unfolding heap_extend
  push_char sh c = (if leb sh.hend sh.hptr then heap_extend sh else ok sh) >>= λ sh.
      ok (record sh { args = sh.args ++ c ∷ []; hptr = sh.hptr + 1 })

  abbrev pub escape : ℕ → ℕ
  escape c = if c == b't' then b'\t' else if c == b'n' then b'\n' else c

  unfoldable pub push_esc : Sh → ℕ → Result Sh
  unfolding push_char
  push_esc sh c = push_char sh (escape c)

  unfoldable pub push_end : Sh → Result Sh
  unfolding push_char
  push_end sh = push_char sh 0

  unfoldable pub push_var : Sh → ℕ → Result Sh
  unfolding push_char
  push_var sh c = push_char (record sh { var = some (length sh.args) }) c

  -- `memcpy(heap_alloc(ctx, strlen(val)), val, strlen(val))`
  unfoldable pub push_text : Sh → Bytes → Result Sh
  unfolding heap_alloc
  push_text sh val = heap_alloc sh (length val) >>= λ sh. ok (record sh { args = sh.args ++ val })
