-- ===== src/Output.antt =====
-- lib/output.c and lib/util/writeall.c: buffered output over a descriptor that may take less than
-- it is given, or fail.
pub mod Writeall
pub mod Complete
pub mod Lost
use minibase.Base.{
  ℕ, zero, suc, ◌+◌, ◌-◌, ◌%◌, [], ◌∷◌, ◌++◌, leb, ltb, ◌==◌, if◌then◌else◌, Bytes, length, take,
  drop,
}
use minibase.Base.Int.{ℤ, pos, negsuc}

-- What `sys_write` returns for the call of this number with this many bytes.
abbrev pub Writer : Type 0
Writer = ℕ → ℕ → ℤ

-- What the descriptor has taken, and how many calls there were.
pub record File : Type 0 where
  pub written : Bytes
  pub calls : ℕ

-- `-EPIPE`
abbrev pub epipe : ℤ
epipe = negsuc 31

-- the file behind a call that took `n` of the bytes
unfoldable pub took : File → Bytes → ℕ → File
took f buf n = record { written = f.written ++ take n buf; calls = f.calls + 1 }

write_result : ℤ → File → Bytes → (ℕ → ℤ × File) → ℤ × File
unfolding took
write_result (pos zero) f buf more = (epipe, took f buf 0)
write_result (pos (suc n)) f buf more = more (suc n)
write_result (negsuc e) f buf more = (negsuc e, took f buf 0)

-- The loop; every round writes a byte at least, so as many rounds as there are bytes are enough.
unfoldable pub write_loop : Writer → ℕ → File → Bytes → ℤ → ℤ × File
unfolding write_result took
write_loop w rounds f [] wr = (wr, f)
write_loop w zero f (c ∷ cs) wr = (wr, f)
write_loop w (suc rounds) f (c ∷ cs) wr =
    write_result (w f.calls (length (c ∷ cs))) f (c ∷ cs)
      λ n. write_loop w rounds (took f (c ∷ cs) n) (drop n (c ∷ cs)) (pos n)

unfoldable pub writeall : Writer → File → Bytes → ℤ × File
unfolding write_loop
writeall w f buf = write_loop w (length buf) f buf (pos 0)

-- The bytes before `ptr` are `held`.
pub record BufOut : Type 0 where
  pub held : Bytes
  pub len : ℕ
  pub file : File

unfoldable pub bufoutset : File → ℕ → BufOut
bufoutset f len = record { held = []; len = len; file = f }

module _ (w : Writer) where
  -- Write the bytes before `ptr` with `data` behind them, and set `ptr` to 0.
  unfoldable pub flush_with : BufOut → Bytes → ℤ × BufOut
  unfolding writeall
  flush_with bo text =
      let (ret, f) = writeall w bo.file (bo.held ++ text) in
      (ret, record bo { held = []; file = f })

  -- the last part: what is left goes into the empty buffer
  abbrev keep_tail : ℤ × BufOut → Bytes → ℤ × BufOut
  keep_tail (ret, bo) text = (ret, record bo { held = text })

  -- Whole blocks are written from `data` itself; `ret` is the result so far.
  unfoldable pub direct : ℤ × BufOut → Bytes → ℤ × BufOut
  unfolding writeall
  direct (ret, bo) text =
      let pass = length text - length text % bo.len in
      let (ret', f) = writeall w bo.file (take pass text) in
      if leb bo.len (length text)
      then keep_tail (ret', record bo { file = f }) (drop pass text)
      else keep_tail (ret, bo) text

  unfoldable pub bufout : BufOut → Bytes → ℤ × BufOut
  unfolding flush_with direct
  bufout bo text =
      let rem = bo.len - length bo.held in
      let full = flush_with bo text in
      let first = flush_with bo (take rem text) in
      if leb (length text) rem
      then (if ltb (length text) rem then (pos 0, record bo { held = bo.held ++ text }) else full)
      else if length bo.held == 0
      then direct (pos 0, bo) text
      else direct first (drop rem text)

  unfoldable pub bufoutflush : BufOut → ℤ × BufOut
  unfolding flush_with
  bufoutflush bo = if length bo.held == 0 then (pos 0, bo) else flush_with bo []
