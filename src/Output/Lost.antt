-- ===== src/Output/Lost.antt =====
-- An error of the write that empties the buffer, where whole blocks are written behind it.
use minibase.Base.{
  ℕ, ◌+◌, ◌-◌, ◌*◌, ◌%◌, ◌≤◌, ◌<◌, ◌≡◌, refl, true, false, [], ◌∷◌, ◌++◌, arith, Bytes, length,
  length-drop, take, drop, length-take, length-append, leb, ◌==◌,
}
use mathlib.Core.List.{append-nil}
use minibase.Base.Int.{ℤ, negsuc, is_neg}
use minibase.Output.{Writer, File, took, writeall, BufOut, flush_with, direct, bufout}
use minibase.Output.Writeall.{WorksFrom, writeall-Wrote}
use minibase.Output.Complete.{IsOpen}

-- The buffer is empty, and a write has failed.
abbrev emptied : BufOut → BufOut
emptied bo = record bo {
  held = [];
  file = record { written = bo.file.written; calls = bo.file.calls + 1 };
}

module _ (w : Writer) where
  failed_write :
      (f : File) (c : ℕ) (cs : Bytes) (e : ℕ)
      → w f.calls (length (c ∷ cs)) ≡ negsuc e
      → writeall w f (c ∷ cs) ≡ (negsuc e, took f (c ∷ cs) 0)
  unfolding writeall
  failed_write f c cs e fails = rw fails refl

  failed_flush :
      (bo : BufOut) (text : Bytes) (e : ℕ)
      → 0 < length bo.held
      → w bo.file.calls (length (bo.held ++ text)) ≡ negsuc e
      → (flush_with w bo text).1 ≡ emptied bo
  unfolding flush_with
  failed_flush bo text e some_held fails = go bo.held some_held fails
    where
      go :
          (held : Bytes)
          → 0 < length held
          → w bo.file.calls (length (held ++ text)) ≡ negsuc e
          → record bo { held = []; file = (writeall w bo.file (held ++ text)).1 } ≡ emptied bo
      go [] some_held fails = absurd (omega arith)
      go (c ∷ cs) some_held fails =
          rw (failed_write bo.file c (cs ++ text) e fails)
            (unfold took in rw (append-nil bo.file.written) refl)

  Direct : BufOut → Bytes → ℤ × BufOut → Type 0
  Direct bo rest (ret, bo') =
      (is_neg ret ≡ false)
      × (bo'.file.written ≡ bo.file.written ++ take (length rest - length rest % bo.len) rest)

  direct-whole :
      (ret : ℤ) (bo : BufOut) (rest : Bytes)
      → WorksFrom bo.file.calls w
      → bo.len ≤ length rest
      → Direct bo rest (direct w (ret, bo) rest)
  unfolding direct Direct
  direct-whole ret bo rest works long =
      let test : leb bo.len (length rest) ≡ true = ground arith in
      rw test (
        writeall-Wrote w bo.file.calls works bo.file
          (take (length rest - length rest % bo.len) rest) (omega arith))

  lost_first :
      (first : ℤ × BufOut) (bo : BufOut) (rest : Bytes)
      → WorksFrom bo.file.calls w
      → first.1 ≡ bo
      → bo.len ≤ length rest
      → Direct bo rest (direct w first rest)
  lost_first (ret, bo') bo rest works is long = rw is (direct-whole ret bo rest works long)

  -- The write of the full buffer fails, but with a whole block behind it, which the next writes take,
  -- `bufout` returns no error, though what was in the buffer and what went into it are lost.
  pub bufout_lost :
      (bo : BufOut) (text : Bytes) (e : ℕ)
      → IsOpen bo
      → 0 < length bo.held
      → 2 * bo.len ≤ length text + length bo.held
      → w bo.file.calls bo.len ≡ negsuc e
      → WorksFrom (bo.file.calls + 1) w
      → let rest = drop (bo.len - length bo.held) text in
        let (ret, bo') = bufout w bo text in
        (is_neg ret ≡ false)
        × (bo'.file.written ≡ bo.file.written ++ take (length rest - length rest % bo.len) rest)
  unfolding bufout Direct
  bufout_lost bo text e open_ some_held long fails works =
      let rem = bo.len - length bo.held in
      let rest = drop rem text in
      let too_long : leb (length text) rem ≡ false = ground arith in
      let held_some : (length bo.held == 0) ≡ false = ground arith in
      let whole : length (bo.held ++ take rem text) ≡ bo.len =
        omega (arith, length-append bo.held (take rem text), length-take rem text) in
      let fails' : w bo.file.calls (length (bo.held ++ take rem text)) ≡ negsuc e =
        rw whole fails in
      rw (too_long, held_some)
        (lost_first (flush_with w bo (take rem text)) (emptied bo) rest works
          (failed_flush bo (take rem text) e some_held fails')
          (omega (arith, length-drop rem text)))
