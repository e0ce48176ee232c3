-- ===== src/Output/Writeall.antt =====
-- What `writeall` has written when it returns.
use minibase.Base.{
  ℕ, zero, suc, ◌≤◌, ◌≡◌, refl, sym, ap, ◌∙◌, false, [], ◌∷◌, ◌++◌, arith, Bytes, length, take,
  drop, length-drop, take-append-drop,
}
use mathlib.Core.List.{append_assoc, append-nil}
use minibase.Base.Int.{ℤ, pos, is_neg}
use minibase.Output.{Writer, File, took, write_loop, writeall}

-- From a call on, each takes a byte at least, and no more than it was given.
abbrev pub WorksFrom : ℕ → Writer → Type 0
WorksFrom start w = (i n : ℕ) → start ≤ i → (k : ℕ) × (w i (suc n) ≡ pos (suc k)) × (k ≤ n)

-- a call that did what it should
abbrev pub Wrote : File → Bytes → ℤ × File → Type 0
Wrote f buf (ret, f') = (is_neg ret ≡ false) × (f'.written ≡ f.written ++ buf)

module _ (w : Writer) (start : ℕ) (works : WorksFrom start w) where
  write_loop-Wrote :
      (rounds : ℕ) (f : File) (buf : Bytes) (wr : ℕ)
      → start ≤ f.calls
      → length buf ≤ rounds
      → Wrote f buf (write_loop w rounds f buf (pos wr))
  unfolding write_loop took
  write_loop-Wrote zero f [] wr from fits = (refl, sym (append-nil f.written))
  write_loop-Wrote zero f (c ∷ cs) wr from fits = absurd (omega arith)
  write_loop-Wrote (suc rounds) f [] wr from fits = (refl, sym (append-nil f.written))
  write_loop-Wrote (suc rounds) f (c ∷ cs) wr from fits =
      let (k, answer, le) = works f.calls (length cs) from in
      let rest =
        write_loop-Wrote rounds (took f (c ∷ cs) (suc k)) (drop (suc k) (c ∷ cs)) (suc k)
          (omega arith) (omega (arith, length-drop k cs)) in
      rw answer (
        rest.0,
        rest.1
            ∙ append_assoc f.written (take (suc k) (c ∷ cs)) (drop (suc k) (c ∷ cs))
            ∙ ap (◌++◌ f.written) (take-append-drop (suc k) (c ∷ cs)),
      )

  -- Where each call takes a byte at least, all the bytes are written.
  pub writeall-Wrote : (f : File) (buf : Bytes) → start ≤ f.calls → Wrote f buf (writeall w f buf)
  unfolding writeall
  writeall-Wrote f buf from = write_loop-Wrote (length buf) f buf 0 from (omega arith)
