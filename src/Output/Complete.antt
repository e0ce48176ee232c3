-- ===== src/Output/Complete.antt =====
-- What was written and what is in the buffer are together all the bytes that were given.
use minibase.Base.{
  ◌-◌, ◌%◌, ◌<◌, ◌≡◌, refl, sym, ap, ◌∙◌, false, [], ◌∷◌, ◌++◌, arith, Bytes, length, take, drop,
  length-drop, take-append-drop, length-append, leb, ltb, ◌==◌, Bool-cases, inl, inr,
}
use mathlib.Core.List.{append_assoc, append-nil}
use native.Mathlib.Nat.{mod-le, mod-lt}
use minibase.Base.Int.{ℤ, pos, is_neg}
use minibase.Output.{Writer, BufOut, flush_with, direct, bufout}
use minibase.Output.Writeall.{WorksFrom, writeall-Wrote}

-- all the bytes of the output so far
abbrev pub stream : BufOut → Bytes
stream bo = bo.file.written ++ bo.held

-- `ptr` is inside the buffer.
abbrev pub IsOpen : BufOut → Type 0
IsOpen bo = length bo.held < bo.len

abbrev pub Passed : BufOut → Bytes → ℤ × BufOut → Type 0
Passed bo text (ret, bo') =
    (is_neg ret ≡ false) × (stream bo' ≡ stream bo ++ text) × IsOpen bo' × (bo'.len ≡ bo.len)

stream-empty : (bo : BufOut) → bo.held ≡ [] → stream bo ≡ bo.file.written
stream-empty bo empty = ap (◌++◌ bo.file.written) empty ∙ append-nil bo.file.written

length-zero : (xs : Bytes) → length xs ≡ 0 → xs ≡ []
length-zero [] e = refl
length-zero (x ∷ xs) e = absurd (omega arith)

module _ (w : Writer) (works : WorksFrom 0 w) where
  -- and the buffer is empty
  abbrev Flushed : BufOut → Bytes → ℤ × BufOut → Type 0
  Flushed bo text (ret, bo') =
      (is_neg ret ≡ false)
      × (bo'.file.written ≡ stream bo ++ text)
      × (bo'.held ≡ [])
      × (bo'.len ≡ bo.len)

  flush_with-Flushed : (bo : BufOut) (text : Bytes) → Flushed bo text (flush_with w bo text)
  unfolding flush_with
  flush_with-Flushed bo text =
      let all = writeall-Wrote w 0 works bo.file (bo.held ++ text) (omega arith) in
      (all.0, all.1 ∙ sym (append_assoc bo.file.written bo.held text), refl, refl)

  direct-Passed :
      (ret : ℤ) (bo : BufOut) (text : Bytes)
      → is_neg ret ≡ false
      → bo.held ≡ []
      → 0 < bo.len
      → Passed bo text (direct w (ret, bo) text)
  unfolding direct
  direct-Passed ret bo text good empty some_len = elim (Bool-cases (leb bo.len (length text))) [
    | inl long ↦
        let pass = length text - length text % bo.len in
        let all = writeall-Wrote w 0 works bo.file (take pass text) (omega arith) in
        rw long (
          all.0,
          ap (λ l. l ++ drop pass text) all.1
              ∙ append_assoc bo.file.written (take pass text) (drop pass text)
              ∙ ap (◌++◌ bo.file.written) (take-append-drop pass text)
              ∙ ap (λ l. l ++ text) (sym (stream-empty bo empty)),
          omega (
            arith,
            length-drop pass text,
            mod-le (length text) bo.len,
            mod-lt (length text) some_len,
          ),
          refl,
        )
    | inr short ↦
        rw short (good, ap (λ l. l ++ text) (sym (stream-empty bo empty)), ground arith, refl)
  ]

  Flushed-Passed :
      (bo : BufOut) (text : Bytes) (r : ℤ × BufOut)
      → 0 < bo.len
      → Flushed bo text r
      → Passed bo text r
  Flushed-Passed bo text (ret, bo') some_len f =
      (f.0, stream-empty bo' f.2 ∙ f.1, omega (arith, ap length f.2, f.3), f.3)

  -- the buffer filled up and written, and the rest behind it
  flush_first :
      (bo : BufOut) (text rest : Bytes) (r : ℤ × BufOut)
      → 0 < bo.len
      → Flushed bo text r
      → Passed bo (text ++ rest) (direct w r rest)
  flush_first bo text rest (ret, bo') some_len f =
      let p = direct-Passed ret bo' rest f.0 f.2 (omega (arith, f.3)) in
      (
        p.0,
        p.1 ∙ ap (λ l. l ++ rest) (stream-empty bo' f.2 ∙ f.1) ∙ append_assoc (stream bo) text rest,
        p.2,
        p.3 ∙ f.3,
      )

  -- Where each call of the kernel takes a byte at least, `bufout` fails not, what was written and what
  -- is in the buffer together have the bytes behind all that was there, in order, and the buffer is
  -- not full.
  pub bufout-Passed : (bo : BufOut) (text : Bytes) → IsOpen bo → Passed bo text (bufout w bo text)
  unfolding bufout
  bufout-Passed bo text open_ =
      let rem = bo.len - length bo.held in
      let some_len : 0 < bo.len = omega arith in
      elim (Bool-cases (leb (length text) rem)) [
        | inl fits ↦ elim (Bool-cases (ltb (length text) rem)) [
          | inl room ↦
              rw (fits, room)
                (
                  refl,
                  sym (append_assoc bo.file.written bo.held text),
                  ground (arith, length-append bo.held text),
                  refl,
                )
          | inr full ↦
              rw (fits, full)
                (Flushed-Passed bo text (flush_with w bo text) some_len
                  (flush_with-Flushed bo text))
        ]
        | inr long ↦ elim (Bool-cases (length bo.held == 0)) [
          | inl empty ↦
              rw (long, empty)
                (direct-Passed (pos 0) bo text refl (length-zero bo.held (ground arith)) some_len)
          | inr some_held ↦
              let p =
                flush_first bo (take rem text) (drop rem text) (flush_with w bo (take rem text))
                  some_len (flush_with-Flushed bo (take rem text)) in
              rw (long, some_held)
                (p.0, p.1 ∙ ap (◌++◌ (stream bo)) (take-append-drop rem text), p.2, p.3)
        ]
      ]
