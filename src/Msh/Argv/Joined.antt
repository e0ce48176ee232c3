-- ===== src/Msh/Argv/Joined.antt =====
-- The argv that `execute` makes of the strings behind `asep` has just those strings.
use minibase.Base.{
  ℕ, zero, suc, ◌+◌, ◌≤◌, ◌≡◌, refl, sym, ap, ◌∙◌, false, leb, some, List, [], ◌∷◌, ◌++◌, arith,
  Bytes, length, drop, length-append,
}
use mathlib.Core.List.{append_assoc}
use minibase.Strings.Compare.{NulFree}
use minibase.Msh.Argv.{
  advance, c_string, count_from, count_args, index_from, index_args, strings_at,
}

-- Each string with its NUL.
unfoldable pub joined : List Bytes → Bytes
joined [] = []
joined (w ∷ ws) = w ++ 0 ∷ joined ws

abbrev pub AllNulFree : List Bytes → Type 0
AllNulFree [] = Unit {0}
AllNulFree (w ∷ ws) = NulFree w × AllNulFree ws

advance-word : (w rest : Bytes) → NulFree w → advance (w ++ 0 ∷ rest) ≡ some (length w)
unfolding advance
advance-word [] rest h = refl
advance-word (c ∷ w) rest h = rw (advance-word w rest h.1) (ground arith)

c_string-word : (w rest : Bytes) → NulFree w → c_string (w ++ 0 ∷ rest) ≡ w
unfolding c_string
c_string-word [] rest h = refl
c_string-word (c ∷ w) rest h = rw (c_string-word w rest h.1) (ground arith)

drop-word : (w rest : Bytes) → drop (length w + 1) (w ++ 0 ∷ rest) ≡ rest
drop-word [] rest = refl
drop-word (c ∷ w) rest =
    let e : suc (length w) + 1 ≡ suc (length w + 1) = omega arith in
    ap (λ n. drop n (c ∷ w ++ 0 ∷ rest)) e ∙ drop-word w rest

drop-pre : (pre rest : Bytes) → drop (length pre) (pre ++ rest) ≡ rest
drop-pre [] rest = refl
drop-pre (c ∷ pre) rest = drop-pre pre rest

count_from-joined :
    (rounds : ℕ) (ws : List Bytes)
    → AllNulFree ws
    → length (joined ws) ≤ rounds
    → count_from rounds (joined ws) ≡ length ws
unfolding count_from joined
count_from-joined zero [] h fits = refl
count_from-joined zero (w ∷ ws) h fits = absurd (omega (arith, length-append w (0 ∷ joined ws)))
count_from-joined (suc rounds) [] h fits = unfold advance in refl
count_from-joined (suc rounds) (w ∷ ws) h fits =
    rw (advance-word w (joined ws) h.0, drop-word w (joined ws))
      (ap suc (count_from-joined rounds ws h.1 (omega (arith, length-append w (0 ∷ joined ws)))))

-- `count_args` counts the strings.
pub count_args-joined : (ws : List Bytes) → AllNulFree ws → count_args (joined ws) ≡ length ws
unfolding count_args
count_args-joined ws h = count_from-joined (length (joined ws)) ws h (omega arith)

append-word : (pre w rest : Bytes) → pre ++ (w ++ 0 ∷ rest) ≡ (pre ++ (w ++ 0 ∷ [])) ++ rest
append-word pre w rest =
    ap (◌++◌ pre) (sym (append_assoc w (0 ∷ []) rest)) ∙ sym (append_assoc pre (w ++ 0 ∷ []) rest)

length-word : (pre w : Bytes) → length (pre ++ (w ++ 0 ∷ [])) ≡ length pre + length w + 1
length-word pre w = omega (arith, length-append pre (w ++ 0 ∷ []), length-append w (0 ∷ []))

strings_at-joined :
    (rounds i argc : ℕ) (pre : Bytes) (ws : List Bytes)
    → AllNulFree ws
    → length (joined ws) ≤ rounds
    → i + length ws ≤ argc
    → strings_at (pre ++ joined ws) (index_from rounds (length pre) (joined ws) i argc) ≡ ws
unfolding index_from joined strings_at
strings_at-joined zero i argc pre [] h fits room = refl
strings_at-joined zero i argc pre (w ∷ ws) h fits room =
    absurd (omega (arith, length-append w (0 ∷ joined ws)))
strings_at-joined (suc rounds) i argc pre [] h fits room = unfold advance in refl
strings_at-joined (suc rounds) i argc pre (w ∷ ws) h fits room =
    let more : leb argc i ≡ false = ground arith in
    let rest =
      strings_at-joined rounds (i + 1) argc (pre ++ (w ++ 0 ∷ [])) ws h.1
        (omega (arith, length-append w (0 ∷ joined ws))) (omega arith) in
    rw
      (
        advance-word w (joined ws) h.0,
        drop-word w (joined ws),
        more,
        drop-pre pre (w ++ 0 ∷ joined ws),
        c_string-word w (joined ws) h.0,
      )
      (ap (◌∷◌ w) (
        ap
          (λ l.
            strings_at l (index_from rounds (length pre + length w + 1) (joined ws) (i + 1) argc))
          (append-word pre w (joined ws))
        ∙ ap
            (λ n.
              strings_at ((pre ++ (w ++ 0 ∷ [])) ++ joined ws)
                (index_from rounds n (joined ws) (i + 1) argc))
            (sym (length-word pre w))
        ∙ rest))

-- With room for all of them, `index_args` finds the strings themselves.
pub index_args-joined :
    (ws : List Bytes)
    → AllNulFree ws
    → strings_at (joined ws) (index_args (joined ws) (length ws)) ≡ ws
unfolding index_args
index_args-joined ws h =
    strings_at-joined (length (joined ws)) 0 (length ws) [] ws h (omega arith) (omega arith)
