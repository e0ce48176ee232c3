-- ===== src/Format/Pad/Sound.antt =====
-- Padding keeps the text and fills up to the width; on the left it does not mind the end.
use mathlib.Core.Path.{ap₂}
use native.Mathlib.Decide.{dec_lt}
use minibase.Base.{
  ℕ, zero, suc, ◌+◌, ◌-◌, ◌≤◌, ◌<◌, ◌≡◌, refl, sym, ap, ◌∙◌, inl, inr, ◌⊎◌, true, false, ◌&&◌, ◌||◌,
  ◌∷◌, ◌++◌, arith, ltb, if◌then◌else◌, Bool-cases, replicate,
}
use minibase.Base.Memory.{Memory, store, load, load-append, load_cong, Frame}
use minibase.Format.Put.{put, put_full}
use minibase.Format.Pad.{move_up, fill_down, shift_of, fmtpad, pad_right, fmtpadr}

-- the memory after one round of `move_up`
abbrev moved_once : Memory → ℕ → ℕ → ℕ → ℕ → Memory
moved_once m p e shift left =
    let z = p + shift + left in if ltb z e then store m z (m (z - shift)) else m

still :
    (left : ℕ) (m : Memory) (p e shift a : ℕ)
    → (a < p + shift) ⊎ (p + shift + left ≤ a)
    → move_up left m p e shift a ≡ m a
unfolding move_up
still zero m p e shift a h = refl
still (suc left) m p e shift a h =
    ground (arith, still left (moved_once m p e shift left) p e shift a)

-- the bytes from `p + shift` on have moved up, but for those that fall behind `e`
moved :
    (left : ℕ) (m : Memory) (p e shift a : ℕ)
    → p + shift ≤ a
    → a < p + shift + left
    → a < e
    → move_up left m p e shift a ≡ m (a - shift)
unfolding move_up
moved zero m p e shift a lo hi room = absurd (omega arith)
moved (suc left) m p e shift a lo hi room = elim (dec_lt a (p + shift + left)) [
  | yes below ↦ moved left (moved_once m p e shift left) p e shift a lo below room ∙ ground arith
  | no ge ↦
      let top : a ≡ p + shift + left = omega arith in
      still left (moved_once m p e shift left) p e shift a (omega arith) ∙ ground arith
]

unfilled :
    (left : ℕ) (m : Memory) (p c a : ℕ) → (a < p) ⊎ (p + left ≤ a) → fill_down left m p c a ≡ m a
unfolding fill_down
unfilled zero m p c a h = refl
unfilled (suc left) m p c a h = ground (arith, unfilled left (store m (p + left) c) p c a)

filled : (left : ℕ) (m : Memory) (p c a : ℕ) → p ≤ a → a < p + left → fill_down left m p c a ≡ c
unfolding fill_down
filled zero m p c a lo hi = absurd (omega arith)
filled (suc left) m p c a lo hi = elim (dec_lt a (p + left)) [
  | yes below ↦ filled left (store m (p + left) c) p c a lo below
  | no ge ↦ unfilled left (store m (p + left) c) p c a (omega arith) ∙ ground arith
]

load_const :
    (m : Memory) (p n c : ℕ) → ((a : ℕ) → p ≤ a → a < p + n → m a ≡ c) → load m p n ≡ replicate n c
load_const m p zero c h = refl
load_const m p (suc n) c h =
    ap₂ ◌∷◌ (h p (omega arith) (omega arith))
      (load_const m (p + 1) n c (λ a lo hi. h a (omega arith) (omega arith)))

-- the text at `from` in one memory is the text at `to` in another
load_shift :
    (m m' : Memory) (to shift n : ℕ)
    → ((a : ℕ) → to + shift ≤ a → a < to + shift + n → m' a ≡ m (a - shift))
    → load m' (to + shift) n ≡ load m to n
load_shift m m' to shift zero h = refl
load_shift m m' to shift (suc n) h =
    ap₂ ◌∷◌ (h (to + shift) (omega arith) (omega arith) ∙ ap m (omega arith)) (
      load_cong m' (to + shift + 1) (to + 1 + shift) n n (omega arith) refl
      ∙ load_shift m m' (to + 1) shift n (λ a lo hi. h a (omega arith) (omega arith)))

module _ (m : Memory) (p e width q : ℕ) (le : p ≤ q) (fits : p + width ≤ e)
    (short : q ≤ p + width) where
  padded_up : ℕ → Memory
  padded_up c = fill_down (shift_of p width q) (move_up (q - p) m p e (shift_of p width q)) p c

  -- the fill, then the text that stood at `p .. q`
  load-padded_up :
      (c : ℕ) → load (padded_up c) p width ≡ replicate (shift_of p width q) c ++ load m p (q - p)
  unfolding padded_up
  load-padded_up c =
      let shift = shift_of p width q in
      load_cong (padded_up c) p p width (shift + (q - p)) refl (omega arith)
      ∙ load-append (padded_up c) p shift (q - p)
      ∙ ap₂ ◌++◌
          (load_const (padded_up c) p shift c
            (λ a lo hi. filled shift (move_up (q - p) m p e shift) p c a lo hi))
          (load_shift m (padded_up c) p shift (q - p) (λ a lo hi.
            unfilled shift (move_up (q - p) m p e shift) p c a (inr lo)
            ∙ moved (q - p) m p e shift a lo hi (omega arith)))

  Frame-padded_up : (c : ℕ) → Frame p (p + width) m (padded_up c)
  unfolding padded_up
  Frame-padded_up c a h =
      let shift = shift_of p width q in
      unfilled shift (move_up (q - p) m p e shift) p c a (omega arith)
      ∙ still (q - p) m p e shift a (omega arith)

  in_order : ((ltb q p || ltb e q) ≡ false) × (ltb (width + p) q ≡ false)
  in_order = ground arith

  -- A text of at most `width` bytes is moved to the right end of a field of that width, and blanks
  -- are put before it. Nothing else is written.
  pub fmtpad_lem :
      let o = fmtpad m p e width q in
      (o.ptr ≡ p + width)
      × (load o.mem p width ≡ replicate (width - (q - p)) b' ' ++ load m p (q - p))
      × Frame p (p + width) m o.mem
  unfolding fmtpad padded_up
  fmtpad_lem =
      rw (in_order.0, in_order.1)
        (
          omega arith,
          load-padded_up b' '
              ∙ ap (λ n. replicate n b' ' ++ load m p (q - p))
                  (let e : shift_of p width q ≡ width - (q - p) = omega arith in e),
          Frame-padded_up b' ',
        )

-- Where the field does not fit before `e`, the blanks are written behind `e` all the same.
pub fmtpad_overrun :
    (m : Memory) (p e width q a : ℕ)
    → p ≤ q
    → q ≤ e
    → e ≤ a
    → a + q < width + p + p
    → (fmtpad m p e width q).mem a ≡ b' '
unfolding fmtpad
fmtpad_overrun m p e width q a h k l room =
    let order : (ltb q p || ltb e q) ≡ false = ground arith in
    let short : ltb (width + p) q ≡ false = ground arith in
    rw (order, short)
      (filled (shift_of p width q) (move_up (q - p) m p e (shift_of p width q)) p b' ' a
        (omega arith) (omega arith))

pad_right-put :
    (fuel : ℕ) (m : Memory) (t e q : ℕ)
    → e - q ≤ fuel
    → pad_right fuel m t e q ≡ put m q e (replicate (t - q) b' ')
unfolding pad_right
pad_right-put zero m t e q h = sym (put_full m q e (replicate (t - q) b' ') (omega arith))
pad_right-put (suc fuel) m t e q h = elim (Bool-cases (ltb q t && ltb q e)) [
  | inl more ↦
      let left : t - q ≡ suc (t - (q + 1)) = ground arith in
      let room : ltb q e ≡ true = ground arith in
      rw (more, left, room) (pad_right-put fuel (store m q b' ') t e (q + 1) (omega arith))
  | inr stop ↦ rw stop (sym (stopped (t - q) (ground arith)))
]
  where
    stopped :
        (n : ℕ) → (n ≡ 0) ⊎ (e ≤ q) → put m q e (replicate n b' ') ≡ record { mem = m; ptr = q }
    stopped n (inl z) = rw z
    stopped n (inr full) = put_full m q e (replicate n b' ') full

-- On the right, blanks are put up to the width, and cut off at `e`.
pub fmtpadr-put :
    (m : Memory) (p e width q : ℕ)
    → p ≤ q
    → q ≤ e
    → fmtpadr m p e width q ≡ put m q e (replicate (p + width - q) b' ')
unfolding fmtpadr
fmtpadr-put m p e width q h k =
    let order : (ltb q p || ltb e q) ≡ false = ground arith in
    rw order (pad_right-put (e - q) m (p + width) e q (omega arith))
