-- ===== src/Format/Number/Sound.antt =====
-- The formatters that write from the last digit put the digits in order, cut off at `end`.
use minibase.Base.{
  ℕ, zero, suc, ◌+◌, ◌-◌, ◌/◌, ◌%◌, ◌≤◌, ◌<◌, ◌≡◌, refl, sym, ap, ◌∙◌, ◌∷◌, arith, ltb, lt→ltb,
  if◌then◌else◌, Bytes, length, true,
}
use minibase.Base.Int.{ℤ, pos, negsuc, is_neg}
use minibase.Base.Memory.{Memory, store}
use minibase.Format.Put.{put, put_last, ptr-put, put-store_before, Out_path}
use minibase.Format.Write.{hex_digit}
use minibase.Format.Number.{
  max_digits, count_digits, write_decimal, write_hex, write_hex64, fmtint64, fmtu64, fmti64, fmtulp,
  fmthex, fmtx64,
}
use minibase.Format.Number.Digits.{digits, length-digits}

abbrev pub dec_digit : ℕ → ℕ
dec_digit d = b'0' + d

-- the text of a number without padding
unfoldable pub decimal : ℕ → Bytes
decimal n = digits 10 dec_digit (count_digits 10 max_digits n 1) n

unfoldable pub hexadecimal : ℕ → Bytes
hexadecimal n = digits 16 hex_digit (count_digits 16 max_digits n 1) n

pub write_decimal-put :
    (left : ℕ) (m : Memory) (buf p end num : ℕ)
    → p ≡ buf + left - 1
    → write_decimal left m p end num ≡ (put m buf end (digits 10 dec_digit left num)).mem
unfolding write_decimal
write_decimal-put zero m buf p end num h = refl
write_decimal-put (suc left) m buf p end num h =
    write_decimal-put left (if ltb p end then store m p (b'0' + num % 10) else m) buf (p - 1) end
      (num / 10) (omega arith)
    ∙ put_last m buf end p (b'0' + num % 10) (digits 10 dec_digit left (num / 10))
        (omega (arith, length-digits 10 dec_digit left (num / 10)))

write_hex-put :
    (left : ℕ) (m : Memory) (buf p end num : ℕ)
    → p ≡ buf + left - 1
    → write_hex left m p end num ≡ (put m buf end (digits 16 hex_digit left num)).mem
unfolding write_hex
write_hex-put zero m buf p end num h = refl
write_hex-put (suc left) m buf p end num h =
    write_hex-put left (if ltb p end then store m p (hex_digit (num % 16)) else m) buf (p - 1) end
      (num / 16) (omega arith)
    ∙ put_last m buf end p (hex_digit (num % 16)) (digits 16 hex_digit left (num / 16))
        (omega (arith, length-digits 16 hex_digit left (num / 16)))

-- `p` reaches `buf` in the last round only.
write_hex64-put :
    (left : ℕ) (m : Memory) (buf p end num : ℕ)
    → p ≡ buf + left - 1
    → write_hex64 left m buf p end num ≡ (put m buf end (digits 16 hex_digit left num)).mem
unfolding write_hex64
write_hex64-put zero m buf p end num h = refl
write_hex64-put (suc left) m buf p end num h =
    write_hex64-put left (if ltb p end then store m p (hex_digit (num % 16)) else m) buf
      (if ltb p buf then p else p - 1) end (num / 16) (ground arith)
    ∙ put_last m buf end p (hex_digit (num % 16)) (digits 16 hex_digit left (num / 16))
        (omega (arith, length-digits 16 hex_digit left (num / 16)))

-- `e > end ? end : e` is where `put` stops.
clamp_end :
    (m : Memory) (buf end e : ℕ) (cs : Bytes)
    → buf ≤ end
    → e ≡ buf + length cs
    → (if ltb end e then end else e) ≡ (put m buf end cs).ptr
clamp_end m buf end e cs h k = ground (arith, ptr-put m buf end cs)

pub fmtu64-put :
    (m : Memory) (buf end num : ℕ) → buf ≤ end → fmtu64 m buf end num ≡ put m buf end (decimal num)
unfolding fmtu64 fmtint64 decimal
fmtu64-put m buf end num h =
    let len = count_digits 10 max_digits num 1 in
    let cs = digits 10 dec_digit len num in
    Out_path (write_decimal-put len m buf (buf + len + 0 - 1) end num (omega arith))
      (clamp_end m buf end (buf + len + 0) cs h (omega (arith, length-digits 10 dec_digit len num)))

-- A minus sign fits where `buf < end`.
fmti64-put_neg :
    (m : Memory) (buf end n : ℕ)
    → buf < end
    → fmti64 m buf end (negsuc n) ≡ put m buf end (b'-' ∷ decimal (suc n))
unfolding fmti64 fmtint64 decimal
fmti64-put_neg m buf end n h =
    let len = count_digits 10 max_digits (suc n) 1 in
    let cs = digits 10 dec_digit len (suc n) in
    rw (lt→ltb buf end h) (
      Out_path
        (ap (λ m'. store m' buf b'-')
            (write_decimal-put len m (buf + 1) (buf + len + 1 - 1) end (suc n) (omega arith))
          ∙ sym (put-store_before m (buf + 1) end buf b'-' cs (omega arith)))
        (clamp_end (store m buf b'-') (buf + 1) end (buf + len + 1) cs (omega arith)
          (omega (arith, length-digits 10 dec_digit len (suc n)))))

-- the text of a signed number
abbrev pub decimal_ℤ : ℤ → Bytes
decimal_ℤ (pos n) = decimal n
decimal_ℤ (negsuc n) = b'-' ∷ decimal (suc n)

-- `fmti64` appends the decimal text of its number, a minus sign in front if it is negative, cut off at
-- `end`. For a negative number, there has to be some room.
pub fmti64-put :
    (m : Memory) (buf end : ℕ) (num : ℤ)
    → buf ≤ end
    → (is_neg num ≡ true → buf < end)
    → fmti64 m buf end num ≡ put m buf end (decimal_ℤ num)
fmti64-put m buf end (pos n) h k = (unfold fmti64 fmtu64 in fmtu64-put m buf end n h)
fmti64-put m buf end (negsuc n) h k = fmti64-put_neg m buf end n (k refl)

-- With no room at all the sign is still written, at `end`.
pub fmti64_overrun : (m : Memory) (end n : ℕ) → (fmti64 m end end (negsuc n)).mem end ≡ b'-'
unfolding fmti64 fmtint64
fmti64_overrun m end n = ground arith

pub fmtx64-put :
    (m : Memory) (buf end num : ℕ)
    → buf ≤ end
    → fmtx64 m buf end num ≡ put m buf end (hexadecimal num)
unfolding fmtx64 hexadecimal
fmtx64-put m buf end num h =
    let len = count_digits 16 max_digits num 1 in
    let cs = digits 16 hex_digit len num in
    Out_path (write_hex64-put len m buf (buf + len - 1) end num refl)
      (ground (arith, clamp_end m buf end (buf + len) cs h, length-digits 16 hex_digit len num))

-- `fmthex` writes the same text, and returns its end whether it fitted or not.
pub fmthex-put :
    (m : Memory) (buf end num : ℕ)
    → ((fmthex m buf end num).mem ≡ (put m buf end (hexadecimal num)).mem)
      × ((fmthex m buf end num).ptr ≡ buf + length (hexadecimal num))
unfolding fmthex hexadecimal
fmthex-put m buf end num =
    let len = count_digits 16 max_digits num 1 in
    (
      write_hex-put len m buf (buf + len - 1) end num refl,
      ap (λ k. buf + k) (sym (length-digits 16 hex_digit len num)),
    )

-- the text of a number, padded with zeroes to `pad` digits
unfoldable pub padded : ℕ → ℕ → Bytes
padded num pad =
    let len = count_digits 10 max_digits num 1 in
    digits 10 dec_digit (if ltb len pad then pad else len) num

pub fmtulp-put :
    (m : Memory) (buf end num pad : ℕ)
    → buf + length (padded num pad) ≤ end
    → fmtulp m buf end num pad ≡ put m buf end (padded num pad)
unfolding fmtulp padded
fmtulp-put m buf end num pad h =
    let counted = count_digits 10 max_digits num 1 in
    let len = if ltb counted pad then pad else counted in
    let cs = digits 10 dec_digit len num in
    Out_path (write_decimal-put len m buf (buf + len - 1) end num refl)
      (omega (arith, ptr-put m buf end cs, length-digits 10 dec_digit len num, h))
