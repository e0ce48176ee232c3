-- ===== src/Tests/Output.antt =====
-- lib/output.c on concrete inputs.
use minibase.Base.{
  ◌≡◌, refl, false, [], ◌++◌, arith, ltb, if◌then◌else◌, Bytes, codes, drop, take, length, ◌%◌, ◌-◌,
}
use minibase.Base.Int.{ℤ, pos, negsuc, is_neg}
use minibase.Output.{Writer, BufOut, bufout}
use minibase.Output.Writeall.{WorksFrom}
use minibase.Output.Complete.{Passed, bufout-Passed}
use minibase.Output.Lost.{bufout_lost}

-- one byte at a time
abbrev slow : Writer
slow = λ i n. pos 1

-- The first call fails.
abbrev late : Writer
late = λ i n. if ltb i 1 then negsuc 27 else pos 1

abbrev half_full : BufOut
half_full = record { held = codes "ab"; len = 4; file = record { written = []; calls = 0 } }

abbrev shown : ℤ × BufOut → Bytes × Bytes
shown (ret, bo) = (bo.file.written, bo.held)

seven_bytes : shown (bufout slow half_full (codes "cdefghi")) ≡ (codes "abcdefgh", codes "i")
unfolding bufout
seven_bytes = refl

slow-WorksFrom : WorksFrom 0 slow
slow-WorksFrom i n from = (0, refl, omega arith)

late-WorksFrom : WorksFrom 1 late
late-WorksFrom i n from = (0, ground arith, omega arith)

bufout-Passed_example : Passed half_full (codes "cdefghi") (bufout slow half_full (codes "cdefghi"))
bufout-Passed_example = bufout-Passed slow slow-WorksFrom half_full (codes "cdefghi") (omega arith)

bufout_lost_example :
    let rest = drop 2 (codes "cdefghi") in
    let (ret, bo') = bufout late half_full (codes "cdefghi") in
    (is_neg ret ≡ false) × (bo'.file.written ≡ [] ++ take (length rest - length rest % 4) rest)
bufout_lost_example =
    bufout_lost late half_full (codes "cdefghi") 27 (omega arith) (omega arith) (omega arith) refl
      late-WorksFrom
