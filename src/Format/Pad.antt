-- ===== src/Format/Pad.antt =====
-- lib/format: padding what was just printed at `p .. q` to a width, on either side.
pub mod Sound
use minibase.Base.{ℕ, zero, suc, ◌+◌, ◌-◌, ◌||◌, ◌&&◌, min, ltb, ◌==◌, if◌then◌else◌}
use minibase.Base.Memory.{Memory, store}
use minibase.Format.Put.{Out}

-- for(z = q + shift - 1; z >= p + shift; z--) if(z < e) *z = *(z - shift);   q - p rounds
move_up : ℕ → Memory → ℕ → ℕ → ℕ → Memory
move_up zero m p e shift = m
move_up (suc left) m p e shift =
    let z = p + shift + left in
    move_up left (if ltb z e then store m z (m (z - shift)) else m) p e shift

-- for(; z >= p; z--) *z = c;   as many rounds as bytes are left above `p`
fill_down : ℕ → Memory → ℕ → ℕ → Memory
fill_down zero m p c = m
fill_down (suc left) m p c = fill_down left (store m (p + left) c) p c

-- `width - qplen`, at least 0
abbrev pub shift_of : ℕ → ℕ → ℕ → ℕ
shift_of p width q = width + p - q

pub fmtpad : Memory → ℕ → ℕ → ℕ → ℕ → Out
unfolding move_up fill_down
fmtpad m p e width q =
    let shift = shift_of p width q in
    if ltb q p || ltb e q
    then record { mem = m; ptr = q }
    else if ltb (width + p) q
    then record { mem = m; ptr = q }
    else record { mem = fill_down shift (move_up (q - p) m p e shift) p b' '; ptr = q + shift }

-- Here `q` is not compared with `p` or `e`. Where it lies below `p` nothing is moved, and the
-- second loop starts at `q + shift - 1`.
pub fmtpad0 : Memory → ℕ → ℕ → ℕ → ℕ → Out
unfolding move_up fill_down
fmtpad0 m p e width q =
    let shift = shift_of p width q in
    if shift == 0 then record { mem = m; ptr = q } else record {
      mem = fill_down (min q p + shift - p) (move_up (q - p) m p e shift) p b'0';
      ptr = q + shift;
    }

-- while(q < t && q < e) *q++ = ' ';
pad_right : ℕ → Memory → ℕ → ℕ → ℕ → Out
pad_right zero m t e q = record { mem = m; ptr = q }
pad_right (suc fuel) m t e q =
    let rest = pad_right fuel (store m q b' ') t e (q + 1) in
    if ltb q t && ltb q e then rest else record { mem = m; ptr = q }

-- Every round needs `q < e`, so that `e - q` rounds are enough.
pub fmtpadr : Memory → ℕ → ℕ → ℕ → ℕ → Out
unfolding pad_right
fmtpadr m p e width q =
    if ltb q p || ltb e q then record { mem = m; ptr = q } else pad_right (e - q) m (p + width) e q
