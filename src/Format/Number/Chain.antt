-- ===== src/Format/Number/Chain.antt =====
-- The formatters that chain others: an address with dots, and a date with padded numbers.
use minibase.Base.{ℕ, ◌+◌, ◌≤◌, ◌≡◌, ◌∙◌, [], ◌∷◌, ◌++◌, arith, Bytes, length, length-append}
use minibase.Base.Memory.{Memory}
use minibase.Format.Put.{Out, put, after_put, ptr-put, put-append}
use minibase.Format.Write.{fmtchar}
use minibase.Format.Write.Sound.{fmtchar-put}
use minibase.Format.Number.{Ip, Tm, fmtu64, fmtip, fmtulp, fmttm}
use minibase.Format.Number.Sound.{decimal, padded, fmtu64-put, fmtulp-put}

module _ (m : Memory) (p e : ℕ) (le : p ≤ e) (o : Out) (xs : Bytes) (same : o ≡ put m p e xs) where
  then_u64 : (n : ℕ) → fmtu64 o.mem o.ptr e n ≡ put m p e (xs ++ decimal n)
  then_u64 n =
      after_put (λ m' q. fmtu64 m' q e n) m p e o xs (decimal n) (λ m' q h. fmtu64-put m' q e n h)
        le same

  then_char : (c : ℕ) → fmtchar o.mem o.ptr e c ≡ put m p e (xs ++ c ∷ [])
  then_char c =
      after_put (λ m' q. fmtchar m' q e c) m p e o xs (c ∷ []) (λ m' q h. fmtchar-put m' q e c) le
        same

  then_ulp :
      (n pad : ℕ)
      → p + length (xs ++ padded n pad) ≤ e
      → fmtulp o.mem o.ptr e n pad ≡ put m p e (xs ++ padded n pad)
  then_ulp n pad room = rw same (
      fmtulp-put (put m p e xs).mem (put m p e xs).ptr e n pad
        (omega (arith, ptr-put m p e xs, length-append xs (padded n pad)))
      ∙ put-append m p e xs (padded n pad))

-- four numbers between dots
abbrev pub dotted : Ip → Bytes
dotted ip =
    (((((decimal ip.a ++ b'.' ∷ []) ++ decimal ip.b) ++ b'.' ∷ []) ++ decimal ip.c) ++ b'.' ∷ [])
    ++ decimal ip.d

pub fmtip-put : (m : Memory) (p e : ℕ) (ip : Ip) → p ≤ e → fmtip m p e ip ≡ put m p e (dotted ip)
unfolding fmtip
fmtip-put m p e ip le =
    let o1 = fmtu64-put m p e ip.a le in
    let o2 = then_char m p e le _ (decimal ip.a) o1 b'.' in
    let o3 = then_u64 m p e le _ _ o2 ip.b in
    let o4 = then_char m p e le _ _ o3 b'.' in
    let o5 = then_u64 m p e le _ _ o4 ip.c in
    let o6 = then_char m p e le _ _ o5 b'.' in then_u64 m p e le _ _ o6 ip.d

-- what fits with `ys` behind it, fits without
fits_before : (p e : ℕ) (xs ys : Bytes) → p + length (xs ++ ys) ≤ e → p + length xs ≤ e
fits_before p e xs ys h = omega (arith, length-append xs ys)

-- the pieces of a date, each with what stands before it
abbrev pub date_text : Tm → Bytes
date_text tm =
    (((padded (tm.year + 1900) 4 ++ b'-' ∷ []) ++ padded (tm.mon + 1) 2) ++ b'-' ∷ [])
    ++ padded tm.mday 2

abbrev pub time_text : Tm → Bytes
time_text tm =
    ((((date_text tm ++ b' ' ∷ []) ++ padded tm.hour 2) ++ b':' ∷ []) ++ padded tm.minute 2)
    ++ b':' ∷ []

-- year-month-day hour:minute:second
abbrev pub tm_text : Tm → Bytes
tm_text tm = time_text tm ++ padded tm.sec 2

-- A date that fits is printed as its text.
pub fmttm-put :
    (m : Memory) (p e : ℕ) (tm : Tm)
    → p + length (tm_text tm) ≤ e
    → fmttm m p e tm ≡ put m p e (tm_text tm)
unfolding fmttm
fmttm-put m p e tm room =
    let le : p ≤ e = omega arith in
    let h9 = fits_before p e (time_text tm) (padded tm.sec 2) room in
    let h8 = fits_before p e _ (b':' ∷ []) h9 in
    let h7 = fits_before p e _ (padded tm.minute 2) h8 in
    let h6 = fits_before p e _ (b':' ∷ []) h7 in
    let h5 = fits_before p e _ (padded tm.hour 2) h6 in
    let h4 = fits_before p e (date_text tm) (b' ' ∷ []) h5 in
    let h3 = fits_before p e _ (padded tm.mday 2) h4 in
    let h2 = fits_before p e _ (b'-' ∷ []) h3 in
    let h1 = fits_before p e _ (padded (tm.mon + 1) 2) h2 in
    let h0 = fits_before p e (padded (tm.year + 1900) 4) (b'-' ∷ []) h1 in
    let o1 = fmtulp-put m p e (tm.year + 1900) 4 h0 in
    let o2 = then_char m p e le _ _ o1 b'-' in
    let o3 = then_ulp m p e le _ _ o2 (tm.mon + 1) 2 h2 in
    let o4 = then_char m p e le _ _ o3 b'-' in
    let o5 = then_ulp m p e le _ _ o4 tm.mday 2 h4 in
    let o6 = then_char m p e le _ _ o5 b' ' in
    let o7 = then_ulp m p e le _ _ o6 tm.hour 2 h6 in
    let o8 = then_char m p e le _ _ o7 b':' in
    let o9 = then_ulp m p e le _ _ o8 tm.minute 2 h8 in
    let o10 = then_char m p e le _ _ o9 b':' in then_ulp m p e le _ _ o10 tm.sec 2 room
