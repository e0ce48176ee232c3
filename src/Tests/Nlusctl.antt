-- ===== src/Tests/Nlusctl.antt =====
-- lib/nlusctl and lib/string on concrete inputs.
use minibase.Base.{
  ℕ, ◌-◌, ◌≡◌, ◌≤◌, ◌<◌, ◌⊎◌, ◌↔◌, ◌==◌, if◌then◌else◌, refl, true, List, [], ◌∷◌, some, none,
  arith, Bytes,
}
use minibase.Base.Int.{is_neg}
use minibase.Base.Memory.{Memory}
use minibase.Strings.Compare.{strcmpn, natcmp, is_zero, strcmpn_iff, natcmp_cycle}
use minibase.Nlusctl.Field.{len_of, key_of}
use minibase.Nlusctl.Layout.{Attr, Holds, find_attr}
use minibase.Nlusctl.Pack.{UcBuf, uc_put_hdr, uc_put, uc_put_int, uc_put_flag, uc_iov_hdr, uc_msg}
use minibase.Nlusctl.Pack.Put.{IsMessage, TooLong}
use minibase.Nlusctl.Pack.Ops.{Put, int, flag, put_all, attrs_of, AllKeys, put_all_lem}
use minibase.Nlusctl.Attr.{
  uc_get_0, uc_get_n, uc_get_loop, uc_is_str, uc_get, uc_get_bin, uc_get_str,
}
use minibase.Nlusctl.Attr.Bounds.{Inside, uc_get-Inside, Runs, uc_get-Runs}
use minibase.Nlusctl.Attr.Find.{Found, load_at, payload_of, uc_get-Found, get-put_all}
use minibase.Nlusctl.Attr.Zstr.{IsZstr, uc_get_str-IsZstr, uc_get_str_empty}

abbrev text_a : Bytes
text_a = b'a' ∷ []

abbrev text_ab : Bytes
text_ab = b'a' ∷ b'b' ∷ []

strcmpn_iff_example : (is_zero (strcmpn text_a text_ab 1) ≡ true) ↔ (text_a ≡ text_ab)
strcmpn_iff_example =
    strcmpn_iff text_a text_ab 1 ((λ e. omega arith), tt)
      ((λ e. omega arith), ((λ e. omega arith), tt)) (omega arith)

natcmp_cycle_example :
    (is_neg (natcmp (b'2' ∷ []) (b'1' ∷ b'0' ∷ [])) ≡ true)
    × (is_neg (natcmp (b'1' ∷ b'0' ∷ []) (b'1' ∷ b'a' ∷ [])) ≡ true)
    × (is_neg (natcmp (b'1' ∷ b'a' ∷ []) (b'2' ∷ [])) ≡ true)
natcmp_cycle_example =
    natcmp_cycle b'1' b'2' b'0' b'a' (omega arith) (omega arith) (omega arith) (omega arith)
      (omega arith) (omega arith)

abbrev blank : Memory
blank a = 0

abbrev two_puts : List Put
two_puts = flag 5 ∷ int 3 7 ∷ []

two_puts-AllKeys : AllKeys two_puts
two_puts-AllKeys = (omega arith, (omega arith, tt))

abbrev empty_buf : UcBuf
empty_buf = record { mem = blank; len = 100 }

abbrev packed : UcBuf
packed = put_all (uc_put_hdr empty_buf 1) two_puts

put_all_lem_example :
    (IsMessage packed (attrs_of two_puts)
      × (uc_iov_hdr packed ≡ some (record { base = 2; len = len_of packed.mem 0 - 2 })))
    ⊎ (TooLong 100 (attrs_of two_puts) × (uc_iov_hdr packed ≡ none))
put_all_lem_example = put_all_lem empty_buf 1 two_puts (omega arith) two_puts-AllKeys

packed_iov : uc_iov_hdr packed ≡ some (record { base = 2; len = 14 })
unfolding uc_put_hdr uc_put_flag uc_put_int uc_put uc_iov_hdr
packed_iov = refl

get-put_all_example :
    (msg : Memory) × (uc_msg packed.mem 14 ≡ some msg)
    × ((key len : ℕ)
        → load_at msg len (uc_get_bin msg 0 key len)
          ≡ payload_of len (find_attr key (attrs_of two_puts)))
get-put_all_example =
    get-put_all empty_buf 1 two_puts (record { base = 2; len = 14 }) packed.mem (omega arith)
      two_puts-AllKeys packed_iov (λ i h. refl)

-- A message of 16 bytes: the attribute 7 without a payload, and the attribute 2 with the text "ab".
abbrev message : Memory
message a =
    if a == 0
    then 16
    else if a == 4
    then 4
    else if a == 6
    then 7
    else if a == 8
    then 7
    else if a == 10
    then 2
    else if a == 12
    then b'a'
    else if a == 13
    then b'b'
    else 0

found_7 : uc_get message 0 7 ≡ some 4
unfolding uc_get uc_get_0 uc_get_loop
found_7 = refl

found_2 : uc_get message 0 2 ≡ some 8
unfolding uc_get uc_get_0 uc_get_loop uc_get_n
found_2 = refl

text_2 : uc_get_str message 0 2 ≡ some 12
unfolding uc_get_str uc_get uc_get_0 uc_get_loop uc_is_str uc_get_n
text_2 = refl

uc_get-Inside_example : (4 ≤ 8) × (key_of message 8 ≡ 2) × Inside message 16 8
uc_get-Inside_example = uc_get-Inside message 0 2 found_2

uc_get-Runs_example : Runs message 0 2 (uc_get_0 message 0) (uc_get message 0 2)
uc_get-Runs_example = uc_get-Runs message 0 2

abbrev atts_of_message : List Attr
atts_of_message =
    record { key = 7; payload = [] } ∷ record { key = 2; payload = b'a' ∷ b'b' ∷ 0 ∷ [] } ∷ []

message-Holds : Holds message 4 16 atts_of_message
message-Holds = (
  record { len_is = refl; key_is = refl; payload_is = refl },
  (record { len_is = refl; key_is = refl; payload_is = refl }, refl),
)

uc_get-Found_example : Found message (uc_get message 0 2) (find_attr 2 atts_of_message)
uc_get-Found_example = uc_get-Found message 0 2 atts_of_message message-Holds

uc_get_str-IsZstr_example : (◌≡◌ {A = ℕ} 12 12) × IsZstr message 12 2 × (14 < 16)
uc_get_str-IsZstr_example = uc_get_str-IsZstr message 0 2 found_2 (omega arith) text_2

uc_get_str_empty_example : uc_get_str message 0 7 ≡ (if message 8 == 0 then some 8 else none)
uc_get_str_empty_example = uc_get_str_empty message 0 7 found_7 (omega arith)
