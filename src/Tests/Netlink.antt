-- ===== src/Tests/Netlink.antt =====
-- lib/netlink on concrete inputs.
use minibase.Base.{
  ◌%◌, ◌≤◌, ◌+◌, ◌≡◌, refl, some, [], ◌∷◌, ◌++◌, List, arith, Bytes, get_or, replicate, length,
}
use minibase.Base.Memory.{Memory}
use minibase.Nlusctl.Field.{len_of}
use minibase.Netlink.Recv.{NrBuf, nr_buf_set, nr_recv, nr_next, received_into}
use minibase.Netlink.Recv.Run.{Run, done, receive, message, shift, Kept, run-Kept}
use minibase.Nlusctl.Layout.{find_attr}
use minibase.Nlusctl.Attr.Find.{payload_of, load_at}
use minibase.Netlink.Pack.{
  NcBuf, nc_header, nc_gencmd, nc_fixed, nc_put_, nc_put_int, nc_send, Sent, error, bytes,
}
use minibase.Netlink.Pack.Ops.{Put, int, put_all, attrs_of, AllSmall, Delivered, nc_send-put_all}
use minibase.Netlink.RoundTrip.{nl_get_of_len-nc_send}
use minibase.Netlink.Attr.{
  nl_get_of_len, nl_nest, nl_sub_of_len, nl_check_nest, paylen, extend_to_4bytes, nl_attr_k_in,
  nl_attr_0_in,
}
use minibase.Netlink.Attr.{nl_sub, nl_attr_n_in, ptr_in_buf}
use minibase.Netlink.Attr.Zstr.{nl_sub_str, null_read}
use minibase.Netlink.Attr.Nest.{nl_sub_of_len-nl_nest}

-- the header of a message of 20 bytes, and the rest of it
abbrev head : Bytes
head = 20 ∷ 0 ∷ 0 ∷ 0 ∷ replicate 6 7

abbrev tail : Bytes
tail = replicate 10 9

abbrev empty_buffer : NrBuf
empty_buffer = record { bytes = []; msg = 0; size = 32 }

nr_buf_set_32 : nr_buf_set 32 ≡ empty_buffer
unfolding nr_buf_set
nr_buf_set_32 = refl

-- The message comes in two pieces, and a search for it fails in between.
in_two_pieces : Run empty_buffer (head ++ (tail ++ [])) ((head ++ tail) ∷ []) empty_buffer
unfolding nr_recv nr_next received_into
in_two_pieces =
    receive head (omega arith) (shift refl (receive tail (omega arith) (message refl done)))

run-Kept_example : Kept empty_buffer empty_buffer (head ++ (tail ++ [])) ((head ++ tail) ∷ [])
run-Kept_example =
    run-Kept in_two_pieces
      (record { msg_in = omega arith; bytes_in = omega arith; msg_before = omega arith })

-- a nest of 12 bytes that holds an attribute of type 7 with four bytes
abbrev nest_bytes : Bytes
nest_bytes = 12 ∷ 0 ∷ 5 ∷ 0 ∷ 8 ∷ 0 ∷ 7 ∷ 0 ∷ 1 ∷ 2 ∷ 3 ∷ 4 ∷ []

abbrev nested : Memory
nested = λ a. get_or nest_bytes a 0 % 256

nl_nest_passes : nl_nest nested (some 0) ≡ some 0
unfolding nl_nest nl_check_nest paylen extend_to_4bytes
nl_nest_passes = refl

nl_sub_of_len_found : nl_sub_of_len nested 0 7 4 ≡ some 8
unfolding nl_sub_of_len nl_attr_k_in nl_attr_0_in paylen
nl_sub_of_len_found = refl

nl_sub_of_len-nl_nest_example : (8 ≤ 8) × (8 + 4 ≤ 0 + len_of nested 0)
nl_sub_of_len-nl_nest_example =
    nl_sub_of_len-nl_nest nested 0 0 7 4 (λ a. omega arith) (omega arith) nl_nest_passes
      nl_sub_of_len_found

abbrev command_buffer : NcBuf
command_buffer = record { mem = λ a. 0; brk = 100; ptr = 100; end = 164 }

abbrev puts : List Put
puts = int 3 1000 ∷ []

abbrev bytes_of : Sent → Bytes
bytes_of (error e) = []
bytes_of (bytes m text) = text

abbrev memory_of : Sent → Memory
memory_of (error e) = λ a. 0
memory_of (bytes m text) = m

abbrev sent : Sent
sent = nc_send (put_all (nc_gencmd (nc_header command_buffer 16 4 1) 5 1) puts)

sent_in_full : length (bytes_of sent) ≡ 28
unfolding nc_send nc_gencmd nc_header nc_fixed nc_put_ nc_put_int
sent_in_full = refl

puts-AllSmall : AllSmall puts
puts-AllSmall = (omega arith, omega arith, tt)

nc_send-put_all_example : Delivered 100 164 (attrs_of puts) sent
nc_send-put_all_example =
    nc_send-put_all command_buffer 16 4 1 5 1 puts (omega arith) (omega arith) puts-AllSmall

is_sent : sent ≡ bytes (memory_of sent) (bytes_of sent)
unfolding nc_send nc_gencmd nc_header nc_fixed nc_put_ nc_put_int
is_sent = refl

nl_get_of_len-nc_send_example :
    load_at (memory_of sent) 4 (nl_get_of_len (memory_of sent) 100 3 4)
    ≡ payload_of 4 (find_attr 3 (attrs_of puts))
nl_get_of_len-nc_send_example =
    nl_get_of_len-nc_send command_buffer 16 4 1 5 1 puts (memory_of sent) (bytes_of sent) 3 4
      (omega arith) (omega arith) puts-AllSmall is_sent

no_string : nl_sub_str nested 0 9 ≡ null_read
unfolding nl_sub_str nl_sub nl_attr_k_in nl_attr_0_in nl_attr_n_in ptr_in_buf extend_to_4bytes
    paylen
no_string = refl
