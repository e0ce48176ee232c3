-- ===== src/Netlink/RoundTrip.antt =====
-- What is sent over lib/netlink, against what is found in it.
use minibase.Base.{ℕ, ◌+◌, ◌-◌, ◌^◌, ◌≤◌, ◌<◌, ◌≡◌, List, arith, Bytes, length}
use mathlib.Core.Path.{subst}
use minibase.Base.Memory.{Memory}
use minibase.Nlusctl.Layout.{Holds, Holds-size, find_attr}
use minibase.Nlusctl.Attr.Find.{payload_of, load_at}
use minibase.Netlink.Attr.{nl_get_of_len}
use minibase.Netlink.Attr.Find.{nl_get_of_len-Found}
use minibase.Netlink.Pack.{NcBuf, nc_header, nc_gencmd, nc_send, bytes}
use minibase.Netlink.Pack.Ops.{Put, put_all, attrs_of, AllSmall, Delivered, nc_send-put_all}

found_in :
    (brk end : ℕ) (m : Memory) (text : Bytes) (type size : ℕ) (ps : List Put)
    → end < brk + 2 ^ 32
    → Delivered brk end (attrs_of ps) (bytes m text)
    → load_at m size (nl_get_of_len m brk type size)
      ≡ payload_of size (find_attr type (attrs_of ps))
found_in brk end m text type size ps small (h, says, within, is) =
    let all = Holds-size m (brk + 20) (brk + length text) (attrs_of ps) h in
    let e : brk + length text ≡ brk + 20 + (length text - 20) = omega (arith, all) in
    nl_get_of_len-Found m brk (length text - 20) type size (attrs_of ps) (omega (arith, all, says))
      (omega (arith, all, within, small)) (subst (λ q. Holds m (brk + 20) q (attrs_of ps)) e h)

-- In what `nc_send` sends after a header, a command and any puts, `nl_get_of_len` finds for every type and size
-- the payload of the first put of that type, if it has that size, and NULL else. The buffer has room for the two
-- headers and less than 2 ^ 32 bytes, and the types and the lengths of the puts have 16 bits.
pub nl_get_of_len-nc_send :
    (nc : NcBuf) (msg_type flags seq cmd ver : ℕ) (ps : List Put) (m : Memory) (text : Bytes)
    (type size : ℕ)
    → nc.brk + 20 ≤ nc.end
    → nc.end < nc.brk + 2 ^ 32
    → AllSmall ps
    → nc_send (put_all (nc_gencmd (nc_header nc msg_type flags seq) cmd ver) ps) ≡ bytes m text
    → load_at m size (nl_get_of_len m nc.brk type size)
      ≡ payload_of size (find_attr type (attrs_of ps))
nl_get_of_len-nc_send nc msg_type flags seq cmd ver ps m text type size room small k sent =
    found_in nc.brk nc.end m text type size ps small (
      subst (Delivered nc.brk nc.end (attrs_of ps)) sent
        (nc_send-put_all nc msg_type flags seq cmd ver ps room small k))
