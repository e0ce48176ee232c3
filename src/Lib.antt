-- ===== src/Lib.antt =====
-- A verification library for minibase, a small userspace for Linux in C: its formatting library, its
-- messages, and the supervisor of its services.
--
-- The program. Programs talk over local sockets in messages of attributes, which lib/nlusctl puts
-- together and takes apart. src/svchub is pid 1: it starts a script, takes commands over such messages,
-- starts, stops and restarts services, keeps the end of each one's output in a ring, and brings the
-- system down. The scripts that start services are run by src/msh, a small shell that splits them into
-- commands and keeps variables and the environment on its heap. Text is printed and parsed by
-- lib/format, and compared by lib/string. Programs that set up networks talk to the kernel through
-- lib/netlink, with messages of attributes, too.
--
-- What models what.
--   Strings/Compare        lib/string/strcmpn.c and natcmp.c
--   Format/Write           lib/format: fmtchar, fmtbyte, fmtbytes, fmtmac, fmtraw, fmtstr, fmtstrn, fmtstre
--   Format/Number          lib/format: fmtint64, fmtu64, fmti64, fmtulp, fmthex, fmtx64, fmtip, fmttm
--   Format/Pad             lib/format: fmtpad, fmtpad0, fmtpadr
--   Format/Parse           lib/format: the parse functions
--   Format/Put             what a formatter promises: `put`, to append a text cut off at the end
--   Format/RoundTrip       printers against parsers
--   Nlusctl/Field          the fields of a message in memory
--   Nlusctl/Layout         the list of attributes that a memory holds
--   Nlusctl/Pack           lib/nlusctl/pack*.c, send_hdr.c and recv_msg.c
--   Nlusctl/Attr           lib/nlusctl/attr*.c
--   Svchub/State           src/svchub/svchub.h
--   Svchub/Proc, Death     src/svchub/svchub_proc.c: the table of services, and the end of one
--   Svchub/Ring            src/svchub/svchub_proc.c (check_proc) and svchub_ctrl.c (cmd_getbuf)
--   Svchub/Boot, Children  src/svchub/svchub_boot.c: the phases, and the end of a script or of a child
--   Svchub/Alive           what `nalive` counts
--   Svchub/Conn, Ctrl, Dispatch   src/svchub/svchub_ctrl.c: connections, commands, one message
--   Svchub/Events          src/svchub/svchub.c: from an event to its handler
--   Msh/State, Heap        src/msh/msh.h, the heap of msh_common.c, and push_char and its like
--   Msh/Argv, Parser       src/msh/msh_parser.c
--   Msh/Env, Command       src/msh/msh_common.c, msh_cmd_envp.c, msh_cmd_base.c, prepenvp of msh_cmd_exec.c
--   Msh/Script             src/msh/msh.c: parse_file and parse_str
--   Output                 lib/output.c and lib/util/writeall.c
--   Time                   lib/time/tm2tv.c and tv2tm.c
--   Netlink/Recv           lib/netlink: recv.c, recv_reset.c and cast_msg.c
--   Netlink/Attr           lib/netlink: attr_buf.c, attr_nst.c, attr_sub.c, attr_gen.c, attr_bin.c, attr_str.c
--   Netlink/Pack           lib/netlink: pack.c and the other pack files but pack_dump.c
--   Netlink/RoundTrip      what is sent to the kernel against what is found in it
--   Base                   numbers, lists, memory and text for all of them
--   Tests                  concrete inputs
-- A definition has the name of the function it models. The loops and the branches of a long function are
-- helpers beside it.
--
-- How. Memory is a function from addresses to bytes, addresses do not wrap, and a pointer in a buffer is
-- its address; a formatter takes the memory and returns it with the pointer. A C string that is only read
-- is the list of its bytes without the NUL. NULL is `none`, and an int that may be negative is a ℤ. Words
-- that wrap do so by `% 2 ^ 32` and the like. The targets are 64-bit and little-endian. A buffer's size
-- is an int far below 2 ^ 31. In lib/time an int that leaves its range wraps, written `to_int`.
-- svchub's state is the record Top. What the kernel answers during an operation is the record Kernel, an
-- argument, and what the program asks of it is the list of actions `log`, the newest first. `fail`, which
-- ends the process, is the action `die`, and nothing is done behind it. A failing `close` or clock, which
-- ends the process too, is not modelled, and neither is the child behind a fork.
-- msh's state is the record Sh: the addresses of its heap, the records before `asep` as a list, and the
-- bytes behind it. A routine returns, or the shell exits with the report of a Fault. The commands are a
-- parameter of the parser, Handlers, which `commands` fills for the ones that work on the context.
--
-- Bounds and fuel. `uc_get`, `nl_attr_k_in` and `nl_check_nest` are given as many rounds as there
-- are bytes, and each moves on by four at least. Digits are counted for 64 rounds, and a 64-bit number has
-- at most 64 digits in every base. `fmtpadr` writes one blank in each of the `e - q` rounds it is given. The other loops run over
-- a list or over a number of slots, as `writeall` does, which writes a byte at least in each round, and
-- `count_args`, which takes a byte at least.
--
-- Not modelled: the other programs of src, the commands of msh that only call the kernel, its reports,
-- lib/crypto, lib/lzma, the dumps of lib/netlink, lib/heap.c, the rest of lib/util, printf, the socket
-- calls, the setup of epoll and of the signals, and svcctl, the client of svchub.
pub mod Base
pub mod Strings
pub mod Format
pub mod Nlusctl
pub mod Svchub
pub mod Msh
pub mod Output
pub mod Time
pub mod Netlink
pub mod Tests
