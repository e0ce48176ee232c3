-- ===== src/Svchub/State.antt =====
-- The state of svchub: `struct proc`, `struct conn`, `struct top` and the two tables. What the kernel
-- answers during one call is an argument of the operations, and what the program asks of it is a
-- list of actions, the newest first.
use minibase.Base.{ℕ, Bool, false, ◌||◌, Option, none, List, [], ◌∷◌, Bytes, get_or, set}
use minibase.Base.Int.{ℤ, pos, negsuc}

abbrev pub name_len : ℕ
name_len = 16

abbrev pub max_procs : ℕ
max_procs = 70

abbrev pub max_conns : ℕ
max_conns = 10

abbrev pub ring_size : ℕ
ring_size = 4096

-- `ctx->state`
pub data Phase : Type 0 where
  unknown startup running stopping shutdown : Phase

-- `pc->flags`, one bit each
pub record Flags : Type 0 where
  pub in_use : Bool
  pub killed : Bool
  pub status : Bool
  pub once : Bool
  pub pass : Bool

abbrev pub no_flags : Flags
no_flags = record { in_use = false; killed = false; status = false; once = false; pass = false }

-- `flags != 0`
abbrev pub any_flag : Flags → Bool
any_flag f = f.in_use || f.killed || f.status || f.once || f.pass

-- The argument `flags` of `start_proc`: P_ONCE or P_PASS.
pub record StartFlags : Type 0 where
  pub once : Bool
  pub pass : Bool

-- `name` are the bytes in front of the first NUL, 16 at most. `pid` is a process id, or the exit
-- status where P_STATUS is set. `ring` is what `buf` points to.
pub record Proc : Type 0 where
  pub name : Bytes
  pub pid : ℕ
  pub fd : ℤ
  pub time : ℕ
  pub flags : Flags
  pub ptr : ℕ
  pub ring : Option (ℕ → ℕ)

-- what `memzero` leaves
abbrev pub blank_proc : Proc
blank_proc = record {
  name = [];
  pid = 0;
  fd = pos 0;
  time = 0;
  flags = no_flags;
  ptr = 0;
  ring = none;
}

pub record Conn : Type 0 where
  pub fd : ℤ
  pub pid : ℕ

-- a request to the kernel, or a message on stderr
pub data Action : Type 0 where
  kill : ℕ → ℕ → Action
  fork_exec : Bytes → Action
  close_fd : ℤ → Action
  watch_fd : ℤ → Action
  unwatch_fd : ℤ → Action
  unmap_ring : Action
  map_ring : Action
  alarm : Action
  send_died : ℤ → Action
  send_bytes : ℤ → Bytes → Action
  say : Bytes → Action
  -- `fail`: the process exits
  die : Bytes → Action

-- `rbmode` is NULL where a stop follows a failure. `scrpid` is an int.
pub record Top : Type 0 where
  pub phase : Phase
  pub rbmode : Option Bytes
  pub scrpid : ℤ
  pub sigcnt : ℕ
  pub ctlfd : ℤ
  pub nconns : ℕ
  pub nprocs : ℕ
  pub nalive : ℤ
  pub procs : List Proc
  pub conns : List Conn
  pub log : List Action

-- What the kernel answers while one operation runs: -errno is negative. `now` is read each time the
-- clock is; `mapped` says whether a ring could be mapped. `send`, `writable` and `resend` are what `uc_send`,
-- `uc_wait_writable` and the second `uc_send` return for a connection.
pub record Kernel : Type 0 where
  pub access : ℤ
  pub pipe : ℤ
  pub pipe_fd : ℤ
  pub fork : ℤ
  pub now : ℕ
  pub kill : ℕ → ℕ → ℤ
  pub unmap : ℤ
  pub mapped : Bool
  pub send : ℤ → ℤ
  pub writable : ℤ → ℤ
  pub resend : ℤ → ℤ

abbrev pub logged : Top → Action → Top
logged c a = record c { log = a ∷ c.log }

abbrev pub blank_conn : Conn
blank_conn = record { fd = pos 0; pid = 0 }

abbrev pub conn_at : Top → ℕ → Conn
conn_at c j = get_or c.conns j blank_conn

abbrev pub put_conn : Top → ℕ → Conn → Top
put_conn c j cn = record c { conns = set c.conns j cn }

abbrev pub proc_at : Top → ℕ → Proc
proc_at c i = get_or c.procs i blank_proc

-- write the slot at `pc`
abbrev pub put_proc : Top → ℕ → Proc → Top
put_proc c i p = record c { procs = set c.procs i p }

abbrev pub einval : ℤ
einval = negsuc 21

abbrev pub enoent : ℤ
enoent = negsuc 1

abbrev pub eagain : ℤ
eagain = negsuc 10

abbrev pub enomem : ℤ
enomem = negsuc 11

abbrev pub ebusy : ℤ
ebusy = negsuc 15

abbrev pub enametoolong : ℤ
enametoolong = negsuc 35

abbrev pub enodata : ℤ
enodata = negsuc 60

abbrev pub ealready : ℤ
ealready = negsuc 113

abbrev pub enosys : ℤ
enosys = negsuc 37

abbrev pub enobufs : ℤ
enobufs = negsuc 104

abbrev pub sigkill : ℕ
sigkill = 9

abbrev pub sighup : ℕ
sighup = 1

abbrev pub sigterm : ℕ
sigterm = 15

abbrev pub sigcont : ℕ
sigcont = 18
