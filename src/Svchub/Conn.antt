-- ===== src/Svchub/Conn.antt =====
-- src/svchub/svchub_ctrl.c: the table of connections, and the notice of a service's end.
use minibase.Base.{
  ℕ, zero, suc, ◌+◌, Bool, true, false, not, Option, none, some, List, [], ◌∷◌, leb, ◌==◌,
  if◌then◌else◌,
}
use minibase.Base.Int.{ℤ, pos, negsuc, is_neg}
use minibase.Svchub.State.{
  max_conns, Conn, close_fd, unwatch_fd, watch_fd, send_died, die, Top, Kernel, logged, conn_at,
  put_conn,
}

abbrev pub is_positive : ℤ → Bool
is_positive (pos zero) = false
is_positive (pos (suc n)) = true
is_positive (negsuc n) = false

abbrev pub is_eagain : ℤ → Bool
is_eagain (pos n) = false
is_eagain (negsuc n) = n == 10

unfoldable pub close_conn : Top → ℕ → Top
close_conn c j =
    let fd = (conn_at c j).fd in
    if is_neg fd
    then c
    else logged (logged (put_conn c j (record { fd = negsuc 0; pid = 0 })) (unwatch_fd fd))
        (close_fd fd)

unfoldable pub notify : Kernel → Top → ℕ → Top
unfolding close_conn
notify k c j =
    let fd = (conn_at c j).fd in
    if is_neg fd
    then c
    else if is_positive (k.send fd)
    then logged c (send_died fd)
    else if not (is_eagain (k.send fd))
    then close_conn c j
    else if is_neg (k.writable fd)
    then close_conn c j
    else if is_positive (k.resend fd)
    then logged c (send_died fd)
    else close_conn c j

-- the connections from `j` on that wait for `pid`
unfoldable pub notify_from : Kernel → Top → ℕ → ℕ → ℕ → Top
unfolding notify
notify_from k c zero j pid = c
notify_from k c (suc left) j pid =
    notify_from k (if (conn_at c j).pid == pid then notify k c j else c) left (j + 1) pid

unfoldable pub notify_dead : Kernel → Top → ℕ → Top
unfolding notify_from
notify_dead k c pid = notify_from k c c.nconns 0 pid

unfoldable pub find_free_conn : List Conn → ℕ → ℕ → Option ℕ
find_free_conn [] left j = none
find_free_conn (cn ∷ cns) zero j = none
find_free_conn (cn ∷ cns) (suc left) j =
    let rest = find_free_conn cns left (j + 1) in if is_neg cn.fd then some j else rest

unfoldable pub grab_conn_slot : Top → Option (Top × ℕ)
unfolding find_free_conn
grab_conn_slot c = elim (find_free_conn c.conns c.nconns 0) [
  | some j ↦ some (c, j)
  | none ↦
      if leb max_conns c.nconns then none else some (record c { nconns = c.nconns + 1 }, c.nconns)
]

-- `cfd` is what `accept4` returns.
unfoldable pub check_socket : Top → ℤ → Top
unfolding grab_conn_slot
check_socket c cfd =
    if is_neg cfd then if is_eagain cfd then c else logged c (die []) else elim (grab_conn_slot c) [
      | none ↦ logged c (close_fd cfd)
      | some (c1, j) ↦ logged (put_conn c1 j (record (conn_at c1 j) { fd = cfd })) (watch_fd cfd)
    ]
