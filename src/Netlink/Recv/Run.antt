-- ===== src/Netlink/Recv/Run.antt =====
-- A client of the buffer: it receives and takes messages in any order.
use minibase.Base.{
  ℕ, ◌-◌, ◌≤◌, ◌≡◌, refl, sym, ap, ◌∙◌, Option, none, some, List, [], ◌∷◌, ◌++◌, arith, Bytes,
  length, length-append, take-append-drop, drop-append, leb, Bool-cases, inl, inr,
}
use mathlib.Core.Path.{subst}
use mathlib.Core.List.{append_assoc, append-nil}
use minibase.Netlink.Recv.{nl_len, nl_msg, NrBuf, failed, received, received_into, nr_recv, nr_next}
use minibase.Netlink.Recv.Stream.{
  first_message, first_message_partial, first_message_whole, unread, IsRead, Next, nr_next-Next,
}

-- The calls of a client on its buffer, with the bytes that the kernel handed over and the messages
-- that `nr_next` returned.
pub data Run : NrBuf → Bytes → List Bytes → NrBuf → Type 0 where
  done : {nr : NrBuf} → Run nr [] [] nr
  receive :
      {nr nr' : NrBuf} (text : Bytes) {bytes : Bytes} {messages : List Bytes}
      → length text ≤ nr.size - length nr.bytes
      → Run (nr_recv nr (received text)).1 bytes messages nr'
      → Run nr (text ++ bytes) messages nr'
  fail :
      {nr nr' : NrBuf} (e : ℕ) {bytes : Bytes} {messages : List Bytes}
      → Run (nr_recv nr (failed e)).1 bytes messages nr'
      → Run nr bytes messages nr'
  message :
      {nr next nr' : NrBuf} {text bytes : Bytes} {messages : List Bytes}
      → nr_next nr ≡ (some text, next)
      → Run next bytes messages nr'
      → Run nr bytes (text ∷ messages) nr'
  shift :
      {nr next nr' : NrBuf} {bytes : Bytes} {messages : List Bytes}
      → nr_next nr ≡ (none, next)
      → Run next bytes messages nr'
      → Run nr bytes messages nr'

abbrev pub concat : List Bytes → Bytes
concat [] = []
concat (text ∷ messages) = text ++ concat messages

nr_recv-failed : (nr : NrBuf) (e : ℕ) → (nr_recv nr (failed e)).1 ≡ nr
unfolding nr_recv received_into
nr_recv-failed nr e = ground arith

append-empty : (xs ys : Bytes) → length ys ≡ 0 → xs ++ ys ≡ xs
append-empty xs [] h = append-nil xs
append-empty xs (y ∷ ys) h = absurd (omega arith)

nr_recv-received :
    (nr : NrBuf) (text : Bytes)
    → length text ≤ nr.size - length nr.bytes
    → (nr_recv nr (received text)).1 ≡ record nr { bytes = nr.bytes ++ text }
unfolding nr_recv received_into
nr_recv-received nr text fits = elim (Bool-cases (leb nr.size (length nr.bytes))) [
  | inl full ↦ rw (full, append-empty nr.bytes text (ground (arith, full))) refl
  | inr room ↦ rw room refl
]

abbrev joined : Bytes → Option (Bytes × Bytes) → Bytes
joined s none = s
joined s (some (text, rest)) = text ++ rest

first_message-append :
    (s : Bytes) {text rest : Bytes} → first_message s ≡ some (text, rest) → s ≡ text ++ rest
first_message-append s {text} {rest} h = elim (Bool-cases (nl_msg s)) [
  | inl whole ↦
      sym (take-append-drop (nl_len s) s) ∙ ap (joined s) (sym (first_message_whole s whole) ∙ h)
  | inr part ↦ cc (first_message_partial s part)
]

-- The bytes read out of `nr` and handed over are the messages and the bytes still unread in `nr'`.
abbrev pub Kept : NrBuf → NrBuf → Bytes → List Bytes → Type 0
Kept nr nr' bytes messages = (unread nr ++ bytes ≡ concat messages ++ unread nr') × IsRead nr'

received-Kept :
    (nr nr' : NrBuf) (text bytes : Bytes) (messages : List Bytes)
    → IsRead nr
    → length text ≤ nr.size - length nr.bytes
    → (IsRead (record nr { bytes = nr.bytes ++ text })
        → Kept (record nr { bytes = nr.bytes ++ text }) nr' bytes messages)
    → Kept nr nr' (text ++ bytes) messages
received-Kept nr nr' text bytes messages r fits rest =
    let sum = length-append nr.bytes text in
    let (kept, r') = rest (record {
      msg_in = omega (arith, sum, r.msg_in);
      bytes_in = omega (arith, sum, r.bytes_in);
      msg_before = r.msg_before;
    }) in
    (
      sym (append_assoc (unread nr) text bytes)
          ∙ ap (λ s. s ++ bytes) (sym (drop-append nr.msg nr.bytes text r.msg_in))
          ∙ kept,
      r',
    )

message-Kept :
    (nr next nr' : NrBuf) (text bytes : Bytes) (messages : List Bytes)
    → Next nr (some text, next)
    → (IsRead next → Kept next nr' bytes messages)
    → Kept nr nr' bytes (text ∷ messages)
message-Kept nr next nr' text bytes messages (first, r) rest =
    let (kept, r') = rest r in
    (
      ap (λ s. s ++ bytes) (first_message-append (unread nr) first)
          ∙ append_assoc text (unread next) bytes
          ∙ ap (◌++◌ text) kept
          ∙ sym (append_assoc text (concat messages) (unread nr')),
      r',
    )

shift-Kept :
    (nr next nr' : NrBuf) (bytes : Bytes) (messages : List Bytes)
    → Next nr (none, next)
    → (IsRead next → Kept next nr' bytes messages)
    → Kept nr nr' bytes messages
shift-Kept nr next nr' bytes messages n rest =
    let (kept, r') = rest n.3 in (ap (λ s. s ++ bytes) (sym n.1) ∙ kept, r')

-- From a buffer on whose offsets are in order, and whatever the order of the calls is, the messages
-- returned, put together, and the bytes still unread are the bytes that were unread and those the kernel
-- handed over; the offsets are in order again. The kernel hands over no more than there is room for.
pub run-Kept :
    {nr nr' : NrBuf} {bytes : Bytes} {messages : List Bytes}
    → Run nr bytes messages nr'
    → IsRead nr
    → Kept nr nr' bytes messages
run-Kept (done {nr}) r = (append-nil (unread nr), r)
run-Kept (receive {nr} {nr'} text {bytes} {messages} fits run) r =
    received-Kept nr nr' text bytes messages r fits (
      subst (λ x. IsRead x → Kept x nr' bytes messages) (nr_recv-received nr text fits)
        (run-Kept run))
run-Kept (fail {nr} {nr'} e {bytes} {messages} run) r =
    subst (λ x. IsRead x → Kept x nr' bytes messages) (nr_recv-failed nr e) (run-Kept run) r
run-Kept (message {nr} {next} {nr'} {text} {bytes} {messages} h run) r =
    message-Kept nr next nr' text bytes messages (subst (Next nr) h (nr_next-Next nr r))
      (run-Kept run)
run-Kept (shift {nr} {next} {nr'} {bytes} {messages} h run) r =
    shift-Kept nr next nr' bytes messages (subst (Next nr) h (nr_next-Next nr r)) (run-Kept run)
