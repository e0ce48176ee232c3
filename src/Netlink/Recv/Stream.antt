-- ===== src/Netlink/Recv/Stream.antt =====
-- The messages are those of the bytes received, however they were cut up.
use minibase.Base.{
  ℕ, ◌+◌, ◌≤◌, ◌<◌, ◌≡◌, refl, ap, ◌∙◌, true, false, Option, none, some, [], arith, ltb, leb, Bytes,
  length, take, drop, drop-drop, drop_all, length-drop, Bool-cases, inl, inr, if◌then◌else◌,
}
use minibase.Netlink.Recv.{nl_len, nl_msg, NrBuf, nr_next}

-- The first message of the bytes, and what is behind it.
abbrev pub first_message : Bytes → Option (Bytes × Bytes)
first_message s = if nl_msg s then some (take (nl_len s) s, drop (nl_len s) s) else none

-- the bytes that no message was made of
abbrev pub unread : NrBuf → Bytes
unread nr = drop nr.msg nr.bytes

-- The offsets are in order: `msg` is before the end and not behind the bytes, which are in the buffer.
pub record IsRead (nr : NrBuf) : Type 0 where
  pub msg_in : nr.msg ≤ length nr.bytes
  pub bytes_in : length nr.bytes ≤ nr.size
  pub msg_before : nr.msg < nr.size

-- what `nr_next` owes to the bytes that it was called on
abbrev pub Next : NrBuf → Option Bytes × NrBuf → Type 0
Next nr (none, nr') =
    (first_message (unread nr) ≡ none) × (unread nr' ≡ unread nr) × (nr'.msg ≡ 0) × IsRead nr'
Next nr (some text, nr') = (first_message (unread nr) ≡ some (text, unread nr')) × IsRead nr'

pub nl_msg-whole : (s : Bytes) → nl_msg s ≡ true → nl_len s ≤ length s
unfolding nl_msg
nl_msg-whole s h = ground arith

pub first_message_partial : (s : Bytes) → nl_msg s ≡ false → first_message s ≡ none
first_message_partial s h = rw h refl

pub first_message_whole :
    (s : Bytes) → nl_msg s ≡ true → first_message s ≡ some (take (nl_len s) s, drop (nl_len s) s)
first_message_whole s h = rw h refl

pub first_message-behind :
    (m : ℕ) (bytes : Bytes)
    → nl_msg (drop m bytes) ≡ true
    → first_message (drop m bytes)
      ≡ some (take (nl_len (drop m bytes)) (drop m bytes), drop (m + nl_len (drop m bytes)) bytes)
first_message-behind m bytes h =
    first_message_whole (drop m bytes) h
    ∙ ap (λ (rest : Bytes). some (take (nl_len (drop m bytes)) (drop m bytes), rest))
        (drop-drop m (nl_len (drop m bytes)) bytes)

pub first_message_last :
    (m : ℕ) (bytes : Bytes)
    → nl_msg (drop m bytes) ≡ true
    → length bytes ≤ m + nl_len (drop m bytes)
    → first_message (drop m bytes) ≡ some (take (nl_len (drop m bytes)) (drop m bytes), [])
first_message_last m bytes h past =
    first_message-behind m bytes h
    ∙ ap (λ (rest : Bytes). some (take (nl_len (drop m bytes)) (drop m bytes), rest))
        (drop_all (m + nl_len (drop m bytes)) bytes past)

-- Where the offsets are in order, `nr_next` returns the first message of the unread bytes and leaves the ones
-- behind it, or, where no message stands whole there, NULL, with the unread bytes at the start of the
-- buffer. The offsets are in order again.
pub nr_next-Next : (nr : NrBuf) → IsRead nr → Next nr (nr_next nr)
unfolding nr_next
nr_next-Next nr r =
    let before : leb nr.size nr.msg ≡ false = ground (arith, r.msg_before) in
    elim (Bool-cases (nl_msg (unread nr))) [
      | inl whole ↦
          let fits = nl_msg-whole (unread nr) whole in
          elim (Bool-cases (ltb (nr.msg + nl_len (unread nr)) (length nr.bytes))) [
            | inl more ↦
                rw (before, whole, more)
                  (
                    first_message-behind nr.msg nr.bytes whole,
                    record {
                      msg_in = ground (arith, more);
                      bytes_in = r.bytes_in;
                      msg_before = ground (arith, more, r.bytes_in);
                    },
                  )
            | inr last ↦
                rw (before, whole, last)
                  (
                    first_message_last nr.msg nr.bytes whole (ground (arith, last)),
                    record {
                      msg_in = omega arith;
                      bytes_in = omega arith;
                      msg_before = omega (arith, r.msg_before);
                    },
                  )
          ]
      | inr part ↦ elim (Bool-cases (ltb 0 nr.msg)) [
        | inl shifted ↦
            rw (before, part, shifted)
              (
                first_message_partial (unread nr) part,
                refl,
                refl,
                record {
                  msg_in = omega arith;
                  bytes_in = omega (arith, length-drop nr.msg nr.bytes, r.bytes_in);
                  msg_before = omega (arith, r.msg_before);
                },
              )
        | inr start ↦
            rw (before, part, start)
              (first_message_partial (unread nr) part, refl, ground (arith, start), r)
      ]
    ]
