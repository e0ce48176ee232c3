-- ===== src/Svchub/Ring/Stream.antt =====
-- The ring against the whole stream of a service's output: it keeps the last 4096 bytes.
use mathlib.Core.Path.{ap₂}
use minibase.Base.{
  ℕ, ◌+◌, ◌-◌, ◌%◌, ◌≤◌, ◌<◌, min, ◌≡◌, inl, inr, sym, ap, ◌∙◌, true, Option, none, some, ◌++◌,
  arith, ltb, leb, ltb→le, ltb→lt, if◌then◌else◌, Bool-cases, get_or-set_self, length, length-set,
}
use minibase.Base.Memory.{Memory, load, load-append, length-load}
use minibase.Svchub.State.{
  ring_size, Proc, blank_proc, Top, Kernel, logged, map_ring, proc_at, put_proc,
}
use minibase.Svchub.Ring.{
  readv_ring, advance, read_into, read_ring, check_proc, ring_pieces, output_of, ring_output,
  zeroed,
}
use minibase.Base.Memory.{load_move}
use minibase.Svchub.Ring.Read.{readv_first, readv_second, readv_kept}

-- `n` bytes of the stream have come, and the last 4096 of them stand in the ring.
pub record RingHolds (ring : Memory) (ptr : ℕ) (stream : Memory) (n : ℕ) : Type 0 where
  pub ptr_is : ptr ≡ (if leb n ring_size then n else ring_size + n % ring_size)
  pub newest : (j : ℕ) → j < n → n ≤ j + ring_size → ring (j % ring_size) ≡ stream j

-- A read of at most 4096 bytes keeps it so.
pub RingHolds-readv :
    (ring : Memory) (ptr : ℕ) (s : Memory) (n d : ℕ)
    → RingHolds ring ptr s n
    → d ≤ ring_size
    → RingHolds (readv_ring ring (ptr % ring_size) (load s n d)) (advance (ptr + d)) s (n + d)
unfolding advance
RingHolds-readv ring ptr s n d h le = record {
  ptr_is = ground (arith, h.ptr_is);
  newest = λ j lt recent. rw off_is (elim (Bool-cases (ltb j n)) [
    | inl old ↦
        readv_kept ring s (n % ring_size) n d (j % ring_size) (omega (arith, ltb→lt j n old))
          (omega (arith, ltb→lt j n old))
        ∙ h.newest j (ltb→lt j n old) (omega arith)
    | inr new ↦ fresh j (ltb→le j n new) lt
  ]);
}
  where
    off_is : ptr % ring_size ≡ n % ring_size
    off_is = ground (arith, h.ptr_is)

    fresh :
        (j : ℕ)
        → n ≤ j
        → j < n + d
        → readv_ring ring (n % ring_size) (load s n d) (j % ring_size) ≡ s j
    fresh j ge lt = elim (Bool-cases (ltb (n % ring_size + (j - n)) ring_size)) [
      | inl first ↦
          let in_first = ltb→lt (n % ring_size + (j - n)) ring_size first in
          readv_first ring s (n % ring_size) n d (j % ring_size) (omega arith) (omega arith)
            (omega arith) (omega arith)
          ∙ ap s (omega arith)
      | inr second ↦
          let in_second = ltb→le (n % ring_size + (j - n)) ring_size second in
          readv_second ring s (n % ring_size) n d (j % ring_size) (omega arith) (omega arith)
            (omega arith)
          ∙ ap s (omega arith)
    ]

-- What is handed out are the last 4096 bytes of the stream, in order, or all of it if there are less.
pub ring_pieces_lem :
    (ring : Memory) (ptr : ℕ) (s : Memory) (n : ℕ)
    → RingHolds ring ptr s n
    → ring_pieces ring ptr ≡ load s (n - ring_size) (min n ring_size)
unfolding ring_pieces
ring_pieces_lem ring ptr s n h = elim (Bool-cases (leb n ring_size)) [
  | inl few ↦
      let ptr_n : ptr ≡ n = ground (arith, h.ptr_is) in
      let small : leb ptr ring_size ≡ true = ground arith in
      rw (small, ptr_n)
        (load_move ring s 0 (n - ring_size) n (λ i lt.
            ap ring (let e : 0 + i ≡ i % ring_size = ground arith in e)
            ∙ h.newest i lt (ground arith)
            ∙ ap s (let e : i ≡ n - ring_size + i = ground arith in e))
          ∙ ap (load s (n - ring_size)) (let e : n ≡ min n ring_size = ground arith in e))
  | inr many ↦
      let full : min n ring_size ≡ ring_size = ground arith in
      let order : ring_size < n = ground arith in
      rw full (elim (Bool-cases (leb ptr ring_size)) [
        | inl whole ↦
            let ptr_full : ptr ≡ ring_size = ground (arith, h.ptr_is) in
            let off_zero : n % ring_size ≡ 0 = ground (arith, h.ptr_is) in
            rw (whole, ptr_full)
              (load_move ring s 0 (n - ring_size) ring_size (λ i lt.
                ap ring (let e : 0 + i ≡ (n - ring_size + i) % ring_size = omega arith in e)
                ∙ h.newest (n - ring_size + i) (omega arith) (omega arith)))
        | inr split ↦
            let off_is : ptr % ring_size ≡ n % ring_size = ground (arith, h.ptr_is) in
            rw (split, off_is) (halves order)
      ])
]
  where
    halves :
        ring_size < n
        → load ring (n % ring_size) (ring_size - n % ring_size) ++ load ring 0 (n % ring_size)
          ≡ load s (n - ring_size) ring_size
    halves order =
        ap₂ ◌++◌
          (load_move ring s (n % ring_size) (n - ring_size) (ring_size - n % ring_size) (λ i lt.
            ap ring (let e : n % ring_size + i ≡ (n - ring_size + i) % ring_size = omega arith in e)
            ∙ h.newest (n - ring_size + i) (omega arith) (omega arith)))
          (load_move ring s 0 (n - ring_size + (ring_size - n % ring_size)) (n % ring_size) (λ i lt.
            ap ring (let e : 0 + i ≡ (n - n % ring_size + i) % ring_size = omega arith in e)
            ∙ h.newest (n - n % ring_size + i) (omega arith) (omega arith)
            ∙ ap s (
                let e : n - n % ring_size + i ≡ n - ring_size + (ring_size - n % ring_size) + i =
                  omega arith in
                e)))
        ∙ sym (load-append s (n - ring_size) (ring_size - n % ring_size) (n % ring_size))
        ∙ ap (load s (n - ring_size))
            (let e : ring_size - n % ring_size + n % ring_size ≡ ring_size = omega arith in e)

-- Of the stream, `n` bytes have been recorded for the service.
abbrev pub RecordedIn : Option Memory → ℕ → Memory → ℕ → Type 0
RecordedIn none ptr stream n = n ≡ 0
RecordedIn (some ring) ptr stream n = RingHolds ring ptr stream n

abbrev pub Recorded : Proc → Memory → ℕ → Type 0
Recorded p stream n = RecordedIn p.ring p.ptr stream n

output_of-RecordedIn :
    (r : Option Memory) (ptr : ℕ) (stream : Memory) (n : ℕ)
    → RecordedIn r ptr stream n
    → output_of r ptr ≡ load stream (n - ring_size) (min n ring_size)
unfolding output_of
output_of-RecordedIn none ptr stream n z =
    ap (load stream (n - ring_size)) (let e : 0 ≡ min n ring_size = omega arith in e)
output_of-RecordedIn (some ring) ptr stream n held = ring_pieces_lem ring ptr stream n held

-- The output that is handed out for a service is the end of what it has written, in order: its last
-- 4096 bytes, or all of it if that is less.
pub ring_output-Recorded :
    (p : Proc) (stream : Memory) (n : ℕ)
    → Recorded p stream n
    → ring_output p ≡ load stream (n - ring_size) (min n ring_size)
ring_output-Recorded p stream n h = output_of-RecordedIn p.ring p.ptr stream n h

read_into-Recorded :
    (c : Top) (i : ℕ) (ring : Memory) (ptr : ℕ) (stream : Memory) (n d : ℕ)
    → i < length c.procs
    → d ≤ ring_size
    → RingHolds ring ptr stream n
    → Recorded (proc_at (read_into c i ring ptr (some (load stream n d))) i) stream (n + d)
unfolding read_into
read_into-Recorded c i ring ptr stream n d valid le h =
    rw (get_or-set_self c.procs i _ blank_proc valid, length-load stream n d)
      (RingHolds-readv ring ptr stream n d h le)

read_ring-Recorded :
    (k : Kernel) (c : Top) (i : ℕ) (r : Option Memory) (stream : Memory) (n d : ℕ)
    → i < length c.procs
    → k.mapped ≡ true
    → d ≤ ring_size
    → RecordedIn r (proc_at c i).ptr stream n
    → Recorded (proc_at (read_ring k c i (some (load stream n d)) r) i) stream (n + d)
unfolding read_ring
read_ring-Recorded k c i (some ring) stream n d valid mapped le h =
    read_into-Recorded c i ring (proc_at c i).ptr stream n d valid le h
read_ring-Recorded k c i none stream n d valid mapped le z = rw mapped (
    read_into-Recorded
      (logged (put_proc c i (record (proc_at c i) { ring = some zeroed; ptr = 0 })) map_ring) i
      zeroed 0 stream n d
      (omega (arith, length-set c.procs i (record (proc_at c i) { ring = some zeroed; ptr = 0 })))
      le record { ptr_is = ground arith; newest = λ j lt recent. absurd (omega arith) })

-- Whatever a read gets of a service's output is recorded behind what has been recorded so far,
-- whether there was a ring before or one is mapped now.
pub check_proc-Recorded :
    (k : Kernel) (c : Top) (i : ℕ) (stream : Memory) (n d : ℕ)
    → i < length c.procs
    → k.mapped ≡ true
    → d ≤ ring_size
    → Recorded (proc_at c i) stream n
    → Recorded (proc_at (check_proc k c i (some (load stream n d))) i) stream (n + d)
unfolding check_proc
check_proc-Recorded k c i stream n d valid mapped le h =
    read_ring-Recorded k c i (proc_at c i).ring stream n d valid mapped le h
