-- ===== src/Svchub/Ring/Read.antt =====
-- What a read leaves at each address of the ring.
use minibase.Base.{
  ℕ, ◌+◌, ◌-◌, ◌≤◌, ◌<◌, min, ◌≡◌, ◌⊎◌, inl, inr, ap, ◌∙◌, arith, length, take, drop,
}
use minibase.Base.Memory.{Memory, load, copy_to, copy_to-before, copy_to-after, length-load}
use minibase.Svchub.State.{ring_size}
use minibase.Svchub.Ring.{readv_ring}
use minibase.Base.Memory.{take-load, drop-load, copy_to-load_inside}

-- what `readv` leaves at an address, in terms of the stream
pub readv_second :
    (ring s : Memory) (off n d a : ℕ)
    → ring_size ≤ off + d
    → off + a + ring_size < ring_size + off + (off + d - ring_size)
    → off ≤ ring_size
    → readv_ring ring off (load s n d) a ≡ s (n + (ring_size - off) + a)
unfolding readv_ring
readv_second ring s off n d a h k l =
    ap (λ cs. copy_to (copy_to ring off (take (ring_size - off) (load s n d))) 0 cs a)
      (drop-load s n (ring_size - off) d)
    ∙ copy_to-load_inside (copy_to ring off (take (ring_size - off) (load s n d))) s 0
        (n + (ring_size - off)) (d - (ring_size - off)) a (omega arith) (omega arith)
    ∙ ap s (omega arith)

pub readv_first :
    (ring s : Memory) (off n d a : ℕ)
    → off ≤ a
    → a < off + d
    → a < ring_size
    → off + d ≤ a + ring_size
    → readv_ring ring off (load s n d) a ≡ s (n + (a - off))
unfolding readv_ring
readv_first ring s off n d a h k l small =
    copy_to-after (copy_to ring off (take (ring_size - off) (load s n d))) 0 a
      (drop (ring_size - off) (load s n d))
      (omega (
        arith,
        ap length (drop-load s n (ring_size - off) d),
        length-load s (n + (ring_size - off)) (d - (ring_size - off)),
      ))
    ∙ ap (λ cs. copy_to ring off cs a) (take-load s n (ring_size - off) d)
    ∙ copy_to-load_inside ring s off n (min (ring_size - off) d) a h (omega arith)

pub readv_kept :
    (ring s : Memory) (off n d a : ℕ)
    → (a < off) ⊎ (off + d ≤ a)
    → off + d ≤ a + ring_size
    → readv_ring ring off (load s n d) a ≡ ring a
unfolding readv_ring
readv_kept ring s off n d a h small =
    copy_to-after (copy_to ring off (take (ring_size - off) (load s n d))) 0 a
      (drop (ring_size - off) (load s n d))
      (omega (
        arith,
        ap length (drop-load s n (ring_size - off) d),
        length-load s (n + (ring_size - off)) (d - (ring_size - off)),
      ))
    ∙ outside h
  where
    outside :
        (a < off) ⊎ (off + d ≤ a)
        → copy_to ring off (take (ring_size - off) (load s n d)) a ≡ ring a
    outside (inl before) = copy_to-before ring off a (take (ring_size - off) (load s n d)) before
    outside (inr after) = copy_to-after ring off a (take (ring_size - off) (load s n d)) (
        omega (
          arith,
          ap length (take-load s n (ring_size - off) d),
          length-load s n (min (ring_size - off) d),
        ))
