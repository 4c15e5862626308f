-- ===== src/Buffer/Queue.antt =====
-- The buffer is the queue of its unread bytes.
use kvrpc.Base.{
  ℕ, ◌+◌, ◌-◌, ◌/◌, size_sub, ◌≤◌, ◌≡◌, refl, sym, ap, ◌∙◌, inl, inr, not, ◌&&◌, ◌++◌, Bytes,
  length, drop, drop-add, drop-append_short, drop_all, length-drop, length-append, leb, ◌==◌,
  Bool-cases, arith,
}
use kvrpc.Buffer.{Buffer, buffer_size, buffer_data, reclaimed, append, consume}

-- The read position stays within the vector.
pub record IsBuffer (b : Buffer) : Type 0 where
  pub within : b.read ≤ length b.bytes

reclaimed_lem :
    (b : Buffer) → IsBuffer b → IsBuffer (reclaimed b) × (buffer_data (reclaimed b) ≡ buffer_data b)
unfolding buffer_data
reclaimed_lem b v = elim (Bool-cases (not (b.read == 0) && leb (length b.bytes / 2) b.read)) [
  | inl p ↦ rw p (record { within = omega arith }, unfold drop in refl)
  | inr p ↦ rw p (v, refl)
]

-- If the read position of a buffer is within its vector, it still is after `append`, whose unread
-- bytes are the old ones and then the new ones, whether or not consumed bytes were erased.
pub append_lem :
    (new : Bytes) (b : Buffer)
    → IsBuffer b
    → IsBuffer (append new b) × (buffer_data (append new b) ≡ buffer_data b ++ new)
unfolding append buffer_data
append_lem new b v =
    let c = reclaimed b in
    let (w, same) = reclaimed_lem b v in
    (
      record { within = omega (arith, w.within, length-append c.bytes new) },
      drop-append_short c.read c.bytes new w.within
          ∙ ap (λ z. z ++ new) (unfold buffer_data in same),
    )

-- If the read position of a buffer is within its vector, then after `consume` of no more bytes than
-- are unread it still is, the unread bytes are the old ones without so many at the front, and the
-- size is less by as many.
pub consume_lem :
    (n : ℕ) (b : Buffer)
    → IsBuffer b
    → n ≤ buffer_size b
    → IsBuffer (consume n b)
      × (buffer_data (consume n b) ≡ drop n (buffer_data b))
      × (buffer_size (consume n b) ≡ buffer_size b - n)
unfolding consume buffer_data
consume_lem n b v h =
    let m : n ≤ length b.bytes - b.read = ground (arith, v.within) in
    let s = size_sub (length b.bytes) b.read v.within in
    elim (Bool-cases (b.read + n == length b.bytes)) [
      | inl p ↦
          let all : b.read + n ≡ length b.bytes = ground arith in
          rw (p, s)
            (
              record { within = omega arith },
              (unfold drop in
                  sym
                    (drop_all n (drop b.read b.bytes) (omega (arith, length-drop b.read b.bytes)))),
              omega arith,
            )
      | inr p ↦
          rw (p, s)
            (
              record { within = omega (arith, v.within) },
              drop-add b.read n b.bytes,
              size_sub (length b.bytes) (b.read + n) (omega (arith, v.within)) ∙ omega arith,
            )
    ]
