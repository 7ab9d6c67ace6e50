-- ===== src/WriteBuffer/Appended.antt =====
-- src/core/write_buffer.cpp: what a buffer holds after an append.
use cyclone_cache.Common.{
  ℕ, ◌+◌, ◌-◌, ◌^◌, ◌<◌, ◌≤◌, ◌≡◌, refl, ap, ◌∙◌, inl, inr, true, false, List, ◌++◌, length, take,
  drop, replicate, ltb, Bool-cases, length-append, length-replicate, length-take_of_le,
  take-append_of_length, arith,
}
use cyclone_cache.Common.Splices.{splice, take-append_le}
use cyclone_cache.WriteBuffer.{WriteBuffer, done, resize, grown_capacity, grow, append, contents}

-- The bytes written are inside the buffer, and inside the limit.
pub record IsBuffer (b : WriteBuffer) : Type 0 where
  pub inside : b.size ≤ length b.buffer
  pub limit : b.size ≤ b.max_size

grown_capacity-le :
    (capacity new_size max_size : ℕ)
    → new_size ≤ max_size
    → new_size ≤ grown_capacity capacity new_size max_size
unfolding grown_capacity
grown_capacity-le capacity new_size max_size h = ground arith

resize_longer :
    (n : ℕ) (buffer : List ℕ)
    → length buffer < n
    → resize n buffer ≡ buffer ++ replicate (n - length buffer) 0
unfolding resize
resize_longer n buffer h = let e : ltb (length buffer) n ≡ true = ground arith in rw e refl

-- Growing keeps what the buffer holds and makes room for the new size.
grow_lem :
    (n new_size max_size : ℕ) (buffer : List ℕ)
    → n ≤ length buffer
    → new_size ≤ max_size
    → (new_size ≤ length (grow new_size max_size buffer))
      × (take n (grow new_size max_size buffer) ≡ take n buffer)
unfolding grow
grow_lem n new_size max_size buffer h room =
    let cap = grown_capacity (length buffer) new_size max_size in
    let enough = grown_capacity-le (length buffer) new_size max_size room in
    elim (Bool-cases (ltb (length buffer) new_size)) [
      | inr fits ↦ rw fits (ground arith, refl)
      | inl small ↦
          let short : length buffer < cap = ground (arith, enough) in
          rw (small, resize_longer cap buffer short)
            (
              omega (
                arith,
                enough,
                length-append buffer (replicate (cap - length buffer) 0),
                length-replicate {A = ℕ} (cap - length buffer) 0,
              ),
              take-append_le n buffer (replicate (cap - length buffer) 0) h,
            )
    ]

-- An append that fits puts its bytes behind those in the buffer, whether the buffer had to grow or
-- not; the bytes in the buffer are inside it and inside the limit, before and after.
pub contents-append :
    (bytes : List ℕ) (b : WriteBuffer)
    → IsBuffer b
    → b.size + length bytes ≤ b.max_size
    → b.max_size < 2 ^ 64
    → ((append bytes b).1 ≡ done)
      × (contents (append bytes b).0 ≡ contents b ++ bytes)
      × ((append bytes b).0.size ≤ length (append bytes b).0.buffer)
unfolding append contents splice
contents-append bytes b h fits word =
    let small : ltb (2 ^ 64 - 1 - b.size) (length bytes) ≡ false = ground arith in
    let room : ltb b.max_size (b.size + length bytes) ≡ false = ground arith in
    let g = grow (b.size + length bytes) b.max_size b.buffer in
    let (long, kept) = grow_lem b.size (b.size + length bytes) b.max_size b.buffer h.inside fits in
    let front : length (take b.size g ++ bytes) ≡ b.size + length bytes = omega (
      arith,
      length-append (take b.size g) bytes,
      length-take_of_le b.size g (omega (arith, long)),
    ) in
    rw (small, room)
      (
        refl,
        take-append_of_length (b.size + length bytes) (take b.size g ++ bytes) _ front
            ∙ ap (λ (xs : List ℕ). xs ++ bytes) kept,
        omega
            (arith, front, length-append (take b.size g ++ bytes) (drop (b.size + length bytes) g)),
      )
