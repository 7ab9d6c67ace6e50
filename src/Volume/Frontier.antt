-- ===== src/Volume/Frontier.antt =====
-- src/core/volume.hpp and src/core/volume.cpp: the state of a stripe between two operations, and
-- what its small methods compute in such a state.
use native.Mathlib.Nat.{lt-div-mul-add, mul-le-mul_right, le-div_iff_mul-le}
use cyclone_cache.Common.{
  ℕ, ◌+◌, ◌-◌, ◌*◌, ◌/◌, ◌^◌, ◌<◌, ◌≤◌, ◌≡◌, min, inl, inr, Bool, false, ltb, leb, ◌==◌, ◌||◌,
  if◌then◌else◌, Bool-cases, arith, if-both,
}
use cyclone_cache.Common.Words.{word_add, word_sub, word_mul}
use cyclone_cache.FastDiv.{FastDivU64, fast_div, quot}
use cyclone_cache.FastDiv.Quotient.{quot-div}
use cyclone_cache.Volume.{
  Stripe, data_start_rel, chunk_of, frontier_rel_of, pass_of, chunk_index_ceil,
}

-- What of a stripe the reservation goes by.
pub record Core : Type 0 where
  pub offset : ℕ
  pub size : ℕ
  pub data_offset : ℕ
  pub chunks : ℕ
  pub chunk_size : ℕ
  pub gen_div : FastDivU64
  pub chunk_div : FastDivU64
  pub retain : Bool
  pub use_mmap_directory : Bool
  pub write_pos : ℕ
  pub shared_write_pos : ℕ
  pub exposure_gen : ℕ

abbrev pub core : Stripe → Core
core s = record {
  offset = s.offset;
  size = s.size;
  data_offset = s.data_offset;
  chunks = s.chunks;
  chunk_size = s.chunk_size;
  gen_div = s.gen_div;
  chunk_div = s.chunk_div;
  retain = s.retain;
  use_mmap_directory = s.use_mmap_directory;
  write_pos = s.write_pos;
  shared_write_pos = s.shared_write_pos;
  exposure_gen = s.exposure_gen;
}

-- The geometry of a stripe that is open: `configure_frontier` has run on it.
pub record IsOpen (c : Core) : Type 0 where
  pub start : c.offset ≤ c.data_offset
  pub area : c.data_offset < c.offset + c.size
  pub room : c.offset + c.size < 2 ^ 62
  pub some_chunk : 0 < c.chunks
  pub chunk_limit : c.chunks ≤ 64
  pub some_bytes : 0 < c.chunk_size
  pub chunk_room : c.chunk_size < 2 ^ 62
  pub cover : c.offset + c.size ≤ c.data_offset + c.chunks * c.chunk_size
  pub last_chunk : c.data_offset + c.chunks * c.chunk_size < c.offset + c.size + c.chunk_size
  pub gen_division : c.gen_div ≡ fast_div (c.chunks + 1)
  pub chunk_division : c.chunk_div ≡ fast_div c.chunk_size

-- The address of the frontier with an index.
abbrev pub frontier_of : Core → ℕ → ℕ
frontier_of c f = min (c.data_offset + f * c.chunk_size) (c.offset + c.size)

pub chunk_index_ceil-limit : (s : Stripe) (a : ℕ) → chunk_index_ceil s a ≤ s.chunks
unfolding chunk_index_ceil
chunk_index_ceil-limit s a =
    if-both (λ (v : ℕ). v ≤ s.chunks) (leb a s.data_offset || s.chunk_size == 0) 0 _ (omega arith)
      (omega arith)

module _ (s : Stripe) (open' : IsOpen (core s)) where
  pub data_start_rel_lem : data_start_rel s ≡ s.data_offset - s.offset
  unfolding data_start_rel
  data_start_rel_lem = omega (arith, open'.start, open'.area, open'.room)

  pub pass_of-div : (gen : ℕ) → gen < 2 ^ 64 → pass_of s gen ≡ gen / (s.chunks + 1)
  unfolding pass_of
  pass_of-div gen h = rw (open'.gen_division) (quot-div (s.chunks + 1) gen (omega arith) h)

  -- The frontier of an index, within the stripe's address range.
  pub frontier_rel_of_lem : (f : ℕ) → s.offset + frontier_rel_of s f ≡ frontier_of (core s) f
  unfolding frontier_rel_of
  frontier_rel_of_lem f = elim (Bool-cases (leb s.chunks f)) [
    | inl past ↦
        let all : s.chunks * s.chunk_size ≤ f * s.chunk_size =
          mul-le-mul_right s.chunk_size (ground arith) in
        rw past (omega (arith, all, open'.cover))
    | inr before ↦
        let next : f + 1 ≤ s.chunks = ground arith in
        let inside : f * s.chunk_size + s.chunk_size ≤ s.chunks * s.chunk_size =
          omega (arith, mul-le-mul_right s.chunk_size next) in
        let exact : word_add (data_start_rel s) (word_mul f s.chunk_size)
            ≡ s.data_offset - s.offset + f * s.chunk_size =
          omega (
            arith, data_start_rel_lem, inside, open'.last_chunk, open'.start, open'.area,
            open'.room,
          ) in
        rw (before, exact)
          (elim (Bool-cases (ltb (s.data_offset - s.offset + f * s.chunk_size) s.size)) [
            | inl short ↦ rw short (ground (arith, open'.start))
            | inr long ↦ rw long (ground (arith, open'.start))
          ])
  ]

  -- The index that covers an address: its frontier is at or past the address.
  pub chunk_index_ceil_lem :
      (a : ℕ)
      → a ≤ s.offset + s.size
      → (a ≤ frontier_of (core s) (chunk_index_ceil s a)) × (chunk_index_ceil s a ≤ s.chunks)
  unfolding chunk_index_ceil
  chunk_index_ceil_lem a inside =
      let q = s.chunk_size in
      let r = a - s.data_offset in
      let t = (r + q - 1) / q in
      let zero_q : (q == 0) ≡ false = ground (arith, open'.some_bytes) in
      elim (Bool-cases (leb a s.data_offset)) [
        | inl low ↦
            let le : a ≤ s.data_offset = ground arith in
            rw low (omega (arith, open'.area, le), omega arith)
        | inr high ↦
            let exact : word_sub (word_add (word_sub a s.data_offset) q) 1 ≡ r + q - 1 =
              ground (arith, open'.room, open'.chunk_room, open'.some_bytes) in
            let covers : r + q - 1 < t * q + q = lt-div-mul-add (open'.some_bytes) in
            let above : s.data_offset < a = ground arith in
            let reaches : a ≤ frontier_of (core s) (min t s.chunks) =
              elim (Bool-cases (leb t s.chunks)) [
                | inl within ↦
                    let least : min t s.chunks ≡ t = ground arith in
                    rw least (omega (arith, covers, inside, above))
                | inr beyond ↦
                    let least : min t s.chunks ≡ s.chunks = ground arith in
                    rw least (omega (arith, open'.cover, inside))
              ] in
            rw (high, zero_q, exact) (reaches, omega arith)
      ]

  chunk_quotient :
      (rel : ℕ)
      → s.data_offset ≤ s.offset + rel
      → rel < s.size
      → quot s.chunk_div (word_sub rel (data_start_rel s))
        ≡ (s.offset + rel - s.data_offset) / s.chunk_size
  chunk_quotient rel low high =
      let distance : word_sub rel (data_start_rel s) ≡ s.offset + rel - s.data_offset =
        omega (arith, data_start_rel_lem, open'.start, open'.room, low, high) in
      rw (distance, open'.chunk_division)
        (quot-div s.chunk_size (s.offset + rel - s.data_offset) open'.some_bytes
          (omega (arith, open'.room, high)))

  -- A frontier whose index is at most the chunk of a position is at or under the position.
  pub chunk_of_lem :
      (f rel : ℕ)
      → f ≤ chunk_of s rel
      → s.data_offset ≤ s.offset + rel
      → rel < s.size
      → s.data_offset + f * s.chunk_size ≤ s.offset + rel
  unfolding chunk_of
  chunk_of_lem f rel below low high =
      let c = quot s.chunk_div (word_sub rel (data_start_rel s)) in
      let last : (if leb s.chunks c then s.chunks - 1 else c) ≤ c =
        elim (Bool-cases (leb s.chunks c)) [
          | inl past ↦ rw past (ground arith)
          | inr inside ↦ rw inside (omega arith)
        ] in
      let most : chunk_of s rel ≤ c = if-both (λ (v : ℕ). v ≤ c) _ 0 _ (omega arith) last in
      let index : f ≤ (s.offset + rel - s.data_offset) / s.chunk_size =
        omega (arith, most, below, chunk_quotient rel low high) in
      omega (arith, (le-div_iff_mul-le open'.some_bytes).0 index, low)

  pub chunk_of-limit : (rel : ℕ) → chunk_of s rel < s.chunks
  unfolding chunk_of
  chunk_of-limit rel =
      let start = data_start_rel s in
      let c = quot s.chunk_div (word_sub rel start) in
      let last : (if leb s.chunks c then s.chunks - 1 else c) < s.chunks =
        elim (Bool-cases (leb s.chunks c)) [
          | inl past ↦ rw past (omega (arith, open'.some_chunk))
          | inr inside ↦ rw inside (ground arith)
        ] in
      if-both (λ (v : ℕ). v < s.chunks) (leb s.chunks 1 || leb rel start || s.chunk_size == 0) 0 _
        open'.some_chunk last
