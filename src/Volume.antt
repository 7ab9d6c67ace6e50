-- ===== src/Volume.antt =====
-- src/core/volume.hpp and src/core/volume.cpp: a stripe of a volume, its frontier geometry and the
-- small methods of `Stripe`. An atomic field that an mmap directory keeps in its shared header or
-- its retention region and a stripe without one keeps in itself is one field here, since only one
-- of the two is in use; the write cursor is in use in both places and has two. The borrow slots
-- are a row of 64 words for each shard, and an mmap directory has one row. Directory, mutex and
-- test seams are left out.
pub mod Geometry
pub mod Frontier
pub mod Admission
pub mod Lease
pub mod Wrap
pub mod Reserve
pub mod Steps
pub mod Safety
pub mod Entered
pub mod Reserved
pub mod Overlap
pub mod Renewal
pub mod Gate
pub mod Pinned
pub mod Recovery
pub mod Walk
pub mod Opened
use cyclone_cache.Common.{
  ℕ, ◌+◌, ◌-◌, ◌*◌, ◌/◌, ◌%◌, ◌^◌, min, Bool, true, false, ◌&&◌, ◌||◌, not, List, [], ◌∷◌, ltb, leb,
  ◌==◌, if◌then◌else◌, get_or, set,
}
use cyclone_cache.Common.Words.{word_add, word_sub, word_mul}
use cyclone_cache.FastDiv.{FastDivU64, fast_div, quot}

pub record FrontierGeometry : Type 0 where
  pub chunks : ℕ
  pub chunk_size : ℕ

abbrev pub max_chunks : ℕ
max_chunks = 64

abbrev pub min_frontier_chunk : ℕ
min_frontier_chunk = 2 ^ 20

-- `& ~uint64_t{7}` clears the low three bits.
abbrev pub round_up_8 : ℕ → ℕ
round_up_8 a = let b = word_add a 7 in b - b % 8

unfoldable pub clamp_chunks : ℕ → ℕ
clamp_chunks n = if ltb n 1 then 1 else if ltb max_chunks n then max_chunks else n

unfoldable pub chunk_bytes : ℕ → ℕ
chunk_bytes data_area =
    let q = round_up_8 (word_add data_area (max_chunks - 1) / max_chunks) in
    if ltb q min_frontier_chunk then min_frontier_chunk else q

unfoldable pub retention_geometry : ℕ → FrontierGeometry
retention_geometry data_area =
    let q = chunk_bytes data_area in
    if data_area == 0
    then record { chunks = 1; chunk_size = 0 }
    else record { chunks = clamp_chunks (word_sub (word_add data_area q) 1 / q); chunk_size = q }

-- The volume's own counters that the operations on a stripe move.
pub record VolumeCounters : Type 0 where
  pub evictions : ℕ
  pub wrap_count : ℕ
  pub shared_wrap_count : ℕ
  pub shared_last_wrap_time_ns : ℕ
  pub last_wrap_time_ns : ℕ
  pub last_wrap_interval_ns : ℕ
  pub min_wrap_interval_ns : ℕ
  pub wraps_forced_past_lease : ℕ
  pub wraps_deferred_by_lease : ℕ
  pub writes_dropped_by_lease : ℕ
  pub advances_deferred_by_lease : ℕ
  pub early_advances_skipped : ℕ
  pub frontier_advances : ℕ
  pub write_lock_force_releases : ℕ
  pub write_lock_escalation_takeovers : ℕ
  pub write_lock_live_holder_waits : ℕ
  pub write_lock_usurp_aborts : ℕ

-- The stripe carries the counters along.
pub record Stripe : Type 0 where
  pub offset : ℕ
  pub size : ℕ
  pub data_offset : ℕ
  pub write_pos : ℕ
  pub shared_write_pos : ℕ
  pub chunks : ℕ
  pub chunk_size : ℕ
  pub gen_div : FastDivU64
  pub chunk_div : FastDivU64
  pub retain : Bool
  pub use_mmap_directory : Bool
  pub exposure_gen : ℕ
  pub wrap_intent : ℕ
  pub lease_expiry_ns : ℕ
  pub borrow_shards : List (List ℕ)
  pub wrap_deferred_since_ns : ℕ
  pub wrap_deferred_deadline_ms : ℕ
  pub current_phase : Bool
  pub counters : VolumeCounters

-- The configuration the stripe's operations read.
pub record VolumeConfig : Type 0 where
  pub wrap_retention : Bool
  pub lease_t_ns : ℕ
  pub lease_ceiling_ns : ℕ
  pub max_object_size : ℕ
  pub fill_large_document_tail : Bool

-- `Document::kHeaderSize`.
abbrev pub header_size : ℕ
header_size = 132

unfoldable pub data_start_rel : Stripe → ℕ
data_start_rel s = word_sub s.data_offset s.offset

unfoldable pub configure_frontier : VolumeConfig → Stripe → Stripe
configure_frontier config s =
    let data_area = word_sub s.size (data_start_rel s) in
    let g =
      if config.wrap_retention
      then retention_geometry data_area
      else record { chunks = 1; chunk_size = data_area } in
    record s {
      retain = config.wrap_retention;
      chunks = g.chunks;
      chunk_size = g.chunk_size;
      gen_div = fast_div (word_add g.chunks 1);
      chunk_div = fast_div g.chunk_size;
    }

unfoldable pub current_write_cursor : Stripe → ℕ
current_write_cursor s = if s.use_mmap_directory then s.shared_write_pos else s.write_pos

unfoldable pub in_data_area : Stripe → ℕ → Bool
in_data_area s rel =
    leb (data_start_rel s) rel && ltb rel s.size && leb (word_add rel header_size) s.size

unfoldable pub chunk_of : Stripe → ℕ → ℕ
chunk_of s rel =
    let start = data_start_rel s in
    let c = quot s.chunk_div (word_sub rel start) in
    if leb s.chunks 1 || leb rel start || s.chunk_size == 0
    then 0
    else if leb s.chunks c
    then s.chunks - 1
    else c

unfoldable pub frontier_rel_of : Stripe → ℕ → ℕ
frontier_rel_of s f =
    let rel = word_add (data_start_rel s) (word_mul f s.chunk_size) in
    if leb s.chunks f then s.size else if ltb rel s.size then rel else s.size

unfoldable pub pass_of : Stripe → ℕ → ℕ
pass_of s gen = quot s.gen_div gen

unfoldable pub exposure_threshold : Stripe → ℕ → ℕ → ℕ
exposure_threshold s pass rel =
    word_add (word_mul (word_add pass 1) (s.chunks + 1)) (chunk_of s rel)

unfoldable pub chunk_index_ceil : Stripe → ℕ → ℕ
chunk_index_ceil s abs_offset =
    let rel = word_sub abs_offset s.data_offset in
    let t = word_sub (word_add rel s.chunk_size) 1 / s.chunk_size in
    if leb abs_offset s.data_offset || s.chunk_size == 0 then 0 else min t s.chunks

unfoldable pub carry_byte_budget : VolumeConfig → Stripe → ℕ → ℕ
carry_byte_budget config s new_doc_size =
    let area = word_sub s.size (data_start_rel s) in
    let new_aligned = round_up_8 new_doc_size in
    let budget =
      if ltb 0 config.max_object_size then min (area / 8) config.max_object_size else area / 8 in
    if leb area new_aligned then 0 else min budget (word_sub area new_aligned)
