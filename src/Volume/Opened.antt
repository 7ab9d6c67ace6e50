-- ===== src/Volume/Opened.antt =====
-- src/core/volume.cpp: the geometry that `configure_frontier` sets up.
use cyclone_cache.Common.{◌+◌, ◌-◌, ◌^◌, ◌<◌, ◌≤◌, ◌≡◌, refl, inl, inr, Bool-cases, arith}
use cyclone_cache.Common.Words.{word_add, word_sub}
use cyclone_cache.Volume.{
  Stripe, VolumeConfig, configure_frontier, data_start_rel, retention_geometry,
}
use cyclone_cache.Volume.Frontier.{core, IsOpen}
use cyclone_cache.Volume.Geometry.{retention_geometry_covers}

-- With retention or in flush mode, a stripe whose data area lies within it is open after its frontier
-- is configured: chunks, at most 64, that cover the area, and the divisors that belong to them.
pub configure_frontier-IsOpen :
    (config : VolumeConfig) (s : Stripe)
    → s.offset ≤ s.data_offset
    → s.data_offset < s.offset + s.size
    → s.offset + s.size < 2 ^ 62
    → IsOpen (core (configure_frontier config s))
unfolding configure_frontier data_start_rel
configure_frontier-IsOpen config s start area room =
    let a = s.offset + s.size - s.data_offset in
    let exact : word_sub s.size (word_sub s.data_offset s.offset) ≡ a = omega arith in
    elim (Bool-cases config.wrap_retention) [
      | inl retained ↦
          let g = retention_geometry_covers a (omega arith) (omega arith) in
          let count : word_add (retention_geometry a).chunks 1 ≡ (retention_geometry a).chunks + 1 =
            omega (arith, g.1) in
          rw (retained, exact, count)
            (record {
              start = start;
              area = area;
              room = room;
              some_chunk = g.0;
              chunk_limit = g.1;
              some_bytes = omega (arith, g.3);
              chunk_room = g.6;
              cover = omega (arith, g.4);
              last_chunk = omega (arith, g.5);
              gen_division = refl;
              chunk_division = refl;
            })
      | inr flush ↦
          rw (flush, exact)
            (record {
              start = start;
              area = area;
              room = room;
              some_chunk = omega arith;
              chunk_limit = omega arith;
              some_bytes = omega arith;
              chunk_room = omega arith;
              cover = omega arith;
              last_chunk = omega arith;
              gen_division = refl;
              chunk_division = refl;
            })
    ]
