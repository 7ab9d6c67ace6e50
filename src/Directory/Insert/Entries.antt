-- ===== src/Directory/Insert/Entries.antt =====
-- The entries that `insert` writes, and the slots that it clears.
use cyclone_cache.Common.{
  ℕ, zero, suc, ◌+◌, ◌-◌, ◌*◌, ◌%◌, ◌^◌, ◌<◌, ◌≡◌, ◌≢◌, refl, Bool, true, false, List, [], ◌∷◌,
  length, set, get_or, All, arith, if◌then◌else◌,
}
use cyclone_cache.Directory.Entry.{
  DirEntry, is_empty, offset, cleared, set_offset, set_approx_size, set_fill_serial, set_tag,
  set_phase, scale, blocks_for, block_size,
}
use cyclone_cache.Directory.Entry.Words.{IsPacked}
use cyclone_cache.Directory.Entry.Fields.{
  fields, cleared-IsPacked, set_offset-IsPacked, set_fill_serial-IsPacked, set_tag-IsPacked,
  set_phase-IsPacked, set_head-IsPacked, fields-set_offset, fields-set_fill_serial, fields-set_tag,
  fields-set_phase, fields-set_head,
}
use cyclone_cache.Directory.Entry.Size.{set_approx_size-IsPacked, fields-set_approx_size}
use cyclone_cache.Directory.{live}
use cyclone_cache.Directory.Insert.{move_entry, stamp_entry, clear_others}
use cyclone_cache.Directory.Invariant.{is_empty-cleared}

-- The size code of `bytes`, as `set_approx_size` picks it.
abbrev pub big_code : ℕ → ℕ
big_code bytes = scale 3 0 bytes

abbrev pub size_code : ℕ → ℕ
size_code bytes = blocks_for bytes (block_size * 2 ^ scale 3 0 bytes) - 1

module _ (off size serial : ℕ) (short : serial < 2 ^ 16) (ph : Bool) (e : DirEntry)
    (p : IsPacked e) where
  sized : DirEntry
  sized = set_fill_serial serial (set_approx_size size (set_offset off e))

  offset_packed : IsPacked (set_offset off e)
  offset_packed = set_offset-IsPacked e p off

  size_packed : IsPacked (set_approx_size size (set_offset off e))
  size_packed = set_approx_size-IsPacked _ offset_packed size

  sized_packed : IsPacked sized
  unfolding sized
  sized_packed = set_fill_serial-IsPacked _ size_packed serial short

  fields-sized : fields sized ≡ record (fields e) {
    offset = off % 2 ^ 40;
    big = big_code size;
    size = size_code size;
    fill_serial = serial;
  }
  unfolding sized
  fields-sized = rw (
    fields-set_fill_serial _ size_packed serial short,
    fields-set_approx_size _ offset_packed size,
    fields-set_offset e p off,
  )

  pub move_entry-IsPacked : IsPacked (move_entry off size serial ph e)
  unfolding move_entry sized
  move_entry-IsPacked = set_phase-IsPacked _ sized_packed ph

  pub fields-move_entry : fields (move_entry off size serial ph e) ≡ record (fields e) {
    offset = off % 2 ^ 40;
    big = big_code size;
    size = size_code size;
    fill_serial = serial;
    phase = ph;
  }
  unfolding move_entry sized
  fields-move_entry = rw (fields-set_phase _ sized_packed ph, fields-sized)

  module _ (t : ℕ) (twelve : t < 2 ^ 12) where
    tag_packed : IsPacked (set_tag t sized)
    tag_packed = set_tag-IsPacked _ sized_packed t

    phase_packed : IsPacked (set_phase ph (set_tag t sized))
    phase_packed = set_phase-IsPacked _ tag_packed ph

    pub stamp_entry-IsPacked : IsPacked (stamp_entry off size serial t ph e)
    unfolding stamp_entry sized
    stamp_entry-IsPacked = set_head-IsPacked _ phase_packed true

    pub fields-stamp_entry : fields (stamp_entry off size serial t ph e) ≡ record (fields e) {
      offset = off % 2 ^ 40;
      big = big_code size;
      size = size_code size;
      fill_serial = serial;
      tag = t;
      phase = ph;
      head = true;
    }
    unfolding stamp_entry sized
    fields-stamp_entry =
        let t' : t % 4096 ≡ t = omega arith in
        rw (
          fields-set_head _ phase_packed true,
          fields-set_phase _ tag_packed ph,
          fields-set_tag _ sized_packed t,
          fields-sized,
          t',
        )

-- An entry that holds an offset other than 0 is not empty.
pub is_empty_of_offset : (e : DirEntry) → offset e ≢ 0 → is_empty e ≡ false
unfolding is_empty
is_empty_of_offset e h = ground arith

module _ (t off : ℕ) (clear_offsets : List ℕ) (slot : ℕ) where
  pub clear_others_lem :
      (i : ℕ) (es : List DirEntry)
      → All IsPacked es
      → let r = clear_others t off clear_offsets slot i es in
        (length r.0 ≡ length es) × (live es ≡ live r.0 + r.1) × All IsPacked r.0
  unfolding clear_others live
  clear_others_lem i [] ok = (refl, refl, tt)
  clear_others_lem i (e ∷ es) ok =
      ground (arith, is_empty-cleared, cleared-IsPacked, ok, clear_others_lem (i + 1) es ok.1)

-- Writing a slot.
pub live-set :
    (es : List DirEntry) (i : ℕ) (v : DirEntry)
    → i < length es
    → live (set es i v) + (if is_empty (get_or es i cleared) then 0 else 1)
      ≡ live es + (if is_empty v then 0 else 1)
unfolding live
live-set [] i v h = absurd (omega arith)
live-set (e ∷ es) zero v h = ground arith
live-set (e ∷ es) (suc i) v h = ground (arith, live-set es i v)
