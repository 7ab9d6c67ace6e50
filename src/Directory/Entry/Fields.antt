-- ===== src/Directory/Entry/Fields.antt =====
-- The packed words of `DirEntry` against a record of independent fields.
use cyclone_cache.Common.{ℕ, ◌+◌, ◌*◌, ◌/◌, ◌%◌, ◌^◌, ◌<◌, Bool, ◌≡◌, arith, ◌==◌}
use cyclone_cache.Directory.Entry.{
  DirEntry, offset, set_offset, big, set_big, size, set_size, tag, set_tag, phase, set_phase, head,
  set_head, pinned, set_pinned, fill_serial, set_fill_serial, cleared,
}
use cyclone_cache.Directory.Entry.Words.{
  IsPacked, offset_words, set_offset_words, big_words, set_big_words, size_words, set_size_words,
  tag_words, set_tag_words, phase_words, set_phase_words, head_words, set_head_words, pinned_words,
  set_pinned_words,
}

-- What the words stand for.
pub record Fields : Type 0 where
  pub offset : ℕ
  pub big : ℕ
  pub size : ℕ
  pub tag : ℕ
  pub phase : Bool
  pub head : Bool
  pub pinned : Bool
  pub fill_serial : ℕ

unfoldable pub fields : DirEntry → Fields
fields e = record {
  offset = offset e;
  big = big e;
  size = size e;
  tag = tag e;
  phase = phase e;
  head = head e;
  pinned = pinned e;
  fill_serial = fill_serial e;
}

-- The same fields, read off the words by division.
abbrev plain : DirEntry → Fields
plain e = record {
  offset = e.w0 + e.w1 % 256 * 2 ^ 16 + e.w4 * 2 ^ 24;
  big = e.w1 / 256 % 4;
  size = e.w1 / 1024;
  tag = e.w2 % 4096;
  phase = e.w2 / 4096 % 2 == 1;
  head = e.w2 / 8192 % 2 == 1;
  pinned = e.w2 / 16384 % 2 == 1;
  fill_serial = e.w3;
}

fields-plain : (e : DirEntry) → IsPacked e → fields e ≡ plain e
unfolding fields fill_serial
fields-plain e p = cc (
  offset_words e p,
  big_words e p,
  size_words e p,
  tag_words e p,
  phase_words e p,
  head_words e p,
  pinned_words e p,
)

pub cleared-IsPacked : IsPacked cleared
cleared-IsPacked = omega arith

module _ (e : DirEntry) (p : IsPacked e) where
  pub set_offset-IsPacked : (o : ℕ) → IsPacked (set_offset o e)
  set_offset-IsPacked o = rw (set_offset_words e p o) (omega arith)

  pub fields-set_offset :
      (o : ℕ) → fields (set_offset o e) ≡ record (fields e) { offset = o % 2 ^ 40 }
  fields-set_offset o =
      rw (fields-plain _ (set_offset-IsPacked o), fields-plain e p, set_offset_words e p o)
        (ground arith)

  pub set_big-IsPacked : (b : ℕ) → IsPacked (set_big b e)
  set_big-IsPacked b = rw (set_big_words e p b) (omega arith)

  pub fields-set_big : (b : ℕ) → fields (set_big b e) ≡ record (fields e) { big = b % 4 }
  fields-set_big b =
      rw (fields-plain _ (set_big-IsPacked b), fields-plain e p, set_big_words e p b) (ground arith)

  pub set_size-IsPacked : (s : ℕ) → IsPacked (set_size s e)
  set_size-IsPacked s = rw (set_size_words e p s) (omega arith)

  pub fields-set_size : (s : ℕ) → fields (set_size s e) ≡ record (fields e) { size = s % 64 }
  fields-set_size s =
      rw (fields-plain _ (set_size-IsPacked s), fields-plain e p, set_size_words e p s)
        (ground arith)

  pub set_tag-IsPacked : (t : ℕ) → IsPacked (set_tag t e)
  set_tag-IsPacked t = rw (set_tag_words e p t) (omega arith)

  pub fields-set_tag : (t : ℕ) → fields (set_tag t e) ≡ record (fields e) { tag = t % 4096 }
  fields-set_tag t =
      rw (fields-plain _ (set_tag-IsPacked t), fields-plain e p, set_tag_words e p t) (ground arith)

  pub set_phase-IsPacked : (b : Bool) → IsPacked (set_phase b e)
  set_phase-IsPacked b = rw (set_phase_words e p b) (ground arith)

  pub fields-set_phase : (b : Bool) → fields (set_phase b e) ≡ record (fields e) { phase = b }
  fields-set_phase b =
      rw (fields-plain _ (set_phase-IsPacked b), fields-plain e p, set_phase_words e p b)
        (ground arith)

  pub set_head-IsPacked : (b : Bool) → IsPacked (set_head b e)
  set_head-IsPacked b = rw (set_head_words e p b) (ground arith)

  pub fields-set_head : (b : Bool) → fields (set_head b e) ≡ record (fields e) { head = b }
  fields-set_head b =
      rw (fields-plain _ (set_head-IsPacked b), fields-plain e p, set_head_words e p b)
        (ground arith)

  pub set_pinned-IsPacked : (b : Bool) → IsPacked (set_pinned b e)
  set_pinned-IsPacked b = rw (set_pinned_words e p b) (ground arith)

  pub fields-set_pinned : (b : Bool) → fields (set_pinned b e) ≡ record (fields e) { pinned = b }
  fields-set_pinned b =
      rw (fields-plain _ (set_pinned-IsPacked b), fields-plain e p, set_pinned_words e p b)
        (ground arith)

  pub set_fill_serial-IsPacked : (s : ℕ) → s < 2 ^ 16 → IsPacked (set_fill_serial s e)
  unfolding set_fill_serial
  set_fill_serial-IsPacked s h = omega arith

  pub fields-set_fill_serial :
      (s : ℕ) → s < 2 ^ 16 → fields (set_fill_serial s e) ≡ record (fields e) { fill_serial = s }
  unfolding set_fill_serial
  fields-set_fill_serial s h =
      rw (fields-plain _ (set_fill_serial-IsPacked s h), fields-plain e p) (ground arith)

-- The offset of an entry has 40 bits.
pub offset-lt : (e : DirEntry) → IsPacked e → offset e < 2 ^ 40
offset-lt e p = omega (arith, offset_words e p)

-- The ten bytes of an entry are eight independent fields: each setter changes its own field, to as
-- many bits of the value as the field has, and no other.
pub setters_lem :
    (e : DirEntry) (o b s t serial : ℕ) (flag : Bool)
    → IsPacked e
    → serial < 2 ^ 16
    → (fields (set_offset o e) ≡ record (fields e) { offset = o % 2 ^ 40 })
      × (fields (set_big b e) ≡ record (fields e) { big = b % 4 })
      × (fields (set_size s e) ≡ record (fields e) { size = s % 64 })
      × (fields (set_tag t e) ≡ record (fields e) { tag = t % 4096 })
      × (fields (set_phase flag e) ≡ record (fields e) { phase = flag })
      × (fields (set_head flag e) ≡ record (fields e) { head = flag })
      × (fields (set_pinned flag e) ≡ record (fields e) { pinned = flag })
      × (fields (set_fill_serial serial e) ≡ record (fields e) { fill_serial = serial })
setters_lem e o b s t serial flag p short = (
  fields-set_offset e p o,
  fields-set_big e p b,
  fields-set_size e p s,
  fields-set_tag e p t,
  fields-set_phase e p flag,
  fields-set_head e p flag,
  fields-set_pinned e p flag,
  fields-set_fill_serial e p serial short,
)
