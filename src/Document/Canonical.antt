-- ===== src/Document/Canonical.antt =====
-- src/core/document.cpp: the canonical header under the checksum.
use cyclone_cache.Common.{
  ℕ, ◌+◌, ◌^◌, ◌<◌, ◌≡◌, ◌↔◌, refl, ap, sym, ◌∙◌, List, [], ◌∷◌, ◌++◌, map, length, replicate, ◌==◌,
  arith,
}
use mathlib.Core.List.{append_assoc}
use cyclone_cache.Common.Bytes.{to_le}
use cyclone_cache.Common.Splices.{splice, splice-skip}
use cyclone_cache.Crc32c.Incremental.{Crc32c}
use cyclone_cache.Document.{Document, object_bytes, copy_out, serialize_to, deserialize}
use cyclone_cache.Document.Wire.{IsDocument, length-copy_out, deserialize-serialize_to}
use cyclone_cache.Document.Checksum.{
  in_place, zero_fields, canonical, checksum_header_seed, verify_checksum,
}

pub copy_out-append : (fs gs : List (List ℕ)) → copy_out (fs ++ gs) ≡ copy_out fs ++ copy_out gs
unfolding copy_out
copy_out-append [] gs = refl
copy_out-append (f ∷ fs) gs =
    ap (◌++◌ f) (copy_out-append fs gs) ∙ sym (append_assoc f (copy_out fs) (copy_out gs))

zero_fields-skip :
    (n : ℕ) (fields : List (ℕ × ℕ)) (pre tail : List ℕ)
    → length pre ≡ n
    → zero_fields (map (λ f. (n + f.0, f.1)) fields) (pre ++ tail) ≡ pre ++ zero_fields fields tail
unfolding zero_fields
zero_fields-skip n [] pre tail h = refl
zero_fields-skip n ((off, size) ∷ fields) pre tail h =
    ap (zero_fields (map (λ f. (n + f.0, f.1)) fields))
      (splice-skip n off size (replicate size 0) pre tail h)
    ∙ zero_fields-skip n fields pre (splice off size (replicate size 0) tail) h

-- The fields up to the keys, and those behind them.
abbrev pub front : Document → List (List ℕ)
front d = to_le 4 d.magic ∷ to_le 4 d.len ∷ to_le 8 d.total_len ∷ d.first_key ∷ d.fragment_key ∷ []

abbrev pub behind : Document → List (List ℕ)
behind d =
    to_le 4 d.header_len
    ∷ to_le 1 d.doc_type
    ∷ to_le 1 d.version_major
    ∷ to_le 1 d.version_minor
    ∷ to_le 1 d.flags
    ∷ to_le 4 d.fill_serial
    ∷ to_le 4 d.write_serial
    ∷ to_le 4 d.pin_until
    ∷ to_le 4 d.checksum
    ∷ to_le 4 d.frag_offset
    ∷ to_le 4 d.hit_count
    ∷ to_le 8 d.next_alternate_offset
    ∷ to_le 8 d.last_access
    ∷ to_le 1 d.alternate_id
    ∷ d.reserved2
    ∷ []

-- `in_place`, counted from the end of the keys.
abbrev in_place_behind : List (ℕ × ℕ)
in_place_behind = (8, 4) ∷ (12, 4) ∷ (20, 4) ∷ (28, 4) ∷ (32, 8) ∷ (40, 8) ∷ []

-- The document with other values in the fields that are stamped or updated after it was built.
abbrev pub restamp : (fill write sum hits next access : ℕ) → Document → Document
restamp fill write sum hits next access d = record d {
  fill_serial = fill;
  write_serial = write;
  checksum = sum;
  hit_count = hits;
  next_alternate_offset = next;
  last_access = access;
}

abbrev pub settled : Document → Document
settled d = restamp 0 0 0 0 0 0 d

zero_fields-behind :
    (d : Document)
    → zero_fields in_place_behind (copy_out (behind d)) ≡ copy_out (behind (settled d))
unfolding zero_fields copy_out to_le splice
zero_fields-behind d = refl

pub serialize_to-split : (d : Document) → serialize_to d ≡ copy_out (front d) ++ copy_out (behind d)
unfolding serialize_to object_bytes
serialize_to-split d = copy_out-append (front d) (behind d)

pub length-front : (d : Document) → IsDocument d → length (copy_out (front d)) ≡ 80
unfolding to_le
length-front d h =
    length-copy_out (4 ∷ 4 ∷ 8 ∷ 32 ∷ 32 ∷ []) (front d)
      (refl, (refl, (refl, (h.first_key, (h.fragment_key, tt)))))

pub canonical-settled : (d : Document) → IsDocument d → canonical d ≡ serialize_to (settled d)
unfolding canonical
canonical-settled d h =
    ap (zero_fields in_place) (serialize_to-split d)
    ∙ zero_fields-skip 80 in_place_behind (copy_out (front d)) (copy_out (behind d))
        (length-front d h)
    ∙ ap (◌++◌ (copy_out (front d))) (zero_fields-behind d)
    ∙ sym (serialize_to-split (settled d))

pub restamp-IsDocument :
    (fill write sum hits next access : ℕ) (d : Document)
    → IsDocument d
    → fill < 256 ^ 4
    → write < 256 ^ 4
    → sum < 256 ^ 4
    → hits < 256 ^ 4
    → next < 256 ^ 8
    → access < 256 ^ 8
    → IsDocument (restamp fill write sum hits next access d)
restamp-IsDocument fill write sum hits next access d h hf hw hs hh hn ha = record {
  magic = h.magic;
  len = h.len;
  total_len = h.total_len;
  first_key = h.first_key;
  fragment_key = h.fragment_key;
  header_len = h.header_len;
  doc_type = h.doc_type;
  version_major = h.version_major;
  version_minor = h.version_minor;
  flags = h.flags;
  fill_serial = hf;
  write_serial = hw;
  pin_until = h.pin_until;
  checksum = hs;
  frag_offset = h.frag_offset;
  hit_count = hh;
  next_alternate_offset = hn;
  last_access = ha;
  alternate_id = h.alternate_id;
  reserved2 = h.reserved2;
}

settled-IsDocument : (d : Document) → IsDocument d → IsDocument (settled d)
settled-IsDocument d h =
    restamp-IsDocument 0 0 0 0 0 0 d h (omega arith) (omega arith) (omega arith) (omega arith)
      (omega arith) (omega arith)

-- The canonical header holds exactly the fields that do not change after the write: two documents
-- whose members are in range have the same canonical header if and only if they agree once the
-- fill and write serials, the checksum, the hit count, the next link and the last access are put to
-- zero.
pub canonical_covers :
    (d e : Document)
    → IsDocument d
    → IsDocument e
    → (canonical d ≡ canonical e) ↔ (settled d ≡ settled e)
canonical_covers d e hd he = (
  λ same.
      sym (deserialize-serialize_to (settled d) (settled-IsDocument d hd) [])
      ∙ ap (λ (bytes : List ℕ). deserialize (bytes ++ []))
          (sym (canonical-settled d hd) ∙ same ∙ canonical-settled e he)
      ∙ deserialize-serialize_to (settled e) (settled-IsDocument e he) [],
  λ same. canonical-settled d hd ∙ ap serialize_to same ∙ sym (canonical-settled e he),
)

-- Stamping the serials, a hit, an access or a new link leaves the document's verification as it is.
pub verify_checksum-restamp :
    (crc : Crc32c) (d : Document) (fill write hits next access : ℕ) (payload : List ℕ)
    → IsDocument d
    → fill < 256 ^ 4
    → write < 256 ^ 4
    → hits < 256 ^ 4
    → next < 256 ^ 8
    → access < 256 ^ 8
    → verify_checksum crc (restamp fill write d.checksum hits next access d) payload
      ≡ verify_checksum crc d payload
unfolding verify_checksum checksum_header_seed
verify_checksum-restamp crc d fill write hits next access payload h hf hw hh hn ha =
    let h' =
      restamp-IsDocument fill write d.checksum hits next access d h hf hw h.checksum hh hn ha in
    ap (λ (bytes : List ℕ). d.checksum == crc.update (crc.update 0 bytes) payload)
      (canonical-settled _ h' ∙ sym (canonical-settled d h))
