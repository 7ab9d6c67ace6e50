-- ===== src/Document.antt =====
-- src/core/document.hpp and src/core/document.cpp: the 132-byte header of a stored document, its
-- wire form and its checksum. Memory is a list of bytes, on a little-endian host.
pub mod Checksum
pub mod Builder
pub mod Reader
pub mod Links
pub mod Wire
pub mod Canonical
pub mod Layout
pub mod Build
pub mod ReadBack
use cyclone_cache.Common.{
  ℕ, zero, suc, ◌+◌, ◌-◌, ◌*◌, ◌^◌, ◌<◌, ◌≡◌, List, [], ◌∷◌, ◌++◌, Bool, true, false, ◌&&◌, ◌||◌,
  length, drop, take, get_or, replicate, All, ltb, leb, ◌==◌, if◌then◌else◌,
}
use cyclone_cache.Common.Bytes.{le_bytes, to_le}
use cyclone_cache.Common.Splices.{splice}

abbrev pub magic_word : ℕ
magic_word = 0x5F129B14

abbrev pub current_major : ℕ
current_major = 9

abbrev pub current_minor : ℕ
current_minor = 0

abbrev pub header_size : ℕ
header_size = 132

abbrev pub single_frag : ℕ
single_frag = 4

-- The fields in the order of `kDocumentFields`. `last_access` is the two's complement word.
pub record Document : Type 0 where
  pub magic : ℕ
  pub len : ℕ
  pub total_len : ℕ
  pub first_key : List ℕ
  pub fragment_key : List ℕ
  pub header_len : ℕ
  pub doc_type : ℕ
  pub version_major : ℕ
  pub version_minor : ℕ
  pub flags : ℕ
  pub fill_serial : ℕ
  pub write_serial : ℕ
  pub pin_until : ℕ
  pub checksum : ℕ
  pub frag_offset : ℕ
  pub hit_count : ℕ
  pub next_alternate_offset : ℕ
  pub last_access : ℕ
  pub alternate_id : ℕ
  pub reserved2 : List ℕ

-- The default member initializers.
abbrev pub new_document : Document
new_document = record {
  magic = magic_word;
  len = 0;
  total_len = 0;
  first_key = replicate 32 0;
  fragment_key = replicate 32 0;
  header_len = 0;
  doc_type = 0;
  version_major = current_major;
  version_minor = current_minor;
  flags = 0;
  fill_serial = 0;
  write_serial = 0;
  pin_until = 0;
  checksum = 0;
  frag_offset = 0;
  hit_count = 0;
  next_alternate_offset = 0;
  last_access = 0;
  alternate_id = 0;
  reserved2 = replicate 3 0;
}

-- The sizes of `kDocumentFields`, and the bytes of each field in the object.
abbrev pub document_fields : List ℕ
document_fields =
    4 ∷ 4 ∷ 8 ∷ 32 ∷ 32 ∷ 4 ∷ 1 ∷ 1 ∷ 1 ∷ 1 ∷ 4 ∷ 4 ∷ 4 ∷ 4 ∷ 4 ∷ 4 ∷ 8 ∷ 8 ∷ 1 ∷ 3 ∷ []

unfoldable pub object_bytes : Document → List (List ℕ)
object_bytes d =
    to_le 4 d.magic
    ∷ to_le 4 d.len
    ∷ to_le 8 d.total_len
    ∷ d.first_key
    ∷ d.fragment_key
    ∷ to_le 4 d.header_len
    ∷ to_le 1 d.doc_type
    ∷ to_le 1 d.version_major
    ∷ to_le 1 d.version_minor
    ∷ to_le 1 d.flags
    ∷ to_le 4 d.fill_serial
    ∷ to_le 4 d.write_serial
    ∷ to_le 4 d.pin_until
    ∷ to_le 4 d.checksum
    ∷ to_le 4 d.frag_offset
    ∷ to_le 4 d.hit_count
    ∷ to_le 8 d.next_alternate_offset
    ∷ to_le 8 d.last_access
    ∷ to_le 1 d.alternate_id
    ∷ d.reserved2
    ∷ []

unfoldable pub of_object_bytes : List (List ℕ) → Document
of_object_bytes fs = record {
  magic = le_bytes 4 (get_or fs 0 []);
  len = le_bytes 4 (get_or fs 1 []);
  total_len = le_bytes 8 (get_or fs 2 []);
  first_key = get_or fs 3 [];
  fragment_key = get_or fs 4 [];
  header_len = le_bytes 4 (get_or fs 5 []);
  doc_type = le_bytes 1 (get_or fs 6 []);
  version_major = le_bytes 1 (get_or fs 7 []);
  version_minor = le_bytes 1 (get_or fs 8 []);
  flags = le_bytes 1 (get_or fs 9 []);
  fill_serial = le_bytes 4 (get_or fs 10 []);
  write_serial = le_bytes 4 (get_or fs 11 []);
  pin_until = le_bytes 4 (get_or fs 12 []);
  checksum = le_bytes 4 (get_or fs 13 []);
  frag_offset = le_bytes 4 (get_or fs 14 []);
  hit_count = le_bytes 4 (get_or fs 15 []);
  next_alternate_offset = le_bytes 8 (get_or fs 16 []);
  last_access = le_bytes 8 (get_or fs 17 []);
  alternate_id = le_bytes 1 (get_or fs 18 []);
  reserved2 = get_or fs 19 [];
}

-- The loop of `serialize_to` over the table, and of `deserialize`.
unfoldable pub copy_out : List (List ℕ) → List ℕ
copy_out [] = []
copy_out (f ∷ fs) = f ++ copy_out fs

unfoldable pub copy_in : List ℕ → List ℕ → List (List ℕ)
copy_in [] bytes = []
copy_in (n ∷ ns) bytes = take n bytes ∷ copy_in ns (drop n bytes)

unfoldable pub serialize_to : Document → List ℕ
serialize_to d = copy_out (object_bytes d)

-- `serialize` appends the wire header to a buffer.
unfoldable pub serialize : Document → List ℕ → List ℕ
serialize d buffer = buffer ++ serialize_to d

unfoldable pub deserialize : List ℕ → Document
deserialize bytes =
    if ltb (length bytes) header_size
    then record new_document { magic = 0 }
    else of_object_bytes (copy_in document_fields bytes)
