-- ===== src/Document/Reader.antt =====
-- src/core/document.hpp and src/core/document.cpp: the predicates on a header, and
-- `DocumentReader`.
use cyclone_cache.Common.{
  ℕ, ◌+◌, ◌-◌, ◌%◌, List, [], Bool, false, not, ◌&&◌, ◌||◌, length, drop, take, ltb, leb, ◌==◌,
  if◌then◌else◌,
}
use cyclone_cache.Key.{CacheKey}
use cyclone_cache.Document.{
  Document, magic_word, current_major, header_size, single_frag, new_document, deserialize,
}

abbrev pub is_magic : Document → Bool
is_magic d = d.magic == magic_word

abbrev pub is_version_compatible : Document → Bool
is_version_compatible d = d.version_major == current_major

abbrev pub is_valid_and_compatible : Document → Bool
is_valid_and_compatible d = is_magic d && is_version_compatible d

-- The type is `SingleFrag` or `LastFrag`; `FirstFrag` or `SingleFrag`.
abbrev pub is_complete : Document → Bool
is_complete d = d.doc_type == single_frag || d.doc_type == 3

abbrev pub is_first : Document → Bool
is_first d = d.doc_type == 1 || d.doc_type == single_frag

unfoldable pub content_data_size : Document → ℕ
content_data_size d =
    if ltb d.len header_size || ltb (d.len - header_size) d.header_len
    then 0
    else d.len - header_size - d.header_len

unfoldable pub has_volume_shape : Document → Bool
has_volume_shape d =
    d.doc_type == single_frag
    && d.frag_offset == 0
    && leb header_size d.len
    && leb d.header_len (d.len - header_size)
    && d.total_len == d.len - header_size - d.header_len

pub record DocumentReader : Type 0 where
  pub doc : Document
  pub bytes : List ℕ
  pub valid : Bool

unfoldable pub open_reader : List ℕ → DocumentReader
open_reader bytes =
    if leb header_size (length bytes)
    then record {
      doc = deserialize bytes;
      bytes = bytes;
      valid = is_valid_and_compatible (deserialize bytes);
    }
    else record { doc = new_document; bytes = bytes; valid = false }

-- The reader of bytes at address `base` of a shared mapping.
unfoldable pub open_shared : ℕ → List ℕ → DocumentReader
open_shared base bytes =
    if not (base % 8 == 0)
    then record { doc = new_document; bytes = bytes; valid = false }
    else open_reader bytes

unfoldable pub is_servable : DocumentReader → Bool
unfolding has_volume_shape
is_servable r = r.valid && has_volume_shape r.doc

abbrev pub subspan : ℕ → ℕ → List ℕ → List ℕ
subspan off n bytes = take n (drop off bytes)

unfoldable pub header : DocumentReader → List ℕ
header r =
    if not r.valid
      || ltb (length r.bytes) header_size
      || ltb (length r.bytes - header_size) r.doc.header_len
    then []
    else subspan header_size r.doc.header_len r.bytes

unfoldable pub content : DocumentReader → List ℕ
content r =
    let start = header_size + r.doc.header_len in
    let len = r.doc.len - header_size - r.doc.header_len in
    if not r.valid
    then []
    else if ltb r.doc.len header_size || ltb (r.doc.len - header_size) r.doc.header_len
    then []
    else if ltb (length r.bytes) start
    then []
    else if ltb (length r.bytes) (start + len)
    then subspan start (length r.bytes - start) r.bytes
    else subspan start len r.bytes

unfoldable pub payload : DocumentReader → List ℕ
payload r =
    let len = if ltb header_size r.doc.len then r.doc.len - header_size else 0 in
    if not r.valid || leb (length r.bytes) header_size
    then []
    else if ltb (length r.bytes) (header_size + len)
    then subspan header_size (length r.bytes - header_size) r.bytes
    else subspan header_size len r.bytes

unfoldable pub first_key : DocumentReader → CacheKey
first_key r = record { hash = r.doc.first_key }

unfoldable pub fragment_key : DocumentReader → CacheKey
fragment_key r = record { hash = r.doc.fragment_key }
