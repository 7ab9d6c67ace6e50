-- ===== src/Document/Builder.antt =====
-- src/core/document.cpp: `DocumentBuilder`. A `size_t` has 64 bits.
use cyclone_cache.Common.{
  ℕ, ◌+◌, ◌-◌, ◌^◌, ◌%◌, List, [], ◌∷◌, ◌++◌, Bool, true, length, ltb, if◌then◌else◌,
}
use cyclone_cache.Common.Bytes.{to_le}
use cyclone_cache.Common.Splices.{splice}
use cyclone_cache.Key.{CacheKey, zero_key}
use cyclone_cache.Crc32c.Incremental.{Crc32c}
use cyclone_cache.Document.{Document, new_document, header_size, single_frag, serialize}
use cyclone_cache.Document.Checksum.{checksum_header_seed}

pub record DocumentBuilder : Type 0 where
  pub key : CacheKey
  pub header : List ℕ
  pub content : List ℕ
  pub doc_type : ℕ
  pub flags : ℕ
  pub total_len : ℕ
  pub frag_offset : ℕ
  pub enable_checksum : Bool
  pub alternate_id : ℕ
  pub next_alternate_offset : ℕ
  pub hit_count : ℕ
  pub last_access : ℕ

abbrev pub new_builder : DocumentBuilder
new_builder = record {
  key = zero_key;
  header = [];
  content = [];
  doc_type = single_frag;
  flags = 0;
  total_len = 0;
  frag_offset = 0;
  enable_checksum = true;
  alternate_id = 0;
  next_alternate_offset = 0;
  hit_count = 0;
  last_access = 0;
}

-- The setters. Bytes given to `set_header` and `set_content` replace what was there.
abbrev pub set_key : CacheKey → DocumentBuilder → DocumentBuilder
set_key k b = record b { key = k }

abbrev pub set_header : List ℕ → DocumentBuilder → DocumentBuilder
set_header bytes b = record b { header = bytes }

abbrev pub set_content : List ℕ → DocumentBuilder → DocumentBuilder
set_content bytes b = record b { content = bytes }

abbrev pub enable_checksum : Bool → DocumentBuilder → DocumentBuilder
enable_checksum on b = record b { enable_checksum = on }

abbrev pub set_type : ℕ → DocumentBuilder → DocumentBuilder
set_type t b = record b { doc_type = t }

abbrev pub set_flags : ℕ → DocumentBuilder → DocumentBuilder
set_flags f b = record b { flags = f }

abbrev pub set_total_length : ℕ → DocumentBuilder → DocumentBuilder
set_total_length n b = record b { total_len = n }

abbrev pub set_frag_offset : ℕ → DocumentBuilder → DocumentBuilder
set_frag_offset n b = record b { frag_offset = n }

abbrev pub set_alternate_id : ℕ → DocumentBuilder → DocumentBuilder
set_alternate_id n b = record b { alternate_id = n }

abbrev pub set_next_alternate_offset : ℕ → DocumentBuilder → DocumentBuilder
set_next_alternate_offset n b = record b { next_alternate_offset = n }

abbrev pub set_hit_count : ℕ → DocumentBuilder → DocumentBuilder
set_hit_count n b = record b { hit_count = n }

abbrev pub set_last_access : ℕ → DocumentBuilder → DocumentBuilder
set_last_access n b = record b { last_access = n }

-- The 64-bit sum that both overflow checks guard.
unfoldable pub total_size : DocumentBuilder → List ℕ → ℕ
total_size b content = (header_size + length b.header + length content) % 2 ^ 64

-- The header of a document whose content is `content`, before its checksum.
unfoldable pub head_document : DocumentBuilder → List ℕ → Document
head_document b content = record new_document {
  len = total_size b content % 2 ^ 32;
  total_len = if ltb 0 b.total_len then b.total_len else length content;
  header_len = length b.header % 2 ^ 32;
  doc_type = b.doc_type;
  flags = b.flags;
  frag_offset = b.frag_offset;
  alternate_id = b.alternate_id;
  next_alternate_offset = b.next_alternate_offset;
  hit_count = b.hit_count;
  last_access = b.last_access;
  first_key = b.key.hash;
  fragment_key = b.key.hash;
}

-- `result.empty()` is the overflow: a head that was built is not empty.
unfoldable pub append_content : List ℕ → List ℕ → List ℕ
append_content content [] = []
append_content content (x ∷ xs) = (x ∷ xs) ++ content

module _ (crc : Crc32c) where
  unfoldable pub head_checksum : DocumentBuilder → List ℕ → ℕ
  head_checksum b content =
      crc.update (crc.update (checksum_header_seed crc (head_document b content)) b.header) content

  unfoldable pub serialize_head : DocumentBuilder → List ℕ → List ℕ
  serialize_head b content =
      let result = serialize (head_document b content) [] ++ b.header in
      if ltb (2 ^ 32 - 1) (total_size b content)
      then []
      else if ltb (2 ^ 32 - 1) (length b.header)
      then []
      else if b.enable_checksum
      then splice 100 4 (to_le 4 (head_checksum b content)) result
      else result

  unfoldable pub build_head : DocumentBuilder → List ℕ → List ℕ
  build_head b content = serialize_head b content

  unfoldable pub build : DocumentBuilder → List ℕ
  build b = append_content b.content (serialize_head b b.content)
