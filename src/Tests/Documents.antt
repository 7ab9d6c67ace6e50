-- ===== src/Tests/Documents.antt =====
-- Documents that are built and read back.
use cyclone_cache.Common.{◌≡◌, ◌↔◌, ◌%◌, ◌^◌, refl, true, [], ◌∷◌, ◌++◌, arith, replicate}
use cyclone_cache.Key.{CacheKey}
use cyclone_cache.Crc32c.Incremental.{portable}
use cyclone_cache.Document.{Document, new_document, serialize_to, deserialize}
use cyclone_cache.Document.Wire.{IsDocument, deserialize-serialize_to}
use cyclone_cache.Document.Checksum.{canonical, verify_checksum}
use cyclone_cache.Document.Canonical.{
  restamp, restamp-IsDocument, settled, canonical_covers, verify_checksum-restamp,
}
use cyclone_cache.Document.Builder.{
  DocumentBuilder, new_builder, set_key, set_header, set_content, build,
}
use cyclone_cache.Document.Reader.{open_reader, header, content, payload, is_servable, first_key}
use cyclone_cache.Document.Links.{link_to, link_offset, bound_by_link, link_to_lem}
use cyclone_cache.Document.Build.{Fits}
use cyclone_cache.Document.ReadBack.{read-build, served-build}

abbrev key : CacheKey
key = record { hash = replicate 32 7 }

abbrev builder : DocumentBuilder
builder = set_content (1 ∷ 2 ∷ 3 ∷ []) (set_header (9 ∷ []) (set_key key new_builder))

abbrev builder-Fits : Fits builder (1 ∷ 2 ∷ 3 ∷ [])
builder-Fits = record {
  key = refl;
  doc_type = omega arith;
  flags = omega arith;
  total_len = omega arith;
  frag_offset = omega arith;
  alternate_id = omega arith;
  next_alternate_offset = omega arith;
  hit_count = omega arith;
  last_access = omega arith;
  header_bytes = omega arith;
  body_bytes = omega arith;
  size = omega arith;
}

read-build_example :
    ((open_reader (build portable builder ++ 0 ∷ 0 ∷ [])).valid ≡ true)
    × (first_key (open_reader (build portable builder ++ 0 ∷ 0 ∷ [])) ≡ key)
    × (header (open_reader (build portable builder ++ 0 ∷ 0 ∷ [])) ≡ 9 ∷ [])
    × (content (open_reader (build portable builder ++ 0 ∷ 0 ∷ [])) ≡ 1 ∷ 2 ∷ 3 ∷ [])
read-build_example = read-build portable builder builder-Fits (0 ∷ 0 ∷ [])

served-build_example :
    (is_servable (open_reader (build portable builder ++ 5 ∷ [])) ≡ true)
    × (verify_checksum portable
          (open_reader (build portable builder ++ 5 ∷ [])).doc
          (payload (open_reader (build portable builder ++ 5 ∷ [])))
        ≡ true)
served-build_example = served-build portable builder builder-Fits refl refl refl refl (5 ∷ [])

abbrev stored : Document
stored = record new_document {
  len = 140;
  first_key = replicate 32 7;
  fragment_key = replicate 32 7;
  checksum = 0xE3069283;
  next_alternate_offset = 2 ^ 40;
}

abbrev stored-IsDocument : IsDocument stored
stored-IsDocument = record {
  magic = omega arith;
  len = omega arith;
  total_len = omega arith;
  first_key = refl;
  fragment_key = refl;
  header_len = omega arith;
  doc_type = omega arith;
  version_major = omega arith;
  version_minor = omega arith;
  flags = omega arith;
  fill_serial = omega arith;
  write_serial = omega arith;
  pin_until = omega arith;
  checksum = omega arith;
  frag_offset = omega arith;
  hit_count = omega arith;
  next_alternate_offset = omega arith;
  last_access = omega arith;
  alternate_id = omega arith;
  reserved2 = refl;
}

deserialize-serialize_to_example : deserialize (serialize_to stored ++ 1 ∷ []) ≡ stored
deserialize-serialize_to_example = deserialize-serialize_to stored stored-IsDocument (1 ∷ [])

-- The same document after a hit, an access and a new link.
abbrev restamped : Document
restamped = restamp 3 4 5 6 7 8 stored

abbrev restamped-IsDocument : IsDocument restamped
restamped-IsDocument =
    restamp-IsDocument 3 4 5 6 7 8 stored stored-IsDocument (omega arith) (omega arith)
      (omega arith) (omega arith) (omega arith) (omega arith)

canonical_covers_example :
    (canonical stored ≡ canonical restamped) ↔ (settled stored ≡ settled restamped)
canonical_covers_example = canonical_covers stored restamped stored-IsDocument restamped-IsDocument

verify_checksum-restamp_example :
    verify_checksum portable (restamp 3 4 0xE3069283 5 6 7 stored) (8 ∷ [])
    ≡ verify_checksum portable stored (8 ∷ [])
verify_checksum-restamp_example =
    verify_checksum-restamp portable stored 3 4 5 6 7 (8 ∷ []) stored-IsDocument (omega arith)
      (omega arith) (omega arith) (omega arith) (omega arith)

link_to_lem_example :
    (link_offset (link_to stored 4096) ≡ 4096)
    × ((bound_by_link stored (link_to stored 4096) ≡ true)
        ↔ (stored.fill_serial ≡ stored.fill_serial % 2 ^ 16))
link_to_lem_example = link_to_lem stored stored 4096 (omega arith) (omega arith)
