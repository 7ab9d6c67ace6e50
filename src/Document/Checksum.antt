-- ===== src/Document/Checksum.antt =====
-- src/core/document.cpp: the document checksum, over an interface of the incremental CRC.
use cyclone_cache.Common.{ℕ, List, [], ◌∷◌, Bool, replicate, ◌==◌}
use cyclone_cache.Common.Splices.{splice}
use cyclone_cache.Crc32c.Incremental.{Crc32c}
use cyclone_cache.Document.{Document, serialize_to}

-- `kInPlace`: the fields that are stamped after the checksum is computed or updated in place.
abbrev pub in_place : List (ℕ × ℕ)
in_place = (88, 4) ∷ (92, 4) ∷ (100, 4) ∷ (108, 4) ∷ (112, 8) ∷ (120, 8) ∷ []

-- The `memset` of each of them.
unfoldable pub zero_fields : List (ℕ × ℕ) → List ℕ → List ℕ
zero_fields [] bytes = bytes
zero_fields ((off, size) ∷ fields) bytes =
    zero_fields fields (splice off size (replicate size 0) bytes)

unfoldable pub canonical : Document → List ℕ
canonical d = zero_fields in_place (serialize_to d)

module _ (crc : Crc32c) where
  unfoldable pub compute_checksum : List ℕ → ℕ
  compute_checksum bytes = crc.update 0 bytes

  unfoldable pub checksum_header_seed : Document → ℕ
  checksum_header_seed d = crc.update 0 (canonical d)

  unfoldable pub verify_checksum : Document → List ℕ → Bool
  verify_checksum d payload = d.checksum == crc.update (checksum_header_seed d) payload
