-- ===== src/Document/ReadBack.antt =====
-- src/core/document.cpp: `DocumentReader` over what `DocumentBuilder` built.
use cyclone_cache.Common.{
  ℕ, ◌+◌, ◌<◌, ◌≡◌, refl, ap, sym, ◌∙◌, List, [], ◌∷◌, ◌++◌, length, Bool, true, ==_iff, leb,
  if◌then◌else◌, length-append, arith,
}
use mathlib.Core.List.{append_assoc}
use cyclone_cache.Crc32c.Incremental.{Crc32c}
use cyclone_cache.Document.{Document, header_size, single_frag, serialize_to}
use cyclone_cache.Document.Wire.{IsDocument, length-serialize_to, deserialize-serialize_to}
use cyclone_cache.Document.Checksum.{canonical, checksum_header_seed, verify_checksum}
use cyclone_cache.Document.Canonical.{canonical-settled}
use cyclone_cache.Document.Builder.{
  DocumentBuilder, total_size, head_document, head_checksum, append_content, build,
}
use cyclone_cache.Document.Reader.{
  DocumentReader, open_reader, header, content, payload, is_servable, has_volume_shape, first_key,
}
use cyclone_cache.Document.Build.{
  Fits, built, built-IsDocument, head_document-IsDocument, serialize_head-built,
}
use cyclone_cache.Document.Layout.{whole, header-whole, content-whole, payload-whole}

append_content-long :
    (body head : List ℕ) → 0 < length head → append_content body head ≡ head ++ body
unfolding append_content
append_content-long body [] h = absurd (omega arith)
append_content-long body (x ∷ xs) h = refl

module _ (crc : Crc32c) (b : DocumentBuilder) (h : Fits b b.content) where
  abbrev doc : Document
  doc = built crc b b.content h

  doc-IsDocument : IsDocument doc
  doc-IsDocument = built-IsDocument crc b b.content h

  build-built :
      (rest : List ℕ) → build crc b ++ rest ≡ serialize_to doc ++ (b.header ++ (b.content ++ rest))
  unfolding build
  build-built rest =
      ap (λ (bytes : List ℕ). append_content b.content bytes ++ rest)
        (serialize_head-built crc b b.content h)
      ∙ ap (λ (bytes : List ℕ). bytes ++ rest)
          (append_content-long b.content (serialize_to doc ++ b.header) (
            omega (
              arith,
              length-append (serialize_to doc) b.header,
              length-serialize_to doc doc-IsDocument,
            )))
      ∙ append_assoc (serialize_to doc ++ b.header) b.content rest
      ∙ append_assoc (serialize_to doc) b.header (b.content ++ rest)

  abbrev reader : List ℕ → DocumentReader
  reader rest = whole doc (serialize_to doc) b.header b.content rest

  open_reader-whole : (rest : List ℕ) → open_reader (reader rest).bytes ≡ reader rest
  unfolding open_reader built head_document
  open_reader-whole rest =
      let long : leb header_size (length (reader rest).bytes) ≡ true = ground (
        arith,
        length-append (serialize_to doc) (b.header ++ (b.content ++ rest)),
        length-serialize_to doc doc-IsDocument,
      ) in
      rw (long, deserialize-serialize_to doc doc-IsDocument (b.header ++ (b.content ++ rest))) refl

  open_reader-build : (rest : List ℕ) → open_reader (build crc b ++ rest) ≡ reader rest
  open_reader-build rest = ap open_reader (build-built rest) ∙ open_reader-whole rest

  head_size : doc.header_len ≡ length b.header
  unfolding built head_document
  head_size = omega (arith, h.size)

  size : doc.len ≡ header_size + length b.header + length b.content
  unfolding built head_document total_size
  size = omega (arith, h.size)

  -- What was built is read back, whatever bytes follow it: the reader is valid, and its key, its
  -- header bytes and its content are the builder's. The builder's key is a digest, its members are
  -- in range, and the document fits the 32-bit length.
  pub read-build :
      (rest : List ℕ)
      → ((open_reader (build crc b ++ rest)).valid ≡ true)
        × (first_key (open_reader (build crc b ++ rest)) ≡ b.key)
        × (header (open_reader (build crc b ++ rest)) ≡ b.header)
        × (content (open_reader (build crc b ++ rest)) ≡ b.content)
  unfolding first_key built head_document
  read-build rest =
      let e = open_reader-build rest in
      let pre = length-serialize_to doc doc-IsDocument in
      rw (e) (
        refl,
        refl,
        header-whole doc (serialize_to doc) b.header b.content rest pre head_size size,
        content-whole doc (serialize_to doc) b.header b.content rest pre head_size size,
      )

  -- The fields that change later are outside the canonical header, the checksum too.
  canonical-built : canonical doc ≡ canonical (head_document b b.content)
  unfolding built
  canonical-built =
      canonical-settled doc doc-IsDocument
      ∙ sym (
          canonical-settled (head_document b b.content)
            (head_document-IsDocument crc b b.content h))

  built-shape :
      b.doc_type ≡ single_frag → b.frag_offset ≡ 0 → b.total_len ≡ 0 → has_volume_shape doc ≡ true
  unfolding has_volume_shape built head_document total_size
  built-shape single first alone = ground (arith, h.size)

  built-checksum :
      b.enable_checksum ≡ true
      → doc.checksum ≡ crc.update (checksum_header_seed crc doc) (b.header ++ b.content)
  unfolding built head_checksum checksum_header_seed
  built-checksum on =
      ap (λ (e : Bool). if e then head_checksum crc b b.content else 0) on
      ∙ crc.update-append (checksum_header_seed crc (head_document b b.content)) b.header b.content
          h.header_bytes h.body_bytes
      ∙ ap (λ (bytes : List ℕ). crc.update (crc.update 0 bytes) (b.header ++ b.content))
          (sym canonical-built)

  -- The reader of a document that was built with a checksum, as one whole fragment without a total
  -- length of its own, is servable and its checksum verifies, whatever bytes follow the document.
  -- The builder's key is a digest, its members are in range, and the document fits the 32-bit length.
  pub served-build :
      b.enable_checksum ≡ true
      → b.doc_type ≡ single_frag
      → b.frag_offset ≡ 0
      → b.total_len ≡ 0
      → (rest : List ℕ)
      → (is_servable (open_reader (build crc b ++ rest)) ≡ true)
        × (verify_checksum crc
              (open_reader (build crc b ++ rest)).doc
              (payload (open_reader (build crc b ++ rest)))
            ≡ true)
  unfolding is_servable verify_checksum
  served-build on single first alone rest =
      let pre = length-serialize_to doc doc-IsDocument in
      rw
        (
          open_reader-build rest,
          payload-whole doc (serialize_to doc) b.header b.content rest pre head_size size,
        )
        (built-shape single first alone, (==_iff _ _).1 (built-checksum on))
