-- ===== src/Document/Build.antt =====
-- src/core/document.cpp: the head that `DocumentBuilder` writes.
use cyclone_cache.Common.{
  ℕ, ◌+◌, ◌-◌, ◌^◌, ◌<◌, ◌≡◌, refl, ap, ltb, inl, inr, sym, ◌∙◌, List, All, ◌++◌, length, false,
  arith, if◌then◌else◌, if-both, Bool-cases,
}
use mathlib.Core.List.{append_assoc}
use cyclone_cache.Common.Bytes.{to_le}
use cyclone_cache.Common.Splices.{splice, splice-skip}
use cyclone_cache.Crc32c.Incremental.{Crc32c}
use cyclone_cache.Document.{Document, header_size, copy_out, serialize_to, serialize}
use cyclone_cache.Document.Wire.{IsDocument}
use cyclone_cache.Document.Canonical.{
  front, behind, restamp-IsDocument, serialize_to-split, length-front,
}
use cyclone_cache.Document.Builder.{
  DocumentBuilder, total_size, head_document, head_checksum, serialize_head,
}

-- A builder whose members are in range, for a content that fits the 32-bit length.
pub record Fits (b : DocumentBuilder) (body : List ℕ) : Type 0 where
  pub key : length b.key.hash ≡ 32
  pub doc_type : b.doc_type < 256 ^ 1
  pub flags : b.flags < 256 ^ 1
  pub total_len : b.total_len < 256 ^ 8
  pub frag_offset : b.frag_offset < 256 ^ 4
  pub alternate_id : b.alternate_id < 256 ^ 1
  pub next_alternate_offset : b.next_alternate_offset < 256 ^ 8
  pub hit_count : b.hit_count < 256 ^ 4
  pub last_access : b.last_access < 256 ^ 8
  pub header_bytes : All (λ x. x < 256) b.header
  pub body_bytes : All (λ x. x < 256) body
  pub size : header_size + length b.header + length body < 2 ^ 32

splice-behind :
    (sum : ℕ) (d : Document) (rest : List ℕ)
    → splice 20 4 (to_le 4 sum) (copy_out (behind d) ++ rest)
      ≡ copy_out (behind (record d { checksum = sum })) ++ rest
unfolding splice to_le copy_out
splice-behind sum d rest = refl

-- The checksum field written over the head is the same field of the document.
splice-checksum :
    (sum : ℕ) (d : Document) (rest : List ℕ)
    → IsDocument d
    → splice 100 4 (to_le 4 sum) (serialize_to d ++ rest)
      ≡ serialize_to (record d { checksum = sum }) ++ rest
splice-checksum sum d rest h =
    let d' : Document = record d { checksum = sum } in
    let split : (e : Document)
        → serialize_to e ++ rest ≡ copy_out (front e) ++ (copy_out (behind e) ++ rest) =
      λ e.
        ap (λ (bytes : List ℕ). bytes ++ rest) (serialize_to-split e)
        ∙ append_assoc (copy_out (front e)) (copy_out (behind e)) rest in
    ap (splice 100 4 (to_le 4 sum)) (split d)
    ∙ splice-skip 80 20 4 (to_le 4 sum) (copy_out (front d)) (copy_out (behind d) ++ rest)
        (length-front d h)
    ∙ ap (◌++◌ (copy_out (front d))) (splice-behind sum d rest)
    ∙ sym (split d')

module _ (crc : Crc32c) (b : DocumentBuilder) (body : List ℕ) (h : Fits b body) where
  pub head_document-IsDocument : IsDocument (head_document b body)
  unfolding head_document total_size
  head_document-IsDocument = record {
    magic = omega arith;
    len = omega arith;
    total_len =
        if-both (λ n. n < 256 ^ 8) (ltb 0 b.total_len) b.total_len (length body) h.total_len
          (omega (arith, h.size));
    first_key = h.key;
    fragment_key = h.key;
    header_len = omega arith;
    doc_type = h.doc_type;
    version_major = omega arith;
    version_minor = omega arith;
    flags = h.flags;
    fill_serial = omega arith;
    write_serial = omega arith;
    pin_until = omega arith;
    checksum = omega arith;
    frag_offset = h.frag_offset;
    hit_count = h.hit_count;
    next_alternate_offset = h.next_alternate_offset;
    last_access = h.last_access;
    alternate_id = h.alternate_id;
    reserved2 = refl;
  }

  head_checksum-lt : head_checksum crc b body < 256 ^ 4
  unfolding head_checksum
  head_checksum-lt = crc.update-lt _ body

  -- The document that `build` writes.
  unfoldable pub built : Document
  built = record (head_document b body) {
    checksum = if b.enable_checksum then head_checksum crc b body else 0;
  }

  pub built-IsDocument : IsDocument built
  unfolding built head_document
  built-IsDocument =
      restamp-IsDocument 0 0 (if b.enable_checksum then head_checksum crc b body else 0) b.hit_count
        b.next_alternate_offset b.last_access (head_document b body) head_document-IsDocument
        (omega arith) (omega arith)
        (if-both (λ n. n < 256 ^ 4) b.enable_checksum (head_checksum crc b body) 0 head_checksum-lt
          (omega arith))
        h.hit_count h.next_alternate_offset h.last_access

  total_size-fits : ltb (2 ^ 32 - 1) (total_size b body) ≡ false
  unfolding total_size
  total_size-fits = ground (arith, h.size)

  pub serialize_head-built : serialize_head crc b body ≡ serialize_to built ++ b.header
  unfolding serialize_head serialize built head_document head_checksum total_size
  serialize_head-built =
      let e : ltb (2 ^ 32 - 1) (total_size b body) ≡ false = total_size-fits in
      let e2 : ltb (2 ^ 32 - 1) (length b.header) ≡ false = ground (arith, h.size) in
      rw (e, e2)
        (elim (Bool-cases b.enable_checksum) [
          | inl on ↦ rw (on) (
              splice-checksum (head_checksum crc b body) (head_document b body) b.header
                head_document-IsDocument)
          | inr off ↦ rw (off) refl
        ])
