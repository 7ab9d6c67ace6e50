-- ===== src/Document/Wire.antt =====
-- src/core/document.cpp: the wire header, written and read by loops over one table of fields.
use cyclone_cache.Common.{
  ℕ, ◌+◌, ◌^◌, ◌<◌, ◌≤◌, ◌≡◌, refl, ap, ◌∙◌, List, [], ◌∷◌, ◌++◌, length, arith,
}
use mathlib.Core.List.{append_assoc}
use cyclone_cache.Common.{length-append, take-append_of_length, drop-append_of_length}
use cyclone_cache.Common.Bytes.{to_le, le_bytes-to_le_exact}
use cyclone_cache.Document.{
  Document, document_fields, object_bytes, of_object_bytes, copy_out, copy_in, serialize_to,
  deserialize, header_size,
}

-- The members are in the range of their types.
pub record IsDocument (d : Document) : Type 0 where
  pub magic : d.magic < 256 ^ 4
  pub len : d.len < 256 ^ 4
  pub total_len : d.total_len < 256 ^ 8
  pub first_key : length d.first_key ≡ 32
  pub fragment_key : length d.fragment_key ≡ 32
  pub header_len : d.header_len < 256 ^ 4
  pub doc_type : d.doc_type < 256 ^ 1
  pub version_major : d.version_major < 256 ^ 1
  pub version_minor : d.version_minor < 256 ^ 1
  pub flags : d.flags < 256 ^ 1
  pub fill_serial : d.fill_serial < 256 ^ 4
  pub write_serial : d.write_serial < 256 ^ 4
  pub pin_until : d.pin_until < 256 ^ 4
  pub checksum : d.checksum < 256 ^ 4
  pub frag_offset : d.frag_offset < 256 ^ 4
  pub hit_count : d.hit_count < 256 ^ 4
  pub next_alternate_offset : d.next_alternate_offset < 256 ^ 8
  pub last_access : d.last_access < 256 ^ 8
  pub alternate_id : d.alternate_id < 256 ^ 1
  pub reserved2 : length d.reserved2 ≡ 3

-- The fields have the sizes of the table.
abbrev pub Sized : List ℕ → List (List ℕ) → Type 0
Sized [] [] = Unit
Sized [] (f ∷ fs) = ⊥
Sized (n ∷ ns) [] = ⊥
Sized (n ∷ ns) (f ∷ fs) = (length f ≡ n) × Sized ns fs

abbrev pub total : List ℕ → ℕ
total [] = 0
total (n ∷ ns) = n + total ns

pub length-copy_out :
    (ns : List ℕ) (fs : List (List ℕ)) → Sized ns fs → length (copy_out fs) ≡ total ns
unfolding copy_out
length-copy_out [] [] h = refl
length-copy_out [] (f ∷ fs) h = absurd h
length-copy_out (n ∷ ns) [] h = absurd h
length-copy_out (n ∷ ns) (f ∷ fs) h =
    omega (arith, length-append f (copy_out fs), length-copy_out ns fs h.1)

copy_in-copy_out :
    (ns : List ℕ) (fs : List (List ℕ)) (rest : List ℕ)
    → Sized ns fs
    → copy_in ns (copy_out fs ++ rest) ≡ fs
unfolding copy_out copy_in
copy_in-copy_out [] [] rest h = refl
copy_in-copy_out [] (f ∷ fs) rest h = absurd h
copy_in-copy_out (n ∷ ns) [] rest h = absurd h
copy_in-copy_out (n ∷ ns) (f ∷ fs) rest h =
    rw
      (
        append_assoc f (copy_out fs) rest,
        take-append_of_length n f (copy_out fs ++ rest) h.0,
        drop-append_of_length n f (copy_out fs ++ rest) h.0,
        copy_in-copy_out ns fs rest h.1,
      )
      refl

pub deserialize_long :
    (bytes : List ℕ)
    → header_size ≤ length bytes
    → deserialize bytes ≡ of_object_bytes (copy_in document_fields bytes)
unfolding deserialize
deserialize_long bytes h = ground arith

module _ (d : Document) (h : IsDocument d) where
  object_bytes-Sized : Sized document_fields (object_bytes d)
  unfolding object_bytes to_le
  object_bytes-Sized = (
    refl,
    (
      refl,
      (
        refl,
        (
          h.first_key,
          (
            h.fragment_key,
            (
              refl,
              (
                refl,
                (
                  refl,
                  (
                    refl,
                    (
                      refl,
                      (
                        refl,
                        (
                          refl,
                          (refl, (refl, (refl, (refl, (refl, (refl, (refl, (h.reserved2, tt)))))))),
                        ),
                      ),
                    ),
                  ),
                ),
              ),
            ),
          ),
        ),
      ),
    ),
  )

  pub length-serialize_to : length (serialize_to d) ≡ header_size
  unfolding serialize_to
  length-serialize_to = length-copy_out document_fields (object_bytes d) object_bytes-Sized

  of_object_bytes-object_bytes : of_object_bytes (object_bytes d) ≡ d
  unfolding of_object_bytes object_bytes
  of_object_bytes-object_bytes =
      rw
        (
          le_bytes-to_le_exact 4 d.magic h.magic,
          le_bytes-to_le_exact 4 d.len h.len,
          le_bytes-to_le_exact 8 d.total_len h.total_len,
          le_bytes-to_le_exact 4 d.header_len h.header_len,
          le_bytes-to_le_exact 1 d.doc_type h.doc_type,
          le_bytes-to_le_exact 1 d.version_major h.version_major,
          le_bytes-to_le_exact 1 d.version_minor h.version_minor,
          le_bytes-to_le_exact 1 d.flags h.flags,
          le_bytes-to_le_exact 4 d.fill_serial h.fill_serial,
          le_bytes-to_le_exact 4 d.write_serial h.write_serial,
          le_bytes-to_le_exact 4 d.pin_until h.pin_until,
          le_bytes-to_le_exact 4 d.checksum h.checksum,
          le_bytes-to_le_exact 4 d.frag_offset h.frag_offset,
          le_bytes-to_le_exact 4 d.hit_count h.hit_count,
          le_bytes-to_le_exact 8 d.next_alternate_offset h.next_alternate_offset,
          le_bytes-to_le_exact 8 d.last_access h.last_access,
          le_bytes-to_le_exact 1 d.alternate_id h.alternate_id,
        )
        refl

  -- A header whose members are in range is read back as it was written, whatever bytes follow it.
  pub deserialize-serialize_to : (rest : List ℕ) → deserialize (serialize_to d ++ rest) ≡ d
  unfolding serialize_to
  deserialize-serialize_to rest =
      deserialize_long (serialize_to d ++ rest)
        (omega (arith, length-append (serialize_to d) rest, length-serialize_to))
      ∙ ap of_object_bytes
          (copy_in-copy_out document_fields (object_bytes d) rest object_bytes-Sized)
      ∙ of_object_bytes-object_bytes
