-- ===== src/Document/Layout.antt =====
-- src/core/document.cpp: the spans of a reader over bytes that hold a whole document.
use cyclone_cache.Common.{
  ℕ, ◌+◌, ◌-◌, ◌≤◌, ◌≡◌, refl, ap, sym, ◌∙◌, inl, inr, List, [], ◌∷◌, ◌++◌, length, take, drop,
  true, false, ltb, leb, if◌then◌else◌, length-append, Bool-cases, take-append_of_length,
  drop-append_of_length, arith,
}
use mathlib.Core.List.{append_assoc}
use cyclone_cache.Document.{Document, header_size}
use cyclone_cache.Document.Reader.{DocumentReader, header, content, payload}

nil_of_length : (xs : List ℕ) → length xs ≤ 0 → xs ≡ []
nil_of_length [] h = refl
nil_of_length (x ∷ xs) h = absurd (omega arith)

-- A reader whose bytes are a header, the header bytes, the content and others behind it.
abbrev pub whole : Document → (pre head body rest : List ℕ) → DocumentReader
whole doc pre head body rest = record {
  doc = doc;
  bytes = pre ++ (head ++ (body ++ rest));
  valid = true;
}

-- The document gives the lengths.
module _ (doc : Document) (pre head body rest : List ℕ) (pre_size : length pre ≡ header_size)
    (head_size : doc.header_len ≡ length head)
    (size : doc.len ≡ header_size + length head + length body) where
  abbrev whole_bytes : List ℕ
  whole_bytes = pre ++ (head ++ (body ++ rest))

  length-bytes : length whole_bytes ≡ header_size + (length head + (length body + length rest))
  length-bytes = omega (
    arith,
    pre_size,
    length-append pre (head ++ (body ++ rest)),
    length-append head (body ++ rest),
    length-append body rest,
  )

  pub header-whole : header (whole doc pre head body rest) ≡ head
  unfolding header
  header-whole =
      let long : ltb (length whole_bytes) header_size ≡ false = ground (arith, length-bytes) in
      let room : ltb (length whole_bytes - header_size) doc.header_len ≡ false =
        ground (arith, length-bytes) in
      rw (long, room, head_size, drop-append_of_length header_size pre _ pre_size)
        (take-append_of_length (length head) head _ refl)

  drop-front : drop (header_size + doc.header_len) whole_bytes ≡ body ++ rest
  drop-front =
      ap (drop (header_size + doc.header_len)) (sym (append_assoc pre head (body ++ rest)))
      ∙ drop-append_of_length (header_size + doc.header_len) (pre ++ head) (body ++ rest)
          (omega (arith, length-append pre head))

  pub content-whole : content (whole doc pre head body rest) ≡ body
  unfolding content
  content-whole =
      let a : ltb doc.len header_size ≡ false = ground (arith, size) in
      let c : ltb (doc.len - header_size) doc.header_len ≡ false = ground (arith, size) in
      let start : ltb (length whole_bytes) (header_size + doc.header_len) ≡ false =
        ground (arith, length-bytes) in
      let stop : ltb (length whole_bytes)
            (header_size + doc.header_len + (doc.len - header_size - doc.header_len))
          ≡ false =
        ground (arith, length-bytes) in
      let len : doc.len - header_size - doc.header_len ≡ length body = omega arith in
      rw (a, c, start, stop, len)
        (ap (take (length body)) drop-front ∙ take-append_of_length (length body) body rest refl)

  pub payload-whole : payload (whole doc pre head body rest) ≡ head ++ body
  unfolding payload
  payload-whole =
      let len : (if ltb header_size doc.len then doc.len - header_size else 0)
          ≡ length (head ++ body) =
        ground (arith, length-append head body) in
      let stop : ltb (length whole_bytes) (header_size + length (head ++ body)) ≡ false =
        ground (arith, length-bytes, length-append head body) in
      elim (Bool-cases (leb (length whole_bytes) header_size)) [
        | inl short ↦ rw (short) (
            sym (
              nil_of_length (head ++ body) (ground (arith, length-bytes, length-append head body))))
        | inr long ↦
            rw (long, len, stop, drop-append_of_length header_size pre _ pre_size)
              (ap (take (length (head ++ body))) (sym (append_assoc head body rest))
                ∙ take-append_of_length (length (head ++ body)) (head ++ body) rest refl)
      ]
