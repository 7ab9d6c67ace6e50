-- ===== src/Document/Links.antt =====
-- src/core/document.hpp: the links between the alternates of a key, which carry a stripe offset
-- in the low 48 bits and the fill serial of the document there in the high 16 bits.

use cyclone_cache.Common.{
  ℕ, ◌+◌, ◌-◌, ◌*◌, ◌/◌, ◌%◌, ◌^◌, ◌<◌, ◌≡◌, ◌↔◌, ◌∙◌, Bool, true, false, bit_and, bit_or, ◌==◌,
  if◌then◌else◌, arith,
}
use cyclone_cache.Common.Bits.{bit_and-low, bit_or-high}
use cyclone_cache.Document.{Document}

unfoldable pub make_link : ℕ → ℕ → ℕ
make_link rel_offset serial =
    if rel_offset == 0
    then 0
    else bit_or (bit_and rel_offset (2 ^ 48 - 1)) (serial * 2 ^ 48 % 2 ^ 64)

unfoldable pub link_offset : ℕ → ℕ
link_offset link = bit_and link (2 ^ 48 - 1)

unfoldable pub link_serial : ℕ → ℕ
link_serial link = link / 2 ^ 48 % 2 ^ 16

unfoldable pub bound_by_link : Document → ℕ → Bool
unfolding link_serial
bound_by_link d link = d.fill_serial == link_serial link

unfoldable pub link_to : Document → ℕ → ℕ
unfolding make_link
link_to d rel_offset = make_link rel_offset (d.fill_serial % 2 ^ 16)

-- A link to a document carries its offset, and binds the documents whose fill serial is the low 16
-- bits of that document's; the offset is not zero and has at most 48 bits.
pub link_to_lem :
    (d e : Document) (rel_offset : ℕ)
    → 0 < rel_offset
    → rel_offset < 2 ^ 48
    → (link_offset (link_to e rel_offset) ≡ rel_offset)
      × ((bound_by_link d (link_to e rel_offset) ≡ true) ↔ (d.fill_serial ≡ e.fill_serial % 2 ^ 16))
unfolding link_offset link_to make_link bound_by_link link_serial
link_to_lem d e rel_offset pos small =
    let serial = e.fill_serial % 2 ^ 16 in
    let z : (rel_offset == 0) ≡ false = ground arith in
    let low : bit_and rel_offset (2 ^ 48 - 1) ≡ rel_offset =
      bit_and-low 48 rel_offset ∙ omega arith in
    let word : serial * 2 ^ 48 % 2 ^ 64 ≡ serial * 2 ^ 48 = omega arith in
    let whole : bit_or rel_offset (serial * 2 ^ 48) ≡ rel_offset + serial * 2 ^ 48 =
      bit_or-high 48 rel_offset serial small in
    rw (z, low, word, whole)
      (bit_and-low 48 (rel_offset + serial * 2 ^ 48) ∙ omega arith, ground arith)
