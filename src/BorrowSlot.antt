-- ===== src/BorrowSlot.antt =====
-- src/core/mmap_directory.hpp: `borrow_slot`, the 32-bit words that count the borrows of one chunk,
-- a generation of 8 bits above a count of 24. Each operation is one successful exchange.
pub mod Counting
use cyclone_cache.Common.{
  ℕ, ◌+◌, ◌-◌, ◌*◌, ◌/◌, ◌%◌, ◌^◌, Bool, true, false, not, ◌||◌, ◌==◌, if◌then◌else◌,
}

unfoldable pub generation_of : ℕ → ℕ
generation_of slot = slot / 2 ^ 24 % 2 ^ 8

unfoldable pub count_of : ℕ → ℕ
count_of slot = slot % 2 ^ 24

unfoldable pub pack_of : ℕ → ℕ → ℕ
pack_of generation count = (generation * 2 ^ 24 + count % 2 ^ 24) % 2 ^ 32

pub record Acquired : Type 0 where
  pub generation : ℕ
  pub counted : Bool

-- The word after the operation, and what it returns.
unfoldable pub acquire : ℕ → ℕ × Acquired
acquire slot =
    if count_of slot == 2 ^ 24 - 1
    then (slot, record { generation = generation_of slot; counted = false })
    else (
      pack_of (generation_of slot) (count_of slot + 1),
      record { generation = generation_of slot; counted = true },
    )

unfoldable pub release : ℕ → ℕ → ℕ
release generation slot =
    if not (generation_of slot == generation) || count_of slot == 0
    then slot
    else pack_of generation (count_of slot - 1)

unfoldable pub force_reset : ℕ → ℕ × Bool
force_reset slot =
    if count_of slot == 0
    then (slot, false)
    else (pack_of ((generation_of slot + 1) % 2 ^ 8) 0, true)
