-- ===== src/WriteBuffer.antt =====
-- src/core/write_buffer.hpp and src/core/write_buffer.cpp: a growing byte buffer with a limit. A
-- `size_t` has 64 bits.
pub mod Appended
use cyclone_cache.Common.{
  ℕ, ◌+◌, ◌-◌, ◌*◌, ◌%◌, ◌^◌, List, [], ◌∷◌, ◌++◌, length, take, replicate, ltb, max, if◌then◌else◌,
}
use cyclone_cache.Common.Splices.{splice}

pub data AppendResult : Type 0 where
  done : AppendResult
  invalid_argument : AppendResult
  no_space : AppendResult

pub record WriteBuffer : Type 0 where
  pub buffer : List ℕ
  pub size : ℕ
  pub max_size : ℕ

-- `std::vector::resize`: new bytes are zero.
unfoldable pub resize : ℕ → List ℕ → List ℕ
resize n bytes =
    if ltb (length bytes) n then bytes ++ replicate (n - length bytes) 0 else take n bytes

unfoldable pub new_buffer : ℕ → ℕ → WriteBuffer
new_buffer capacity max_size = record { buffer = resize capacity []; size = 0; max_size = max_size }

-- The new capacity: doubled, or what is needed, within the limit.
unfoldable pub grown_capacity : ℕ → ℕ → ℕ → ℕ
grown_capacity capacity new_size max_size =
    let wanted = max (capacity * 2 % 2 ^ 64) new_size in
    if ltb max_size wanted then max_size else wanted

unfoldable pub grow : ℕ → ℕ → List ℕ → List ℕ
grow new_size max_size buffer =
    if ltb (length buffer) new_size
    then resize (grown_capacity (length buffer) new_size max_size) buffer
    else buffer

unfoldable pub append : List ℕ → WriteBuffer → WriteBuffer × AppendResult
append bytes b =
    let new_size = b.size + length bytes in
    if ltb (2 ^ 64 - 1 - b.size) (length bytes)
    then (b, invalid_argument)
    else if ltb b.max_size new_size
    then (b, no_space)
    else (
      record b {
        buffer = splice b.size (length bytes) bytes (grow new_size b.max_size b.buffer);
        size = new_size;
      },
      done,
    )

unfoldable pub clear_buffer : WriteBuffer → WriteBuffer
clear_buffer b = record b { size = 0 }

unfoldable pub reserve : ℕ → WriteBuffer → WriteBuffer
reserve capacity b = record b {
  buffer = if ltb (length b.buffer) capacity then resize capacity b.buffer else b.buffer;
}

-- `data()`.
unfoldable pub contents : WriteBuffer → List ℕ
contents b = take b.size b.buffer
