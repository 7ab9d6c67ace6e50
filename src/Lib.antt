-- ===== src/Lib.antt =====
-- A verification library for cyclone-cache, a memory-mapped disk cache in C++.
--
-- The cache splits its storage into stripes. A stripe keeps documents in a ring that is
-- written from a moving frontier, and finds them through a directory of small buckets: the
-- key's digest picks the bucket and a 12-bit tag, and each entry of the bucket holds the
-- offset of a document, its approximate size and the phase of the ring it was written in.
-- A key is a 32-byte digest. The files here model these parts of the program:
--
--   Key          include/cyclone/key.hpp and src/core/key.cpp: the digest, the words read
--                from it (segment_hash, bucket_hash, tag), and its hexadecimal text
--                (to_hex, from_hex). The SHA-256 of from_url is an argument.
--   Directory    src/core/directory.hpp and src/core/directory.cpp. Directory/Entry is the
--                packed DirEntry of five 16-bit words with its getters and setters;
--                Directory/Choose is choose_insert_slot and publish_view_is_current;
--                Directory/Insert is both forms of insert; Directory itself is the class:
--                its entries, its two counters and the bucket versions, and the
--                operations probe, remove, remove_at, clear, toggle_phase and deserialize.
--   Crc32c       src/core/crc32c.cpp: the portable kernel with its table rows, and
--                crc32c_update; Crc32c/Incremental is the interface that callers see.
--   Document     src/core/document.hpp and src/core/document.cpp: the 132-byte header as a
--                record and its wire form; Document/Checksum is the canonical header and the
--                checksum, Document/Builder and Document/Reader are the two classes, and
--                Document/Links the links between the alternates of a key.
--   RamCache     src/ram_cache/ram_cache.hpp and src/ram_cache/lru.cpp: RamCacheLRU with its
--                budget, its eviction loop and the recency order of its entries. The loop has
--                one unit of fuel for each entry, and each round drops one.
--   WriteBuffer  src/core/write_buffer.hpp and src/core/write_buffer.cpp.
--   FastDiv      src/core/volume.hpp: FastDivU64, the division of a word by a fixed divisor.
--   BorrowSlot   src/core/mmap_directory.hpp: borrow_slot, the packed counters of borrows.
--   Volume       src/core/volume.hpp and src/core/volume.cpp: a stripe, its geometry and its
--                small methods. Volume/Admission is the snapshot and the admit_ functions;
--                Volume/Lease is the read leases, the borrows of chunks and lease_gate;
--                Volume/Wrap is the steps of a wrap and repair_wrap_state; Volume/Reserve is
--                retention_prepare, allocate_write_slot and commit_write_slot. A stripe's
--                atomic fields are plain ones, the two places of a cursor excepted, and the
--                volume's counters are carried with it. Of the cross-process write lock only
--                the answers to its acquisition and revalidations are seen, as arguments, as
--                are the times that are read. Core, in Volume/Frontier, is the part of a
--                stripe that decides where a reservation lies.
--   Clfus        src/ram_cache/clfus.cpp: a Segment of RamCacheCLFUS, with its put and removals in
--                Clfus/Operations. The average of the evicted values is a double and its
--                arithmetic an argument. evict_if_needed runs as many rounds as it has active
--                entries and requeues, since each round takes one of them.
--   Seqlock      src/core/directory.hpp: SeqlockReadWait, and LockHolderWait in Seqlock/Holder,
--                with the clock's readings as arguments; Seqlock/Watch runs a waiter from its
--                start on; Seqlock/Protocol is the attempt of a reader of a bucket beside the
--                writer, as a step relation.
--   Tests        every theorem with hypotheses applied at a concrete input.
--   Common       lists, bits, little-endian words and splices over the native numbers.
--
-- Each operation takes the state of its object and returns the new state. A machine word
-- is a natural number and keeps its reduction modulo 2 to its width; an array is a list,
-- and reading it outside its range has the default that the definition names. The loops of
-- the source over a bucket, a string or a buffer are recursions on the list they walk or on
-- the number of its blocks.
--
-- A directory operation is one step here, because the source runs it under the stripe's
-- lock; the bucket versions that lock-free readers compare are kept and counted. What one
-- reader of a bucket sees while a write is in progress is the subject of Seqlock/Protocol,
-- where memory is sequentially consistent. Storage, the mapping of files, threads, the
-- handlers of read, write and remove in the volume and what they do to the directory, the
-- division of the CLFUS cache into segments, the hardware kernels of the checksum, and the
-- HTTP plugin are not modelled. A reservation is one step under the stripe's mutex: the stores
-- of a reader between two stores of a writer are not interleaved with them.
pub mod Common
pub mod Key
pub mod Directory
pub mod Crc32c
pub mod Document
pub mod WriteBuffer
pub mod RamCache
pub mod Clfus
pub mod FastDiv
pub mod BorrowSlot
pub mod Volume
pub mod Seqlock
pub mod Tests
