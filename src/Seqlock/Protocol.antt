-- ===== src/Seqlock/Protocol.antt =====
-- src/core/directory.hpp and src/core/directory.cpp: one reader of a bucket beside a writer, as steps on
-- the entries and on the version that both see. The reader is an attempt of `probe_each`, which copies
-- the entries one by one and then loads the version again. `bumps` counts the changes of the version,
-- whose low 32 bits the version is.
use cyclone_cache.Common.{ℕ, suc, ◌%◌, ◌^◌, ◌≡◌, List, [], ◌∷◌, ◌++◌, get_elem?, set, length, some}
use cyclone_cache.Directory.Entry.{DirEntry}

-- The reader: idle, at its copies since a version was loaded, or done with them.
pub data Reader : Type 0 where
  idle : Reader
  copying : ℕ → List DirEntry → Reader
  accepted : List DirEntry → Reader

-- `seen_bumps` and `seen` are what `bumps` and the bucket were when the reader loaded its version.
pub record World : Type 0 where
  pub bucket : List DirEntry
  pub bumps : ℕ
  pub reader : Reader
  pub seen_bumps : ℕ
  pub seen : List DirEntry

abbrev pub version : World → ℕ
version w = w.bumps % 2 ^ 32

pub data Step : World → World → Type 0 where
  begin_bucket_write : (w : World) → w.bumps % 2 ≡ 0 → Step w (record w { bumps = suc w.bumps })
  store_entry :
      (w : World) (i : ℕ) (e : DirEntry)
      → w.bumps % 2 ≡ 1
      → Step w (record w { bucket = set w.bucket i e })
  end_bucket_write : (w : World) → w.bumps % 2 ≡ 1 → Step w (record w { bumps = suc w.bumps })
  load_version :
      (w : World)
      → version w % 2 ≡ 0
      → Step w (record w { reader = copying (version w) []; seen_bumps = w.bumps; seen = w.bucket })
  copy_entry :
      (w : World) (v : ℕ) (es : List DirEntry) (e : DirEntry)
      → w.reader ≡ copying v es
      → get_elem? w.bucket (length es) ≡ some e
      → Step w (record w { reader = copying v (es ++ e ∷ []) })
  accept :
      (w : World) (v : ℕ) (es : List DirEntry)
      → w.reader ≡ copying v es
      → version w ≡ v
      → Step w (record w { reader = accepted es })
  give_up : (w : World) → Step w (record w { reader = idle })

-- The worlds that some steps lead to.
pub data Reach (start : World) : World → Type 0 where
  at_start : Reach start start
  then_step : (w w' : World) → Reach start w → Step w w' → Reach start w'
