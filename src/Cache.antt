-- ===== src/Cache.antt =====
-- cache.rs and io/memcache.rs: the cache of the hashes of files. The file system changes while the code
-- runs, so that `Files` has what it tells at each instant; the calls for one key follow each other by
-- the lock of its entry.
pub mod Fresh
mod Tests
use octobuild.Prelude.{
  ℕ, Bool, true, false, ◌&&◌, List, [], ◌∷◌, ◌==◌, if◌then◌else◌, Option, none, some, Text, Result,
  ok, err, ◌>>=◌, get, insert,
}
use octobuild.Io.Stream.{IoError, os}

-- `FileHash`.
pub record FileHash : Type 0 where
  pub hash : Text
  pub size : ℕ
  pub modified : ℕ

-- `fs::metadata`, as size and time of modification, and `generate_file_hash`, at an instant.
pub record Files : Type 0 where
  pub metadata : ℕ → Text → Option (ℕ × ℕ)
  pub generate_file_hash : ℕ → Text → Result IoError Text

-- `MemCache::run_cached`: the worker is given what the entry holds, and its value is kept.
unfoldable pub run_cached :
    {V : Type 0} → List (Text × V) → Text → (Option V → V) → V × List (Text × V)
run_cached map key worker = let value = worker (get map key) in (value, insert map key value)

abbrev pub Entry : Type 0
Entry = Result (Unit {0}) FileHash

module _ (files : Files) where
  -- The cached value, if it is valid for the size and the time of modification.
  abbrev pub still_valid : ℕ × ℕ → Option Entry → Option FileHash
  still_valid (size, modified) none = none
  still_valid (size, modified) (some (err e)) = none
  still_valid (size, modified) (some (ok v)) =
      if v.size == size && v.modified == modified then some v else none

  -- A new value, with the size and the time from before the contents are read.
  abbrev pub generated : ℕ × ℕ → Result IoError Text → Entry
  generated (size, modified) (ok hash) =
      ok (record { hash = hash; size = size; modified = modified })
  generated (size, modified) (err e) = err tt

  abbrev pub checked : ℕ × ℕ → Result IoError Text → Option FileHash → Entry
  checked stat hash none = generated stat hash
  checked stat hash (some v) = ok v

  -- The worker of `file_hash`, which asks for the metadata at the instant `t1` and reads the contents
  -- at `t2`.
  unfoldable pub worker : ℕ → ℕ → Text → Option Entry → Entry
  worker t1 t2 path cached = elim (files.metadata t1 path) [
    | none ↦ err tt
    | some stat ↦ checked stat (files.generate_file_hash t2 path) (still_valid stat cached)
  ]

  -- The error of `file_hash`, "I/O Error".
  abbrev pub or_io_error : Entry → Result IoError FileHash
  or_io_error (ok v) = ok v
  or_io_error (err e) = err (os 0)

  unfoldable pub file_hash :
      ℕ → ℕ → List (Text × Entry) → Text → Result IoError FileHash × List (Text × Entry)
  unfolding run_cached worker
  file_hash t1 t2 cache path =
      let (value, cache') = run_cached cache path (worker t1 t2 path) in (or_io_error value, cache')
