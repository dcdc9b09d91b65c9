-- ===== src/Io/FileCache/Store.antt =====
-- `read_cache`, `write_cache` and `run_cached` of io/filecache.rs. They return the disk also with an
-- error: what a failed read has removed stays removed. A new file is written whole when its bytes are
-- read.
use octobuild.Prelude.{
  ℕ, Bool, true, false, not, List, [], ◌∷◌, ◌++◌, ◌==◌, if◌then◌else◌, Text, Bytes, text_eq, codes,
  Result, ok, err, ◌>>=◌, length, take, drop,
}
use octobuild.Compiler.{OutputInfo, success, Paths}
use octobuild.Io.Stream.{
  IoError, invalid_header, invalid_footer, packed_files_mismatch, Reader, vec_writer,
}
use octobuild.Io.Binary.{read_exact, read_usize}
use octobuild.Io.FileCache.{Disk, header, footer, write_entry, read_cached_file, read_output}

module _ {S : Type 0} (r : Reader S) where
  -- The tests in front of the files, and those behind them.
  unfoldable pub read_start : S → ℕ → Result IoError S
  read_start stream count = do
    (h, s) ← read_exact r stream (length header)
    elim (text_eq h header) [
      | false ↦ err invalid_header
      | true ↦ do (n, s') ← read_usize r s; if n == count then ok s' else err packed_files_mismatch
    ]

  unfoldable pub read_end : S → Result IoError OutputInfo
  read_end stream = do
    (output, s) ← read_output r stream
    (f, s') ← read_exact r s (length footer)
    elim (text_eq f footer) [
      | false ↦ err invalid_footer
      | true ↦ do (eof, _) ← r.read s' 1; elim eof [ [] ↦ ok output | _ ∷ _ ↦ err invalid_footer ]
    ]

module _ {D F : Type 0} (disk : Disk D F) where
  -- The new file, first under its temporary name.
  unfoldable pub install : D → Text → Bytes → Result IoError D
  install d path content = do
    d' ← disk.create d (disk.temp_name path) content
    disk.rename d' (disk.temp_name path) path

module _ {D F S : Type 0} (disk : Disk D F) (r : Reader S) (buf_size : ℕ) where
  unfoldable pub read_file : D → S → Text → Result IoError (S × D)
  unfolding install
  read_file d stream path = do
    (content, s) ← read_cached_file r buf_size stream
    d' ← install disk d path content
    ok (s, d')

  -- The loop over the output files.
  unfoldable pub read_files : D → S → List Text → D × Result IoError S
  unfolding read_file
  read_files d stream [] = (d, ok stream)
  read_files d stream (path ∷ paths) = elim (read_file (disk.remove d path) stream path) [
    | err e ↦ (disk.remove (disk.remove d path) (disk.temp_name path), err e)
    | ok (s, d') ↦ read_files d' s paths
  ]

  -- `read_cache` behind the opening of the file.
  unfoldable pub read_entry : D → S → List Text → D × Result IoError OutputInfo
  unfolding read_files read_start read_end
  read_entry d stream paths = elim (read_start r stream (length paths)) [
    | err e ↦ (d, err e)
    | ok s ↦ let (d', files) = read_files d s paths in (d', files >>= λ s'. read_end r s')
  ]

-- The cache files with the compressor. `open_entry` opens one, writes its first byte, and starts a
-- decoder; `store` makes the directories and writes one; `give_up` is what an encoder that
-- is dropped leaves.
pub record Archive (D S : Type 0) : Type 0 where
  pub open_entry : D → Text → D × Result IoError S
  pub store : D → Text → Bytes → D × Result IoError (Unit {0})
  pub give_up : D → Text → D

module _ {D F S : Type 0} (disk : Disk D F) (archive : Archive D S) (r : Reader S)
    (buf_size : ℕ) where
  abbrev pub read_opened : List Text → D × Result IoError S → D × Result IoError OutputInfo
  read_opened paths (d, err e) = (d, err e)
  read_opened paths (d, ok stream) = read_entry disk r buf_size d stream paths

  unfoldable pub read_cache : D → Text → List Text → D × Result IoError OutputInfo
  unfolding read_entry
  read_cache d path paths = read_opened paths (archive.open_entry d path)

  unfoldable pub write_cache : D → Text → List Text → OutputInfo → D × Result IoError (Unit {0})
  unfolding write_entry
  write_cache d path paths output =
      if not (success output)
      then (d, ok tt)
      else elim (write_entry disk vec_writer buf_size d [] paths output) [
        | err e ↦ (archive.give_up d path, err e)
        | ok bytes ↦ archive.store d path bytes
      ]

  module _ (paths : Paths) (cache_dir : Text) where
    abbrev pub entry_path : Text → Text
    entry_path hash = paths.join (paths.join cache_dir (take 2 hash)) (drop 2 hash ++ codes ".lz4")

    module _ (worker : D → D × Result IoError OutputInfo) (checker : D → Bool) where
      -- What follows the reading of the cache. `worker` runs on the disk, and `checker` is asked when it
      -- has succeeded.
      abbrev pub ran :
          D → Text → List Text → Result IoError OutputInfo → D × Result IoError OutputInfo
      ran d path outputs (err e) = (d, err e)
      ran d path outputs (ok output) =
          if not (checker d)
          then (d, ok output)
          else let (d', written) = write_cache d path outputs output in
            (d', written >>= λ _. ok output)

      abbrev pub cached_or_run :
          Text → List Text → D × Result IoError OutputInfo → D × Result IoError OutputInfo
      cached_or_run path outputs (d, ok output) = (d, ok output)
      cached_or_run path outputs (d, err _) =
          let (d', worked) = worker d in ran d' path outputs worked

      unfoldable pub run_cached : D → Text → List Text → D × Result IoError OutputInfo
      unfolding read_cache write_cache
      run_cached d hash outputs =
          cached_or_run (entry_path hash) outputs (read_cache d (entry_path hash) outputs)
