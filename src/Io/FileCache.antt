-- ===== src/Io/FileCache.antt =====
-- io/filecache.rs: the cache file of one compilation. The disk and the files that are read from it are
-- parameters, `Disk`, and so is the compressor: the encoder's stream is the bytes that it was given.
pub mod Store
pub mod Writing
pub mod Reading
pub mod RoundTrip
pub mod Cleanup
mod Tests
use octobuild.Prelude.{
  ℕ, zero, suc, ◌+◌, ◌-◌, ◌%◌, ◌^◌, min, Bool, true, false, not, List, [], ◌∷◌, ◌++◌, ◌==◌,
  if◌then◌else◌, Text, Bytes, text_eq, codes, Result, ok, err, ◌>>=◌, length, drop, ltb, some,
}
use octobuild.Compiler.{OutputInfo, success}
use octobuild.Io.Stream.{
  IoError, unexpected_end_of_stream, expected_end_of_stream, invalid_header, invalid_footer,
  packed_files_mismatch, Reader, Writer,
}
use octobuild.Io.Binary.{read_exact, read_u64, read_usize, write_u64, write_usize}

abbrev pub header : Bytes
header = b'O' ∷ b'B' ∷ b'C' ∷ b'F' ∷ 0 ∷ 3 ∷ []

abbrev pub footer : Bytes
footer = b'E' ∷ b'N' ∷ b'D' ∷ 0 ∷ []

-- The file system. `open` gives a file and its length, `create` writes a new file whole, and a
-- failed `remove` leaves the disk as it was.
pub record Disk (D F : Type 0) : Type 0 where
  pub open_file : D → Text → Result IoError (F × ℕ)
  pub file : Reader F
  pub create : D → Text → Bytes → Result IoError D
  pub rename : D → Text → Text → Result IoError D
  pub remove : D → Text → D
  -- `~tmp~` before the file's name
  pub temp_name : Text → Text

module _ {W F : Type 0} (w : Writer W) (file : Reader F) (buf_size : ℕ) where
  -- The loop of `write_cached_file`. A round that goes on takes a byte of `need` at least.
  unfoldable pub write_file_loop : ℕ → W → F → ℕ → Result IoError W
  write_file_loop zero stream f need = err unexpected_end_of_stream
  write_file_loop (suc fuel) stream f need = do
    (chunk, f') ← file.read f buf_size
    elim chunk [
      | [] ↦ if need == 0 then ok stream else err unexpected_end_of_stream
      | c ∷ cs ↦ if ltb need (length (c ∷ cs)) then err expected_end_of_stream else do
        stream' ← w.write_all stream (c ∷ cs)
        write_file_loop fuel stream' f' (need - length (c ∷ cs))
    ]

  unfoldable pub write_cached_file : W → F → ℕ → Result IoError W
  unfolding write_file_loop
  write_cached_file stream f total_size = do
    stream' ← write_u64 w stream total_size
    write_file_loop (suc total_size) stream' f total_size

module _ {W : Type 0} (w : Writer W) where
  unfoldable pub write_blob : W → Bytes → Result IoError W
  write_blob stream blob = do stream' ← write_usize w stream (length blob); w.write_all stream' blob

  unfoldable pub write_output : W → OutputInfo → Result IoError W
  unfolding write_blob
  write_output stream output = do
    stream' ← write_blob stream output.stdout
    write_blob stream' output.stderr

module _ {D F W : Type 0} (disk : Disk D F) (w : Writer W) (buf_size : ℕ) where
  -- The loop over the output files.
  unfoldable pub write_files : D → W → List Text → Result IoError W
  unfolding write_cached_file
  write_files d stream [] = ok stream
  write_files d stream (path ∷ paths) = do
    (f, total_size) ← disk.open_file d path
    stream' ← write_cached_file w disk.file buf_size stream f total_size
    write_files d stream' paths

  -- What `write_cache` writes to the encoder's stream for an output that succeeded.
  unfoldable pub write_entry : D → W → List Text → OutputInfo → Result IoError W
  unfolding write_files write_output
  write_entry d stream paths output = do
    s1 ← w.write_all stream header
    s2 ← write_usize w s1 (length paths)
    s3 ← write_files d s2 paths
    s4 ← write_output w s3 output
    w.write_all s4 footer

module _ {S : Type 0} (r : Reader S) (buf_size : ℕ) where
  -- The loop of `read_cached_file`: the bytes that it writes to the new file.
  unfoldable pub read_file_loop : ℕ → S → ℕ → Result IoError (Bytes × S)
  read_file_loop zero stream need = ok ([], stream)
  read_file_loop (suc fuel) stream need = elim (need == 0) [
    | true ↦ ok ([], stream)
    | false ↦ do
      (chunk, s) ← r.read stream (min buf_size need)
      elim chunk [
        | [] ↦ err expected_end_of_stream
        | c ∷ cs ↦ do
          (more, s') ← read_file_loop fuel s (need - length (c ∷ cs))
          ok ((c ∷ cs) ++ more, s')
      ]
  ]

  -- `read_cached_file`, with the contents of the new file.
  unfoldable pub read_cached_file : S → Result IoError (Bytes × S)
  unfolding read_file_loop
  read_cached_file stream = do
    (total_size, s) ← read_u64 r stream
    read_file_loop total_size s total_size

module _ {S : Type 0} (r : Reader S) where
  unfoldable pub read_blob : S → Result IoError (Bytes × S)
  read_blob stream = do (size, s) ← read_usize r stream; read_exact r s size

  unfoldable pub read_output : S → Result IoError (OutputInfo × S)
  unfolding read_blob
  read_output stream = do
    (stdout, s) ← read_blob stream
    (stderr, s') ← read_blob s
    ok (record { status = some 0; stdout = stdout; stderr = stderr }, s')
