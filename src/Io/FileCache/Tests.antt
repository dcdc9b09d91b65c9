-- ===== src/Io/FileCache/Tests.antt =====
-- Tests of cache files, on a disk that knows the names of the files that were made.
use mathlib.Core.List.{Perm}
use octobuild.Prelude.{
  ◌+◌, ◌<◌, ◌≤◌, true, false, List, [], ◌∷◌, ◌++◌, Text, Bytes, none, some, Result, ok, err, codes,
  ◌≡◌, refl, sym, arith,
}
use octobuild.Compiler.{OutputInfo, Paths}
use octobuild.Io.Stream.{IoError, vec_writer}
use octobuild.Io.Binary.{le_bytes}
use octobuild.Io.MemStream.{MemReader, mem_reader}
use octobuild.Io.MemStream.Read.{
  IsValidReader, at_block, rest, mem_reader-IsReader, mem_reader-NeverFails,
}
use octobuild.Io.FileCache.{Disk, write_entry}
use octobuild.Io.FileCache.Store.{install, read_entry, Archive, run_cached}
use octobuild.Io.FileCache.Writing.{packed, AreFiles, write_entry_lem}
use octobuild.Io.FileCache.RoundTrip.{
  Installed, installed, install_next, read_entry-write_entry, run_cached-write_entry,
}
use octobuild.Io.FileCache.Cleanup.{CacheFile, cleanup}
use octobuild.Io.FileCache.Cleanup.Limit.{total, AreByAge, remove_all, cleanup_lem}

four_positive : 0 < 4
four_positive = omega arith

-- A stream of bytes in one block.
abbrev stream_of : Bytes → MemReader
stream_of b = record { offset = 0; iter = record { size = 0; iter = [] }; last = some b }

stream_of-IsValid : (b : Bytes) → IsValidReader 4 four_positive (stream_of b)
stream_of-IsValid b =
    at_block b refl (omega arith) (record { are_blocks = tt; backed = omega arith })

abbrev names : Disk (List Text) MemReader
names = record {
  open_file = λ d path. ok (stream_of (1 ∷ 2 ∷ 3 ∷ []), 3);
  file = mem_reader;
  create = λ d path content. ok (path ∷ d);
  rename = λ d from to. ok (to ∷ d);
  remove = λ d path. d;
  temp_name = λ path. codes "~tmp~" ++ path;
}

abbrev object : List Text
object = codes "a.o" ∷ []

abbrev content : List Bytes
content = (1 ∷ 2 ∷ 3 ∷ []) ∷ []

abbrev warned : OutputInfo
warned = record { status = some 0; stdout = []; stderr = codes "warning" }

abbrev Is4 : MemReader → Type 0
Is4 = IsValidReader 4 four_positive

object-AreFiles : AreFiles names 4 Is4 rest [] object content
object-AreFiles = (
  record {
    f = stream_of (1 ∷ 2 ∷ 3 ∷ []);
    opens = refl;
    valid = stream_of-IsValid (1 ∷ 2 ∷ 3 ∷ []);
    holds = refl;
  },
  tt,
)

write_entry_lem_example :
    write_entry names vec_writer 4 [] [] object warned ≡ ok (packed content warned)
write_entry_lem_example =
    write_entry_lem names 4 Is4 rest four_positive (mem_reader-IsReader 4 four_positive)
      (mem_reader-NeverFails 4 four_positive) [] object content warned object-AreFiles (omega arith)
      (omega arith) (omega arith)

abbrev entry : MemReader
entry = stream_of (packed content warned)

entry-written : ok (rest entry) ≡ write_entry names vec_writer 4 [] [] object warned
unfolding le_bytes
entry-written = sym (
    write_entry_lem names 4 Is4 rest four_positive (mem_reader-IsReader 4 four_positive)
      (mem_reader-NeverFails 4 four_positive) [] object content warned object-AreFiles (omega arith)
      (omega arith) (omega arith))

object-Installed : Installed names [] object content (codes "a.o" ∷ codes "~tmp~a.o" ∷ [])
unfolding install
object-Installed = install_next refl installed

read_entry-write_entry_example :
    read_entry names mem_reader 4 [] entry object ≡ (codes "a.o" ∷ codes "~tmp~a.o" ∷ [], ok warned)
read_entry-write_entry_example =
    read_entry-write_entry names 4 four_positive mem_reader Is4 rest
      (mem_reader-IsReader 4 four_positive) (mem_reader-NeverFails 4 four_positive) Is4 rest
      (mem_reader-IsReader 4 four_positive) (mem_reader-NeverFails 4 four_positive) [] []
      (codes "a.o" ∷ codes "~tmp~a.o" ∷ []) object content warned object-AreFiles (omega arith, tt)
      (omega arith) (omega arith) (omega arith) refl object-Installed entry
      (stream_of-IsValid (packed content warned)) entry-written

abbrev one_entry : Archive (List Text) MemReader
one_entry = record {
  open_entry = λ d path. (d, ok entry);
  store = λ d path bytes. (path ∷ d, ok tt);
  give_up = λ d path. path ∷ d;
}

abbrev joined : Paths
joined = record {
  extension = λ p. none;
  with_extension = λ p e. p ++ (codes "." ++ e);
  file_name = λ p. some p;
  join = λ a b. a ++ (codes "/" ++ b);
  is_dir = λ p. false;
}

-- A compiler that fails.
abbrev broken : List Text → List Text × Result IoError OutputInfo
broken d = (d, err (IoError.os 1))

run_cached-write_entry_example :
    run_cached names one_entry mem_reader 4 joined
      (codes "cache")
      broken
      (λ d. true)
      []
      (codes "abcdef")
      object
    ≡ (codes "a.o" ∷ codes "~tmp~a.o" ∷ [], ok warned)
run_cached-write_entry_example =
    run_cached-write_entry names 4 four_positive mem_reader Is4 rest
      (mem_reader-IsReader 4 four_positive) (mem_reader-NeverFails 4 four_positive) Is4 rest
      (mem_reader-IsReader 4 four_positive) (mem_reader-NeverFails 4 four_positive) one_entry joined
      (codes "cache") (codes "abcdef") broken (λ d. true) [] [] []
      (codes "a.o" ∷ codes "~tmp~a.o" ∷ []) object content warned object-AreFiles (omega arith, tt)
      (omega arith) (omega arith) (omega arith) refl object-Installed entry
      (stream_of-IsValid (packed content warned)) entry-written refl

abbrev old : CacheFile
old = record { path = codes "old"; size = 7; accessed = 1 }

abbrev new : CacheFile
new = record { path = codes "new"; size = 5; accessed = 2 }

abbrev log : List Text → Text → Result IoError (List Text)
log d path = ok (path ∷ d)

cleanup_removes_old : cleanup log 10 [] (old ∷ new ∷ []) ≡ ok (codes "old" ∷ [])
unfolding cleanup
cleanup_removes_old = refl

cleanup_lem_example :
    (kept : List CacheFile) × (removed : List CacheFile) × Perm (old ∷ new ∷ []) (kept ++ removed)
    × AreByAge (kept ++ removed)
    × (total kept ≤ 10)
    × ((f : CacheFile) (rest : List CacheFile) → removed ≡ f ∷ rest → 10 < total kept + f.size)
    × (cleanup log 10 [] (old ∷ new ∷ []) ≡ remove_all log [] removed)
cleanup_lem_example = cleanup_lem log 10 [] (old ∷ new ∷ [])
