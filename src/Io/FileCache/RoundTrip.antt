-- ===== src/Io/FileCache/RoundTrip.antt =====
-- A cache file gives back the files and the output from which it was made.
use octobuild.Prelude.{
  ℕ, suc, Bool, take, drop, codes, ok-injective, ◌^◌, ◌<◌, true, List, [], ◌∷◌, ◌++◌, Text, Bytes,
  Result, ok, length, ◌≡◌, refl, ap, sym, ◌∙◌, Option, some, none, append_assoc, ==_iff,
}
use octobuild.Compiler.{OutputInfo, success, Paths}
use octobuild.Io.Stream.{IoError, Reader, IsReader, NeverFails, vec_writer}
use octobuild.Io.FileCache.{Disk, write_entry}
use octobuild.Io.FileCache.Store.{
  install, read_file, read_files, read_entry, Archive, read_cache, run_cached, cached_or_run,
  read_opened,
}
use octobuild.Io.FileCache.Writing.{
  packed_file, packed_files, packed, IsShort, AreShort, AreFiles, write_entry_lem,
}
use octobuild.Io.FileCache.Reading.{read_cached_file_lem, read_start_lem, read_end_lem}

module _ {D F : Type 0} (disk : Disk D F) where
  -- Each file in turn is removed, written under its temporary name, and renamed.
  pub data Installed : D → List Text → List Bytes → D → Type 0 where
    installed : {d : D} → Installed d [] [] d
    install_next :
        {d d1 d2 : D} {path : Text} {paths : List Text} {content : Bytes} {contents : List Bytes}
        → install disk (disk.remove d path) path content ≡ ok d1
        → Installed d1 paths contents d2
        → Installed d (path ∷ paths) (content ∷ contents) d2

-- A compiler that succeeds has returned 0, the status that is not stored.
output_kept : (o : OutputInfo) → success o ≡ true → record o { status = some 0 } ≡ o
output_kept o h = ap (λ status. record o { status = status }) (zero_status o.status h)
  where
    zero_status :
        (status : Option ℕ) → success (record o { status = status }) ≡ true → some 0 ≡ status
    zero_status none h = cc
    zero_status (some n) h = ap some (sym ((==_iff n 0).0 h))

length-Installed :
    {D F : Type 0} (disk : Disk D F) {d d' : D} {paths : List Text} {contents : List Bytes}
    → Installed disk d paths contents d'
    → length paths ≡ length contents
length-Installed disk installed = refl
length-Installed disk (install_next e i) = ap suc (length-Installed disk i)

module _ {D F S : Type 0} (disk : Disk D F) (buf_size : ℕ) (pos : 0 < buf_size) (r : Reader S)
    (Valid : S → Type 0) (rest : S → Bytes) (laws : IsReader r Valid rest)
    (total : NeverFails r Valid) where
  read_files_lem :
      {d d' : D} (s : S) (paths : List Text) (contents : List Bytes) (more : Bytes)
      → Valid s
      → AreShort contents
      → rest s ≡ packed_files contents ++ more
      → Installed disk d paths contents d'
      → (t : S) × (read_files disk r buf_size d s paths ≡ (d', ok t)) × (rest t ≡ more) × Valid t
  unfolding read_files read_file
  read_files_lem s [] [] more v h e installed = (s, refl, e, v)
  read_files_lem s [] (content ∷ contents) more v h e i = elim i [ ]
  read_files_lem s (path ∷ paths) [] more v h e i = elim i [ ]
  read_files_lem {d = d} {d' = d'} s (path ∷ paths) (content ∷ contents) more v (h, hs) e
        (install_next {d1 = d1} i is) =
      let (t, e1, left, v1) =
        read_cached_file_lem r Valid rest laws total buf_size pos s content
          (packed_files contents ++ more) v h
          (e ∙ append_assoc (packed_file content) (packed_files contents) more) in
      let (u, e2, left', v2) =
        read_files_lem {d = d1} {d' = d'} t paths contents more v1 hs left is in
      (u, rw (e1, i, read_files) e2, left', v2)

  -- `read_cache` of the bytes of a cache file installs the files in order, whatever the pieces
  -- in which the decoder gives them, and returns the texts of the compiler with status 0.
  read_entry_lem :
      {d d' : D} (s : S) (paths : List Text) (contents : List Bytes) (output : OutputInfo)
      → Valid s
      → AreShort contents
      → length paths < 2 ^ 64
      → IsShort output.stdout
      → IsShort output.stderr
      → rest s ≡ packed contents output
      → Installed disk d paths contents d'
      → read_entry disk r buf_size d s paths ≡ (d', ok (record output { status = some 0 }))
  unfolding read_entry
  read_entry_lem s paths contents output v hs few h h' e i =
      let count : length paths ≡ length contents = length-Installed disk i in
      let (t, e1, left, v1) =
        read_start_lem r Valid rest laws total s (length paths) _ v few (rw count e) in
      let (u, e2, left', v2) = read_files_lem t paths contents _ v1 hs left i in
      let e3 = read_end_lem r Valid rest laws total u output v2 h h' left' in
      rw (e1, e2, e3, read_entry)

  module _ (Holds : F → Type 0) (remaining : F → Bytes)
      (file_laws : IsReader disk.file Holds remaining)
      (file_total : NeverFails disk.file Holds) where
    -- What `write_cache` wrote from the files of one disk is read back on another, however
    -- the decoder cuts it into pieces: the same contents are installed under the paths, in order, and
    -- the output returned is that of the compiler.
    pub read_entry-write_entry :
        (d d1 d2 : D) (paths : List Text) (contents : List Bytes) (output : OutputInfo)
        → AreFiles disk buf_size Holds remaining d paths contents
        → AreShort contents
        → length paths < 2 ^ 64
        → IsShort output.stdout
        → IsShort output.stderr
        → success output ≡ true
        → Installed disk d1 paths contents d2
        → (s : S) → Valid s
        → ok (rest s) ≡ write_entry disk vec_writer buf_size d [] paths output
        → read_entry disk r buf_size d1 s paths ≡ (d2, ok output)
    read_entry-write_entry d d1 d2 paths contents output files hs few h h' good i s v e =
        let written =
          write_entry_lem disk buf_size Holds remaining pos file_laws file_total d paths contents
            output files few h h' in
        read_entry_lem s paths contents output v hs few h h' (ok-injective (e ∙ written)) i
        ∙ ap (λ o. (d2, ok o)) (output_kept output good)

    -- So a compilation whose key has such a cache file does not run: `run_cached` returns the output,
    -- with the files installed, whatever the worker would do.
    pub run_cached-write_entry :
        (archive : Archive D S) (names : Paths) (cache_dir hash : Text)
        (worker : D → D × Result IoError OutputInfo) (checker : D → Bool) (d d0 d1 d2 : D)
        (paths : List Text) (contents : List Bytes) (output : OutputInfo)
        → AreFiles disk buf_size Holds remaining d paths contents
        → AreShort contents
        → length paths < 2 ^ 64
        → IsShort output.stdout
        → IsShort output.stderr
        → success output ≡ true
        → Installed disk d1 paths contents d2
        → (s : S) → Valid s
        → ok (rest s) ≡ write_entry disk vec_writer buf_size d [] paths output
        → archive.open_entry d0
            (names.join (names.join cache_dir (take 2 hash)) (drop 2 hash ++ codes ".lz4"))
          ≡ (d1, ok s)
        → run_cached disk archive r buf_size names cache_dir worker checker d0 hash paths
          ≡ (d2, ok output)
    unfolding run_cached read_cache
    run_cached-write_entry archive names cache_dir hash worker checker d d0 d1 d2 paths contents
          output files hs few h h' good i s v e opened =
        let path = names.join (names.join cache_dir (take 2 hash)) (drop 2 hash ++ codes ".lz4") in
        let found : read_cache disk archive r buf_size d0 path paths ≡ (d2, ok output) =
          ap (λ m. read_opened disk archive r buf_size paths m) opened
          ∙ read_entry-write_entry d d1 d2 paths contents output files hs few h h' good i s v e in
        ap (λ m. cached_or_run disk archive r buf_size names cache_dir worker checker path paths m)
          found
