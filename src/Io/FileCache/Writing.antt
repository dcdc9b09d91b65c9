-- ===== src/Io/FileCache/Writing.antt =====
-- What `write_cache` gives to the compressor.
use octobuild.Prelude.{
  ℕ, zero, suc, ◌-◌, ◌%◌, ◌^◌, ◌<◌, true, false, List, [], ◌∷◌, ◌++◌, ◌==◌, Text, Bytes, ok, ◌>>=◌,
  length, ltb, ◌≡◌, refl, ap, sym, ◌∙◌, arith, inl, inr, length-append, append_assoc, append-nil,
  ==_iff, List-cases, ◌+◌,
}
use octobuild.Compiler.{OutputInfo}
use octobuild.Io.Stream.{IsReader, NeverFails, vec_writer}
use octobuild.Io.Binary.{le_bytes, write_u64, write_usize}
use octobuild.Io.FileCache.{
  Disk, header, footer, write_file_loop, write_cached_file, write_output, write_files, write_entry,
}

abbrev pub packed_file : Bytes → Bytes
packed_file content = le_bytes 8 (length content) ++ content

abbrev pub packed_files : List Bytes → Bytes
packed_files [] = []
packed_files (c ∷ cs) = packed_file c ++ packed_files cs

-- The layout of a cache file.
abbrev pub packed : List Bytes → OutputInfo → Bytes
packed contents output =
    header
    ++ (le_bytes 8 (length contents)
        ++ (packed_files contents
            ++ (packed_file output.stdout ++ (packed_file output.stderr ++ footer))))

-- Lengths of files and of output are `u64` values.
abbrev pub IsShort : Bytes → Type 0
IsShort content = length content < 2 ^ 64

abbrev pub AreShort : List Bytes → Type 0
AreShort [] = Unit
AreShort (c ∷ cs) = IsShort c × AreShort cs

module _ {D F : Type 0} (disk : Disk D F) (buf_size : ℕ) (Valid : F → Type 0)
    (rest : F → Bytes) where
  -- The files have these contents.
  pub record IsFile (d : D) (path : Text) (content : Bytes) : Type 0 where
    pub f : F
    pub opens : disk.open_file d path ≡ ok (f, length content)
    pub valid : Valid f
    pub holds : rest f ≡ content

  abbrev pub AreFiles : D → List Text → List Bytes → Type 0
  AreFiles d [] [] = Unit
  AreFiles d (path ∷ paths) (content ∷ contents) = IsFile d path content × AreFiles d paths contents
  AreFiles d _ _ = ⊥

  module _ (pos : 0 < buf_size) (laws : IsReader disk.file Valid rest)
      (total : NeverFails disk.file Valid) where
    Written : ℕ → Bytes → F → ℕ → Type 0
    Written fuel stream f need =
        write_file_loop vec_writer disk.file buf_size fuel stream f need ≡ ok (stream ++ rest f)

    Written-last :
        (fuel : ℕ) (stream : Bytes) (f t : F) (need : ℕ)
        → Valid f
        → need ≡ length (rest f)
        → disk.file.read f buf_size ≡ ok ([], t)
        → Written (suc fuel) stream f need
    unfolding write_file_loop Written
    Written-last fuel stream f t need v e r = elim (laws.stops f buf_size v r) [
      | inl z ↦ absurd (omega arith)
      | inr z ↦
          let none_left : (need == 0) ≡ true = (==_iff need 0).1 (e ∙ ap length z) in
          rw (r, none_left, z, append-nil, write_file_loop)
    ]

    Written-next :
        (fuel : ℕ) (stream : Bytes) (f t : F) (need c : ℕ) (cs : Bytes)
        → Valid f
        → need ≡ length (rest f)
        → disk.file.read f buf_size ≡ ok (c ∷ cs, t)
        → Written fuel (stream ++ (c ∷ cs)) t (need - length (c ∷ cs))
        → Written (suc fuel) stream f need
    unfolding write_file_loop Written
    Written-next fuel stream f t need c cs v e r ih =
        let splits = laws.splits f buf_size v r in
        let fits : ltb need (length (c ∷ cs)) ≡ false =
          ground (arith, ap length splits, length-append (c ∷ cs) (rest t)) in
        rw (r, fits, write_file_loop)
          (ih ∙ ap ok (append_assoc stream (c ∷ cs) (rest t) ∙ ap (λ x. stream ++ x) (sym splits)))

    write_file_loop_lem :
        (fuel : ℕ) (stream : Bytes) (f : F) (need : ℕ)
        → Valid f
        → need ≡ length (rest f)
        → need < fuel
        → Written fuel stream f need
    write_file_loop_lem zero stream f need v e h = absurd (omega arith)
    write_file_loop_lem (suc fuel) stream f need v e h =
        let (b, t, r) = total f buf_size v in
        elim (List-cases b) [
          | inl z ↦ Written-last fuel stream f t need v e (rw z at r)
          | inr (c, cs, z) ↦
              let r' : disk.file.read f buf_size ≡ ok (c ∷ cs, t) = rw z at r in
              let left : length (rest f) ≡ length (c ∷ cs) + length (rest t) =
                ap length (laws.splits f buf_size v r') ∙ length-append (c ∷ cs) (rest t) in
              Written-next fuel stream f t need c cs v e r' (
                write_file_loop_lem fuel (stream ++ (c ∷ cs)) t (need - length (c ∷ cs))
                  (laws.keeps f buf_size v r') (omega arith) (omega arith))
        ]

    write_cached_file_lem :
        (stream : Bytes) (f : F) (n : ℕ)
        → Valid f
        → n ≡ length (rest f)
        → write_cached_file vec_writer disk.file buf_size stream f n
          ≡ ok (stream ++ (le_bytes 8 n ++ rest f))
    unfolding write_cached_file write_u64 Written
    write_cached_file_lem stream f n v e =
        write_file_loop_lem (suc n) (stream ++ le_bytes 8 n) f n v e (omega arith)
        ∙ ap ok (append_assoc stream (le_bytes 8 n) (rest f))

    write_files_lem :
        (d : D) (stream : Bytes) (paths : List Text) (contents : List Bytes)
        → AreFiles d paths contents
        → write_files disk vec_writer buf_size d stream paths ≡ ok (stream ++ packed_files contents)
    unfolding write_files
    write_files_lem d stream [] [] h = ap ok (sym (append-nil stream))
    write_files_lem d stream [] (c ∷ cs) h = absurd h
    write_files_lem d stream (p ∷ ps) [] h = absurd h
    write_files_lem d stream (p ∷ ps) (c ∷ cs) (file, files) =
        let one =
          write_cached_file_lem stream file.f (length c) file.valid (ap length (sym file.holds)) in
        rw (file.opens, one, file.holds, write_files)
          (write_files_lem d (stream ++ packed_file c) ps cs files
            ∙ ap ok (append_assoc stream (packed_file c) (packed_files cs)))

    length-AreFiles :
        (d : D) (paths : List Text) (contents : List Bytes)
        → AreFiles d paths contents
        → length paths ≡ length contents
    length-AreFiles d [] [] h = refl
    length-AreFiles d [] (c ∷ cs) h = absurd h
    length-AreFiles d (p ∷ ps) [] h = absurd h
    length-AreFiles d (p ∷ ps) (c ∷ cs) (_, files) = ap suc (length-AreFiles d ps cs files)

    write_output_lem :
        (stream : Bytes) (output : OutputInfo)
        → IsShort output.stdout
        → IsShort output.stderr
        → write_output vec_writer stream output
          ≡ ok ((stream ++ packed_file output.stdout) ++ packed_file output.stderr)
    unfolding write_output write_usize write_u64
    write_output_lem stream output short short' =
        let e : length output.stdout % 2 ^ 64 ≡ length output.stdout = omega arith in
        let e' : length output.stderr % 2 ^ 64 ≡ length output.stderr = omega arith in
        rw (e, e') (ap ok (simp (append_assoc)))

    -- Where the output files have the given contents, `write_cache` gives to the compressor the header,
    -- the number of files, each file with its length before it, the texts of the compiler in
    -- the same way, and the footer.
    pub write_entry_lem :
        (d : D) (paths : List Text) (contents : List Bytes) (output : OutputInfo)
        → AreFiles d paths contents
        → length paths < 2 ^ 64
        → IsShort output.stdout
        → IsShort output.stderr
        → write_entry disk vec_writer buf_size d [] paths output ≡ ok (packed contents output)
    unfolding write_entry write_usize write_u64
    write_entry_lem d paths contents output files few short short' =
        let count : length paths % 2 ^ 64 ≡ length contents =
          omega (arith, length-AreFiles d paths contents files) in
        let written =
          write_files_lem d (header ++ le_bytes 8 (length contents)) paths contents files in
        let start = (header ++ le_bytes 8 (length contents)) ++ packed_files contents in
        rw (count, written)
          (ap (λ m. m >>= λ s. ok (s ++ footer)) (write_output_lem start output short short')
            ∙ ap ok (simp (append_assoc)))
