-- ===== src/Io/Tests.antt =====
-- Tests of streams and binary records, on streams in blocks of four bytes.
use octobuild.Prelude.{
  List, [], ◌∷◌, ◌++◌, Bytes, some, ok, err, length, concat, take, drop, ◌<◌, ◌≤◌, ◌≡◌, ◌⊎◌, refl,
  arith,
}
use octobuild.Io.Stream.{vec_writer, unexpected_end_of_data}
use octobuild.Io.Binary.{le_bytes, read_exact, read_usize}
use octobuild.Io.Binary.Reading.{read_exact_lem, read_usize-le_bytes}
use octobuild.Io.MemStream.{MemStream, MemReader, new, into_vec, read, mem_reader}
use octobuild.Io.MemStream.Contents.{IsValid, new-IsValid, partial}
use octobuild.Io.MemStream.Write.{Appended, write_data_lem}
use octobuild.Io.MemStream.Copy.{
  write_pieces, into_vec-write, Copies, copy_lem, vec_writer-IsWriter,
}
use octobuild.Io.MemStream.Read.{
  IsValidReader, at_block, rest, read_lem, mem_reader-IsReader, mem_reader-NeverFails,
}

abbrev block : Bytes
block = 9 ∷ 9 ∷ 9 ∷ 9 ∷ []

abbrev pieces : List Bytes
pieces = (1 ∷ 2 ∷ 3 ∷ []) ∷ [] ∷ (4 ∷ 5 ∷ 6 ∷ 7 ∷ 8 ∷ 9 ∷ []) ∷ []

four_positive : 0 < 4
four_positive = omega arith

into_vec-write_example :
    (t : MemStream) × (write_pieces 4 block new pieces ≡ some t)
    × (into_vec t ≡ some (concat pieces))
into_vec-write_example = into_vec-write 4 block four_positive refl pieces

write_data_lem_example : Appended 4 block four_positive refl new (1 ∷ 2 ∷ 3 ∷ 4 ∷ 5 ∷ [])
write_data_lem_example =
    write_data_lem 4 block four_positive refl new (1 ∷ 2 ∷ 3 ∷ 4 ∷ 5 ∷ []) (new-IsValid 4)

-- Six bytes in two blocks.
abbrev six : MemStream
six = record { size = 6; blocks = (1 ∷ 2 ∷ 3 ∷ 4 ∷ []) ∷ (5 ∷ 6 ∷ 9 ∷ 9 ∷ []) ∷ [] }

six-IsValid : IsValid 4 six
six-IsValid =
    partial ((1 ∷ 2 ∷ 3 ∷ 4 ∷ []) ∷ []) (5 ∷ 6 ∷ 9 ∷ 9 ∷ []) 2 (refl, tt) refl (omega arith)
      (omega arith) refl refl

copy_lem_example : Copies 4 four_positive vec_writer (λ w. w) vec_writer-IsWriter six (7 ∷ [])
copy_lem_example =
    copy_lem 4 four_positive vec_writer (λ w. w) vec_writer-IsWriter six (7 ∷ []) six-IsValid

-- The reader of it behind its first byte.
abbrev started : MemReader
started = record {
  offset = 1;
  iter = record { size = 2; iter = (5 ∷ 6 ∷ 9 ∷ 9 ∷ []) ∷ [] };
  last = some (1 ∷ 2 ∷ 3 ∷ 4 ∷ []);
}

started-IsValid : IsValidReader 4 four_positive started
started-IsValid =
    at_block (1 ∷ 2 ∷ 3 ∷ 4 ∷ []) refl (omega arith)
      (record { are_blocks = (refl, tt); backed = omega arith })

reads_over_blocks :
    read started 4
    ≡ some (
      2 ∷ 3 ∷ 4 ∷ 5 ∷ [],
      record { offset = 1; iter = record { size = 0; iter = [] }; last = some (5 ∷ 6 ∷ []) },
    )
unfolding read
reads_over_blocks = refl

read_lem_example :
    (b : Bytes) × (r : MemReader) × (read started 4 ≡ some (b, r))
    × IsValidReader 4 four_positive r
    × (b ≡ take 4 (rest started))
    × (rest r ≡ drop 4 (rest started))
read_lem_example = read_lem 4 four_positive started 4 started-IsValid

read_exact_lem_example :
    ((t : MemReader) × (3 ≤ length (rest started))
      × (read_exact mem_reader started 3 ≡ ok (take 3 (rest started), t))
      × (rest t ≡ drop 3 (rest started))
      × IsValidReader 4 four_positive t)
    ⊎ (length (rest started) < 3) × (read_exact mem_reader started 3 ≡ err unexpected_end_of_data)
read_exact_lem_example =
    read_exact_lem mem_reader (IsValidReader 4 four_positive) rest
      (mem_reader-IsReader 4 four_positive) (mem_reader-NeverFails 4 four_positive) started 3
      started-IsValid

-- A stream that holds a length and a byte behind it, in one block.
abbrev counted : MemReader
counted = record {
  offset = 0;
  iter = record { size = 0; iter = [] };
  last = some (le_bytes 8 258 ++ 7 ∷ []);
}

read_usize-le_bytes_example :
    (t : MemReader) × (read_usize mem_reader counted ≡ ok (258, t))
    × (rest t ≡ 7 ∷ [])
    × IsValidReader 4 four_positive t
unfolding le_bytes
read_usize-le_bytes_example =
    read_usize-le_bytes mem_reader (IsValidReader 4 four_positive) rest
      (mem_reader-IsReader 4 four_positive) (mem_reader-NeverFails 4 four_positive) counted 258
      (7 ∷ [])
      (at_block (le_bytes 8 258 ++ 7 ∷ []) refl (omega arith)
        (record { are_blocks = tt; backed = omega arith }))
      (omega arith) refl
