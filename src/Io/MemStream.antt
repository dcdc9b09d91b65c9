-- ===== src/Io/MemStream.antt =====
-- io/memstream.rs: a growing buffer in blocks of one size. The size of a block is a parameter here,
-- `block_size_bytes` in the source; a new block holds what its memory held, the parameter `uninit`.
-- `none` is a panic, by an `unwrap` of `None`, an index out of range or an assertion that fails, and
-- also the end of the fuel of a loop.
pub mod Contents
pub mod Slices
pub mod Write
pub mod Copy
pub mod Read
use octobuild.Prelude.{
  ℕ, zero, suc, ◌+◌, ◌-◌, ◌*◌, ◌%◌, min, Bool, true, false, List, [], ◌∷◌, ◌++◌, ◌==◌,
  if◌then◌else◌, Bytes, Option, none, some, length, take, drop, ltb, leb, ◌&&◌, Result, ok, err,
  ◌>>=◌,
}
use octobuild.Io.Stream.{IoError, panic, Reader, Writer, vec_writer}
use mathlib.Core.Option

-- The source's `BLOCK_SIZE`.
abbrev pub block_size_bytes : ℕ
block_size_bytes = 0x10000 - 0x100

pub record MemStream : Type 0 where
  pub size : ℕ
  pub blocks : List Bytes

abbrev pub new : MemStream
new = record { size = 0; blocks = [] }

abbrev pub len : MemStream → ℕ
len s = s.size

abbrev pub is_empty : MemStream → Bool
is_empty s = s.size == 0

-- The length of `a..b` of something of `n` bytes.
abbrev pub slice_len : ℕ → ℕ → ℕ → Option ℕ
slice_len a b n = if leb a b && leb b n then some (b - a) else none

-- `xs[a..b]`.
abbrev pub slice : ℕ → ℕ → Bytes → Option Bytes
slice a b xs = Option.map (λ n. take n (drop a xs)) (slice_len a b (length xs))

-- `memcpy` of `src` to a slice of `dst_len` bytes, with what the slice then holds: the assertion, and
-- the indices 0 of both.
abbrev pub memcpy : Bytes → ℕ → Option Bytes
memcpy src dst_len =
    if length src == dst_len && ltb 0 (length src) && ltb 0 dst_len then some src else none

-- A block with `src` from `offset` on.
abbrev pub put : Bytes → ℕ → Bytes → Bytes
put block offset src = take offset block ++ (src ++ drop (offset + length src) block)

abbrev pub memcpy_slices : Option Bytes → Option ℕ → Option Bytes
memcpy_slices none dst_len = none
memcpy_slices (some src) none = none
memcpy_slices (some src) (some dst_len) = memcpy src dst_len

-- The call of `memcpy` in `write_data`, with the block behind it.
unfoldable pub write_slice : Bytes → ℕ → ℕ → ℕ → Bytes → Option Bytes
write_slice buf src_offset dst_offset copy_size block = Option.map (put block dst_offset) (
    memcpy_slices (slice src_offset (src_offset + copy_size) buf)
      (slice_len dst_offset (dst_offset + copy_size) (length block)))

-- A change of the last block, `back_mut().unwrap()`.
unfoldable pub update_back : (Bytes → Option Bytes) → List Bytes → Option (List Bytes)
update_back f [] = none
update_back f (b ∷ []) = Option.map (λ b'. b' ∷ []) (f b)
update_back f (b ∷ c ∷ bs) = Option.map (◌∷◌ b) (update_back f (c ∷ bs))

module _ (block_size : ℕ) (uninit : Bytes) where
  -- One round of the loop of `write_data`, at `src_offset`, with the next `src_offset`.
  unfoldable pub write_round : Bytes → MemStream → ℕ → Option (MemStream × ℕ)
  unfolding write_slice
  write_round buf s src_offset =
      let dst_offset = s.size % block_size in
      let blocks = if dst_offset == 0 then s.blocks ++ uninit ∷ [] else s.blocks in
      let copy_size = min (length buf - src_offset) (block_size - dst_offset) in
      Option.map (λ bs. (record { size = s.size + copy_size; blocks = bs }, src_offset + copy_size))
        (update_back (write_slice buf src_offset dst_offset copy_size) blocks)

  -- The loop; a round copies a byte at least, so that a round for each byte and one more are enough.
  unfoldable pub write_loop : ℕ → Bytes → MemStream → ℕ → Option (MemStream × ℕ)
  write_loop zero buf s src_offset = none
  write_loop (suc fuel) buf s src_offset = elim (ltb src_offset (length buf)) [
    | false ↦ some (s, src_offset)
    | true ↦ elim (write_round buf s src_offset) [
      | none ↦ none
      | some (t, next) ↦ write_loop fuel buf t next
    ]
  ]

  -- `write_data`, and `write` of the trait.
  unfoldable pub write_data : MemStream → Bytes → Option (MemStream × ℕ)
  unfolding write_loop
  write_data s buf = write_loop (suc (length buf)) buf s 0

  -- `From<Vec<u8>>` and `From<&[u8]>`.
  unfoldable pub from_bytes : Bytes → Option MemStream
  unfolding write_data
  from_bytes buf = Option.map (λ r. r.0) (write_data new buf)

pub record Iter : Type 0 where
  pub size : ℕ
  pub iter : List Bytes

abbrev pub iter_of : MemStream → Iter
iter_of s = record { size = s.size; iter = s.blocks }

-- `next` of the iterator: the inner `none` is its end.
unfoldable pub next : Iter → Option (Option (Bytes × Iter))
next it =
    if ltb 0 it.size
    then elim it.iter [
      | [] ↦ none
      | block ∷ blocks ↦
          let size = min it.size (length block) in
          Option.map (λ b. some (b, record { size = it.size - size; iter = blocks }))
            (slice 0 size block)
    ]
    else some none

module _ {W : Type 0} (r : Writer W) where
  -- `for block in self.iter() { writer.write_all(block)?; }`. A round uses up a block.
  unfoldable pub copy_loop : ℕ → Iter → W → Option (Result IoError W)
  copy_loop zero it w = none
  copy_loop (suc fuel) it w = elim (next it) [
    | none ↦ none
    | some none ↦ some (ok w)
    | some (some (block, it')) ↦ elim (r.write_all w block) [
      | err e ↦ some (err e)
      | ok v ↦ copy_loop fuel it' v
    ]
  ]

  -- `copy`, with the number of bytes that it returns.
  unfoldable pub copy : MemStream → W → Option (Result IoError (ℕ × W))
  unfolding copy_loop next
  copy s w =
      Option.map (λ m. m >>= λ v. ok (s.size, v)) (copy_loop (suc (length s.blocks)) (iter_of s) w)

-- `Into<Vec<u8>>`.
unfoldable pub into_vec : MemStream → Option Bytes
into_vec s = elim (copy vec_writer s []) [ some (ok (_, buffer)) ↦ some buffer | _ ↦ none ]

pub record MemReader : Type 0 where
  pub offset : ℕ
  pub iter : Iter
  pub last : Option Bytes

-- `reader`.
unfoldable pub reader : MemStream → Option MemReader
unfolding next
reader s = elim (next (iter_of s)) [
  | none ↦ none
  | some none ↦ some (record { offset = 0; iter = iter_of s; last = none })
  | some (some (block, it)) ↦ some (record { offset = 0; iter = it; last = some block })
]

-- `continue` behind `self.last = self.iter.next()`: the reader of the next block.
unfoldable pub next_block : MemReader → Option MemReader
unfolding next
next_block r = elim (next r.iter) [
  | none ↦ none
  | some none ↦ some (record r { offset = 0; last = none })
  | some (some (block, it)) ↦ some (record { offset = 0; iter = it; last = some block })
]

-- The call of `memcpy` in `read`; `need` is the length of the buffer from `dst_offset` on.
unfoldable pub read_slice : Bytes → ℕ → ℕ → ℕ → Option Bytes
read_slice block offset copy_size need =
    memcpy_slices (slice offset (offset + copy_size) block) (slice_len 0 copy_size need)

abbrev pub before : Option Bytes → Option (Bytes × MemReader) → Option (Bytes × MemReader)
before none rest = none
before (some part) rest = Option.map (λ m. (part ++ m.0, m.1)) rest

-- The loop of `read`: `need` is `buf.len() - dst_offset`, and the bytes returned fill the buffer
-- from `dst_offset` on.
unfoldable pub read_loop : ℕ → MemReader → ℕ → Option (Bytes × MemReader)
unfolding read_slice
read_loop zero r need = none
read_loop (suc fuel) r need = elim (ltb 0 need) [
  | false ↦ some ([], r)
  | true ↦ elim r.last [
    | none ↦ some ([], r)
    | some block ↦ elim (r.offset == length block) [
      | true ↦ elim (next_block r) [ none ↦ none | some r' ↦ read_loop fuel r' need ]
      | false ↦
          let copy_size = min need (length block - r.offset) in
          before (read_slice block r.offset copy_size need)
            (read_loop fuel (record r { offset = r.offset + copy_size }) (need - copy_size))
    ]
  ]
]

-- A round reads a byte at least or leaves a block, or is the last.
abbrev pub read_fuel : MemReader → ℕ → ℕ
read_fuel r n = n + suc (suc (length r.iter.iter))

unfoldable pub read : MemReader → ℕ → Option (Bytes × MemReader)
unfolding read_loop next_block
read r n = read_loop (read_fuel r n) r n

-- The implementation of `Read`.
unfoldable pub mem_reader : Reader MemReader
unfolding read
mem_reader = record { read = λ r n. elim (read r n) [ none ↦ err panic | some m ↦ ok m ] }
