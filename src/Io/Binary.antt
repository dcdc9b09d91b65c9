-- ===== src/Io/Binary.antt =====
-- io/binary.rs: reading and writing of fixed-size records over any stream.
pub mod Words
pub mod Reading
use octobuild.Prelude.{
  ℕ, zero, suc, ◌+◌, ◌-◌, ◌*◌, ◌/◌, ◌%◌, ◌^◌, Bool, true, false, List, [], ◌∷◌, ◌++◌, ◌==◌,
  if◌then◌else◌, Bytes, Result, ok, err, ◌>>=◌, length,
}
use octobuild.Io.Stream.{IoError, unexpected_end_of_data, Reader, Writer}

-- The bytes of an integer in memory order, on a little-endian machine; of a `u64` eight.
unfoldable pub le_bytes : ℕ → ℕ → Bytes
le_bytes zero i = []
le_bytes (suc n) i = (i % 256) ∷ le_bytes n (i / 256)

unfoldable pub from_le_bytes : Bytes → ℕ
from_le_bytes [] = 0
from_le_bytes (b ∷ bs) = b + 256 * from_le_bytes bs

module _ {S : Type 0} (r : Reader S) where
  -- The loop of `read_array`: `need` is `buf.len() - pos`, and the bytes returned fill the buffer
  -- from `pos` on. A round takes a byte at least, so `need` is enough fuel.
  unfoldable pub read_loop : ℕ → S → ℕ → Result IoError (Bytes × S)
  read_loop zero s need = ok ([], s)
  read_loop (suc fuel) s need = elim (need == 0) [
    | true ↦ ok ([], s)
    | false ↦ do
      (chunk, t) ← r.read s need
      elim chunk [
        | [] ↦ err unexpected_end_of_data
        | c ∷ cs ↦ do
          (more, u) ← read_loop fuel t (need - length (c ∷ cs))
          ok ((c ∷ cs) ++ more, u)
      ]
  ]

  unfoldable pub read_array : S → ℕ → Result IoError (Bytes × S)
  unfolding read_loop
  read_array s n = read_loop n s n

  unfoldable pub read_exact : S → ℕ → Result IoError (Bytes × S)
  unfolding read_array
  read_exact s len = read_array s len

  unfoldable pub read_byte : S → Result IoError (ℕ × S)
  read_byte s = do
    (chunk, t) ← r.read s 1
    elim chunk [ [] ↦ err unexpected_end_of_data | c ∷ _ ↦ ok (c, t) ]

  unfoldable pub read_u8 : S → Result IoError (ℕ × S)
  unfolding read_byte
  read_u8 s = read_byte s

  unfoldable pub read_u64 : S → Result IoError (ℕ × S)
  unfolding read_array
  read_u64 s = do (buf, t) ← read_array s 8; ok (from_le_bytes buf, t)

  -- `usize` has 64 bits.
  unfoldable pub read_usize : S → Result IoError (ℕ × S)
  unfolding read_u64
  read_usize s = do (i, t) ← read_u64 s; ok (i % 2 ^ 64, t)

module _ {W : Type 0} (r : Writer W) where
  unfoldable pub write_u8 : W → ℕ → Result IoError W
  write_u8 w n = r.write_all w (n ∷ [])

  unfoldable pub write_u64 : W → ℕ → Result IoError W
  write_u64 w i = r.write_all w (le_bytes 8 i)

  unfoldable pub write_usize : W → ℕ → Result IoError W
  unfolding write_u64
  write_usize w i = write_u64 w (i % 2 ^ 64)
