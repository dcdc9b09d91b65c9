-- ===== src/Io/Stream.antt =====
-- The interfaces `std::io::Read` and `std::io::Write`, with the documented behaviour that the code
-- relies on. A stream's state is explicit: an operation returns the next state.
use octobuild.Prelude.{ℕ, ◌≤◌, [], ◌++◌, ◌≡◌, ◌⊎◌, Bytes, Result, ok, length}

-- Errors of the source, and `os`, an error of the system or of a foreign library, by number.
pub data IoError : Type 0 where
  -- `InvalidInput`, "Unexpected end of data"
  unexpected_end_of_data : IoError
  -- `BrokenPipe`, "Unexpected end of stream" and "Expected end of stream"
  unexpected_end_of_stream expected_end_of_stream : IoError
  -- `CacheError`
  invalid_header invalid_footer packed_files_mismatch : IoError
  -- `InvalidInput`, "Found cycles in build dependencies"
  build_cycles : IoError
  -- a panic, which no caller of these functions catches
  panic : IoError
  os : ℕ → IoError

-- `read s n` is `read` into a buffer of `n` bytes: the bytes that it puts at the buffer's front.
pub record Reader (S : Type 0) : Type 0 where
  pub read : S → ℕ → Result IoError (Bytes × S)

-- What `read` promises, of a stream in a valid state that has the bytes `rest s` to give: it takes
-- some of them off the front, no more than there is room for, and none only at the end or for no
-- room.
pub record IsReader {S : Type 0} (r : Reader S) (Valid : S → Type 0) (rest : S → Bytes)
    : Type 0 where
  pub keeps : (s : S) (n : ℕ) {b : Bytes} {t : S} → Valid s → r.read s n ≡ ok (b, t) → Valid t
  pub splits :
      (s : S) (n : ℕ) {b : Bytes} {t : S} → Valid s → r.read s n ≡ ok (b, t) → rest s ≡ b ++ rest t
  pub fits : (s : S) (n : ℕ) {b : Bytes} {t : S} → Valid s → r.read s n ≡ ok (b, t) → length b ≤ n
  pub stops : (s : S) (n : ℕ) {t : S} → Valid s → r.read s n ≡ ok ([], t) → (n ≡ 0) ⊎ (rest s ≡ [])

-- A stream of which no read fails.
abbrev pub NeverFails : {S : Type 0} → Reader S → (S → Type 0) → Type 0
NeverFails {S} r Valid =
    (s : S) (n : ℕ) → Valid s → (b : Bytes) × (t : S) × (r.read s n ≡ ok (b, t))

pub record Writer (W : Type 0) : Type 0 where
  pub write_all : W → Bytes → Result IoError W

-- What `write_all` promises, of a stream that holds the bytes `written w`.
pub record IsWriter {W : Type 0} (r : Writer W) (written : W → Bytes) : Type 0 where
  pub appends : (w : W) (b : Bytes) {v : W} → r.write_all w b ≡ ok v → written v ≡ written w ++ b

-- `Vec<u8>`, to which every write succeeds.
abbrev pub vec_writer : Writer Bytes
vec_writer = record { write_all = λ w b. ok (w ++ b) }
