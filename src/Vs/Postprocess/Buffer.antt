-- ===== src/Vs/Postprocess/Buffer.antt =====
-- vs/postprocess.rs: the scanner and its buffer. The part of the buffer that a read has filled is cut
-- at the pointers: `gone` is before `ptr_copy`, `window` before `ptr_read`, and `ahead` before
-- `ptr_end`. The fields that do not change are parameters.
use octobuild.Prelude.{
  ℕ, zero, suc, Bool, true, false, [], ◌∷◌, ◌++◌, ◌==◌, ◌||◌, if◌then◌else◌, Option, none, some,
  Bytes, Result, ok, err, ◌>>=◌,
}
use octobuild.Io.Stream.{IoError, Reader, Writer}

-- `PostprocessError`, the errors of the streams, and two panics.
pub data ScanError : Type 0 where
  literal_eol literal_eof literal_too_long escape_eof marker_not_found token_too_long : ScanError
  io : IoError → ScanError
  unwrap_none index_out_of_bounds : ScanError
  -- of the model, for a loop that has used up its fuel
  out_of_fuel : ScanError

abbrev pub Scan : Type 0 → Type 0
Scan A = Result ScanError A

abbrev pub lift_io : {A : Type 0} → Result IoError A → Scan A
lift_io (ok a) = ok a
lift_io (err e) = err (io e)

-- `ScannerState`.
pub record Scanner (R W : Type 0) : Type 0 where
  pub gone : Bytes
  pub window : Bytes
  pub ahead : Bytes
  pub reader : R
  pub writer : W
  pub header_found : Bool
  pub entry_file : Option Bytes
  pub done : Bool

abbrev pub is_space : ℕ → Bool
is_space c = c == b' ' || (c == b'\t' || c == 12)

abbrev pub is_empty : ℕ → Bool
is_empty c = is_space c || (c == b'\n' || c == b'\r')

abbrev pub behind : ℕ → Option (Bytes × Bytes) → Option (Bytes × Bytes)
behind c none = none
behind c (some (a, b)) = some (c ∷ a, b)

-- `memchr` of a newline, from `ptr_read`: what is before the newline, and behind it.
unfoldable pub find_newline : Bytes → Option (Bytes × Bytes)
find_newline [] = none
find_newline (c ∷ cs) = if c == b'\n' then some ([], cs) else behind c (find_newline cs)

abbrev pub newline : Bytes
newline = b'\n' ∷ []

-- The last byte of what is in the buffer before a place, if anything is.
abbrev pub last_or : ℕ → Bytes → ℕ
last_or d [] = d
last_or d (c ∷ cs) = last_or c cs

abbrev pub first_of : Bytes → Option ℕ
first_of [] = none
first_of (c ∷ cs) = some c

module _ {R W : Type 0} where
  -- `ptr_read` moved over `b`, with `left` behind it.
  abbrev pub move : Bytes → Bytes → Scanner R W → Scanner R W
  move b left s = record s { window = s.window ++ b; ahead = left }

  -- The buffer filled with `b`, and whether that is anything.
  abbrev pub filled : Bytes → R → Scanner R W → Bool × Scanner R W
  filled b rd t = (
    elim b [ [] ↦ false | _ ∷ _ ↦ true ],
    record t { gone = []; window = []; ahead = b; reader = rd },
  )

  -- What `peek` sees: the byte at `ptr_read`.
  abbrev pub front : Scanner R W → Option ℕ
  front s = first_of s.ahead

  -- `next`, which is called with a byte ahead.
  abbrev pub next_of : Bytes → Scanner R W → Scanner R W
  next_of [] s = s
  next_of (c ∷ cs) s = move (c ∷ []) cs s

  abbrev pub next : Scanner R W → Scanner R W
  next s = next_of s.ahead s

  module _ (w : Writer W) (keep_headers : Bool) where
    -- `flush`, by what stands between `ptr_copy` and `ptr_read`.
    abbrev pub flush_of : Bytes → Scanner R W → Scan (Scanner R W)
    flush_of [] s = ok s
    flush_of (c ∷ cs) s = do
      v ← if keep_headers then lift_io (w.write_all s.writer (c ∷ cs)) else ok s.writer
      ok (record s { gone = s.gone ++ (c ∷ cs); window = []; writer = v })

    unfoldable pub flush : Scanner R W → Scan (Scanner R W)
    flush s = flush_of s.window s

    unfoldable pub write : Bytes → Scanner R W → Scan (Scanner R W)
    unfolding flush
    write text s = do
      t ← flush s
      v ← lift_io (w.write_all t.writer text)
      ok (record t { writer = v })

    module _ (r : Reader R) (buf_size : ℕ) where
      -- `read`, and whether there is more. The buffer is behind `ptr_read` when it is called.
      unfoldable pub read : Scanner R W → Scan (Bool × Scanner R W)
      unfolding flush
      read s = do t ← flush s; (b, rd) ← lift_io (r.read t.reader buf_size); ok (filled b rd t)

      abbrev pub peek_of : Bytes → Scanner R W → Scan (Option ℕ × Scanner R W)
      unfolding read
      peek_of (c ∷ cs) s = ok (some c, s)
      peek_of [] s = do (more, t) ← read s; ok (front t, t)

      unfoldable pub peek : Scanner R W → Scan (Option ℕ × Scanner R W)
      unfolding peek_of
      peek s = peek_of s.ahead s

      -- The loops of `parse_spaces` and `parse_empty`: bytes that pass the test are skipped. The test
      -- for an empty buffer and `read` are those of `peek`. A round uses up a byte.
      unfoldable pub skip_while : (ℕ → Bool) → ℕ → Scanner R W → Scan (Scanner R W)
      unfolding peek
      skip_while test zero s = err out_of_fuel
      skip_while test (suc fuel) s = do
        (c, t) ← peek s
        let rest = skip_while test fuel (next t) in
            elim c [ none ↦ ok t | some c' ↦ if test c' then rest else ok t ]

      unfoldable pub parse_spaces : ℕ → Scanner R W → Scan (Scanner R W)
      unfolding skip_while
      parse_spaces fuel s = skip_while is_space fuel s

      unfoldable pub parse_empty : ℕ → Scanner R W → Scan (Scanner R W)
      unfolding skip_while
      parse_empty fuel s = skip_while is_empty fuel s

      unfoldable pub next_line : ℕ → Scanner R W → Scan (Scanner R W)
      unfolding find_newline read
      next_line zero s = err out_of_fuel
      next_line (suc fuel) s = elim (find_newline s.ahead) [
        | some (line, left) ↦ ok (move (line ++ newline) left s)
        | none ↦ do
          (more, t) ← read (move s.ahead [] s)
          let rest = next_line fuel t in if more then rest else ok t
      ]

      -- The loop of `next_line_eol`, and the end of the line that it returns. The byte before the
      -- newline may be the last of the buffer before.
      unfoldable pub eol_loop : ℕ → ℕ → Scanner R W → Scan (Bytes × Scanner R W)
      unfolding find_newline read
      eol_loop zero last s = err out_of_fuel
      eol_loop (suc fuel) last s = elim (find_newline s.ahead) [
        | some (line, left) ↦
            let before = last_or last (s.gone ++ (s.window ++ line)) in
            ok (
              (if before == b'\r' then b'\r' ∷ b'\n' ∷ [] else newline),
              move (line ++ newline) left s,
            )
        | none ↦ do
          (more, t) ← read (move s.ahead [] s)
          let rest = eol_loop fuel (last_or 0 (s.gone ++ (s.window ++ s.ahead))) t in
              if more then rest else ok ([], t)
      ]

      unfoldable pub next_line_eol : ℕ → Scanner R W → Scan (Bytes × Scanner R W)
      unfolding eol_loop
      next_line_eol fuel s = eol_loop fuel 0 s
