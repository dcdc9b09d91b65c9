-- ===== src/Vs/Postprocess/Filter.antt =====
-- vs/postprocess.rs: `filter_preprocessed`. The encodings of the marker are foreign code.
use octobuild.Prelude.{
  ℕ, zero, suc, Bool, true, false, [], ◌∷◌, ◌++◌, ◌==◌, if◌then◌else◌, Option, none, some, Text,
  Bytes, map, Result, ok, err, ◌>>=◌,
}
use octobuild.Io.Stream.{IoError, Reader, Writer}
use octobuild.Vs.Postprocess.Buffer.{
  out_of_fuel, marker_not_found, Scan, lift_io, Scanner, next, peek, read,
}
use octobuild.Vs.Postprocess.Directives.{parse_line}

-- `str::as_bytes` and `local_encoding`.
pub record Encoding : Type 0 where
  pub utf8 : Text → Bytes
  pub ansi : Text → Result IoError Bytes

abbrev pub bom : Bytes
bom = 239 ∷ 187 ∷ 191 ∷ []

abbrev pub with_slashes : Text → Text
with_slashes t = map (λ c. if c == b'\\' then b'/' else c) t

-- The marker in the encoding of the input.
unfoldable pub marker_bytes : Encoding → Bool → Option Text → Scan (Option Bytes)
marker_bytes enc is_utf8 none = ok none
marker_bytes enc is_utf8 (some v) =
    if is_utf8
    then ok (some (enc.utf8 v))
    else (lift_io (enc.ansi (with_slashes v)) >>= λ b. ok (some b))

-- The scanner before the first read.
abbrev pub initial : {R W : Type 0} → R → W → Scanner R W
initial rd v = record {
  gone = [];
  window = [];
  ahead = [];
  reader = rd;
  writer = v;
  header_found = false;
  entry_file = none;
  done = false;
}

module _ {R W : Type 0} (w : Writer W) (keep_headers : Bool) (r : Reader R) (buf_size : ℕ) where
  -- `parse_bom`, for the bytes of the mark that are left; the result is `utf8`.
  unfoldable pub parse_bom : Bytes → Scanner R W → Scan (Bool × Scanner R W)
  unfolding peek
  parse_bom [] s = ok (true, s)
  parse_bom (b ∷ bs) s = do
    (c, t) ← peek w keep_headers r buf_size s
    let rest = parse_bom bs (next t) in
        elim c [ none ↦ ok (false, t) | some c' ↦ if c' == b then rest else ok (false, t) ]

  -- The loop of `copy_to_end`. A round takes a byte off the reader.
  unfoldable pub copy_loop : ℕ → R → W → Scan W
  copy_loop zero rd v = err out_of_fuel
  copy_loop (suc fuel) rd v = do
    (b, rd') ← lift_io (r.read rd buf_size)
    elim b [ [] ↦ ok v | c ∷ cs ↦ do v' ← lift_io (w.write_all v (c ∷ cs)); copy_loop fuel rd' v' ]

  unfoldable pub copy_to_end : ℕ → Scanner R W → Scan W
  unfolding copy_loop
  copy_to_end fuel s = do
    v ← lift_io (w.write_all s.writer (s.window ++ s.ahead))
    copy_loop fuel s.reader v

  -- The test of the loop: whether there is a byte ahead, or more to read.
  abbrev pub has_more : Scanner R W → Scan (Bool × Scanner R W)
  has_more s = elim s.ahead [ [] ↦ read w keep_headers r buf_size s | _ ∷ _ ↦ ok (true, s) ]

  module _ (marker : Option Bytes) where
    -- The loop over lines. The fuel of each call is `limit`, and a round uses up a byte.
    unfoldable pub line_loop : ℕ → ℕ → Scanner R W → Scan W
    unfolding parse_line copy_to_end
    line_loop limit zero s = err out_of_fuel
    line_loop limit (suc fuel) s = do
      (more, t) ← has_more s
      elim more [
        | false ↦ err marker_not_found
        | true ↦ do
          u ← parse_line w keep_headers r buf_size marker limit t
          let rest = line_loop limit fuel u in if u.done then copy_to_end limit u else rest
      ]

  unfoldable pub filter_preprocessed : Encoding → Option Text → ℕ → R → W → Scan W
  unfolding parse_bom marker_bytes line_loop
  filter_preprocessed enc marker fuel rd v = do
    (is_utf8, s) ← parse_bom bom (initial rd v)
    m ← marker_bytes enc is_utf8 marker
    line_loop m fuel fuel s
