-- ===== src/Vs/Postprocess/Literals.antt =====
-- vs/postprocess.rs: tokens, escapes and paths. A buffer for a literal is the bytes put into it, and
-- a byte that does not fit is the panic of the index.
use octobuild.Prelude.{
  ℕ, zero, suc, ◌-◌, Bool, true, false, [], ◌∷◌, ◌++◌, ◌==◌, ◌||◌, ◌&&◌, ltb, leb, if◌then◌else◌,
  none, some, Bytes, ok, err, ◌>>=◌, length, replicate,
}
use octobuild.Io.Stream.{Reader, Writer}
use octobuild.Vs.Postprocess.Buffer.{
  token_too_long, escape_eof, literal_eol, literal_eof, literal_too_long, unwrap_none,
  index_out_of_bounds, out_of_fuel, Scan, Scanner, next, peek,
}

abbrev pub is_token_byte : ℕ → Bool
is_token_byte c =
    (leb b'a' c && leb c b'z')
    || ((leb b'A' c && leb c b'Z') || ((leb b'0' c && leb c b'9') || c == b'_'))

-- `buf[buf_len] = c`, in a buffer of `size` bytes.
abbrev pub put : ℕ → Bytes → ℕ → Scan Bytes
put size b c = if ltb (length b) size then ok (b ++ c ∷ []) else err index_out_of_bounds

-- The byte that stands in a path for an escaped one.
abbrev pub unescaped : ℕ → ℕ
unescaped c =
    if c == b'n' then b'\n' else if c == b'r' then b'\r' else if c == b't' then b'\t' else c

abbrev pub slashed : ℕ → ℕ
slashed c = if c == b'\\' then b'/' else c

-- The check at the end of a round of `parse_path`.
abbrev pub is_too_long : ℕ → Bytes → Bytes → Bool
is_too_long size token raw = leb (size - 2) (length raw) || leb (size - 1) (length token)

module _ {R W : Type 0} (w : Writer W) (keep_headers : Bool) (r : Reader R) (buf_size : ℕ) where
  -- `parse_token` into a buffer of `size` zeros, which the end of the stream returns whole.
  unfoldable pub token_loop : ℕ → ℕ → Bytes → Scanner R W → Scan (Bytes × Scanner R W)
  unfolding peek
  token_loop size zero token s = err out_of_fuel
  token_loop size (suc fuel) token s = do
    (c, t) ← peek w keep_headers r buf_size s
    elim c [
      | none ↦ ok (token ++ replicate (size - length token) 0, t)
      | some c' ↦
          let rest = token_loop size fuel (token ++ c' ∷ []) (next t) in
          if is_token_byte c'
          then if leb size (length token) then err token_too_long else rest
          else ok (token, t)
    ]

  unfoldable pub parse_token : ℕ → ℕ → Scanner R W → Scan (Bytes × Scanner R W)
  unfolding token_loop
  parse_token size fuel s = token_loop size fuel [] s

  -- The scanner stands at the backslash.
  unfoldable pub parse_escape : Scanner R W → Scan (ℕ × Scanner R W)
  unfolding peek
  parse_escape s = do
    (c, t) ← peek w keep_headers r buf_size (next s)
    elim c [ none ↦ err escape_eof | some c' ↦ ok (unescaped c', next t) ]

  abbrev pub Literal : Type 0
  Literal = (Bytes × Bytes) × Scanner R W

  -- The round of `parse_path` at a backslash; no round but that of the quote ends the loop.
  unfoldable pub path_escape : ℕ → Bytes → Bytes → Scanner R W → Scan (Bool × Literal)
  unfolding parse_escape
  path_escape size token raw s = do
    raw1 ← put size raw b'\\'
    raw2 ← put size raw1 b'\\'
    (c, t) ← parse_escape s
    token1 ← put size token (slashed c)
    if is_too_long size token1 raw2 then err literal_too_long else ok (false, ((token1, raw2), t))

  -- The end of the round at another byte.
  abbrev pub path_put : ℕ → Bytes → Bytes → ℕ → Scanner R W → Scan (Bool × Literal)
  path_put size token raw1 c s = do
    token1 ← put size token c
    if is_too_long size token1 raw1
        then err literal_too_long
        else ok (false, ((token1, raw1), next s))

  -- The round at another byte, which may be the quote.
  unfoldable pub path_byte : ℕ → ℕ → Bytes → Bytes → ℕ → Scanner R W → Scan (Bool × Literal)
  path_byte quote size token raw c s = do
    raw1 ← put size raw c
    if c == quote then ok (true, ((token, raw1), next s)) else path_put size token raw1 c s

  unfoldable pub path_round : ℕ → ℕ → Bytes → Bytes → ℕ → Scanner R W → Scan (Bool × Literal)
  unfolding path_escape path_byte
  path_round quote size token raw c s =
      if c == b'\n' || c == b'\r'
      then err literal_eol
      else if c == b'\\'
      then path_escape size token raw s
      else path_byte quote size token raw c s

  -- The loop of `parse_path`, with both buffers of `size` bytes.
  unfoldable pub path_loop : ℕ → ℕ → ℕ → Bytes → Bytes → Scanner R W → Scan Literal
  unfolding peek path_round
  path_loop quote size zero token raw s = err out_of_fuel
  path_loop quote size (suc fuel) token raw s = do
    (c, t) ← peek w keep_headers r buf_size s
    elim c [
      | none ↦ err literal_eof
      | some c' ↦ do
        (closed, literal) ← path_round quote size token raw c' t
        let again = path_loop quote size fuel literal.0.0 literal.0.1 literal.1 in
            if closed then ok literal else again
    ]

  unfoldable pub parse_path : ℕ → ℕ → Scanner R W → Scan Literal
  unfolding peek path_loop
  parse_path size fuel s = do
    (c, t) ← peek w keep_headers r buf_size s
    elim c [
      | none ↦ err unwrap_none
      | some quote ↦ do raw ← put size [] quote; path_loop quote size fuel [] raw (next t)
    ]
