-- ===== src/Vs/Postprocess/Quoted.antt =====
-- Tokens and paths of vs/postprocess.rs: they move over the input, and put no byte outside of their
-- buffers.
use octobuild.Prelude.{
  ℕ, zero, suc, ◌+◌, ◌<◌, Bool, true, false, [], ◌∷◌, ◌==◌, ◌||◌, if◌then◌else◌, Option, none, some,
  Bytes, ok, ◌≡◌, arith, length, length-append, ltb, lt→ltb,
}
use octobuild.Io.Stream.{Reader, IsReader, Writer, IsWriter}
use octobuild.Vs.Postprocess.Buffer.{Scanner, next, peek}
use octobuild.Vs.Postprocess.Literals.{
  put, slashed, is_too_long, parse_escape, Literal, path_escape, path_byte, path_round, path_loop,
  parse_path,
}
use octobuild.Vs.Postprocess.Moves.{
  Ends, Ends-bind, Ends-mono, Ends-if, Ends-option, size, Moved, Moved-trans, Moved-size, Passes,
  Seen, next-Moved,
}
use octobuild.Vs.Postprocess.Skips.{peek-Moved, next-Seen}

put-length :
    (size_ : ℕ) (b : Bytes) (c : ℕ)
    → length b < size_
    → Ends (λ b'. length b' ≡ length b + 1) (put size_ b c)
put-length size_ b c h =
    Ends-if (λ b'. length b' ≡ length b + 1) (ltb (length b) size_) _ _
      (λ e. length-append b (c ∷ [])) (λ e. cc (e, lt→ltb (length b) size_ h))

-- The lengths with which a round of `parse_path` begins.
pub record Fits (size_ : ℕ) (token raw : Bytes) : Type 0 where
  pub raw_fits : length raw + 2 < size_
  pub token_fits : length token + 1 < size_

is_too_long-Fits :
    (size_ : ℕ) (token raw : Bytes) → is_too_long size_ token raw ≡ false → Fits size_ token raw
is_too_long-Fits size_ token raw e = record { raw_fits = ground arith; token_fits = ground arith }

module _ {R W : Type 0} (keep : Bool) (Valid : R → Type 0) (rest : R → Bytes) (written : W → Bytes)
    (w : Writer W) (wlaws : IsWriter w written) (r : Reader R) (laws : IsReader r Valid rest)
    (buf_size : ℕ) (positive : 0 < buf_size) where
  abbrev Mv : Scanner R W → Scanner R W → Type 0
  Mv = Moved keep Valid rest written

  abbrev left_of : Scanner R W → ℕ
  left_of = size keep Valid rest written

  abbrev Sn : Scanner R W → Option ℕ × Scanner R W → Type 0
  Sn s = Passes keep Valid rest written s (Seen keep Valid rest written)

  peeked : (s : Scanner R W) → Valid s.reader → Ends (Sn s) (peek w keep r buf_size s)
  peeked s v = peek-Moved keep Valid rest written w wlaws r laws buf_size positive s v

  abbrev Any : {A : Type 0} → Scanner R W → A × Scanner R W → Type 0
  Any s = Passes keep Valid rest written s (λ a t. Unit)

  pub Seen-some :
      (s : Scanner R W) (c : Option ℕ) (x : ℕ)
      → c ≡ some x
      → Seen keep Valid rest written c s
      → (cs : Bytes) × (s.ahead ≡ x ∷ cs)
  Seen-some s (some y) x e (cs, h) = (cs, cc)
  Seen-some s none x e h = cc

  -- Behind a step that uses up a byte.
  abbrev Steps : {A : Type 0} → Scanner R W → A × Scanner R W → Type 0
  Steps s = Passes keep Valid rest written s (λ a t. left_of t < left_of s)

  parse_escape-Moved :
      (s : Scanner R W) (c : ℕ) (cs : Bytes)
      → Valid s.reader
      → s.ahead ≡ c ∷ cs
      → Ends (Steps s) (parse_escape w keep r buf_size s)
  unfolding parse_escape
  parse_escape-Moved s c cs v e =
      let (first, less) = next-Moved keep Valid rest written s c cs v e in
      Ends-bind (Sn (next s)) _ _ _ (peeked (next s) first.valid) (λ (x, t) (moved, seen).
        Ends-option _ x _ _ (λ e'. tt)
          (λ c' e'.
            let (onward, less') =
              next-Seen keep Valid rest written w wlaws r laws buf_size positive t x c' moved.valid
                e' seen in
            let shorter = Moved-size keep Valid rest written moved in
            (
              Moved-trans keep Valid rest written first
                  (Moved-trans keep Valid rest written moved onward),
              omega (arith, less, less', shorter),
            )))

  -- Behind a round of `parse_path`.
  abbrev Rounds : ℕ → Scanner R W → Bool × Literal w keep r buf_size → Type 0
  Rounds size_ s (closed, ((token, raw), t)) =
      Mv s t × (left_of t < left_of s) × elim closed [ true ↦ Unit | false ↦ Fits size_ token raw ]

  path_escape-Moved :
      (size_ : ℕ) (token raw : Bytes) (s : Scanner R W) (c : ℕ) (cs : Bytes)
      → Valid s.reader
      → s.ahead ≡ c ∷ cs
      → Fits size_ token raw
      → Ends (Rounds size_ s) (path_escape w keep r buf_size size_ token raw s)
  unfolding path_escape
  path_escape-Moved size_ token raw s c cs v e fits =
      Ends-bind (λ b. length b ≡ length raw + 1) _ _ _
        (put-length size_ raw b'\\' (omega (arith, fits.raw_fits)))
        (λ raw1 h1.
          Ends-bind (λ b. length b ≡ length raw1 + 1) _ _ _
            (put-length size_ raw1 b'\\' (omega (arith, fits.raw_fits, h1)))
            (λ raw2 h2.
              Ends-bind (Steps s) _ _ _ (parse_escape-Moved s c cs v e) (λ (x, t) (moved, less).
                Ends-bind (λ b. length b ≡ length token + 1) _ _ _
                  (put-length size_ token (slashed x) (omega (arith, fits.token_fits)))
                  (λ token1 h3.
                    Ends-if _ (is_too_long size_ token1 raw2) _ _ (λ e'. tt)
                      (λ e'. (moved, less, is_too_long-Fits size_ token1 raw2 e'))))))

  path_byte-Moved :
      (quote size_ : ℕ) (token raw : Bytes) (s : Scanner R W) (c : ℕ) (cs : Bytes)
      → Valid s.reader
      → s.ahead ≡ c ∷ cs
      → Fits size_ token raw
      → Ends (Rounds size_ s) (path_byte w keep r buf_size quote size_ token raw c s)
  unfolding path_byte
  path_byte-Moved quote size_ token raw s c cs v e fits =
      let (moved, less) = next-Moved keep Valid rest written s c cs v e in
      Ends-bind (λ b. length b ≡ length raw + 1) _ _ _
        (put-length size_ raw c (omega (arith, fits.raw_fits)))
        (λ raw1 h1.
          Ends-if (Rounds size_ s) (c == quote) _ _ (λ e'. (moved, less, tt))
            (λ e'.
              Ends-bind (λ b. length b ≡ length token + 1) _ _ _
                (put-length size_ token c (omega (arith, fits.token_fits)))
                (λ token1 h3.
                  Ends-if _ (is_too_long size_ token1 raw1) _ _ (λ e''. tt)
                    (λ e''. (moved, less, is_too_long-Fits size_ token1 raw1 e'')))))

  path_round-Moved :
      (quote size_ : ℕ) (token raw : Bytes) (s : Scanner R W) (c : ℕ) (cs : Bytes)
      → Valid s.reader
      → s.ahead ≡ c ∷ cs
      → Fits size_ token raw
      → Ends (Rounds size_ s) (path_round w keep r buf_size quote size_ token raw c s)
  unfolding path_round
  path_round-Moved quote size_ token raw s c cs v e fits =
      Ends-if _ (c == b'\n' || c == b'\r') _ _ (λ e'. tt)
        (λ e'.
          Ends-if _ (c == b'\\') _ _ (λ e''. path_escape-Moved size_ token raw s c cs v e fits)
            (λ e''. path_byte-Moved quote size_ token raw s c cs v e fits))

  abbrev pub Reads : Scanner R W → Literal w keep r buf_size → Type 0
  Reads s (literal, t) = Mv s t

  path_again :
      (quote size_ fuel : ℕ) (s t : Scanner R W) (a : Bool × Literal w keep r buf_size)
      → Mv s t
      → left_of s < suc fuel
      → Rounds size_ t a
      → (Valid a.1.1.reader
          → left_of a.1.1 < fuel
          → Fits size_ a.1.0.0 a.1.0.1
          → Ends (Reads a.1.1) (path_loop w keep r buf_size quote size_ fuel a.1.0.0 a.1.0.1 a.1.1))
      → Ends (Reads s) (
          if a.0
          then ok a.1
          else path_loop w keep r buf_size quote size_ fuel a.1.0.0 a.1.0.1 a.1.1)
  path_again quote size_ fuel s t (true, ((token, raw), u)) moved h (onward, less, _) again =
      Moved-trans keep Valid rest written moved onward
  path_again quote size_ fuel s t (false, ((token, raw), u)) moved h (onward, less, fits) again =
      let shorter = Moved-size keep Valid rest written moved in
      Ends-mono (Reads u) _ _
        (λ (l, x) m.
          Moved-trans keep Valid rest written (Moved-trans keep Valid rest written moved onward) m)
        (again onward.valid (omega (arith, less, shorter)) fits)

  path_loop-Moved :
      (quote size_ fuel : ℕ) (token raw : Bytes) (s : Scanner R W)
      → Valid s.reader
      → left_of s < fuel
      → Fits size_ token raw
      → Ends (Reads s) (path_loop w keep r buf_size quote size_ fuel token raw s)
  unfolding path_loop
  path_loop-Moved quote size_ zero token raw s v h fits = absurd (omega arith)
  path_loop-Moved quote size_ (suc fuel) token raw s v h fits =
      Ends-bind (Sn s) _ _ _ (peeked s v) (λ (c, t) (moved, seen).
        Ends-option _ c _ _ (λ e. tt)
          (λ c' e.
            let (cs, e') = Seen-some t c c' e seen in
            Ends-bind (Rounds size_ t) _ _ _
              (path_round-Moved quote size_ token raw t c' cs moved.valid e' fits)
              (λ a round. path_again quote size_ fuel s t a moved h round (λ v' h' fits'.
                path_loop-Moved quote size_ fuel a.1.0.0 a.1.0.1 a.1.1 v' h' fits'))))

  pub parse_path-Moved :
      (size_ fuel : ℕ) (s : Scanner R W)
      → Valid s.reader
      → left_of s < fuel
      → 3 < size_
      → Ends (Reads s) (parse_path w keep r buf_size size_ fuel s)
  unfolding parse_path
  parse_path-Moved size_ fuel s v h large =
      Ends-bind (Sn s) _ _ _ (peeked s v) (λ (c, t) (moved, seen).
        Ends-option _ c _ _ (λ e. tt)
          (λ c' e.
            let (onward, less) =
              next-Seen keep Valid rest written w wlaws r laws buf_size positive t c c' moved.valid
                e seen in
            let shorter = Moved-size keep Valid rest written moved in
            Ends-bind (λ b. length b ≡ 0 + 1) _ _ _ (put-length size_ [] c' (omega arith))
              (λ raw h1.
                Ends-mono (Reads (next t)) _ _
                  (λ (l, x) m.
                    Moved-trans keep Valid rest written
                      (Moved-trans keep Valid rest written moved onward) m)
                  (path_loop-Moved c' size_ fuel [] raw (next t) onward.valid
                    (omega (arith, less, shorter))
                    (record { raw_fits = omega (arith, h1); token_fits = omega arith })))))
