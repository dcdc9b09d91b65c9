-- ===== src/Vs/Postprocess/Whole.antt =====
-- A line of the input in vs/postprocess.rs, as a whole.
use octobuild.Prelude.{
  ℕ, ◌-◌, ◌<◌, ◌≤◌, Bool, [], ◌∷◌, ◌==◌, ==_iff, Option, none, some, Bytes, codes, ◌≡◌, refl, ◌∙◌,
  ap, ◌⊎◌, inl, inr, arith, length,
}
use octobuild.Io.Stream.{Reader, IsReader, Writer, IsWriter}
use octobuild.Vs.Postprocess.Buffer.{Scanner, next, parse_empty, is_empty}
use octobuild.Vs.Postprocess.Directives.{parse_line}
use octobuild.Vs.Postprocess.Moves.{
  Ends, Ends-bind, Ends-mono, Ends-if, Ends-option, size, Moved, Moved-trans, Moved-size, Passes,
  MovedBy, Seen,
}
use octobuild.Vs.Postprocess.Skips.{peek-Moved, next-SeenBy, skip_while-Moved}
use octobuild.Vs.Postprocess.Marks.{Then, IsDirective, IsMark, Marked, Marked-along, Stepped}
use octobuild.Vs.Postprocess.Words.{line_left, parse_directive-Stepped}

module _ {R W : Type 0} (keep : Bool) (Valid : R → Type 0) (rest : R → Bytes) (written : W → Bytes)
    (w : Writer W) (wlaws : IsWriter w written) (r : Reader R) (laws : IsReader r Valid rest)
    (buf_size : ℕ) (positive : 0 < buf_size) (marker : Option Bytes) (fuel : ℕ) where
  abbrev Mv : Scanner R W → Scanner R W → Type 0
  Mv = Moved keep Valid rest written

  abbrev St : (Bytes → Bytes → Type 0) → Scanner R W → Scanner R W → Type 0
  St = Stepped keep Valid rest written

  abbrev left_of : Scanner R W → ℕ
  left_of = size keep Valid rest written

  -- A line is passed, with a byte at least, or the scanner is done.
  abbrev pub Lined : Scanner R W → Scanner R W → Type 0
  Lined s t = (Mv s t × (left_of t < left_of s)) ⊎ Marked keep Valid rest written (IsMark keep) s t

  Lined-behind :
      {s t u v : Scanner R W}
      → Mv s t
      → MovedBy keep Valid rest written (λ x. x ≡ codes "#") t u
      → left_of u < left_of t
      → St (IsDirective keep) u v
      → Lined s v
  Lined-behind a (b, e) less (inl m) =
      let shorter = Moved-size keep Valid rest written a in
      let shorter' = Moved-size keep Valid rest written m in
      inl (
        Moved-trans keep Valid rest written a (Moved-trans keep Valid rest written b m),
        omega (arith, less, shorter, shorter'),
      )
  Lined-behind a (b, e) less (inr m) = inr (
      Marked-along keep Valid rest written
        (λ p marked. Then (λ x. x ≡ codes "#") (λ y. IsDirective keep y marked) p) (IsMark keep) a
        (λ p marked q. (a.passed, p, refl, tt, q))
        (Marked-along keep Valid rest written (IsDirective keep) _ b
          (λ p marked q. (b.passed, p, refl, e, q)) m))

  nothing_left :
      {n : ℕ} (s : Scanner R W) (c : Option ℕ)
      → 0 < n
      → c ≡ none
      → Seen keep Valid rest written c s
      → left_of s < n
  nothing_left s none h e seen = omega (arith, h, ap length seen)
  nothing_left s (some x) h e seen = cc

  pub parse_line-Lined :
      (s : Scanner R W)
      → Valid s.reader
      → left_of s < fuel
      → 0 < left_of s
      → Ends (Lined s) (parse_line w keep r buf_size marker fuel s)
  unfolding parse_line parse_empty
  parse_line-Lined s v h some_ =
      Ends-bind (Mv s) _ _ _
        (skip_while-Moved keep Valid rest written w wlaws r laws buf_size positive is_empty fuel s v
          h)
        (λ s1 m1.
          Ends-bind (Passes keep Valid rest written s1 (Seen keep Valid rest written)) _ _ _
            (peek-Moved keep Valid rest written w wlaws r laws buf_size positive s1 m1.valid)
            (λ (c, s2) (m2, seen).
              let to_here = Moved-trans keep Valid rest written m1 m2 in
              let shorter = Moved-size keep Valid rest written to_here in
              Ends-option _ c _ _ (λ e. inl (to_here, nothing_left s2 c some_ e seen))
                (λ c' e.
                  let ((onward, byte), less) =
                    next-SeenBy keep Valid rest written w wlaws r laws buf_size positive s2 c c'
                      m2.valid e seen in
                  Ends-if _ (c' == b'#') _ _
                    (λ e'.
                      let hash : onward.passed ≡ codes "#" =
                        byte ∙ ap (λ x. x ∷ []) ((==_iff c' b'#').0 e') in
                      Ends-mono (St (IsDirective keep) (next s2)) _ _
                        (λ u m. Lined-behind to_here (onward, hash) less m)
                        (parse_directive-Stepped keep Valid rest written w wlaws r laws buf_size
                          positive marker fuel (next s2) onward.valid
                          (omega (arith, less, shorter))))
                    (λ e'.
                      Ends-mono (λ t. Mv s2 t × (left_of t ≤ left_of s2 - 1)) _ _
                        (λ u (m, fewer). inl (
                          Moved-trans keep Valid rest written to_here m,
                          omega (arith, less, fewer, shorter),
                        ))
                        (line_left keep Valid rest written w wlaws r laws buf_size positive marker
                          fuel s2 m2.valid (omega (arith, shorter)))))))
