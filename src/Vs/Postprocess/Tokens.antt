-- ===== src/Vs/Postprocess/Tokens.antt =====
-- Tokens of vs/postprocess.rs: what `parse_token` returns is what it has passed.
use mathlib.Core.Path.{subst}
use octobuild.Prelude.{
  ℕ, zero, suc, ◌<◌, Bool, [], ◌∷◌, ◌++◌, Bytes, ◌≡◌, sym, ap, ◌∙◌, ◌⊎◌, inl, inr, arith, length,
  length-append, length-replicate, replicate, append_assoc, append-nil, ◌-◌, leb,
}
use octobuild.Io.Stream.{Reader, IsReader, Writer, IsWriter}
use octobuild.Vs.Postprocess.Buffer.{Scanner, next}
use octobuild.Vs.Postprocess.Literals.{is_token_byte, token_loop, parse_token}
use octobuild.Vs.Postprocess.Moves.{
  Ends, Ends-bind, Ends-mono, Ends-if, Ends-option, size, Moved-size, PassesBy, MovedBy-trans, Seen,
}
use octobuild.Vs.Postprocess.Skips.{peek-Still, Still, next-SeenBy, onward-MovedBy}

-- What `parse_token` has read behind `token` into a buffer of `size_` bytes: the bytes that it has
-- passed, and at the end of the input the zeros of the buffer too.
abbrev pub IsToken : ℕ → Bytes → Bytes → Bytes → Type 0
IsToken size_ token a p =
    (a ≡ token ++ p) ⊎ (a ≡ (token ++ p) ++ replicate (size_ - length (token ++ p)) 0)

-- A token that is shorter than the buffer is what is passed.
pub IsToken-short : (size_ : ℕ) (a p : Bytes) → IsToken size_ [] a p → length a < size_ → p ≡ a
IsToken-short size_ a p (inl e) h = sym e
IsToken-short size_ a p (inr e) h = absurd (
    omega (
      arith,
      h,
      ap length e,
      length-append p (replicate (size_ - length p) 0),
      length-replicate {A = ℕ} (size_ - length p) 0,
    ))

module _ {R W : Type 0} (keep : Bool) (Valid : R → Type 0) (rest : R → Bytes) (written : W → Bytes)
    (w : Writer W) (wlaws : IsWriter w written) (r : Reader R) (laws : IsReader r Valid rest)
    (buf_size : ℕ) (positive : 0 < buf_size) where
  abbrev left_of : Scanner R W → ℕ
  left_of = size keep Valid rest written

  -- A round of the loop behind the byte `c`.
  IsToken-behind :
      (size_ c : ℕ) (token a p b : Bytes)
      → p ≡ c ∷ []
      → IsToken size_ (token ++ c ∷ []) a b
      → IsToken size_ token a (p ++ b)
  IsToken-behind size_ c token a p b ep h =
      let same : (token ++ c ∷ []) ++ b ≡ token ++ (p ++ b) =
        append_assoc token (c ∷ []) b ∙ ap (λ x. token ++ (x ++ b)) (sym ep) in
      subst (λ x. (a ≡ x) ⊎ (a ≡ x ++ replicate (size_ - length x) 0)) same h

  token_loop-MovedBy :
      (size_ fuel : ℕ) (token : Bytes) (s : Scanner R W)
      → Valid s.reader
      → left_of s < fuel
      → Ends
          (PassesBy keep Valid rest written s (IsToken size_ token))
          (token_loop w keep r buf_size size_ fuel token s)
  unfolding token_loop
  token_loop-MovedBy size_ zero token s v h = absurd (omega arith)
  token_loop-MovedBy size_ (suc fuel) token s v h =
      Ends-bind
        (Still keep Valid rest written w wlaws r laws buf_size positive s
          (Seen keep Valid rest written))
        _ _ _ (peek-Still keep Valid rest written w wlaws r laws buf_size positive s v)
        (λ (c, t) (still, seen).
          let bare : token ++ still.0.passed ≡ token =
            ap (λ x. token ++ x) still.1 ∙ append-nil token in
          Ends-option _ c _ _
            (λ e. (still.0, inr (ap (λ x. x ++ replicate (size_ - length x) 0) (sym bare))))
            (λ c' e.
              let (byte, less) =
                next-SeenBy keep Valid rest written w wlaws r laws buf_size positive t c c'
                  still.0.valid e seen in
              let shorter = Moved-size keep Valid rest written still.0 in
              Ends-if _ (is_token_byte c') _ _
                (λ e'.
                  Ends-if _ (leb size_ (length token)) _ _ (λ e''. tt)
                    (λ e''.
                      Ends-mono
                        (PassesBy keep Valid rest written (next t)
                          (IsToken size_ (token ++ c' ∷ [])))
                        _ _
                        (λ (a, u) m.
                          MovedBy-trans keep Valid rest written (λ x. x ≡ c' ∷ [])
                            (IsToken size_ (token ++ c' ∷ []) a) (IsToken size_ token a)
                            (λ p b. IsToken-behind size_ c' token a p b)
                            (onward-MovedBy keep Valid rest written w wlaws r laws buf_size positive
                              c' still byte)
                            m)
                        (token_loop-MovedBy size_ fuel (token ++ c' ∷ []) (next t) byte.0.valid
                          (omega (arith, less, shorter)))))
                (λ e'. (still.0, inl (sym bare)))))

  pub parse_token-MovedBy :
      (size_ fuel : ℕ) (s : Scanner R W)
      → Valid s.reader
      → left_of s < fuel
      → Ends
          (PassesBy keep Valid rest written s (IsToken size_ []))
          (parse_token w keep r buf_size size_ fuel s)
  unfolding parse_token
  parse_token-MovedBy size_ fuel s v h = token_loop-MovedBy size_ fuel [] s v h
