-- ===== src/Vs/Postprocess/Words.antt =====
-- A directive of the input in vs/postprocess.rs: the words that are read, and what is done for them.
use mathlib.Core.Path.{subst}
use octobuild.Prelude.{
  ℕ, ◌-◌, ◌<◌, ◌≤◌, Bool, true, [], ◌++◌, Option, Bytes, codes, text_eq, text_eq_iff, ◌>>=◌, ◌≡◌,
  refl, sym, ◌∙◌, ◌⊎◌, inl, inr, arith, length,
}
use octobuild.Io.Stream.{Reader, IsReader, Writer, IsWriter}
use octobuild.Vs.Postprocess.Buffer.{Scan, Scanner, parse_spaces, next_line, is_space}
use octobuild.Vs.Postprocess.Literals.{parse_token}
use octobuild.Vs.Postprocess.Directives.{
  parse_directive_line, parse_directive_pragma, parse_directive,
}
use octobuild.Vs.Postprocess.Moves.{
  Ends, Ends-bind, Ends-mono, Ends-if, size, Moved, Moved-size, PassesBy, MovedBy,
}
use octobuild.Vs.Postprocess.Skips.{Only, skip_while-MovedBy}
use octobuild.Vs.Postprocess.Lines.{IsEol, next_line-Moved, next_line_eol-Moved}
use octobuild.Vs.Postprocess.Quoted.{parse_path-Moved, Reads}
use octobuild.Vs.Postprocess.Marks.{
  Then, IsStop, IsBefore, IsHdrstop, IsLine, IsDirective, at_stop, at_line, AtStop, Marked,
  Marked-with, Stepped, Stepped-with, Stepped-along, found_line-Stepped, found_hdrstop-Marked,
}
use octobuild.Vs.Postprocess.Tokens.{IsToken, IsToken-short, parse_token-MovedBy}

module _ {R W : Type 0} (keep : Bool) (Valid : R → Type 0) (rest : R → Bytes) (written : W → Bytes)
    (w : Writer W) (wlaws : IsWriter w written) (r : Reader R) (laws : IsReader r Valid rest)
    (buf_size : ℕ) (positive : 0 < buf_size) (marker : Option Bytes) (fuel : ℕ) where
  abbrev Mv : Scanner R W → Scanner R W → Type 0
  Mv = Moved keep Valid rest written

  abbrev St : (Bytes → Bytes → Type 0) → Scanner R W → Scanner R W → Type 0
  St = Stepped keep Valid rest written

  abbrev left_of : Scanner R W → ℕ
  left_of = size keep Valid rest written

  -- A move over bytes of which `E` holds, and what is done behind it with no more fuel.
  after :
      (E : Bytes → Type 0) (Q Q' : Bytes → Bytes → Type 0) (s : Scanner R W)
      (m : Scan (Scanner R W)) (f : Scanner R W → Scan (Scanner R W))
      → ((a p marked : Bytes) → E a → Q p marked → Q' (a ++ p) marked)
      → left_of s < fuel
      → Ends (MovedBy keep Valid rest written E s) m
      → ((t : Scanner R W) → Valid t.reader → left_of t < fuel → Ends (St Q t) (f t))
      → Ends (St Q' s) (m >>= f)
  after E Q Q' s m f joins h moves next_ =
      Ends-bind (MovedBy keep Valid rest written E s) _ _ _ moves (λ t (moved, e).
        let shorter = Moved-size keep Valid rest written moved in
        Ends-mono (St Q t) _ _
          (λ u b.
            Stepped-along keep Valid rest written Q Q' moved
              (λ p marked q. joins moved.passed p marked e q) b)
          (next_ t moved.valid (omega (arith, shorter))))

  -- The same, of an operation that returns more.
  after_read :
      {A : Type 0} (E : A → Bytes → Type 0) (Q : A → Bytes → Bytes → Type 0)
      (Q' : Bytes → Bytes → Type 0) (s : Scanner R W) (m : Scan (A × Scanner R W))
      (f : A × Scanner R W → Scan (Scanner R W))
      → ((x : A) (a p marked : Bytes) → E x a → Q x p marked → Q' (a ++ p) marked)
      → left_of s < fuel
      → Ends (PassesBy keep Valid rest written s E) m
      → ((x : A) (t : Scanner R W) (a : Bytes)
          → Valid t.reader
          → left_of t < fuel
          → E x a
          → Ends (St (Q x) t) (f (x, t)))
      → Ends (St Q' s) (m >>= f)
  after_read E Q Q' s m f joins h moves next_ =
      Ends-bind (PassesBy keep Valid rest written s E) _ _ _ moves (λ (x, t) (moved, e).
        let shorter = Moved-size keep Valid rest written moved in
        Ends-mono (St (Q x) t) _ _
          (λ u b.
            Stepped-along keep Valid rest written (Q x) Q' moved
              (λ p marked q. joins x moved.passed p marked e q) b)
          (next_ x t moved.passed moved.valid (omega (arith, shorter)) e))

  spaces :
      (s : Scanner R W)
      → Valid s.reader
      → left_of s < fuel
      → Ends
          (MovedBy keep Valid rest written (Only is_space) s)
          (parse_spaces w keep r buf_size fuel s)
  unfolding parse_spaces
  spaces s v h =
      skip_while-MovedBy keep Valid rest written w wlaws r laws buf_size positive is_space fuel s v
        h

  token :
      (size_ : ℕ) (s : Scanner R W)
      → Valid s.reader
      → left_of s < fuel
      → Ends
          (PassesBy keep Valid rest written s (IsToken size_ []))
          (parse_token w keep r buf_size size_ fuel s)
  token size_ s v h =
      parse_token-MovedBy keep Valid rest written w wlaws r laws buf_size positive size_ fuel s v h

  pub line_left :
      (s : Scanner R W)
      → Valid s.reader
      → left_of s < fuel
      → Ends (λ t. Mv s t × (left_of t ≤ left_of s - 1)) (next_line w keep r buf_size fuel s)
  line_left s v h =
      next_line-Moved keep Valid rest written w wlaws r laws buf_size positive fuel s v
        (omega arith)

  line_passed :
      (Q : Bytes → Bytes → Type 0) (s : Scanner R W)
      → Valid s.reader
      → left_of s < fuel
      → Ends (St Q s) (next_line w keep r buf_size fuel s)
  line_passed Q s v h =
      Ends-mono (λ t. Mv s t × (left_of t ≤ left_of s - 1)) _ _ (λ t (m, _). inl m)
        (line_left s v h)

  -- What holds of the bytes from somewhere in the directive on, and of the mark.
  abbrev FromLine : Bytes → Bytes → Type 0
  FromLine p marked = (number : Bytes) × IsLine number p × IsBefore number marked

  abbrev FromNumber : Bytes → Bytes → Type 0
  FromNumber p marked =
      (number : Bytes) × Then (IsToken 16 [] number) (λ b. Unit) p × IsBefore number marked

  abbrev FromHdrstop : Bytes → Bytes → Type 0
  FromHdrstop p marked = Then (λ a. a ≡ codes "hdrstop") (λ b. b ≡ []) p × IsStop keep marked

  -- The word of a token that has been tested.
  token_is :
      (size_ : ℕ) (word a p : Bytes)
      → IsToken size_ [] a p
      → text_eq a word ≡ true
      → length word < size_
      → p ≡ word
  token_is size_ word a p h e less =
      let same : a ≡ word = (text_eq_iff a word).0 e in
      IsToken-short size_ a p h (subst (λ x. length x < size_) (sym same) less) ∙ same

  parse_directive_line-Stepped :
      (s : Scanner R W)
      → Valid s.reader
      → left_of s < fuel
      → Ends (St FromLine s) (parse_directive_line w keep r buf_size marker fuel s)
  unfolding parse_directive_line
  parse_directive_line-Stepped s v h =
      after (Only is_space) FromNumber FromLine s _ _
        (λ a p marked e (number, q, before). (number, (a, p, refl, e, q), before)) h (spaces s v h)
        (λ s1 v1 h1.
          after_read (IsToken 16 []) IsBefore_of FromNumber s1 _ _
            (λ number a p marked e q. (number, (a, p, refl, e, tt), q)) h1 (token 16 s1 v1 h1)
            (λ number s2 x2 v2 h2 _.
              after (Only is_space) (IsBefore_of number) (IsBefore_of number) s2 _ _
                (λ a p marked e q. q) h2 (spaces s2 v2 h2)
                (λ s3 v3 h3.
                  after_read (λ a x. Unit) (λ x. IsBefore_of number) (IsBefore_of number) s3 _ _
                    (λ x a p marked e q. q) h3
                    (Ends-mono (Reads keep Valid rest written w wlaws r laws buf_size positive s3) _
                      _ (λ (a, t) m. (m, tt))
                      (parse_path-Moved keep Valid rest written w wlaws r laws buf_size positive
                        1024 fuel s3 v3 h3 (omega arith)))
                    (λ literal s4 x4 v4 h4 _.
                      after_read (λ eol x. IsEol eol) (λ x. IsBefore_of number) (IsBefore_of number)
                        s4 _ _ (λ x a p marked e q. q) h4
                        (next_line_eol-Moved keep Valid rest written w wlaws r laws buf_size
                          positive fuel s4 v4 (omega arith))
                        (λ eol s5 x5 v5 h5 is.
                          found_line-Stepped keep Valid rest written w wlaws marker number literal.0
                            literal.1 eol s5 v5 is)))))
    where
      IsBefore_of : Bytes → Bytes → Bytes → Type 0
      IsBefore_of number p marked = IsBefore number marked

  -- What is found behind a word.
  hdrstop_found :
      (word a p marked : Bytes)
      → IsToken 32 [] word a
      → (text_eq word (codes "hdrstop") ≡ true) × (p ≡ []) × IsStop keep marked
      → FromHdrstop (a ++ p) marked
  hdrstop_found word a p marked e (is, nothing, stop) =
      ((a, p, refl, token_is 32 (codes "hdrstop") word a e is (omega arith), nothing), stop)

  abbrev FromPragma : Bytes → Bytes → Type 0
  FromPragma p marked = IsHdrstop p × IsStop keep marked

  parse_directive_pragma-Stepped :
      (s : Scanner R W)
      → Valid s.reader
      → left_of s < fuel
      → Ends (St FromPragma s) (parse_directive_pragma w keep r buf_size marker fuel s)
  unfolding parse_directive_pragma
  parse_directive_pragma-Stepped s v h =
      after (Only is_space) FromHdrstop FromPragma s _ _
        (λ a p marked e (q, stop). ((a, p, refl, e, q), stop)) h (spaces s v h)
        (λ s1 v1 h1.
          after_read (IsToken 32 [])
            (λ word p marked.
              (text_eq word (codes "hdrstop") ≡ true) × (p ≡ []) × IsStop keep marked)
            FromHdrstop s1 _ _ hdrstop_found h1 (token 32 s1 v1 h1)
            (λ word s2 x2 v2 h2 _.
              Ends-if _ (text_eq word (codes "hdrstop")) _ _
                (λ e.
                  Ends-mono
                    (Marked keep Valid rest written (AtStop keep Valid rest written w wlaws) s2) _ _
                    (λ t m. inr (
                      Marked-with keep Valid rest written (AtStop keep Valid rest written w wlaws)
                        (λ p marked.
                          (text_eq word (codes "hdrstop") ≡ true) × (p ≡ []) × IsStop keep marked)
                        (λ p marked (nothing, stop). (e, nothing, stop)) m))
                    (found_hdrstop-Marked keep Valid rest written w wlaws s2 v2))
                (λ e. line_passed _ s2 v2 h2)))

  -- Behind the word of a directive.
  abbrev AtWord : Bytes → Bytes → Bytes → Type 0
  AtWord word p marked =
      ((text_eq word (codes "pragma") ≡ true) × FromPragma p marked)
      ⊎ ((text_eq word (codes "line") ≡ true) × FromLine p marked)

  abbrev FromWord : Bytes → Bytes → Type 0
  FromWord p marked =
      (Then (λ a. a ≡ codes "pragma") IsHdrstop p × IsStop keep marked)
      ⊎ ((number : Bytes) × Then (λ a. a ≡ codes "line") (IsLine number) p × IsBefore number marked)

  word_found :
      (word a p marked : Bytes)
      → IsToken 16 [] word a
      → AtWord word p marked
      → FromWord (a ++ p) marked
  word_found word a p marked e (inl (is, (q, stop))) =
      inl ((a, p, refl, token_is 16 (codes "pragma") word a e is (omega arith), q), stop)
  word_found word a p marked e (inr (is, (number, q, before))) =
      inr (number, (a, p, refl, token_is 16 (codes "line") word a e is (omega arith), q), before)

  spaces_found :
      (a p marked : Bytes) → Only is_space a → FromWord p marked → IsDirective keep (a ++ p) marked
  spaces_found a p marked e (inl (q, stop)) = at_stop (a, p, refl, e, q) stop
  spaces_found a p marked e (inr (number, q, before)) = at_line number (a, p, refl, e, q) before

  -- A step with a weaker claim.
  Ends-with :
      (Q Q' : Bytes → Bytes → Type 0) (s : Scanner R W) (m : Scan (Scanner R W))
      → ((p marked : Bytes) → Q p marked → Q' p marked)
      → Ends (St Q s) m
      → Ends (St Q' s) m
  Ends-with Q Q' s m weakens =
      Ends-mono (St Q s) (St Q' s) m
        (λ t step. Stepped-with keep Valid rest written Q Q' weakens step)

  pub parse_directive-Stepped :
      (s : Scanner R W)
      → Valid s.reader
      → left_of s < fuel
      → Ends (St (IsDirective keep) s) (parse_directive w keep r buf_size marker fuel s)
  unfolding parse_directive
  parse_directive-Stepped s v h =
      after (Only is_space) FromWord (IsDirective keep) s _ _ spaces_found h (spaces s v h)
        (λ s1 v1 h1.
          after_read (IsToken 16 []) AtWord FromWord s1 _ _ word_found h1 (token 16 s1 v1 h1)
            (λ word s2 x2 v2 h2 _.
              Ends-if _ (text_eq word (codes "line")) _ _
                (λ e.
                  Ends-with FromLine (AtWord word) s2 _ (λ p marked q. inr (e, q))
                    (parse_directive_line-Stepped s2 v2 h2))
                (λ e.
                  Ends-if _ (text_eq word (codes "pragma")) _ _
                    (λ e'.
                      Ends-with FromPragma (AtWord word) s2 _ (λ p marked q. inl (e', q))
                        (parse_directive_pragma-Stepped s2 v2 h2))
                    (λ e'. line_passed (AtWord word) s2 v2 h2))))
