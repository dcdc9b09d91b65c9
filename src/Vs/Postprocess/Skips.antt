-- ===== src/Vs/Postprocess/Skips.antt =====
-- The operations of the scanner that read: from a valid state each moves over a part of the input, or
-- fails as the code means to, with any reader that keeps the promises of `Read`.
use mathlib.Core.Path.{subst}
use octobuild.Prelude.{
  ℕ, zero, suc, ◌<◌, Bool, true, false, [], ◌∷◌, ◌++◌, Option, none, some, Bytes, ok, ◌≡◌, refl,
  sym, ap, ◌∙◌, inl, inr, arith, append-nil,
}
use octobuild.Io.Stream.{Reader, IsReader, Writer, IsWriter}
use octobuild.Vs.Postprocess.Buffer.{
  Scan, Scanner, read, peek_of, filled, first_of, peek, next, skip_while,
}
use octobuild.Vs.Postprocess.Moves.{
  Ends, Ends-bind, Ends-mono, Ends-lift_io, Ends-if, Ends-option, kept-nil, content, size, Moved,
  Moved-trans, Moved-size, MovedBy, MovedBy-refl, MovedBy-trans, next-MovedBy, Seen, Passes,
  Flushed, flush-Flushed,
}

-- Bytes that all pass a test.
abbrev pub Only : (ℕ → Bool) → Bytes → Type 0
Only test [] = Unit
Only test (c ∷ cs) = (test c ≡ true) × Only test cs

module _ {R W : Type 0} (keep : Bool) (Valid : R → Type 0) (rest : R → Bytes) (written : W → Bytes)
    (w : Writer W) (wlaws : IsWriter w written) (r : Reader R) (laws : IsReader r Valid rest)
    (buf_size : ℕ) (positive : 0 < buf_size) where
  abbrev pub Ms : Scanner R W → Scanner R W → Type 0
  Ms = Moved keep Valid rest written

  -- What `read` says of the state that it leaves.
  abbrev pub More : Bool → Scanner R W → Type 0
  More true t = (c : ℕ) × (cs : Bytes) × (t.ahead ≡ c ∷ cs)
  More false t = content keep Valid rest written t ≡ []

  abbrev pub Ps : {A : Type 0} → Scanner R W → (A → Scanner R W → Type 0) → A × Scanner R W → Type 0
  Ps s Q = Passes keep Valid rest written s Q

  filled-More :
      (b : Bytes) (rd : R) (t : Scanner R W) (x : R)
      → Valid x
      → r.read x buf_size ≡ ok (b, rd)
      → More (filled b rd t).0 (filled b rd t).1
  filled-More (c ∷ cs) rd t x v e = (c, cs, refl)
  filled-More [] rd t x v e = elim (laws.stops x buf_size v e) [
    | inl none_ ↦ absurd (omega arith)
    | inr none_ ↦ sym (laws.splits x buf_size v e) ∙ none_
  ]

  -- What is seen without a move.
  abbrev pub Still :
      {A : Type 0} → Scanner R W → (A → Scanner R W → Type 0) → A × Scanner R W → Type 0
  Still s Q (a, t) = MovedBy keep Valid rest written (λ x. x ≡ []) s t × Q a t

  filled-Still :
      (s t : Scanner R W) (b : Bytes) (rd : R)
      → Flushed keep Valid rest written w wlaws s t
      → Valid s.reader
      → s.ahead ≡ []
      → r.read t.reader buf_size ≡ ok (b, rd)
      → Still s More (filled b rd t)
  filled-Still s t b rd h v none_ e =
      let v' : Valid t.reader = subst Valid (sym h.reader_is) v in
      let split : rest s.reader ≡ b ++ rest rd =
        ap rest (sym h.reader_is) ∙ laws.splits t.reader buf_size v' e in
      (
        (
          record {
            valid = laws.keeps t.reader buf_size v' e;
            passed = [];
            splits = ap (λ x. x ++ rest s.reader) none_ ∙ split;
            puts = rw (kept-nil keep, append-nil, append-nil) h.written_is;
            still = h.done_is;
          },
          refl,
        ),
        filled-More b rd t t.reader v' e,
      )

  read-Still :
      (s : Scanner R W)
      → Valid s.reader
      → s.ahead ≡ []
      → Ends (Still s More) (read w keep r buf_size s)
  unfolding read
  read-Still s v e =
      Ends-bind (Flushed keep Valid rest written w wlaws s) _ _ _
        (flush-Flushed keep Valid rest written w wlaws s)
        (λ t h.
          Ends-bind (λ a. r.read t.reader buf_size ≡ ok a) _ _ _
            (Ends-lift_io _ (r.read t.reader buf_size) (λ a e'. e'))
            (λ (b, rd) e'. filled-Still s t b rd h v e e'))

  pub read-Moved :
      (s : Scanner R W)
      → Valid s.reader
      → s.ahead ≡ []
      → Ends (Ps s More) (read w keep r buf_size s)
  read-Moved s v e =
      Ends-mono (Still s More) (Ps s More) _ (λ (b, t) ((m, _), more). (m, more)) (read-Still s v e)

  first_of-Seen :
      (b : Bytes) (m : Bool) (t : Scanner R W)
      → t.ahead ≡ b
      → More m t
      → Seen keep Valid rest written (first_of b) t
  first_of-Seen (c ∷ cs) m t e h = (cs, e)
  first_of-Seen [] true t e (c, cs, h) = cc
  first_of-Seen [] false t e h = h

  peek_of-Still :
      (b : Bytes) (s : Scanner R W)
      → Valid s.reader
      → s.ahead ≡ b
      → Ends (Still s (Seen keep Valid rest written)) (peek_of w keep r buf_size b s)
  unfolding read
  peek_of-Still (c ∷ cs) s v e = (MovedBy-refl keep Valid rest written s v, (cs, e))
  peek_of-Still [] s v e =
      Ends-bind (Still s More) _ _ _ (read-Still s v e)
        (λ (m, t) (moved, more). (moved, first_of-Seen t.ahead m t refl more))

  pub peek-Still :
      (s : Scanner R W)
      → Valid s.reader
      → Ends (Still s (Seen keep Valid rest written)) (peek w keep r buf_size s)
  unfolding peek
  peek-Still s v = peek_of-Still s.ahead s v refl

  pub peek-Moved :
      (s : Scanner R W)
      → Valid s.reader
      → Ends (Ps s (Seen keep Valid rest written)) (peek w keep r buf_size s)
  peek-Moved s v =
      Ends-mono (Still s (Seen keep Valid rest written)) (Ps s (Seen keep Valid rest written)) _
        (λ (c, t) ((m, _), seen). (m, seen)) (peek-Still s v)

  -- Behind a byte that is seen.
  pub next-SeenBy :
      (s : Scanner R W) (c : Option ℕ) (x : ℕ)
      → Valid s.reader
      → c ≡ some x
      → Seen keep Valid rest written c s
      → MovedBy keep Valid rest written (λ p. p ≡ x ∷ []) s (next s)
        × (size keep Valid rest written (next s) < size keep Valid rest written s)
  next-SeenBy s (some y) x v e (cs, h) =
      let same : y ≡ x = cc in
      next-MovedBy keep Valid rest written s x cs v (h ∙ ap (λ z. z ∷ cs) same)
  next-SeenBy s none x v e h = cc

  pub next-Seen :
      (s : Scanner R W) (c : Option ℕ) (x : ℕ)
      → Valid s.reader
      → c ≡ some x
      → Seen keep Valid rest written c s
      → Ms s (next s) × (size keep Valid rest written (next s) < size keep Valid rest written s)
  next-Seen s c x v e h = let ((m, _), less) = next-SeenBy s c x v e h in (m, less)

  -- What follows a move.
  pub Ends-along :
      {s t : Scanner R W} (m : Scan (Scanner R W)) → Ms s t → Ends (Ms t) m → Ends (Ms s) m
  Ends-along {s = s} {t = t} m moved =
      Ends-mono (Ms t) (Ms s) m (λ u onward. Moved-trans keep Valid rest written moved onward)

  pub Ends-along_seen :
      {A : Type 0} {s t : Scanner R W} (Q : A → Scanner R W → Type 0) (m : Scan (A × Scanner R W))
      → Ms s t
      → Ends (Ps t Q) m
      → Ends (Ps s Q) m
  Ends-along_seen {s = s} {t = t} Q m moved =
      Ends-mono (Ps t Q) (Ps s Q) m
        (λ a after. (Moved-trans keep Valid rest written moved after.0, after.1))

  -- A byte that is seen and passed.
  pub onward-MovedBy :
      {s t u : Scanner R W} (c : ℕ)
      → MovedBy keep Valid rest written (λ x. x ≡ []) s t
      → MovedBy keep Valid rest written (λ x. x ≡ c ∷ []) t u
      → MovedBy keep Valid rest written (λ x. x ≡ c ∷ []) s u
  onward-MovedBy c =
      MovedBy-trans keep Valid rest written (λ x. x ≡ []) (λ x. x ≡ c ∷ []) (λ x. x ≡ c ∷ [])
        (λ a b e e'. ap (λ x. x ++ b) e ∙ e')

  pub skip_while-MovedBy :
      (test : ℕ → Bool) (fuel : ℕ) (s : Scanner R W)
      → Valid s.reader
      → size keep Valid rest written s < fuel
      → Ends
          (MovedBy keep Valid rest written (Only test) s)
          (skip_while w keep r buf_size test fuel s)
  unfolding skip_while
  skip_while-MovedBy test zero s v h = absurd (omega arith)
  skip_while-MovedBy test (suc fuel) s v h =
      Ends-bind (Still s (Seen keep Valid rest written)) _ _ _ (peek-Still s v)
        (λ (c, t) (still, seen).
          let here : MovedBy keep Valid rest written (Only test) s t =
            (still.0, subst (Only test) (sym still.1) tt) in
          Ends-option _ c _ _ (λ e. here)
            (λ c' e.
              let (byte, less) = next-SeenBy t c c' still.0.valid e seen in
              let shorter = Moved-size keep Valid rest written still.0 in
              Ends-if _ (test c') _ _
                (λ e'.
                  Ends-mono (MovedBy keep Valid rest written (Only test) (next t)) _ _
                    (λ u m.
                      MovedBy-trans keep Valid rest written (λ x. x ≡ c' ∷ []) (Only test)
                        (Only test)
                        (λ a b ea h'. subst (Only test) (ap (λ x. x ++ b) (sym ea)) (e', h'))
                        (onward-MovedBy c' still byte) m)
                    (skip_while-MovedBy test fuel (next t) byte.0.valid
                      (omega (arith, less, shorter))))
                (λ e'. here)))

  pub skip_while-Moved :
      (test : ℕ → Bool) (fuel : ℕ) (s : Scanner R W)
      → Valid s.reader
      → size keep Valid rest written s < fuel
      → Ends (Ms s) (skip_while w keep r buf_size test fuel s)
  skip_while-Moved test fuel s v h =
      Ends-mono (MovedBy keep Valid rest written (Only test) s) (Ms s) _ (λ t (m, _). m)
        (skip_while-MovedBy test fuel s v h)
