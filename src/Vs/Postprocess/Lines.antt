-- ===== src/Vs/Postprocess/Lines.antt =====
-- `next_line` and `next_line_eol` of vs/postprocess.rs: they move over the input and use it up.
use mathlib.Core.Path.{subst}
use octobuild.Prelude.{
  ℕ, zero, suc, ◌+◌, ◌-◌, ◌<◌, ◌≤◌, Bool, true, false, [], ◌∷◌, ◌++◌, ◌==◌, if◌then◌else◌, Option,
  none, some, Bytes, ok, ◌≡◌, refl, sym, ap, ◌⊎◌, inl, inr, arith, length, length-append,
  append-nil, ==_iff,
}
use octobuild.Io.Stream.{Reader, IsReader, Writer, IsWriter}
use octobuild.Vs.Postprocess.Buffer.{
  Scanner, move, read, behind, find_newline, newline, next_line, eol_loop, next_line_eol, last_or,
}
use octobuild.Vs.Postprocess.Moves.{
  Ends, Ends-bind, Ends-mono, Ends-option, size, Moved, Moved-trans, Moved-size, move-Moved, Passes,
}
use octobuild.Vs.Postprocess.Skips.{Ps, More, read-Moved}

-- What `find_newline` finds in `b`.
abbrev Cuts : Bytes → Option (Bytes × Bytes) → Type 0
Cuts b none = Unit
Cuts b (some (line, left)) = b ≡ (line ++ newline) ++ left

behind-Cuts :
    (c : ℕ) (cs : Bytes) (o : Option (Bytes × Bytes)) → Cuts cs o → Cuts (c ∷ cs) (behind c o)
behind-Cuts c cs none h = tt
behind-Cuts c cs (some (line, left)) h = ap (◌∷◌ c) h

if-Cuts :
    (b : Bool) (c : ℕ) (cs : Bytes) (o : Option (Bytes × Bytes))
    → (c == b'\n') ≡ b
    → Cuts cs o
    → Cuts (c ∷ cs) (if b then some ([], cs) else behind c o)
if-Cuts true c cs o e h = ap (λ x. x ∷ cs) ((==_iff c b'\n').0 e)
if-Cuts false c cs o e h = behind-Cuts c cs o h

find_newline-Cuts : (b : Bytes) → Cuts b (find_newline b)
unfolding find_newline
find_newline-Cuts [] = tt
find_newline-Cuts (c ∷ cs) = if-Cuts (c == b'\n') c cs (find_newline cs) refl (find_newline-Cuts cs)

-- The end of a line, or nothing at the end of the input.
abbrev pub IsEol : Bytes → Type 0
IsEol eol = (eol ≡ []) ⊎ ((eol ≡ newline) ⊎ (eol ≡ b'\r' ∷ b'\n' ∷ []))

if-IsEol : (b : Bool) → IsEol (if b then b'\r' ∷ b'\n' ∷ [] else newline)
if-IsEol true = inr (inr refl)
if-IsEol false = inr (inl refl)

ending-IsEol : (c : ℕ) → IsEol (if c == b'\r' then b'\r' ∷ b'\n' ∷ [] else newline)
ending-IsEol c = if-IsEol (c == b'\r')

module _ {R W : Type 0} (keep : Bool) (Valid : R → Type 0) (rest : R → Bytes) (written : W → Bytes)
    (w : Writer W) (wlaws : IsWriter w written) (r : Reader R) (laws : IsReader r Valid rest)
    (buf_size : ℕ) (positive : 0 < buf_size) where
  abbrev Mv : Scanner R W → Scanner R W → Type 0
  Mv = Moved keep Valid rest written

  abbrev left_of : Scanner R W → ℕ
  left_of = size keep Valid rest written

  -- The fuel of a round, which reads first if nothing is ahead.
  abbrev pub IsEnough : Scanner R W → ℕ → Type 0
  IsEnough s fuel = left_of s + (1 - length s.ahead) ≤ fuel

  -- A move that uses up a byte, if there is one.
  abbrev pub Shrinks :
      {A : Type 0} → Scanner R W → (A → Scanner R W → Type 0) → A × Scanner R W → Type 0
  Shrinks s Q (a, t) =
      Passes keep Valid rest written s (λ x u. Q x u × (left_of u ≤ left_of s - 1)) (a, t)

  IsEnough-pos : (s : Scanner R W) (fuel : ℕ) → IsEnough s fuel → 0 < fuel
  IsEnough-pos s fuel h = omega (arith, length-append s.ahead (rest s.reader))

  -- The round of both loops in which a newline is found.
  pub line-Moved :
      (s : Scanner R W) (line left : Bytes)
      → Valid s.reader
      → find_newline s.ahead ≡ some (line, left)
      → Mv s (move (line ++ newline) left s)
        × (left_of (move (line ++ newline) left s) ≤ left_of s - 1)
  line-Moved s line left v e =
      let split = subst (Cuts s.ahead) e (find_newline-Cuts s.ahead) in
      let long : left_of s ≡ length (((line ++ newline) ++ left) ++ rest s.reader) =
        ap (λ x. length (x ++ rest s.reader)) split in
      let less : length (left ++ rest s.reader) ≤ left_of s - 1 = omega (
        arith,
        long,
        length-append line newline,
        length-append (line ++ newline) left,
        length-append ((line ++ newline) ++ left) (rest s.reader),
        length-append left (rest s.reader),
      ) in
      (move-Moved keep Valid rest written s (line ++ newline) left v split, less)

  -- The other round: all that is ahead is passed, and the buffer is filled again.
  abbrev Refilled : ℕ → Scanner R W → Bool → Scanner R W → Type 0
  Refilled fuel s more t =
      (left_of t ≤ left_of s) × elim more [ true ↦ IsEnough t fuel | false ↦ left_of t ≡ 0 ]

  refilled :
      (fuel : ℕ) (s : Scanner R W) (more : Bool) (t : Scanner R W)
      → IsEnough s (suc fuel)
      → left_of t ≤ length (rest s.reader)
      → More keep Valid rest written w wlaws r laws buf_size positive more t
      → Refilled fuel s more t
  refilled fuel s true t h shorter (c, cs, e) =
      let whole : left_of s ≡ length s.ahead + length (rest s.reader) =
        length-append s.ahead (rest s.reader) in
      let some_ : length t.ahead ≡ suc (length cs) = ap length e in
      (omega (arith, whole), omega (arith, whole, some_))
  refilled fuel s false t h shorter e =
      (omega (arith, length-append s.ahead (rest s.reader)), ap length e)

  refill-Moved :
      (fuel : ℕ) (s : Scanner R W)
      → Valid s.reader
      → IsEnough s (suc fuel)
      → Ends
          (Passes keep Valid rest written s (Refilled fuel s))
          (read w keep r buf_size (move s.ahead [] s))
  refill-Moved fuel s v h =
      let start = move-Moved keep Valid rest written s s.ahead [] v (sym (append-nil s.ahead)) in
      Ends-mono
        (Ps keep Valid rest written w wlaws r laws buf_size positive (move s.ahead [] s)
          (More keep Valid rest written w wlaws r laws buf_size positive))
        _ _
        (λ (more, t) (onward, some_). (
          Moved-trans keep Valid rest written start onward,
          refilled fuel s more t h (Moved-size keep Valid rest written onward) some_,
        ))
        (read-Moved keep Valid rest written w wlaws r laws buf_size positive (move s.ahead [] s) v
          refl)

  next_line_again :
      (fuel : ℕ) (s : Scanner R W) (more : Bool) (t : Scanner R W)
      → Mv s t
      → Refilled fuel s more t
      → (IsEnough t fuel
          → Ends (λ u. Mv t u × (left_of u ≤ left_of t - 1)) (next_line w keep r buf_size fuel t))
      → Ends
          (λ u. Mv s u × (left_of u ≤ left_of s - 1))
          (if more then next_line w keep r buf_size fuel t else ok t)
  next_line_again fuel s true t moved (shorter, enough) again =
      Ends-mono (λ u. Mv t u × (left_of u ≤ left_of t - 1)) _ _
        (λ u (onward, less).
          (Moved-trans keep Valid rest written moved onward, omega (arith, less, shorter)))
        (again enough)
  next_line_again fuel s false t moved (shorter, none_) again = (moved, omega (arith, none_))

  pub next_line-Moved :
      (fuel : ℕ) (s : Scanner R W)
      → Valid s.reader
      → IsEnough s fuel
      → Ends (λ t. Mv s t × (left_of t ≤ left_of s - 1)) (next_line w keep r buf_size fuel s)
  unfolding next_line
  next_line-Moved zero s v h = absurd (omega (arith, IsEnough-pos s 0 h))
  next_line-Moved (suc fuel) s v h =
      Ends-option _ (find_newline s.ahead) _ _
        (λ e.
          Ends-bind (Passes keep Valid rest written s (Refilled fuel s)) _ _ _
            (refill-Moved fuel s v h)
            (λ (more, t) (moved, refill).
              next_line_again fuel s more t moved refill
                (λ enough. next_line-Moved fuel t moved.valid enough)))
        (λ (line, left) e. line-Moved s line left v e)

  abbrev pub Ended : Scanner R W → Bytes × Scanner R W → Type 0
  Ended s = Passes keep Valid rest written s (λ eol t. IsEol eol)

  eol_again :
      (fuel last : ℕ) (s : Scanner R W) (more : Bool) (t : Scanner R W)
      → Mv s t
      → Refilled fuel s more t
      → (IsEnough t fuel → Ends (Ended t) (eol_loop w keep r buf_size fuel last t))
      → Ends (Ended s) (if more then eol_loop w keep r buf_size fuel last t else ok ([], t))
  eol_again fuel last s true t moved (shorter, enough) again =
      Ends-mono (Ended t) _ _
        (λ (eol, u) (onward, is). (Moved-trans keep Valid rest written moved onward, is))
        (again enough)
  eol_again fuel last s false t moved (shorter, none_) again = (moved, inl refl)

  eol_loop-Moved :
      (fuel last : ℕ) (s : Scanner R W)
      → Valid s.reader
      → IsEnough s fuel
      → Ends (Ended s) (eol_loop w keep r buf_size fuel last s)
  unfolding eol_loop
  eol_loop-Moved zero last s v h = absurd (omega (arith, IsEnough-pos s 0 h))
  eol_loop-Moved (suc fuel) last s v h =
      Ends-option _ (find_newline s.ahead) _ _
        (λ e.
          Ends-bind (Passes keep Valid rest written s (Refilled fuel s)) _ _ _
            (refill-Moved fuel s v h)
            (λ (more, t) (moved, refill).
              eol_again fuel _ s more t moved refill
                (λ enough. eol_loop-Moved fuel _ t moved.valid enough)))
        (λ (line, left) e. (
          (line-Moved s line left v e).0,
          ending-IsEol (last_or last (s.gone ++ (s.window ++ line))),
        ))

  pub next_line_eol-Moved :
      (fuel : ℕ) (s : Scanner R W)
      → Valid s.reader
      → IsEnough s fuel
      → Ends (Ended s) (next_line_eol w keep r buf_size fuel s)
  unfolding next_line_eol
  next_line_eol-Moved fuel s v h = eol_loop-Moved fuel 0 s v h
