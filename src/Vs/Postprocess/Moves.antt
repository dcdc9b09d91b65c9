-- ===== src/Vs/Postprocess/Moves.antt =====
-- How the scanner moves over its input: what every operation of the buffer keeps, whatever the pieces
-- in which the input comes.
use octobuild.Prelude.{
  ℕ, suc, ◌<◌, ◌≤◌, Bool, true, false, [], ◌∷◌, ◌++◌, if◌then◌else◌, Option, none, some, Bytes,
  Result, ok, err, ◌>>=◌, ◌≡◌, refl, sym, ap, ◌∙◌, arith, length, length-append, append_assoc,
  append-nil,
}
use mathlib.Core.Path.{subst}
use octobuild.Io.Stream.{IoError, Writer, IsWriter}
use octobuild.Vs.Postprocess.Buffer.{
  ScanError, out_of_fuel, index_out_of_bounds, Scan, lift_io, Scanner, move, flush, write, flush_of,
  next, next_of,
}

-- The errors that the code means to return, and the panic of `unwrap`: an index in range, and fuel
-- left.
abbrev pub IsFailure : ScanError → Type 0
IsFailure out_of_fuel = ⊥
IsFailure index_out_of_bounds = ⊥
IsFailure _ = Unit

-- What holds of a result, or the failure is one of those.
abbrev pub Ends : {A : Type 0} → (A → Type 0) → Scan A → Type 0
Ends Q (ok a) = Q a
Ends Q (err e) = IsFailure e

pub Ends-bind :
    {A B : Type 0} (P : A → Type 0) (Q : B → Type 0) (m : Scan A) (f : A → Scan B)
    → Ends P m
    → ((a : A) → P a → Ends Q (f a))
    → Ends Q (m >>= f)
Ends-bind P Q (ok a) f h next = next a h
Ends-bind P Q (err e) f h next = h

pub Ends-mono :
    {A : Type 0} (P Q : A → Type 0) (m : Scan A) → ((a : A) → P a → Q a) → Ends P m → Ends Q m
Ends-mono P Q (ok a) f h = f a h
Ends-mono P Q (err e) f h = h

pub Ends-lift_io :
    {A : Type 0} (Q : A → Type 0) (m : Result IoError A)
    → ((a : A) → m ≡ ok a → Q a)
    → Ends Q (lift_io m)
Ends-lift_io Q (ok a) h = h a refl
Ends-lift_io Q (err e) h = tt

-- By cases on what a branch asks.
pub Ends-if :
    {A : Type 0} (Q : A → Type 0) (b : Bool) (x y : Scan A)
    → (b ≡ true → Ends Q x)
    → (b ≡ false → Ends Q y)
    → Ends Q (if b then x else y)
Ends-if Q true x y h k = h refl
Ends-if Q false x y h k = k refl

pub Ends-bool :
    {A : Type 0} (Q : A → Type 0) (b : Bool) (x y : Scan A)
    → (b ≡ true → Ends Q x)
    → (b ≡ false → Ends Q y)
    → Ends Q (elim b [ true ↦ x | false ↦ y ])
Ends-bool Q true x y h k = h refl
Ends-bool Q false x y h k = k refl

pub Ends-option :
    {A B : Type 0} (Q : A → Type 0) (o : Option B) (x : Scan A) (f : B → Scan A)
    → (o ≡ none → Ends Q x)
    → ((b : B) → o ≡ some b → Ends Q (f b))
    → Ends Q (elim o [ none ↦ x | some b ↦ f b ])
Ends-option Q none x f h k = h refl
Ends-option Q (some b) x f h k = k b refl

pub Ends-list :
    {A : Type 0} (Q : A → Type 0) (b : Bytes) (x : Scan A) (f : ℕ → Bytes → Scan A)
    → (b ≡ [] → Ends Q x)
    → ((c : ℕ) (cs : Bytes) → b ≡ c ∷ cs → Ends Q (f c cs))
    → Ends Q (elim b [ [] ↦ x | c ∷ cs ↦ f c cs ])
Ends-list Q [] x f h k = h refl
Ends-list Q (c ∷ cs) x f h k = k c cs refl

abbrev pub kept : Bool → Bytes → Bytes
kept keep b = if keep then b else []

pub kept-append : (keep : Bool) (a b : Bytes) → kept keep (a ++ b) ≡ kept keep a ++ kept keep b
kept-append true a b = refl
kept-append false a b = refl

pub kept-nil : (keep : Bool) → kept keep [] ≡ []
kept-nil true = refl
kept-nil false = refl

module _ {R W : Type 0} (keep : Bool) (Valid : R → Type 0) (rest : R → Bytes)
    (written : W → Bytes) where
  -- What is still to be read, and what is written if the window is flushed.
  abbrev pub content : Scanner R W → Bytes
  content s = s.ahead ++ rest s.reader

  abbrev pub output : Scanner R W → Bytes
  output s = written s.writer ++ kept keep s.window

  -- From `s` to `t` the scanner has passed over `passed`, and the output has grown by it if headers
  -- are kept.
  pub record Moved (s t : Scanner R W) : Type 0 where
    pub valid : Valid t.reader
    pub passed : Bytes
    pub splits : content s ≡ passed ++ content t
    pub puts : output t ≡ output s ++ kept keep passed
    pub still : t.done ≡ s.done

  pub Moved-refl : (s : Scanner R W) → Valid s.reader → Moved s s
  Moved-refl s v = record {
    valid = v;
    passed = [];
    splits = refl;
    puts = rw (kept-nil keep, append-nil) refl;
    still = refl;
  }

  pub Moved-trans : {s t u : Scanner R W} → Moved s t → Moved t u → Moved s u
  Moved-trans {s = s} {u = u} a b = record {
    valid = b.valid;
    passed = a.passed ++ b.passed;
    splits =
        a.splits
        ∙ ap (λ x. a.passed ++ x) b.splits
        ∙ sym (append_assoc a.passed b.passed (content u));
    puts =
        b.puts
        ∙ ap (λ x. x ++ kept keep b.passed) a.puts
        ∙ append_assoc (output s) (kept keep a.passed) (kept keep b.passed)
        ∙ ap (λ x. output s ++ x) (sym (kept-append keep a.passed b.passed));
    still = b.still ∙ a.still;
  }

  -- A move over the bytes of which `E` holds.
  abbrev pub MovedBy : (Bytes → Type 0) → Scanner R W → Scanner R W → Type 0
  MovedBy E s t = (m : Moved s t) × E m.passed

  pub MovedBy-refl : (s : Scanner R W) → Valid s.reader → MovedBy (λ x. x ≡ []) s s
  unfolding Moved-refl
  MovedBy-refl s v = (Moved-refl s v, refl)

  pub MovedBy-trans :
      {s t u : Scanner R W} (E E' E'' : Bytes → Type 0)
      → ((a b : Bytes) → E a → E' b → E'' (a ++ b))
      → MovedBy E s t
      → MovedBy E' t u
      → MovedBy E'' s u
  unfolding Moved-trans
  MovedBy-trans E E' E'' joins (a, e) (b, e') = (Moved-trans a b, joins a.passed b.passed e e')

  abbrev pub size : Scanner R W → ℕ
  size s = length (content s)

  pub Moved-size : {s t : Scanner R W} → Moved s t → size t ≤ size s
  Moved-size {t = t} m = omega (arith, ap length m.splits, length-append m.passed (content t))

  -- The scanner moves over bytes in the buffer.
  pub move-Moved :
      (s : Scanner R W) (b left : Bytes)
      → Valid s.reader
      → s.ahead ≡ b ++ left
      → Moved s (move b left s)
  move-Moved s b left v e = record {
    valid = v;
    passed = b;
    splits = ap (λ x. x ++ rest s.reader) e ∙ append_assoc b left (rest s.reader);
    puts =
        ap (λ x. written s.writer ++ x) (kept-append keep s.window b)
        ∙ sym (append_assoc (written s.writer) (kept keep s.window) (kept keep b));
    still = refl;
  }

  pub next-MovedBy :
      (s : Scanner R W) (c : ℕ) (cs : Bytes)
      → Valid s.reader
      → s.ahead ≡ c ∷ cs
      → MovedBy (λ x. x ≡ c ∷ []) s (next s) × (size (next s) < size s)
  unfolding move-Moved
  next-MovedBy s c cs v e =
      subst (λ t. MovedBy (λ x. x ≡ c ∷ []) s t × (size t < size s)) (ap (λ x. next_of x s) (sym e))
        (let longer : size s ≡ suc (size (move (c ∷ []) cs s)) =
            ap (λ x. length (x ++ rest s.reader)) e in
          let less : size (move (c ∷ []) cs s) < size s = omega (arith, longer) in
          ((move-Moved s (c ∷ []) cs v e, refl), less))

  pub next-Moved :
      (s : Scanner R W) (c : ℕ) (cs : Bytes)
      → Valid s.reader
      → s.ahead ≡ c ∷ cs
      → Moved s (next s) × (size (next s) < size s)
  next-Moved s c cs v e = let ((m, _), less) = next-MovedBy s c cs v e in (m, less)

  -- What `peek` sees.
  abbrev pub Seen : Option ℕ → Scanner R W → Type 0
  Seen none t = content t ≡ []
  Seen (some c) t = (cs : Bytes) × (t.ahead ≡ c ∷ cs)

  abbrev pub Passes :
      {A : Type 0} → Scanner R W → (A → Scanner R W → Type 0) → A × Scanner R W → Type 0
  Passes s Q (a, t) = Moved s t × Q a t

  abbrev pub PassesBy : {A : Type 0} → Scanner R W → (A → Bytes → Type 0) → A × Scanner R W → Type 0
  PassesBy s E (a, t) = MovedBy (E a) s t

  module _ (w : Writer W) (wlaws : IsWriter w written) where
    pub record Flushed (s t : Scanner R W) : Type 0 where
      pub ahead_is : t.ahead ≡ s.ahead
      pub reader_is : t.reader ≡ s.reader
      pub done_is : t.done ≡ s.done
      pub window_is : t.window ≡ []
      pub written_is : written t.writer ≡ output s

    write_window :
        (b : Bytes) (v : W)
        → Ends
            (λ v'. written v' ≡ written v ++ kept keep b)
            (if keep then lift_io (w.write_all v b) else ok v)
    write_window b v =
        elim keep
          as (λ k.
            Ends (λ v'. written v' ≡ written v ++ kept k b)
              (if k then lift_io (w.write_all v b) else ok v)) [
                | true ↦ Ends-lift_io _ (w.write_all v b) (λ v' e. wlaws.appends v b e)
                | false ↦ sym (append-nil (written v))
              ]

    flush_of-Flushed :
        (b : Bytes) (s : Scanner R W) → s.window ≡ b → Ends (Flushed s) (flush_of w keep b s)
    flush_of-Flushed [] s e = record {
      ahead_is = refl;
      reader_is = refl;
      done_is = refl;
      window_is = e;
      written_is = rw (e, kept-nil keep, append-nil) refl;
    }
    flush_of-Flushed (c ∷ cs) s e =
        Ends-bind (λ v. written v ≡ written s.writer ++ kept keep (c ∷ cs)) _ _ _
          (write_window (c ∷ cs) s.writer)
          (λ v h. record {
            ahead_is = refl;
            reader_is = refl;
            done_is = refl;
            window_is = refl;
            written_is = h ∙ ap (λ x. written s.writer ++ kept keep x) (sym e);
          })

    pub flush-Flushed : (s : Scanner R W) → Ends (Flushed s) (flush w keep s)
    unfolding flush
    flush-Flushed s = flush_of-Flushed s.window s refl

    -- `write` loses nothing of what is ahead.
    pub record Wrote (text : Bytes) (s t : Scanner R W) : Type 0 where
      pub ahead_is : t.ahead ≡ s.ahead
      pub reader_is : t.reader ≡ s.reader
      pub done_is : t.done ≡ s.done
      pub window_is : t.window ≡ []
      pub written_is : written t.writer ≡ output s ++ text

    pub write-Wrote : (text : Bytes) (s : Scanner R W) → Ends (Wrote text s) (write w keep text s)
    unfolding write
    write-Wrote text s = Ends-bind (Flushed s) _ _ _ (flush-Flushed s) (λ t h.
        Ends-bind (λ v. w.write_all t.writer text ≡ ok v) _ _ _
          (Ends-lift_io _ (w.write_all t.writer text) (λ v e. e))
          (λ v e. record {
            ahead_is = h.ahead_is;
            reader_is = h.reader_is;
            done_is = h.done_is;
            window_is = h.window_is;
            written_is = wlaws.appends t.writer text e ∙ ap (λ x. x ++ text) h.written_is;
          }))
