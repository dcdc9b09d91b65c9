-- ===== src/Vs/Postprocess/Marks.antt =====
-- The directives of vs/postprocess.rs: a line is passed, or the mark is written and the scanner is
-- done.
use mathlib.Core.Path.{subst}
use octobuild.Prelude.{
  Bool, true, false, [], ◌++◌, ◌&&◌, Option, some, Bytes, codes, text_eq, ◌≡◌, refl, ap, sym, ◌∙◌,
  ◌⊎◌, inl, inr, append_assoc, append-nil,
}
use octobuild.Io.Stream.{Writer, IsWriter}
use octobuild.Vs.Postprocess.Buffer.{Scanner, is_space}
use octobuild.Vs.Postprocess.Directives.{mark, found_line, found_hdrstop}
use octobuild.Vs.Postprocess.Moves.{
  Ends, Ends-bind, Ends-mono, Ends-if, Ends-option, kept, kept-nil, content, output, Moved,
  Moved-refl, Moved-trans, write-Wrote, Wrote, kept-append,
}
use octobuild.Vs.Postprocess.Lines.{IsEol}
use octobuild.Vs.Postprocess.Skips.{Only}
use octobuild.Vs.Postprocess.Tokens.{IsToken}

-- What is put for a `#pragma hdrstop` of the input.
pub data IsStop (keep : Bool) : Bytes → Type 0 where
  -- the directive of the input is kept
  from_input : keep ≡ true → IsStop keep []
  again : keep ≡ false → IsStop keep (codes "#pragma hdrstop")

-- What is put before a `#line` with the number `line`.
pub data IsBefore (line : Bytes) : Bytes → Type 0 where
  before_line : {eol : Bytes} (raw : Bytes) → IsEol eol → IsBefore line (mark eol line raw)

-- One stretch of bytes behind another.
abbrev pub Then : (Bytes → Type 0) → (Bytes → Type 0) → Bytes → Type 0
Then E E' p = (a : Bytes) × (b : Bytes) × (p ≡ a ++ b) × E a × E' b

-- ` hdrstop`
abbrev pub IsHdrstop : Bytes → Type 0
IsHdrstop = Then (Only is_space) (Then (λ a. a ≡ codes "hdrstop") (λ b. b ≡ []))

-- ` 7 "file"` and the end of the line
abbrev pub IsLine : Bytes → Bytes → Type 0
IsLine line = Then (Only is_space) (Then (IsToken 16 [] line) (λ b. Unit))

-- What stands behind the `#` of the directive at which the headers end, and what is put for it.
pub data IsDirective (keep : Bool) (p marked : Bytes) : Type 0 where
  at_stop :
      Then (Only is_space) (Then (λ a. a ≡ codes "pragma") IsHdrstop) p
      → IsStop keep marked
      → IsDirective keep p marked
  at_line :
      (number : Bytes)
      → Then (Only is_space) (Then (λ a. a ≡ codes "line") (IsLine number)) p
      → IsBefore number marked
      → IsDirective keep p marked

-- The headers `p` end with a directive, for which the mark is put.
abbrev pub IsMark : Bool → Bytes → Bytes → Type 0
IsMark keep p marked =
    Then (λ a. Unit) (Then (λ a. a ≡ codes "#") (λ b. IsDirective keep b marked)) p

pub IsMark-append :
    (keep : Bool) (a p marked : Bytes) → IsMark keep p marked → IsMark keep (a ++ p) marked
IsMark-append keep a p marked (x, y, e, _, h) =
    (a ++ x, y, ap (λ z. a ++ z) e ∙ sym (append_assoc a x y), tt, h)

module _ {R W : Type 0} (keep : Bool) (Valid : R → Type 0) (rest : R → Bytes)
    (written : W → Bytes) where
  -- The scanner is done: behind the bytes that it has passed the output has the mark. `Q` holds of
  -- both.
  pub record Marked (Q : Bytes → Bytes → Type 0) (s t : Scanner R W) : Type 0 where
    pub valid : Valid t.reader
    pub passed : Bytes
    pub marked : Bytes
    pub splits : content keep Valid rest written s ≡ passed ++ content keep Valid rest written t
    pub is_mark : Q passed marked
    pub puts :
        written t.writer ++ t.window
        ≡ (output keep Valid rest written s ++ kept keep passed) ++ marked
    pub is_done : t.done ≡ true

  abbrev pub Stepped : (Bytes → Bytes → Type 0) → Scanner R W → Scanner R W → Type 0
  Stepped Q s t = Moved keep Valid rest written s t ⊎ Marked Q s t

  pub Marked-along :
      {s t u : Scanner R W} (Q Q' : Bytes → Bytes → Type 0)
      → (a : Moved keep Valid rest written s t)
      → ((p marked : Bytes) → Q p marked → Q' (a.passed ++ p) marked)
      → Marked Q t u
      → Marked Q' s u
  Marked-along {s = s} {t = t} {u = u} Q Q' a joins b = record {
    valid = b.valid;
    passed = a.passed ++ b.passed;
    marked = b.marked;
    splits =
        a.splits
        ∙ ap (λ x. a.passed ++ x) b.splits
        ∙ sym (append_assoc a.passed b.passed (content keep Valid rest written u));
    is_mark = joins b.passed b.marked b.is_mark;
    puts =
        b.puts
        ∙ ap (λ x. (x ++ kept keep b.passed) ++ b.marked) a.puts
        ∙ ap (λ x. x ++ b.marked)
            (append_assoc (output keep Valid rest written s) (kept keep a.passed)
                (kept keep b.passed)
              ∙ ap (λ x. output keep Valid rest written s ++ x)
                  (sym (kept-append keep a.passed b.passed)));
    is_done = b.is_done;
  }

  pub Stepped-along :
      {s t u : Scanner R W} (Q Q' : Bytes → Bytes → Type 0)
      → (a : Moved keep Valid rest written s t)
      → ((p marked : Bytes) → Q p marked → Q' (a.passed ++ p) marked)
      → Stepped Q t u
      → Stepped Q' s u
  Stepped-along Q Q' a joins (inl b) = inl (Moved-trans keep Valid rest written a b)
  Stepped-along Q Q' a joins (inr b) = inr (Marked-along Q Q' a joins b)

  pub Marked-with :
      {s t : Scanner R W} (Q Q' : Bytes → Bytes → Type 0)
      → ((p marked : Bytes) → Q p marked → Q' p marked)
      → Marked Q s t
      → Marked Q' s t
  Marked-with Q Q' weakens m = record {
    valid = m.valid;
    passed = m.passed;
    marked = m.marked;
    splits = m.splits;
    is_mark = weakens m.passed m.marked m.is_mark;
    puts = m.puts;
    is_done = m.is_done;
  }

  pub Stepped-with :
      {s t : Scanner R W} (Q Q' : Bytes → Bytes → Type 0)
      → ((p marked : Bytes) → Q p marked → Q' p marked)
      → Stepped Q s t
      → Stepped Q' s t
  Stepped-with Q Q' weakens (inl m) = inl m
  Stepped-with Q Q' weakens (inr m) = inr (Marked-with Q Q' weakens m)

  module _ (w : Writer W) (wlaws : IsWriter w written) where
    -- A mark that is written.
    Wrote-Marked :
        (Q : Bytes → Bytes → Type 0) (s t : Scanner R W) (text : Bytes) (found d d0 : Bool)
        → Valid s.reader
        → Q [] text
        → d ≡ true
        → Wrote keep Valid rest written w wlaws text (record s { done = d0 }) t
        → Marked Q s (record t { header_found = found; done = d })
    Wrote-Marked Q s t text found d d0 v is is_done h = record {
      valid = subst Valid (sym h.reader_is) v;
      passed = [];
      marked = text;
      splits =
          ap (λ x. x ++ rest s.reader) (sym h.ahead_is)
          ∙ ap (λ x. t.ahead ++ rest x) (sym h.reader_is);
      is_mark = is;
      puts = rw (h.window_is, kept-nil keep, append-nil, append-nil) h.written_is;
      is_done = is_done;
    }

    -- Nothing is passed by what follows the reading of `hdrstop`.
    abbrev pub AtStop : Bytes → Bytes → Type 0
    AtStop p marked = (p ≡ []) × IsStop keep marked

    abbrev pub AtLine : Bytes → Bytes → Bytes → Type 0
    AtLine line p marked = IsBefore line marked

    -- `#pragma hdrstop` of the input.
    kept-Marked :
        (s : Scanner R W)
        → Valid s.reader
        → keep ≡ true
        → Marked AtStop s (record s { done = true })
    kept-Marked s v e = record {
      valid = v;
      passed = [];
      marked = [];
      splits = refl;
      is_mark = (refl, from_input e);
      puts = rw (e, append-nil, append-nil) refl;
      is_done = refl;
    }

    pub found_hdrstop-Marked :
        (s : Scanner R W) → Valid s.reader → Ends (Marked AtStop s) (found_hdrstop w keep s)
    unfolding found_hdrstop
    found_hdrstop-Marked s v =
        Ends-bind (λ t. Marked AtStop s (record t { done = true })) _ _ _
          (Ends-if _ keep _ _ (λ e. kept-Marked s v e)
            (λ e.
              Ends-mono (Wrote keep Valid rest written w wlaws (codes "#pragma hdrstop") s) _ _
                (λ t h.
                  Wrote-Marked AtStop s t (codes "#pragma hdrstop") t.header_found true s.done v
                    (refl, again e) refl h)
                (write-Wrote keep Valid rest written w wlaws (codes "#pragma hdrstop") s)))
          (λ t m. m)

    same_place :
        (s : Scanner R W) (found : Bool) (file : Option Bytes)
        → Valid s.reader
        → Moved keep Valid rest written s (record s { header_found = found; entry_file = file })
    same_place s found file v =
        let m = Moved-refl keep Valid rest written s v in
        record {
          valid = v;
          passed = [];
          splits = refl;
          puts = rw (kept-nil keep, append-nil) refl;
          still = refl;
        }

    -- What becomes of the scanner in `parse_directive_line`.
    pub found_line-Stepped :
        (marker : Option Bytes) (line file raw eol : Bytes) (s : Scanner R W)
        → Valid s.reader
        → IsEol eol
        → Ends (Stepped (AtLine line) s) (found_line w keep marker line file raw eol s)
    unfolding found_line
    found_line-Stepped marker line file raw eol s v is =
        Ends-option _ s.entry_file _ _ (λ e. inl (same_place s s.header_found (some file) v))
          (λ path e.
            Ends-bind
              (λ t. (found : Bool) → Stepped (AtLine line) s (record t { header_found = found })) _
              _ _
              (Ends-if _ (s.header_found && text_eq path file) _ _
                (λ e.
                  Ends-mono
                    (Wrote keep Valid rest written w wlaws (mark eol line raw)
                      (record s { done = true }))
                    _ _
                    (λ t h found. inr (
                      Wrote-Marked (AtLine line) s t (mark eol line raw) found t.done true v
                        (before_line raw is) h.done_is h))
                    (write-Wrote keep Valid rest written w wlaws (mark eol line raw)
                      (record s { done = true })))
                (λ e found. inl (same_place s found s.entry_file v)))
              (λ t h. h _))
