-- ===== src/Cmd/Unix/Quoting.antt =====
-- Every list of arguments can be written on one line, and `parse` reads it back.
use octobuild.Prelude.{
  ℕ, true, false, List, [], ◌∷◌, ◌++◌, ◌==◌, if◌then◌else◌, Text, ok, ◌≡◌, refl, ap, ◌∙◌,
  append-nil, append_assoc, arith,
}
use octobuild.Cmd.Words.{command_line}
use octobuild.Cmd.Unix.{State, single, initial, step, run, finish, parse}

-- One character between single quotes: a single quote is written '\''.
abbrev pub quoted : ℕ → Text
quoted c = if c == b'\'' then b'\'' ∷ b'\\' ∷ b'\'' ∷ b'\'' ∷ [] else c ∷ []

abbrev pub quoted_all : Text → Text
quoted_all [] = []
quoted_all (c ∷ cs) = quoted c ++ quoted_all cs

abbrev pub quote_arg : Text → Text
quote_arg a = b'\'' ∷ (quoted_all a ++ (b'\'' ∷ []))

abbrev inside : List Text → Text → State
inside args arg = record { args = args; arg = arg; slash = false; quote = single; has_data = true }

run-quoted :
    (args : List Text) (arg rest : Text) (c : ℕ)
    → run (inside args arg) (quoted c ++ rest) ≡ run (inside args (arg ++ c ∷ [])) rest
unfolding run step
run-quoted args arg rest c = ground arith

run-quoted_all :
    (args : List Text) (arg a rest : Text)
    → run (inside args arg) (quoted_all a ++ rest) ≡ run (inside args (arg ++ a)) rest
run-quoted_all args arg [] rest = rw append-nil
run-quoted_all args arg (c ∷ cs) rest =
    rw append_assoc (run-quoted args arg (quoted_all cs ++ rest) c)
    ∙ run-quoted_all args (arg ++ c ∷ []) cs rest
    ∙ rw append_assoc

abbrev between : List Text → State
between args = record initial { args = args }

run-quote_arg :
    (args : List Text) (a rest : Text)
    → run (between args) (quote_arg a ++ (b' ' ∷ rest)) ≡ run (between (args ++ a ∷ [])) rest
run-quote_arg args a rest = opened ∙ run-quoted_all args [] a _ ∙ closed
  where
    opened :
        run (between args) (quote_arg a ++ (b' ' ∷ rest))
        ≡ run (inside args []) (quoted_all a ++ (b'\'' ∷ b' ' ∷ rest))
    opened = rw append_assoc (unfold run step in refl)

    closed : run (inside args a) (b'\'' ∷ b' ' ∷ rest) ≡ run (between (args ++ a ∷ [])) rest
    closed = unfold run step in refl

-- The last argument ends with the line.
finish-quote_arg :
    (args : List Text) (a : Text) → finish (run (between args) (quote_arg a)) ≡ ok (args ++ a ∷ [])
unfolding finish
finish-quote_arg args a = ap finish (opened ∙ run-quoted_all args [] a _) ∙ closed
  where
    opened : run (between args) (quote_arg a) ≡ run (inside args []) (quoted_all a ++ b'\'' ∷ [])
    opened = unfold run step in refl

    closed : finish (run (inside args a) (b'\'' ∷ [])) ≡ ok (args ++ a ∷ [])
    closed = unfold run step in refl

run-command_line :
    (args argv : List Text)
    → finish (run (between args) (command_line quote_arg argv)) ≡ ok (args ++ argv)
unfolding finish
run-command_line args [] = rw append-nil (unfold run in refl)
run-command_line args (a ∷ []) = finish-quote_arg args a
run-command_line args (a ∷ b ∷ argv) =
    ap finish (run-quote_arg args a _)
    ∙ run-command_line (args ++ a ∷ []) (b ∷ argv)
    ∙ rw append_assoc

-- Arguments that are put in single quotes, a single quote in them written '\'', and joined by
-- spaces are parsed back to the same list, whatever characters they hold, the empty argument
-- included.
pub parse-command_line : (argv : List Text) → parse (command_line quote_arg argv) ≡ ok argv
unfolding parse
parse-command_line argv = run-command_line [] argv
