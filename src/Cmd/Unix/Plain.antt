-- ===== src/Cmd/Unix/Plain.antt =====
-- On a line with no quote and no backslash `parse` is the plain splitting at blanks.
use octobuild.Prelude.{
  ℕ, Bool, true, false, not, ◌||◌, ◌&&◌, List, [], ◌∷◌, ◌++◌, ◌==◌, Text, ok, ◌≡◌, refl, append-nil,
  append_assoc, arith,
}
use octobuild.Cmd.Words.{words_from, words}
use octobuild.Cmd.Unix.{State, unquoted, is_blank, step, run, finish, parse}

abbrev pub is_plain : ℕ → Bool
is_plain c = not (c == b'"' || c == b'\'' || c == b'\\')

abbrev pub all_plain : Text → Bool
all_plain [] = true
all_plain (c ∷ cs) = is_plain c && all_plain cs

abbrev at_word : List Text → Text → Bool → State
at_word args arg inside = record {
  args = args;
  arg = arg;
  slash = false;
  quote = unquoted;
  has_data = inside;
}

run-words :
    (cmd : Text) (args : List Text) (arg : Text)
    → all_plain cmd ≡ true
    → (finish (run (at_word args arg true) cmd) ≡ ok (args ++ words_from is_blank true arg cmd))
      × (finish (run (at_word args [] false) cmd) ≡ ok (args ++ words_from is_blank false [] cmd))
unfolding run step finish
run-words [] args arg h = (refl, rw append-nil)
run-words (c ∷ cs) args arg h = ground (
  arith,
  run-words cs args arg,
  run-words cs (args ++ arg ∷ []) [],
  run-words cs args (arg ++ c ∷ []),
  run-words cs args (c ∷ []),
  append_assoc args (arg ∷ []) (words_from is_blank false [] cs),
)

-- A line that holds no quote and no backslash is parsed to its words: the maximal runs of
-- characters other than space and tab, in order.
pub parse-words : (cmd : Text) → all_plain cmd ≡ true → parse cmd ≡ ok (words is_blank cmd)
unfolding parse
parse-words cmd h = (run-words cmd [] [] h).1
