-- ===== src/Cmd/Windows/Plain.antt =====
-- On a line with no double quote `parse` is the plain splitting at blanks.
use native.Mathlib.Numerals.{add-one}
use octobuild.Prelude.{
  ℕ, suc, ◌+◌, Bool, true, false, not, ◌||◌, ◌&&◌, List, [], ◌∷◌, ◌++◌, ◌==◌, if◌then◌else◌, Text,
  ◌≡◌, sym, append-nil, append_assoc, arith,
}
use octobuild.Cmd.Words.{words_from, words}
use octobuild.Cmd.Windows.{State, is_blank, add_slashes, step, run, finish, parse}
use octobuild.Cmd.Windows.Quoting.{backslashes, add_slashes-replicate, backslashes_shift}

abbrev pub no_quotes : Text → Bool
no_quotes [] = true
no_quotes (c ∷ cs) = not (c == b'"') && no_quotes cs

-- In a word with `k` backslashes pending, or between words.
abbrev in_word : List Text → Text → ℕ → State
in_word args arg k = record { args = args; arg = arg; slash = k; quote = false; has_data = true }

abbrev between : List Text → State
between args = record { args = args; arg = []; slash = 0; quote = false; has_data = false }

abbrev word : Text → ℕ → Text
word arg k = arg ++ backslashes k

word-suc : (arg : Text) (k : ℕ) → word arg (k + 1) ≡ word arg k ++ b'\\' ∷ []
word-suc arg k =
    rw (add-one, ← append-nil (backslashes (suc k)), ← backslashes_shift k [])
      (sym (append_assoc arg (backslashes k) _))

run_blank :
    (args : List Text) (arg cs : Text) (k c : ℕ)
    → is_blank c ≡ true
    → run (in_word args arg k) (c ∷ cs) ≡ run (between (args ++ word arg k ∷ [])) cs
unfolding run step
run_blank args arg cs k c h = ground (arith, add_slashes-replicate arg k)

run_char :
    (args : List Text) (arg cs : Text) (k c : ℕ)
    → (is_blank c || c == b'"') ≡ false
    → run (in_word args arg k) (c ∷ cs) ≡ (
        if c == b'\\'
        then run (in_word args arg (k + 1)) cs
        else run (in_word args (word arg k ++ c ∷ []) 0) cs)
unfolding run step
run_char args arg cs k c h = ground (arith, add_slashes-replicate arg k)

run_start :
    (args : List Text) (cs : Text) (c : ℕ)
    → (c == b'"') ≡ false
    → run (between args) (c ∷ cs) ≡ (
        if is_blank c
        then run (between args) cs
        else if c == b'\\'
        then run (in_word args [] 1) cs
        else run (in_word args (c ∷ []) 0) cs)
unfolding run step add_slashes
run_start args cs c h = ground arith

-- Both states of the loop at once: in a word, and between words.
run-words :
    (cmd : Text) (args : List Text) (arg : Text) (k : ℕ)
    → no_quotes cmd ≡ true
    → (finish (run (in_word args arg k) cmd) ≡ args ++ words_from is_blank true (word arg k) cmd)
      × (finish (run (between args) cmd) ≡ args ++ words_from is_blank false [] cmd)
run-words [] args arg k h = (
  unfold run finish in ground (arith, add_slashes-replicate arg k),
  unfold run finish in rw append-nil,
)
run-words (c ∷ cs) args arg k h = ground (
  arith,
  run_blank args arg cs k c,
  run_char args arg cs k c,
  run_start args cs c,
  word-suc arg k,
  run-words cs args arg (k + 1),
  run-words cs args (word arg k ++ c ∷ []) 0,
  run-words cs args [] 1,
  run-words cs args (c ∷ []) 0,
  run-words cs (args ++ word arg k ∷ []) [] 0,
  append-nil (word arg k ++ c ∷ []),
  append_assoc args (word arg k ∷ []) (words_from is_blank false [] cs),
)

-- A line that holds no double quote is parsed to its words, the maximal runs of characters other
-- than space, tab and line ends, in order; a backslash in it stands for itself.
pub parse-words_windows : (cmd : Text) → no_quotes cmd ≡ true → parse cmd ≡ words is_blank cmd
unfolding parse
parse-words_windows cmd h = (run-words cmd [] [] 0 h).1
