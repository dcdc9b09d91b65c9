-- ===== src/Cmd/Words.antt =====
-- Splitting a text at blanks, with no quotes and no escapes, and the joining of quoted arguments.
use octobuild.Prelude.{ℕ, Bool, true, false, List, [], ◌∷◌, ◌++◌, if◌then◌else◌, Text}

module _ (is_blank : ℕ → Bool) where
  -- `open` tells whether a word has begun; its characters so far are `word`.
  abbrev pub words_from : Bool → Text → Text → List Text
  words_from true word [] = word ∷ []
  words_from false word [] = []
  words_from inside word (c ∷ cs) =
      if is_blank c
      then (if inside then word ∷ words_from false [] cs else words_from false [] cs)
      else words_from true (word ++ c ∷ []) cs

  -- The maximal runs of characters that are no blanks, in order.
  abbrev pub words : Text → List Text
  words = words_from false []

-- Each argument is quoted, and a space stands between any two.
abbrev pub command_line : (Text → Text) → List Text → Text
command_line quote [] = []
command_line quote (a ∷ []) = quote a
command_line quote (a ∷ b ∷ argv) = quote a ++ (b' ' ∷ command_line quote (b ∷ argv))
