-- ===== src/Cmd/Unix.antt =====
-- cmd/unix.rs: the loop of `parse` is `run` over the characters, one arm of its `match` after the
-- other in `step`, and what stands behind the loop is `finish`.
pub mod Quoting
pub mod Plain
use octobuild.Prelude.{
  ℕ, Bool, true, false, ◌&&◌, ◌||◌, List, [], ◌∷◌, ◌++◌, ◌==◌, if◌then◌else◌, Text, Result, ok, err,
}

pub data Quote : Type 0 where
  unquoted double single : Quote

-- `==` on `Quote`.
abbrev pub is_single : Quote → Bool
is_single single = true
is_single _ = false

abbrev pub is_double : Quote → Bool
is_double double = true
is_double _ = false

abbrev pub is_unquoted : Quote → Bool
is_unquoted unquoted = true
is_unquoted _ = false

-- The three errors `InvalidInput` that `parse` returns.
pub data ParseError : Type 0 where
  escape_not_finished single_quote_not_closed double_quote_not_closed : ParseError

-- The local variables of `parse`; `has_data` is the source's `data`.
pub record State : Type 0 where
  pub args : List Text
  pub arg : Text
  pub slash : Bool
  pub quote : Quote
  pub has_data : Bool

abbrev pub initial : State
initial = record { args = []; arg = []; slash = false; quote = unquoted; has_data = false }

abbrev pub is_blank : ℕ → Bool
is_blank c = c == b' ' || c == b'\t'

-- What a backslash escapes.
abbrev pub is_escapable : ℕ → Bool
is_escapable c = is_blank c || c == b'"' || c == b'\'' || c == b'\\'

abbrev pub push : State → ℕ → State
push s c = record s { arg = s.arg ++ c ∷ [] }

unfoldable pub step : State → ℕ → State
step s c =
    if c == b'\'' && is_single s.quote
    then record s { quote = unquoted }
    else if is_single s.quote
    then push s c
    else if is_escapable c && s.slash
    then record s { arg = s.arg ++ c ∷ []; slash = false }
    else if s.slash
    then record s { arg = (s.arg ++ b'\\' ∷ []) ++ c ∷ []; slash = false }
    else if c == b'"' && is_double s.quote
    then record s { quote = unquoted }
    else if is_blank c && is_unquoted s.quote
    then (if s.has_data
        then record s { args = s.args ++ s.arg ∷ []; arg = []; has_data = false }
        else s)
    else if c == b'\\'
    then record s { slash = true; has_data = true }
    else if c == b'"'
    then record s { quote = double; has_data = true }
    else if c == b'\''
    then record s { quote = single; has_data = true }
    else record s { arg = s.arg ++ c ∷ []; has_data = true }

unfoldable pub run : State → Text → State
run s [] = s
run s (c ∷ cs) = run (step s c) cs

-- The last `match`, on `quote`.
abbrev pub close : Quote → List Text → Result ParseError (List Text)
close single args = err single_quote_not_closed
close double args = err double_quote_not_closed
close unquoted args = ok args

unfoldable pub finish : State → Result ParseError (List Text)
finish s =
    let args = if s.has_data then s.args ++ s.arg ∷ [] else s.args in
    if s.slash then err escape_not_finished else close s.quote args

unfoldable pub parse : Text → Result ParseError (List Text)
unfolding run step finish
parse cmd = finish (run initial cmd)
