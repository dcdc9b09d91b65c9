-- ===== src/Cmd/Windows.antt =====
-- cmd/windows.rs: the loop of `parse` is `run`, its `match` is `step`, and what stands behind the
-- loop is `finish`. The source returns `Ok` on every line, so `parse` returns the list itself.
pub mod Quoting
pub mod Plain
pub mod Halving
use octobuild.Prelude.{
  ℕ, zero, suc, ◌+◌, ◌/◌, ◌%◌, Bool, true, false, not, ◌&&◌, ◌||◌, List, [], ◌∷◌, ◌++◌, ◌==◌,
  if◌then◌else◌, Text,
}

-- The local variables of `parse`; `has_data` is the source's `data`, and `slash` counts the
-- backslashes that are read and not yet put out.
pub record State : Type 0 where
  pub args : List Text
  pub arg : Text
  pub slash : ℕ
  pub quote : Bool
  pub has_data : Bool

abbrev pub initial : State
initial = record { args = []; arg = []; slash = 0; quote = false; has_data = false }

abbrev pub is_blank : ℕ → Bool
is_blank c = c == b' ' || c == b'\t' || c == b'\n' || c == b'\r'

pub add_slashes : Text → ℕ → Text
add_slashes line zero = line
add_slashes line (suc count) = add_slashes (line ++ b'\\' ∷ []) count

-- How many of the pending backslashes are put out before a character that is no quote.
abbrev pub pending : State → ℕ
pending s = if s.quote && (s.slash % 2) == 0 then s.slash / 2 else s.slash

abbrev pub flushed : State → State
flushed s = record s { arg = add_slashes s.arg (pending s); slash = 0 }

-- The arm of a blank, behind its `add_slashes`.
abbrev pub blank : State → ℕ → State
blank s c =
    if s.quote
    then record s { arg = s.arg ++ c ∷ []; has_data = true }
    else if s.has_data
    then record s { args = s.args ++ s.arg ∷ []; arg = []; has_data = false }
    else s

-- The arm of a double quote. `slash & 1` is `slash % 2`.
abbrev pub double_quote : State → ℕ → State
double_quote s c =
    let line = add_slashes s.arg (s.slash / 2) in
    if (s.slash % 2) == 0
    then record s { arg = line; quote = not s.quote; slash = 0; has_data = true }
    else record s { arg = line ++ c ∷ []; slash = 0; has_data = true }

unfoldable pub step : State → ℕ → State
step s c =
    if is_blank c
    then blank (flushed s) c
    else if c == b'\\'
    then record s { slash = s.slash + 1; has_data = true }
    else if c == b'"'
    then double_quote s c
    else record s { arg = add_slashes s.arg (pending s) ++ c ∷ []; slash = 0; has_data = true }

unfoldable pub run : State → Text → State
run s [] = s
run s (c ∷ cs) = run (step s c) cs

unfoldable pub finish : State → List Text
finish s = if s.has_data then s.args ++ (flushed s).arg ∷ [] else s.args

unfoldable pub parse : Text → List Text
unfolding run step finish add_slashes
parse cmd = finish (run initial cmd)
