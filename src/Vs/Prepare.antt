-- ===== src/Vs/Prepare.antt =====
-- vs/prepare.rs: the arguments of a command line of cl.exe, and the tasks that it stands for. The
-- iterator over the arguments is the list of those that are left.
pub mod Tasks
pub mod Made
use octobuild.Prelude.{
  ℕ, zero, suc, Bool, true, false, not, ◌||◌, List, [], ◌∷◌, ◌++◌, if◌then◌else◌, Option, none,
  some, Text, text_eq, starts_with, codes, Result, ok, err, length, drop,
}
use octobuild.Compiler.{
  Scope, preprocessor, compiler, shared, ignore, InputKind, OutputKind, Arg, flag, param, input,
  output, TaskError, unknown_arguments,
}

abbrev pub has_param_prefix : Text → Bool
has_param_prefix arg = starts_with (codes "/") arg || starts_with (codes "-") arg

-- The parameters that may have a value behind them: the first prefix of the three lists that fits.
unfoldable pub is_spaceable_param : Text → Option (Text × Scope)
is_spaceable_param name =
    if starts_with (codes "D") name
    then some (codes "D", shared)
    else if starts_with (codes "I") name
    then some (codes "I", preprocessor)
    else if starts_with (codes "W") name
    then some (codes "W", compiler)
    else if starts_with (codes "wd") name
    then some (codes "wd", compiler)
    else if starts_with (codes "we") name
    then some (codes "we", compiler)
    else if starts_with (codes "wo") name
    then some (codes "wo", compiler)
    else if starts_with (codes "w") name
    then some (codes "w", compiler)
    else none

-- `Ok` or the argument that is not known, and the arguments that are left.
abbrev Parsed : Type 0
Parsed = Result Text Arg × List Text

unfoldable pub spaceable_argument : Text → Text → Text → Scope → List Text → Parsed
spaceable_argument arg name prefix scope rest =
    if text_eq name prefix
    then elim rest [
      | [] ↦ (err arg, [])
      | value ∷ values ↦ (
        (if not (has_param_prefix value) then ok (param scope prefix value) else err arg),
        values,
      )
    ]
    else (ok (param scope prefix (drop (length prefix) name)), rest)

-- The arms of the flags that a prefix tells, before those that carry a value.
abbrev pub is_shared_flag : Text → Bool
is_shared_flag name =
    starts_with (codes "O") name
    || starts_with (codes "G") name
    || starts_with (codes "RTC") name
    || starts_with (codes "Z") name
    || starts_with (codes "d2Zi+") name

abbrev pub is_later_shared_flag : Text → Bool
is_later_shared_flag name =
    starts_with (codes "MD") name
    || starts_with (codes "MT") name
    || starts_with (codes "EH") name
    || starts_with (codes "fp:") name
    || starts_with (codes "arch:") name
    || starts_with (codes "errorReport:") name
    || starts_with (codes "source-charset:") name
    || starts_with (codes "execution-charset:") name

-- The arms of the files, and the last ones.
abbrev pub file_argument : Text → Text → Result Text Arg
file_argument arg name =
    if starts_with (codes "Fo") name
    then ok (output OutputKind.object (codes "Fo") (drop 2 name))
    else if starts_with (codes "Fp") name
    then ok (input InputKind.precompiled (codes "Fp") (drop 2 name))
    else if starts_with (codes "Yc") name
    then ok (output OutputKind.marker (codes "Yc") (drop 2 name))
    else if starts_with (codes "Yu") name
    then ok (input InputKind.marker (codes "Yu") (drop 2 name))
    else if starts_with (codes "Yl") name
    then ok (flag shared name)
    else if starts_with (codes "FI") name
    then ok (param preprocessor (codes "FI") (drop 2 name))
    else if starts_with (codes "analyze") name
    then ok (flag shared name)
    else err arg

-- The ladder of the other parameters.
unfoldable pub plain_argument : Text → Text → Result Text Arg
plain_argument arg name =
    if text_eq name (codes "c") || text_eq name (codes "nologo")
    then ok (flag ignore name)
    else if text_eq name (codes "bigobj")
    then ok (flag compiler name)
    else if starts_with (codes "T") name
    then ok (param ignore (codes "T") (drop 1 name))
    else if is_shared_flag name
    then ok (flag shared name)
    else if starts_with (codes "MP") name
    then ok (flag compiler name)
    else if is_later_shared_flag name
    then ok (flag shared name)
    else file_argument arg name

-- `parse_argument` for `arg` taken off the iterator.
unfoldable pub parse_argument : Text → List Text → Parsed
unfolding is_spaceable_param spaceable_argument plain_argument
parse_argument arg rest =
    if has_param_prefix arg
    then elim (is_spaceable_param (drop 1 arg)) [
      | some (prefix, scope) ↦ spaceable_argument arg (drop 1 arg) prefix scope rest
      | none ↦ (plain_argument arg (drop 1 arg), rest)
    ]
    else (ok (input InputKind.source [] arg), rest)

-- What stands behind the loop of `parse_arguments`.
abbrev pub collected : List Arg → List Text → Result TaskError (List Arg)
collected result [] = ok result
collected result (e ∷ es) = err (unknown_arguments (e ∷ es))

-- The loop of `parse_arguments`, with `result` and `errors`. A round uses up an argument.
unfoldable pub parse_loop : ℕ → List Text → List Arg → List Text → Result TaskError (List Arg)
parse_loop zero args result errors = collected result errors
parse_loop (suc fuel) args result errors = elim args [
  | [] ↦ collected result errors
  | arg ∷ rest ↦
      let (parsed, left) = parse_argument arg rest in
      elim parsed [
        | ok a ↦ parse_loop fuel left (result ++ a ∷ []) errors
        | err e ↦ parse_loop fuel left result (errors ++ e ∷ [])
      ]
]

unfoldable pub parse_arguments : List Text → Result TaskError (List Arg)
unfolding parse_loop parse_argument
parse_arguments args = parse_loop (length args) args [] []
