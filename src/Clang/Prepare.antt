-- ===== src/Clang/Prepare.antt =====
-- clang/prepare.rs: the arguments of a command line of clang, and the tasks that it stands for. The
-- iterator over the arguments is the list of those that are left.
pub mod Tasks
pub mod Joined
use octobuild.Prelude.{
  ℕ, zero, suc, ◌+◌, Bool, true, false, not, ◌&&◌, ◌||◌, List, [], ◌∷◌, ◌++◌, ◌==◌, if◌then◌else◌,
  Option, none, some, Text, text_eq, starts_with, codes, Result, ok, err, ◌>>=◌, length, drop,
}
use octobuild.Compiler.{
  Scope, preprocessor, shared, ignore, InputKind, OutputKind, Arg, flag, param, input, output,
  CommandInfo, CompilationArgs, CompilationTask, Paths, eq_ignore_ascii_case, TaskError,
  unknown_arguments, source_not_found, too_many_precompiled, too_many_outputs, too_many_languages,
  output_for_many_sources, unknown_language, language_not_detected,
}
use octobuild.Compiler.Params.{
  filter_map, ParamValue, absent, single, many, find_param, source_file, precompiled_file,
  object_file, param_named, at_most_one,
}

abbrev pub has_param_prefix : Text → Bool
has_param_prefix arg = starts_with (codes "-") arg

-- The parameters that may have a value behind them: the prefix, the scope, and whether the value
-- begins like a parameter.
unfoldable pub is_spaceable_param : Text → Option (Text × Scope × Bool)
is_spaceable_param name =
    if text_eq name (codes "include") || text_eq name (codes "include-pch")
    then some (name, preprocessor, false)
    else if text_eq name (codes "target")
    then some (name, shared, false)
    else if starts_with (codes "D") name
    then some (codes "D", shared, false)
    else if starts_with (codes "o") name
    then some (codes "o", shared, false)
    else if starts_with (codes "x") name
    then some (codes "x", ignore, false)
    else if starts_with (codes "I") name
    then some (codes "I", preprocessor, false)
    else none

-- `find('=')`: what stands before the first `=`, and behind it.
abbrev pub split_at_equals : Text → Option (Text × Text)
split_at_equals [] = none
split_at_equals (c ∷ cs) =
    if c == b'='
    then some ([], cs)
    else elim (split_at_equals cs) [ none ↦ none | some (k, v) ↦ some (c ∷ k, v) ]

-- `Ok` or the argument that is not known.
abbrev pub Parsed : Type 0
Parsed = Result Text Arg × List Text

-- The arm of an argument that begins with `--`; `key` has the second dash still.
abbrev pub long_value : Text → Text → Result Text Arg
long_value key value =
    if text_eq (drop 1 key) (codes "sysroot")
    then ok (flag shared ((key ++ codes "=") ++ value))
    else err key

unfoldable pub long_argument : Text → List Text → Parsed
long_argument arg rest = elim (split_at_equals arg) [
  | some (key, value) ↦ (long_value (drop 1 key) value, rest)
  | none ↦ elim rest [ [] ↦ (err arg, []) | v ∷ vs ↦ (long_value (drop 1 arg) v, vs) ]
]

-- The last `match` on a parameter that may have a value.
abbrev pub with_value : Text → Text → Scope → Text → Arg
with_value name prefix scope value =
    if text_eq name (codes "o")
    then output OutputKind.object prefix value
    else param scope prefix value

unfoldable pub spaceable_argument : Text → Text → Text → Scope → Bool → List Text → Parsed
spaceable_argument arg name prefix scope next_flag rest =
    if text_eq name prefix
    then elim rest [
      | [] ↦ (err arg, [])
      | v ∷ vs ↦ (
        (if (if next_flag then has_param_prefix v else not (has_param_prefix v))
            then ok (with_value name prefix scope v)
            else err arg),
        vs,
      )
    ]
    else (ok (with_value name prefix scope (drop (length prefix) name)), rest)

-- The ladder of the other parameters.
unfoldable pub plain_argument : Text → Text → Result Text Arg
plain_argument arg name =
    if text_eq name (codes "c")
    then ok (flag ignore name)
    else if text_eq name (codes "pipe")
    then ok (flag shared name)
    else if text_eq name (codes "nostdinc++")
    then ok (flag shared name)
    else if starts_with (codes "f") name
    then ok (flag shared name)
    else if starts_with (codes "g") name
    then ok (flag shared name)
    else if starts_with (codes "O") name
    then ok (flag shared name)
    else if starts_with (codes "W") name
    then ok (flag shared name)
    else if starts_with (codes "m") name
    then ok (flag shared name)
    else if starts_with (codes "std=") name
    then ok (flag shared name)
    else err arg

-- `parse_argument` for `arg` taken off the iterator.
unfoldable pub parse_argument : Text → List Text → Parsed
unfolding is_spaceable_param long_argument spaceable_argument plain_argument
parse_argument arg rest =
    if starts_with (codes "--") arg
    then long_argument arg rest
    else if has_param_prefix arg
    then elim (is_spaceable_param (drop 1 arg)) [
      | some (prefix, scope, next_flag) ↦
          spaceable_argument arg (drop 1 arg) prefix scope next_flag rest
      | none ↦ (plain_argument arg (drop 1 arg), rest)
    ]
    else (ok (input InputKind.source [] arg), rest)

-- The loop of `parse_arguments`, with `result` and `errors`. A round uses up an argument.
abbrev pub collected : List Arg → List Text → Result TaskError (List Arg)
collected result [] = ok result
collected result (e ∷ es) = err (unknown_arguments (e ∷ es))

unfoldable pub parse_loop : ℕ → List Text → List Arg → List Text → Result TaskError (List Arg)
parse_loop zero args result errors = collected result errors
parse_loop (suc fuel) args result errors = elim args [
  | [] ↦ collected result errors
  | arg ∷ rest ↦
      let (parsed, left) = parse_argument arg rest in
      elim parsed [
        | ok a ↦ parse_loop fuel left (result ++ a ∷ []) errors
        | err e ↦ parse_loop fuel left result (errors ++ e ∷ [])
      ]
]

unfoldable pub parse_arguments : List Text → Result TaskError (List Arg)
unfolding parse_loop parse_argument
parse_arguments args = parse_loop (length args) args [] []

-- The language of the tasks: `none` is the early return with no task, `some none` leaves it to the
-- file names.
abbrev pub language_of : ParamValue Text → Result TaskError (Option (Option Text))
language_of absent = ok (some none)
language_of (single v) =
    if text_eq v (codes "c") || text_eq v (codes "c++")
    then ok (some (some v))
    else if text_eq v (codes "c-header") || text_eq v (codes "c++-header")
    then ok none
    else err (unknown_language v)
language_of (many vs) = err too_many_languages

abbrev pub output_of : List Text → ParamValue Text → Result TaskError (Option Text)
output_of sources absent = ok none
output_of sources (single v) = elim sources [
  | _ ∷ _ ∷ _ ↦ err output_for_many_sources
  | _ ↦ ok (some v)
]
output_of sources (many vs) = err too_many_outputs

abbrev pub language_by_extension : Text → Option Text
language_by_extension e =
    if eq_ignore_ascii_case e (codes "cpp")
    then some (codes "c++")
    else if eq_ignore_ascii_case e (codes "c")
    then some (codes "c")
    else if eq_ignore_ascii_case e (codes "hpp")
    then some (codes "c++-header")
    else if eq_ignore_ascii_case e (codes "h")
    then some (codes "c-header")
    else none

abbrev pub any_eq : Text → List Text → Bool
any_eq t [] = false
any_eq t (x ∷ xs) = text_eq x t || any_eq t xs

-- `.next()` behind `filter_map`.
abbrev pub first {ℓ} : {A : Type ℓ} → List A → Option A
first [] = none
first (x ∷ xs) = some x

module _ (paths : Paths) where
  abbrev pub detected_language : Option Text → Text → Option Text
  detected_language (some lang) file = some lang
  detected_language none file = elim (paths.extension file) [
    | none ↦ none
    | some e ↦ language_by_extension e
  ]

  -- The closure that makes the task of one source.
  unfoldable pub task_of :
      CompilationArgs → Option Text → Option Text → Text → Result TaskError CompilationTask
  task_of args language object file = elim (detected_language language file) [
    | none ↦ err (language_not_detected file)
    | some lang ↦ ok (record {
      shared_args = args;
      language = lang;
      input_source = file;
      output_object = elim object [
        | none ↦ paths.with_extension file (codes "o")
        | some path ↦ path
      ];
    })
  ]

  -- `collect` stops at the first error.
  unfoldable pub tasks_of :
      CompilationArgs
      → Option Text
      → Option Text
      → List Text
      → Result TaskError (List CompilationTask)
  unfolding task_of
  tasks_of args language object [] = ok []
  tasks_of args language object (f ∷ fs) = do
    t ← task_of args language object f
    ts ← tasks_of args language object fs
    ok (t ∷ ts)

  -- The arguments that the tasks share.
  abbrev pub shared_args_of : CommandInfo → List Arg → Option Text → CompilationArgs
  shared_args_of command parsed input_precompiled = record {
    command = command;
    args = parsed;
    input_precompiled = input_precompiled;
    output_precompiled = none;
    marker_precompiled = first (filter_map (param_named (codes "include")) parsed);
  }

  -- The last part of `create_tasks`; `none` is the early return for headers.
  abbrev pub tasks_in_language :
      CompilationArgs
      → Option Text
      → List Text
      → Option (Option Text)
      → Result TaskError (List CompilationTask)
  tasks_in_language args object files none = ok []
  tasks_in_language args object files (some language) = tasks_of args language object files

  -- `create_tasks` behind the parsing, for source files `f ∷ fs`.
  unfoldable pub tasks_of_sources :
      CommandInfo → List Arg → Text → List Text → Result TaskError (List CompilationTask)
  tasks_of_sources command parsed f fs = do
    input_precompiled ← at_most_one too_many_precompiled (find_param parsed precompiled_file)
    object ← output_of (f ∷ fs) (find_param parsed object_file)
    language ← language_of (find_param parsed (param_named (codes "x")))
    tasks_in_language (shared_args_of command parsed input_precompiled) object (f ∷ fs) language

  unfoldable pub tasks_of_args : CommandInfo → List Arg → Result TaskError (List CompilationTask)
  tasks_of_args command parsed = elim (filter_map source_file parsed) [
    | [] ↦ err source_not_found
    | f ∷ fs ↦ tasks_of_sources command parsed f fs
  ]

  unfoldable pub create_tasks : CommandInfo → List Text → Result TaskError (List CompilationTask)
  unfolding tasks_of_args tasks_of_sources tasks_of parse_arguments
  create_tasks command args =
      if any_eq (codes "--analyze") args
      then ok []
      else if not (any_eq (codes "-c") args)
      then ok []
      else do parsed ← parse_arguments args; tasks_of_args command parsed
