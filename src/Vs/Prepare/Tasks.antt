-- ===== src/Vs/Prepare/Tasks.antt =====
-- `create_tasks` and `get_output_object` of vs/prepare.rs. Reading the arguments of a response file,
-- `load_arguments`, is a parameter.
use octobuild.Prelude.{
  Bool, true, false, List, [], ◌∷◌, if◌then◌else◌, Option, none, some, Text, codes, Result, ok, err,
  ◌>>=◌,
}
use octobuild.Compiler.{
  InputKind, OutputKind, Arg, input, output, CommandInfo, CompilationArgs, CompilationTask, Paths,
  eq_ignore_ascii_case, TaskError, source_not_found, too_many_precompiled, too_many_markers,
  too_many_outputs, too_many_languages, language_not_detected, no_file_name,
}
use octobuild.Compiler.Params.{
  filter_map, ParamValue, absent, single, many, find_param, source_file, precompiled_file,
  object_file, param_named, at_most_one,
}
use octobuild.Vs.Prepare.{parse_arguments}

-- The marker of a precompiled header, and whether the header is an input.
abbrev pub marker_file : Arg → Option (Bool × Text)
marker_file (input InputKind.marker _ file) = some (true, file)
marker_file (output OutputKind.marker _ file) = some (false, file)
marker_file _ = none

-- The three values that `create_tasks` takes from the marker.
pub record Precompiled : Type 0 where
  pub marker : Option Text
  pub input_path : Option Text
  pub output_path : Option Text

module _ (paths : Paths) where
  abbrev pub precompiled_of : Option Text → ParamValue (Bool × Text) → Result TaskError Precompiled
  precompiled_of file absent = ok (record { marker = none; input_path = none; output_path = none })
  precompiled_of file (single (is_input, path)) =
      let precompiled_path : Text = elim file [
        | some v ↦ v
        | none ↦ paths.with_extension path (codes ".pch")
      ] in
      let marker : Option Text = elim path [ [] ↦ none | c ∷ cs ↦ some (c ∷ cs) ] in
      ok (
        if is_input
        then record { marker = marker; input_path = some precompiled_path; output_path = none }
        else record { marker = marker; input_path = none; output_path = some precompiled_path })
  precompiled_of file (many vs) = err too_many_markers

  -- `current_dir_join`, and the same for the other files.
  abbrev pub in_dir : Option Text → Text → Text
  in_dir none path = path
  in_dir (some cwd) path = paths.join cwd path

  abbrev pub map_option : (Text → Text) → Option Text → Option Text
  map_option f none = none
  map_option f (some x) = some (f x)

  unfoldable pub get_output_object : Text → Option Text → Result TaskError Text
  get_output_object source none = ok (paths.with_extension source (codes "obj"))
  get_output_object source (some path) =
      if paths.is_dir path
      then elim (paths.file_name source) [
        | some name ↦ ok (paths.with_extension (paths.join path name) (codes "obj"))
        | none ↦ err (no_file_name source)
      ]
      else ok path

  abbrev pub language_by_extension : Text → Option Text
  language_by_extension e =
      if eq_ignore_ascii_case e (codes "cpp")
      then some (codes "P")
      else if eq_ignore_ascii_case e (codes "c")
      then some (codes "C")
      else none

  abbrev pub detected_language : Option Text → Text → Option Text
  detected_language (some lang) file = some lang
  detected_language none file = elim (paths.extension file) [
    | none ↦ none
    | some e ↦ language_by_extension e
  ]

  -- The closure that makes the task of one source, in the directory of the command.
  unfoldable pub task_of :
      CompilationArgs → Option Text → Option Text → Text → Result TaskError CompilationTask
  unfolding get_output_object
  task_of args language object file =
      let input_source = in_dir args.command.current_dir file in
      elim (detected_language language input_source) [
        | none ↦ err (language_not_detected input_source)
        | some lang ↦ do
          output_object ← get_output_object input_source object
          ok (record {
            shared_args = args;
            language = lang;
            input_source = input_source;
            output_object = output_object;
          })
      ]

  -- `collect` stops at the first error.
  unfoldable pub tasks_of :
      CompilationArgs
      → Option Text
      → Option Text
      → List Text
      → Result TaskError (List CompilationTask)
  unfolding task_of
  tasks_of args language object [] = ok []
  tasks_of args language object (f ∷ fs) = do
    t ← task_of args language object f
    ts ← tasks_of args language object fs
    ok (t ∷ ts)

  -- `create_tasks` of the arguments parsed.
  unfoldable pub tasks_of_args : CommandInfo → List Arg → Result TaskError (List CompilationTask)
  unfolding tasks_of
  tasks_of_args command parsed = elim (filter_map source_file parsed) [
    | [] ↦ err source_not_found
    | f ∷ fs ↦ do
      file ← at_most_one too_many_precompiled (find_param parsed precompiled_file)
      pch ← precompiled_of file (find_param parsed marker_file)
      object ← at_most_one too_many_outputs (find_param parsed object_file)
      language ← at_most_one too_many_languages (find_param parsed (param_named (codes "T")))
      tasks_of
          (record {
            command = command;
            args = parsed;
            input_precompiled = map_option (in_dir command.current_dir) pch.input_path;
            output_precompiled = map_option (in_dir command.current_dir) pch.output_path;
            marker_precompiled = pch.marker;
          })
          language (map_option (in_dir command.current_dir) object) (f ∷ fs)
  ]

  module _ (load_arguments : Option Text → List Text → Result TaskError (List Text)) where
    unfoldable pub create_tasks : CommandInfo → List Text → Result TaskError (List CompilationTask)
    unfolding tasks_of_args parse_arguments
    create_tasks command args = do
      loaded ← load_arguments command.current_dir args
      parsed ← parse_arguments loaded
      tasks_of_args command parsed
