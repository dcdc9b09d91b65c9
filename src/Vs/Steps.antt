-- ===== src/Vs/Steps.antt =====
-- vs/compiler.rs: the commands of the two steps, and what becomes of their output. The regular
-- expression that drops the lines of a warning is foreign code.
pub mod Output
pub mod Preprocessed
mod Tests
use octobuild.Prelude.{
  ℕ, ◌+◌, Bool, true, false, List, [], ◌∷◌, ◌++◌, ◌==◌, ◌||◌, ◌&&◌, ltb, if◌then◌else◌, Option,
  none, some, Text, Bytes, codes, starts_with, length, drop, get_or, Result, ok, err, ◌>>=◌, map,
}
use octobuild.Compiler.{
  Scope, preprocessor, Arg, flag, param, input, output, OutputInfo, success, CompilationTask,
}
use octobuild.Compiler.Params.{filter_map}
use octobuild.Compiler.Key.{CompileStep, is_some}
use octobuild.Compiler.Task.{PreprocessResult, new_step}
use octobuild.Compiler.Run.{Process, System, to_command, is_preprocessed, is_compiled, failure}
use octobuild.Io.Stream.{IoError, panic, Reader, vec_writer}
use octobuild.Vs.Postprocess.Buffer.{
  ScanError, Scan, io, unwrap_none, index_out_of_bounds, out_of_fuel,
}
use octobuild.Vs.Postprocess.Filter.{Encoding, filter_preprocessed}

unfoldable pub join_flag : Text → Text → Text
join_flag name path = name ++ path

-- What an argument adds to the command of a step that takes the arguments of these scopes.
abbrev pub arg_text : (Scope → Bool) → Arg → Option Text
arg_text takes (flag scope name) = if takes scope then some (codes "/" ++ name) else none
arg_text takes (param scope name value) =
    if takes scope then some ((codes "/" ++ name) ++ value) else none
arg_text takes (input _ _ _) = none
arg_text takes (output _ _ _) = none

unfoldable pub preprocess_args : CompilationTask → List Text
unfolding join_flag
preprocess_args task =
    filter_map (arg_text is_preprocessed) task.shared_args.args
    ++ (codes "/nologo"
        ∷ (codes "/T" ++ task.language)
        ∷ codes "/E"
        ∷ codes "/we4002"
        ∷ task.input_source
        ∷ join_flag (codes "/Fo") task.output_object
        ∷ [])

-- A precompiled header is made with the arguments of the preprocessor too.
abbrev pub is_compiled_with : Bool → Scope → Bool
is_compiled_with makes_header preprocessor = makes_header
is_compiled_with makes_header scope = is_compiled scope

unfoldable pub compile_args : CompilationTask → List Text
compile_args task =
    let makes_header = is_some task.shared_args.output_precompiled in
    filter_map (arg_text (is_compiled_with makes_header)) task.shared_args.args
    ++ (codes "/nologo"
        ∷ (codes "/T" ++ task.language)
        ∷ (if makes_header then codes "/Yc" ∷ [] else []))

-- `CompileStep::new` with the precompiled header, where nothing is asserted.
unfoldable pub compile_prepare_step : CompilationTask → Bytes → Result IoError CompileStep
unfolding compile_args new_step
compile_prepare_step task preprocessed =
    elim (new_step task preprocessed (compile_args task) true) [
      | none ↦ err panic
      | some step ↦ ok step
    ]

abbrev pub is_eol : ℕ → Bool
is_eol c = c == b'\r' || c == b'\n'

-- The bytes at ends of lines that the loop skips.
abbrev pub skip_eols : Bytes → Bytes
skip_eols [] = []
skip_eols (c ∷ cs) = if is_eol c then skip_eols cs else c ∷ cs

-- `prepare_output`; `replace_all` takes out the lines of the warning C4628.
unfoldable pub prepare_output : (Bytes → Bytes) → Bytes → Bytes → Bool → Bytes
prepare_output replace_all line buffer succeeded =
    let begin =
      if (ltb (length line) (length buffer) && starts_with line buffer)
        && is_eol (get_or buffer (length line) 0)
      then length line
      else 0 in
    let stripped = skip_eols (drop begin buffer) in
    if succeeded then replace_all stripped else stripped

-- The compiler's command, with the file that it reads and the object file.
abbrev pub kept_vars : List Text
kept_vars =
    codes "SystemDrive" ∷ codes "SystemRoot" ∷ codes "TEMP" ∷ codes "TMP" ∷ codes "PATH" ∷ []

abbrev pub var_pair : (Text → Option Text) → Text → Option (Text × Text)
var_pair var name = elim (var name) [ none ↦ none | some value ↦ some (name, value) ]

abbrev pub created_header : Option Text → List Text
created_header none = []
created_header (some path) = join_flag (codes "/Fp") path ∷ []

abbrev pub used_header : Option Text → List Text
used_header none = []
used_header (some path) = codes "/Yu" ∷ join_flag (codes "/Fp") path ∷ []

unfoldable pub compile_command :
    (Text → Option Text) → Text → Text → CompileStep → Text → Text → Process
unfolding join_flag
compile_command var path temp_dir task input_temp object = record {
  program = path;
  current_dir = some temp_dir;
  env = filter_map (var_pair var) kept_vars;
  args =
      codes "/c"
      ∷ (task.args
          ++ (input_temp
              ∷ join_flag (codes "/Fo") object
              ∷ (created_header task.output_precompiled ++ used_header task.input_precompiled)));
  stdin = [];
}

-- The assertions on the paths of precompiled headers.
abbrev pub all_absolute : (Text → Bool) → Option Text → Bool
all_absolute is_absolute none = true
all_absolute is_absolute (some path) = is_absolute path

-- `?` on the filter: an error of the reader, the writer or the encoding is passed on, `scan_error` has
-- the message of an error of the input, and a panic is one.
abbrev pub lift_scan : {A : Type 0} → (ScanError → IoError) → Scan A → Result IoError A
lift_scan f (ok a) = ok a
lift_scan f (err (io e)) = err e
lift_scan f (err unwrap_none) = err IoError.panic
lift_scan f (err index_out_of_bounds) = err IoError.panic
lift_scan f (err out_of_fuel) = err IoError.panic
lift_scan f (err e) = err (f e)

-- `Cursor` of the standard library, over the bytes that it is made of.
module _ {C : Type 0} (cursor : Reader C) (cursor_of : Bytes → C) (enc : Encoding)
    (scan_error : ScanError → IoError) where
  -- What the compiler is given of the preprocessor's output: it is filtered if there is a precompiled
  -- header. A unit of fuel for each byte, and one for the end, is enough.
  unfoldable pub filter_content : CompilationTask → Bytes → Result IoError Bytes
  unfolding filter_preprocessed
  filter_content task stdout =
      let args = task.shared_args in
      let filtered =
        filter_preprocessed vec_writer (is_some args.output_precompiled) cursor 65536 enc
          args.marker_precompiled (length stdout + 1) (cursor_of stdout) [] in
      if is_some args.input_precompiled || is_some args.output_precompiled
      then lift_scan scan_error filtered
      else ok stdout

  -- What follows the preprocessor.
  abbrev pub preprocessed : CompilationTask → OutputInfo → Result IoError PreprocessResult
  preprocessed task o =
      if success o
      then (filter_content task o.stdout >>= λ content. ok (PreprocessResult.success content))
      else ok (failure o)

module _ {D : Type 0} (system : System D) where
  module _ {C : Type 0} (cursor : Reader C) (cursor_of : Bytes → C) (enc : Encoding)
      (scan_error : ScanError → IoError) where
    unfoldable pub preprocess_step : D → CompilationTask → D × Result IoError PreprocessResult
    unfolding preprocess_args filter_content
    preprocess_step d task =
        let (d', o) = system.run d (to_command task.shared_args.command (preprocess_args task)) in
        (d', o >>= preprocessed cursor cursor_of enc scan_error task)

  module _ (replace_all : Bytes → Bytes) (path temp_dir : Text) where
    -- What is shown of the compiler's output.
    abbrev pub shown : Text → OutputInfo → Result IoError OutputInfo
    shown temp o =
        let temp_file : Text = elim (system.file_name temp) [ none ↦ [] | some name ↦ name ] in
        ok (record o { stdout = prepare_output replace_all temp_file o.stdout (success o) })

    -- The compiler is run on the file `temp`, which is removed in every case.
    abbrev pub compile_file :
        Text → CompileStep → D × Result IoError (Unit {0}) → D × Result IoError OutputInfo
    unfolding compile_command prepare_output
    compile_file temp task (d, err e) = (system.remove d temp, err e)
    compile_file temp task (d, ok _) = elim task.output_object [
      | none ↦ (system.remove d temp, err panic)
      | some object ↦
          let command = compile_command system.var path temp_dir task temp object in
          let (d', o) = system.run d command in
          if all_absolute system.is_absolute task.output_precompiled
            && all_absolute system.is_absolute task.input_precompiled
          then (system.remove d' temp, o >>= shown temp)
          else (system.remove d temp, err panic)
    ]

    unfoldable pub compile_step : D → CompileStep → D × Result IoError OutputInfo
    unfolding compile_file
    compile_step d task =
        let temp = system.new_temp d (codes ".i") in
        compile_file temp task (system.create d temp task.preprocessed)

    -- `compile_memory`: the object file is a temporary one, which is read and removed.
    unfoldable pub compile_memory : D → CompileStep → D × Result IoError (OutputInfo × Bytes)
    unfolding compile_step
    compile_memory d task =
        let temp = system.new_temp d (codes ".o") in
        let (d', o) = compile_step d (record task { output_object = some temp }) in
        (
          system.remove d' temp,
          o >>= λ output. system.read_file d' temp >>= λ content. ok (output, content),
        )
