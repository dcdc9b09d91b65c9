-- ===== src/Clang/Steps.antt =====
-- clang/compiler.rs: the commands of the two steps, and what becomes of their output.
pub mod Prepared
use octobuild.Prelude.{
  Bool, true, false, List, [], ◌∷◌, ◌++◌, Option, none, some, Text, Bytes, codes, Result, ok, err,
  if◌then◌else◌, concat, map,
}
use octobuild.Compiler.{Scope, Arg, flag, param, input, output, OutputInfo, CompilationTask}
use octobuild.Compiler.Key.{CompileStep}
use octobuild.Compiler.Task.{PreprocessResult, new_step, Toolchain}
use octobuild.Compiler.Run.{
  Process, System, to_command, is_preprocessed, is_compiled, executed, map_result,
}
use octobuild.Io.Stream.{IoError, panic}

-- What an argument adds to the command of a step that takes the arguments of these scopes.
abbrev pub arg_texts : (Scope → Bool) → Arg → List Text
arg_texts takes (flag scope name) = if takes scope then (codes "-" ++ name) ∷ [] else []
arg_texts takes (param scope name value) =
    if takes scope then (codes "-" ++ name) ∷ value ∷ [] else []
arg_texts takes (input _ _ _) = []
arg_texts takes (output _ _ _) = []

unfoldable pub preprocess_args : CompilationTask → List Text
preprocess_args task =
    codes "-E"
    ∷ codes "-x"
    ∷ task.language
    ∷ codes "-frewrite-includes"
    ∷ (concat (map (arg_texts is_preprocessed) task.shared_args.args)
        ++ (task.input_source ∷ codes "-o" ∷ codes "-" ∷ []))

unfoldable pub compile_args : CompilationTask → List Text
compile_args task =
    codes "-x" ∷ task.language ∷ concat (map (arg_texts is_compiled) task.shared_args.args)

-- `compile_prepare_step`; the assertion of `CompileStep::new` fails with a panic.
unfoldable pub compile_prepare_step : CompilationTask → Bytes → Result IoError CompileStep
unfolding compile_args new_step
compile_prepare_step task preprocessed =
    elim (new_step task preprocessed (compile_args task) false) [
      | none ↦ err panic
      | some step ↦ ok step
    ]

-- The compiler's command: it reads the preprocessed text, and writes to its output if no object file
-- is given.
unfoldable pub compile_command : Text → CompileStep → Process
compile_command path task = record {
  program = path;
  current_dir = none;
  env = [];
  args =
      codes "-c"
      ∷ (task.args
          ++ (codes "-"
              ∷ codes "-o"
              ∷ (elim task.output_object [ none ↦ codes "-" | some o ↦ o ])
              ∷ []));
  stdin = task.preprocessed;
}

module _ {D : Type 0} (system : System D) where
  unfoldable pub preprocess_step : D → CompilationTask → D × Result IoError PreprocessResult
  unfolding preprocess_args
  preprocess_step d task =
      map_result (λ o. ok (executed o))
        (system.run d (to_command task.shared_args.command (preprocess_args task)))

  unfoldable pub compile_step : Text → D → CompileStep → D × Result IoError OutputInfo
  unfolding compile_command
  compile_step path d task = system.run d (compile_command path task)

  abbrev pub toolchain : Text → Toolchain D
  unfolding preprocess_step compile_prepare_step compile_step
  toolchain path = record {
    preprocess_step = preprocess_step;
    compile_prepare_step = compile_prepare_step;
    compile_step = compile_step path;
  }
