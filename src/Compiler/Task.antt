-- ===== src/Compiler/Task.antt =====
-- `compile_task` and the functions that it calls, of compiler.rs. The steps that run a compiler are the
-- parameter `Toolchain`; they and the cache work on a disk. A preprocessed stream is its contents.
use octobuild.Prelude.{
  Bool, true, false, List, [], Option, none, some, Text, Bytes, Result, ok, err, ◌>>=◌,
}
use octobuild.Compiler.{OutputInfo, CompilationTask, Paths}
use octobuild.Compiler.Key.{CompileStep, cache_key, outputs_of}
use octobuild.Io.Stream.{IoError, Reader}
use octobuild.Io.FileCache.{Disk}
use octobuild.Io.FileCache.Store.{Archive, run_cached}

-- `CompileStep::new`; `none` is the failed assertion.
unfoldable pub new_step : CompilationTask → Bytes → List Bytes → Bool → Option CompileStep
new_step task preprocessed args use_precompiled =
    let step : Option Text → CompileStep = λ input_precompiled. record {
      args = args;
      input_precompiled = input_precompiled;
      output_object = some task.output_object;
      output_precompiled = task.shared_args.output_precompiled;
      preprocessed = preprocessed;
    } in
    elim use_precompiled [
      | true ↦ some (step task.shared_args.input_precompiled)
      | false ↦ elim task.shared_args.input_precompiled [ none ↦ some (step none) | some _ ↦ none ]
    ]

pub data PreprocessResult : Type 0 where
  success : Bytes → PreprocessResult
  failed : OutputInfo → PreprocessResult

pub record Toolchain (D : Type 0) : Type 0 where
  pub preprocess_step : D → CompilationTask → D × Result IoError PreprocessResult
  pub compile_prepare_step : CompilationTask → Bytes → Result IoError CompileStep
  pub compile_step : D → CompileStep → D × Result IoError OutputInfo

module _ {D : Type 0} (toolchain : Toolchain D) where
  -- The output without the object file, which the compiler writes to its output.
  unfoldable pub compile_memory : D → CompileStep → D × Result IoError (OutputInfo × Bytes)
  compile_memory d task =
      let (d', compiled) = toolchain.compile_step d (record task { output_object = none }) in
      (
        d',
        compiled >>= λ output.
            ok (
              record { status = output.status; stdout = []; stderr = output.stderr },
              output.stdout,
            ),
      )

  module _ {F S : Type 0} (disk : Disk D F) (archive : Archive D S) (r : Reader S) (paths : Paths)
      (cache_dir : Text) (file_hash : D → Text → Result IoError Bytes) (digest : Bytes → Text) where
    unfoldable pub compile_step_cached : D → CompileStep → D × Result IoError OutputInfo
    unfolding cache_key run_cached
    compile_step_cached d task = elim (cache_key (λ path. file_hash d path) digest task) [
      | err e ↦ (d, err e)
      | ok key ↦
          run_cached disk archive r 65536 paths cache_dir (λ d'. toolchain.compile_step d' task)
            (λ d'. true) d key (outputs_of task)
    ]

    -- What follows the preprocessing.
    abbrev pub compile_preprocessed :
        CompilationTask → D × Result IoError PreprocessResult → D × Result IoError OutputInfo
    compile_preprocessed task (d, err e) = (d, err e)
    compile_preprocessed task (d, ok (failed output)) = (d, ok output)
    compile_preprocessed task (d, ok (success preprocessed)) =
        elim (toolchain.compile_prepare_step task preprocessed) [
          | err e ↦ (d, err e)
          | ok step ↦ compile_step_cached d step
        ]

    unfoldable pub compile_task : D → CompilationTask → D × Result IoError OutputInfo
    unfolding compile_step_cached
    compile_task d task = compile_preprocessed task (toolchain.preprocess_step d task)
