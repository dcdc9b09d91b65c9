-- ===== src/Vs/Steps/Preprocessed.antt =====
-- What `preprocess_step` of vs/compiler.rs gives to the compiler.
use octobuild.Prelude.{◌+◌, Bool, true, false, [], Bytes, Result, ok, err, ◌||◌, ◌≡◌, length}
use octobuild.Compiler.{CompilationTask}
use octobuild.Compiler.Key.{is_some}
use octobuild.Io.Stream.{IoError, Reader, IsReader, vec_writer}
use octobuild.Vs.Postprocess.Buffer.{
  ScanError, io, unwrap_none, index_out_of_bounds, out_of_fuel, Scan,
}
use octobuild.Vs.Postprocess.Filter.{Encoding, filter_preprocessed}
use octobuild.Vs.Postprocess.Filtered.{Filtered}

-- The errors of the input.
abbrev pub IsRefusal : ScanError → Type 0
IsRefusal (io e) = ⊥
IsRefusal unwrap_none = ⊥
IsRefusal index_out_of_bounds = ⊥
IsRefusal out_of_fuel = ⊥
IsRefusal _ = Unit

-- A task with a precompiled header, used or made.
abbrev pub has_header : CompilationTask → Bool
has_header task =
    is_some task.shared_args.input_precompiled || is_some task.shared_args.output_precompiled

module _ {C : Type 0} (cursor : Reader C) (cursor_of : Bytes → C) (Valid : C → Type 0)
    (rest : C → Bytes) (laws : IsReader cursor Valid rest)
    (starts : (b : Bytes) → Valid (cursor_of b) × (rest (cursor_of b) ≡ b)) (enc : Encoding)
    (scan_error : ScanError → IoError) where
  -- `content` is the output `stdout` of the preprocessor with the mark put in, and without the headers
  -- but if the task makes the precompiled header.
  abbrev pub IsFiltered : CompilationTask → Bytes → Bytes → Type 0
  IsFiltered task stdout content =
      Filtered (is_some task.shared_args.output_precompiled) stdout [] content

  -- The run of the filter on the output of the preprocessor.
  abbrev pub run_of : CompilationTask → Bytes → Scan Bytes
  run_of task stdout =
      filter_preprocessed vec_writer (is_some task.shared_args.output_precompiled) cursor 65536 enc
        task.shared_args.marker_precompiled (length stdout + 1) (cursor_of stdout) []

  -- The results of the filter: it succeeds, it refuses the input, the encoding fails, or `parse_path`
  -- panics.
  pub data IsContent (task : CompilationTask) (stdout : Bytes) : Result IoError Bytes → Type 0 where
    whole : has_header task ≡ false → IsContent task stdout (ok stdout)
    filtered :
        {content : Bytes}
        → has_header task ≡ true
        → IsFiltered task stdout content
        → IsContent task stdout (ok content)
    refused :
        {e : ScanError}
        → has_header task ≡ true
        → run_of task stdout ≡ err e
        → IsRefusal e
        → IsContent task stdout (err (scan_error e))
    fails :
        {e : IoError}
        → has_header task ≡ true
        → run_of task stdout ≡ err (io e)
        → IsContent task stdout (err e)
    panics :
        has_header task ≡ true
        → run_of task stdout ≡ err unwrap_none
        → IsContent task stdout (err IoError.panic)
