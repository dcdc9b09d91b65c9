-- ===== src/Compiler/Run.antt =====
-- What the steps of both front ends share: the command that is run, and what runs it. The system, with
-- its processes and files, is the parameter `System`.
use octobuild.Prelude.{
  Bool, true, false, List, [], Option, Text, Bytes, Result, ◌>>=◌, if◌then◌else◌,
}
use octobuild.Compiler.{
  Scope, preprocessor, compiler, shared, ignore, CommandInfo, OutputInfo, success,
}
use octobuild.Compiler.Task.{PreprocessResult, failed}
use octobuild.Io.Stream.{IoError}

-- A process that is started: its environment is cleared before `env` is set.
pub record Process : Type 0 where
  pub program : Text
  pub current_dir : Option Text
  pub env : List (Text × Text)
  pub args : List Text
  pub stdin : Bytes

-- `std::process`, `std::fs` and `std::env`, and `TempFile`. `run` waits for the output, and a file that
-- cannot be removed stays.
pub record System (D : Type 0) : Type 0 where
  pub run : D → Process → D × Result IoError OutputInfo
  pub create : D → Text → Bytes → D × Result IoError (Unit {0})
  pub read_file : D → Text → Result IoError Bytes
  pub remove : D → Text → D
  pub new_temp : D → Text → Text
  pub var : Text → Option Text
  pub is_absolute : Text → Bool
  pub file_name : Text → Option Text

-- `CommandInfo::to_command`, with the arguments and nothing to read.
abbrev pub to_command : CommandInfo → List Text → Process
to_command command args = record {
  program = command.program;
  current_dir = command.current_dir;
  env = command.env;
  args = args;
  stdin = [];
}

-- The scopes whose arguments are given to the preprocessor.
abbrev pub is_preprocessed : Scope → Bool
is_preprocessed preprocessor = true
is_preprocessed shared = true
is_preprocessed ignore = false
is_preprocessed compiler = false

-- And to the compiler.
abbrev pub is_compiled : Scope → Bool
is_compiled compiler = true
is_compiled shared = true
is_compiled ignore = false
is_compiled preprocessor = false

-- The result of a preprocessor that did not succeed.
abbrev pub failure : OutputInfo → PreprocessResult
failure output = failed (record output { stdout = [] })

-- The end of a preprocessor whose output is taken as it is.
abbrev pub executed : OutputInfo → PreprocessResult
executed output = if success output then PreprocessResult.success output.stdout else failure output

-- The next state with a result.
abbrev pub map_result :
    {D A B : Type 0} → (A → Result IoError B) → D × Result IoError A → D × Result IoError B
map_result f (d, r) = (d, r >>= f)
