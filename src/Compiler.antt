-- ===== src/Compiler.antt =====
-- The data that the compiler front ends share (src/compiler.rs). A path is the text of its name; what
-- `std::path` and the file system do with paths is the parameter `Paths`.
pub mod Params
pub mod Key
pub mod Task
pub mod Run
mod Tests
use octobuild.Prelude.{
  ℕ, Bool, true, false, List, [], ◌∷◌, ◌++◌, ◌==◌, Option, none, some, Text, Bytes, ◌+◌, ◌&&◌, leb,
  if◌then◌else◌,
}

-- `Scope`: which of the two steps an argument is for; `ignore` is for neither.
pub data Scope : Type 0 where
  preprocessor compiler shared ignore : Scope

pub data InputKind : Type 0 where
  source marker precompiled : InputKind

pub data OutputKind : Type 0 where
  object marker : OutputKind

pub data Arg : Type 0 where
  flag : Scope → Text → Arg
  param : Scope → Text → Text → Arg
  input : InputKind → Text → Text → Arg
  output : OutputKind → Text → Text → Arg

pub record CommandInfo : Type 0 where
  pub program : Text
  pub current_dir : Option Text
  pub env : List (Text × Text)

-- `OutputInfo`; an exit code is the bit pattern of its `i32`.
pub record OutputInfo : Type 0 where
  pub status : Option ℕ
  pub stdout : Bytes
  pub stderr : Bytes

-- `OutputInfo::success`.
abbrev pub success : OutputInfo → Bool
success o = elim o.status [ some e ↦ e == 0 | none ↦ false ]

pub record CompilationArgs : Type 0 where
  pub command : CommandInfo
  pub args : List Arg
  pub input_precompiled : Option Text
  pub output_precompiled : Option Text
  pub marker_precompiled : Option Text

pub record CompilationTask : Type 0 where
  pub shared_args : CompilationArgs
  pub language : Text
  pub input_source : Text
  pub output_object : Text

-- `Path`, `PathBuf` and the file system, as far as the front ends ask them.
pub record Paths : Type 0 where
  pub extension : Text → Option Text
  pub with_extension : Text → Text → Text
  pub file_name : Text → Option Text
  pub join : Text → Text → Text
  pub is_dir : Text → Bool

abbrev ascii_lower : ℕ → ℕ
ascii_lower c = if leb b'A' c && leb c b'Z' then c + 32 else c

-- `eq_ignore_ascii_case`.
abbrev pub eq_ignore_ascii_case : Text → Text → Bool
eq_ignore_ascii_case [] [] = true
eq_ignore_ascii_case (x ∷ xs) (y ∷ ys) =
    ascii_lower x == ascii_lower y && eq_ignore_ascii_case xs ys
eq_ignore_ascii_case _ _ = false

-- What `create_tasks` of a front end refuses. The texts of the source name the arguments too.
pub data TaskError : Type 0 where
  -- "Found unknown command line arguments", with the arguments
  unknown_arguments : List Text → TaskError
  source_not_found : TaskError
  too_many_precompiled too_many_markers too_many_outputs too_many_languages : TaskError
  output_for_many_sources : TaskError
  unknown_language : Text → TaskError
  language_not_detected : Text → TaskError
  no_file_name : Text → TaskError
