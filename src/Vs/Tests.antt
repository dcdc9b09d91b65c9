-- ===== src/Vs/Tests.antt =====
-- Tests of the command lines of cl.exe, one of them of the tests of src/vs/prepare.rs.
use octobuild.Prelude.{
  false, List, [], ◌∷◌, ◌++◌, Option, none, some, Text, codes, Result, ok, ◌≡◌, refl,
}
use octobuild.Compiler.{
  shared, ignore, InputKind, OutputKind, Arg, flag, param, input, output, CommandInfo,
  CompilationArgs, CompilationTask, Paths, TaskError,
}
use octobuild.Vs.Prepare.{parse_arguments}
use octobuild.Vs.Prepare.Tasks.{create_tasks}
use octobuild.Vs.Prepare.Made.{Made, create_tasks-Made}

object_line :
    parse_arguments (
      codes "/TP"
      ∷ codes "/c"
      ∷ codes "/Yusample.h"
      ∷ codes "/Fpsample.h.pch"
      ∷ codes "/Fosample.cpp.o"
      ∷ codes "/DTEST"
      ∷ codes "/D"
      ∷ codes "TEST2"
      ∷ codes "sample.cpp"
      ∷ [])
    ≡ ok (
        param ignore (codes "T") (codes "P")
        ∷ flag ignore (codes "c")
        ∷ input InputKind.marker (codes "Yu") (codes "sample.h")
        ∷ input InputKind.precompiled (codes "Fp") (codes "sample.h.pch")
        ∷ output OutputKind.object (codes "Fo") (codes "sample.cpp.o")
        ∷ param shared (codes "D") (codes "TEST")
        ∷ param shared (codes "D") (codes "TEST2")
        ∷ input InputKind.source [] (codes "sample.cpp")
        ∷ [])
unfolding parse_arguments
object_line = refl

abbrev slash_paths : Paths
slash_paths = record {
  extension = λ p. some (codes "cpp");
  with_extension = λ p e. p ++ (codes "." ++ e);
  file_name = λ p. some p;
  join = λ a b. a ++ (codes "/" ++ b);
  is_dir = λ p. false;
}

abbrev cl : CommandInfo
cl = record { program = codes "cl.exe"; current_dir = some (codes "d"); env = [] }

abbrev two_sources : List Text
two_sources = codes "/c" ∷ codes "a" ∷ codes "b" ∷ []

-- No argument names a response file.
abbrev no_files : Option Text → List Text → Result TaskError (List Text)
no_files dir args = ok args

abbrev two_args : CompilationArgs
two_args = record {
  command = cl;
  args =
      flag ignore (codes "c")
      ∷ input InputKind.source [] (codes "a")
      ∷ input InputKind.source [] (codes "b")
      ∷ [];
  input_precompiled = none;
  output_precompiled = none;
  marker_precompiled = none;
}

abbrev two_tasks : List CompilationTask
two_tasks =
    record {
      shared_args = two_args;
      language = codes "P";
      input_source = codes "d/a";
      output_object = codes "d/a.obj";
    }
    ∷ record {
      shared_args = two_args;
      language = codes "P";
      input_source = codes "d/b";
      output_object = codes "d/b.obj";
    }
    ∷ []

create_two_tasks : create_tasks slash_paths no_files cl two_sources ≡ ok two_tasks
unfolding create_tasks
create_two_tasks = refl

create_tasks-Made_example :
    (loaded : List Text) × (parsed : List Arg) × (no_files cl.current_dir two_sources ≡ ok loaded)
    × (parse_arguments loaded ≡ ok parsed)
    × Made slash_paths cl parsed two_tasks
create_tasks-Made_example =
    create_tasks-Made slash_paths no_files cl two_sources two_tasks create_two_tasks
