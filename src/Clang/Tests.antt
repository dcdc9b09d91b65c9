-- ===== src/Clang/Tests.antt =====
-- Tests of the command lines of clang, some of them of the tests of src/clang/prepare.rs.
use octobuild.Prelude.{false, List, [], ◌∷◌, ◌++◌, none, some, Text, codes, ok, ◌≡◌, ◌⊎◌, refl}
use octobuild.Compiler.{
  preprocessor, shared, ignore, InputKind, OutputKind, Arg, flag, param, input, output, CommandInfo,
  CompilationArgs, CompilationTask, Paths,
}
use octobuild.Clang.Prepare.{parse_argument, parse_arguments, create_tasks}
use octobuild.Clang.Prepare.Joined.{parse_argument-output}
use octobuild.Clang.Steps.Prepared.{All, IsPrepared, compile_prepare_step-create_tasks}
use octobuild.Clang.Prepare.Tasks.{Made, create_tasks_lem}

precompile_line :
    parse_arguments (
      codes "-x"
      ∷ codes "c++-header"
      ∷ codes "-pipe"
      ∷ codes "-D_LINUX64"
      ∷ codes "-I"
      ∷ codes "Runtime/Core/Private"
      ∷ codes "-std=c++11"
      ∷ codes "-o"
      ∷ codes "a.h.pch"
      ∷ codes "a.h"
      ∷ [])
    ≡ ok (
        param ignore (codes "x") (codes "c++-header")
        ∷ flag shared (codes "pipe")
        ∷ param shared (codes "D") (codes "_LINUX64")
        ∷ param preprocessor (codes "I") (codes "Runtime/Core/Private")
        ∷ flag shared (codes "std=c++11")
        ∷ output OutputKind.object (codes "o") (codes "a.h.pch")
        ∷ input InputKind.source [] (codes "a.h")
        ∷ [])
unfolding parse_arguments
precompile_line = refl

abbrev plain_paths : Paths
plain_paths = record {
  extension = λ p. some (codes "cpp");
  with_extension = λ p e. p ++ (codes "." ++ e);
  file_name = λ p. some p;
  join = λ a b. a ++ (codes "/" ++ b);
  is_dir = λ p. false;
}

abbrev clang : CommandInfo
clang = record { program = codes "clang"; current_dir = none; env = [] }

abbrev two_sources : List Text
two_sources = codes "-c" ∷ codes "a" ∷ codes "b" ∷ []

abbrev two_args : CompilationArgs
two_args = record {
  command = clang;
  args =
      flag ignore (codes "c")
      ∷ input InputKind.source [] (codes "a")
      ∷ input InputKind.source [] (codes "b")
      ∷ [];
  input_precompiled = none;
  output_precompiled = none;
  marker_precompiled = none;
}

-- What `create_tasks` makes of two sources.
abbrev two_tasks : List CompilationTask
two_tasks =
    record {
      shared_args = two_args;
      language = codes "c++";
      input_source = codes "a";
      output_object = codes "a.o";
    }
    ∷ record {
      shared_args = two_args;
      language = codes "c++";
      input_source = codes "b";
      output_object = codes "b.o";
    }
    ∷ []

create_two_tasks : create_tasks plain_paths clang two_sources ≡ ok two_tasks
unfolding create_tasks
create_two_tasks = refl

create_tasks_lem_example :
    (two_tasks ≡ [])
    ⊎ ((parsed : List Arg) × (parse_arguments two_sources ≡ ok parsed)
        × Made plain_paths clang parsed two_tasks)
create_tasks_lem_example = create_tasks_lem plain_paths clang two_sources two_tasks create_two_tasks

parse_argument-output_example :
    (parse_argument (codes "-o") (codes "a.o" ∷ codes "b" ∷ [])
      ≡ (ok (output OutputKind.object (codes "o") (codes "a.o")), codes "b" ∷ []))
    × (parse_argument (codes "-o" ++ codes "a.o") (codes "b" ∷ [])
        ≡ (ok (param shared (codes "o") (codes "a.o")), codes "b" ∷ []))
parse_argument-output_example = parse_argument-output b'a' (codes ".o") (codes "b" ∷ []) refl

compile_prepare_step-create_tasks_example : All (IsPrepared plain_paths (codes "int x;")) two_tasks
compile_prepare_step-create_tasks_example =
    compile_prepare_step-create_tasks plain_paths clang two_sources two_tasks (codes "int x;")
      create_two_tasks
