-- ===== src/Vs/Steps/Tests.antt =====
-- Tests of the steps of cl.exe, some of them of the tests of vs/compiler.rs.
use octobuild.Prelude.{true, List, [], ◌∷◌, ◌++◌, Text, Bytes, none, some, ok, codes, ◌≡◌, refl}
use octobuild.Compiler.{
  preprocessor, compiler, shared, ignore, flag, param, OutputInfo, CompilationTask,
}
use octobuild.Compiler.Run.{System}
use octobuild.Io.MemStream.{MemReader}
use octobuild.Vs.Postprocess.Filter.{Encoding}
use octobuild.Vs.Steps.{preprocess_args, compile_args, prepare_output}
use octobuild.Vs.Steps.Output.{prepare_output_lem}

abbrev small : CompilationTask
small = record {
  shared_args = record {
    command = record { program = codes "cl.exe"; current_dir = none; env = [] };
    args =
        flag ignore (codes "c")
        ∷ param preprocessor (codes "I") (codes "inc")
        ∷ flag compiler (codes "O2")
        ∷ param shared (codes "D") (codes "X")
        ∷ [];
    input_precompiled = none;
    output_precompiled = none;
    marker_precompiled = none;
  };
  language = codes "P";
  input_source = codes "a.cpp";
  output_object = codes "a.obj";
}

small-preprocess_args :
    preprocess_args small
    ≡ codes "/Iinc"
      ∷ codes "/DX"
      ∷ codes "/nologo"
      ∷ codes "/TP"
      ∷ codes "/E"
      ∷ codes "/we4002"
      ∷ codes "a.cpp"
      ∷ codes "/Foa.obj"
      ∷ []
unfolding preprocess_args
small-preprocess_args = refl

small-compile_args :
    compile_args small ≡ codes "/O2" ∷ codes "/DX" ∷ codes "/nologo" ∷ codes "/TP" ∷ []
unfolding compile_args
small-compile_args = refl

abbrev stream_of : Bytes → MemReader
stream_of b = record { offset = 0; iter = record { size = 0; iter = [] }; last = some b }

abbrev compiled : OutputInfo
compiled = record { status = some 0; stdout = codes "int x;"; stderr = [] }

-- A system on which every process prints the same.
abbrev printing : System (List Text)
printing = record {
  run = λ d p. (p.program ∷ d, ok compiled);
  create = λ d path b. (path ∷ d, ok tt);
  read_file = λ d path. ok [];
  remove = λ d path. d;
  new_temp = λ d suffix. codes "t" ++ suffix;
  var = λ name. none;
  is_absolute = λ path. true;
  file_name = λ path. some path;
}

abbrev ascii : Encoding
ascii = record { utf8 = λ t. t; ansi = λ t. ok t }

prepare_output_lem_example :
    prepare_output (λ b. b) (codes "a.i") (codes "a.i" ++ 13 ∷ ((10 ∷ []) ++ codes "warning")) true
    ≡ codes "warning"
prepare_output_lem_example =
    prepare_output_lem (λ b. b) (codes "a.i") 13 (10 ∷ []) (codes "warning") true (refl, (refl, tt))
      refl
