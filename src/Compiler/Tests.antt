-- ===== src/Compiler/Tests.antt =====
-- Tests of the key of a compilation.
use octobuild.Prelude.{[], ◌∷◌, Option, none, some, Bytes, codes, ◌≡◌, refl, arith}
use octobuild.Compiler.Key.{CompileStep, hashed, is_some}
use octobuild.Compiler.Key.Injective.{IsSized, hashed-injective}

abbrev one_file : CompileStep
one_file = record {
  args = codes "-O2" ∷ codes "-c" ∷ [];
  input_precompiled = some (codes "a.pch");
  output_object = some (codes "a.o");
  output_precompiled = none;
  preprocessed = codes "int x;";
}

-- The same compilation to another object file.
abbrev elsewhere : CompileStep
elsewhere = record one_file { output_object = some (codes "b.o") }

one_file-IsSized : IsSized one_file
one_file-IsSized = record {
  preprocessed_short = omega arith;
  few_args = omega arith;
  args_short = (omega arith, (omega arith, tt));
}

elsewhere-IsSized : IsSized elsewhere
elsewhere-IsSized = record {
  preprocessed_short = omega arith;
  few_args = omega arith;
  args_short = (omega arith, (omega arith, tt));
}

-- The hash of `a.pch`.
abbrev header : Option Bytes
header = some (1 ∷ 2 ∷ [])

hashed-injective_example :
    (one_file.preprocessed ≡ elsewhere.preprocessed)
    × (one_file.args ≡ elsewhere.args)
    × (header ≡ header)
    × (is_some one_file.output_precompiled ≡ is_some elsewhere.output_precompiled)
unfolding hashed
hashed-injective_example =
    hashed-injective one_file elsewhere header header one_file-IsSized elsewhere-IsSized
      (omega arith, omega arith) (omega arith, omega arith) refl
