-- ===== src/Clang/Prepare/Joined.antt =====
-- The output file of clang may be given in two ways, `-o FILE` and `-oFILE`. Only the first is read as
-- an output.
use octobuild.Prelude.{ℕ, false, List, ◌∷◌, ◌++◌, Text, codes, ok, ◌≡◌, refl, arith}
use octobuild.Compiler.{shared, OutputKind, param, output}
use octobuild.Clang.Prepare.{has_param_prefix, parse_argument}

-- `-o FILE` is the output FILE, and `-oFILE` a parameter for both steps that names no output.
pub parse_argument-output :
    (c : ℕ) (file : Text) (rest : List Text)
    → has_param_prefix (c ∷ file) ≡ false
    → (parse_argument (codes "-o") ((c ∷ file) ∷ rest)
        ≡ (ok (output OutputKind.object (codes "o") (c ∷ file)), rest))
      × (parse_argument (codes "-o" ++ (c ∷ file)) rest
          ≡ (ok (param shared (codes "o") (c ∷ file)), rest))
unfolding parse_argument
parse_argument-output c file rest h = (ground arith, refl)
