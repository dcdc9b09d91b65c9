-- ===== src/Compiler/Params.antt =====
-- `find_param` and the filters over parsed arguments that both front ends use (clang/prepare.rs,
-- vs/prepare.rs).
use octobuild.Prelude.{
  List, [], ◌∷◌, Option, none, some, Text, text_eq, if◌then◌else◌, Result, ok, err,
}
use octobuild.Compiler.{Arg, param, input, output, InputKind, OutputKind, TaskError}

-- `filter_map` of the standard library.
abbrev pub filter_map {ℓ κ} : {A : Type ℓ} {B : Type κ} → (A → Option B) → List A → List B
filter_map f [] = []
filter_map f (x ∷ xs) = elim (f x) [ none ↦ filter_map f xs | some y ↦ y ∷ filter_map f xs ]

pub data ParamValue {ℓ} (R : Type ℓ) : Type ℓ where
  absent : ParamValue R
  single : R → ParamValue R
  many : List R → ParamValue R

-- By the number of values found.
abbrev pub param_value {ℓ} : {R : Type ℓ} → List R → ParamValue R
param_value [] = absent
param_value (x ∷ []) = single x
param_value (x ∷ y ∷ xs) = many (x ∷ y ∷ xs)

abbrev pub find_param {ℓ} : {R : Type ℓ} → List Arg → (Arg → Option R) → ParamValue R
find_param args filter = param_value (filter_map filter args)

-- The closures that the front ends pass to it.
abbrev pub source_file : Arg → Option Text
source_file (input InputKind.source _ file) = some file
source_file _ = none

abbrev pub precompiled_file : Arg → Option Text
precompiled_file (input InputKind.precompiled _ file) = some file
precompiled_file _ = none

abbrev pub object_file : Arg → Option Text
object_file (output OutputKind.object _ file) = some file
object_file _ = none

-- The value of the parameter `name`.
abbrev pub param_named : Text → Arg → Option Text
param_named name (param _ key value) = if text_eq key name then some value else none
param_named name _ = none

-- The `match` on a value that may be given once.
abbrev pub at_most_one {ℓ} : {R : Type ℓ} → TaskError → ParamValue R → Result TaskError (Option R)
at_most_one e absent = ok none
at_most_one e (single v) = ok (some v)
at_most_one e (many vs) = err e
