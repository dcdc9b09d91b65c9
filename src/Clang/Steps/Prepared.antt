-- ===== src/Clang/Steps/Prepared.antt =====
-- The tasks of clang's `create_tasks` pass the assertion of `CompileStep::new`.
use mathlib.Core.Path.{subst}
use octobuild.Prelude.{
  ℕ, zero, suc, Bool, List, [], ◌∷◌, ◌++◌, Option, none, some, Text, Bytes, codes, Result, ok, err,
  drop, ◌≡◌, refl, ap, sym, ◌∙◌, arith, inl, inr, ok-injective, length, Result-cases, starts_with,
  Bool-cases, Option-cases,
}
use octobuild.Compiler.{
  Arg, Scope, CommandInfo, CompilationArgs, CompilationTask, Paths, too_many_precompiled,
}
use octobuild.Compiler.Key.{CompileStep}
use octobuild.Compiler.Params.{
  filter_map, precompiled_file, source_file, find_param, param_value, at_most_one,
}
use octobuild.Compiler.Task.{new_step}
use octobuild.Clang.Prepare.{
  is_spaceable_param, long_value, long_argument, with_value, spaceable_argument, plain_argument,
  parse_argument, parse_loop, parse_arguments, create_tasks, has_param_prefix, collected,
  split_at_equals,
}
use octobuild.Clang.Prepare.Tasks.{AreTasks, create_tasks_lem}
use octobuild.Clang.Steps.{compile_args, compile_prepare_step}

-- No result of the parser is a precompiled header.
abbrev Plain : Result Text Arg → Type 0
Plain p = (a : Arg) → p ≡ ok a → precompiled_file a ≡ none

long_value-Plain : (key value : Text) → Plain (long_value key value)
long_value-Plain key value a e = ground arith

plain_argument-Plain : (arg name : Text) → Plain (plain_argument arg name)
unfolding plain_argument
plain_argument-Plain arg name a e = ground arith

with_value-Plain :
    (name prefix value : Text) (scope : Scope)
    → precompiled_file (with_value name prefix scope value) ≡ none
with_value-Plain name prefix value scope = ground arith

spaceable_argument-Plain :
    (arg name prefix : Text) (scope : Scope) (next_flag : Bool) (rest : List Text)
    → Plain (spaceable_argument arg name prefix scope next_flag rest).0
unfolding spaceable_argument
spaceable_argument-Plain arg name prefix scope next_flag [] a e = ground arith
spaceable_argument-Plain arg name prefix scope next_flag (v ∷ vs) a e = ground arith

value_of-Plain :
    (arg : Text) (rest : List Text) (o : Option (Text × Text))
    → Plain
        (elim o as (λ x. Result Text Arg × List Text) [
          | some (key, value) ↦ (long_value (drop 1 key) value, rest)
          | none ↦ elim rest [ [] ↦ (err arg, []) | v ∷ vs ↦ (long_value (drop 1 arg) v, vs) ]
        ]).0
value_of-Plain arg rest (some (key, value)) a e = long_value-Plain (drop 1 key) value a e
value_of-Plain arg [] none a e = cc
value_of-Plain arg (v ∷ vs) none a e = long_value-Plain (drop 1 arg) v a e

long_argument-Plain : (arg : Text) (rest : List Text) → Plain (long_argument arg rest).0
unfolding long_argument
long_argument-Plain arg rest = value_of-Plain arg rest (split_at_equals arg)

parse_argument-Plain : (arg : Text) (rest : List Text) → Plain (parse_argument arg rest).0
unfolding parse_argument
parse_argument-Plain arg rest a e = elim (Bool-cases (starts_with (codes "--") arg)) [
  | inl long ↦ long_argument-Plain arg rest a (rw (long, parse_argument) at e)
  | inr short ↦ elim (Bool-cases (has_param_prefix arg)) [
    | inr file ↦ cc (rw (short, file, parse_argument) at e)
    | inl named ↦ elim (Option-cases (is_spaceable_param (drop 1 arg))) [
      | inl none_ ↦
          plain_argument-Plain arg (drop 1 arg) a (rw (short, named, none_, parse_argument) at e)
      | inr ((prefix, scope, next_flag), spaceable) ↦
          spaceable_argument-Plain arg (drop 1 arg) prefix scope next_flag rest a
            (rw (short, named, spaceable, parse_argument) at e)
    ]
  ]
]

filter_map-snoc :
    (xs : List Arg) (a : Arg)
    → filter_map precompiled_file xs ≡ []
    → precompiled_file a ≡ none
    → filter_map precompiled_file (xs ++ a ∷ []) ≡ []
filter_map-snoc [] a h e = rw (e, filter_map) refl
filter_map-snoc (x ∷ xs) a h e = ground (arith, filter_map-snoc xs a)

collected-Plain :
    (result parsed : List Arg) (errors : List Text)
    → filter_map precompiled_file result ≡ []
    → collected result errors ≡ ok parsed
    → filter_map precompiled_file parsed ≡ []
collected-Plain result parsed [] h e = ap (filter_map precompiled_file) (sym (ok-injective e)) ∙ h
collected-Plain result parsed (x ∷ errors) h e = cc

parse_loop-Plain :
    (fuel : ℕ) (args : List Text) (result parsed : List Arg) (errors : List Text)
    → filter_map precompiled_file result ≡ []
    → parse_loop fuel args result errors ≡ ok parsed
    → filter_map precompiled_file parsed ≡ []
unfolding parse_loop
parse_loop-Plain zero args result parsed errors h e = collected-Plain result parsed errors h e
parse_loop-Plain (suc fuel) [] result parsed errors h e = collected-Plain result parsed errors h e
parse_loop-Plain (suc fuel) (arg ∷ rest) result parsed errors h e =
    elim (Result-cases (parse_argument arg rest).0) [
      | inl (a, ok_) ↦
          parse_loop-Plain fuel (parse_argument arg rest).1 (result ++ a ∷ []) parsed errors
            (filter_map-snoc result a h (parse_argument-Plain arg rest a ok_))
            (rw (ok_, parse_loop) at e)
      | inr (x, err_) ↦
          parse_loop-Plain fuel (parse_argument arg rest).1 result parsed (errors ++ x ∷ []) h
            (rw (err_, parse_loop) at e)
    ]

parse_arguments-Plain :
    (args : List Text) (parsed : List Arg)
    → parse_arguments args ≡ ok parsed
    → filter_map precompiled_file parsed ≡ []
unfolding parse_arguments
parse_arguments-Plain args parsed e = parse_loop-Plain (length args) args [] parsed [] refl e

abbrev pub All : (CompilationTask → Type 0) → List CompilationTask → Type 0
All P [] = Unit
All P (t ∷ ts) = P t × All P ts

module _ (paths : Paths) where
  abbrev pub IsPrepared : Bytes → CompilationTask → Type 0
  IsPrepared preprocessed t =
      (step : CompileStep) × (compile_prepare_step t preprocessed ≡ ok step)
      × (step.args ≡ compile_args t)
      × (step.output_object ≡ some t.output_object)
      × (step.preprocessed ≡ preprocessed)

  prepared :
      (t : CompilationTask) (preprocessed : Bytes)
      → t.shared_args.input_precompiled ≡ none
      → IsPrepared preprocessed t
  unfolding compile_prepare_step new_step
  prepared t preprocessed e =
      let step : CompileStep = record {
        args = compile_args t;
        input_precompiled = none;
        output_object = some t.output_object;
        output_precompiled = t.shared_args.output_precompiled;
        preprocessed = preprocessed;
      } in
      (step, rw (e, compile_prepare_step) refl, refl, refl, refl)

  AreTasks-IsPrepared :
      (args : CompilationArgs) (object : Option Text) (files : List Text)
      (ts : List CompilationTask) (preprocessed : Bytes)
      → args.input_precompiled ≡ none
      → AreTasks paths args object files ts
      → All (IsPrepared preprocessed) ts
  AreTasks-IsPrepared args object [] [] preprocessed e h = tt
  AreTasks-IsPrepared args object [] (t ∷ ts) preprocessed e h = absurd h
  AreTasks-IsPrepared args object (f ∷ fs) [] preprocessed e h = absurd h
  AreTasks-IsPrepared args object (f ∷ fs) (t ∷ ts) preprocessed e (is, more) = (
    prepared t preprocessed (ap (λ a. a.input_precompiled) is.shares ∙ e),
    AreTasks-IsPrepared args object fs ts preprocessed e more,
  )

  -- Every task that clang's `create_tasks` makes passes the assertion of `CompileStep::new`, which no
  -- task with a precompiled header passes: its step has the arguments of `compile_args`, the task's
  -- object file and the preprocessed text.
  pub compile_prepare_step-create_tasks :
      (command : CommandInfo) (args : List Text) (ts : List CompilationTask) (preprocessed : Bytes)
      → create_tasks paths command args ≡ ok ts
      → All (IsPrepared preprocessed) ts
  compile_prepare_step-create_tasks command args ts preprocessed e =
      elim (create_tasks_lem paths command args ts e) [
        | inl none_ ↦ subst (All (IsPrepared preprocessed)) (sym none_) tt
        | inr (parsed, ep, made) ↦
            let none_ : at_most_one too_many_precompiled (find_param parsed precompiled_file)
                ≡ ok none =
              ap (λ x. at_most_one too_many_precompiled (param_value x))
                (parse_arguments-Plain args parsed ep) in
            AreTasks-IsPrepared made.args made.object (filter_map source_file parsed) ts
              preprocessed (ok-injective (sym made.precompiled_is ∙ none_)) made.tasks_are
      ]
