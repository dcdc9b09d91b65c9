-- ===== src/Clang/Prepare/Tasks.antt =====
-- The tasks that `create_tasks` makes are those of the source files, in order.
use mathlib.Core.Path.{subst}
use octobuild.Prelude.{
  List, [], ◌∷◌, Option, none, some, Text, codes, ok, ◌>>=◌, bind-eq-ok, ok-injective, ◌≡◌, refl,
  sym, ap, arith, ◌⊎◌, inl, inr, Bool-cases, List-cases, length,
}
use octobuild.Compiler.{
  Arg, CommandInfo, CompilationArgs, CompilationTask, Paths, too_many_precompiled,
}
use octobuild.Compiler.Params.{
  filter_map, ParamValue, absent, single, many, find_param, param_value, source_file, object_file,
  precompiled_file, param_named, at_most_one,
}
use octobuild.Clang.Prepare.{
  parse_arguments, any_eq, task_of, tasks_of, output_of, language_of, tasks_of_args, create_tasks,
  tasks_of_sources, tasks_in_language, shared_args_of,
}

module _ (paths : Paths) where
  -- The object file of a task: the one that is given, or the source's name with another extension.
  abbrev pub object_for : Option Text → Text → Text
  object_for none file = paths.with_extension file (codes "o")
  object_for (some path) file = path

  pub record IsTask (args : CompilationArgs) (object : Option Text) (file : Text)
      (t : CompilationTask) : Type 0 where
    pub shares : t.shared_args ≡ args
    pub source_is : t.input_source ≡ file
    pub object_is : t.output_object ≡ object_for object file

  abbrev pub AreTasks : CompilationArgs → Option Text → List Text → List CompilationTask → Type 0
  AreTasks args object [] [] = Unit
  AreTasks args object (f ∷ fs) (t ∷ ts) = IsTask args object f t × AreTasks args object fs ts
  AreTasks args object _ _ = ⊥

  task_of-ok :
      (args : CompilationArgs) (language object : Option Text) (file : Text) (t : CompilationTask)
      → task_of paths args language object file ≡ ok t
      → IsTask args object file t
  unfolding task_of
  task_of-ok args language object file t e = ground arith

  tasks_of-ok :
      (args : CompilationArgs) (language object : Option Text) (files : List Text)
      (ts : List CompilationTask)
      → tasks_of paths args language object files ≡ ok ts
      → AreTasks args object files ts
  unfolding tasks_of
  tasks_of-ok args language object [] [] e = tt
  tasks_of-ok args language object [] (t ∷ ts) e = cc
  tasks_of-ok args language object (f ∷ fs) ts e =
      let (t, et, e1) =
        bind-eq-ok (task_of paths args language object f)
          (λ t. tasks_of paths args language object fs >>= λ us. ok (t ∷ us)) e in
      let (us, eu, e2) =
        bind-eq-ok (tasks_of paths args language object fs) (λ us. ok (t ∷ us)) e1 in
      subst (AreTasks args object (f ∷ fs)) (ok-injective e2)
        (task_of-ok args language object f t et, tasks_of-ok args language object fs us eu)

  abbrev pub as_list : Option Text → List Text
  as_list none = []
  as_list (some v) = v ∷ []

  -- What the tasks of one command line have in common.
  pub record Made (command : CommandInfo) (parsed : List Arg) (ts : List CompilationTask)
      : Type 0 where
    pub args : CompilationArgs
    pub object : Option Text
    pub command_is : args.command ≡ command
    pub args_are : args.args ≡ parsed
    pub precompiled_is :
        at_most_one too_many_precompiled (find_param parsed precompiled_file)
        ≡ ok args.input_precompiled
    pub tasks_are : AreTasks args object (filter_map source_file parsed) ts
    -- the output file of the tasks is what `-o` gives, once
    pub object_is : filter_map object_file parsed ≡ as_list object
    -- a given output file is that of the only task
    pub one_output : (object ≡ none) ⊎ (length (filter_map source_file parsed) ≡ 1)

  output_of-ok :
      (f : Text) (fs : List Text) (p : ParamValue Text) (object : Option Text)
      → output_of (f ∷ fs) p ≡ ok object
      → (object ≡ none) ⊎ (length (f ∷ fs) ≡ 1)
  output_of-ok f fs absent object e = inl cc
  output_of-ok f [] (single v) object e = inr (omega arith)
  output_of-ok f (g ∷ fs) (single v) object e = cc
  output_of-ok f fs (many vs) object e = cc

  output_of-given :
      (f : Text) (fs vs : List Text) (object : Option Text)
      → output_of (f ∷ fs) (param_value vs) ≡ ok object
      → vs ≡ as_list object
  output_of-given f fs [] object e = ap as_list (ok-injective e)
  output_of-given f [] (v ∷ []) object e = ap as_list (ok-injective e)
  output_of-given f (g ∷ fs) (v ∷ []) object e = cc
  output_of-given f fs (v ∷ u ∷ vs) object e = cc

  tasks_in_language-ok :
      (command : CommandInfo) (parsed : List Arg) (pch object : Option Text) (f : Text)
      (fs : List Text) (language : Option (Option Text)) (ts : List CompilationTask)
      → filter_map source_file parsed ≡ f ∷ fs
      → at_most_one too_many_precompiled (find_param parsed precompiled_file) ≡ ok pch
      → filter_map object_file parsed ≡ as_list object
      → (object ≡ none) ⊎ (length (f ∷ fs) ≡ 1)
      → tasks_in_language paths (shared_args_of paths command parsed pch) object (f ∷ fs) language
        ≡ ok ts
      → (ts ≡ []) ⊎ Made command parsed ts
  tasks_in_language-ok command parsed pch object f fs none ts s ep given one e =
      inl (sym (ok-injective e))
  tasks_in_language-ok command parsed pch object f fs (some language) ts s ep given one e =
      inr (record {
        args = shared_args_of paths command parsed pch;
        object = object;
        command_is = refl;
        args_are = refl;
        precompiled_is = ep;
        tasks_are =
            subst (λ fs'. AreTasks (shared_args_of paths command parsed pch) object fs' ts) (sym s)
              (tasks_of-ok (shared_args_of paths command parsed pch) language object (f ∷ fs) ts e);
        object_is = given;
        one_output = subst (λ fs'. (object ≡ none) ⊎ (length fs' ≡ 1)) (sym s) one;
      })

  tasks_of_sources-ok :
      (command : CommandInfo) (parsed : List Arg) (f : Text) (fs : List Text)
      (ts : List CompilationTask)
      → filter_map source_file parsed ≡ f ∷ fs
      → tasks_of_sources paths command parsed f fs ≡ ok ts
      → (ts ≡ []) ⊎ Made command parsed ts
  unfolding tasks_of_sources
  tasks_of_sources-ok command parsed f fs ts s e =
      let (pch, ep, e1) =
        bind-eq-ok (at_most_one too_many_precompiled (find_param parsed precompiled_file)) _ e in
      let (object, eo, e2) = bind-eq-ok (output_of (f ∷ fs) (find_param parsed object_file)) _ e1 in
      let (language, _, e3) =
        bind-eq-ok (language_of (find_param parsed (param_named (codes "x")))) _ e2 in
      tasks_in_language-ok command parsed pch object f fs language ts s ep
        (output_of-given f fs (filter_map object_file parsed) object eo)
        (output_of-ok f fs (find_param parsed object_file) object eo) e3

  tasks_of_args-ok :
      (command : CommandInfo) (parsed : List Arg) (ts : List CompilationTask)
      → tasks_of_args paths command parsed ≡ ok ts
      → (ts ≡ []) ⊎ Made command parsed ts
  unfolding tasks_of_args
  tasks_of_args-ok command parsed ts e = elim (List-cases (filter_map source_file parsed)) [
    | inl none_ ↦ cc (rw (none_, tasks_of_args) at e)
    | inr (f, fs, s) ↦ tasks_of_sources-ok command parsed f fs ts s (rw (s, tasks_of_args) at e)
  ]

  -- Where `create_tasks` succeeds it leaves the command to a local run, with no task, or the command
  -- line is parsed and there is one task for each source file, in order, on the same command and
  -- arguments; its object file is the one that a single `-o` gives, and then it is the only task, or,
  -- where there is no `-o`, has the source's name with the extension `o`.
  pub create_tasks_lem :
      (command : CommandInfo) (args : List Text) (ts : List CompilationTask)
      → create_tasks paths command args ≡ ok ts
      → (ts ≡ [])
        ⊎ ((parsed : List Arg) × (parse_arguments args ≡ ok parsed) × Made command parsed ts)
  unfolding create_tasks
  create_tasks_lem command args ts e = elim (Bool-cases (any_eq (codes "--analyze") args)) [
    | inl analyze ↦ inl (cc (rw (analyze, create_tasks) at e))
    | inr no_analyze ↦ elim (Bool-cases (any_eq (codes "-c") args)) [
      | inr links ↦ inl (cc (rw (no_analyze, links, create_tasks) at e))
      | inl compiles ↦
          let e' : (parse_arguments args >>= λ parsed. tasks_of_args paths command parsed) ≡ ok ts =
            rw (no_analyze, compiles, create_tasks) at e in
          let (parsed, ep, e1) = bind-eq-ok (parse_arguments args) _ e' in
          elim (tasks_of_args-ok command parsed ts e1) [
            | inl nothing ↦ inl nothing
            | inr made ↦ inr (parsed, ep, made)
          ]
    ]
  ]
