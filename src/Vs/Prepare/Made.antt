-- ===== src/Vs/Prepare/Made.antt =====
-- The tasks that `create_tasks` for cl.exe makes are those of the source files, in order.
use mathlib.Core.Path.{subst}
use octobuild.Prelude.{
  List, [], ◌∷◌, Option, Text, codes, Result, ok, ◌>>=◌, bind-eq-ok, ok-injective, ◌≡◌, refl, sym,
  List-cases, Option-cases, ◌≢◌, ◌∙◌, inl, inr,
}
use octobuild.Compiler.{
  Arg, CommandInfo, CompilationArgs, CompilationTask, Paths, TaskError, too_many_precompiled,
  too_many_outputs, too_many_languages,
}
use octobuild.Compiler.Params.{
  filter_map, find_param, source_file, object_file, precompiled_file, param_named, at_most_one,
}
use octobuild.Vs.Prepare.{parse_arguments}
use octobuild.Vs.Prepare.Tasks.{
  in_dir, map_option, get_output_object, detected_language, marker_file, Precompiled,
  precompiled_of, task_of, tasks_of, tasks_of_args, create_tasks,
}

module _ (paths : Paths) where
  pub record IsTask (args : CompilationArgs) (object : Option Text) (file : Text)
      (t : CompilationTask) : Type 0 where
    pub shares : t.shared_args ≡ args
    pub source_is : t.input_source ≡ in_dir paths args.command.current_dir file
    pub object_is :
        get_output_object paths (in_dir paths args.command.current_dir file) object
        ≡ ok t.output_object

  abbrev pub AreTasks : CompilationArgs → Option Text → List Text → List CompilationTask → Type 0
  AreTasks args object [] [] = Unit
  AreTasks args object (f ∷ fs) (t ∷ ts) = IsTask args object f t × AreTasks args object fs ts
  AreTasks args object _ _ = ⊥

  abbrev made_task : CompilationArgs → Text → Text → Text → CompilationTask
  made_task args lang source object = record {
    shared_args = args;
    language = lang;
    input_source = source;
    output_object = object;
  }

  task_of-ok :
      (args : CompilationArgs) (language object : Option Text) (file : Text) (t : CompilationTask)
      → task_of paths args language object file ≡ ok t
      → IsTask args object file t
  unfolding task_of
  task_of-ok args language object file t e =
      let source = in_dir paths args.command.current_dir file in
      elim (Option-cases (detected_language paths language source)) [
        | inl p ↦ cc (rw (p, task_of) at e)
        | inr (lang, p) ↦
            let e' : (get_output_object paths source object >>= λ o.
            ok (made_task args lang source o))
                ≡ ok t =
              rw (p, task_of) at e in
            let (o, eo, e2) =
              bind-eq-ok (get_output_object paths source object)
                (λ o. ok (made_task args lang source o)) e' in
            subst (IsTask args object file) (ok-injective e2)
              (record { shares = refl; source_is = refl; object_is = eo })
      ]

  tasks_of-ok :
      (args : CompilationArgs) (language object : Option Text) (files : List Text)
      (ts : List CompilationTask)
      → tasks_of paths args language object files ≡ ok ts
      → AreTasks args object files ts
  unfolding tasks_of
  tasks_of-ok args language object [] [] e = tt
  tasks_of-ok args language object [] (t ∷ ts) e = cc
  tasks_of-ok args language object (f ∷ fs) ts e =
      let rest = tasks_of paths args language object fs in
      let (t, et, e1) =
        bind-eq-ok (task_of paths args language object f) (λ t. rest >>= λ us. ok (t ∷ us)) e in
      let (us, eu, e2) = bind-eq-ok rest (λ us. ok (t ∷ us)) e1 in
      subst (AreTasks args object (f ∷ fs)) (ok-injective e2)
        (task_of-ok args language object f t et, tasks_of-ok args language object fs us eu)

  -- What the tasks of one command line have in common.
  pub record Made (command : CommandInfo) (parsed : List Arg) (ts : List CompilationTask)
      : Type 0 where
    pub args : CompilationArgs
    pub object : Option Text
    pub command_is : args.command ≡ command
    pub args_are : args.args ≡ parsed
    pub object_is : at_most_one too_many_outputs (find_param parsed object_file) ≡ ok object
    pub some_source : filter_map source_file parsed ≢ []
    pub tasks_are :
        AreTasks args
          (map_option paths (in_dir paths command.current_dir) object)
          (filter_map source_file parsed)
          ts

  abbrev shared_of : CommandInfo → List Arg → Precompiled → CompilationArgs
  shared_of command parsed pch = record {
    command = command;
    args = parsed;
    input_precompiled = map_option paths (in_dir paths command.current_dir) pch.input_path;
    output_precompiled = map_option paths (in_dir paths command.current_dir) pch.output_path;
    marker_precompiled = pch.marker;
  }

  tasks_of_args-ok :
      (command : CommandInfo) (parsed : List Arg) (ts : List CompilationTask)
      → tasks_of_args paths command parsed ≡ ok ts
      → Made command parsed ts
  unfolding tasks_of_args
  tasks_of_args-ok command parsed ts e = elim (List-cases (filter_map source_file parsed)) [
    | inl none_ ↦ cc (rw (none_, tasks_of_args) at e)
    | inr (f, fs, s) ↦
        let (file, _, e1) =
          bind-eq-ok (at_most_one too_many_precompiled (find_param parsed precompiled_file)) _
            (rw (s, tasks_of_args) at e) in
        let (pch, _, e2) =
          bind-eq-ok (precompiled_of paths file (find_param parsed marker_file)) _ e1 in
        let (object, eo, e3) =
          bind-eq-ok (at_most_one too_many_outputs (find_param parsed object_file)) _ e2 in
        let (language, _, e4) =
          bind-eq-ok (at_most_one too_many_languages (find_param parsed (param_named (codes "T"))))
            _ e3 in
        record {
          args = shared_of command parsed pch;
          object = object;
          command_is = refl;
          args_are = refl;
          object_is = eo;
          some_source = λ z. cc (sym s ∙ z);
          tasks_are =
              let given = map_option paths (in_dir paths command.current_dir) object in
              subst (λ fs'. AreTasks (shared_of command parsed pch) given fs' ts) (sym s)
                (tasks_of-ok (shared_of command parsed pch) language given (f ∷ fs) ts e4);
        }
  ]

  -- Where `create_tasks` for cl.exe succeeds, the arguments of the command and its response files are
  -- read and parse, and name a source file; there is one task for each source file, in order, on the
  -- same command and arguments. Its source is taken in the command's directory, and its object file is
  -- what `get_output_object` gives for it and the one object file that is given, or none.
  pub create_tasks-Made :
      (load_arguments : Option Text → List Text → Result TaskError (List Text))
      (command : CommandInfo) (args : List Text) (ts : List CompilationTask)
      → create_tasks paths load_arguments command args ≡ ok ts
      → (loaded : List Text) × (parsed : List Arg) × (load_arguments command.current_dir args
          ≡ ok loaded)
        × (parse_arguments loaded ≡ ok parsed)
        × Made command parsed ts
  unfolding create_tasks
  create_tasks-Made load_arguments command args ts e =
      let (loaded, el, e1) = bind-eq-ok (load_arguments command.current_dir args) _ e in
      let (parsed, ep, e2) = bind-eq-ok (parse_arguments loaded) _ e1 in
      (loaded, parsed, el, ep, tasks_of_args-ok command parsed ts e2)
