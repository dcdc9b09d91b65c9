-- ===== src/Xg/Parser/Total.antt =====
-- The parsers of xg/parser.rs end: a unit of fuel for each event is enough.
use octobuild.Prelude.{
  ℕ, zero, suc, ◌<◌, ◌≤◌, Bool, true, false, List, [], ◌∷◌, Option, none, some, Text, text_eq,
  codes, Result, ok, err, ◌>>=◌, arith, length, if◌then◌else◌, get,
}
use octobuild.Xg.Parser.{
  XmlEvent, start_element, end_element, other_event, XgError, out_of_fuel, XgTool, XgTask,
  XgEnvironment, Parse, map_attributes, take_attr, parse_skip, element_loop, skipped, variable,
  tool, task, named, parse_variables, parse_tools, parse_tasks, parse_environment,
  parse_environments, BuildSet, build_set_element, parse_build_set, parse_root,
}

abbrev pub IsXgError : XgError → Type 0
IsXgError out_of_fuel = ⊥
IsXgError _ = Unit

-- A result that leaves no more events than `n`, or an error of the code.
abbrev pub Runs : {A : Type 0} → ℕ → Parse A → Type 0
Runs n (ok (a, es)) = length es ≤ n
Runs n (err e) = IsXgError e

abbrev Fails : {A : Type 0} → Result XgError A → Type 0
Fails (ok a) = Unit
Fails (err e) = IsXgError e

Runs-bind :
    {A B : Type 0} (n : ℕ) (m : Parse A) (f : A × List XmlEvent → Parse B)
    → Runs n m
    → ((a : A) (es : List XmlEvent) → length es ≤ n → Runs n (f (a, es)))
    → Runs n (m >>= f)
Runs-bind n (ok (a, es)) f h next = next a es h
Runs-bind n (err e) f h next = h

Runs-first :
    {A B : Type 0} (n : ℕ) (m : Result XgError A) (f : A → Parse B)
    → Fails m
    → ((a : A) → Runs n (f a))
    → Runs n (m >>= f)
Runs-first n (ok a) f h next = next a
Runs-first n (err e) f h next = h

Fails-bind :
    {A B : Type 0} (m : Result XgError A) (f : A → Result XgError B)
    → Fails m
    → ((a : A) → Fails (f a))
    → Fails (m >>= f)
Fails-bind (ok a) f h next = next a
Fails-bind (err e) f h next = h

Runs-if :
    {A : Type 0} (n : ℕ) (b : Bool) (x y : Parse A)
    → Runs n x
    → Runs n y
    → Runs n (if b then x else y)
Runs-if n true x y h k = h
Runs-if n false x y h k = k

Fails-if :
    {A : Type 0} (b : Bool) (x y : Result XgError A)
    → Fails x
    → Fails y
    → Fails (if b then x else y)
Fails-if true x y h k = h
Fails-if false x y h k = k

Fails-take_attr : (attrs : List (Text × Text)) (name : Text) → Fails (take_attr attrs name)
Fails-take_attr attrs name = found (get attrs name)
  where
    found :
        (o : Option Text)
        → Fails (elim o as (λ x. Result XgError Text) [
          | none ↦ err (XgError.attribute_not_found name)
          | some value ↦ ok value
        ])
    found none = tt
    found (some value) = tt

longer : {A : Type 0} (n : ℕ) (m : Parse A) → Runs n m → Runs (suc n) m
longer n (ok (a, es)) h = omega (arith, h)
longer n (err e) h = h

Runs-mono : {A : Type 0} (n k : ℕ) (m : Parse A) → n ≤ k → Runs n m → Runs k m
Runs-mono n k (ok (a, es)) le h = omega (arith, h, le)
Runs-mono n k (err e) le h = h

-- `parse_skip` behind a result.
skip-Runs :
    {A : Type 0} (depth : ℕ) (es : List XmlEvent) (a : A)
    → Runs (length es) (parse_skip depth es >>= λ es'. ok (a, es'))
unfolding parse_skip
skip-Runs depth [] a = tt
skip-Runs depth (start_element _ _ ∷ es) a = longer (length es) _ (skip-Runs (suc depth) es a)
skip-Runs depth (other_event ∷ es) a = longer (length es) _ (skip-Runs depth es a)
skip-Runs zero (end_element ∷ es) a = omega arith
skip-Runs (suc depth) (end_element ∷ es) a = longer (length es) _ (skip-Runs depth es a)

skipped-Runs :
    {A : Type 0} (found : Result XgError A) (es : List XmlEvent)
    → Fails found
    → Runs (length es) (skipped found es)
skipped-Runs found es h = Runs-first (length es) found _ h (λ a. skip-Runs 0 es a)

element_loop-Runs :
    {A : Type 0} (body : Text → List (Text × Text) → A → List XmlEvent → Parse A) (limit fuel : ℕ)
    (a : A) (es : List XmlEvent)
    → ((name : Text) (attrs : List (Text × Text)) (a : A) (es : List XmlEvent)
        → length es < limit
        → Runs (length es) (body name attrs a es))
    → length es < limit
    → length es < fuel
    → Runs (length es) (element_loop body fuel a es)
unfolding element_loop
element_loop-Runs body limit zero a es step hl h = absurd (omega arith)
element_loop-Runs body limit (suc fuel) a [] step hl h = tt
element_loop-Runs body limit (suc fuel) a (end_element ∷ es) step hl h = omega arith
element_loop-Runs body limit (suc fuel) a (other_event ∷ es) step hl h =
    longer (length es) _ (element_loop-Runs body limit fuel a es step (omega arith) (omega arith))
element_loop-Runs body limit (suc fuel) a (start_element name attrs ∷ es) step hl h =
    longer (length es) _ (
      Runs-bind (length es) _ _ (step name attrs a es (omega arith)) (λ a' es' shorter.
        Runs-mono (length es') (length es) _ shorter (
          element_loop-Runs body limit fuel a' es' step (omega (arith, shorter))
            (omega (arith, shorter)))))

module _ (normalize_key : Text → Text) (vars : List (Text × Text)) where
  variable-Fails :
      (attrs variables : List (Text × Text)) → Fails (variable normalize_key vars attrs variables)
  variable-Fails attrs variables =
      Fails-bind _ _ (Fails-take_attr attrs _)
        (λ a. Fails-bind _ _ (Fails-take_attr attrs _) (λ b. tt))

  tool-Fails :
      (attrs : List (Text × Text)) (tools : List (Text × XgTool))
      → Fails (tool normalize_key vars attrs tools)
  tool-Fails attrs tools =
      Fails-bind _ _ (Fails-take_attr attrs _)
        (λ a. Fails-bind _ _ (Fails-take_attr attrs _) (λ b. tt))

  task-Fails :
      (attrs : List (Text × Text)) (tasks : List (Text × XgTask))
      → Fails (task normalize_key vars attrs tasks)
  task-Fails attrs tasks = Fails-bind _ _ (Fails-take_attr attrs _) (λ a.
      Fails-bind _ _ (Fails-take_attr attrs _)
        (λ b. Fails-bind _ _ (Fails-take_attr attrs _) (λ c. tt)))

  named-Runs :
      {A : Type 0} (wanted : Text) (read : List (Text × Text) → A → Result XgError A)
      → ((attrs : List (Text × Text)) (a : A) → Fails (read attrs a))
      → (name : Text) (attrs : List (Text × Text)) (a : A) (es : List XmlEvent)
      → Runs (length es) (named normalize_key vars wanted read name attrs a es)
  named-Runs wanted read h name attrs a es =
      skipped-Runs _ es (Fails-if (text_eq name wanted) _ _ (h (map_attributes attrs) a) tt)

  module _ (limit : ℕ) where
    parse_variables-Runs :
        (a : List (Text × Text)) (es : List XmlEvent)
        → length es < limit
        → Runs (length es) (parse_variables normalize_key vars limit a es)
    unfolding parse_variables
    parse_variables-Runs a es h =
        element_loop-Runs _ limit limit a es
          (λ name attrs a es h'. named-Runs _ _ variable-Fails name attrs a es) h h

    parse_tools-Runs :
        (a : List (Text × XgTool)) (es : List XmlEvent)
        → length es < limit
        → Runs (length es) (parse_tools normalize_key vars limit a es)
    unfolding parse_tools
    parse_tools-Runs a es h =
        element_loop-Runs _ limit limit a es
          (λ name attrs a es h'. named-Runs _ _ tool-Fails name attrs a es) h h

    parse_tasks-Runs :
        (es : List XmlEvent)
        → length es < limit
        → Runs (length es) (parse_tasks normalize_key vars limit es)
    unfolding parse_tasks
    parse_tasks-Runs es h =
        element_loop-Runs _ limit limit [] es
          (λ name attrs a es h'. named-Runs _ _ task-Fails name attrs a es) h h

    parse_environment-Runs :
        (es : List XmlEvent)
        → length es < limit
        → Runs (length es) (parse_environment normalize_key vars limit es)
    unfolding parse_environment
    parse_environment-Runs es h =
        element_loop-Runs _ limit limit _ es
          (λ name attrs env es h'.
            Runs-if _ (text_eq name (codes "Variables")) _ _
              (Runs-bind _ _ _ (parse_variables-Runs env.variables es h') (λ a es' s. s))
              (Runs-if _ (text_eq name (codes "Tools")) _ _
                (Runs-bind _ _ _ (parse_tools-Runs env.tools es h') (λ a es' s. s))
                (skipped-Runs (ok env) es tt)))
          h h

    parse_environments-Runs :
        (envs : List (Text × XgEnvironment)) (es : List XmlEvent)
        → length es < limit
        → Runs (length es) (parse_environments normalize_key vars limit envs es)
    unfolding parse_environments
    parse_environments-Runs envs es h =
        element_loop-Runs _ limit limit envs es
          (λ name attrs envs' es h'.
            Runs-if _ (text_eq name (codes "Environment")) _ _
              (Runs-first _ _ _ (Fails-take_attr (map_attributes attrs) _)
                (λ n. Runs-bind _ _ _ (parse_environment-Runs es h') (λ a es' s. s)))
              (skipped-Runs (ok envs') es tt))
          h h

    build_set_element-Runs :
        (name : Text) (attrs : List (Text × Text)) (set_ : BuildSet normalize_key vars)
        (es : List XmlEvent)
        → length es < limit
        → Runs (length es) (build_set_element normalize_key vars limit name attrs set_ es)
    unfolding build_set_element
    build_set_element-Runs name attrs (envs, projects) es h =
        Runs-if _ (text_eq name (codes "Environments")) _ _
          (Runs-bind _ _ _ (parse_environments-Runs envs es h) (λ a es' s. s))
          (Runs-if _ (text_eq name (codes "Project")) _ _
            (Runs-first _ _ _ (Fails-take_attr (map_attributes attrs) _)
              (λ n. Runs-bind _ _ _ (parse_tasks-Runs es h) (λ a es' s. s)))
            (skipped-Runs (ok (envs, projects)) es tt))

    -- With fuel for each event, the parser of a build script ends, with what it has read or with an
    -- error of the code, whatever the events are.
    pub parse_root-Runs :
        (es : List XmlEvent)
        → length es < limit
        → Runs (length es) (parse_root normalize_key vars limit es)
    unfolding parse_root
    parse_root-Runs [] h = tt
    parse_root-Runs (end_element ∷ es) h = longer (length es) _ (parse_root-Runs es (omega arith))
    parse_root-Runs (other_event ∷ es) h = longer (length es) _ (parse_root-Runs es (omega arith))
    parse_root-Runs (start_element name attrs ∷ es) h = longer (length es) _ (
        Runs-if _ (text_eq name (codes "BuildSet")) _ _
          (unfold parse_build_set in
            element_loop-Runs _ limit limit _ es build_set_element-Runs (omega arith) (omega arith))
          tt)
