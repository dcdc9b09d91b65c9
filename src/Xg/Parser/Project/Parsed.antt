-- ===== src/Xg/Parser/Project/Parsed.antt =====
-- `parse` of xg/parser.rs as a whole: the maps that it reads have each key once, and so the graph of a
-- script is in range.
use octobuild.Prelude.{
  ℕ, zero, suc, Bool, true, false, List, [], ◌∷◌, ◌++◌, Text, text_eq, codes, Result, ok, err,
  ◌>>=◌, ◌≡◌, refl, if◌then◌else◌, bind-eq-ok, ok-injective, HasKeysOnce, insert-HasKeysOnce,
}
use mathlib.Core.Path.{subst}
use octobuild.Cmd.Unix.{ParseError}
use octobuild.Xg.Parser.{
  XmlEvent, start_element, end_element, other_event, XgError, XgTask, XgProject, Parse,
  map_attributes, take_attr, parse_skip, element_loop, skipped, read_task, task, parse_tasks,
  parse_environments, BuildSet, build_set_element, parse_build_set, parse_root,
}
use octobuild.Xg.Parser.Project.{XgGraph, parse}
use octobuild.Xg.Parser.Project.Range.{IsInRange, HaveKeysOnce, parse_create_graph-IsInRange}

-- What holds of the value of a result.
abbrev Gives : {A : Type 0} → (A → Type 0) → Parse A → Type 0
Gives P (ok (a, es)) = P a
Gives P (err e) = Unit

anything : {A : Type 0} (m : Parse A) → Gives (λ a. Unit {0}) m
anything (ok (a, es)) = tt
anything (err e) = tt

Gives-bind :
    {A B : Type 0} (P : A → Type 0) (Q : B → Type 0) (m : Parse A) (f : A × List XmlEvent → Parse B)
    → Gives P m
    → ((a : A) (es : List XmlEvent) → P a → Gives Q (f (a, es)))
    → Gives Q (m >>= f)
Gives-bind P Q (ok (a, es)) f h next = next a es h
Gives-bind P Q (err e) f h next = tt

Gives-first :
    {A B : Type 0} (Q : B → Type 0) (m : Result XgError A) (f : A → Parse B)
    → ((a : A) → m ≡ ok a → Gives Q (f a))
    → Gives Q (m >>= f)
Gives-first Q (ok a) f next = next a refl
Gives-first Q (err e) f next = tt

Gives-if :
    {A : Type 0} (P : A → Type 0) (b : Bool) (x y : Parse A)
    → Gives P x
    → Gives P y
    → Gives P (if b then x else y)
Gives-if P true x y h k = h
Gives-if P false x y h k = k

element_loop-Gives :
    {A : Type 0} (P : A → Type 0) (body : Text → List (Text × Text) → A → List XmlEvent → Parse A)
    (fuel : ℕ) (a : A) (es : List XmlEvent)
    → ((name : Text) (attrs : List (Text × Text)) (a : A) (es : List XmlEvent)
        → P a
        → Gives P (body name attrs a es))
    → P a
    → Gives P (element_loop body fuel a es)
unfolding element_loop
element_loop-Gives P body zero a es step h = tt
element_loop-Gives P body (suc fuel) a [] step h = tt
element_loop-Gives P body (suc fuel) a (end_element ∷ es) step h = h
element_loop-Gives P body (suc fuel) a (other_event ∷ es) step h =
    element_loop-Gives P body fuel a es step h
element_loop-Gives P body (suc fuel) a (start_element name attrs ∷ es) step h =
    Gives-bind P P _ _ (step name attrs a es h)
      (λ a' es' h'. element_loop-Gives P body fuel a' es' step h')

skipped-Gives :
    {A : Type 0} (P : A → Type 0) (found : Result XgError A) (es : List XmlEvent)
    → ((a : A) → found ≡ ok a → P a)
    → Gives P (skipped found es)
skipped-Gives P found es h =
    Gives-first P found _ (λ a e. Gives-first P (parse_skip 0 es) _ (λ es' e'. h a e))

HaveKeysOnce-snoc :
    (ps : List XgProject) (p : XgProject)
    → HaveKeysOnce ps
    → HasKeysOnce p.tasks
    → HaveKeysOnce (ps ++ p ∷ [])
HaveKeysOnce-snoc [] p h k = (k, tt)
HaveKeysOnce-snoc (q ∷ ps) p (h, hs) k = (h, HaveKeysOnce-snoc ps p hs k)

module _ (normalize_key : Text → Text) (vars : List (Text × Text)) where
  task-HasKeysOnce :
      (attrs : List (Text × Text)) (tasks tasks' : List (Text × XgTask))
      → HasKeysOnce tasks
      → task normalize_key vars attrs tasks ≡ ok tasks'
      → HasKeysOnce tasks'
  task-HasKeysOnce attrs tasks tasks' h e =
      let (name, _, e1) = bind-eq-ok (take_attr attrs (codes "Name")) _ e in
      let (tool, _, e2) = bind-eq-ok (take_attr attrs (codes "Tool")) _ e1 in
      let (dir, _, e3) = bind-eq-ok (take_attr attrs (codes "WorkingDir")) _ e2 in
      subst HasKeysOnce (ok-injective e3)
        (insert-HasKeysOnce tasks name (read_task attrs tool dir) h)

  named_task :
      (b : Bool) (attrs : List (Text × Text)) (tasks tasks' : List (Text × XgTask))
      → HasKeysOnce tasks
      → Path
          (Result XgError (List (Text × XgTask)))
          (if b then task normalize_key vars attrs tasks else ok tasks)
          (ok tasks')
      → HasKeysOnce tasks'
  named_task true attrs tasks tasks' h e = task-HasKeysOnce attrs tasks tasks' h e
  named_task false attrs tasks tasks' h e = subst HasKeysOnce (ok-injective e) h

  module _ (limit : ℕ) where
    parse_tasks-HasKeysOnce :
        (es : List XmlEvent) → Gives HasKeysOnce (parse_tasks normalize_key vars limit es)
    unfolding parse_tasks
    parse_tasks-HasKeysOnce es =
        element_loop-Gives HasKeysOnce _ limit [] es
          (λ name attrs a es h.
            skipped-Gives HasKeysOnce _ es
              (λ a' e. named_task (text_eq name (codes "Task")) (map_attributes attrs) a a' h e))
          tt

    abbrev AreSound : BuildSet normalize_key vars → Type 0
    AreSound (envs, projects) = HaveKeysOnce projects

    build_set_element-AreSound :
        (name : Text) (attrs : List (Text × Text)) (a : BuildSet normalize_key vars)
        (es : List XmlEvent)
        → AreSound a
        → Gives AreSound (build_set_element normalize_key vars limit name attrs a es)
    unfolding build_set_element
    build_set_element-AreSound name attrs (envs, projects) es h =
        Gives-if AreSound (text_eq name (codes "Environments")) _ _
          (Gives-bind (λ e. Unit) AreSound _ _
            (anything (parse_environments normalize_key vars limit envs es)) (λ e es' _. h))
          (Gives-if AreSound (text_eq name (codes "Project")) _ _
            (Gives-first AreSound (take_attr (map_attributes attrs) (codes "Env")) _ (λ env _.
              Gives-bind HasKeysOnce AreSound _ _ (parse_tasks-HasKeysOnce es)
                (λ tasks es' k. HaveKeysOnce-snoc projects _ h k)))
            (skipped-Gives AreSound (ok (envs, projects)) es
              (λ a e. subst AreSound (ok-injective e) h)))

    parse_root-AreSound :
        (es : List XmlEvent) → Gives AreSound (parse_root normalize_key vars limit es)
    unfolding parse_root parse_build_set
    parse_root-AreSound [] = tt
    parse_root-AreSound (end_element ∷ es) = parse_root-AreSound es
    parse_root-AreSound (other_event ∷ es) = parse_root-AreSound es
    parse_root-AreSound (start_element name attrs ∷ es) =
        Gives-if AreSound (text_eq name (codes "BuildSet")) _ _
          (element_loop-Gives AreSound _ limit _ es build_set_element-AreSound tt) tt

    -- Whatever the events of a build script are, `parse` keeps every edge between nodes of the graph:
    -- the graph that it returns has no edge to a node that is not there.
    pub parse-IsInRange :
        (parse_args : Text → Result ParseError (List Text)) (graph graph' : XgGraph)
        (es : List XmlEvent)
        → IsInRange graph
        → parse parse_args normalize_key vars limit graph es ≡ ok graph'
        → IsInRange graph'
    unfolding parse
    parse-IsInRange parse_args graph graph' es h e =
        let ((build_set, rest), e1, e2) = bind-eq-ok (parse_root normalize_key vars limit es) _ e in
        let sound = subst (Gives AreSound) e1 (parse_root-AreSound es) in
        parse_create_graph-IsInRange parse_args build_set.0 build_set.1 graph graph' sound h e2
