-- ===== src/Xg/Parser/Project/Range.antt =====
-- The edges of the graph of a build script lead from nodes to nodes of the graph.
use mathlib.Core.Path.{subst}
use octobuild.Prelude.{
  ℕ, suc, ◌+◌, ◌<◌, ◌≤◌, List, [], ◌∷◌, ◌++◌, Option, some, Text, text_eq, Result, ok, ◌≡◌, sym, ap,
  ◌∙◌, inl, inr, arith, length, length-append, Bool-cases, bind-eq-ok, ok-injective, HasKeysOnce,
}
use octobuild.Cmd.Unix.{ParseError}
use octobuild.Xg.Parser.{environment_not_found, XgTask, XgEnvironment, XgProject}
use octobuild.Xg.Parser.Project.{XgGraph, get_ok, graph_project, parse_create_graph}
use octobuild.Xg.Parser.Project.Linked.{
  place, AreEdges, AreLinked, IsProject, length-AreNodes, graph_project-IsProject,
}

abbrev pub AreBelow : ℕ → List (ℕ × ℕ) → Type 0
AreBelow n [] = Unit
AreBelow n ((i, j) ∷ es) = (i < n) × (j < n) × AreBelow n es

-- Every edge of the graph joins nodes of it.
abbrev pub IsInRange : XgGraph → Type 0
IsInRange g = AreBelow (length g.nodes) g.edges

AreBelow-append :
    (n : ℕ) (es fs : List (ℕ × ℕ)) → AreBelow n es → AreBelow n fs → AreBelow n (es ++ fs)
AreBelow-append n [] fs h k = k
AreBelow-append n ((i, j) ∷ es) fs (a, b, h) k = (a, b, AreBelow-append n es fs h k)

AreBelow-le : (n m : ℕ) (es : List (ℕ × ℕ)) → n ≤ m → AreBelow n es → AreBelow m es
AreBelow-le n m [] le h = tt
AreBelow-le n m ((i, j) ∷ es) le (a, b, h) =
    (omega (arith, a, le), omega (arith, b, le), AreBelow-le n m es le h)

place-lt :
    (base : ℕ) (tasks : List (Text × XgTask)) (k : Text) (j : ℕ)
    → place base tasks k ≡ some j
    → j < base + length tasks
place-lt base [] k j e = cc
place-lt base ((id, task) ∷ tasks) k j e = elim (Bool-cases (text_eq id k)) [
  | inl same ↦ let here : base ≡ j = cc (rw same at e) in omega (arith, here)
  | inr other ↦ omega (arith, place-lt (suc base) tasks k j (rw other at e))
]

module _ (n : ℕ) (find : Text → Option ℕ)
    (below : (k : Text) (j : ℕ) → find k ≡ some j → j < n) where
  AreEdges-AreBelow :
      (src : ℕ) (ds : List Text) (es : List (ℕ × ℕ))
      → src < n
      → AreEdges find src ds es
      → AreBelow n es
  AreEdges-AreBelow src [] [] h are = tt
  AreEdges-AreBelow src [] (e ∷ es) h are = absurd are
  AreEdges-AreBelow src (d ∷ ds) [] h are = absurd are
  AreEdges-AreBelow src (d ∷ ds) ((i, j) ∷ es) h (a, b, are) =
      (omega (arith, a, h), below d j b, AreEdges-AreBelow src ds es h are)

  AreLinked-AreBelow :
      (tasks : List (Text × XgTask)) (es : List (ℕ × ℕ)) → AreLinked find tasks es → AreBelow n es
  AreLinked-AreBelow [] es h = subst (AreBelow n) (sym h) tt
  AreLinked-AreBelow ((id, task) ∷ tasks) es (src, first, more, a, b, are, h) =
      subst (AreBelow n) (sym b) (
        AreBelow-append n first more
          (AreEdges-AreBelow src task.depends_on first (below id src a) are)
          (AreLinked-AreBelow tasks more h))

IsProject-IsInRange :
    (parse_args : Text → Result ParseError (List Text)) (env : XgEnvironment)
    (tasks : List (Text × XgTask)) (g g' : XgGraph)
    → IsProject parse_args env tasks g g'
    → IsInRange g
    → IsInRange g'
IsProject-IsInRange parse_args env tasks g g' p h =
    let more : length g'.nodes ≡ length g.nodes + length tasks =
      ap length p.nodes_are
      ∙ length-append g.nodes p.made
      ∙ ap (λ k. length g.nodes + k) (length-AreNodes parse_args env tasks p.made p.made_are) in
    let grown : AreBelow (length g'.nodes) g.edges =
      AreBelow-le (length g.nodes) (length g'.nodes) g.edges (omega (arith, more)) h in
    let new : AreBelow (length g'.nodes) p.linked =
      AreLinked-AreBelow (length g'.nodes) (place (length g.nodes) tasks)
        (λ k j e. omega (arith, more, place-lt (length g.nodes) tasks k j e)) tasks p.linked
        p.are_linked in
    subst (AreBelow (length g'.nodes)) (sym p.edges_are)
      (AreBelow-append (length g'.nodes) g.edges p.linked grown new)

-- The tasks of each project are those of a map.
abbrev pub HaveKeysOnce : List XgProject → Type 0
HaveKeysOnce [] = Unit
HaveKeysOnce (p ∷ ps) = HasKeysOnce p.tasks × HaveKeysOnce ps

module _ (parse_args : Text → Result ParseError (List Text))
    (envs : List (Text × XgEnvironment)) where
  -- `parse_create_graph` keeps every edge between nodes of the graph, whatever the projects are, so
  -- that no index into the nodes of a parsed script is out of bounds.
  pub parse_create_graph-IsInRange :
      (projects : List XgProject) (graph graph' : XgGraph)
      → HaveKeysOnce projects
      → IsInRange graph
      → parse_create_graph parse_args envs projects graph ≡ ok graph'
      → IsInRange graph'
  unfolding parse_create_graph
  parse_create_graph-IsInRange [] graph graph' once h e = subst IsInRange (ok-injective e) h
  parse_create_graph-IsInRange (p ∷ ps) graph graph' (first, once) h e =
      let (env, _, e1) = bind-eq-ok (get_ok (environment_not_found p.env) envs p.env) _ e in
      let (mid, e2, e3) = bind-eq-ok (graph_project parse_args env p.tasks graph) _ e1 in
      parse_create_graph-IsInRange ps mid graph' once
        (IsProject-IsInRange parse_args env p.tasks graph mid
          (graph_project-IsProject parse_args env p.tasks graph mid first e2) h)
        e3
