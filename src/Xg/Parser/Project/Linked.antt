-- ===== src/Xg/Parser/Project/Linked.antt =====
-- The graph that `graph_project` of xg/parser.rs makes: a node for each task and an edge for each
-- dependency.
use mathlib.Core.Path.{subst}
use octobuild.Prelude.{
  ℕ, suc, List, [], ◌∷◌, ◌++◌, Option, none, some, Text, text_eq, text_eq_iff, Result, ok, err, ◌≡◌,
  refl, sym, ap, ◌∙◌, inl, inr, arith, length, length-append, append_assoc, append-nil, get, insert,
  get-insert, HasKeysOnce, if◌then◌else◌, Bool-cases, bind-eq-ok, ok-injective, Option-cases,
}
use octobuild.Cmd.Unix.{ParseError}
use octobuild.Xg.Parser.{XgError, tool_not_found, unwrap_none, XgTool, XgTask, XgEnvironment}
use octobuild.Xg.Parser.Project.{
  XgNode, XgGraph, get_ok, lift_args, title_of, node_of, add_nodes, add_edges_from, add_edges,
  graph_project,
}

-- The place of a task among the tasks, counted from a base.
abbrev pub place : ℕ → List (Text × XgTask) → Text → Option ℕ
place base [] k = none
place base ((id, task) ∷ tasks) k = if text_eq id k then some base else place (suc base) tasks k

-- An edge from `src` for each of the words, in order, to the place that `find` gives.
abbrev pub AreEdges : (Text → Option ℕ) → ℕ → List Text → List (ℕ × ℕ) → Type 0
AreEdges find src [] [] = Unit
AreEdges find src (d ∷ ds) ((i, j) ∷ es) = (i ≡ src) × (find d ≡ some j) × AreEdges find src ds es
AreEdges find src _ _ = ⊥

-- The edges of all tasks, in order: each from the task's place to those of its dependencies.
abbrev pub AreLinked : (Text → Option ℕ) → List (Text × XgTask) → List (ℕ × ℕ) → Type 0
AreLinked find [] es = es ≡ []
AreLinked find ((id, task) ∷ tasks) es =
    (src : ℕ) × (first : List (ℕ × ℕ)) × (more : List (ℕ × ℕ)) × (find id ≡ some src)
    × (es ≡ first ++ more)
    × AreEdges find src task.depends_on first
    × AreLinked find tasks more

-- What the map of indices holds behind the first loop.
abbrev or_else : Option ℕ → Option ℕ → Option ℕ
or_else none o = o
or_else (some i) o = some i

place-none :
    (base : ℕ) (tasks : List (Text × XgTask)) (k : Text)
    → get tasks k ≡ none
    → place base tasks k ≡ none
place-none base [] k e = refl
place-none base ((id, task) ∷ tasks) k e = ground (arith, place-none (suc base) tasks k)

added_ref :
    (base : ℕ) (id : Text) (task : XgTask) (tasks : List (Text × XgTask)) (refs : List (Text × ℕ))
    (k : Text)
    → get tasks id ≡ none
    → or_else (place (suc base) tasks k) (get (insert refs id base) k)
      ≡ or_else (place base ((id, task) ∷ tasks) k) (get refs k)
added_ref base id task tasks refs k fresh = elim (Bool-cases (text_eq id k)) [
  | inl same ↦
      let absent : place (suc base) tasks k ≡ none =
        place-none (suc base) tasks k (ap (get tasks) (sym ((text_eq_iff id k).0 same)) ∙ fresh) in
      ground (arith, absent, get-insert refs id k base)
  | inr other ↦ ground (arith, get-insert refs id k base)
]

get_ok-some :
    {V : Type 0} (e : XgError) (m : List (Text × V)) (k : Text) (v : V)
    → get_ok e m k ≡ ok v
    → get m k ≡ some v
get_ok-some e m k v h = elim (Option-cases (get m k)) [
  | inl none_ ↦ cc (none_, h)
  | inr (x, some_) ↦ cc (some_, h)
]

lift_args-ok :
    (r : Result ParseError (List Text)) (args : List Text) → lift_args r ≡ ok args → r ≡ ok args
lift_args-ok (ok x) args e = ap ok (ok-injective e)
lift_args-ok (err x) args e = cc

module _ (parse_args : Text → Result ParseError (List Text)) (env : XgEnvironment) where
  -- The node of a task: it runs the program of the task's tool, with the tool's arguments, in the
  -- task's directory and in the variables of the environment.
  pub record IsNode (task : XgTask) (node : XgNode) : Type 0 where
    pub tool : XgTool
    pub tool_is : get env.tools task.tool ≡ some tool
    pub args_are : parse_args tool.args ≡ ok node.args
    pub program_is : node.command.program ≡ tool.exec
    pub directory_is : node.command.current_dir ≡ some task.working_dir
    pub variables_are : node.command.env ≡ env.variables
    pub title_is : node.title ≡ title_of parse_args env task tool

  -- The nodes of the tasks, one for each, in order.
  abbrev pub AreNodes : List (Text × XgTask) → List XgNode → Type 0
  AreNodes [] [] = Unit
  AreNodes ((id, task) ∷ tasks) (node ∷ nodes) = IsNode task node × AreNodes tasks nodes
  AreNodes _ _ = ⊥

  pub length-AreNodes :
      (tasks : List (Text × XgTask)) (nodes : List XgNode)
      → AreNodes tasks nodes
      → length nodes ≡ length tasks
  length-AreNodes [] [] h = refl
  length-AreNodes [] (n ∷ nodes) h = absurd h
  length-AreNodes ((id, task) ∷ tasks) [] h = absurd h
  length-AreNodes ((id, task) ∷ tasks) (n ∷ nodes) (_, h) =
      omega (arith, length-AreNodes tasks nodes h)

  node_of-IsNode :
      (task : XgTask) (node : XgNode) → node_of parse_args env task ≡ ok node → IsNode task node
  unfolding node_of
  node_of-IsNode task node e =
      let (tool, et, e1) = bind-eq-ok (get_ok (tool_not_found task.tool) env.tools task.tool) _ e in
      let (args, ea, e2) = bind-eq-ok (lift_args (parse_args tool.args)) _ e1 in
      subst (IsNode task) (ok-injective e2) (record {
        tool = tool;
        tool_is = get_ok-some _ env.tools task.tool tool et;
        args_are = lift_args-ok (parse_args tool.args) args ea;
        program_is = refl;
        directory_is = refl;
        variables_are = refl;
        title_is = refl;
      })

  record Added (tasks : List (Text × XgTask)) (nodes : List XgNode) (refs : List (Text × ℕ))
      (nodes' : List XgNode) (refs' : List (Text × ℕ)) : Type 0 where
    pub made : List XgNode
    pub nodes_are : nodes' ≡ nodes ++ made
    pub made_are : AreNodes tasks made
    pub refs_are : (k : Text) → get refs' k ≡ or_else (place (length nodes) tasks k) (get refs k)

  add_nodes-Added :
      (tasks : List (Text × XgTask)) (nodes : List XgNode) (refs : List (Text × ℕ))
      (nodes' : List XgNode) (refs' : List (Text × ℕ))
      → HasKeysOnce tasks
      → add_nodes parse_args env tasks nodes refs ≡ ok (nodes', refs')
      → Added tasks nodes refs nodes' refs'
  unfolding add_nodes
  add_nodes-Added [] nodes refs nodes' refs' once e = record {
    made = [];
    nodes_are = ap (λ x. x.0) (sym (ok-injective e)) ∙ sym (append-nil nodes);
    made_are = tt;
    refs_are = λ k. ap (λ x. get x.1 k) (sym (ok-injective e));
  }
  add_nodes-Added ((id, task) ∷ tasks) nodes refs nodes' refs' (fresh, once) e =
      let (node, en, e1) = bind-eq-ok (node_of parse_args env task) _ e in
      let rest =
        add_nodes-Added tasks (nodes ++ node ∷ []) (insert refs id (length nodes)) nodes' refs' once
          e1 in
      let next_base : length (nodes ++ node ∷ []) ≡ suc (length nodes) =
        omega (arith, length-append nodes (node ∷ [])) in
      record {
        made = node ∷ rest.made;
        nodes_are = rest.nodes_are ∙ append_assoc nodes (node ∷ []) rest.made;
        made_are = (node_of-IsNode task node en, rest.made_are);
        refs_are = λ k.
            rest.refs_are k
            ∙ ap (λ b. or_else (place b tasks k) (get (insert refs id (length nodes)) k)) next_base
            ∙ added_ref (length nodes) id task tasks refs k fresh;
      }

module _ (refs : List (Text × ℕ)) where
  add_edges_from-AreEdges :
      (src : ℕ) (ids : List Text) (edges edges' : List (ℕ × ℕ))
      → add_edges_from refs src ids edges ≡ ok edges'
      → (es : List (ℕ × ℕ)) × (edges' ≡ edges ++ es) × AreEdges (get refs) src ids es
  unfolding add_edges_from
  add_edges_from-AreEdges src [] edges edges' e =
      ([], sym (ok-injective e) ∙ sym (append-nil edges), tt)
  add_edges_from-AreEdges src (d ∷ ds) edges edges' e =
      let (dst, found, e1) = bind-eq-ok (get_ok _ refs d) _ e in
      let (es, whole, are) = add_edges_from-AreEdges src ds (edges ++ (src, dst) ∷ []) edges' e1 in
      (
        (src, dst) ∷ es,
        whole ∙ append_assoc edges ((src, dst) ∷ []) es,
        (refl, get_ok-some _ refs d dst found, are),
      )

  add_edges-AreLinked :
      (tasks : List (Text × XgTask)) (edges edges' : List (ℕ × ℕ))
      → add_edges refs tasks edges ≡ ok edges'
      → (es : List (ℕ × ℕ)) × (edges' ≡ edges ++ es) × AreLinked (get refs) tasks es
  unfolding add_edges
  add_edges-AreLinked [] edges edges' e = ([], sym (ok-injective e) ∙ sym (append-nil edges), refl)
  add_edges-AreLinked ((id, task) ∷ tasks) edges edges' e =
      let (src, found, e1) = bind-eq-ok (get_ok unwrap_none refs id) _ e in
      let (mid, e2, e3) = bind-eq-ok (add_edges_from refs src task.depends_on edges) _ e1 in
      let (first, whole, are) = add_edges_from-AreEdges src task.depends_on edges mid e2 in
      let (more, whole', linked) = add_edges-AreLinked tasks mid edges' e3 in
      (
        first ++ more,
        whole' ∙ ap (λ x. x ++ more) whole ∙ append_assoc edges first more,
        (src, first, more, get_ok-some unwrap_none refs id src found, refl, are, linked),
      )

module _ (find found : Text → Option ℕ) (same : (k : Text) → find k ≡ found k) where
  AreEdges-same :
      (src : ℕ) (ds : List Text) (es : List (ℕ × ℕ))
      → AreEdges find src ds es
      → AreEdges found src ds es
  AreEdges-same src [] [] h = tt
  AreEdges-same src [] (e ∷ es) h = absurd h
  AreEdges-same src (d ∷ ds) [] h = absurd h
  AreEdges-same src (d ∷ ds) ((i, j) ∷ es) (a, b, h) =
      (a, sym (same d) ∙ b, AreEdges-same src ds es h)

  AreLinked-same :
      (tasks : List (Text × XgTask)) (es : List (ℕ × ℕ))
      → AreLinked find tasks es
      → AreLinked found tasks es
  AreLinked-same [] es h = h
  AreLinked-same ((id, task) ∷ tasks) es (src, first, more, a, b, are, h) = (
    src,
    first,
    more,
    sym (same id) ∙ a,
    b,
    AreEdges-same src task.depends_on first are,
    AreLinked-same tasks more h,
  )

-- What `graph_project` adds to a graph.
pub record IsProject (parse_args : Text → Result ParseError (List Text)) (env : XgEnvironment)
    (tasks : List (Text × XgTask)) (before after : XgGraph) : Type 0 where
  pub made : List XgNode
  pub linked : List (ℕ × ℕ)
  pub nodes_are : after.nodes ≡ before.nodes ++ made
  pub made_are : AreNodes parse_args env tasks made
  pub edges_are : after.edges ≡ before.edges ++ linked
  pub are_linked : AreLinked (place (length before.nodes) tasks) tasks linked

module _ (parse_args : Text → Result ParseError (List Text)) where
  or_else-none : (o : Option ℕ) → or_else o none ≡ o
  or_else-none none = refl
  or_else-none (some i) = refl

  -- Where `graph_project` succeeds it adds one node for each task, in the order in which the map of
  -- tasks is iterated, which runs the program and the arguments of the task's tool in the task's
  -- directory with the variables of the environment, and for each task, in that order, one edge for each of its dependencies, from
  -- the node of the task to the node of the task that is named.
  pub graph_project-IsProject :
      (env : XgEnvironment) (tasks : List (Text × XgTask)) (graph graph' : XgGraph)
      → HasKeysOnce tasks
      → graph_project parse_args env tasks graph ≡ ok graph'
      → IsProject parse_args env tasks graph graph'
  unfolding graph_project
  graph_project-IsProject env tasks graph graph' once e =
      let ((nodes, refs), e1, e2) =
        bind-eq-ok (add_nodes parse_args env tasks graph.nodes []) _ e in
      let (edges, e3, e4) = bind-eq-ok (add_edges refs tasks graph.edges) _ e2 in
      let added = add_nodes-Added parse_args env tasks graph.nodes [] nodes refs once e1 in
      let (linked, whole, are) = add_edges-AreLinked refs tasks graph.edges edges e3 in
      record {
        made = added.made;
        linked = linked;
        nodes_are = ap (λ g. g.nodes) (sym (ok-injective e4)) ∙ added.nodes_are;
        made_are = added.made_are;
        edges_are = ap (λ g. g.edges) (sym (ok-injective e4)) ∙ whole;
        are_linked =
            AreLinked-same (get refs) (place (length graph.nodes) tasks)
              (λ k. added.refs_are k ∙ or_else-none (place (length graph.nodes) tasks k)) tasks
              linked are;
      }
