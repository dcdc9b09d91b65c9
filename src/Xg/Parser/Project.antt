-- ===== src/Xg/Parser/Project.antt =====
-- xg/parser.rs: the graph of a project. A graph is its nodes in the order of their indices and its
-- edges; the entries of a map stand in the order in which it is iterated.
pub mod Linked
pub mod Range
pub mod Parsed
use octobuild.Prelude.{
  ℕ, zero, suc, ◌+◌, List, [], ◌∷◌, ◌++◌, Option, none, some, Text, Result, ok, err, ◌>>=◌, length,
  get, insert,
}
use octobuild.Cmd.Unix.{ParseError}
use octobuild.Compiler.{CommandInfo}
use octobuild.Xg.Parser.{
  XgError, tool_not_found, dependency_not_found, environment_not_found, bad_arguments, unwrap_none,
  XgTool, XgTask, XgEnvironment, XgProject, XmlEvent, parse_root,
}

pub record XgNode : Type 0 where
  pub title : Text
  pub command : CommandInfo
  pub args : List Text

-- `XgGraph`.
pub record XgGraph : Type 0 where
  pub nodes : List XgNode
  pub edges : List (ℕ × ℕ)

-- `HashMap::get` with `ok_or_else`.
abbrev pub get_ok : {V : Type 0} → XgError → List (Text × V) → Text → Result XgError V
get_ok e m k = elim (get m k) [ none ↦ err e | some v ↦ ok v ]

abbrev pub lift_args : Result ParseError (List Text) → Result XgError (List Text)
lift_args (ok args) = ok args
lift_args (err e) = err (bad_arguments e)

-- `cmd::native::parse` is one of the two parsers of src/cmd.
module _ (parse_args : Text → Result ParseError (List Text)) (env : XgEnvironment) where
  abbrev pub title_of : XgTask → XgTool → Text
  title_of task tool = elim task.title [
    | some t ↦ t
    | none ↦ elim tool.output [ some o ↦ o | none ↦ [] ]
  ]

  -- The node of a task.
  unfoldable pub node_of : XgTask → Result XgError XgNode
  node_of task = do
    tool ← get_ok (tool_not_found task.tool) env.tools task.tool
    args ← lift_args (parse_args tool.args)
    ok (record {
      title = title_of task tool;
      command = record {
        program = tool.exec;
        current_dir = some task.working_dir;
        env = env.variables;
      };
      args = args;
    })

  -- The first loop: the nodes, and the index of each task by its name.
  unfoldable pub add_nodes :
      List (Text × XgTask)
      → List XgNode
      → List (Text × ℕ)
      → Result XgError (List XgNode × List (Text × ℕ))
  unfolding node_of
  add_nodes [] nodes refs = ok (nodes, refs)
  add_nodes ((id, task) ∷ tasks) nodes refs = do
    node ← node_of task
    add_nodes tasks (nodes ++ node ∷ []) (insert refs id (length nodes))

-- The second loop: the edges.
unfoldable pub add_edges_from :
    List (Text × ℕ) → ℕ → List Text → List (ℕ × ℕ) → Result XgError (List (ℕ × ℕ))
add_edges_from refs src [] edges = ok edges
add_edges_from refs src (dst_id ∷ ids) edges = do
  dst ← get_ok (dependency_not_found dst_id) refs dst_id
  add_edges_from refs src ids (edges ++ (src, dst) ∷ [])

unfoldable pub add_edges :
    List (Text × ℕ) → List (Text × XgTask) → List (ℕ × ℕ) → Result XgError (List (ℕ × ℕ))
unfolding add_edges_from
add_edges refs [] edges = ok edges
add_edges refs ((src_id, task) ∷ tasks) edges = do
  src ← get_ok unwrap_none refs src_id
  edges' ← add_edges_from refs src task.depends_on edges
  add_edges refs tasks edges'

module _ (parse_args : Text → Result ParseError (List Text)) where
  unfoldable pub graph_project :
      XgEnvironment → List (Text × XgTask) → XgGraph → Result XgError XgGraph
  unfolding add_nodes add_edges
  graph_project env tasks graph = do
    (nodes, refs) ← add_nodes parse_args env tasks graph.nodes []
    edges ← add_edges refs tasks graph.edges
    ok (record { nodes = nodes; edges = edges })

  -- `parse_create_graph`.
  unfoldable pub parse_create_graph :
      List (Text × XgEnvironment) → List XgProject → XgGraph → Result XgError XgGraph
  unfolding graph_project
  parse_create_graph envs [] graph = ok graph
  parse_create_graph envs (project ∷ projects) graph = do
    env ← get_ok (environment_not_found project.env) envs project.env
    graph' ← graph_project env project.tasks graph
    parse_create_graph envs projects graph'

  -- `parse`: the root element, and the graph that `parse_build_set` makes of it.
  unfoldable pub parse :
      (Text → Text) → List (Text × Text) → ℕ → XgGraph → List XmlEvent → Result XgError XgGraph
  unfolding parse_root parse_create_graph
  parse normalize_key vars limit graph es = do
    (build_set, _) ← parse_root normalize_key vars limit es
    parse_create_graph build_set.0 build_set.1 graph
