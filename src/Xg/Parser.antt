-- ===== src/Xg/Parser.antt =====
-- xg/parser.rs: a build script is read into environments and projects. The XML library is the list of
-- the events that it gives before its first error; the iterator over it is the list of those left.
pub mod Project
pub mod Total
pub mod Nested
mod Tests
use octobuild.Prelude.{
  ℕ, zero, suc, Bool, true, false, List, [], ◌∷◌, ◌++◌, ◌==◌, Option, none, some, Text, text_eq,
  codes, Result, ok, err, ◌>>=◌, if◌then◌else◌, get, insert,
}
use octobuild.Cmd.Unix.{ParseError}
use octobuild.Compiler.{CommandInfo}

-- `XmlEvent`, as far as it is looked at: an element with its name and attributes, its end, and others.
pub data XmlEvent : Type 0 where
  start_element : Text → List (Text × Text) → XmlEvent
  end_element other_event : XmlEvent

-- `XgParseError`, and the error of the parser of command lines.
pub data XgError : Type 0 where
  attribute_not_found environment_not_found tool_not_found dependency_not_found : Text → XgError
  invalid_stream_format xml_error : XgError
  bad_arguments : ParseError → XgError
  -- a panic
  unwrap_none : XgError
  -- of the model, for a loop that has used up its fuel
  out_of_fuel : XgError

pub record XgTool : Type 0 where
  pub exec : Text
  pub args : Text
  pub output : Option Text

pub record XgTask : Type 0 where
  pub title : Option Text
  pub tool : Text
  pub working_dir : Text
  pub depends_on : List Text

pub record XgEnvironment : Type 0 where
  pub variables : List (Text × Text)
  pub tools : List (Text × XgTool)

pub record XgProject : Type 0 where
  pub env : Text
  pub tasks : List (Text × XgTask)

-- What a parser returns, with the events that are left.
abbrev pub Parse : Type 0 → Type 0
Parse A = Result XgError (A × List XmlEvent)

-- `map_attributes`: of two attributes of one name the last counts.
abbrev pub map_onto : List (Text × Text) → List (Text × Text) → List (Text × Text)
map_onto m [] = m
map_onto m ((k, v) ∷ attrs) = map_onto (insert m k v) attrs

abbrev pub map_attributes : List (Text × Text) → List (Text × Text)
map_attributes attrs = map_onto [] attrs

-- `take_attr`. No attribute is taken twice, so that the map stays as it is.
abbrev pub take_attr : List (Text × Text) → Text → Result XgError Text
take_attr attrs name = elim (get attrs name) [
  | none ↦ err (attribute_not_found name)
  | some value ↦ ok value
]

-- `parse_skip` at a depth.
unfoldable pub parse_skip : ℕ → List XmlEvent → Result XgError (List XmlEvent)
parse_skip depth [] = err xml_error
parse_skip depth (start_element _ _ ∷ es) = parse_skip (suc depth) es
parse_skip depth (other_event ∷ es) = parse_skip depth es
parse_skip zero (end_element ∷ es) = ok es
parse_skip (suc depth) (end_element ∷ es) = parse_skip depth es

-- The loop that the parsers of elements share: `body` reads an element from behind its start to
-- behind its end. A round uses up an event.
unfoldable pub element_loop :
    {A : Type 0}
    → (Text → List (Text × Text) → A → List XmlEvent → Parse A)
    → ℕ
    → A
    → List XmlEvent
    → Parse A
element_loop body zero a es = err out_of_fuel
element_loop body (suc fuel) a [] = err xml_error
element_loop body (suc fuel) a (end_element ∷ es) = ok (a, es)
element_loop body (suc fuel) a (other_event ∷ es) = element_loop body fuel a es
element_loop body (suc fuel) a (start_element name attrs ∷ es) = do
  (a', es') ← body name attrs a es
  element_loop body fuel a' es'

-- An element whose contents are skipped.
abbrev pub skipped : {A : Type 0} → Result XgError A → List XmlEvent → Parse A
skipped found es = do a ← found; es' ← parse_skip 0 es; ok (a, es')

-- `split(';')`.
abbrev pub split_onto : Text → Text → List Text
split_onto word [] = word ∷ []
split_onto word (c ∷ cs) =
    let rest = split_onto [] cs in
    let longer = split_onto (word ++ c ∷ []) cs in if c == b';' then word ∷ rest else longer

-- The words of a `HashSet`: each once.
abbrev pub has_text : Text → List Text → Bool
has_text t [] = false
has_text t (x ∷ xs) = if text_eq x t then true else has_text t xs

abbrev pub distinct : List Text → List Text
distinct [] = []
distinct (x ∷ xs) = let rest = distinct xs in if has_text x xs then rest else x ∷ rest

abbrev pub depends_on_of : Option Text → List Text
depends_on_of none = []
depends_on_of (some v) = distinct (split_onto [] v)

abbrev pub read_task : List (Text × Text) → Text → Text → XgTask
read_task attrs tool_name dir = record {
  title = get attrs (codes "Caption");
  tool = tool_name;
  working_dir = dir;
  depends_on = depends_on_of (get attrs (codes "DependsOn"));
}

-- `CommandEnv::normalize_key`, which is the identity on Unix, and `env::vars`.
module _ (normalize_key : Text → Text) (vars : List (Text × Text)) where
  abbrev pub variable :
      List (Text × Text) → List (Text × Text) → Result XgError (List (Text × Text))
  variable attrs variables = do
    name ← take_attr attrs (codes "Name")
    value ← take_attr attrs (codes "Value")
    ok (insert variables (normalize_key name) value)

  abbrev pub tool :
      List (Text × Text) → List (Text × XgTool) → Result XgError (List (Text × XgTool))
  tool attrs tools = do
    name ← take_attr attrs (codes "Name")
    exec ← take_attr attrs (codes "Path")
    ok (
        insert tools name (record {
          exec = exec;
          args = elim (get attrs (codes "Params")) [ none ↦ [] | some args ↦ args ];
          output = get attrs (codes "OutputPrefix");
        }))

  abbrev pub task :
      List (Text × Text) → List (Text × XgTask) → Result XgError (List (Text × XgTask))
  task attrs tasks = do
    name ← take_attr attrs (codes "Name")
    tool_name ← take_attr attrs (codes "Tool")
    dir ← take_attr attrs (codes "WorkingDir")
    ok (insert tasks name (read_task attrs tool_name dir))

  -- The three loops over elements of one name; the others are skipped.
  abbrev pub named :
      {A : Type 0}
      → Text
      → (List (Text × Text) → A → Result XgError A)
      → Text
      → List (Text × Text)
      → A
      → List XmlEvent
      → Parse A
  named wanted read name attrs a es =
      skipped (if text_eq name wanted then read (map_attributes attrs) a else ok a) es

  unfoldable pub parse_variables :
      ℕ → List (Text × Text) → List XmlEvent → Parse (List (Text × Text))
  unfolding element_loop parse_skip
  parse_variables limit a es = element_loop (named (codes "Variable") variable) limit a es

  unfoldable pub parse_tools :
      ℕ → List (Text × XgTool) → List XmlEvent → Parse (List (Text × XgTool))
  unfolding element_loop parse_skip
  parse_tools limit a es = element_loop (named (codes "Tool") tool) limit a es

  unfoldable pub parse_tasks : ℕ → List XmlEvent → Parse (List (Text × XgTask))
  unfolding element_loop parse_skip
  parse_tasks limit es = element_loop (named (codes "Task") task) limit [] es

  -- The body of the loop of `parse_environment`.
  abbrev pub environment_element :
      ℕ → Text → List (Text × Text) → XgEnvironment → List XmlEvent → Parse XgEnvironment
  unfolding parse_variables parse_tools
  environment_element limit name attrs env es =
      if text_eq name (codes "Variables")
      then (parse_variables limit env.variables es >>= λ (variables, es').
          ok (record env { variables = variables }, es'))
      else if text_eq name (codes "Tools")
      then (parse_tools limit env.tools es >>= λ (tools, es').
          ok (record env { tools = tools }, es'))
      else skipped (ok env) es

  unfoldable pub parse_environment : ℕ → List XmlEvent → Parse XgEnvironment
  unfolding element_loop environment_element
  parse_environment limit es =
      element_loop (environment_element limit) limit (record { variables = vars; tools = [] }) es

  -- The body of the loop of `parse_environments`.
  abbrev pub named_environment :
      ℕ
      → Text
      → List (Text × Text)
      → List (Text × XgEnvironment)
      → List XmlEvent
      → Parse (List (Text × XgEnvironment))
  unfolding parse_environment
  named_environment limit name attrs envs es =
      if text_eq name (codes "Environment")
      then (take_attr (map_attributes attrs) (codes "Name") >>= λ env_name.
          parse_environment limit es >>= λ (env, es'). ok (insert envs env_name env, es'))
      else skipped (ok envs) es

  unfoldable pub parse_environments :
      ℕ → List (Text × XgEnvironment) → List XmlEvent → Parse (List (Text × XgEnvironment))
  unfolding element_loop named_environment
  parse_environments limit envs es = element_loop (named_environment limit) limit envs es

  -- The environments and the projects that `parse_build_set` collects.
  abbrev pub BuildSet : Type 0
  BuildSet = List (Text × XgEnvironment) × List XgProject

  abbrev pub build_set_element :
      ℕ → Text → List (Text × Text) → BuildSet → List XmlEvent → Parse BuildSet
  unfolding parse_environments parse_tasks
  build_set_element limit name attrs (envs, projects) es =
      if text_eq name (codes "Environments")
      then (parse_environments limit envs es >>= λ (envs', es'). ok ((envs', projects), es'))
      else if text_eq name (codes "Project")
      then (take_attr (map_attributes attrs) (codes "Env") >>= λ env.
          parse_tasks limit es >>= λ (tasks, es').
          ok ((envs, projects ++ (record { env = env; tasks = tasks }) ∷ []), es'))
      else skipped (ok (envs, projects)) es

  -- `parse_build_set` before the graph is made.
  unfoldable pub parse_build_set : ℕ → List XmlEvent → Parse BuildSet
  unfolding element_loop build_set_element
  parse_build_set limit es = element_loop (build_set_element limit) limit ([], []) es

  -- `parse` up to the first element.
  unfoldable pub parse_root : ℕ → List XmlEvent → Parse BuildSet
  unfolding parse_build_set
  parse_root limit [] = err xml_error
  parse_root limit (start_element name attrs ∷ es) =
      if text_eq name (codes "BuildSet")
      then parse_build_set limit es
      else err invalid_stream_format
  parse_root limit (end_element ∷ es) = parse_root limit es
  parse_root limit (other_event ∷ es) = parse_root limit es
