-- ===== src/Xg/Parser/Tests.antt =====
-- Tests of the parser of build scripts.
use octobuild.Prelude.{List, [], ◌∷◌, ◌++◌, none, some, Text, codes, ok, err, ◌≡◌, refl, arith}
use octobuild.Cmd.Unix
use octobuild.Xg.Parser.{
  XmlEvent, start_element, end_element, other_event, XgTask, XgEnvironment, dependency_not_found,
  parse_skip, parse_root,
}
use octobuild.Xg.Parser.Nested.{IsNested, nothing, plain, element, parse_skip_lem}
use octobuild.Xg.Parser.Total.{Runs, parse_root-Runs}
use octobuild.Xg.Parser.Project.{XgNode, XgGraph, graph_project, parse}
use octobuild.Xg.Parser.Project.Linked.{IsProject, graph_project-IsProject}
use octobuild.Xg.Parser.Project.Range.{IsInRange}
use octobuild.Xg.Parser.Project.Parsed.{parse-IsInRange}

abbrev one_task : List XmlEvent
one_task =
    start_element (codes "BuildSet") []
    ∷ start_element (codes "Project") ((codes "Env", codes "E") ∷ [])
    ∷ start_element (codes "Task") (
        (codes "Name", codes "t")
        ∷ (codes "Tool", codes "cl")
        ∷ (codes "WorkingDir", codes "d")
        ∷ (codes "DependsOn", codes "a;b;a")
        ∷ [])
    ∷ end_element
    ∷ end_element
    ∷ end_element
    ∷ []

abbrev parsed_task : XgTask
parsed_task = record {
  title = none;
  tool = codes "cl";
  working_dir = codes "d";
  depends_on = codes "b" ∷ codes "a" ∷ [];
}

parse_one_task :
    parse_root (λ k. k) [] 9 one_task
    ≡ ok (([], (record { env = codes "E"; tasks = (codes "t", parsed_task) ∷ [] }) ∷ []), [])
unfolding parse_root
parse_one_task = refl

abbrev compiler_only : XgEnvironment
compiler_only = record {
  variables = [];
  tools =
      (
        codes "cl",
        record { exec = codes "cl.exe"; args = codes "/c a.cpp"; output = some (codes "a") },
      )
      ∷ [];
}

abbrev task_on : List Text → XgTask
task_on ids = record { title = none; tool = codes "cl"; working_dir = codes "d"; depends_on = ids }

abbrev chain : List (Text × XgTask)
chain = (codes "link", task_on (codes "obj" ∷ [])) ∷ (codes "obj", task_on []) ∷ []

abbrev no_graph : XgGraph
no_graph = record { nodes = []; edges = [] }

abbrev compile_node : XgNode
compile_node = record {
  title = codes "a";
  command = record { program = codes "cl.exe"; current_dir = some (codes "d"); env = [] };
  args = codes "/c" ∷ codes "a.cpp" ∷ [];
}

abbrev chained : XgGraph
chained = record { nodes = compile_node ∷ compile_node ∷ []; edges = (0, 1) ∷ [] }

chain-graph : graph_project Unix.parse compiler_only chain no_graph ≡ ok chained
unfolding graph_project Unix.parse
chain-graph = refl

unknown_dependency :
    graph_project Unix.parse compiler_only ((codes "t", task_on (codes "u" ∷ [])) ∷ []) no_graph
    ≡ err (dependency_not_found (codes "u"))
unfolding graph_project Unix.parse
unknown_dependency = refl

graph_project-IsProject_example : IsProject Unix.parse compiler_only chain no_graph chained
graph_project-IsProject_example =
    graph_project-IsProject Unix.parse compiler_only chain no_graph chained (refl, (refl, tt))
      chain-graph

-- A script with one tool and two tasks, of which the first depends on the second.
abbrev script : List XmlEvent
script =
    start_element (codes "BuildSet") []
    ∷ start_element (codes "Environments") []
    ∷ start_element (codes "Environment") ((codes "Name", codes "E") ∷ [])
    ∷ start_element (codes "Tools") []
    ∷ start_element (codes "Tool") (
        (codes "Name", codes "cl")
        ∷ (codes "Path", codes "cl.exe")
        ∷ (codes "Params", codes "/c a.cpp")
        ∷ (codes "OutputPrefix", codes "a")
        ∷ [])
    ∷ end_element
    ∷ end_element
    ∷ end_element
    ∷ end_element
    ∷ start_element (codes "Project") ((codes "Env", codes "E") ∷ [])
    ∷ start_element (codes "Task") (
        (codes "Name", codes "obj")
        ∷ (codes "Tool", codes "cl")
        ∷ (codes "WorkingDir", codes "d")
        ∷ [])
    ∷ end_element
    ∷ start_element (codes "Task") (
        (codes "Name", codes "link")
        ∷ (codes "Tool", codes "cl")
        ∷ (codes "WorkingDir", codes "d")
        ∷ (codes "DependsOn", codes "obj")
        ∷ [])
    ∷ end_element
    ∷ end_element
    ∷ end_element
    ∷ []

script-graph : parse Unix.parse (λ k. k) [] 99 no_graph script ≡ ok chained
unfolding parse Unix.parse
script-graph = refl

parse-IsInRange_example : IsInRange chained
parse-IsInRange_example =
    parse-IsInRange (λ k. k) [] 99 Unix.parse no_graph chained script tt script-graph

abbrev inner : List XmlEvent
inner = start_element (codes "a") [] ∷ other_event ∷ end_element ∷ []

inner-IsNested : IsNested inner
inner-IsNested = element (codes "a") [] (plain nothing) nothing

parse_skip_lem_example :
    parse_skip 0 (inner ++ end_element ∷ (other_event ∷ [])) ≡ ok (other_event ∷ [])
parse_skip_lem_example = parse_skip_lem (other_event ∷ []) inner-IsNested

parse_root-Runs_example : Runs 6 (parse_root (λ k. k) [] 9 one_task)
parse_root-Runs_example = parse_root-Runs (λ k. k) [] 9 one_task (omega arith)
