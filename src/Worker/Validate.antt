-- ===== src/Worker/Validate.antt =====
-- `validate_graph` of worker.rs. The state of the loop has `queue[i..]`, the part of the queue that
-- is still to be read, in place of `queue` and `i`.
pub mod Ends
pub mod Sound
use octobuild.Prelude.{
  ℕ, zero, suc, ◌+◌, Bool, true, false, not, ◌&&◌, List, [], ◌∷◌, ◌++◌, ◌==◌, if◌then◌else◌, length,
  set, replicate, flag, Result, ok, err,
}
use octobuild.Worker.Graph.{Graph, is_ready}

pub record Search : Type 0 where
  pub completed : List Bool
  pub pending : List ℕ
  pub count : ℕ

-- `cycles` is "Found cycles in build dependencies"; the model may also run out of fuel.
pub data GraphError : Type 0 where
  cycles out_of_fuel : GraphError

-- 0, 1, …, n - 1 from `i` on.
abbrev pub indices : ℕ → ℕ → List ℕ
indices i zero = []
indices i (suc n) = i ∷ indices (suc i) n

abbrev pub start : ℕ → Search
start n = record { completed = replicate n false; pending = indices 0 n; count = 0 }

module _ (g : Graph) where
  -- The body of the `if`, for `index` taken off the queue.
  abbrev pub complete : Search → ℕ → List ℕ → Search
  complete s index rest = record {
    completed = set s.completed index true;
    pending = rest ++ g.incoming index;
    count = s.count + 1;
  }

  abbrev pub is_next : Search → ℕ → Bool
  is_next s index = not (flag s.completed index) && is_ready g s.completed index

  -- The loop; the graph itself is what it returns.
  unfoldable pub search : ℕ → Search → Result GraphError Graph
  search zero s = err out_of_fuel
  search (suc fuel) s = elim s.pending [
    | [] ↦ err cycles
    | index ∷ rest ↦ elim (is_next s index) [
      | false ↦ search fuel (record s { pending = rest })
      | true ↦
          let t = complete s index rest in
          elim (t.count == length t.completed) [ true ↦ ok g | false ↦ search fuel t ]
    ]
  ]

  abbrev pub edges_into : ℕ → ℕ → ℕ
  edges_into i zero = 0
  edges_into i (suc n) = length (g.incoming i) + edges_into (suc i) n

  -- A node is queued once at the start, and once for each edge that leaves it.
  abbrev pub search_fuel : ℕ
  search_fuel = suc (g.node_count + edges_into 0 g.node_count)

  unfoldable pub validate_graph : Result GraphError Graph
  unfolding search is_ready
  validate_graph = if g.node_count == 0 then ok g else search search_fuel (start g.node_count)
