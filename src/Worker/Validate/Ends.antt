-- ===== src/Worker/Validate/Ends.antt =====
-- The fuel of `search` is enough.
use native.Mathlib.Nat.{zero-add}
use octobuild.Prelude.{
  ℕ, zero, suc, ◌+◌, ◌<◌, Bool, true, false, List, [], ◌∷◌, ◌==◌, length, set, replicate, flag, err,
  ◌≡◌, ◌≢◌, refl, ap, arith, length-append, length-set, length-replicate, List-cases, Bool-cases,
  inl, inr, In, In-append, ◌∙◌,
}
use octobuild.Worker.Graph.{Graph, IsGraph}
use octobuild.Worker.Validate.{
  Search, out_of_fuel, indices, start, complete, is_next, search, edges_into, search_fuel,
  validate_graph,
}

module _ (g : Graph) where
  -- The edges into the nodes from `i` on that are not completed: each may still queue its source.
  abbrev owed : ℕ → List Bool → ℕ
  owed i [] = 0
  owed i (true ∷ bs) = owed (suc i) bs
  owed i (false ∷ bs) = length (g.incoming i) + owed (suc i) bs

  owed-set :
      (bs : List Bool) (i k j : ℕ)
      → flag bs k ≡ false
      → k < length bs
      → i + k ≡ j
      → owed i (set bs k true) + length (g.incoming j) ≡ owed i bs
  owed-set [] i k j e h q = absurd (omega arith)
  owed-set (true ∷ bs) i zero j e h q = cc
  owed-set (false ∷ bs) i zero j e h q = ground arith
  owed-set (true ∷ bs) i (suc k) j e h q = owed-set bs (suc i) k j e (omega arith) (omega arith)
  owed-set (false ∷ bs) i (suc k) j e h q =
      omega (arith, owed-set bs (suc i) k j e (omega arith) (omega arith))

  owed-replicate : (n i : ℕ) → owed i (replicate n false) ≡ edges_into g i n
  owed-replicate zero i = refl
  owed-replicate (suc n) i = omega (arith, owed-replicate n (suc i))

  length-indices : (i n : ℕ) → length (indices i n) ≡ n
  length-indices i zero = refl
  length-indices i (suc n) = ap suc (length-indices (suc i) n)

  abbrev work : Search → ℕ
  work s = length s.pending + owed 0 s.completed

  -- What holds of every state of the loop: node indices are in range.
  pub record IsBounded (s : Search) : Type 0 where
    pub size : length s.completed ≡ g.node_count
    pub queued : (v : ℕ) → In v s.pending → v < g.node_count

  pub IsBounded-complete :
      IsGraph g
      → (s : Search) (index : ℕ) (rest : List ℕ) → s.pending ≡ index ∷ rest
      → IsBounded s
      → IsBounded (complete g s index rest)
  IsBounded-complete laws s index rest e b = record {
    size = length-set s.completed index true ∙ b.size;
    queued = λ v m. elim ((In-append v rest (g.incoming index)).0 m) [
      | inl old ↦ b.queued v (rw e (inr old))
      | inr new ↦ (laws.in_range v index ((laws.mirrored v index).0 new)).0
    ];
  }

  pub IsBounded-skip :
      (s : Search) (index : ℕ) (rest : List ℕ)
      → s.pending ≡ index ∷ rest
      → IsBounded s
      → IsBounded (record s { pending = rest })
  IsBounded-skip s index rest e b = record {
    size = b.size;
    queued = λ v m. b.queued v (rw e (inr m));
  }

  In-indices : (v i n : ℕ) → In v (indices i n) → v < i + n
  In-indices v i zero m = absurd m
  In-indices v i (suc n) m = elim m [
    | inl e ↦ omega arith
    | inr later ↦ omega (arith, In-indices v (suc i) n later)
  ]

  pub IsBounded-start : IsBounded (start g.node_count)
  IsBounded-start = record {
    size = length-replicate g.node_count false;
    queued = λ v m. omega (arith, In-indices v 0 g.node_count m);
  }

  work-complete :
      (s : Search) (index : ℕ) (rest : List ℕ)
      → s.pending ≡ index ∷ rest
      → IsBounded s
      → is_next g s index ≡ true
      → work (complete g s index rest) < work s
  work-complete s index rest e b h =
      let below : index < g.node_count = b.queued index (rw e (inl refl)) in
      let fresh : flag s.completed index ≡ false = ground arith in
      omega (
        arith,
        b.size,
        length-append rest (g.incoming index),
        owed-set s.completed 0 index index fresh (omega (arith, b.size)) (zero-add index),
        ap length e,
      )

  search_ends :
      IsGraph g
      → (fuel : ℕ) (s : Search) → IsBounded s
      → work s < fuel
      → search g fuel s ≢ err out_of_fuel
  unfolding search
  search_ends laws zero s b h e = absurd (omega arith)
  search_ends laws (suc fuel) s b h e = elim (List-cases s.pending) [
    | inl none ↦ cc (rw (none, search) at e)
    | inr (index, rest, q) ↦ elim (Bool-cases (is_next g s index)) [
      | inr skip ↦
          search_ends laws fuel (record s { pending = rest }) (IsBounded-skip s index rest q b)
            (omega (arith, ap length q)) (rw (q, skip, search) at e)
      | inl next ↦
          let t = complete g s index rest in
          elim (Bool-cases (t.count == length t.completed)) [
            | inl all ↦ cc (rw (q, next, all, search) at e)
            | inr more ↦
                search_ends laws fuel t (IsBounded-complete laws s index rest q b)
                  (omega (arith, work-complete s index rest q b next))
                  (rw (q, next, more, search) at e)
          ]
    ]
  ]

  -- The loop of `validate_graph` always ends: the fuel, one round for each time that a node is
  -- queued, is enough.
  pub validate_graph_ends : IsGraph g → validate_graph g ≢ err out_of_fuel
  unfolding validate_graph
  validate_graph_ends laws e = elim (Bool-cases (g.node_count == 0)) [
    | inl empty ↦ cc (rw (empty, validate_graph) at e)
    | inr some_nodes ↦
        search_ends laws (search_fuel g) (start g.node_count) IsBounded-start
          (omega (arith, length-indices 0 g.node_count, owed-replicate g.node_count 0))
          (rw (some_nodes, validate_graph) at e)
  ]
