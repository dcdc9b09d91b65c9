-- ===== src/Worker/Validate/Sound.antt =====
-- `validate_graph` accepts the graphs with no cycle.
use mathlib.Core.Path.{subst}
use octobuild.Prelude.{
  ℕ, zero, suc, ◌+◌, ◌≤◌, ◌<◌, true, false, List, [], ◌∷◌, ◌++◌, ◌==◌, length, set, flag, ok, err,
  ◌≡◌, ◌↔◌, ◌⊎◌, refl, ap, ◌∙◌, sym, arith, List-cases, Bool-cases, inl, inr, In, In-append, ==_iff,
  trues, length-set, set-true, set-false, set_other, trues-set, trues_all, flag_of_trues,
  flag-replicate, trues-replicate,
}
use octobuild.Worker.Graph.{
  Graph, is_ready, IsGraph, IsBuildable, build, IsAcyclic, DependsOn, direct, through,
  is_ready-true, is_ready-false,
}
use octobuild.Worker.Validate.{
  Search, cycles, out_of_fuel, indices, start, complete, is_next, search, search_fuel,
  validate_graph,
}
use octobuild.Worker.Validate.Ends.{
  IsBounded, IsBounded-complete, IsBounded-skip, IsBounded-start, validate_graph_ends,
}

module _ (g : Graph) (laws : IsGraph g) where
  -- `sound`: what is completed can be built. `open`: a node that is not completed is still queued or
  -- waits for another one.
  record Inv (s : Search) : Type 0 where
    bounded : IsBounded g s
    counted : s.count ≡ trues s.completed
    unfinished : s.count < g.node_count
    sound : (u : ℕ) → flag s.completed u ≡ true → IsBuildable g u
    waits :
        (u : ℕ)
        → u < g.node_count
        → flag s.completed u ≡ false
        → In u s.pending ⊎ ((v : ℕ) × In v (g.outgoing u) × (flag s.completed v ≡ false))

  skipped :
      (s : Search) (index u : ℕ)
      → is_next g s index ≡ false
      → u ≡ index
      → flag s.completed u ≡ false
      → is_ready g s.completed u ≡ false
  skipped s index u skip e f = rw e (ground (arith, ap (λ x. flag s.completed x) e))

  Inv-skip :
      (s : Search) (index : ℕ) (rest : List ℕ)
      → s.pending ≡ index ∷ rest
      → is_next g s index ≡ false
      → Inv s
      → Inv (record s { pending = rest })
  Inv-skip s index rest q skip i = record {
    bounded = IsBounded-skip g s index rest q i.bounded;
    counted = i.counted;
    unfinished = i.unfinished;
    sound = i.sound;
    waits = λ u h f. elim (i.waits u h f) [
      | inr w ↦ inr w
      | inl m ↦ elim (subst (In u) q m) [
        | inr later ↦ inl later
        | inl e ↦ inr (is_ready-false g s.completed u (skipped s index u skip e f))
      ]
    ];
  }

  module _ (s : Search) (index : ℕ) (rest : List ℕ) (q : s.pending ≡ index ∷ rest)
      (next : is_next g s index ≡ true) (i : Inv s) where
    below : index < length s.completed
    below = omega (arith, i.bounded.size, i.bounded.queued index (rw q (inl refl)))

    fresh : flag s.completed index ≡ false
    fresh = ground arith

    ready : is_ready g s.completed index ≡ true
    ready = ground arith

    sound-complete : (u : ℕ) → flag (set s.completed index true) u ≡ true → IsBuildable g u
    sound-complete u f = elim (set-true s.completed index below u f) [
      | inl e ↦ rw e (build (λ v m. i.sound v (is_ready-true g s.completed index v ready m)))
      | inr old ↦ i.sound u old
    ]

    -- A node that waited for `index` is queued now.
    waits-one :
        (u v : ℕ)
        → In v (g.outgoing u)
        → flag s.completed v ≡ false
        → In u (rest ++ g.incoming index)
          ⊎ ((w : ℕ) × In w (g.outgoing u) × (flag (set s.completed index true) w ≡ false))
    waits-one u v m f = elim (Bool-cases (v == index)) [
      | inl e ↦
          let m' : In index (g.outgoing u) =
            subst (λ x. In x (g.outgoing u)) ((==_iff v index).0 e) m in
          inl ((In-append u rest (g.incoming index)).1 (inr ((laws.mirrored u index).1 m')))
      | inr ne ↦ inr (v, m, set_other s.completed index below v (ground arith) ∙ f)
    ]

    waits_complete :
        (u : ℕ)
        → u < g.node_count
        → flag (set s.completed index true) u ≡ false
        → In u (rest ++ g.incoming index)
          ⊎ ((v : ℕ) × In v (g.outgoing u) × (flag (set s.completed index true) v ≡ false))
    waits_complete u h f =
        let (ne, f') = set-false s.completed index below u f in
        elim (i.waits u h f') [
          | inr (v, m, fv) ↦ waits-one u v m fv
          | inl m ↦ elim (subst (In u) q m) [
            | inl e ↦ absurd (ne e)
            | inr later ↦ inl ((In-append u rest (g.incoming index)).1 (inl later))
          ]
        ]

    Inv-complete :
        ((s.count + 1) == length (set s.completed index true)) ≡ false
        → Inv (complete g s index rest)
    Inv-complete more = record {
      bounded = IsBounded-complete g laws s index rest q i.bounded;
      counted = omega (arith, trues-set s.completed index below fresh, i.counted);
      unfinished = ground (arith, length-set s.completed index true, i.bounded.size, i.unfinished);
      sound = sound-complete;
      waits = waits_complete;
    }

    -- Where the count reaches the number of nodes, all of them are completed.
    all_sound : ((s.count + 1) == length (set s.completed index true)) ≡ true → IsAcyclic g
    all_sound all u h =
        let n = length-set s.completed index true in
        sound-complete u (
          flag_of_trues (set s.completed index true)
            (ground (arith, trues-set s.completed index below fresh, i.counted)) u
            (omega (arith, n, i.bounded.size)))

  search-ok : (fuel : ℕ) (s : Search) → Inv s → search g fuel s ≡ ok g → IsAcyclic g
  unfolding search
  search-ok zero s i e = cc
  search-ok (suc fuel) s i e = elim (List-cases s.pending) [
    | inl none ↦ cc (rw (none, search) at e)
    | inr (index, rest, q) ↦ elim (Bool-cases (is_next g s index)) [
      | inr skip ↦
          search-ok fuel (record s { pending = rest }) (Inv-skip s index rest q skip i)
            (rw (q, skip, search) at e)
      | inl next ↦ elim (Bool-cases ((s.count + 1) == length (set s.completed index true))) [
        | inl all ↦ all_sound s index rest q next i all
        | inr more ↦
            search-ok fuel (complete g s index rest) (Inv-complete s index rest q next i more)
              (rw (q, next, more, search) at e)
      ]
    ]
  ]

  -- With an empty queue everything that can be built is completed.
  drained :
      (s : Search)
      → Inv s
      → s.pending ≡ []
      → {u : ℕ} → IsBuildable g u
      → u < g.node_count
      → flag s.completed u ≡ true
  drained s i e (build {u} f) h = elim (Bool-cases (flag s.completed u)) [
    | inl done ↦ done
    | inr open_ ↦ elim (i.waits u h open_) [
      | inl m ↦ absurd (subst (In u) e m)
      | inr (v, m, fv) ↦ cc (fv, drained s i e (f v m) (laws.in_range u v m).1)
    ]
  ]

  stuck : (s : Search) → Inv s → s.pending ≡ [] → IsAcyclic g → ⊥
  stuck s i e a = omega (
    arith,
    trues_all s.completed (λ u h.
        drained s i e (a u (omega (arith, i.bounded.size))) (omega (arith, i.bounded.size))),
    i.bounded.size,
    i.counted,
    i.unfinished,
  )

  search-err : (fuel : ℕ) (s : Search) → Inv s → search g fuel s ≡ err cycles → IsAcyclic g → ⊥
  unfolding search
  search-err zero s i e a = cc
  search-err (suc fuel) s i e a = elim (List-cases s.pending) [
    | inl none ↦ stuck s i none a
    | inr (index, rest, q) ↦ elim (Bool-cases (is_next g s index)) [
      | inr skip ↦
          search-err fuel (record s { pending = rest }) (Inv-skip s index rest q skip i)
            (rw (q, skip, search) at e) a
      | inl next ↦ elim (Bool-cases ((s.count + 1) == length (set s.completed index true))) [
        | inl all ↦ cc (rw (q, next, all, search) at e)
        | inr more ↦
            search-err fuel (complete g s index rest) (Inv-complete s index rest q next i more)
              (rw (q, next, more, search) at e) a
      ]
    ]
  ]

  In-indices_intro : (v i n : ℕ) → i ≤ v → v < i + n → In v (indices i n)
  In-indices_intro v i zero h h' = absurd (omega arith)
  In-indices_intro v i (suc n) h h' = elim (Bool-cases (v == i)) [
    | inl e ↦ inl ((==_iff v i).0 e)
    | inr ne ↦ inr (In-indices_intro v (suc i) n (ground arith) (omega arith))
  ]

  Inv-start : 0 < g.node_count → Inv (start g.node_count)
  Inv-start h = record {
    bounded = IsBounded-start g;
    counted = sym (trues-replicate g.node_count);
    unfinished = h;
    sound = λ u f. cc (f, flag-replicate g.node_count u);
    waits = λ u l f. inl (In-indices_intro u 0 g.node_count (omega arith) (omega arith));
  }

  search-cases :
      (fuel : ℕ) (s : Search)
      → (search g fuel s ≡ ok g)
        ⊎ (search g fuel s ≡ err cycles)
        ⊎ (search g fuel s ≡ err out_of_fuel)
  unfolding search
  search-cases zero s = inr (inr refl)
  search-cases (suc fuel) s = elim (List-cases s.pending) [
    | inl none ↦ inr (inl (rw (none, search)))
    | inr (index, rest, q) ↦ elim (Bool-cases (is_next g s index)) [
      | inr skip ↦ rw (q, skip, search) (search-cases fuel (record s { pending = rest }))
      | inl next ↦ elim (Bool-cases ((s.count + 1) == length (set s.completed index true))) [
        | inl all ↦ inl (rw (q, next, all, search))
        | inr more ↦ rw (q, next, more, search) (search-cases fuel (complete g s index rest))
      ]
    ]
  ]

  pub validate_graph-cases : (validate_graph g ≡ ok g) ⊎ (validate_graph g ≡ err cycles)
  validate_graph-cases = elim (Bool-cases (g.node_count == 0)) [
    | inl empty ↦ inl (unfold validate_graph in rw (empty, validate_graph))
    | inr some_nodes ↦ elim (search-cases (search_fuel g) (start g.node_count)) [
      | inl a ↦ inl (unfold validate_graph in rw (some_nodes, validate_graph) a)
      | inr (inl c) ↦ inr (unfold validate_graph in rw (some_nodes, validate_graph) c)
      | inr (inr o) ↦
          absurd (
            validate_graph_ends g laws (unfold validate_graph in rw (some_nodes, validate_graph) o))
    ]
  ]

  -- `validate_graph` returns the graph if and only if no chain of dependencies goes on for ever.
  pub validate_graph-IsAcyclic : (validate_graph g ≡ ok g) ↔ IsAcyclic g
  unfolding validate_graph
  validate_graph-IsAcyclic = elim (Bool-cases (g.node_count == 0)) [
    | inl empty ↦ (λ _ u h. absurd (ground arith), λ _. rw (empty, validate_graph))
    | inr some_nodes ↦ (
      λ e.
          search-ok (search_fuel g) (start g.node_count) (Inv-start (ground arith))
            (rw (some_nodes, validate_graph) at e),
      λ a. elim validate_graph-cases [
        | inl e ↦ e
        | inr e ↦ absurd (
            search-err (search_fuel g) (start g.node_count) (Inv-start (ground arith))
              (rw (some_nodes, validate_graph) at e) a)
      ],
    )
  ]

DependsOn-snoc : (g : Graph) {u v w : ℕ} → DependsOn g u v → In w (g.outgoing v) → DependsOn g u w
DependsOn-snoc g (direct m) m' = through m (direct m')
DependsOn-snoc g (through m d) m' = through m (DependsOn-snoc g d m')

IsBuildable-cycle : (g : Graph) {u : ℕ} → IsBuildable g u → DependsOn g u u → ⊥
IsBuildable-cycle g (build {u} f) (direct m) = IsBuildable-cycle g (f u m) (direct m)
IsBuildable-cycle g (build {u} f) (through {v = v} m d) =
    IsBuildable-cycle g (f v m) (DependsOn-snoc g d m)

-- A graph in which some task depends on itself, through others or not, is refused.
pub validate_graph-DependsOn :
    (g : Graph) (u : ℕ) → IsGraph g → DependsOn g u u → validate_graph g ≡ err cycles
validate_graph-DependsOn g u laws d = elim (validate_graph-cases g laws) [
  | inr e ↦ e
  | inl e ↦ absurd (IsBuildable-cycle g ((validate_graph-IsAcyclic g laws).0 e u (from d)) d)
]
  where
    from : {v : ℕ} → DependsOn g u v → u < g.node_count
    from (direct m) = (laws.in_range u _ m).0
    from (through m _) = (laws.in_range u _ m).0
