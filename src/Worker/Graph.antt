-- ===== src/Worker/Graph.antt =====
-- `petgraph::Graph`, as far as worker.rs uses it, with its documented behaviour. An edge leads from a
-- task to a task that it depends on. Node indices are the numbers below `node_count`.
use octobuild.Prelude.{
  ℕ, ◌<◌, List, [], ◌∷◌, ◌≡◌, ◌↔◌, Bool, true, false, ◌&&◌, In, AreDistinct, flag, inl, inr, refl,
  Bool-cases, arith,
}

pub record Graph : Type 0 where
  pub node_count : ℕ
  -- `neighbors_directed(i, Outgoing)` and `neighbors_directed(i, Incoming)`
  pub outgoing : ℕ → List ℕ
  pub incoming : ℕ → List ℕ
  -- `externals(Outgoing)`
  pub externals : List ℕ

pub record IsGraph (g : Graph) : Type 0 where
  pub in_range : (u v : ℕ) → In v (g.outgoing u) → (u < g.node_count) × (v < g.node_count)
  pub mirrored : (u v : ℕ) → In u (g.incoming v) ↔ In v (g.outgoing u)
  pub externals_are : (u : ℕ) → In u g.externals ↔ ((u < g.node_count) × (g.outgoing u ≡ []))
  pub externals_distinct : AreDistinct g.externals

-- No two edges join the same two nodes.
abbrev pub IsSimple : Graph → Type 0
IsSimple g = (v : ℕ) → AreDistinct (g.incoming v)

-- `is_ready`: the loop over the neighbours.
unfoldable pub all_completed : List Bool → List ℕ → Bool
all_completed completed [] = true
all_completed completed (v ∷ vs) = flag completed v && all_completed completed vs

unfoldable pub is_ready : Graph → List Bool → ℕ → Bool
unfolding all_completed
is_ready g completed source = all_completed completed (g.outgoing source)

all_completed-true :
    (completed : List Bool) (vs : List ℕ) (v : ℕ)
    → all_completed completed vs ≡ true
    → In v vs
    → flag completed v ≡ true
unfolding all_completed
all_completed-true completed [] v h m = absurd m
all_completed-true completed (x ∷ vs) v h m = ground (arith, all_completed-true completed vs v)

all_completed-false :
    (completed : List Bool) (vs : List ℕ)
    → all_completed completed vs ≡ false
    → (v : ℕ) × In v vs × (flag completed v ≡ false)
unfolding all_completed
all_completed-false completed [] h = cc
all_completed-false completed (x ∷ vs) h = elim (Bool-cases (flag completed x)) [
  | inr e ↦ (x, inl refl, e)
  | inl e ↦ let (v, m, f) = all_completed-false completed vs (ground arith) in (v, inr m, f)
]

all_completed_intro :
    (completed : List Bool) (vs : List ℕ)
    → ((v : ℕ) → In v vs → flag completed v ≡ true)
    → all_completed completed vs ≡ true
unfolding all_completed
all_completed_intro completed [] h = refl
all_completed_intro completed (x ∷ vs) h =
    ground (arith, h x, all_completed_intro completed vs (λ v m. h v (inr m)))

module _ (g : Graph) (completed : List Bool) (u : ℕ) where
  pub is_ready-true :
      (v : ℕ) → is_ready g completed u ≡ true → In v (g.outgoing u) → flag completed v ≡ true
  unfolding is_ready
  is_ready-true v = all_completed-true completed (g.outgoing u) v

  pub is_ready-false :
      is_ready g completed u ≡ false → (v : ℕ) × In v (g.outgoing u) × (flag completed v ≡ false)
  unfolding is_ready
  is_ready-false = all_completed-false completed (g.outgoing u)

  pub is_ready_intro :
      ((v : ℕ) → In v (g.outgoing u) → flag completed v ≡ true) → is_ready g completed u ≡ true
  unfolding is_ready
  is_ready_intro = all_completed_intro completed (g.outgoing u)

-- All chains of dependencies from a node end: the node can be built once those that it depends on
-- are built.
pub data IsBuildable (g : Graph) : ℕ → Type 0 where
  build : {u : ℕ} → ((v : ℕ) → In v (g.outgoing u) → IsBuildable g v) → IsBuildable g u

abbrev pub IsAcyclic : Graph → Type 0
IsAcyclic g = (u : ℕ) → u < g.node_count → IsBuildable g u

-- A chain of one dependency or more.
pub data DependsOn (g : Graph) : ℕ → ℕ → Type 0 where
  direct : {u v : ℕ} → In v (g.outgoing u) → DependsOn g u v
  through : {u v w : ℕ} → In v (g.outgoing u) → DependsOn g v w → DependsOn g u w
