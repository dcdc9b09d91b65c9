-- ===== src/Worker/Tests.antt =====
-- Tests of the build of a graph on three tasks and on a cycle of two.
use mathlib.Core.Path.{subst}
use octobuild.Prelude.{
  ℕ, zero, suc, ◌<◌, List, [], ◌∷◌, ◌≡◌, ◌↔◌, ◌≢◌, refl, sym, arith, In, inl, inr, Result, ok, err,
  none, some, Option,
}
use octobuild.Compiler.{OutputInfo}
use octobuild.Io.Stream.{IoError}
use octobuild.Worker.Build.{execute_graph, Late}
use octobuild.Worker.Build.Total.{execute_graph-success}
use octobuild.Worker.Graph.{
  Graph, IsGraph, IsSimple, IsAcyclic, IsBuildable, build, direct, through,
}
use octobuild.Worker.Validate.{cycles, out_of_fuel, validate_graph}
use octobuild.Worker.Validate.Ends.{validate_graph_ends}
use octobuild.Worker.Validate.Sound.{validate_graph-IsAcyclic, validate_graph-DependsOn}
use octobuild.Worker.Execute.{Message, BuildResult, Run, finished, execute_until_failed}
use octobuild.Worker.Execute.Total.{
  IsHonest, Ending, execute_until_failed_lem, execute_until_failed-success,
}

abbrev three_outgoing : ℕ → List ℕ
three_outgoing zero = []
three_outgoing (suc zero) = 0 ∷ []
three_outgoing (suc (suc zero)) = 0 ∷ 1 ∷ []
three_outgoing (suc (suc (suc _))) = []

abbrev three_incoming : ℕ → List ℕ
three_incoming zero = 1 ∷ 2 ∷ []
three_incoming (suc zero) = 2 ∷ []
three_incoming (suc (suc _)) = []

-- The task 2 depends on 0 and 1, and 1 on 0.
abbrev three : Graph
three = record {
  node_count = 3;
  outgoing = three_outgoing;
  incoming = three_incoming;
  externals = 0 ∷ [];
}

three-bounded : (u v : ℕ) → In v (three_outgoing u) → (u < 3) × (v < 3)
three-bounded zero v m = absurd m
three-bounded (suc zero) v m = ground arith
three-bounded (suc (suc zero)) v m = ground arith
three-bounded (suc (suc (suc u))) v m = absurd m

three_mirrored : (u v : ℕ) → In u (three_incoming v) ↔ In v (three_outgoing u)
three_mirrored zero zero = ground arith
three_mirrored zero (suc zero) = ground arith
three_mirrored zero (suc (suc v)) = ground arith
three_mirrored (suc zero) zero = ground arith
three_mirrored (suc zero) (suc zero) = ground arith
three_mirrored (suc zero) (suc (suc v)) = ground arith
three_mirrored (suc (suc zero)) zero = ground arith
three_mirrored (suc (suc zero)) (suc zero) = ground arith
three_mirrored (suc (suc zero)) (suc (suc v)) = ground arith
three_mirrored (suc (suc (suc u))) zero = ground arith
three_mirrored (suc (suc (suc u))) (suc zero) = ground arith
three_mirrored (suc (suc (suc u))) (suc (suc v)) = ground arith

three_externals : (u : ℕ) → In u (0 ∷ []) ↔ ((u < 3) × (three_outgoing u ≡ []))
three_externals zero = (λ _. (omega arith, refl), λ _. inl refl)
three_externals (suc zero) = (λ m. absurd (ground arith), λ (_, e). cc)
three_externals (suc (suc zero)) = (λ m. absurd (ground arith), λ (_, e). cc)
three_externals (suc (suc (suc u))) = (λ m. absurd (ground arith), λ (h, _). absurd (omega arith))

three-IsGraph : IsGraph three
three-IsGraph = record {
  in_range = three-bounded;
  mirrored = three_mirrored;
  externals_are = three_externals;
  externals_distinct = ((λ m. m), tt);
}

three-IsSimple : IsSimple three
three-IsSimple zero = ground arith
three-IsSimple (suc zero) = ground arith
three-IsSimple (suc (suc v)) = tt

first : IsBuildable three 0
first = build (λ v m. absurd m)

second : IsBuildable three 1
second =
    build (λ v m. elim m [ inl e ↦ subst (IsBuildable three) (sym e) first | inr m2 ↦ absurd m2 ])

third : IsBuildable three 2
third = build (λ v m. elim m [
  | inl e ↦ subst (IsBuildable three) (sym e) first
  | inr (inl e) ↦ subst (IsBuildable three) (sym e) second
  | inr (inr m2) ↦ absurd m2
])

three-IsAcyclic : IsAcyclic three
three-IsAcyclic zero h = first
three-IsAcyclic (suc zero) h = second
three-IsAcyclic (suc (suc zero)) h = third
three-IsAcyclic (suc (suc (suc u))) h = absurd (omega arith)

-- A task that succeeded.
abbrev good : OutputInfo
good = record { status = some 0; stdout = []; stderr = [] }

abbrev oldest : List ℕ → ℕ
oldest [] = 0
oldest (u ∷ us) = u

-- The results come in the order in which the tasks were sent.
abbrev in_order : Run → Message
in_order s = record { index = oldest s.in_flight; worker = 0; result = ok good }

oldest-In : (us : List ℕ) (u : ℕ) → In u us → In (oldest us) us
oldest-In [] u m = m
oldest-In (v ∷ us) u m = inl refl

in_order-IsHonest : IsHonest in_order
in_order-IsHonest s u m = oldest-In s.in_flight u m

abbrev quiet : BuildResult → Result IoError (Unit {0})
quiet b = ok tt

three_runs : execute_until_failed three quiet in_order ≡ finished (ok (some 0))
unfolding execute_until_failed
three_runs = refl

three_validates : validate_graph three ≡ ok three
unfolding validate_graph
three_validates = refl

execute_until_failed_lem_example :
    (r : Result IoError (Option ℕ)) × (execute_until_failed three quiet in_order ≡ finished r)
    × Ending three three-IsGraph three-IsSimple quiet in_order r
execute_until_failed_lem_example =
    execute_until_failed_lem three three-IsGraph three-IsSimple quiet three-IsAcyclic in_order
      in_order-IsHonest (omega arith)

execute_until_failed-success_example :
    execute_until_failed three quiet in_order ≡ finished (ok (some 0))
execute_until_failed-success_example =
    execute_until_failed-success three three-IsGraph three-IsSimple quiet three-IsAcyclic in_order
      in_order-IsHonest (omega arith) (λ b. refl) (λ s. (good, refl, refl))

validate_graph-IsAcyclic_example : (validate_graph three ≡ ok three) ↔ IsAcyclic three
validate_graph-IsAcyclic_example = validate_graph-IsAcyclic three three-IsGraph

validate_graph_ends_example : validate_graph three ≢ err out_of_fuel
validate_graph_ends_example = validate_graph_ends three three-IsGraph

abbrev other : ℕ → List ℕ
other zero = 1 ∷ []
other (suc zero) = 0 ∷ []
other (suc (suc _)) = []

-- Two tasks that depend on each other.
abbrev two : Graph
two = record { node_count = 2; outgoing = other; incoming = other; externals = [] }

other-bounded : (u v : ℕ) → In v (other u) → (u < 2) × (v < 2)
other-bounded zero v m = ground arith
other-bounded (suc zero) v m = ground arith
other-bounded (suc (suc u)) v m = absurd m

other_mirrored : (u v : ℕ) → In u (other v) ↔ In v (other u)
other_mirrored zero zero = ground arith
other_mirrored zero (suc zero) = ground arith
other_mirrored zero (suc (suc v)) = ground arith
other_mirrored (suc zero) zero = ground arith
other_mirrored (suc zero) (suc zero) = ground arith
other_mirrored (suc zero) (suc (suc v)) = ground arith
other_mirrored (suc (suc u)) zero = ground arith
other_mirrored (suc (suc u)) (suc zero) = ground arith
other_mirrored (suc (suc u)) (suc (suc v)) = ground arith

other_externals : (u : ℕ) → In u [] ↔ ((u < 2) × (other u ≡ []))
other_externals zero = (λ m. absurd m, λ (_, e). cc)
other_externals (suc zero) = (λ m. absurd m, λ (_, e). cc)
other_externals (suc (suc u)) = (λ m. absurd m, λ (h, _). absurd (omega arith))

two-IsGraph : IsGraph two
two-IsGraph = record {
  in_range = other-bounded;
  mirrored = other_mirrored;
  externals_are = other_externals;
  externals_distinct = tt;
}

validate_graph-DependsOn_example : validate_graph two ≡ err cycles
validate_graph-DependsOn_example =
    validate_graph-DependsOn two 0 two-IsGraph (through (inl refl) (direct (inl refl)))

-- A worker is still at a task when the loop ends, one waits, and a result is in the channel.
abbrev at_work : Late
at_work = record {
  workers = (0, some 2) ∷ (1, none) ∷ [];
  results = (record { index = 1; worker = 1; result = ok good }) ∷ [];
  pick = λ p. 1;
}

three_builds : execute_graph quiet three (λ u. ok good) in_order at_work ≡ finished (ok (some 0))
unfolding execute_graph
three_builds = refl

execute_graph-success_example :
    execute_graph quiet three (λ u. ok good) in_order at_work ≡ finished (ok (some 0))
execute_graph-success_example =
    execute_graph-success three three-IsGraph three-IsSimple quiet (λ u. ok good) in_order
      in_order-IsHonest at_work three-IsAcyclic (λ b. refl) (λ s. (good, refl, refl))
      (good, refl, refl)
