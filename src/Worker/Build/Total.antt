-- ===== src/Worker/Build/Total.antt =====
-- `execute_graph` always returns.
use octobuild.Prelude.{
  ==_iff, Option-cases, sym, ap, ◌∙◌, true, ℕ, zero, suc, ◌+◌, ◌<◌, false, List, [], ◌∷◌, ◌++◌,
  ◌==◌, Result, ok, err, ◌>>=◌, Option, none, some, ◌≡◌, ◌⊎◌, refl, arith, Bool-cases, Result-cases,
  inl, inr, length,
}
use octobuild.Compiler.{OutputInfo, success}
use octobuild.Io.Stream.{IoError, build_cycles}
use octobuild.Worker.Graph.{Graph, IsGraph, IsSimple, IsAcyclic}
use octobuild.Worker.Validate.Sound.{validate_graph-cases, validate_graph-IsAcyclic}
use octobuild.Worker.Execute.{
  Message, BuildResult, build_result, Run, Outcome, finished, initial, execute_until_failed,
}
use octobuild.Worker.Execute.Total.{
  IsHonest, execute_until_failed_lem, execute_until_failed-success,
}
use octobuild.Worker.Build.{
  Pool, worker_round, wake, Late, worker_rounds, drain_fuel, count_loop, drain, execute_valid,
  execute_graph,
}

rounds-append :
    (ws vs : List (ℕ × Option ℕ)) → worker_rounds (ws ++ vs) ≡ worker_rounds ws + worker_rounds vs
rounds-append [] vs = omega arith
rounds-append ((id, none) ∷ ws) vs = omega (arith, rounds-append ws vs)
rounds-append ((id, some u) ∷ ws) vs = omega (arith, rounds-append ws vs)

module _ (execute : ℕ → Result IoError OutputInfo) where
  abbrev rounds_of : List (ℕ × Option ℕ) × List Message → ℕ
  rounds_of (ws, ms) = worker_rounds ws + length ms

  -- Behind the last task a round of a worker brings it nearer to its end.
  worker_round-less :
      (w : ℕ × Option ℕ) → rounds_of (worker_round false execute w) < worker_rounds (w ∷ [])
  worker_round-less (id, none) = omega arith
  worker_round-less (id, some u) = omega arith

  wake-less :
      (i : ℕ) (w : ℕ × Option ℕ) (ws : List (ℕ × Option ℕ))
      → rounds_of (wake false execute i (w ∷ ws)) < worker_rounds (w ∷ ws)
  unfolding wake
  wake-less zero w ws = omega (
    arith,
    worker_round-less w,
    rounds-append (worker_round false execute w).0 ws,
    rounds-append (w ∷ []) ws,
  )
  wake-less (suc i) w [] = worker_round-less w
  wake-less (suc i) w (v ∷ ws) = omega (
    arith,
    wake-less i v ws,
    rounds-append (w ∷ []) (v ∷ ws),
    rounds-append (w ∷ []) (wake false execute i (v ∷ ws)).0,
  )

module _ (update_progress : BuildResult → Result IoError (Unit {0})) where
  abbrev pub IsQuiet : Type 0
  IsQuiet = (b : BuildResult) → update_progress b ≡ ok tt

  -- The loop ends, with no error where no report fails.
  abbrev Drained : Option (Result IoError (Unit {0})) → Type 0
  Drained o = (d : Result IoError (Unit {0})) × (o ≡ some d) × (IsQuiet → d ≡ ok tt)

  module _ (execute : ℕ → Result IoError OutputInfo) (pick : Pool → ℕ) (total : ℕ) where
    drain_lem :
        (fuel count : ℕ) (ws : List (ℕ × Option ℕ)) (ms : List Message)
        → worker_rounds ws + length ms < fuel
        → Drained (
            drain update_progress execute pick fuel total count
              (record { workers = ws; results = ms; tx_task = false; tx_result = false }))
    unfolding drain
    drain_lem zero count ws ms h = absurd (omega arith)
    drain_lem (suc fuel) count [] [] h = (ok tt, refl, λ q. refl)
    drain_lem (suc fuel) count (w ∷ ws) [] h =
        let i =
          pick (record { workers = w ∷ ws; results = []; tx_task = false; tx_result = false }) in
        let moved = wake false execute i (w ∷ ws) in
        drain_lem fuel count moved.0 moved.1 (omega (arith, wake-less execute i w ws))
    drain_lem (suc fuel) count ws (m ∷ ms) h =
        elim (Result-cases (update_progress (build_result m (count + 1) total))) [
          | inl (u, e) ↦
              let (d, e', q) = drain_lem fuel (count + 1) ws ms (omega arith) in
              (d, rw (e, drain) e', q)
          | inr (x, e) ↦ (err x, rw (e, drain), λ q. cc (e, q (build_result m (count + 1) total)))
        ]

module _ (g : Graph) (laws : IsGraph g) (simple : IsSimple g)
    (update_progress : BuildResult → Result IoError (Unit {0}))
    (execute : ℕ → Result IoError OutputInfo) (next : Run → Message) (honest : IsHonest next)
    (late : Late) where
  abbrev one_task : BuildResult
  one_task = record { task = 0; worker = 0; result = execute 0; completed = 1; total = 1 }

  -- What follows the check for cycles: with no task it is status 0, with one task its status behind its
  -- report, and else what `execute_until_failed` returns, behind the reports of the late results.
  pub data Follows (r : Result IoError (Option ℕ)) : Type 0 where
    no_task : g.node_count ≡ 0 → r ≡ ok (some 0) → Follows r
    one :
        g.node_count ≡ 1
        → r ≡ (update_progress one_task >>= λ _. execute 0 >>= λ output. ok output.status)
        → Follows r
    more :
        1 < g.node_count
        → (status : Result IoError (Option ℕ))
        → execute_until_failed g update_progress next ≡ finished status
        → (reported : Result IoError (Unit {0})) → (IsQuiet update_progress → reported ≡ ok tt)
        → r ≡ (reported >>= λ _. status)
        → Follows r

  abbrev Returns : Outcome → Type 0
  Returns o = (r : Result IoError (Option ℕ)) × (o ≡ finished r) × Follows r

  valid-Returns : IsAcyclic g → Returns (execute_valid update_progress g execute next late)
  unfolding execute_valid
  valid-Returns acyclic = elim (Bool-cases (g.node_count == 0)) [
    | inl none_ ↦ (ok (some 0), rw (none_, execute_valid), no_task (ground arith) refl)
    | inr some_ ↦ elim (Bool-cases (g.node_count == 1)) [
      | inl one_ ↦ (
        (update_progress one_task >>= λ _. execute 0 >>= λ output. ok output.status),
        rw (some_, one_, execute_valid),
        one (ground arith) refl,
      )
      | inr more_ ↦
          let many : 1 < g.node_count = ground arith in
          let (status, e, _) =
            execute_until_failed_lem g laws simple update_progress acyclic next honest
              (omega arith) in
          let count = count_loop update_progress g next g.node_count (initial g) in
          let (d, e', quiet) =
            drain_lem update_progress execute late.pick g.node_count (drain_fuel late) count
              late.workers late.results (omega arith) in
          (
            (d >>= λ _. status),
            rw (some_, more_, execute_valid) (rw (e', e)),
            more many status e d quiet refl,
          )
    ]
  ]

  pub execute_graph_lem :
      (r : Result IoError (Option ℕ)) × (execute_graph update_progress g execute next late
        ≡ finished r)
      × ((IsAcyclic g × Follows r) ⊎ ((IsAcyclic g → ⊥) × (r ≡ err build_cycles)))
  unfolding execute_graph
  execute_graph_lem = elim (validate_graph-cases g laws) [
    | inl e ↦
        let acyclic = (validate_graph-IsAcyclic g laws).0 e in
        let (r, e', follows) = valid-Returns acyclic in
        (r, rw (e, execute_graph) e', inl (acyclic, follows))
    | inr e ↦ (
      err build_cycles,
      rw (e, execute_graph),
      inr ((λ a. (let e' = (validate_graph-IsAcyclic g laws).1 a in cc)), refl),
    )
  ]

  finished-injective :
      {x y : Result IoError (Option ℕ)} → Path Outcome (finished x) (finished y) → x ≡ y
  finished-injective e = cc

  status_of-success : (o : OutputInfo) → success o ≡ true → o.status ≡ some 0
  status_of-success o good = elim (Option-cases o.status) [
    | inl none_ ↦ cc (rw none_ at good)
    | inr (s, some_) ↦
        let zero_ : s ≡ 0 = (==_iff s 0).0 (rw some_ at good) in some_ ∙ ap some zero_
  ]

  Follows-success :
      IsAcyclic g
      → IsQuiet update_progress
      → ((s : Run) → (o : OutputInfo) × ((next s).result ≡ ok o) × (success o ≡ true))
      → ((o : OutputInfo) × (execute 0 ≡ ok o) × (success o ≡ true))
      → (r : Result IoError (Option ℕ)) → Follows r
      → r ≡ ok (some 0)
  Follows-success acyclic quiet good good' r (no_task _ e) = e
  Follows-success acyclic quiet good (o, eo, so) r (one _ e) =
      e
      ∙ ap (λ u. u >>= λ _. execute 0 >>= λ output. ok output.status) (quiet one_task)
      ∙ ap (λ x. x >>= λ output. ok output.status) eo
      ∙ ap ok (status_of-success o so)
  Follows-success acyclic quiet good good' r (more many status e reported reports e') =
      let done : Path Outcome (finished status) (finished (ok (some 0))) =
        sym e
        ∙ execute_until_failed-success g laws simple update_progress acyclic next honest
            (omega (arith, many)) quiet good in
      e' ∙ ap (λ d. d >>= λ _. status) (reports quiet) ∙ finished-injective done

  -- On a graph with no cycle and no two equal edges, where every task and every report of progress
  -- succeeds, `execute_graph` returns status 0, whatever the order in which results arrive and workers
  -- move.
  pub execute_graph-success :
      IsAcyclic g
      → IsQuiet update_progress
      → ((s : Run) → (o : OutputInfo) × ((next s).result ≡ ok o) × (success o ≡ true))
      → ((o : OutputInfo) × (execute 0 ≡ ok o) × (success o ≡ true))
      → execute_graph update_progress g execute next late ≡ finished (ok (some 0))
  execute_graph-success acyclic quiet good good' = elim execute_graph_lem.2 [
    | inl (_, follows) ↦
        execute_graph_lem.1
        ∙ ap finished (Follows-success acyclic quiet good good' execute_graph_lem.0 follows)
    | inr (cyclic, _) ↦ absurd (cyclic acyclic)
  ]
