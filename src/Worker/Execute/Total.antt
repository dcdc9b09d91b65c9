-- ===== src/Worker/Execute/Total.antt =====
-- `execute_until_failed` always returns, and what its result means.
use octobuild.Prelude.{
  ℕ, zero, suc, ◌+◌, ◌≤◌, ◌<◌, true, false, ◌==◌, length, set, flag, Result, ok, err, ◌≡◌, ◌≢◌,
  arith, Bool-cases, Result-cases, inl, inr, In, Option, some,
}
use octobuild.Compiler.{OutputInfo, success}
use octobuild.Io.Stream.{IoError}
use octobuild.Worker.Graph.{Graph, IsGraph, IsSimple, IsAcyclic}
use octobuild.Worker.Execute.{
  Message, BuildResult, build_result, Run, go_on, finished, initial, completes, succeeds, handle,
  execute_loop, execute_until_failed,
}
use octobuild.Worker.Execute.Invariant.{
  Inv, Inv-initial, Inv-completes, all_completed, Inv-in_flight,
}

-- The channel of results gives a result only of a task that was sent and not answered.
abbrev pub IsHonest : (Run → Message) → Type 0
IsHonest next = (s : Run) (u : ℕ) → In u s.in_flight → In (next s).index s.in_flight

module _ (g : Graph) (laws : IsGraph g) (simple : IsSimple g)
    (update_progress : BuildResult → Result IoError (Unit {0})) where
  -- What one message leads to, in a valid state: never to a failed assertion.
  data Handled (s : Run) (m : Message) : Type 0 where
    went_on :
        handle g update_progress s m ≡ go_on (completes g s m.index)
        → Inv g (completes g s m.index)
        → Handled s m
    all_done :
        handle g update_progress s m ≡ finished (ok (some 0))
        → ((u : ℕ) → u < g.node_count → flag (set s.completed m.index true) u ≡ true)
        → Handled s m
    failed :
        (o : OutputInfo)
        → m.result ≡ ok o
        → success o ≡ false
        → handle g update_progress s m ≡ finished (ok o.status)
        → Handled s m
    broke : (e : IoError) → handle g update_progress s m ≡ finished (err e) → Handled s m

  handle_lem : (s : Run) (m : Message) → Inv g s → In m.index s.in_flight → Handled s m
  unfolding handle
  handle_lem s m i fl =
      elim (Result-cases (update_progress (build_result m (s.count + 1) g.node_count))) [
        | inr (e, p) ↦ broke e (rw (fresh, p, handle))
        | inl (_, p) ↦ elim (Result-cases m.result) [
          | inr (e, r) ↦ broke e (rw (fresh, p, r, handle))
          | inl (o, r) ↦ elim (Bool-cases (success o)) [
            | inr no_success ↦ failed o r no_success (rw (fresh, p, r, no_success, handle))
            | inl good ↦
                elim (Bool-cases ((s.count + 1) == length (set s.completed m.index true))) [
                  | inl all ↦
                      all_done (rw (fresh, p, r, good, all, handle))
                        (all_completed g laws simple s i m.index fl all)
                  | inr more ↦
                      went_on (rw (fresh, p, r, good, more, handle))
                        (Inv-completes g laws simple s i m.index fl more)
                ]
          ]
        ]
      ]
    where
      fresh : flag s.completed m.index ≡ false
      fresh = ((i.in_flight_are m.index).0 fl).1

  failed_status : (o : OutputInfo) → success o ≡ false → o.status ≢ some 0
  failed_status o h e = cc (rw e at h)

  -- The valid state and the message with which the loop has ended, and what it returned.
  pub record Ending (next : Run → Message) (r : Result IoError (Option ℕ)) : Type 0 where
    pub last : Run
    pub valid : Inv g last
    pub returned : handle g update_progress last (next last) ≡ finished r
    pub success_means_all :
        r ≡ ok (some 0)
        → (u : ℕ) → u < g.node_count
        → flag (set last.completed (next last).index true) u ≡ true

  module _ (acyclic : IsAcyclic g) (next : Run → Message) (honest : IsHonest next) where
    abbrev Ends : ℕ → Run → Type 0
    Ends fuel s =
        (r : Result IoError (Option ℕ)) × (execute_loop g update_progress next fuel s ≡ finished r)
        × Ending next r

    answers : (s : Run) → Inv g s → In (next s).index s.in_flight
    answers s i = let (u, m) = Inv-in_flight g s laws acyclic i in honest s u m

    execute_loop_lem : (fuel : ℕ) (s : Run) → Inv g s → g.node_count ≤ s.count + fuel → Ends fuel s
    unfolding execute_loop
    execute_loop_lem zero s i h = absurd (omega (arith, i.unfinished))
    execute_loop_lem (suc fuel) s i h = elim (handle_lem s (next s) i (answers s i)) [
      | went_on e i' ↦
          let (r, e', d) = execute_loop_lem fuel (completes g s (next s).index) i' (omega arith) in
          (r, rw (e, execute_loop) e', d)
      | all_done e all ↦ (
        ok (some 0),
        rw (e, execute_loop),
        record { last = s; valid = i; returned = e; success_means_all = λ _. all },
      )
      | failed o _ bad e ↦ (
        ok o.status,
        rw (e, execute_loop),
        record {
          last = s;
          valid = i;
          returned = e;
          success_means_all = λ z. absurd (failed_status o bad (ok_status o z));
        },
      )
      | broke x e ↦ (
        err x,
        rw (e, execute_loop),
        record { last = s; valid = i; returned = e; success_means_all = λ z. cc },
      )
    ]
      where
        ok_status :
            (o : OutputInfo)
            → Path (Result IoError (Option ℕ)) (ok o.status) (ok (some 0))
            → o.status ≡ some 0
        ok_status o z = cc

    -- On a graph with no cycle and no two equal edges the loop returns after at most one message for
    -- each task, whatever the order in which the results of the sent tasks arrive: no assertion
    -- fails, and it never waits while nothing is in flight. It returns the result 0 only when every
    -- task is completed.
    pub execute_until_failed_lem :
        0 < g.node_count
        → (r : Result IoError (Option ℕ)) × (execute_until_failed g update_progress next
            ≡ finished r)
          × Ending next r
    unfolding execute_until_failed
    execute_until_failed_lem h =
        execute_loop_lem g.node_count (initial g) (Inv-initial g laws h) (omega arith)

    handle_good :
        (s : Run) (o : OutputInfo)
        → Inv g s
        → ((b : BuildResult) → update_progress b ≡ ok tt)
        → (next s).result ≡ ok o
        → success o ≡ true
        → handle g update_progress s (next s) ≡ succeeds g s (next s).index
    unfolding handle
    handle_good s o i quiet r good = rw (
      ((i.in_flight_are (next s).index).0 (answers s i)).1,
      quiet (build_result (next s) (s.count + 1) g.node_count),
      r,
      good,
      handle,
    )

    all_succeed :
        ((b : BuildResult) → update_progress b ≡ ok tt)
        → ((s : Run) → (o : OutputInfo) × ((next s).result ≡ ok o) × (success o ≡ true))
        → (fuel : ℕ) (s : Run) → Inv g s
        → g.node_count ≤ s.count + fuel
        → execute_loop g update_progress next fuel s ≡ finished (ok (some 0))
    unfolding execute_loop
    all_succeed quiet good zero s i h = absurd (omega (arith, i.unfinished))
    all_succeed quiet good (suc fuel) s i h =
        let (o, r, g') = good s in
        let e = handle_good s o i quiet r g' in
        elim (Bool-cases ((s.count + 1) == length (set s.completed (next s).index true))) [
          | inl all ↦ rw (e, all, execute_loop)
          | inr more ↦
              rw (e, more, execute_loop)
                (all_succeed quiet good fuel (completes g s (next s).index)
                  (Inv-completes g laws simple s i (next s).index (answers s i) more) (omega arith))
        ]

    -- Where moreover every task succeeds and the reports of progress do too, the result is 0.
    pub execute_until_failed-success :
        0 < g.node_count
        → ((b : BuildResult) → update_progress b ≡ ok tt)
        → ((s : Run) → (o : OutputInfo) × ((next s).result ≡ ok o) × (success o ≡ true))
        → execute_until_failed g update_progress next ≡ finished (ok (some 0))
    unfolding execute_until_failed
    execute_until_failed-success h quiet good =
        all_succeed quiet good g.node_count (initial g) (Inv-initial g laws h) (omega arith)
