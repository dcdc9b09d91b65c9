-- ===== src/Worker/Build.antt =====
-- `execute_graph` of worker.rs: the check for cycles, the cases of no task and of one, and the threads
-- with the results that come late. The workers are the environment: it chooses which result of a
-- task in flight comes next, which tasks are still worked on when the loop ends, and which worker
-- moves next behind it.
pub mod Total
use octobuild.Prelude.{
  ℕ, zero, suc, ◌+◌, Bool, true, false, List, [], ◌∷◌, ◌++◌, ◌==◌, if◌then◌else◌, Text, Result, ok,
  err, ◌>>=◌, Option, none, some, length,
}
use octobuild.Compiler.{OutputInfo, CommandInfo, CompilationTask, TaskError}
use octobuild.Io.Stream.{IoError, build_cycles, panic}
use octobuild.Worker.Graph.{Graph}
use octobuild.Worker.Validate.{GraphError, cycles, out_of_fuel, validate_graph}
use octobuild.Worker.Execute.{
  Message, BuildResult, build_result, Run, Outcome, go_on, finished, initial, handle,
  execute_until_failed,
}

-- `BuildAction`, for toolchains `T`.
pub data BuildAction (T : Type 0) : Type 0 where
  empty : BuildAction T
  exec : CommandInfo → List Text → BuildAction T
  compilation : T → CompilationTask → BuildAction T

module _ {T : Type 0} where
  abbrev pub compilations : List (T × CompilationTask) → List (BuildAction T)
  compilations [] = []
  compilations ((toolchain, task) ∷ tasks) = compilation toolchain task ∷ compilations tasks

  abbrev pub or_exec : CommandInfo → List Text → List (BuildAction T) → List (BuildAction T)
  or_exec command args [] = exec command args ∷ []
  or_exec command args (a ∷ actions) = a ∷ actions

  -- `BuildAction::create_tasks`, with the compiler's `create_tasks`; the message is not printed.
  unfoldable pub create_actions :
      (CommandInfo → List Text → Result IoError (List (T × CompilationTask)))
      → CommandInfo
      → List Text
      → List (BuildAction T)
  create_actions create_tasks command args = elim (create_tasks command args) [
    | ok tasks ↦ or_exec command args (compilations tasks)
    | err _ ↦ or_exec command args []
  ]

  module _ (run_command : CommandInfo → List Text → Result IoError OutputInfo)
      (compile_task : T → CompilationTask → Result IoError OutputInfo) where
    unfoldable pub execute_compiler : BuildAction T → Result IoError OutputInfo
    execute_compiler empty = ok (record { status = some 0; stdout = []; stderr = [] })
    execute_compiler (exec command args) = run_command command args
    execute_compiler (compilation toolchain task) = compile_task toolchain task

abbrev graph_error : GraphError → IoError
graph_error cycles = build_cycles
graph_error out_of_fuel = panic

-- The threads behind `execute_until_failed`, when the queue of tasks is empty: the workers that are not
-- at an end, each with its task or waiting for one, the messages in the channel of results, and
-- whether `tx_task` and the first `tx_result` are alive. Each worker has a sender of results.
pub record Pool : Type 0 where
  pub workers : List (ℕ × Option ℕ)
  pub results : List Message
  pub tx_task : Bool
  pub tx_result : Bool

-- A round of a worker's loop: it sends its result, or `recv` fails if no sender of tasks is left.
abbrev pub worker_round :
    Bool → (ℕ → Result IoError OutputInfo) → ℕ × Option ℕ → List (ℕ × Option ℕ) × List Message
worker_round open_ execute (id, some u) =
    ((id, none) ∷ [], (record { index = u; worker = id; result = execute u }) ∷ [])
worker_round true execute (id, none) = ((id, none) ∷ [], [])
worker_round false execute (id, none) = ([], [])

-- The worker at a place moves, the last one if there are not so many.
unfoldable pub wake :
    Bool
    → (ℕ → Result IoError OutputInfo)
    → ℕ
    → List (ℕ × Option ℕ)
    → List (ℕ × Option ℕ) × List Message
wake open_ execute i [] = ([], [])
wake open_ execute zero (w ∷ ws) =
    let (left, sent) = worker_round open_ execute w in (left ++ ws, sent)
wake open_ execute (suc i) (w ∷ []) = worker_round open_ execute w
wake open_ execute (suc i) (w ∷ v ∷ ws) =
    let (left, sent) = wake open_ execute i (v ∷ ws) in (w ∷ left, sent)

-- What the environment has chosen for the time behind `execute_until_failed`.
pub record Late : Type 0 where
  pub workers : List (ℕ × Option ℕ)
  pub results : List Message
  pub pick : Pool → ℕ

-- `execute_until_failed` owns `tx_task` and has dropped it; `tx_result` is dropped before it.
abbrev pub pool_of : Late → Pool
pool_of late = record {
  workers = late.workers;
  results = late.results;
  tx_task = false;
  tx_result = false;
}

abbrev pub worker_rounds : List (ℕ × Option ℕ) → ℕ
worker_rounds [] = 0
worker_rounds ((id, none) ∷ ws) = 1 + worker_rounds ws
worker_rounds ((id, some u) ∷ ws) = 3 + worker_rounds ws

-- A busy worker sends a message and ends, and each message is a round.
abbrev pub drain_fuel : Late → ℕ
drain_fuel late = suc (worker_rounds late.workers + length late.results)

module _ (update_progress : BuildResult → Result IoError (Unit {0})) where
  -- The counter behind `execute_until_failed`.
  unfoldable pub count_loop : Graph → (Run → Message) → ℕ → Run → ℕ
  count_loop g next zero s = s.count
  count_loop g next (suc fuel) s = elim (handle g update_progress s (next s)) [
    | go_on t ↦ count_loop g next fuel t
    | finished _ ↦ s.count + 1
    | Outcome.panic ↦ s.count
  ]

  -- The loop over the results that come late. A message is taken from the channel; where it is empty
  -- the loop ends if no sender is left, and else waits until a worker has moved. `none` is that it
  -- waits for ever. Moves of the workers while messages are left only put others behind them.
  unfoldable pub drain :
      (ℕ → Result IoError OutputInfo)
      → (Pool → ℕ)
      → ℕ
      → ℕ
      → ℕ
      → Pool
      → Option (Result IoError (Unit {0}))
  unfolding wake
  drain execute pick zero total count p = none
  drain execute pick (suc fuel) total count p = elim p.results [
    | m ∷ ms ↦ elim (update_progress (build_result m (count + 1) total)) [
      | err e ↦ some (err e)
      | ok _ ↦ drain execute pick fuel total (count + 1) (record p { results = ms })
    ]
    | [] ↦ elim p.workers [
      | [] ↦ if p.tx_result then none else some (ok tt)
      | w ∷ ws ↦
          let (workers, messages) = wake p.tx_task execute (pick p) (w ∷ ws) in
          drain execute pick fuel total count (record p { workers = workers; results = messages })
    ]
  ]

  -- The case of one task, which runs on no thread.
  abbrev pub execute_one : Result IoError OutputInfo → Outcome
  execute_one result = finished (
      update_progress (record { task = 0; worker = 0; result = result; completed = 1; total = 1 })
      >>= λ _. result >>= λ output. ok output.status)

  -- The result of the loop, behind the late results; it is not there while they are waited for.
  abbrev pub with_late : Graph → Option (Result IoError (Unit {0})) → Outcome → Outcome
  with_late g none (finished r) = go_on (initial g)
  with_late g (some drained) (finished r) = finished (drained >>= λ _. r)
  with_late g drained (go_on t) = go_on t
  with_late g drained Outcome.panic = Outcome.panic

  -- `execute_graph` behind the check.
  unfoldable pub execute_valid :
      Graph → (ℕ → Result IoError OutputInfo) → (Run → Message) → Late → Outcome
  unfolding execute_until_failed count_loop drain
  execute_valid g execute next late =
      if g.node_count == 0
      then finished (ok (some 0))
      else if g.node_count == 1
      then execute_one (execute 0)
      else with_late g
          (drain execute late.pick (drain_fuel late) g.node_count
            (count_loop g next g.node_count (initial g)) (pool_of late))
          (execute_until_failed g update_progress next)

  unfoldable pub execute_graph :
      Graph → (ℕ → Result IoError OutputInfo) → (Run → Message) → Late → Outcome
  unfolding execute_valid validate_graph
  execute_graph g execute next late = elim (validate_graph g) [
    | err e ↦ finished (err (graph_error e))
    | ok graph ↦ execute_valid graph execute next late
  ]
