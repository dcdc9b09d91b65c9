-- ===== src/Worker/Execute.antt =====
-- `execute_until_failed` of worker.rs. The channels are the list `in_flight` of the
-- tasks that are sent and whose result is not read yet: in the queue, at a worker, or in the channel
-- of results. Which result comes next is the environment's choice. A send to a channel of
-- which the receiver is alive, as here, does not fail.
pub mod Invariant
pub mod Total
use octobuild.Prelude.{
  ℕ, zero, suc, ◌+◌, Bool, true, false, not, ◌&&◌, List, [], ◌∷◌, ◌++◌, ◌==◌, if◌then◌else◌, length,
  set, replicate, flag, Result, ok, err, ◌>>=◌, remove, Option, none, some, Bytes,
}
use octobuild.Compiler.{OutputInfo, success}
use octobuild.Io.Stream.{IoError}
use octobuild.Worker.Graph.{Graph, is_ready}
use octobuild.Worker.Validate.{GraphError, cycles, out_of_fuel, validate_graph}

-- `ResultMessage`; the task is the graph's at `index`.
pub record Message : Type 0 where
  pub index : ℕ
  pub worker : ℕ
  pub result : Result IoError OutputInfo

-- `BuildResult`, which `update_progress` is given.
pub record BuildResult : Type 0 where
  pub task : ℕ
  pub worker : ℕ
  pub result : Result IoError OutputInfo
  pub completed : ℕ
  pub total : ℕ

-- `BuildResult::new`, with the counter that it has raised.
abbrev pub build_result : Message → ℕ → ℕ → BuildResult
build_result m completed total = record {
  task = m.index;
  worker = m.worker;
  result = m.result;
  completed = completed;
  total = total;
}

pub record Run : Type 0 where
  pub completed : List Bool
  pub in_flight : List ℕ
  pub count : ℕ

-- What one message leads to: the next round, the end of the function, or a failed `assert!`.
pub data Outcome : Type 0 where
  go_on : Run → Outcome
  finished : Result IoError (Option ℕ) → Outcome
  panic : Outcome

module _ (g : Graph) where
  -- The state behind the first loop, which sends the tasks that depend on nothing.
  abbrev pub initial : Run
  initial = record { completed = replicate g.node_count false; in_flight = g.externals; count = 0 }

  -- The inner loop over the neighbours: the tasks that it sends.
  unfoldable pub ready_of : List Bool → List ℕ → List ℕ
  ready_of completed [] = []
  ready_of completed (source ∷ sources) =
      if is_ready g completed source
      then source ∷ ready_of completed sources
      else ready_of completed sources

  -- The body of the loop behind the test for success.
  abbrev pub completes : Run → ℕ → Run
  completes s index =
      let completed = set s.completed index true in
      record {
        completed = completed;
        in_flight = remove index s.in_flight ++ ready_of completed (g.incoming index);
        count = s.count + 1;
      }

  abbrev pub succeeds : Run → ℕ → Outcome
  succeeds s index =
      let t = completes s index in
      if t.count == length t.completed then finished (ok (some 0)) else go_on t

  module _ (update_progress : BuildResult → Result IoError (Unit {0})) where
    -- The body of the loop over the messages.
    unfoldable pub handle : Run → Message → Outcome
    handle s m =
        if flag s.completed m.index
        then panic
        else elim (update_progress (build_result m (s.count + 1) g.node_count)) [
          | err e ↦ finished (err e)
          | ok _ ↦ elim m.result [
            | err e ↦ finished (err e)
            | ok output ↦
                if not (success output) then finished (ok output.status) else succeeds s m.index
          ]
        ]

    -- The loop, with the choice of the message that comes next. The fuel counts messages.
    unfoldable pub execute_loop : (Run → Message) → ℕ → Run → Outcome
    execute_loop next zero s = go_on s
    execute_loop next (suc fuel) s = elim (handle s (next s)) [
      | go_on t ↦ execute_loop next fuel t
      | finished r ↦ finished r
      | panic ↦ panic
    ]

    unfoldable pub execute_until_failed : (Run → Message) → Outcome
    unfolding execute_loop handle ready_of is_ready
    execute_until_failed next = execute_loop next g.node_count initial
