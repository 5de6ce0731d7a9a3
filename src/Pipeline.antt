-- ===== src/Pipeline.antt =====
-- Running the planned actions of a pod: RunPlannedActions of backend/helpers/action_pipeline.go.
-- What a pod answers is a parameter: `reply` gives, from the requests sent before, the output of a
-- request or its error, retries included.
pub mod Outcomes
pub mod Grouping
pub mod Groups
pub mod Turns
mod Samples
use kubendt.Prelude.{
  ℕ, zero, suc, String, Bool, true, false, Option, none, some, List, [], ◌∷◌, ◌++◌, ◌&&◌, not, map,
  is_empty, trim_space, join, length, ◌==◌, string_eq, if◌then◌else◌, Result, ok, err,
}
use kubendt.Commands.{Command, Executors, new_args_command, commands_from_legacy_for_executor}
use kubendt.Script.{BatchResult, shell_script, parse_shell_script, batch_err}
use kubendt.Plans.{
  ActionError, exec_failed, PlannedAction, ActionOutcome, ToolClass, default_executor_name, is_idle,
  place, untouched, finished, map_error,
}

-- One call of an executor.
pub record Request : Type 0 where
  pub executor : String
  pub command : Command

unfoldable pub concat_rows : List (List String) → List String
concat_rows [] = []
concat_rows (row ∷ rows) = row ++ concat_rows rows

module _ {E : Type 0} where
  -- Whether an action joins the batch of a guest executor, or the script of a container.
  unfoldable pub joins_batch : String → PlannedAction E → Bool
  joins_batch executor p = not (is_idle p) && p.executor == executor && not p.flags.get

  unfoldable pub joins_script : String → String → PlannedAction E → Bool
  joins_script executor container p = joins_batch executor p && p.container == container

  -- The actions that join, up to the first that does not, and the others.
  unfoldable pub span :
      (PlannedAction E → Bool)
      → List (PlannedAction E)
      → List (PlannedAction E) × List (PlannedAction E)
  span joins [] = ([], [])
  span joins (p ∷ plans) =
      let rest = span joins plans in if joins p then (p ∷ rest.0, rest.1) else ([], p ∷ plans)

  unfoldable pub batch_args : List (PlannedAction E) → List String
  batch_args [] = []
  batch_args (p ∷ plans) = concat_rows p.commands ++ batch_args plans

  unfoldable pub batch_request : String → List (PlannedAction E) → Request
  batch_request executor group = record {
    executor = executor;
    command = new_args_command (batch_args group);
  }

  unfoldable pub script_request : String → String → List (PlannedAction E) → Request
  script_request executor container group =
      let script =
        shell_script 0 (map (λ (p : PlannedAction E). (p.precondition, p.commands)) group) in
      let cmd : Command = new_args_command ("sh" ∷ "-c" ∷ script ∷ []) in
      record { executor = executor; command = record cmd { container = container } }

-- What one turn of the loop did: the first of its actions hit an error that aborts the run, or
-- its actions have their outcomes and the loop goes on with the others.
pub data Turn (E : Type 0) : Type 0 where
  aborted : E → List Request → Turn E
  went : List (ActionOutcome E) → List (PlannedAction E) → List Request → Turn E

-- What the commands of one action did.
pub data Commanded (E : Type 0) : Type 0 where
  commands_aborted : E → List Request → Commanded E
  commands_done : Option (ActionError E) → List String → List Request → Commanded E

-- The outcomes, the error that aborted the run, and every request that was sent.
pub record Report (E : Type 0) : Type 0 where
  pub outcomes : List (ActionOutcome E)
  pub stopped_by : Option E
  pub sent : List Request

-- The pod and the caller of a run: which executors batch, what executors take, what a request
-- answers after those sent before it, which errors abort, and MissingProgram.
pub record Runner (E : Type 0) : Type 0 where
  pub batchable : String → Bool
  pub executors : Executors
  pub reply : List Request → Request → Result E String
  pub abort : E → Bool
  pub missing_program : String → String

module _ {E : Type 0} (runner : Runner E) where
  -- The output that an action keeps: trimmed, where there is any.
  unfoldable pub keep_output : Bool → String → List String → List String
  keep_output get output outputs =
      let out = trim_space output in
      if get then if is_empty out then outputs else outputs ++ (out ∷ []) else outputs

  -- The loop over the commands of one action.
  unfoldable pub run_commands :
      Bool → String → String → List Command → List String → List Request → Commanded E
  run_commands get executor container [] outputs sent = commands_done none outputs sent
  run_commands get executor container (c ∷ commands) outputs sent =
      let request : Request = record {
        executor = executor;
        command = record c { container = container };
      } in
      let sent' = sent ++ (request ∷ []) in
      elim (runner.reply sent request) [
        | ok output ↦
            run_commands get executor container commands (keep_output get output outputs) sent'
        | err e ↦
            if runner.abort e
            then commands_aborted e sent'
            else commands_done (some (exec_failed e)) outputs sent'
      ]

  -- An action on its own.
  unfoldable pub run_alone : PlannedAction E → List (PlannedAction E) → List Request → Turn E
  run_alone p plans sent =
      elim (run_commands p.flags.get p.executor p.container
        (commands_from_legacy_for_executor runner.executors p.commands p.executor) [] sent) [
          | commands_aborted e sent' ↦ aborted e sent'
          | commands_done error outputs sent' ↦
              went (finished error (join "\n" outputs) ∷ []) plans sent'
        ]

  unfoldable pub of_result : BatchResult → ActionOutcome E
  of_result r = finished (map_error (batch_err runner.missing_program r)) r.output

  -- A group of actions as one request: `outcomes` are those of an output.
  unfoldable pub run_group :
      Request
      → (String → List (ActionOutcome E))
      → List (PlannedAction E)
      → List (PlannedAction E)
      → List Request
      → Turn E
  run_group request outcomes group plans sent =
      let sent' = sent ++ (request ∷ []) in
      elim (runner.reply sent request) [
        | ok output ↦ went (outcomes output) plans sent'
        | err e ↦
            if runner.abort e
            then aborted e sent'
            else went (map (λ p. finished (some (exec_failed e)) "") group) plans sent'
      ]

  -- One turn of the loop, at an action and those after it.
  unfoldable pub run_turn : PlannedAction E → List (PlannedAction E) → List Request → Turn E
  run_turn p plans sent =
      let batch = span (joins_batch p.executor) (p ∷ plans) in
      let script = span (joins_script p.executor p.container) (p ∷ plans) in
      if is_idle p
      then went (untouched p ∷ []) plans sent
      else if runner.batchable p.executor && not p.flags.get
      then run_group (batch_request p.executor batch.0)
          (λ output. map (λ q. finished none "") batch.0) batch.0 batch.1 sent
      else if p.executor == default_executor_name && not p.flags.get
      then run_group (script_request p.executor p.container script.0)
          (λ output. map of_result (parse_shell_script output (length script.0))) script.0 script.1
          sent
      else run_alone p plans sent

  unfoldable pub after : List (ActionOutcome E) → Option (Report E) → Option (Report E)
  after outcomes none = none
  after outcomes (some r) = some (record r { outcomes = outcomes ++ r.outcomes })

  -- outcomes[i].Err = execErr, and the actions behind it are left alone.
  unfoldable pub stop_at : E → PlannedAction E → List (PlannedAction E) → List Request → Report E
  stop_at e p plans sent = record {
    outcomes = record (untouched p) { error = some (exec_failed e) } ∷ map untouched plans;
    stopped_by = some e;
    sent = sent;
  }

  -- The loop, in as many turns as the fuel allows.
  unfoldable pub run_from : ℕ → List (PlannedAction E) → List Request → Option (Report E)
  run_from fuel [] sent = some (record { outcomes = []; stopped_by = none; sent = sent })
  run_from zero (p ∷ plans) sent = none
  run_from (suc fuel) (p ∷ plans) sent = elim (run_turn p plans sent) [
    | aborted e sent' ↦ some (stop_at e p plans sent')
    | went outcomes rest sent' ↦ after outcomes (run_from fuel rest sent')
  ]

  unfoldable pub run_planned_actions :
      (List String → ToolClass)
      → (ToolClass → Result E String)
      → List (PlannedAction E)
      → Option (Report E)
  run_planned_actions tool_class netns_container plans =
      run_from (length plans) (map (place tool_class netns_container) plans) []
