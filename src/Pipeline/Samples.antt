-- ===== src/Pipeline/Samples.antt =====
-- Runs of planned actions at small inputs.
use kubendt.Prelude.{
  String, true, false, none, some, List, [], ◌∷◌, ◌≡◌, refl, map, Result, ok, err,
}
use kubendt.Types.Actions.{bare_action}
use kubendt.Plans.{
  PlannedAction, ToolClass, no_tool, Planner, plan_actions, plan_action, plan_commands, guard_plan,
  find_precondition, resolve_action_flags, place, tool_class_of_rows, rarer_tool, is_no_tool,
  is_idle,
}
use kubendt.Pipeline.{
  Runner, joins_batch, joins_script, batch_request, script_request, run_planned_actions,
}
use kubendt.Pipeline.Outcomes.{Returns, run_planned_actions-Returns}
use kubendt.Pipeline.Grouping.{
  sent_by, run_planned_actions_one_batch, run_planned_actions_one_script,
}

-- Every action makes one command of its type, for one executor.
abbrev planner : String → Planner String
planner executor = record {
  find_action = λ type. none;
  resolve_plan = λ a. ok (executor, some ((a.type ∷ "1" ∷ []) ∷ []));
  get_executor = λ name. none;
  capability_precondition = λ capability a. none;
}

-- A guest that batches, and one that does not and fails with an error that aborts.
abbrev guest : Runner String
guest = record {
  batchable = λ name. true;
  executors = [];
  reply = λ sent request. ok "";
  abort = λ e. false;
  missing_program = λ out. "";
}

abbrev gone : Runner String
gone = record guest {
  batchable = λ name. false;
  reply = λ sent request. err "gone";
  abort = λ e. true;
}

abbrev two_plans : String → List (PlannedAction String)
two_plans executor =
    plan_actions (planner executor) none (bare_action "set" ∷ bare_action "delete" ∷ [])

abbrev no_class : List String → ToolClass
no_class row = no_tool

abbrev no_container : ToolClass → Result String String
no_container class = ok ""

run_planned_actions-Returns_example :
    Returns gone
      (map (place no_class no_container) (two_plans "vyos"))
      (run_planned_actions gone no_class no_container (two_plans "vyos"))
run_planned_actions-Returns_example =
    run_planned_actions-Returns gone no_class no_container (two_plans "vyos")

abbrev planned : String → String → PlannedAction String
planned executor type = plan_action (planner executor) none (bare_action type)

abbrev placed_at : String → String → PlannedAction String
placed_at executor type = place no_class no_container (planned executor type)

two_in_one_batch :
    sent_by guest (
      run_planned_actions guest no_class no_container
        (planned "vyos" "set" ∷ planned "vyos" "delete" ∷ []))
    ≡ batch_request
        (placed_at "vyos" "set").executor
        (placed_at "vyos" "set" ∷ placed_at "vyos" "delete" ∷ [])
      ∷ []
unfolding plan_action plan_commands guard_plan place tool_class_of_rows is_no_tool is_idle
    joins_batch resolve_action_flags rarer_tool
two_in_one_batch =
    run_planned_actions_one_batch guest no_class no_container (planned "vyos" "set")
      (planned "vyos" "delete" ∷ []) refl (refl, (refl, tt))

run_planned_actions_one_script_example :
    sent_by gone (
      run_planned_actions gone no_class no_container
        (planned "kubectl" "set" ∷ planned "kubectl" "delete" ∷ []))
    ≡ script_request
        (placed_at "kubectl" "set").executor
        (placed_at "kubectl" "set").container
        (placed_at "kubectl" "set" ∷ placed_at "kubectl" "delete" ∷ [])
      ∷ []
unfolding plan_action plan_commands guard_plan place tool_class_of_rows is_no_tool is_idle
    joins_batch joins_script resolve_action_flags rarer_tool find_precondition
run_planned_actions_one_script_example =
    run_planned_actions_one_script gone no_class no_container (planned "kubectl" "set")
      (planned "kubectl" "delete" ∷ []) refl refl (refl, (refl, tt))
