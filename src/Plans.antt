-- ===== src/Plans.antt =====
-- The plans of a pod's actions: PlanActions and the placement of RunPlannedActions of
-- backend/helpers/action_pipeline.go, toolClassOfRows of backend/helpers/netns_tools.go and
-- ResolveActionFlags of backend/helpers/configurator.go.
use kubendt.Prelude.{
  String, Bool, true, false, Option, none, some, List, [], ◌∷◌, ◌||◌, not, map, is_empty, is_some,
  ◌==◌, string_eq, if◌then◌else◌, Result, ok, err,
}
use kubendt.Types.Actions.{ActionEntry, ActionFlags}
use kubendt.Script.{Precondition, BatchError, precondition_guard}

abbrev pub default_executor_name : String
default_executor_name = "kubectl"

-- The two options of an action over their defaults.
unfoldable pub or_default : Option Bool → Bool → Bool
or_default none d = d
or_default (some b) d = b

unfoldable pub resolve_action_flags : ActionEntry → ActionFlags
resolve_action_flags action = elim action.options [
  | none ↦ record { persist = true; get = false }
  | some options ↦ record {
    persist = or_default options.persist_history true;
    get = or_default options.capture_output false;
  }
]

-- E is the type of the errors of the code around the pipeline.
pub data ActionError (E : Type 0) : Type 0 where
  no_driver not_resolved not_registered no_toolbox exec_failed : E → ActionError E
  no_commands : String → ActionError E
  failed_in_batch : BatchError → ActionError E

pub record PlannedAction (E : Type 0) : Type 0 where
  pub action : ActionEntry
  pub flags : ActionFlags
  pub executor : String
  pub commands : List (List String)
  pub container : String
  pub precondition : Option Precondition
  pub skip : String
  pub error : Option (ActionError E)

pub record ActionOutcome (E : Type 0) : Type 0 where
  pub ran : Bool
  pub output : String
  pub error : Option (ActionError E)

-- What a registered action type says of itself.
pub record Descriptor : Type 0 where
  pub universal : Bool
  pub capability : String

-- What planning asks of the code around it: the action types, the commands that a driver makes,
-- the executors, and the preconditions of the driver's capabilities.
pub record Planner (E : Type 0) : Type 0 where
  pub find_action : String → Option Descriptor
  pub resolve_plan : ActionEntry → Result E (String × Option (List (List String)))
  pub get_executor : String → Option E
  pub capability_precondition : String → ActionEntry → Option Precondition

-- The tools of a pod's network that a command needs.
pub data ToolClass : Type 0 where
  no_tool netns_tool bridge_tool iptables_tool tayga_tool : ToolClass

unfoldable pub is_no_tool : ToolClass → Bool
is_no_tool no_tool = true
is_no_tool class = false

-- The class of the rows so far and of one more row; tayga ends the loop.
unfoldable pub rarer_tool : ToolClass → ToolClass → ToolClass
rarer_tool class no_tool = class
rarer_tool class iptables_tool = iptables_tool
rarer_tool class tayga_tool = tayga_tool
rarer_tool iptables_tool bridge_tool = iptables_tool
rarer_tool class bridge_tool = bridge_tool
rarer_tool no_tool netns_tool = netns_tool
rarer_tool class netns_tool = class

unfoldable pub tool_class_of_rows :
    (List String → ToolClass) → ToolClass → List (List String) → ToolClass
tool_class_of_rows tool_class class [] = class
tool_class_of_rows tool_class class (row ∷ rows) = elim (tool_class row) [
  | tayga_tool ↦ tayga_tool
  | found ↦ tool_class_of_rows tool_class (rarer_tool class found) rows
]

unfoldable pub map_error : {E : Type 0} → Option BatchError → Option (ActionError E)
map_error none = none
map_error (some e) = some (failed_in_batch e)

unfoldable pub is_universal : Option Descriptor → Bool
is_universal none = false
is_universal (some d) = d.universal

module _ {E : Type 0} where
  unfoldable pub find_precondition :
      Planner E → Option Descriptor → ActionEntry → Option Precondition
  find_precondition planner none a = none
  find_precondition planner (some d) a = planner.capability_precondition d.capability a

  -- The plan of an action whose commands are known, with the guard of its capability; outside the
  -- batch the guard is the first command.
  unfoldable pub guard_plan :
      Planner E → ActionEntry → String → List (List String) → PlannedAction E
  guard_plan planner a executor commands =
      let flags = resolve_action_flags a in
      let guard =
        if executor == default_executor_name
        then find_precondition planner (planner.find_action a.type) a
        else none in
      record {
        action = a;
        flags = flags;
        executor = executor;
        commands = elim guard [
          | none ↦ commands
          | some pc ↦
              if flags.get then ("sh" ∷ "-c" ∷ precondition_guard pc ∷ []) ∷ commands else commands
        ];
        container = "";
        precondition = guard;
        skip = "";
        error = none;
      }

  unfoldable pub failed_plan :
      ActionEntry → String → List (List String) → ActionError E → PlannedAction E
  failed_plan a executor commands e = record {
    action = a;
    flags = resolve_action_flags a;
    executor = executor;
    commands = commands;
    container = "";
    precondition = none;
    skip = "";
    error = some e;
  }

  unfoldable pub plan_commands : Planner E → ActionEntry → PlannedAction E
  plan_commands planner a = elim (planner.resolve_plan a) [
    | err e ↦ failed_plan a "" [] (not_resolved e)
    | ok (executor, none) ↦ failed_plan a executor [] (no_commands a.type)
    | ok (executor, some commands) ↦ elim (planner.get_executor executor) [
      | some e ↦ failed_plan a executor commands (not_registered e)
      | none ↦ guard_plan planner a executor commands
    ]
  ]

  unfoldable pub plan_action : Planner E → Option E → ActionEntry → PlannedAction E
  plan_action planner driver_error a = elim driver_error [
    | some e ↦
        if is_universal (planner.find_action a.type)
        then plan_commands planner a
        else failed_plan a "" [] (no_driver e)
    | none ↦ plan_commands planner a
  ]

  unfoldable pub plan_actions : Planner E → Option E → List ActionEntry → List (PlannedAction E)
  plan_actions planner driver_error acts = map (plan_action planner driver_error) acts

  -- An action that is reported and not run.
  unfoldable pub is_idle : PlannedAction E → Bool
  is_idle p = not (is_empty p.skip) || is_some p.error

  -- Where an action runs: in the pod, or in the container that has its tools. `tool_class` is
  -- toolClassOf and `netns_container` NetnsContainer.
  unfoldable pub place :
      (List String → ToolClass) → (ToolClass → Result E String) → PlannedAction E → PlannedAction E
  place tool_class netns_container p =
      let class = tool_class_of_rows tool_class no_tool p.commands in
      if is_idle p || not (p.executor == default_executor_name) || is_no_tool class
      then p
      else elim (netns_container class) [
        | err e ↦ record p { error = some (no_toolbox e) }
        | ok c ↦ record p { container = c }
      ]

  -- outcomes[i] before anything ran.
  unfoldable pub untouched : PlannedAction E → ActionOutcome E
  untouched p = record { ran = false; output = ""; error = p.error }

  unfoldable pub finished : Option (ActionError E) → String → ActionOutcome E
  finished error output = record { ran = true; output = output; error = error }
