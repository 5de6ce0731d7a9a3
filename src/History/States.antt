-- ===== src/History/States.antt =====
-- The states that actions set or clear, by the declarations of backend/actions/registry.go, and the
-- history's rows on a state: stateOf, opAction, rowsOnState, clearedWith and rowsOnStates of
-- backend/helpers/driver_operation_history.go.
use kubendt.Prelude.{
  ℕ, String, Bool, true, false, Option, none, some, List, [], ◌&&◌, if◌then◌else◌, ◌==◌, ◌!=◌,
  string_eq, nat_eq, Table, lookup, contains, is_empty, select,
}
use kubendt.Types.Actions.{ActionEntry}

-- The part of a registered action that the history reads.
pub record Descriptor : Type 0 where
  pub state : String
  pub key : Option (ActionEntry → String)
  pub clears : Bool
  pub undo_persists : Bool
  pub clears_also : List String

unfoldable pub state_key : Descriptor → ActionEntry → String
state_key d a = elim d.key [ none ↦ "" | some f ↦ f a ]

abbrev pub Registry : Type 0
Registry = Table String Descriptor

pub record OperationState : Type 0 where
  pub state : String
  pub key : String
  pub clears : Bool
  pub undo_persists : Bool

unfoldable pub no_state : OperationState
no_state = record { state = ""; key = ""; clears = false; undo_persists = false }

pub record PersistedDriverOperation : Type 0 where
  pub id : ℕ
  pub namespace : String
  pub pod_name : String
  pub driver_type : String
  pub action_type : String
  pub action : ActionEntry
  pub executed_at : String

unfoldable pub state_of : Registry → ActionEntry → OperationState
state_of registry action = elim (lookup action.type registry) [
  | none ↦ no_state
  | some d ↦ if is_empty d.state then no_state else record {
    state = d.state;
    key = state_key d action;
    clears = d.clears;
    undo_persists = d.undo_persists;
  }
]

unfoldable pub op_action : PersistedDriverOperation → ActionEntry
op_action op =
    if is_empty op.action.type then record op.action { type = op.action_type } else op.action

abbrev pub on_state : Registry → String → String → PersistedDriverOperation → Bool
on_state registry state key op =
    let s = state_of registry (op_action op) in s.state == state && s.key == key

unfoldable pub rows_on_state :
    Registry → List PersistedDriverOperation → String → String → List PersistedDriverOperation
rows_on_state registry ops state key = select (on_state registry state key) ops

unfoldable pub cleared_with : Registry → ActionEntry → List String × Bool
cleared_with registry action = elim (lookup action.type registry) [
  | none ↦ ([], false)
  | some d ↦ (d.clears_also, elim d.key [ none ↦ false | some _ ↦ true ])
]

abbrev pub on_states : Registry → List String → String → Bool → PersistedDriverOperation → Bool
on_states registry states key keyed op =
    let s = state_of registry (op_action op) in
    if keyed && s.key != key then false else contains states s.state

unfoldable pub rows_on_states :
    Registry
    → List PersistedDriverOperation
    → List String
    → String
    → Bool
    → List PersistedDriverOperation
rows_on_states registry ops states key keyed = select (on_states registry states key keyed) ops
