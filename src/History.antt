-- ===== src/History.antt =====
-- The history of driver operations: backend/helpers/driver_operation_history.go, over the part of
-- backend/actions/registry.go that says which state an action sets or clears. The table
-- driver_operation_history is a list of rows in the order of their ids, which the database hands
-- out in ascending order. The clock, the timestamps' format and the JSON codec are Go's, so they are
-- arguments; `cluster` is the id of the current cluster, none when it cannot be read. The queries
-- themselves do not fail.
mod States
unfoldable pub use States.*
pub mod Rows
pub mod Save
pub mod Applied
pub mod Undone
pub mod Purge
mod Samples
use kubendt.Prelude.{
  ℕ, suc, ◌<◌, ltb, String, Bool, true, false, Option, none, some, List, [], ◌∷◌, ◌++◌, map, not,
  ◌&&◌, ◌||◌, if◌then◌else◌, ◌==◌, ◌!=◌, string_eq, nat_eq, Table, lookup, contains, is_empty,
  select, length, Result, ok, err, ◌>>=◌,
}
use kubendt.Types.Actions.{ActionEntry, ActionFlags}

-- A row of the table, whose action is text.
pub record Row : Type 0 where
  pub id : ℕ
  pub cluster_id : String
  pub namespace : String
  pub pod_name : String
  pub driver_type : String
  pub action_type : String
  pub action_json : String
  pub executed_at : String

pub record Store : Type 0 where
  pub rows : List Row
  pub next_id : ℕ

pub data HistoryError : Type 0 where
  no_cluster : HistoryError
  not_serializable : HistoryError
  not_deserializable : ℕ → HistoryError

abbrev pub of_pod : String → String → String → Row → Bool
of_pod cluster namespace pod row =
    row.cluster_id == cluster && row.namespace == namespace && row.pod_name == pod

unfoldable pub decode :
    (String → Option ActionEntry) → Row → Result HistoryError PersistedDriverOperation
decode unmarshal row = elim (unmarshal row.action_json) [
  | none ↦ err (not_deserializable row.id)
  | some action ↦ ok (record {
    id = row.id;
    namespace = row.namespace;
    pod_name = row.pod_name;
    driver_type = row.driver_type;
    action_type = row.action_type;
    action = action;
    executed_at = row.executed_at;
  })
]

unfoldable pub decode_all :
    (String → Option ActionEntry) → List Row → Result HistoryError (List PersistedDriverOperation)
decode_all unmarshal [] = ok []
decode_all unmarshal (row ∷ rows) = do
  op ← decode unmarshal row
  ops ← decode_all unmarshal rows
  ok (op ∷ ops)

unfoldable pub list_driver_operations_for_pod :
    (String → Option ActionEntry)
    → Store
    → Option String
    → String
    → String
    → Result HistoryError (List PersistedDriverOperation)
list_driver_operations_for_pod unmarshal store none namespace pod = err no_cluster
list_driver_operations_for_pod unmarshal store (some cluster) namespace pod =
    decode_all unmarshal (select (of_pod cluster namespace pod) store.rows)

abbrev pub ids : List PersistedDriverOperation → List ℕ
ids [] = []
ids (op ∷ ops) = op.id ∷ ids ops

-- DeleteDriverOperationHistoryByID, and whether it found a row.
unfoldable pub delete_by_id : ℕ → Store → Store
delete_by_id id store = record store { rows = select (λ row. not (row.id == id)) store.rows }

-- The loop of deletions, which ignores the rows that are gone already.
unfoldable pub delete_ids : List ℕ → Store → Store
delete_ids [] store = store
delete_ids (id ∷ rest) store = delete_ids rest (delete_by_id id store)

abbrev pub same_operation : String → String → String → String → String → String → Row → Bool
same_operation cluster namespace pod driver type json row =
    of_pod cluster namespace pod row
    && (row.driver_type == driver && (row.action_type == type && row.action_json == json))

-- The last two statements of SaveDriverOperation: the row's earlier copies go, and it is added.
unfoldable pub replace_row :
    String → String → String → String → String → String → String → Store → Store
replace_row cluster namespace pod driver type json now store = record {
  rows =
      select (λ row. not (same_operation cluster namespace pod driver type json row)) store.rows
      ++ (record {
        id = store.next_id;
        cluster_id = cluster;
        namespace = namespace;
        pod_name = pod;
        driver_type = driver;
        action_type = type;
        action_json = json;
        executed_at = now;
      }
          ∷ []);
  next_id = suc store.next_id;
}

-- From the point where the rows of the same state are gone.
unfoldable pub insert_operation :
    (ActionEntry → Option String)
    → Option String
    → String
    → String
    → String
    → ActionEntry
    → String
    → Store
    → Result HistoryError Unit × Store
insert_operation marshal none namespace pod driver action now store = (err no_cluster, store)
insert_operation marshal (some cluster) namespace pod driver action now store =
    elim (marshal action) [
      | none ↦ (err not_serializable, store)
      | some json ↦ (ok tt, replace_row cluster namespace pod driver action.type json now store)
    ]

-- The store as it is left is returned on every path, errors included.
unfoldable pub save_driver_operation :
    Registry
    → (ActionEntry → Option String)
    → (String → Option ActionEntry)
    → Option String
    → String
    → String
    → String
    → ActionEntry
    → String
    → Store
    → Result HistoryError Unit × Store
save_driver_operation registry marshal unmarshal cluster namespace pod driver action now store =
    let s = state_of registry action in
    if is_empty s.state
    then insert_operation marshal cluster namespace pod driver action now store
    else elim (list_driver_operations_for_pod unmarshal store cluster namespace pod) [
      | err e ↦ (err e, store)
      | ok ops ↦
          let (states, keyed) = cleared_with registry action in
          let store' =
            delete_ids
              (ids (
                rows_on_state registry ops s.state s.key
                ++ rows_on_states registry ops states s.key keyed))
              store in
          if s.clears && not s.undo_persists
          then (ok tt, store')
          else insert_operation marshal cluster namespace pod driver action now store'
    ]

-- Whether a row on the same state with another payload ran after `applied_at`.
unfoldable pub superseded_after :
    Registry
    → (ActionEntry → Option String)
    → (String → Option ℕ)
    → List PersistedDriverOperation
    → String
    → ℕ
    → Bool
superseded_after registry marshal parse [] payload applied_at = false
superseded_after registry marshal parse (op ∷ ops) payload applied_at =
    let rest = superseded_after registry marshal parse ops payload applied_at in
    elim (marshal (op_action op)) [
      | none ↦ rest
      | some raw ↦ if raw == payload then rest else elim (parse op.executed_at) [
        | none ↦ rest
        | some at ↦ if ltb applied_at at then true else rest
      ]
    ]

-- The times at which an operation stands in the rows, at or after `since`; the zero time for one
-- that does not parse.
unfoldable pub applied_times : (String → Option ℕ) → ℕ → List Row → List ℕ
applied_times parse since [] = []
applied_times parse since (row ∷ rows) =
    let rest = applied_times parse since rows in
    elim (parse row.executed_at) [
      | none ↦ 0 ∷ rest
      | some t ↦ if ltb t since then rest else t ∷ rest
    ]

unfoldable pub some_stands :
    Registry
    → (ActionEntry → Option String)
    → (String → Option ℕ)
    → List PersistedDriverOperation
    → String
    → List ℕ
    → Bool
some_stands registry marshal parse ops payload [] = false
some_stands registry marshal parse ops payload (t ∷ times) =
    not (superseded_after registry marshal parse ops payload t)
    || some_stands registry marshal parse ops payload times

unfoldable pub driver_operation_applied_since :
    Registry
    → (ActionEntry → Option String)
    → (String → Option ActionEntry)
    → (String → Option ℕ)
    → Option String
    → String
    → String
    → String
    → ActionEntry
    → ℕ
    → Store
    → Result HistoryError Bool
driver_operation_applied_since registry marshal unmarshal parse none namespace pod driver action
      since store =
    err no_cluster
driver_operation_applied_since registry marshal unmarshal parse (some cluster) namespace pod driver
      action since store =
    elim (marshal action) [
      | none ↦ err not_serializable
      | some json ↦
          let times =
            applied_times parse since
              (select (same_operation cluster namespace pod driver action.type json) store.rows) in
          let s = state_of registry action in
          elim times [
            | [] ↦ ok false
            | t ∷ more ↦
                if is_empty s.state
                then ok true
                else (list_driver_operations_for_pod unmarshal store (some cluster) namespace pod
                    >>= λ ops. ok (
                        some_stands registry marshal parse
                          (rows_on_state registry ops s.state s.key) json (t ∷ more)))
          ]
    ]

abbrev pub stale : (String → Option ℕ) → String → String → ℕ → Row → Bool
stale parse cluster namespace t row =
    row.cluster_id == cluster
    && (row.namespace == namespace
        && elim (parse row.executed_at) [ none ↦ false | some at ↦ ltb at t ])

abbrev pub row_ids : List Row → List ℕ
row_ids [] = []
row_ids (row ∷ rows) = row.id ∷ row_ids rows

unfoldable pub purge_driver_operations_before :
    (String → Option ℕ) → Option String → String → ℕ → Store → Result HistoryError ℕ × Store
purge_driver_operations_before parse none namespace t store = (err no_cluster, store)
purge_driver_operations_before parse (some cluster) namespace t store =
    let gone = row_ids (select (stale parse cluster namespace t) store.rows) in
    (ok (length gone), delete_ids gone store)

unfoldable pub touch_driver_operation : ℕ → String → Store → Store
touch_driver_operation id now store = record store {
  rows = map (λ row. if row.id == id then record row { executed_at = now } else row) store.rows;
}

unfoldable pub delete_for_pod :
    Option String → String → String → Store → Result HistoryError Unit × Store
delete_for_pod none namespace pod store = (err no_cluster, store)
delete_for_pod (some cluster) namespace pod store = (
  ok tt,
  record store { rows = select (λ row. not (of_pod cluster namespace pod row)) store.rows },
)
