-- ===== src/History/Samples.antt =====
-- The history at small inputs, with a codec that keeps an action's type alone.
use kubendt.History.Applied.{driver_operation_applied_since-save_driver_operation}
use kubendt.History.Undone.{driver_operation_applied_since-undone}
use kubendt.Prelude.{
  nat_eq, ℕ, ◌≡◌, refl, arith, String, some, none, [], ◌∷◌, List, ok, false, true, Option,
  string_eq,
}
use kubendt.Types.Actions.{ActionEntry, bare_action}
use kubendt.History.{
  Registry, Store, PersistedDriverOperation, state_of, op_action, list_driver_operations_for_pod,
  rows_on_state, save_driver_operation, driver_operation_applied_since, replace_row,
  insert_operation, decode_all, decode, delete_ids, delete_by_id, rows_on_states, cleared_with,
  state_key,
}
use kubendt.History.Save.{saved, save_driver_operation-rows_on_state}

abbrev registry : Registry
registry =
    (
      "up",
      record {
        state = "link";
        key = none;
        clears = false;
        undo_persists = false;
        clears_also = [];
      },
    )
    ∷ (
      "down",
      record { state = "link"; key = none; clears = true; undo_persists = true; clears_also = [] },
    )
    ∷ (
      "reset",
      record {
        state = "node";
        key = none;
        clears = true;
        undo_persists = false;
        clears_also = "link" ∷ [];
      },
    )
    ∷ []

abbrev type_of : ActionEntry → Option String
type_of a = some a.type

abbrev of_type : String → Option ActionEntry
of_type json = some (bare_action json)

abbrev empty : Store
empty = record { rows = []; next_id = 1 }

abbrev save : String → String → Store → Store
save type now store =
    (save_driver_operation registry type_of of_type (some "c") "lab" "r-0" "linux"
      (bare_action type) now store).1

abbrev after_up : Store
after_up = replace_row "c" "lab" "r-0" "linux" "up" "up" "t1" empty

saved_up : save "up" "t1" empty ≡ after_up
unfolding save_driver_operation insert_operation state_of list_driver_operations_for_pod decode_all
    delete_ids delete_by_id rows_on_state rows_on_states cleared_with replace_row
saved_up = refl

-- An undo that persists takes the place of what it undoes; one that does not leaves nothing.
undone : save "down" "t2" after_up ≡ record {
  rows =
      record {
        id = 2;
        cluster_id = "c";
        namespace = "lab";
        pod_name = "r-0";
        driver_type = "linux";
        action_type = "down";
        action_json = "down";
        executed_at = "t2";
      }
      ∷ [];
  next_id = 3;
}
unfolding save_driver_operation insert_operation state_of list_driver_operations_for_pod decode_all
    decode op_action delete_ids delete_by_id rows_on_state rows_on_states cleared_with replace_row
    state_key
undone = refl

reset : save "reset" "t2" after_up ≡ record { rows = []; next_id = 2 }
unfolding save_driver_operation insert_operation state_of list_driver_operations_for_pod decode_all
    decode op_action delete_ids delete_by_id rows_on_state rows_on_states cleared_with replace_row
    state_key
reset = refl

reads_back :
    (json : String)
    → type_of (bare_action "down") ≡ some json
    → of_type json ≡ some (bare_action "down")
reads_back json e = let same : json ≡ "down" = ground (arith, e) in rw same refl

save_driver_operation-rows_on_state_example :
    (ops' : List PersistedDriverOperation) × (list_driver_operations_for_pod of_type
        (save "down" "t2" after_up)
        (some "c")
        "lab"
        "r-0"
      ≡ ok ops')
    × (rows_on_state registry ops' "link" ""
        ≡ saved registry type_of of_type 2 "lab" "r-0" "linux" (bare_action "down") "t2" ∷ [])
unfolding state_of state_key save_driver_operation insert_operation list_driver_operations_for_pod
    decode_all decode op_action delete_ids delete_by_id rows_on_state rows_on_states cleared_with
    replace_row
save_driver_operation-rows_on_state_example =
    save_driver_operation-rows_on_state registry type_of of_type "c" "lab" "r-0" "linux"
      (bare_action "down") "t2" reads_back refl after_up (save "down" "t2" after_up) refl refl

reads_back_up :
    (json : String)
    → type_of (bare_action "up") ≡ some json
    → of_type json ≡ some (bare_action "up")
reads_back_up json e = let same : json ≡ "up" = ground (arith, e) in rw same refl

abbrev at_five : String → Option ℕ
at_five stamp = some 5

driver_operation_applied_since-save_driver_operation_example :
    driver_operation_applied_since registry type_of of_type at_five
      (some "c")
      "lab"
      "r-0"
      "linux"
      (bare_action "up")
      3
      (save "up" "t1" empty)
    ≡ ok true
unfolding state_of state_key save_driver_operation insert_operation list_driver_operations_for_pod
    decode_all
driver_operation_applied_since-save_driver_operation_example =
    driver_operation_applied_since-save_driver_operation registry type_of of_type at_five "c" "lab"
      "r-0" "linux" (bare_action "up") "t1" reads_back_up refl empty (save "up" "t1" empty) 5 3 refl
      refl refl (omega arith) refl

driver_operation_applied_since-undone_example :
    driver_operation_applied_since registry type_of of_type at_five
      (some "c")
      "lab"
      "r-0"
      "linux"
      (bare_action "up")
      3
      (save "down" "t2" after_up)
    ≡ ok false
unfolding state_of state_key save_driver_operation insert_operation list_driver_operations_for_pod
    decode_all decode op_action delete_ids delete_by_id rows_on_state rows_on_states cleared_with
    replace_row
driver_operation_applied_since-undone_example =
    driver_operation_applied_since-undone registry type_of of_type "c" "lab" "r-0" "linux"
      (bare_action "up") "up" refl reads_back_up refl at_five (bare_action "down") "linux" "t2"
      after_up (save "down" "t2" after_up) 3 reads_back refl refl refl refl refl refl
