-- ===== src/History/Undone.antt =====
-- An operation that was undone no longer counts as applied.
use kubendt.Prelude.{
  ℕ, String, ◌≡◌, refl, sym, ◌∙◌, ok_injective, ap, Bool, true, false, Bool-cases, inl, inr, List,
  [], ◌∷◌, ◌==◌, nat_eq, string_eq, if◌then◌else◌, Option, some, select, All, ok, arith, is_empty,
  beq_refl,
}
use kubendt.Types.Actions.{ActionEntry}
use kubendt.History.{
  Registry, Row, Store, PersistedDriverOperation, state_of, on_state, rows_on_state,
  list_driver_operations_for_pod, same_operation, save_driver_operation, applied_times,
  driver_operation_applied_since, of_pod, decode, decode_all,
}
use kubendt.History.Rows.{decode_all_cons}
use kubendt.History.Save.{Codec, Blind, saved, saved_state, save_driver_operation-rows_on_state}

module _ (registry : Registry) (marshal : ActionEntry → Option String)
    (unmarshal : String → Option ActionEntry) (cluster namespace pod driver : String)
    (action : ActionEntry) (json : String) (made : marshal action ≡ some json)
    (codec : Codec registry marshal unmarshal action)
    (blind : Blind registry marshal unmarshal action) where
  abbrev on : PersistedDriverOperation → Bool
  on = on_state registry (state_of registry action).state (state_of registry action).key

  abbrev same : Row → Bool
  same = same_operation cluster namespace pod driver action.type json

  abbrev decoded_as : String → Row → PersistedDriverOperation
  decoded_as ty row = record {
    id = row.id;
    namespace = row.namespace;
    pod_name = row.pod_name;
    driver_type = row.driver_type;
    action_type = ty;
    action = record action { file_content = "" };
    executed_at = row.executed_at;
  }

  -- A row of the operation decodes to an operation on its state.
  same_decodes :
      (row : Row) (op : PersistedDriverOperation)
      → same row ≡ true
      → decode unmarshal row ≡ ok op
      → (on op ≡ true) × (op.action_type ≡ action.type)
  unfolding decode
  same_decodes row op s d =
      let text : row.action_json ≡ json =
        ground (arith, s, string_eq.beq_iff row.action_json json) in
      let type : row.action_type ≡ action.type =
        ground (arith, s, string_eq.beq_iff row.action_type action.type) in
      let read : unmarshal row.action_json ≡ some (record action { file_content = "" }) =
        rw text (codec json made) in
      let decoded : ok (decoded_as row.action_type row) ≡ ok op = rw (read, decode) at d in
      let is_saved : op
          ≡ saved registry marshal unmarshal row.id row.namespace row.pod_name row.driver_type
              action row.executed_at =
        sym (ok_injective _ op decoded) ∙ ap (λ ty. decoded_as ty row) type in
      let state =
        saved_state registry marshal unmarshal row.id row.namespace row.pod_name row.driver_type
          action row.executed_at blind in
      (
        rw is_saved (
            rw state (
              rw
                (beq_refl (state_of registry action).state, beq_refl (state_of registry action).key)
                refl)),
        rw is_saved refl,
      )

  tail_of :
      (op : PersistedDriverOperation) (rest : List PersistedDriverOperation)
      → All (λ o. (o.action_type == action.type) ≡ false) (select on (op ∷ rest))
      → All (λ o. (o.action_type == action.type) ≡ false) (select on rest)
  tail_of op rest a = elim (Bool-cases (on op)) [
    | inl hit ↦
        (let (_, more) : ((op.action_type == action.type) ≡ false)
              × All (λ o. (o.action_type == action.type) ≡ false) (select on rest) =
            rw hit at a in
          more)
    | inr miss ↦ rw miss at a
  ]

  no_same :
      (rows : List Row) (ops : List PersistedDriverOperation)
      → decode_all unmarshal rows ≡ ok ops
      → All (λ op. (op.action_type == action.type) ≡ false) (select on ops)
      → select same rows ≡ []
  no_same [] ops h a = refl
  no_same (row ∷ rows) ops h a =
      let (op, rest, d, h', shape) = decode_all_cons unmarshal row rows ops h in
      let all : All (λ o. (o.action_type == action.type) ≡ false) (select on (op ∷ rest)) =
        rw shape at a in
      elim (Bool-cases (same row)) [
        | inl s ↦
            let (hit, type) = same_decodes row op s d in
            let (differs, _) : ((op.action_type == action.type) ≡ false)
                × All (λ o. (o.action_type == action.type) ≡ false) (select on rest) =
              rw hit at all in
            absurd (ground (arith, differs, type, string_eq.beq_iff op.action_type action.type))
        | inr s ↦ rw s (no_same rows rest h' (tail_of op rest all))
      ]

  same-of_pod :
      (rows : List Row)
      → select same rows ≡ select same (select (of_pod cluster namespace pod) rows)
  same-of_pod [] = refl
  same-of_pod (row ∷ rows) = ground (arith, same-of_pod rows)

  others_only :
      (b : Bool) (ops : List PersistedDriverOperation) (op : PersistedDriverOperation)
      → select on ops ≡ (if b then [] else op ∷ [])
      → (op.action_type == action.type) ≡ false
      → All (λ o. (o.action_type == action.type) ≡ false) (select on ops)
  others_only true ops op h differ = rw h tt
  others_only false ops op h differ = rw h (differ, tt)

  -- Once another type of action on the same state and key is saved, whether it is kept or not, the
  -- operation does not count as applied, since whatever time; the JSON text of both loses only the
  -- content of a file, on which their state does not depend, and the state has a name.
  pub driver_operation_applied_since-undone :
      (parse : String → Option ℕ) (undo : ActionEntry) (undo_driver now : String)
      (store after : Store) (since : ℕ)
      → Codec registry marshal unmarshal undo
      → Blind registry marshal unmarshal undo
      → is_empty (state_of registry undo).state ≡ false
      → (state_of registry undo).state ≡ (state_of registry action).state
      → (state_of registry undo).key ≡ (state_of registry action).key
      → (undo.type == action.type) ≡ false
      → save_driver_operation registry marshal unmarshal
          (some cluster)
          namespace
          pod
          undo_driver
          undo
          now
          store
        ≡ (ok tt, after)
      → driver_operation_applied_since registry marshal unmarshal parse
          (some cluster)
          namespace
          pod
          driver
          action
          since
          after
        ≡ ok false
  unfolding driver_operation_applied_since applied_times list_driver_operations_for_pod
      rows_on_state
  driver_operation_applied_since-undone parse undo undo_driver now store after since undo_codec
        undo_blind has_state states keys differ e =
      let (ops, listed, left) =
        save_driver_operation-rows_on_state registry marshal unmarshal cluster namespace pod
          undo_driver undo now undo_codec undo_blind store after has_state e in
      let on_left = rw (states, keys) at left in
      let others : All (λ op. (op.action_type == action.type) ≡ false) (select on ops) =
        others_only _ ops _ on_left differ in
      let none_same =
        same-of_pod after.rows
        ∙ no_same (select (of_pod cluster namespace pod) after.rows) ops listed others in
      ground (arith, made, none_same)
