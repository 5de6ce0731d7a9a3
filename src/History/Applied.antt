-- ===== src/History/Applied.antt =====
-- An operation that was just saved counts as applied.
use kubendt.Prelude.{
  ℕ, ◌≤◌, ltb, String, ◌≡◌, refl, ◌∙◌, Bool, true, false, inl, inr, List, [], ◌∷◌, ◌++◌, not,
  nat_eq, string_eq, Option, some, Option-cases, select, select-append, ok, Result-cases, arith,
  ◌&&◌, is_empty, beq_refl,
}
use kubendt.Types.Actions.{ActionEntry}
use kubendt.History.{
  Registry, Row, Store, PersistedDriverOperation, state_of, rows_on_state, rows_on_states,
  cleared_with, list_driver_operations_for_pod, same_operation, replace_row, insert_operation,
  save_driver_operation, superseded_after, applied_times, some_stands,
  driver_operation_applied_since, delete_ids, ids, of_pod, decode_all,
}
use kubendt.History.Save.{Codec, Blind, saved, save_driver_operation-rows_on_state}

select-not : (p : Row → Bool) (rows : List Row) → select p (select (λ r. not (p r)) rows) ≡ []
select-not p [] = refl
select-not p (r ∷ rows) = ground (arith, select-not p rows)

module _ (registry : Registry) (marshal : ActionEntry → Option String)
    (unmarshal : String → Option ActionEntry) (parse : String → Option ℕ)
    (cluster namespace pod driver : String) (action : ActionEntry) (now : String) where
  -- The one row of the operation once it is inserted.
  insert_operation-select :
      (store after : Store)
      → insert_operation marshal (some cluster) namespace pod driver action now store
        ≡ (ok tt, after)
      → (json : String) × (row : Row) × (marshal action ≡ some json)
        × (row.executed_at ≡ now)
        × (select (same_operation cluster namespace pod driver action.type json) after.rows
            ≡ row ∷ [])
  unfolding insert_operation replace_row
  insert_operation-select store after e = elim (Option-cases (marshal action)) [
    | inl unmade ↦ absurd (ground (arith, e, unmade))
    | inr (json, made) ↦
        let same = same_operation cluster namespace pod driver action.type json in
        let row : Row = record {
          id = store.next_id;
          cluster_id = cluster;
          namespace = namespace;
          pod_name = pod;
          driver_type = driver;
          action_type = action.type;
          action_json = json;
          executed_at = now;
        } in
        let rows : after.rows ≡ select (λ r. not (same r)) store.rows ++ (row ∷ []) =
          ground (arith, e, made) in
        let own : same row ≡ true =
          rw
            (
              beq_refl cluster,
              beq_refl namespace,
              beq_refl pod,
              beq_refl driver,
              beq_refl action.type,
              beq_refl json,
            )
            refl in
        (
          json,
          row,
          made,
          refl,
          rw rows (
              select-append same (select (λ r. not (same r)) store.rows) (row ∷ [])
              ∙ rw (select-not same store.rows, own) refl),
        )
  ]

  save_driver_operation-insert :
      (store after : Store)
      → is_empty (state_of registry action).state ≡ false
      → ((state_of registry action).clears && not (state_of registry action).undo_persists) ≡ false
      → save_driver_operation registry marshal unmarshal
          (some cluster)
          namespace
          pod
          driver
          action
          now
          store
        ≡ (ok tt, after)
      → (cleared : Store) × (insert_operation marshal
            (some cluster)
            namespace
            pod
            driver
            action
            now
            cleared
          ≡ (ok tt, after))
  unfolding save_driver_operation list_driver_operations_for_pod
  save_driver_operation-insert store after has_state keep e =
      elim (Result-cases
        (decode_all unmarshal (select (of_pod cluster namespace pod) store.rows))) [
          | inl (bad, h) ↦ absurd (ground (arith, e, has_state, h))
          | inr (ops, h) ↦
              let s = state_of registry action in
              let (states, keyed) = cleared_with registry action in
              (
                delete_ids
                    (ids (
                      rows_on_state registry ops s.state s.key
                      ++ rows_on_states registry ops states s.key keyed))
                    store,
                ground (arith, rw (has_state, h) at e, keep),
              )
        ]

  -- The operation's own row does not supersede it.
  superseded_after_self :
      (op : PersistedDriverOperation) (payload : String) (t : ℕ)
      → parse op.executed_at ≡ some t
      → superseded_after registry marshal parse (op ∷ []) payload t ≡ false
  unfolding superseded_after
  superseded_after_self op payload t p = ground (arith, p)

  -- An operation whose one row stands alone on its state.
  applied_alone :
      (after : Store) (json : String) (row : Row) (ops : List PersistedDriverOperation)
      (op : PersistedDriverOperation) (t since : ℕ)
      → is_empty (state_of registry action).state ≡ false
      → marshal action ≡ some json
      → parse row.executed_at ≡ some t
      → parse op.executed_at ≡ some t
      → since ≤ t
      → select (same_operation cluster namespace pod driver action.type json) after.rows ≡ row ∷ []
      → list_driver_operations_for_pod unmarshal after (some cluster) namespace pod ≡ ok ops
      → rows_on_state registry ops (state_of registry action).state (state_of registry action).key
        ≡ op ∷ []
      → driver_operation_applied_since registry marshal unmarshal parse
          (some cluster)
          namespace
          pod
          driver
          action
          since
          after
        ≡ ok true
  unfolding driver_operation_applied_since applied_times some_stands
  applied_alone after json row ops op t since has_state made at_row at_op le rows listed one =
      let live : ltb t since ≡ false = ground (arith, le) in
      ground (
        arith,
        made,
        rows,
        at_row,
        live,
        has_state,
        listed,
        one,
        superseded_after_self op json t at_op,
      )

  -- An operation with a state that is saved, not as an undo that needs no replay, counts as applied
  -- since every time up to the one it was saved at, whatever the history held before; its JSON text
  -- loses only the content of its file, on which its state does not depend, and the save came
  -- through and its timestamp reads back.
  pub driver_operation_applied_since-save_driver_operation :
      (codec : Codec registry marshal unmarshal action)
      (blind : Blind registry marshal unmarshal action) (store after : Store) (t since : ℕ)
      → is_empty (state_of registry action).state ≡ false
      → ((state_of registry action).clears && not (state_of registry action).undo_persists) ≡ false
      → parse now ≡ some t
      → since ≤ t
      → save_driver_operation registry marshal unmarshal
          (some cluster)
          namespace
          pod
          driver
          action
          now
          store
        ≡ (ok tt, after)
      → driver_operation_applied_since registry marshal unmarshal parse
          (some cluster)
          namespace
          pod
          driver
          action
          since
          after
        ≡ ok true
  driver_operation_applied_since-save_driver_operation codec blind store after t since has_state
        keep p le e =
      let (cleared, inserted) = save_driver_operation-insert store after has_state keep e in
      let (json, row, made, stamped, rows) = insert_operation-select cleared after inserted in
      let (ops, listed, one) =
        save_driver_operation-rows_on_state registry marshal unmarshal cluster namespace pod driver
          action now codec blind store after has_state e in
      let alone = one ∙ rw keep refl in
      applied_alone after json row ops
        (saved registry marshal unmarshal store.next_id namespace pod driver action now) t since
        has_state made (rw stamped p) p le rows listed alone
