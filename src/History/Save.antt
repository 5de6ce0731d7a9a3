-- ===== src/History/Save.antt =====
-- After an operation is saved the history holds the last word on its state.
use kubendt.Prelude.{
  ℕ, String, ◌≡◌, refl, ◌∙◌, ap, Bool, true, false, Bool-cases, inl, inr, List, [], ◌∷◌, ◌++◌, not,
  ◌==◌, nat_eq, string_eq, if◌then◌else◌, Option, some, Option-cases, select, select-append, All,
  All-select, ok, Result-cases, arith, ◌&&◌, is_empty, beq_refl,
}
use kubendt.Types.Actions.{ActionEntry}
use kubendt.History.{
  Registry, Row, Store, PersistedDriverOperation, state_of, op_action, on_state, rows_on_state,
  rows_on_states, cleared_with, of_pod, decode, decode_all, list_driver_operations_for_pod, ids,
  delete_ids, same_operation, replace_row, insert_operation, save_driver_operation,
}
use kubendt.History.Rows.{
  kept, delete_ids-select, delete_ids_next, decode_all-select, decode_all-append, Off, Off-select,
  kept-Off, select_commute, contains-ids,
}

module _ (registry : Registry) (marshal : ActionEntry → Option String)
    (unmarshal : String → Option ActionEntry) where
  -- The action's JSON text reads back as the action, but for the content of its file, which it does
  -- not carry.
  abbrev pub Codec : ActionEntry → Type 0
  Codec action =
      (json : String)
      → marshal action ≡ some json
      → unmarshal json ≡ some (record action { file_content = "" })

  -- The state of the action does not depend on the content of its file.
  abbrev pub Blind : ActionEntry → Type 0
  Blind action = state_of registry (record action { file_content = "" }) ≡ state_of registry action

  -- The operation that a saved row decodes to.
  abbrev pub saved : ℕ → String → String → String → ActionEntry → String → PersistedDriverOperation
  saved id namespace pod driver action now = record {
    id = id;
    namespace = namespace;
    pod_name = pod;
    driver_type = driver;
    action_type = action.type;
    action = record action { file_content = "" };
    executed_at = now;
  }

  pub saved_state :
      (id : ℕ) (namespace pod driver : String) (action : ActionEntry) (now : String)
      → Blind action
      → state_of registry (op_action (saved id namespace pod driver action now))
        ≡ state_of registry action
  unfolding op_action
  saved_state id namespace pod driver action now blind = elim (Bool-cases (is_empty action.type)) [
    | inl e ↦ rw e blind
    | inr e ↦ rw e blind
  ]

  of_pod_new :
      (cluster namespace pod : String)
      → (cluster == cluster && namespace == namespace && pod == pod) ≡ true
  of_pod_new cluster namespace pod = rw (beq_refl cluster, beq_refl namespace, beq_refl pod) refl

  module _ (cluster namespace pod driver : String) (action : ActionEntry) (now : String)
      (codec : Codec action) (blind : Blind action) where
    abbrev pub new_row : ℕ → String → Row
    new_row id json = record {
      id = id;
      cluster_id = cluster;
      namespace = namespace;
      pod_name = pod;
      driver_type = driver;
      action_type = action.type;
      action_json = json;
      executed_at = now;
    }

    abbrev other : String → Row → Bool
    other json row = not (same_operation cluster namespace pod driver action.type json row)

    decode_new :
        (id : ℕ) (json : String)
        → marshal action ≡ some json
        → decode_all unmarshal (new_row id json ∷ [])
          ≡ ok (saved id namespace pod driver action now ∷ [])
    unfolding decode_all decode
    decode_new id json m = ground (arith, codec json m)

    pod_rows :
        (json : String) (store : Store)
        → select
            (of_pod cluster namespace pod)
            (replace_row cluster namespace pod driver action.type json now store).rows
          ≡ select (other json) (select (of_pod cluster namespace pod) store.rows)
            ++ (new_row store.next_id json ∷ [])
    unfolding replace_row
    pod_rows json store =
        select-append (of_pod cluster namespace pod) (select (other json) store.rows)
          (new_row store.next_id json ∷ [])
        ∙ rw (of_pod_new cluster namespace pod) (
            ap (λ rows. rows ++ (new_row store.next_id json ∷ []))
              (select_commute (of_pod cluster namespace pod) (other json) store.rows))

    -- The last two statements of a save, over rows of the pod that are off the state.
    insert_operation_lem :
        (store after : Store) (ops : List PersistedDriverOperation)
        → (on : PersistedDriverOperation → Bool)
        → decode_all unmarshal (select (of_pod cluster namespace pod) store.rows) ≡ ok ops
        → All (Off unmarshal on) (select (of_pod cluster namespace pod) store.rows)
        → on (saved store.next_id namespace pod driver action now) ≡ true
        → insert_operation marshal (some cluster) namespace pod driver action now store
          ≡ (ok tt, after)
        → (ops' : List PersistedDriverOperation) × (list_driver_operations_for_pod unmarshal after
              (some cluster)
              namespace
              pod
            ≡ ok ops')
          × (select on ops' ≡ saved store.next_id namespace pod driver action now ∷ [])
    unfolding insert_operation list_driver_operations_for_pod
    insert_operation_lem store after ops on h off new e = elim (Option-cases (marshal action)) [
      | inl none_made ↦ absurd (ground (arith, e, none_made))
      | inr (json, made) ↦
          let same : after ≡ replace_row cluster namespace pod driver action.type json now store =
            ground (arith, e, made) in
          let rows = select (of_pod cluster namespace pod) store.rows in
          let (others, d) = decode_all-select unmarshal (other json) rows ops h in
          (
            others ++ (saved store.next_id namespace pod driver action now ∷ []),
            rw (same, pod_rows json store)
                (decode_all-append unmarshal (select (other json) rows) _ others _ d
                  (decode_new store.next_id json made)),
            select-append on others _
                ∙ rw
                    (
                      Off-select unmarshal on (select (other json) rows) others
                          (All-select (Off unmarshal on) (other json) rows off) d,
                      new,
                    )
                    refl,
          )
    ]

    -- A save over a pod's decodable rows that comes through leaves decodable rows; on the state and
    -- key of the saved action these hold nothing if the action undoes its state and undoing needs no
    -- replay, and else the saved action alone, under a new id and stamped now. The action has a
    -- state, and the JSON text loses only the content of its file, on which its state does not
    -- depend.
    pub save_driver_operation-rows_on_state :
        (store after : Store)
        → is_empty (state_of registry action).state ≡ false
        → save_driver_operation registry marshal unmarshal
            (some cluster)
            namespace
            pod
            driver
            action
            now
            store
          ≡ (ok tt, after)
        → (ops' : List PersistedDriverOperation) × (list_driver_operations_for_pod unmarshal after
              (some cluster)
              namespace
              pod
            ≡ ok ops')
          × (rows_on_state registry ops'
                (state_of registry action).state
                (state_of registry action).key
              ≡ (if (state_of registry action).clears
                    && not (state_of registry action).undo_persists
                  then []
                  else saved store.next_id namespace pod driver action now ∷ []))
    unfolding save_driver_operation list_driver_operations_for_pod rows_on_state
    save_driver_operation-rows_on_state store after has_state e =
        let s = state_of registry action in
        let on = on_state registry s.state s.key in
        let rows = select (of_pod cluster namespace pod) store.rows in
        elim (Result-cases (decode_all unmarshal rows)) [
          | inl (bad, h) ↦ absurd (ground (arith, e, has_state, h))
          | inr (ops, h) ↦
              let (states, keyed) = cleared_with registry action in
              let gone = ids (select on ops ++ rows_on_states registry ops states s.key keyed) in
              let cleared = delete_ids gone store in
              let pod_left : select (of_pod cluster namespace pod) cleared.rows
                  ≡ select (kept gone) rows =
                rw (delete_ids-select gone store)
                  (select_commute (of_pod cluster namespace pod) (kept gone) store.rows) in
              let off = kept-Off unmarshal on gone rows ops h (contains-ids (select on ops) _) in
              let (left, d) = decode_all-select unmarshal (kept gone) rows ops h in
              elim (Bool-cases (s.clears && not s.undo_persists)) [
                | inl undo ↦
                    let same : after ≡ cleared = ground (arith, rw (has_state, h) at e, undo) in
                    (
                      left,
                      rw (same, pod_left) d,
                      rw undo (Off-select unmarshal on (select (kept gone) rows) left off d),
                    )
                | inr keep ↦
                    let inserted : insert_operation marshal (some cluster) namespace pod driver
                          action now cleared
                        ≡ (ok tt, after) =
                      ground (arith, rw (has_state, h) at e, keep) in
                    let new : on (saved cleared.next_id namespace pod driver action now) ≡ true =
                      rw (saved_state cleared.next_id namespace pod driver action now blind)
                        (rw (beq_refl s.state, beq_refl s.key) refl) in
                    let shape : (saved cleared.next_id namespace pod driver action now ∷ []) ≡ (
                        if s.clears && not s.undo_persists
                        then []
                        else saved store.next_id namespace pod driver action now ∷ []) =
                      rw keep (
                        ap (λ id. saved id namespace pod driver action now ∷ [])
                          (delete_ids_next gone store)) in
                    let (ops', listed, one) =
                      insert_operation_lem cleared after left on (rw pod_left d) (rw pod_left off)
                        new inserted in
                    (ops', listed, one ∙ shape)
              ]
        ]
