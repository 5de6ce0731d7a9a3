-- ===== src/Locks/Deleted.antt =====
-- The state of a namespace in the tables of the database: SyncNamespaceTopologyState and
-- DeleteNamespaceState of backend/helpers/namespace_state.go, and
-- DeleteNamespaceDriverOperationHistory of backend/helpers/driver_operation_history.go. What the
-- cluster lists is an argument, none when the listing fails.
use kubendt.Prelude.{
  String, ◌≡◌, refl, ap, Bool, true, false, Option, none, some, List, [], ◌∷◌, not, ◌==◌, ◌&&◌,
  ◌||◌, lookup-put_self, pair_eq, string_eq, Table, lookup, select, Result, ok, err, arith,
  Bool-cases, inl, inr, Eq,
}
use kubendt.Locks.{
  State, NamespaceOperationLock, LockError, no_cluster, set_namespace_has_topology,
  namespace_has_topology, ensure_namespace_state_row, acquire_namespace_operation_lock,
  release_namespace_operation_lock, get_namespace_operation_lock,
}
use kubendt.Locks.Exclusion.{Wins, free-Wins}
use kubendt.History.{Row, Store, HistoryError, no_cluster as no_history_cluster}
use kubendt.LinkUid.Registry.{Registry, SyncError, delete_namespace_link_uid_registry}
use kubendt.LinkUid.Registry.Inserted.{rows_at, rows_at-clear_namespace, rows_at-clear_others}

pub data StateError : Type 0 where
  nodes_unlisted : StateError
  topologies_unlisted : StateError
  of_state : LockError → StateError
  of_registry : SyncError → StateError
  of_history : HistoryError → StateError

-- if err := ...; err != nil { return false, err } before the value is returned
abbrev report : Bool → Result LockError Unit × State → Result StateError Bool × State
report value (ok u, state) = (ok value, state)
report value (err e, state) = (err (of_state e), state)

unfoldable pub sync_namespace_topology_state :
    Option (List String)
    → Option (List String)
    → Option String
    → String
    → State
    → Result StateError Bool × State
sync_namespace_topology_state none topologies cluster namespace state = (err nodes_unlisted, state)
sync_namespace_topology_state (some (node ∷ nodes)) topologies cluster namespace state =
    report true (set_namespace_has_topology cluster namespace true state)
sync_namespace_topology_state (some []) none cluster namespace state =
    (err topologies_unlisted, state)
sync_namespace_topology_state (some []) (some []) cluster namespace state =
    report false (set_namespace_has_topology cluster namespace false state)
sync_namespace_topology_state (some []) (some (t ∷ ts)) cluster namespace state =
    report true (set_namespace_has_topology cluster namespace true state)

abbrev row_of_namespace : String → String → Row → Bool
row_of_namespace cluster namespace row = row.cluster_id == cluster && row.namespace == namespace

unfoldable pub delete_namespace_driver_operation_history :
    Option String → String → Store → Result HistoryError Unit × Store
delete_namespace_driver_operation_history none namespace store = (err no_history_cluster, store)
delete_namespace_driver_operation_history (some cluster) namespace store = (
  ok tt,
  record store { rows = select (λ row. not (row_of_namespace cluster namespace row)) store.rows },
)

-- The tables that hold state of a namespace.
pub record Tables : Type 0 where
  pub state : State
  pub registry : Registry
  pub history : Store

module _ {K V : Type 0} ⦃e : Eq K⦄ where
  -- DELETE FROM ... WHERE the key is `key`
  abbrev pub without : K → Table K V → Table K V
  without key table = select (λ entry. not (entry.0 == key)) table

  lookup-without_self : (key : K) (table : Table K V) → lookup key (without key table) ≡ none
  lookup-without_self key [] = refl
  lookup-without_self key ((i, v) ∷ table) = elim (Bool-cases (i == key)) [
    | inl h ↦ rw h (lookup-without_self key table)
    | inr h ↦ rw (h, h) (lookup-without_self key table)
  ]

  lookup-without :
      (key j : K) (table : Table K V)
      → (key == j) ≡ false
      → lookup j (without key table) ≡ lookup j table
  lookup-without key j [] ne = refl
  lookup-without key j ((i, v) ∷ table) ne =
      ground (arith, ne, lookup-without key j table, e.beq_iff i key, e.beq_iff i j)

unfoldable pub delete_namespace_state :
    Option String → String → Tables → Result StateError Unit × Tables
delete_namespace_state none namespace tables = (err (of_state no_cluster), tables)
delete_namespace_state (some cluster) namespace tables =
    let state : State = record {
      has_topology = without (cluster, namespace) tables.state.has_topology;
      operations = without (cluster, namespace) tables.state.operations;
    } in
    let (r, registry) =
      delete_namespace_link_uid_registry (some cluster) namespace tables.registry in
    let (q, history) =
      delete_namespace_driver_operation_history (some cluster) namespace tables.history in
    elim r [
      | err e ↦ (err (of_registry e), record tables { state = state; registry = registry })
      | ok u ↦ elim q [
        | err e ↦
            (err (of_history e), record { state = state; registry = registry; history = history })
        | ok v ↦ (ok tt, record { state = state; registry = registry; history = history })
      ]
    ]

select-not : (p : Row → Bool) (rows : List Row) → select p (select (λ row. not (p row)) rows) ≡ []
select-not p [] = refl
select-not p (row ∷ rows) = ground (arith, select-not p rows)

set_namespace_has_topology-read :
    (cluster namespace : String) (value : Bool) (state : State)
    → let after = set_namespace_has_topology (some cluster) namespace value state in
      (after.0 ≡ ok tt) × ((namespace_has_topology (some cluster) namespace after.1).0 ≡ ok value)
unfolding set_namespace_has_topology namespace_has_topology ensure_namespace_state_row
set_namespace_has_topology-read cluster namespace value state =
    let key : String × String = (cluster, namespace) in
    let rows = (ensure_namespace_state_row cluster namespace state).has_topology in
    (refl, rw (lookup-put_self key value rows) (ap ok (rw (lookup-put_self key value rows) refl)))

abbrev is_listed : List String → Bool
is_listed [] = false
is_listed (x ∷ xs) = true

-- A sync records that a namespace has a topology exactly if a node or a Topology object is left.
sync_namespace_topology_state-recorded :
    (nodes topologies : List String) (cluster namespace : String) (state : State)
    → let synced =
        sync_namespace_topology_state
          (some nodes)
          (some topologies)
          (some cluster)
          namespace
          state in
      (synced.0 ≡ ok (is_listed nodes || is_listed topologies))
      × ((namespace_has_topology (some cluster) namespace synced.1).0
          ≡ ok (is_listed nodes || is_listed topologies))
unfolding sync_namespace_topology_state set_namespace_has_topology
sync_namespace_topology_state-recorded (n ∷ ns) topologies cluster namespace state =
    (refl, (set_namespace_has_topology-read cluster namespace true state).1)
sync_namespace_topology_state-recorded [] [] cluster namespace state =
    (refl, (set_namespace_has_topology-read cluster namespace false state).1)
sync_namespace_topology_state-recorded [] (t ∷ ts) cluster namespace state =
    (refl, (set_namespace_has_topology-read cluster namespace true state).1)

-- A deletion comes through and leaves nothing of the namespace in any of the tables.
delete_namespace_state_own :
    (cluster namespace : String) (tables : Tables)
    → let deleted = delete_namespace_state (some cluster) namespace tables in
      (deleted.0 ≡ ok tt)
      × (lookup (cluster, namespace) deleted.1.state.operations ≡ none)
      × (lookup (cluster, namespace) deleted.1.state.has_topology ≡ none)
      × (rows_at cluster namespace deleted.1.registry ≡ [])
      × (select (row_of_namespace cluster namespace) deleted.1.history.rows ≡ [])
unfolding delete_namespace_state delete_namespace_link_uid_registry
    delete_namespace_driver_operation_history
delete_namespace_state_own cluster namespace tables = (
  refl,
  lookup-without_self (cluster, namespace) tables.state.operations,
  lookup-without_self (cluster, namespace) tables.state.has_topology,
  rows_at-clear_namespace cluster namespace tables.registry,
  select-not (row_of_namespace cluster namespace) tables.history.rows,
)

select_others :
    (p q : Row → Bool) (rows : List Row)
    → ((row : Row) → p row ≡ true → q row ≡ false)
    → select q (select (λ row. not (p row)) rows) ≡ select q rows
select_others p q [] h = refl
select_others p q (row ∷ rows) h = ground (arith, h row, select_others p q rows h)

-- Every other namespace, of this cluster or another, keeps what the tables hold of it.
delete_namespace_state_others :
    (cluster namespace other other_namespace : String) (tables : Tables)
    → (cluster == other && namespace == other_namespace) ≡ false
    → let deleted = (delete_namespace_state (some cluster) namespace tables).1 in
      let key : String × String = (other, other_namespace) in
      (lookup key deleted.state.operations ≡ lookup key tables.state.operations)
      × (lookup key deleted.state.has_topology ≡ lookup key tables.state.has_topology)
      × (rows_at other other_namespace deleted.registry
          ≡ rows_at other other_namespace tables.registry)
      × (select (row_of_namespace other other_namespace) deleted.history.rows
          ≡ select (row_of_namespace other other_namespace) tables.history.rows)
unfolding delete_namespace_state delete_namespace_link_uid_registry
    delete_namespace_driver_operation_history
delete_namespace_state_others cluster namespace other other_namespace tables ne = (
  lookup-without (cluster, namespace) (other, other_namespace) tables.state.operations ne,
  lookup-without (cluster, namespace) (other, other_namespace) tables.state.has_topology ne,
  rows_at-clear_others other other_namespace cluster namespace tables.registry ne,
  select_others (row_of_namespace cluster namespace) (row_of_namespace other other_namespace)
      tables.history.rows
      (λ row h. ground (
        arith,
        ne,
        h,
        string_eq.beq_iff row.cluster_id cluster,
        string_eq.beq_iff row.namespace namespace,
      )),
)

-- The deletion of a namespace's state frees a lock that a handler holds: until then another
-- operation is refused, afterwards it wins the lock at once, and the release by the first holder
-- takes the lock of the second from it.
pub delete_namespace_state-unlocked :
    (cluster namespace operation now : String) (tables : Tables) (held : NamespaceOperationLock)
    → get_namespace_operation_lock (some cluster) namespace tables.state ≡ ok (some held)
    → let deleted = (delete_namespace_state (some cluster) namespace tables).1.state in
      let taken =
        (acquire_namespace_operation_lock (some cluster) namespace operation now deleted).1 in
      let released = (release_namespace_operation_lock (some cluster) namespace taken).1 in
      (acquire_namespace_operation_lock (some cluster) namespace operation now tables.state
        ≡ (ok (held, false), tables.state))
      × Wins cluster namespace operation now deleted
      × (get_namespace_operation_lock (some cluster) namespace released ≡ ok none)
unfolding delete_namespace_state get_namespace_operation_lock acquire_namespace_operation_lock
    release_namespace_operation_lock
delete_namespace_state-unlocked cluster namespace operation now tables held h =
    let deleted = delete_namespace_state_own cluster namespace tables in
    let found : lookup (cluster, namespace) tables.state.operations ≡ some held =
      ground (arith, h) in
    let key : String × String = (cluster, namespace) in
    (
      rw (acquire_namespace_operation_lock, found) refl,
      free-Wins cluster namespace operation now _ deleted.1,
      ap ok (lookup-without_self key _),
    )
