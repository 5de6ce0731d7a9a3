-- ===== src/Locks.antt =====
-- Operations in progress and the topology flag of namespaces: backend/helpers/namespace_state.go.
-- The tables namespace_operations and namespace_state have the cluster and the namespace for their
-- key. `cluster` is the id of the current cluster, none when it cannot be read; the statements
-- themselves fail only on a key that is taken already.
pub mod Exclusion
mod Deleted
mod Samples
use kubendt.Prelude.{
  ℕ, String, Bool, true, false, Option, none, some, is_some, List, [], ◌∷◌, if◌then◌else◌, not,
  ◌==◌, ◌&&◌, pair_eq, string_eq, Table, lookup, put, select, length, is_empty, Result, ok, err,
}

pub record NamespaceOperationLock : Type 0 where
  pub namespace : String
  pub operation_type : String
  pub started_at : String

pub record State : Type 0 where
  pub operations : Table (String × String) NamespaceOperationLock
  pub has_topology : Table (String × String) Bool

pub data LockError : Type 0 where
  no_cluster : LockError

unfoldable pub ensure_namespace_state_row : String → String → State → State
ensure_namespace_state_row cluster namespace state =
    if is_some (lookup (cluster, namespace) state.has_topology)
    then state
    else record state { has_topology = put (cluster, namespace) false state.has_topology }

unfoldable pub namespace_has_topology :
    Option String → String → State → Result LockError Bool × State
namespace_has_topology none namespace state = (err no_cluster, state)
namespace_has_topology (some cluster) namespace state =
    let state' = ensure_namespace_state_row cluster namespace state in
    (
      ok (elim (lookup (cluster, namespace) state'.has_topology) [ none ↦ false | some b ↦ b ]),
      state',
    )

unfoldable pub set_namespace_has_topology :
    Option String → String → Bool → State → Result LockError Unit × State
set_namespace_has_topology none namespace value state = (err no_cluster, state)
set_namespace_has_topology (some cluster) namespace value state =
    let state' = ensure_namespace_state_row cluster namespace state in
    (ok tt, record state' { has_topology = put (cluster, namespace) value state'.has_topology })

-- The lock that is held at the end, and whether the caller is the one that took it. The insert that
-- fails and the read of the lock that is in its way are one step here, so that the errors for a lock
-- that has gone or cannot be read in between do not occur.
unfoldable pub acquire_namespace_operation_lock :
    Option String
    → String
    → String
    → String
    → State
    → Result LockError (NamespaceOperationLock × Bool) × State
acquire_namespace_operation_lock none namespace operation now state = (err no_cluster, state)
acquire_namespace_operation_lock (some cluster) namespace operation now state =
    elim (lookup (cluster, namespace) state.operations) [
      | some current ↦ (ok (current, false), state)
      | none ↦
          let lock : NamespaceOperationLock = record {
            namespace = namespace;
            operation_type = if is_empty operation then "unknown" else operation;
            started_at = now;
          } in
          (
            ok (lock, true),
            record state { operations = put (cluster, namespace) lock state.operations },
          )
    ]

unfoldable pub release_namespace_operation_lock :
    Option String → String → State → Result LockError Unit × State
release_namespace_operation_lock none namespace state = (err no_cluster, state)
release_namespace_operation_lock (some cluster) namespace state = (
  ok tt,
  record state {
    operations = select (λ entry. not (entry.0 == (cluster, namespace))) state.operations;
  },
)

unfoldable pub clear_all_namespace_operation_locks : State → ℕ × State
clear_all_namespace_operation_locks state =
    (length state.operations, record state { operations = [] })

unfoldable pub get_namespace_operation_lock :
    Option String → String → State → Result LockError (Option NamespaceOperationLock)
get_namespace_operation_lock none namespace state = err no_cluster
get_namespace_operation_lock (some cluster) namespace state =
    ok (lookup (cluster, namespace) state.operations)
