-- ===== src/Locks/Samples.antt =====
-- The locks at small inputs.
use kubendt.Prelude.{ℕ, ◌≤◌, ◌≡◌, ◌⊎◌, refl, some, none, [], ◌∷◌, ok, false, pair_eq, string_eq}
use kubendt.Locks.{
  State, NamespaceOperationLock, acquire_namespace_operation_lock, release_namespace_operation_lock,
  get_namespace_operation_lock, clear_all_namespace_operation_locks,
}
use kubendt.Locks.Exclusion.{Run, started, stepped, won, Run-exclusive, Wins, Run-available}
use kubendt.Locks.Deleted.{Tables, delete_namespace_state, delete_namespace_state-unlocked}

abbrev clean : State
clean = record { operations = []; has_topology = [] }

abbrev deploying : NamespaceOperationLock
deploying = record { namespace = "lab"; operation_type = "deploy"; started_at = "t" }

abbrev busy : State
busy = record { operations = (("c", "lab"), deploying) ∷ []; has_topology = [] }

abbrev one_holder : Run "c" "lab" busy 1
unfolding clear_all_namespace_operation_locks acquire_namespace_operation_lock
one_holder =
    stepped clean busy 0 1 (started busy clean refl)
      (won "c" "lab" "deploy" "t" deploying refl refl)

Run-exclusive_example :
    (1 ≤ 1)
    × (get_namespace_operation_lock (some "c") "lab" busy ≡ ok none → ◌≡◌ {A = ℕ} 1 0)
    × ((l : NamespaceOperationLock)
        → get_namespace_operation_lock (some "c") "lab" busy ≡ ok (some l)
        → ◌≡◌ {A = ℕ} 1 1)
Run-exclusive_example = Run-exclusive "c" "lab" busy 1 one_holder

Run-available_example :
    let freed = (release_namespace_operation_lock (some "c") "lab" busy).1 in
    (◌≡◌ {A = ℕ} 1 0 × Wins "c" "lab" "modify" "u" busy)
    ⊎ (◌≡◌ {A = ℕ} 1 1 × Run "c" "lab" freed 0 × Wins "c" "lab" "modify" "u" freed)
Run-available_example = Run-available "c" "lab" "modify" "u" busy 1 one_holder

abbrev busy_tables : Tables
busy_tables = record { state = busy; registry = []; history = record { rows = []; next_id = 1 } }

held : get_namespace_operation_lock (some "c") "lab" busy ≡ ok (some deploying)
unfolding get_namespace_operation_lock
held = refl

delete_namespace_state-unlocked_example :
    let deleted = (delete_namespace_state (some "c") "lab" busy_tables).1.state in
    let taken = (acquire_namespace_operation_lock (some "c") "lab" "clear" "u" deleted).1 in
    let released = (release_namespace_operation_lock (some "c") "lab" taken).1 in
    (acquire_namespace_operation_lock (some "c") "lab" "clear" "u" busy
      ≡ (ok (deploying, false), busy))
    × Wins "c" "lab" "clear" "u" deleted
    × (get_namespace_operation_lock (some "c") "lab" released ≡ ok none)
delete_namespace_state-unlocked_example =
    delete_namespace_state-unlocked "c" "lab" "clear" "u" busy_tables deploying held
