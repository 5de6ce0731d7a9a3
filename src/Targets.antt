-- ===== src/Targets.antt =====
-- The targets of a configure request and the pods that they name: backend/helpers/pod_reference.go
-- and backend/helpers/configure_targets.go. The cluster's pods are a parameter: `get` says whether a
-- pod of that name is found, and `list` gives the names of the pods of an app, or fails.
pub mod Merge
pub mod Reference
mod Samples
use kubendt.Prelude.{
  ℕ, zero, suc, String, Bool, true, false, Option, none, some, List, [], ◌∷◌, ◌++◌, Table, lookup,
  put, contains, length, is_empty, ltb, ◌==◌, string_eq, if◌then◌else◌, Result, ok, err, map,
}
use kubendt.Types.Actions.{ActionEntry}
use kubendt.Types.Configure.{PodConfig}
use kubendt.Names.{split_indexed_pod_name}

pub data ReferenceError (E : Type 0) : Type 0 where
  empty_reference : ReferenceError E
  no_such_pod ambiguous : String → ReferenceError E
  list_failed : String → E → ReferenceError E

-- The pod when the app has exactly one.
unfoldable pub single_pod : {E : Type 0} → String → List String → Result (ReferenceError E) String
single_pod ref [] = err (no_such_pod ref)
single_pod ref (name ∷ []) = ok name
single_pod ref (name ∷ other ∷ names) = err (ambiguous ref)

unfoldable pub resolve_pod_reference :
    {E : Type 0}
    → (String → Bool)
    → (String → Result E (List String))
    → String
    → Result (ReferenceError E) String
resolve_pod_reference get list ref =
    if is_empty ref
    then err empty_reference
    else if get ref
    then ok ref
    else elim (split_indexed_pod_name ref) [
      | some _ ↦ err (no_such_pod ref)
      | none ↦ elim (list ref) [ err e ↦ err (list_failed ref e) | ok names ↦ single_pod ref names ]
    ]

-- A pod of a listing, with its label app, "" where it has none.
pub record Pod : Type 0 where
  pub name : String
  pub app : String

-- m[k], nil on a missing key
unfoldable pub names_at : String → Table String (List String) → List String
names_at k table = elim (lookup k table) [ none ↦ [] | some names ↦ names ]

-- byNode, the loop over the listing
unfoldable pub by_node : Table String (List String) → List Pod → Table String (List String)
by_node table [] = table
by_node table (p ∷ pods) =
    by_node
      (if is_empty p.app then table else put p.app (names_at p.app table ++ (p.name ∷ [])) table)
      pods

-- The only name, or the reference as written.
unfoldable pub only : String → List String → String
only ref [] = ref
only ref (name ∷ []) = name
only ref (name ∷ other ∷ names) = ref

unfoldable pub pod_resolver : List Pod → String → String
pod_resolver pods ref =
    if contains (map (λ (p : Pod). p.name) pods) ref
    then ref
    else elim (split_indexed_pod_name ref) [
      | some _ ↦ ref
      | none ↦ only ref (names_at ref (by_node [] pods))
    ]

-- out[i].Actions = append(out[i].Actions, actions...), i within out
unfoldable pub append_at : ℕ → List ActionEntry → List PodConfig → List PodConfig
append_at i actions [] = []
append_at zero actions (t ∷ out) = record t { actions = t.actions ++ actions } ∷ out
append_at (suc i) actions (t ∷ out) = t ∷ append_at i actions out

-- The loop over the targets, with the merged targets and the index of each resolved name.
unfoldable pub merge_from :
    (String → String) → List PodConfig → Table String ℕ → List PodConfig → List PodConfig
merge_from resolve out index [] = out
merge_from resolve out index (t ∷ targets) = elim (lookup (resolve t.pod) index) [
  | some i ↦ merge_from resolve (append_at i t.actions out) index targets
  | none ↦ merge_from resolve (out ++ (t ∷ [])) (put (resolve t.pod) (length out) index) targets
]

unfoldable pub merge_targets : (String → String) → List PodConfig → List PodConfig
merge_targets resolve targets = merge_from resolve [] [] targets

-- A listing that failed leaves every reference as written.
unfoldable pub merge_targets_by_pod :
    {E : Type 0} → Result E (List Pod) → List PodConfig → List PodConfig
merge_targets_by_pod pods targets = if ltb (length targets) 2 then targets else elim pods [
  | err e ↦ merge_targets (λ ref. ref) targets
  | ok pods ↦ merge_targets (pod_resolver pods) targets
]
