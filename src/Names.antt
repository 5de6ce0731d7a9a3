-- ===== src/Names.antt =====
-- Node names, pod names and the references of links to them: the first half of
-- backend/helpers/network.go, and SplitIndexedPodName of backend/helpers/network_modify.go.
pub mod Pods
pub mod Resolution
mod Samples
use kubendt.Prelude.{
  String, Bool, true, false, Option, none, some, List, [], ◌∷◌, ◌&&◌, Table, ℤ, pos, lookup, codes,
  contains, is_empty, cut_last_dash, atoi, all_digit_chars, ◌==◌, string_eq, int_eq, nat_eq,
  if◌then◌else◌, append, show_int,
}
use kubendt.Types.{NodeSpec}

abbrev pub external_node_name : String
external_node_name = "external"

abbrev pub crd_external_peer_pod : String
crd_external_peer_pod = "localhost"

-- The API's "external" is Meshnet's "localhost" in a Topology object.
unfoldable pub to_crd_peer_pod : String → String
to_crd_peer_pod name = if name == external_node_name then crd_external_peer_pod else name

unfoldable pub from_crd_peer_pod : String → String
from_crd_peer_pod name = if name == crd_external_peer_pod then external_node_name else name

-- fmt.Sprintf("%s-%d", base, i), the pod of a replica.
unfoldable pub pod_name : String → ℤ → String
pod_name base i = append base (append "-" (show_int i))

-- The base and the index of "<base>-<number>": a dash neither first nor last, and a number behind it.
unfoldable pub split_indexed_pod_name : String → Option (String × ℤ)
split_indexed_pod_name name = elim (cut_last_dash name) [
  | none ↦ none
  | some (base, tail) ↦
      if is_empty base
      then none
      else if is_empty tail
      then none
      else elim (atoi tail) [ none ↦ none | some idx ↦ some (base, idx) ]
]

-- What ^(.+)-(\d+)$ matches, with its two groups: the tail has no dash, and no dot matches a newline.
unfoldable pub match_indexed_pod : String → Option (String × String)
match_indexed_pod name = elim (cut_last_dash name) [
  | none ↦ none
  | some (base, tail) ↦
      if is_empty base
      then none
      else if contains (codes base) 10
      then none
      else if is_empty tail
      then none
      else if all_digit_chars tail
      then some (base, tail)
      else none
]

unfoldable pub is_indexed_pod_name : String → Bool
unfolding match_indexed_pod
is_indexed_pod_name name = elim (match_indexed_pod name) [ none ↦ false | some _ ↦ true ]

-- Whether a node of that name is listed.
unfoldable pub has_node : String → List NodeSpec → Bool
has_node name [] = false
has_node name (n ∷ nodes) = let rest = has_node name nodes in if n.name == name then true else rest

-- A link's node reference, as the name of a pod; a node's own name comes first.
unfoldable pub resolve_pod_name_from_link : String → List NodeSpec → String
unfolding has_node is_indexed_pod_name split_indexed_pod_name
resolve_pod_name_from_link name nodes =
    if is_empty name
    then name
    else if name == external_node_name
    then name
    else if has_node name nodes
    then append name "-0"
    else if is_indexed_pod_name name
    then elim (split_indexed_pod_name name) [
      | none ↦ name
      | some (base, _) ↦ if has_node base nodes then name else name
    ]
    else name

-- "<base>-0" back to "<base>" where the node has one replica.
unfoldable pub convert_to_node_name_if_single_replica : String → Table String ℤ → String
convert_to_node_name_if_single_replica pod_name replica_count = elim (match_indexed_pod pod_name) [
  | none ↦ pod_name
  | some (base, _) ↦ elim (lookup base replica_count) [
    | none ↦ pod_name
    | some count ↦ if count == pos 1 then base else pod_name
  ]
]
