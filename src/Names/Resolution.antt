-- ===== src/Names/Resolution.antt =====
-- What a link's node reference resolves to: ResolvePodNameFromLink.
use kubendt.Prelude.{
  String, ◌≡◌, ◌≢◌, false, true, some, List, ℤ, pos, arith, Table, lookup, is_empty, codes,
  contains, eq_iff, ◌==◌, string_eq, nat_eq, int_eq, show_int, if◌then◌else◌, ◌||◌,
}
use kubendt.Types.{NodeSpec}
use kubendt.Names.{
  external_node_name, has_node, pod_name, resolve_pod_name_from_link,
  convert_to_node_name_if_single_replica,
}
use kubendt.Names.Pods.{match_indexed_pod-pod_name}

-- A reference resolves to replica 0 of the node that carries it as its whole name, whatever the
-- other nodes are called; the empty reference, "external" and every other text stay as they are, so
-- the search for an indexed name decides nothing.
pub resolve_pod_name_from_link_lem :
    (name : String) (nodes : List NodeSpec)
    → resolve_pod_name_from_link name nodes ≡ (
        if is_empty name || name == external_node_name
        then name
        else if has_node name nodes
        then pod_name name (pos 0)
        else name)
unfolding resolve_pod_name_from_link pod_name show_int
resolve_pod_name_from_link_lem name nodes = ground arith

-- The case of a listed node.
pub resolve-node :
    (name : String) (nodes : List NodeSpec)
    → is_empty name ≡ false
    → name ≢ external_node_name
    → has_node name nodes ≡ true
    → resolve_pod_name_from_link name nodes ≡ pod_name name (pos 0)
resolve-node name nodes e x n =
    ground (arith, resolve_pod_name_from_link_lem name nodes, eq_iff name external_node_name)

-- The pod that a single-replica node's own name resolves to is shown under that name again.
pub convert_to_node_name_if_single_replica-resolve :
    (name : String) (nodes : List NodeSpec) (replica_count : Table String ℤ)
    → is_empty name ≡ false
    → contains (codes name) 10 ≡ false
    → name ≢ external_node_name
    → has_node name nodes ≡ true
    → lookup name replica_count ≡ some (pos 1)
    → convert_to_node_name_if_single_replica (resolve_pod_name_from_link name nodes) replica_count
      ≡ name
unfolding convert_to_node_name_if_single_replica
convert_to_node_name_if_single_replica-resolve name nodes counts e l x n c =
    rw
      (
        resolve-node name nodes e x n,
        match_indexed_pod-pod_name name 0 e l,
        convert_to_node_name_if_single_replica,
      )
      (rw (c, convert_to_node_name_if_single_replica))
