-- ===== src/Topologies/Upserts.antt =====
-- upsertAppendLinksInTopologies of backend/helpers/network_modify.go: the entries of links are
-- appended to the objects of their pods, and objects that do not exist are created. A link without
-- a uid draws one, so that the numbers drawn are an argument: what is drawn when `n` links are left.
use kubendt.Prelude.{
  ℕ, String, Bool, true, false, Option, none, some, List, [], ◌∷◌, ◌++◌, if◌then◌else◌, not, ◌==◌,
  ◌||◌, ◌&&◌, string_eq, ℤ, Table, lookup, put, contains, is_empty, append, length,
}
use kubendt.Types.{NodeSpec, LinkSpec}
use kubendt.Names.{external_node_name, resolve_pod_name_from_link}
use kubendt.Topologies.{Entry, Objects, add_entry, local_entry, peer_entry}

unfoldable pub topology_link_key : Entry → String
topology_link_key e = append e.local_intf (
    append "|" (
      append e.local_ip
        (append "|" (append e.peer_pod (append "|" (append e.peer_intf (append "|" e.peer_ip)))))))

-- The entries and the labels that a request adds to its pods.
pub record Additions : Type 0 where
  pub pod_links : Objects
  pub peer_label_by_pod : Table String String

unfoldable pub uid_of : (ℕ → ℤ) → ℕ → LinkSpec → ℤ
uid_of draw n link = elim link.uid [ some u ↦ u | none ↦ draw n ]

-- resolvedNode != "external"
unfoldable pub add_node_side : String → String → ℤ → LinkSpec → Additions → Additions
add_node_side node peer uid link m =
    let labels =
      not (is_empty link.peer_label)
      && (link.peer_node == external_node_name || link.node == external_node_name) in
    if node == external_node_name then m else record {
      pod_links = add_entry node (record (local_entry peer link) { uid = some uid }) m.pod_links;
      peer_label_by_pod =
          if labels then put node link.peer_label m.peer_label_by_pod else m.peer_label_by_pod;
    }

-- resolvedPeer != "external"
unfoldable pub add_peer_side : String → String → ℤ → LinkSpec → Additions → Additions
add_peer_side node peer uid link m =
    let labels = not (is_empty link.peer_label) && link.node == external_node_name in
    if peer == external_node_name then m else record {
      pod_links = add_entry peer (record (peer_entry node link) { uid = some uid }) m.pod_links;
      peer_label_by_pod =
          if labels then put peer link.peer_label m.peer_label_by_pod else m.peer_label_by_pod;
    }

unfoldable pub collect_links : (ℕ → ℤ) → List NodeSpec → List LinkSpec → Additions → Additions
collect_links draw nodes [] m = m
collect_links draw nodes (link ∷ links) m =
    let node = resolve_pod_name_from_link link.node nodes in
    let peer = resolve_pod_name_from_link link.peer_node nodes in
    let uid = uid_of draw (length links) link in
    collect_links draw nodes links
      (add_peer_side node peer uid link (add_node_side node peer uid link m))

abbrev pub full_keys : List Entry → List String
full_keys [] = []
full_keys (e ∷ es) = topology_link_key e ∷ full_keys es

-- The entries with those appended whose keys are new, and whether there were any.
unfoldable pub append_new : List Entry → List Entry → List Entry × Bool
append_new existing [] = (existing, false)
append_new existing (e ∷ added) =
    let is_known = contains (full_keys existing) (topology_link_key e) in
    let rest = append_new (if is_known then existing else existing ++ (e ∷ [])) added in
    (rest.0, not is_known || rest.1)

-- The objects of a namespace and their label annotations.
pub record Stored : Type 0 where
  pub objects : Objects
  pub peer_labels : Table String String

unfoldable pub annotate : String → Option String → Table String String → Table String String
annotate pod none annotations = annotations
annotate pod (some label) annotations =
    if is_empty label then annotations else put pod label annotations

unfoldable pub write_links : String → List Entry → Option String → Stored → Stored
write_links pod entries label s = record {
  objects = put pod entries s.objects;
  peer_labels = annotate pod label s.peer_labels;
}

-- One pod: whether its object was written, and the objects.
unfoldable pub upsert_pod : String → List Entry → Option String → Stored → Bool × Stored
upsert_pod pod added label s = elim (lookup pod s.objects) [
  | none ↦ (true, write_links pod added label s)
  | some existing ↦
      let merged = append_new existing added in
      if merged.1 then (true, write_links pod merged.0 label s) else (false, s)
]

unfoldable pub upsert_pods : Table String String → Objects → Stored → List String × Stored
upsert_pods labels [] s = ([], s)
upsert_pods labels ((pod, added) ∷ per_pod) s =
    let written = upsert_pod pod added (lookup pod labels) s in
    let rest = upsert_pods labels per_pod written.1 in
    (if written.0 then pod ∷ rest.0 else rest.0, rest.1)

unfoldable pub no_additions : Additions
no_additions = record { pod_links = []; peer_label_by_pod = [] }

unfoldable pub upsert_append_links_in_topologies :
    (ℕ → ℤ) → List LinkSpec → List NodeSpec → Stored → List String × Stored
upsert_append_links_in_topologies draw links nodes s =
    let m = collect_links draw nodes links no_additions in
    upsert_pods m.peer_label_by_pod m.pod_links s
