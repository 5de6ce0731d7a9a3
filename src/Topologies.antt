-- ===== src/Topologies.antt =====
-- The entries of Topology objects: backend/helpers/network_modify.go, from ValidateDeleteLinksExist
-- to RemoveLinksReferencingDeletedPods, and buildPerPodLinkEntries. The namespace's objects are a
-- table from pods to the entries of spec.links, each of which is a map of texts; reads and writes of
-- an object that exists do not fail. Maps are gone through in the order of their keys' insertion.
pub mod Removal
mod Deleted
pub mod Appended
mod Wanted
pub mod Upserts
pub mod Upserted
mod Retried
pub mod Create
pub mod Agreed
pub mod Created
pub mod Roundtrip
mod Cases
pub mod Scope
pub mod Readback
mod Reread
mod Samples
use kubendt.Prelude.{
  ℕ, String, Bool, true, false, Option, none, some, is_some, List, [], ◌∷◌, ◌++◌, if◌then◌else◌,
  not, ◌==◌, ◌||◌, string_eq, ℤ, Table, lookup, put, keys, select, contains, append, Result, ok,
  err, ◌>>=◌,
}
use kubendt.Types.{NodeSpec, LinkSpec}
use kubendt.Types.Addresses.{first}
use kubendt.Names.{external_node_name, resolve_pod_name_from_link, to_crd_peer_pod}

pub record Entry : Type 0 where
  pub local_intf : String
  pub local_ip : String
  pub peer_pod : String
  pub peer_intf : String
  pub peer_ip : String
  pub uid : Option ℤ

abbrev pub Objects : Type 0
Objects = Table String (List Entry)

pub data TopologyError : Type 0 where
  no_topology : String → TopologyError
  no_such_link : String → TopologyError

unfoldable pub topology_link_key_for_modify : Entry → String
topology_link_key_for_modify e =
    append e.local_intf (append "|" (append e.peer_pod (append "|" e.peer_intf)))

abbrev pub add_entry : String → Entry → Objects → Objects
add_entry pod entry m = put pod (elim (lookup pod m) [ none ↦ [] | some es ↦ es ] ++ (entry ∷ [])) m

abbrev pub local_entry : String → LinkSpec → Entry
local_entry peer link = record {
  local_intf = link.local_intf;
  local_ip = first link.local_ip;
  peer_pod = to_crd_peer_pod peer;
  peer_intf = link.peer_intf;
  peer_ip = first link.peer_ip;
  uid = none;
}

abbrev pub peer_entry : String → LinkSpec → Entry
peer_entry node link = record {
  local_intf = link.peer_intf;
  local_ip = first link.peer_ip;
  peer_pod = to_crd_peer_pod node;
  peer_intf = link.local_intf;
  peer_ip = first link.local_ip;
  uid = none;
}

unfoldable pub add_link_entries : List NodeSpec → LinkSpec → Objects → Objects
add_link_entries nodes link m =
    let node = resolve_pod_name_from_link link.node nodes in
    let peer = resolve_pod_name_from_link link.peer_node nodes in
    let m' = if node == external_node_name then m else add_entry node (local_entry peer link) m in
    if peer == external_node_name then m' else add_entry peer (peer_entry node link) m'

unfoldable pub build_per_pod_link_entries : List LinkSpec → List NodeSpec → Objects → Objects
build_per_pod_link_entries [] nodes m = m
build_per_pod_link_entries (link ∷ links) nodes m =
    build_per_pod_link_entries links nodes (add_link_entries nodes link m)

abbrev pub link_keys : List Entry → List String
link_keys [] = []
link_keys (e ∷ es) = topology_link_key_for_modify e ∷ link_keys es

unfoldable pub has_all : String → List String → List Entry → Result TopologyError Unit
has_all pod existing [] = ok tt
has_all pod existing (e ∷ es) =
    let rest = has_all pod existing es in
    if contains existing (topology_link_key_for_modify e) then rest else err (no_such_link pod)

unfoldable pub check_pods : Objects → Objects → Result TopologyError Unit
check_pods objects [] = ok tt
check_pods objects ((pod, entries) ∷ per_pod) = elim (lookup pod objects) [
  | none ↦ err (no_topology pod)
  | some existing ↦ has_all pod (link_keys existing) entries >>= λ _. check_pods objects per_pod
]

unfoldable pub validate_delete_links_exist :
    Objects → List LinkSpec → List NodeSpec → Result TopologyError Unit
validate_delete_links_exist objects links nodes =
    check_pods objects (build_per_pod_link_entries links nodes [])

abbrev pub spared : List String → Entry → Bool
spared gone e = not (contains gone (topology_link_key_for_modify e))

abbrev pub any_entry : (Entry → Bool) → List Entry → Bool
any_entry p [] = false
any_entry p (e ∷ es) = p e || any_entry p es

-- An object that keeps all its entries is not written.
unfoldable pub remove_from_pods : Objects → Objects → Result TopologyError (List String × Objects)
remove_from_pods objects [] = ok ([], objects)
remove_from_pods objects ((pod, entries) ∷ per_pod) = elim (lookup pod objects) [
  | none ↦ err (no_topology pod)
  | some existing ↦
      let changed =
        any_entry (λ e. contains (link_keys entries) (topology_link_key_for_modify e)) existing in
      let written =
        if changed
        then put pod (select (spared (link_keys entries)) existing) objects
        else objects in
      remove_from_pods written per_pod >>= λ r. ok (if changed then pod ∷ r.0 else r.0, r.1)
]

unfoldable pub remove_specific_links_from_topologies :
    Objects → List LinkSpec → List NodeSpec → Result TopologyError (List String × Objects)
remove_specific_links_from_topologies objects links nodes =
    remove_from_pods objects (build_per_pod_link_entries links nodes [])

abbrev pub to_deleted : List String → Entry → Bool
to_deleted deleted e = contains deleted e.peer_pod

-- The pods whose objects were written, and the objects.
unfoldable pub remove_links_referencing_deleted_pods : Objects → List String → List String × Objects
remove_links_referencing_deleted_pods [] deleted = ([], [])
remove_links_referencing_deleted_pods ((pod, entries) ∷ objects) deleted =
    let (touched, rest) = remove_links_referencing_deleted_pods objects deleted in
    if contains deleted pod || not (any_entry (to_deleted deleted) entries)
    then (touched, (pod, entries) ∷ rest)
    else (pod ∷ touched, (pod, select (λ e. not (to_deleted deleted e)) entries) ∷ rest)
